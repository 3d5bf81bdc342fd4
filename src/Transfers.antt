-- ===== src/Transfers.antt =====
-- src/executor/transfer.rs, src/executor/slot.rs, src/executor/cells.rs and the host copies of
-- src/buffer.rs: tensors are filled and read back through staging buffers. Memory is the list of
-- the bytes of a buffer; the slots of an executor are a queue. Allocation by the driver is a
-- parameter; a copy on the device is what its region says, and its failure is left out.
pub mod Bytes
pub mod Staging
pub mod RoundTrip
use package.tensor_ash.Prelude.{
  ℕ, zero, suc, ◌+◌, ◌*◌, ◌/◌, ◌%◌, Bool, true, false, not, Option, none, some, List, [], ◌∷◌, ◌++◌,
  map, length, take, Result, ok, err, ◌>>=◌, ◌>>◌, bail_if, if◌then◌else◌, ltb, leb, ◌==◌, u32_mod,
  checked_mul,
}
use package.tensor_ash.Tensor.{Tensor, DType, f32, f16, is_f16, raw_buffer, size}
use package.tensor_ash.Tensor.F16.{f32_to_f16_bits, f16_bits_to_f32}
use package.tensor_ash.Executor.Validation.{ContextError, validate_tensor_context}

abbrev pub drop {ℓ} : {A : Type ℓ} → ℕ → List A → List A
drop zero xs = xs
drop (suc n) [] = []
drop (suc n) (x ∷ xs) = drop n xs

-- `bytemuck::cast_slice` of little-endian words, into bytes and back. A tail that is no whole word
-- is left over.
unfoldable pub word_bytes : ℕ → ℕ → List ℕ
word_bytes zero v = []
word_bytes (suc width) v = v % 256 ∷ word_bytes width (v / 256)

unfoldable pub bytes_word : List ℕ → ℕ
bytes_word [] = 0
bytes_word (b ∷ bs) = b + 256 * bytes_word bs

unfoldable pub to_bytes : ℕ → List ℕ → List ℕ
unfolding word_bytes
to_bytes width [] = []
to_bytes width (v ∷ vs) = word_bytes width v ++ to_bytes width vs

-- The words of a slice of `count` elements.
unfoldable pub from_bytes : ℕ → ℕ → List ℕ → List ℕ
unfolding bytes_word
from_bytes width zero bytes = []
from_bytes width (suc count) bytes =
    bytes_word (take width bytes) ∷ from_bytes width count (drop width bytes)

pub data TransferError : Type 0 where
  not_host_visible exceeds_buffer exceeds_tensor wrong_dtype empty_buffer out_of_memory :
      TransferError
  exceeds_cap no_slot no_addresses : TransferError
  misplaced : ContextError → TransferError

-- A copy of the first bytes over those of a buffer.
abbrev pub overwrite : List ℕ → List ℕ → List ℕ
overwrite bytes content = bytes ++ drop (length bytes) content

-- A buffer that was allocated for the host, by its bytes; `visible` is what its memory type says.
pub record HostBuffer : Type 0 where
  pub visible : Bool
  pub content : List ℕ

-- `write_from_slice` and `read_pod_slice`, on bytes.
unfoldable pub write_from_slice : HostBuffer → List ℕ → Result TransferError HostBuffer
write_from_slice b bytes = do
  bail_if (not b.visible) not_host_visible
  bail_if (ltb (length b.content) (length bytes)) exceeds_buffer
  ok (record b { content = overwrite bytes b.content })

unfoldable pub read_from : HostBuffer → ℕ → Result TransferError (List ℕ)
read_from b len = do
  bail_if (not b.visible) not_host_visible
  bail_if (ltb (length b.content) len) exceeds_buffer
  ok (take len b.content)

-- `Buffer::new`, over the driver's allocation.
unfoldable pub new_buffer :
    (ℕ → Result TransferError HostBuffer) → ℕ → Result TransferError HostBuffer
new_buffer driver size = do bail_if (size == 0) empty_buffer; driver size

abbrev keeps_buffer : Option HostBuffer → ℕ → Bool
keeps_buffer none size = false
keeps_buffer (some b) size = leb size (length b.content)

abbrev cached_buffer :
    (ℕ → Result TransferError HostBuffer) → Option HostBuffer → ℕ → Result TransferError HostBuffer
cached_buffer driver none size = new_buffer driver size
cached_buffer driver (some b) size =
    if leb size (length b.content) then ok b else new_buffer driver size

-- `ensure_slot_buffer`: the buffer that the slot holds afterwards.
unfoldable pub ensure_slot_buffer :
    (ℕ → Result TransferError HostBuffer) → Option HostBuffer → ℕ → Result TransferError HostBuffer
unfolding new_buffer
ensure_slot_buffer driver cache size = cached_buffer driver cache size

pub record Slot : Type 0 where
  pub upload_staging : Option HostBuffer
  pub download_staging : Option HostBuffer

-- The memory behind the device buffers, by handle, and the queue of free slots.
pub record Device : Type 0 where
  pub memory : ℕ → List ℕ
  pub slots : List Slot

abbrev pub write_memory : (ℕ → List ℕ) → ℕ → List ℕ → ℕ → List ℕ
write_memory memory handle bytes h = if h == handle then bytes else memory h

-- `size_of_slice` and `checked_transfer_size`.
unfoldable pub checked_transfer_size : ℕ → Tensor → Result TransferError ℕ
checked_transfer_size size t = do bail_if (ltb t.buffer.size_bytes size) exceeds_tensor; ok size

-- `cmd_copy_buffer` with one region of `size` bytes from the start of both buffers.
abbrev pub copied : ℕ → List ℕ → List ℕ → List ℕ
copied size src dst = overwrite (take size src) dst

-- The values as they are staged, and as they are widened after the copy.
abbrev pub staged_words : DType → List ℕ → List ℕ
staged_words f32 vs = to_bytes 4 vs
staged_words f16 vs = to_bytes 2 (map f32_to_f16_bits vs)

abbrev pub loaded_words : DType → ℕ → List ℕ → List ℕ
loaded_words f32 count bytes = from_bytes 4 count bytes
loaded_words f16 count bytes = map f16_bits_to_f32 (from_bytes 2 count bytes)

abbrev pub located : ℕ → Tensor → Result TransferError (Unit {0})
located ctx t = elim (validate_tensor_context ctx t) [ ok u ↦ ok u | err e ↦ err (misplaced e) ]

module _ (driver : ℕ → Result TransferError HostBuffer) where
  -- `upload_with_slot`: the slot and the contents of the destination afterwards.
  unfoldable pub upload_with_slot :
      Slot → List ℕ → List ℕ → ℕ → Result TransferError (Slot × List ℕ)
  upload_with_slot slot bytes dst size = do
    staging ← ensure_slot_buffer driver slot.upload_staging size
    staged ← write_from_slice staging bytes
    ok (record slot { upload_staging = some staged }, copied size staged.content dst)

  -- `download_with_slot`: the slot, and the bytes that were read.
  unfoldable pub download_with_slot : Slot → List ℕ → ℕ → Result TransferError (Slot × List ℕ)
  download_with_slot slot src size = do
    staging ← ensure_slot_buffer driver slot.download_staging size
    let filled : HostBuffer = record staging { content = copied size src staging.content }
    bytes ← read_from filled size
    ok (record slot { download_staging = some filled }, bytes)

  -- `checkout_slot` takes the first free slot, and waits where there is none; a lease that ends
  -- puts it back behind the others.
  unfoldable pub upload_bytes : Device → List ℕ → Tensor → Result TransferError Device
  unfolding upload_with_slot checked_transfer_size
  upload_bytes dev bytes dst = do
    size ← checked_transfer_size (length bytes) dst
    elim dev.slots [
      | [] ↦ err no_slot
      | slot ∷ slots ↦ do
        (slot', content) ← upload_with_slot slot bytes (dev.memory (raw_buffer dst)) size
        ok (record {
          memory = write_memory dev.memory (raw_buffer dst) content;
          slots = slots ++ slot' ∷ [];
        })
    ]

  -- `Executor::upload` of f32 bit patterns, which an f16 tensor rounds.
  unfoldable pub upload : ℕ → Device → List ℕ → Tensor → Result TransferError Device
  unfolding upload_bytes
  upload ctx dev [] dst = do located ctx dst; ok dev
  upload ctx dev (v ∷ vs) dst = do
    located ctx dst
    upload_bytes dev (staged_words dst.dtype (v ∷ vs)) dst

  -- `Executor::upload_f16`.
  unfoldable pub upload_f16 : ℕ → Device → List ℕ → Tensor → Result TransferError Device
  unfolding upload_bytes
  upload_f16 ctx dev [] dst = do located ctx dst; ok dev
  upload_f16 ctx dev (v ∷ vs) dst = do
    located ctx dst
    bail_if (not (is_f16 dst.dtype)) wrong_dtype
    upload_bytes dev (to_bytes 2 (v ∷ vs)) dst

  -- `Executor::download` into a slice of `len` values.
  unfoldable pub download : ℕ → Device → Tensor → ℕ → Result TransferError (Device × List ℕ)
  unfolding download_with_slot checked_transfer_size
  download ctx dev src zero = do located ctx src; ok (dev, [])
  download ctx dev src (suc more) = do
    located ctx src
    bytes_len ← checked_transfer_size (suc more * size src.dtype) src
    elim dev.slots [
      | [] ↦ err no_slot
      | slot ∷ slots ↦ do
        (slot', bytes) ← download_with_slot slot (dev.memory (raw_buffer src)) bytes_len
        ok (record dev { slots = slots ++ slot' ∷ [] }, loaded_words src.dtype (suc more) bytes)
    ]

  -- `upload_bytes_to_buffer`, into a buffer that is known by its handle and its size.
  unfoldable pub upload_bytes_to_buffer : Device → ℕ → ℕ → List ℕ → Result TransferError Device
  unfolding upload_with_slot
  upload_bytes_to_buffer dev handle buffer_size [] = ok dev
  upload_bytes_to_buffer dev handle buffer_size (b ∷ bs) = do
    bail_if (ltb buffer_size (length (b ∷ bs))) exceeds_buffer
    elim dev.slots [
      | [] ↦ err no_slot
      | slot ∷ slots ↦ do
        (slot', content) ← upload_with_slot slot (b ∷ bs) (dev.memory handle) (length (b ∷ bs))
        ok (record { memory = write_memory dev.memory handle content; slots = slots ++ slot' ∷ [] })
    ]

-- The cells of `src/executor/cells.rs`: `U32Cell::set` and `read`, and `TokenIdBuffer::write`,
-- whose count is truncated to 32 bits before it is compared.
unfoldable pub set_cell : HostBuffer → ℕ → Result TransferError HostBuffer
unfolding write_from_slice
set_cell cell value = write_from_slice cell (to_bytes 4 (value ∷ []))

unfoldable pub read_cell : HostBuffer → Result TransferError ℕ
unfolding read_from
read_cell cell = do bytes ← read_from cell 4; ok (bytes_word bytes)

pub record TokenIdBuffer : Type 0 where
  pub buffer : HostBuffer
  pub cap : ℕ

unfoldable pub create_token_id_buffer :
    (ℕ → Result TransferError HostBuffer) → Bool → ℕ → Result TransferError TokenIdBuffer
unfolding new_buffer
create_token_id_buffer driver bda cap = do
  bail_if (cap == 0) empty_buffer
  bail_if (not bda) no_addresses
  bytes ← elim (checked_mul cap 4) [ none ↦ err exceeds_cap | some bytes ↦ ok bytes ]
  buffer ← new_buffer driver bytes
  ok (record { buffer = buffer; cap = cap })

unfoldable pub write_tokens : TokenIdBuffer → List ℕ → Result TransferError TokenIdBuffer
unfolding write_from_slice
write_tokens t ids = do
  bail_if (ltb t.cap (length ids % u32_mod)) exceeds_cap
  buffer ← write_from_slice t.buffer (to_bytes 4 ids)
  ok (record t { buffer = buffer })
