-- ===== src/Transfers/RoundTrip.antt =====
-- src/executor/transfer.rs: what is uploaded to a tensor is what a download reads back.
use tensor_ash.Prelude.{
  ℕ, suc, ◌*◌, ◌<◌, ◌≤◌, ◌≡◌, refl, sym, ap, ◌∙◌, false, List, [], ◌∷◌, ◌++◌, map, length,
  length-append, take, Result, ok, arith, ◌==◌, u32_mod,
}
use mathlib.Core.Path.{subst}
use mathlib.Core.List.{append-nil}
use tensor_ash.Tensor.{Tensor, DType, f32, f16, size, raw_buffer}
use tensor_ash.Tensor.F16.{f32_to_f16_bits, f16_bits_to_f32}
use tensor_ash.Tensor.F16.Rounding.{f32_to_f16_bits-lt}
use tensor_ash.Executor.Validation.{validate_tensor_context}
use tensor_ash.Transfers.{
  TransferError, HostBuffer, Slot, Device, overwrite, drop, staged_words, loaded_words, to_bytes,
  from_bytes, upload, download, upload_bytes, write_memory, checked_transfer_size, located,
}
use tensor_ash.Transfers.Bytes.{length-to_bytes, from_bytes-to_bytes, AllBelow, take-append}
use tensor_ash.Transfers.Staging.{
  Serves, Usable, upload_with_slot-overwrites, download_with_slot-reads,
}

-- The value that a tensor of this storage type holds for an f32 bit pattern.
abbrev pub stored : DType → ℕ → ℕ
stored f32 v = v
stored f16 v = f16_bits_to_f32 (f32_to_f16_bits v)

length-map : (f : ℕ → ℕ) (vs : List ℕ) → length (map f vs) ≡ length vs
length-map f [] = refl
length-map f (v ∷ vs) = ap suc (length-map f vs)

length-staged : (d : DType) (vs : List ℕ) → length (staged_words d vs) ≡ length vs * size d
unfolding size
length-staged f32 vs = length-to_bytes 4 vs
length-staged f16 vs =
    length-to_bytes 2 (map f32_to_f16_bits vs) ∙ ap (λ n. n * 2) (length-map f32_to_f16_bits vs)

half-fits : (v : ℕ) → v < u32_mod → f32_to_f16_bits v < 65536
half-fits = f32_to_f16_bits-lt

halves-fit : (vs : List ℕ) → AllBelow u32_mod vs → AllBelow 65536 (map f32_to_f16_bits vs)
halves-fit [] all = tt
halves-fit (v ∷ vs) (fits, all) = (half-fits v fits, halves-fit vs all)

map-stored : (vs : List ℕ) → map f16_bits_to_f32 (map f32_to_f16_bits vs) ≡ map (stored f16) vs
map-stored [] = refl
map-stored (v ∷ vs) = ap (λ ws. stored f16 v ∷ ws) (map-stored vs)

map-same : (vs : List ℕ) → vs ≡ map (stored f32) vs
map-same [] = refl
map-same (v ∷ vs) = ap (λ ws. v ∷ ws) (map-same vs)

-- Staged bytes are widened to the stored values.
loaded-staged :
    (d : DType) (vs : List ℕ)
    → AllBelow u32_mod vs
    → loaded_words d (length vs) (staged_words d vs) ≡ map (stored d) vs
loaded-staged f32 vs all =
    ap (from_bytes 4 (length vs)) (sym (append-nil (to_bytes 4 vs)))
    ∙ from_bytes-to_bytes 4 vs [] all
    ∙ map-same vs
loaded-staged f16 vs all =
    let halves = map f32_to_f16_bits vs in
    ap (λ n. map f16_bits_to_f32 (from_bytes 2 n (to_bytes 2 halves)))
      (sym (length-map f32_to_f16_bits vs))
    ∙ ap (λ bs. map f16_bits_to_f32 (from_bytes 2 (length halves) bs))
        (sym (append-nil (to_bytes 2 halves)))
    ∙ ap (map f16_bits_to_f32) (from_bytes-to_bytes 2 halves [] (halves-fit vs all))
    ∙ map-stored vs

located-here : (ctx : ℕ) (t : Tensor) → t.buffer.context ≡ ctx → located ctx t ≡ ok tt
unfolding validate_tensor_context
located-here ctx t e = ground arith

fits-transfer : (n : ℕ) (t : Tensor) → n ≤ t.buffer.size_bytes → checked_transfer_size n t ≡ ok n
unfolding checked_transfer_size
fits-transfer n t h = ground arith

abbrev pub AllUsable : List Slot → Type 0
AllUsable [] = Unit {0}
AllUsable (slot ∷ slots) = Usable slot × AllUsable slots

-- A queue of free slots with a lease that has come back.
returned :
    (slots : List Slot) (slot : Slot)
    → AllUsable slots
    → Usable slot
    → (head : Slot) × (tail : List Slot) × (slots ++ slot ∷ [] ≡ head ∷ tail) × Usable head
returned [] slot all usable = (slot, [], refl, usable)
returned (s ∷ slots) slot (head, all) usable = (s, slots ++ slot ∷ [], refl, head)

module _ (driver : ℕ → Result TransferError HostBuffer) (serves : Serves driver) (ctx : ℕ)
    (t : Tensor) (here : t.buffer.context ≡ ctx) where
  upload-overwrites :
      (memory : ℕ → List ℕ) (slot : Slot) (slots : List Slot) (v : ℕ) (vs : List ℕ)
      → Usable slot
      → length (staged_words t.dtype (v ∷ vs)) ≤ t.buffer.size_bytes
      → 0 < length (staged_words t.dtype (v ∷ vs))
      → (after : Slot) × Usable after
        × (upload driver ctx (record { memory = memory; slots = slot ∷ slots }) (v ∷ vs) t
            ≡ ok (record {
              memory =
                  write_memory memory
                    (raw_buffer t)
                    (overwrite (staged_words t.dtype (v ∷ vs)) (memory (raw_buffer t)));
              slots = slots ++ after ∷ [];
            }))
  unfolding upload upload_bytes
  upload-overwrites memory slot slots v vs usable fits pos =
      let bytes = staged_words t.dtype (v ∷ vs) in
      let (after, usable', run) =
        upload_with_slot-overwrites driver serves slot bytes (memory (raw_buffer t)) pos usable in
      (after, usable', rw (located-here ctx t here, fits-transfer (length bytes) t fits, run) refl)

  download-reads :
      (memory : ℕ → List ℕ) (slot : Slot) (slots : List Slot) (more : ℕ)
      → Usable slot
      → suc more * size t.dtype ≤ t.buffer.size_bytes
      → suc more * size t.dtype ≤ length (memory (raw_buffer t))
      → 0 < suc more * size t.dtype
      → (back : Device) × (download driver ctx
            (record { memory = memory; slots = slot ∷ slots })
            t
            (suc more)
          ≡ ok (
            back,
            loaded_words t.dtype
                (suc more)
                (take (suc more * size t.dtype) (memory (raw_buffer t))),
          ))
  unfolding download
  download-reads memory slot slots more usable fits backed pos =
      let n = suc more * size t.dtype in
      let (after, usable', run) =
        download_with_slot-reads driver serves slot (memory (raw_buffer t)) n pos backed usable in
      (
        record { memory = memory; slots = slots ++ after ∷ [] },
        rw (located-here ctx t here, fits-transfer n t fits, run) refl,
      )

size-positive : (d : DType) → 0 < size d
unfolding size
size-positive f32 = omega arith
size-positive f16 = omega arith

abbrev holding : (ℕ → List ℕ) → List Slot → Device
holding memory slots = record { memory = memory; slots = slots }

-- The same for either storage type, with the code's own conversions. Where the driver serves and
-- every free slot is usable, of which there is at least one, a tensor of the context takes a slice
-- of f32 values that fits it and its buffer: the upload succeeds and leaves every other buffer
-- alone, and a download of as many values then succeeds and returns each as the tensor stores it,
-- unchanged in f32 and rounded through f16 otherwise.
download-upload_stored :
    (driver : ℕ → Result TransferError HostBuffer) (ctx : ℕ) (t : Tensor) (memory : ℕ → List ℕ)
    (slot : Slot) (slots : List Slot) (v : ℕ) (vs : List ℕ) (other : ℕ)
    → Serves driver
    → Usable slot
    → AllUsable slots
    → t.buffer.context ≡ ctx
    → length (memory (raw_buffer t)) ≡ t.buffer.size_bytes
    → length (v ∷ vs) * size t.dtype ≤ t.buffer.size_bytes
    → AllBelow u32_mod (v ∷ vs)
    → (other == raw_buffer t) ≡ false
    → (after back : Device) × (upload driver ctx
          (record { memory = memory; slots = slot ∷ slots })
          (v ∷ vs)
          t
        ≡ ok after)
      × (download driver ctx after t (length (v ∷ vs)) ≡ ok (back, map (stored t.dtype) (v ∷ vs)))
      × (after.memory other ≡ memory other)
download-upload_stored driver ctx t memory slot slots v vs other serves usable all here backed fits
      below apart =
    let bytes = staged_words t.dtype (v ∷ vs) in
    let staged = length-staged t.dtype (v ∷ vs) in
    let pos : 0 < length (v ∷ vs) * size t.dtype = grind (arith, size-positive t.dtype) in
    let (slot', usable', up) =
      upload-overwrites driver serves ctx t here memory slot slots v vs usable
        (omega (arith, staged)) (omega (arith, staged)) in
    let written = write_memory memory (raw_buffer t) (overwrite bytes (memory (raw_buffer t))) in
    let (head, tail, queue, usable_head) = returned slots slot' all usable' in
    let found : written (raw_buffer t) ≡ overwrite bytes (memory (raw_buffer t)) = ground arith in
    let long = length-append bytes (drop (length bytes) (memory (raw_buffer t))) in
    let (back, down) =
      download-reads driver serves ctx t here written head tail (length vs) usable_head fits
        (omega (arith, ap length found, long, staged)) pos in
    let read =
      ap (take (length (v ∷ vs) * size t.dtype)) found
      ∙ ap (λ n. take n (overwrite bytes (memory (raw_buffer t)))) (sym staged)
      ∙ take-append bytes (drop (length bytes) (memory (raw_buffer t))) in
    (
      holding written (slots ++ slot' ∷ []),
      back,
      up,
      subst
          (λ q.
            download driver ctx (holding written q) t (length (v ∷ vs))
            ≡ ok (back, map (stored t.dtype) (v ∷ vs)))
          (sym queue)
          (down
            ∙ ap (λ bs. ok (back, loaded_words t.dtype (length (v ∷ vs)) bs)) read
            ∙ ap (λ ws. ok (back, ws)) (loaded-staged t.dtype (v ∷ vs) below)),
      rw apart refl,
    )

-- Where the driver serves and every free slot is usable, of which there is at least one, an f32
-- tensor of the context takes a non-empty slice of f32 values that fits it and its buffer: the
-- upload succeeds and leaves every other buffer alone, and a download of as many values then
-- succeeds and returns exactly those values.
pub download-upload :
    (driver : ℕ → Result TransferError HostBuffer) (ctx : ℕ) (t : Tensor) (memory : ℕ → List ℕ)
    (slot : Slot) (slots : List Slot) (v : ℕ) (vs : List ℕ) (other : ℕ)
    → t.dtype ≡ f32
    → Serves driver
    → Usable slot
    → AllUsable slots
    → t.buffer.context ≡ ctx
    → length (memory (raw_buffer t)) ≡ t.buffer.size_bytes
    → length (v ∷ vs) * 4 ≤ t.buffer.size_bytes
    → AllBelow u32_mod (v ∷ vs)
    → (other == raw_buffer t) ≡ false
    → (after back : Device) × (upload driver ctx
          (record { memory = memory; slots = slot ∷ slots })
          (v ∷ vs)
          t
        ≡ ok after)
      × (download driver ctx after t (length (v ∷ vs)) ≡ ok (back, v ∷ vs))
      × (after.memory other ≡ memory other)
unfolding size
download-upload driver ctx t memory slot slots v vs other full serves usable all here backed fits
      below apart =
    let (after, back, up, down, rest) =
      download-upload_stored driver ctx t memory slot slots v vs other serves usable all here backed
        (subst (λ d. length (v ∷ vs) * size d ≤ t.buffer.size_bytes) (sym full) fits) below apart in
    (
      after,
      back,
      up,
      down
          ∙ ap (λ ws. ok (back, ws))
              (ap (λ d. map (stored d) (v ∷ vs)) full ∙ sym (map-same (v ∷ vs))),
      rest,
    )
