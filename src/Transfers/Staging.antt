-- ===== src/Transfers/Staging.antt =====
-- src/executor/slot.rs and src/executor/transfer.rs: what a staged copy moves.
use tensor_ash.Prelude.{
  ℕ, ◌<◌, ◌≤◌, ◌≡◌, refl, ap, true, Option, none, some, List, length, length-append, take, Result,
  ok, arith, inl, inr, Bool-cases, leb,
}
use mathlib.Core.Path.{subst}
use tensor_ash.Transfers.{
  TransferError, HostBuffer, Slot, drop, overwrite, copied, ensure_slot_buffer, new_buffer,
  write_from_slice, read_from, upload_with_slot, download_with_slot,
}
use tensor_ash.Transfers.Bytes.{take-append, length-take}

-- What is relied on of the driver: a host buffer of any size but 0 is given, mapped, and of that
-- size.
abbrev pub Serves : (ℕ → Result TransferError HostBuffer) → Type 0
Serves driver =
    (n : ℕ)
    → 0 < n
    → (b : HostBuffer) × (driver n ≡ ok b) × (b.visible ≡ true) × (length b.content ≡ n)

-- A staging buffer that a slot holds is mapped.
abbrev pub Mapped : Option HostBuffer → Type 0
Mapped none = Unit {0}
Mapped (some b) = b.visible ≡ true

abbrev pub Usable : Slot → Type 0
Usable slot = Mapped slot.upload_staging × Mapped slot.download_staging

-- The bytes fit the copy's source and destination alike.
pub copied_self :
    (bytes content dst : List ℕ)
    → copied (length bytes) (overwrite bytes content) dst ≡ overwrite bytes dst
copied_self bytes content dst =
    ap (λ (xs : List ℕ). overwrite xs dst) (take-append bytes (drop (length bytes) content))

write_from_slice-fits :
    (b : HostBuffer) (bytes : List ℕ)
    → b.visible ≡ true
    → length bytes ≤ length b.content
    → write_from_slice b bytes ≡ ok (record b { content = overwrite bytes b.content })
unfolding write_from_slice
write_from_slice-fits b bytes visible fits = ground arith

read_from-fits :
    (b : HostBuffer) (len : ℕ)
    → b.visible ≡ true
    → len ≤ length b.content
    → read_from b len ≡ ok (take len b.content)
unfolding read_from
read_from-fits b len visible fits = ground arith

-- The first bytes of a copy are those of its source.
take-copied :
    (size : ℕ) (src dst : List ℕ)
    → size ≤ length src
    → (take size (copied size src dst) ≡ take size src) × (size ≤ length (copied size src dst))
take-copied size src dst fits =
    let whole = length-take size src fits in
    (
      subst (λ n. take n (copied size src dst) ≡ take size src) whole
          (take-append (take size src) (drop (length (take size src)) dst)),
      omega (arith, whole, length-append (take size src) (drop (length (take size src)) dst)),
    )

module _ (driver : ℕ → Result TransferError HostBuffer) (serves : Serves driver) where
  pub ensure_slot_buffer-holds :
      (cache : Option HostBuffer) (size : ℕ)
      → 0 < size
      → Mapped cache
      → (b : HostBuffer) × (ensure_slot_buffer driver cache size ≡ ok b)
        × (b.visible ≡ true)
        × (size ≤ length b.content)
  unfolding ensure_slot_buffer new_buffer
  ensure_slot_buffer-holds none size pos mapped =
      let (b, given, visible, len) = serves size pos in
      (b, ground (arith, given), visible, omega (arith, len))
  ensure_slot_buffer-holds (some old) size pos mapped =
      elim (Bool-cases (leb size (length old.content))) [
        | inl fits ↦ (old, rw fits refl, mapped, ground arith)
        | inr small ↦
            let (b, given, visible, len) = serves size pos in
            (b, ground (arith, given), visible, omega (arith, len))
      ]

  -- The destination then starts with the bytes, and keeps what lies behind them.
  pub upload_with_slot-overwrites :
      (slot : Slot) (bytes dst : List ℕ)
      → 0 < length bytes
      → Usable slot
      → (after : Slot) × Usable after
        × (upload_with_slot driver slot bytes dst (length bytes) ≡ ok (after, overwrite bytes dst))
  unfolding upload_with_slot
  upload_with_slot-overwrites slot bytes dst pos (up, down) =
      let (b, held, visible, fits) =
        ensure_slot_buffer-holds slot.upload_staging (length bytes) pos up in
      let staged : HostBuffer = record b { content = overwrite bytes b.content } in
      (
        record slot { upload_staging = some staged },
        (visible, down),
        rw (held, write_from_slice-fits b bytes visible fits, copied_self bytes b.content dst) refl,
      )

  pub download_with_slot-reads :
      (slot : Slot) (src : List ℕ) (size : ℕ)
      → 0 < size
      → size ≤ length src
      → Usable slot
      → (after : Slot) × Usable after
        × (download_with_slot driver slot src size ≡ ok (after, take size src))
  unfolding download_with_slot
  download_with_slot-reads slot src size pos fits (up, down) =
      let (b, held, visible, holds) =
        ensure_slot_buffer-holds slot.download_staging size pos down in
      let filled : HostBuffer = record b { content = copied size src b.content } in
      let (same, long) = take-copied size src b.content fits in
      (
        record slot { download_staging = some filled },
        (up, visible),
        rw (held, read_from-fits filled size visible long, same) refl,
      )
