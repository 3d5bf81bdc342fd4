-- ===== src/Tests/Staged.antt =====
-- src/executor/transfer.rs: two values through an f32 tensor of eight bytes.
use tensor_ash.Prelude.{
  ℕ, zero, suc, ◌≡◌, refl, ap, List, [], ◌∷◌, length, true, none, Result, ok, arith,
}
use tensor_ash.Tensor.{Tensor, f32}
use tensor_ash.Transfers.{TransferError, HostBuffer, Slot, Device, upload, download}
use tensor_ash.Transfers.Staging.{Serves}
use tensor_ash.Transfers.RoundTrip.{download-upload}

abbrev zeros : ℕ → List ℕ
zeros zero = []
zeros (suc n) = 0 ∷ zeros n

length-zeros : (n : ℕ) → length (zeros n) ≡ n
length-zeros zero = refl
length-zeros (suc n) = ap suc (length-zeros n)

abbrev driver : ℕ → Result TransferError HostBuffer
driver n = ok (record { visible = true; content = zeros n })

driver-Serves : Serves driver
driver-Serves n pos = (record { visible = true; content = zeros n }, refl, refl, length-zeros n)

abbrev pair : Tensor
pair = record {
  shape = 2 ∷ [];
  dtype = f32;
  buffer = record { context = 1; handle = 7; size_bytes = 8; device_address = 4096 };
}

abbrev fresh_slot : Slot
fresh_slot = record { upload_staging = none; download_staging = none }

abbrev blank : ℕ → List ℕ
blank h = zeros 8

-- 1.0, and the next f32 above it.
download-upload_example :
    (after back : Device) × (upload driver 1
        (record { memory = blank; slots = fresh_slot ∷ [] })
        (0x3f80_0000 ∷ 0x3f80_0001 ∷ [])
        pair
      ≡ ok after)
    × (download driver 1 after pair 2 ≡ ok (back, 0x3f80_0000 ∷ 0x3f80_0001 ∷ []))
    × (after.memory 8 ≡ zeros 8)
download-upload_example =
    download-upload driver 1 pair blank fresh_slot [] 0x3f80_0000 (0x3f80_0001 ∷ []) 8 refl
      driver-Serves (tt, tt) tt refl refl (omega arith) (omega arith) refl
