-- ===== src/Tests/Halves.antt =====
-- src/dtype.rs at the bit patterns of the repository's tests.
use tensor_ash.Prelude.{◌<◌, ◌≡◌, refl, inl, arith}
use tensor_ash.Tensor.F16.{
  f32_to_f16_bits, f16_bits_to_f32, narrow_normal, narrow_subnormal, round_up,
}
use tensor_ash.Tensor.F16.Rounding.{Rounded, f32_to_f16_bits-Rounded}
use tensor_ash.Tensor.F16.RoundTrip.{f16_bits_to_f32-f32_to_f16_bits, subnormal-lost}

-- 1.0, -2.0, 65504.0, 65520.0, the smallest subnormal and an underflow.
known_encodings :
    (f32_to_f16_bits 0x3f80_0000 ≡ 0x3c00)
    × (f32_to_f16_bits 0xc000_0000 ≡ 0xc000)
    × (f32_to_f16_bits 0x477f_e000 ≡ 0x7bff)
    × (f32_to_f16_bits 0x477f_f000 ≡ 0x7c00)
    × (f32_to_f16_bits 0x3380_0000 ≡ 1)
    × (f32_to_f16_bits 0x2edb_e6ff ≡ 0)
unfolding f32_to_f16_bits narrow_normal narrow_subnormal round_up
known_encodings = (refl, refl, refl, refl, refl, refl)

f32_to_f16_bits-Rounded_example : Rounded 0x3f80_3000 (f32_to_f16_bits 0x3f80_3000)
f32_to_f16_bits-Rounded_example =
    f32_to_f16_bits-Rounded 0x3f80_3000 (omega arith) (omega arith) (omega arith)

f16_bits_to_f32-f32_to_f16_bits_example : f32_to_f16_bits (f16_bits_to_f32 0xc000) ≡ 0xc000
f16_bits_to_f32-f32_to_f16_bits_example =
    f16_bits_to_f32-f32_to_f16_bits 0xc000 (omega arith) (inl (omega arith, omega arith))

subnormal-lost_example : f32_to_f16_bits (f16_bits_to_f32 0x200) < 0x200
subnormal-lost_example = subnormal-lost 0x200 (omega arith) (omega arith) (omega arith)
