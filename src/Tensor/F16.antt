-- ===== src/Tensor/F16.antt =====
-- src/dtype.rs: the conversions between f32 and f16 bit patterns. Shifts and masks are quotients
-- and remainders by powers of two, and `|` on fields that share no bit is a sum.
pub mod Rounding
pub mod RoundTrip
use package.tensor_ash.Prelude.{
  ℕ, zero, suc, ◌+◌, ◌-◌, ◌*◌, ◌/◌, ◌%◌, ◌^◌, Bool, ◌&&◌, ◌||◌, not, ltb, leb, ◌==◌, if◌then◌else◌,
}

-- One more when the rest is above the half, or at it under an odd quotient.
unfoldable pub round_up : ℕ → ℕ → ℕ → ℕ
round_up quotient rest halfway =
    if ltb halfway rest || (rest == halfway && quotient % 2 == 1) then 1 else 0

-- The three fields of an f32: `(bits >> 16) & 0x8000`, the exponent and the mantissa.
abbrev pub sign16 : ℕ → ℕ
sign16 bits = bits / 0x8000_0000 % 2 * 0x8000

abbrev pub exponent : ℕ → ℕ
exponent bits = bits / 0x80_0000 % 0x100

abbrev pub mantissa : ℕ → ℕ
mantissa bits = bits % 0x80_0000

-- The normal range: 23 bits of mantissa are rounded to 10. The exponents are biased by 127 and 15.
unfoldable pub narrow_normal : ℕ → ℕ
narrow_normal bits =
    sign16 bits
    + (exponent bits - 112) * 0x400
    + mantissa bits / 0x2000
    + round_up (mantissa bits / 0x2000) (mantissa bits % 0x2000) 0x1000

-- A subnormal half: the implicit bit is added and shifted away with the rest.
unfoldable pub narrow_subnormal : ℕ → ℕ → ℕ
narrow_subnormal bits shift =
    let full = mantissa bits + 0x80_0000 in
    sign16 bits
    + full / 2 ^ shift
    + round_up (full / 2 ^ shift) (full % 2 ^ shift) (2 ^ (shift - 1))

unfoldable pub f32_to_f16_bits : ℕ → ℕ
f32_to_f16_bits bits =
    if exponent bits == 0xff
    then sign16 bits + 0x7c00 + (if mantissa bits == 0 then 0 else 0x200)
    else if leb 143 (exponent bits)
    then sign16 bits + 0x7c00
    else if leb 113 (exponent bits)
    then narrow_normal bits
    else if leb 102 (exponent bits)
    then narrow_subnormal bits (126 - exponent bits)
    else sign16 bits

-- `u32::leading_zeros`, counted down from 32 bits.
unfoldable pub bit_length : ℕ → ℕ → ℕ
bit_length zero n = 0
bit_length (suc fuel) n = let rest = bit_length fuel (n / 2) in if n == 0 then 0 else 1 + rest

unfoldable pub leading_zeros : ℕ → ℕ
leading_zeros n = 32 - bit_length 32 n

abbrev pub exponent16 : ℕ → ℕ
exponent16 bits = bits / 0x400 % 0x20

abbrev pub mantissa16 : ℕ → ℕ
mantissa16 bits = bits % 0x400

abbrev pub sign32 : ℕ → ℕ
sign32 bits = bits / 0x8000 % 2 * 0x8000_0000

-- The branch of a subnormal half.
unfoldable pub widen_subnormal : ℕ → ℕ
widen_subnormal bits =
    let shift = leading_zeros (mantissa16 bits) - 21 in
    sign32 bits + (112 - shift) * 0x80_0000 + mantissa16 bits * 2 ^ (shift + 1) % 0x400 * 0x2000

-- `0x7fc0_0000 | (mantissa << 13)`, where the quiet bit may be in both.
unfoldable pub widen_nan : ℕ → ℕ
widen_nan bits =
    sign32 bits
    + 0x7f80_0000
    + (if ltb (mantissa16 bits) 0x200 then mantissa16 bits + 0x200 else mantissa16 bits) * 0x2000

unfoldable pub f16_bits_to_f32 : ℕ → ℕ
f16_bits_to_f32 bits =
    if exponent16 bits == 0
    then (if mantissa16 bits == 0 then sign32 bits else widen_subnormal bits)
    else if exponent16 bits == 0x1f
    then (if mantissa16 bits == 0 then sign32 bits + 0x7f80_0000 else widen_nan bits)
    else sign32 bits + (exponent16 bits + 112) * 0x80_0000 + mantissa16 bits * 0x2000

unfoldable pub round_f32_via_f16 : ℕ → ℕ
round_f32_via_f16 value = f16_bits_to_f32 (f32_to_f16_bits value)
