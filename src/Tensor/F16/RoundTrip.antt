-- ===== src/Tensor/F16/RoundTrip.antt =====
-- src/dtype.rs: widening and narrowing again.
use tensor_ash.Prelude.{
  ℕ, zero, suc, ◌+◌, ◌-◌, ◌<◌, ◌≡◌, refl, ◌⊎◌, inl, inr, arith, Bool, true, ◌&&◌, ltb, sym,
}
use mathlib.Core.Path.{subst}
use tensor_ash.Tensor.F16.{
  round_up, exponent16, mantissa16, narrow_normal, narrow_subnormal, leading_zeros, bit_length,
  widen_subnormal, widen_nan, f32_to_f16_bits, f16_bits_to_f32,
}

-- A zero, a normal half or an infinity comes back from f32 with the same bits.
pub f16_bits_to_f32-f32_to_f16_bits :
    (bits : ℕ)
    → bits < 0x1_0000
    → ((0 < exponent16 bits) × (exponent16 bits < 31)) ⊎ (mantissa16 bits ≡ 0)
    → f32_to_f16_bits (f16_bits_to_f32 bits) ≡ bits
unfolding f32_to_f16_bits f16_bits_to_f32 narrow_normal round_up
f16_bits_to_f32-f32_to_f16_bits bits h (inl (lo, hi)) = ground arith
f16_bits_to_f32-f32_to_f16_bits bits h (inr none_) = ground arith

all_below : (ℕ → Bool) → ℕ → Bool
all_below test zero = true
all_below test (suc n) = all_below test n && test n

lt-or-eq : (i n : ℕ) → i < suc n → (i < n) ⊎ (i ≡ n)
lt-or-eq i n h = ground arith

all_below-at : (test : ℕ → Bool) (n i : ℕ) → all_below test n ≡ true → i < n → test i ≡ true
unfolding all_below
all_below-at test zero i e h = absurd (omega arith)
all_below-at test (suc n) i e h = elim (lt-or-eq i n h) [
  | inl before ↦ all_below-at test n i (ground arith) before
  | inr same ↦ subst (λ j. test j ≡ true) (sym same) (ground arith)
]

-- Narrowing the widened pattern of the subnormal half with mantissa `m + 1` gives a smaller one.
shrinks : ℕ → Bool
shrinks m =
    ltb (f32_to_f16_bits (f16_bits_to_f32 (m + 1))) (m + 1)
    && ltb (f32_to_f16_bits (f16_bits_to_f32 (0x8000 + (m + 1)))) (0x8000 + (m + 1))

all-shrink : all_below shrinks 1023 ≡ true
unfolding all_below shrinks f32_to_f16_bits f16_bits_to_f32 narrow_normal narrow_subnormal round_up
    widen_subnormal leading_zeros bit_length widen_nan
all-shrink = refl

shrinks-at :
    (bits m : ℕ)
    → shrinks m ≡ true
    → (bits ≡ m + 1) ⊎ (bits ≡ 0x8000 + (m + 1))
    → f32_to_f16_bits (f16_bits_to_f32 bits) < bits
unfolding shrinks
shrinks-at bits m e (inl h) = rw h (ground arith)
shrinks-at bits m e (inr h) = rw h (ground arith)

-- A subnormal half that is not zero never comes back: narrowing its widened pattern gives a
-- smaller one.
pub subnormal-lost :
    (bits : ℕ)
    → bits < 0x1_0000
    → exponent16 bits ≡ 0
    → 0 < mantissa16 bits
    → f32_to_f16_bits (f16_bits_to_f32 bits) < bits
subnormal-lost bits h e pos =
    let at : shrinks (mantissa16 bits - 1) ≡ true =
      all_below-at shrinks 1023 (mantissa16 bits - 1) all-shrink (omega arith) in
    shrinks-at bits (mantissa16 bits - 1) at (ground arith)
