-- ===== src/Tensor/F16/Rounding.antt =====
-- src/dtype.rs: narrowing rounds to the nearest half, ties to even.
use tensor_ash.Prelude.{
  ℕ, zero, suc, ◌+◌, ◌-◌, ◌*◌, ◌/◌, ◌%◌, ◌^◌, ◌<◌, ◌≤◌, ◌≡◌, ◌∙◌, ◌⊎◌, inl, inr, arith, u32_mod,
  min, mul_mono_right, sym, ap,
}
use mathlib.Core.Path.{subst}
use tensor_ash.Tensor.F16.{
  round_up, exponent, mantissa, narrow_normal, narrow_subnormal, f32_to_f16_bits,
}

-- `q` units are nearest to `full`, and even when another count is as near.
pub record Nearest (full unit q : ℕ) : Type 0 where
  pub above : 2 * full ≤ 2 * (q * unit) + unit
  pub below : 2 * (q * unit) ≤ 2 * full + unit
  pub tie : (2 * full ≡ 2 * (q * unit) + unit) ⊎ (2 * (q * unit) ≡ 2 * full + unit) → q % 2 ≡ 0

round_up-Nearest :
    (full half q rest : ℕ)
    → 0 < half
    → full ≡ q * (2 * half) + rest
    → rest < 2 * half
    → Nearest full (2 * half) (q + round_up q rest half)
unfolding round_up
round_up-Nearest full half q rest pos whole small = record {
  above = ground arith;
  below = ground arith;
  tie = λ t. ground arith;
}

-- The exponent of the last place of the half, in units of the last place of the f32, and the
-- patterns that the steps of the exponent skip.
abbrev pub place : ℕ → ℕ
place bits = 126 - min (exponent bits) 113

abbrev pub skipped : ℕ → ℕ
skipped bits = (exponent bits - 113) * 0x400

pow_suc : (n : ℕ) → 2 ^ suc n ≡ 2 * 2 ^ n
pow_suc n = omega arith

pow_large : (k : ℕ) → 8192 ≤ 2 ^ (k + 13)
pow_large zero = omega arith
pow_large (suc k) = subst (λ m. 8192 ≤ 2 ^ m) (omega arith) (pow_up (k + 13) (pow_large k))
  where
    pow_up : (n : ℕ) → 8192 ≤ 2 ^ n → 8192 ≤ 2 ^ suc n
    pow_up n h = omega (arith, pow_suc n)

divided : (a b : ℕ) → 0 < b → (a ≡ a / b * b + a % b) × (a % b < b)
divided a b h = grind arith

up-le : (a r h : ℕ) → round_up a r h ≤ 1
unfolding round_up
up-le a r h = ground arith

parity : (a r h : ℕ) → round_up (0x400 + a) r h ≡ round_up a r h
unfolding round_up
parity a r h = ground arith

-- A quotient by a power of two of at least 2^14, rounded.
shifted-Nearest :
    (full n : ℕ)
    → full < 0x100_0000
    → 13 ≤ n
    → Nearest full
        (2 ^ suc n)
        (full / 2 ^ suc n + round_up (full / 2 ^ suc n) (full % 2 ^ suc n) (2 ^ n))
      × (full / 2 ^ suc n ≤ 0x400)
shifted-Nearest full n h k =
    let large : 8192 ≤ 2 ^ n = subst (λ m. 8192 ≤ 2 ^ m) (omega arith) (pow_large (n - 13)) in
    let double : 2 ^ suc n ≡ 2 * 2 ^ n = pow_suc n in
    let (whole, small) = divided full (2 ^ suc n) (omega arith) in
    let bounded : full / 2 ^ suc n * 0x4000 ≤ full / 2 ^ suc n * 2 ^ suc n =
      mul_mono_right 0x4000 (2 ^ suc n) (full / 2 ^ suc n) (omega arith) in
    (
      subst
          (λ u.
            Nearest full u
              (full / 2 ^ suc n + round_up (full / 2 ^ suc n) (full % 2 ^ suc n) (2 ^ n)))
          (sym double)
          (round_up-Nearest full (2 ^ n) (full / 2 ^ suc n) (full % 2 ^ suc n) (omega arith)
            (omega (arith, whole, ap (λ u. full / 2 ^ suc n * u) double)) (omega arith)),
      omega arith,
    )

-- The sign, the skipped patterns and a count of units nearest to the significand.
pub Rounded : ℕ → ℕ → Type 0
Rounded bits half =
    (q : ℕ) × (half ≡ bits / 0x8000_0000 * 0x8000 + skipped bits + q)
    × Nearest (mantissa bits + 0x80_0000) (2 ^ place bits) q
    × (half < 0x1_0000)

narrow_normal-Rounded :
    (bits : ℕ)
    → bits < u32_mod
    → 113 ≤ exponent bits
    → exponent bits < 143
    → Rounded bits (narrow_normal bits)
unfolding Rounded narrow_normal
narrow_normal-Rounded bits h lo hi =
    let thirteen : place bits ≡ 13 = omega arith in
    let m = mantissa bits / 0x2000 in
    let r = mantissa bits % 0x2000 in
    let up : round_up m r 0x1000 ≤ 1 = up-le m r 0x1000 in
    (
      0x400 + m + round_up m r 0x1000,
      omega arith,
      rw (thirteen, sym (parity m r 0x1000))
          (round_up-Nearest (mantissa bits + 0x80_0000) 0x1000 (0x400 + m) r (omega arith)
            (omega arith) (omega arith)),
      omega arith,
    )

narrow_subnormal-Rounded :
    (bits n : ℕ)
    → bits < u32_mod
    → exponent bits < 113
    → 102 ≤ exponent bits
    → 126 - exponent bits ≡ suc n
    → Rounded bits (narrow_subnormal bits (suc n))
unfolding Rounded narrow_subnormal
narrow_subnormal-Rounded bits n h hi lo e =
    let at : place bits ≡ suc n = omega arith in
    let full = mantissa bits + 0x80_0000 in
    let down : suc n - 1 ≡ n = omega arith in
    let (near, bound) = shifted-Nearest full n (omega arith) (omega arith) in
    let up = up-le (full / 2 ^ suc n) (full % 2 ^ suc n) (2 ^ n) in
    (
      full / 2 ^ suc n + round_up (full / 2 ^ suc n) (full % 2 ^ suc n) (2 ^ n),
      rw down (omega arith),
      rw at near,
      rw down (omega arith),
    )

-- An f32 whose exponent lies in the range of the normal and subnormal halves keeps its sign, and
-- its significand is rounded to the nearest multiple of the half's last place, a tie to an even
-- pattern; the result fits in 16 bits.
pub f32_to_f16_bits-Rounded :
    (bits : ℕ)
    → bits < u32_mod
    → 102 ≤ exponent bits
    → exponent bits < 143
    → Rounded bits (f32_to_f16_bits bits)
unfolding f32_to_f16_bits
f32_to_f16_bits-Rounded bits h lo hi = elim (split (exponent bits)) [
  | inl normal ↦
      let chosen : f32_to_f16_bits bits ≡ narrow_normal bits = ground arith in
      subst (Rounded bits) (sym chosen) (narrow_normal-Rounded bits h normal hi)
  | inr sub ↦
      let chosen : f32_to_f16_bits bits ≡ narrow_subnormal bits (126 - exponent bits) =
        ground arith in
      let shift : suc (125 - exponent bits) ≡ 126 - exponent bits = omega arith in
      subst (Rounded bits) (ap (narrow_subnormal bits) shift ∙ sym chosen)
        (narrow_subnormal-Rounded bits (125 - exponent bits) h sub lo (sym shift))
]
  where
    split : (e : ℕ) → (113 ≤ e) ⊎ (e < 113)
    split e = ground arith

pub f32_to_f16_bits-lt : (bits : ℕ) → bits < u32_mod → f32_to_f16_bits bits < 0x1_0000
unfolding f32_to_f16_bits Rounded
f32_to_f16_bits-lt bits h = elim (range (exponent bits)) [
  | inl tiny ↦ ground arith
  | inr (inl huge) ↦ ground arith
  | inr (inr (lo, hi)) ↦ (f32_to_f16_bits-Rounded bits h lo hi).3
]
  where
    range : (e : ℕ) → (e < 102) ⊎ ((143 ≤ e) ⊎ ((102 ≤ e) × (e < 143)))
    range e = ground arith
