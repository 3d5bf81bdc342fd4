-- ===== src/Tensor/Numel.antt =====
-- src/tensor.rs: element counts and allocation sizes.
use tensor_ash.Prelude.{
  ℕ, ◌+◌, ◌*◌, ◌%◌, ◌<◌, ◌≤◌, ◌≡◌, refl, ◌≢◌, ◌↔◌, ◌⊎◌, inl, inr, List, [], ◌∷◌, ok, err,
  Result-cases, ap, arith, checked_mul, checked_next_multiple_of, u64_mod, ◌∙◌, le-mul,
}
use tensor_ash.Tensor.{
  Tensor, TensorError, DType, size, numel, numel_from, numel_checked, alloc_bytes, alias_with_shape,
}

abbrev pub AllPositive : List ℕ → Type 0
AllPositive [] = Unit {0}
AllPositive (d ∷ ds) = (0 < d) × AllPositive ds

numel-positive : (ds : List ℕ) → AllPositive ds → 0 < numel ds
unfolding numel
numel-positive [] h = omega arith
numel-positive (d ∷ ds) h = grind (arith, numel-positive ds h.1)

-- A product with a positive rest is at least its first factors.
mul-le-mul : (a b c : ℕ) → 0 < c → a * b ≤ a * (b * c)
mul-le-mul a b c h = omega (arith, le-mul (a * b) c h)

-- The fold succeeds on positive dimensions whose whole product fits, with that product.
numel_from-fits :
    (acc : ℕ) (ds : List ℕ)
    → AllPositive ds
    → acc * numel ds < u64_mod
    → numel_from acc ds ≡ ok (acc * numel ds)
unfolding numel_from numel checked_mul
numel_from-fits acc [] h fits = ground arith
numel_from-fits acc (d ∷ ds) h fits =
    ground
      (arith, numel-positive ds h.1, mul-le-mul acc d (numel ds), numel_from-fits (acc * d) ds h.1)

-- Conversely, a count that comes back is the product, of positive dimensions, and fits.
numel_from-exact :
    (acc : ℕ) (ds : List ℕ) (n : ℕ)
    → acc < u64_mod
    → numel_from acc ds ≡ ok n
    → AllPositive ds × (n ≡ acc * numel ds) × (n < u64_mod)
unfolding numel_from numel checked_mul
numel_from-exact acc [] n fits e = ground arith
numel_from-exact acc (d ∷ ds) n fits e = ground (arith, numel_from-exact (acc * d) ds n)

-- `numel_checked` returns a count exactly when the shape is not empty, no dimension is zero and the
-- product of the dimensions fits in a u64; the count is then that product.
pub numel_checked_iff :
    (shape : List ℕ) (n : ℕ)
    → (numel_checked shape ≡ ok n)
      ↔ ((shape ≢ []) × AllPositive shape × (n ≡ numel shape) × (numel shape < u64_mod))
unfolding numel_checked
numel_checked_iff [] n = (λ e. cc, λ h. absurd (h.0 refl))
numel_checked_iff (d ∷ ds) n = (
  λ e.
      let (p, q, r) = numel_from-exact 1 (d ∷ ds) n (omega arith) e in
      ((λ c. cc), p, omega arith, omega arith),
  λ h. ground (arith, numel_from-fits 1 (d ∷ ds) h.1),
)

numel_checked-exact :
    (shape : List ℕ)
    → (numel_checked shape ≡ ok (numel shape)) ⊎ ((e : TensorError) × (numel_checked shape ≡ err e))
numel_checked-exact shape = elim (Result-cases (numel_checked shape)) [
  | inl (n, h) ↦ inl (h ∙ ap ok ((numel_checked_iff shape n).0 h).2)
  | inr refused ↦ inr refused
]

-- The bytes that are asked for hold every element, are a multiple of 16 and fit in a u64.
pub alloc_bytes-holds :
    (shape : List ℕ) (dtype : DType) (bytes : ℕ)
    → alloc_bytes shape dtype ≡ ok bytes
    → (numel shape * size dtype ≤ bytes)
      × (bytes < numel shape * size dtype + 16)
      × (bytes % 16 ≡ 0)
      × (bytes < u64_mod)
unfolding alloc_bytes checked_mul checked_next_multiple_of
alloc_bytes-holds shape dtype bytes e = ground (arith, numel_checked-exact shape)

-- An alias shares the buffer and has as many elements; a shape with another count is refused.
pub alias_with_shape-shares :
    (t : Tensor) (shape : List ℕ) (s : Tensor)
    → alias_with_shape t shape ≡ ok s
    → (s.buffer ≡ t.buffer) × (s.shape ≡ shape) × (numel s.shape ≡ numel t.shape)
unfolding alias_with_shape
alias_with_shape-shares t shape s e = ground (arith, numel_checked-exact shape)
