-- ===== src/Prelude/Lists.antt =====
-- Lists measured and indexed by native numbers, and membership tests on lists of numbers.
use Prim.Native.Nat.{ℕ, zero, suc, ◌+◌}
use mathlib.Core.Path.{◌≡◌, refl, ap}
use mathlib.Core.Logic.{◌⊎◌}
use mathlib.Core.Bool.{Bool, false, ◌||◌}
use mathlib.Core.List.{List, [], ◌∷◌, ◌++◌, map}
use mathlib.Core.Option.{Option, none, some}
use native.Mathlib.Omega.{arith}
use tensor_ash.Prelude.Tests.{◌==◌}

module _ {ℓ} {A : Type ℓ} where
  abbrev pub length : List A → ℕ
  length [] = 0
  length (x ∷ xs) = suc (length xs)

  abbrev pub get_elem? : List A → ℕ → Option A
  get_elem? [] i = none
  get_elem? (x ∷ xs) zero = some x
  get_elem? (x ∷ xs) (suc i) = get_elem? xs i

  abbrev pub take : ℕ → List A → List A
  take zero xs = []
  take (suc n) [] = []
  take (suc n) (x ∷ xs) = x ∷ take n xs

  pub length-append : (xs ys : List A) → length (xs ++ ys) ≡ length xs + length ys
  length-append [] ys = omega arith
  length-append (x ∷ xs) ys = omega (arith, length-append xs ys)

-- `xs.contains(&a)` of a vector of handles.
unfoldable pub contains : List ℕ → ℕ → Bool
contains [] a = false
contains (x ∷ xs) a = a == x || contains xs a

infix 40 ◌∈◌
abbrev pub ◌∈◌ : ℕ → List ℕ → Type 0
a ∈ [] = ⊥
a ∈ (x ∷ xs) = (a ≡ x) ⊎ (a ∈ xs)

-- The element behind a prefix.
module _ {ℓ} {A : Type ℓ} where
  pub get-after :
      (xs : List A) (y : A) (ys : List A) → get_elem? (xs ++ y ∷ ys) (length xs) ≡ some y
  get-after [] y ys = refl
  get-after (x ∷ xs) y ys = get-after xs y ys

  pub get-after_suc :
      (xs : List A) (y z : A) (ys : List A)
      → get_elem? (xs ++ y ∷ z ∷ ys) (suc (length xs)) ≡ some z
  get-after_suc [] y z ys = refl
  get-after_suc (x ∷ xs) y z ys = get-after_suc xs y z ys

pub map-append {ℓ κ} :
    {A : Type ℓ} {B : Type κ} (f : A → B) (xs ys : List A) → map f (xs ++ ys) ≡ map f xs ++ map f ys
map-append f [] ys = refl
map-append f (x ∷ xs) ys = ap (λ zs. f x ∷ zs) (map-append f xs ys)
