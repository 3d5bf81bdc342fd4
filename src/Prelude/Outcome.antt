-- ===== src/Prelude/Outcome.antt =====
-- The result of a fallible operation. `anyhow` errors are messages for people; the model keeps one
-- error for each place of the source that refuses, or for a family of such places.
use mathlib.Core.Path.{◌≡◌, refl}
use mathlib.Core.Logic.{◌⊎◌, inl, inr}
use mathlib.Core.Bool.{Bool, true, false}
use mathlib.Core.Option.{Option, none, some}

pub data Result {ℓ} (E : Type 0) (A : Type ℓ) : Type ℓ where
  ok : A → Result E A
  err : E → Result E A

-- `?`: an error leaves the function.
infixl 5 ◌>>=◌ ◌>>◌
abbrev pub ◌>>=◌ {κ ℓ} :
    {E : Type 0} {B : Type κ} {A : Type ℓ} → Result E A → (A → Result E B) → Result E B
err e >>= next = err e
ok a >>= next = next a

-- A check, and what follows it.
abbrev pub ◌>>◌ {ℓ} : {E : Type 0} {A : Type ℓ} → Result E (Unit {0}) → Result E A → Result E A
err e >> after = err e
ok u >> after = after

-- `if cond { bail!(e) }`.
abbrev pub bail_if : {E : Type 0} → Bool → E → Result E (Unit {0})
bail_if true e = err e
bail_if false e = ok tt

-- `opt.ok_or_else(|| e)?`.
abbrev pub ok_or {ℓ} : {E : Type 0} {A : Type ℓ} → Option A → E → Result E A
ok_or none e = err e
ok_or (some a) e = ok a

pub Result-cases {ℓ} :
    {E : Type 0} {A : Type ℓ} (m : Result E A) → ((a : A) × (m ≡ ok a)) ⊎ ((e : E) × (m ≡ err e))
Result-cases (ok a) = inl (a, refl)
Result-cases (err e) = inr (e, refl)

-- A result behind `?` comes from a result of what stands before it.
pub bind-ok :
    {E A B : Type 0} (m : Result E A) (next : A → Result E B) (b : B)
    → m >>= next ≡ ok b
    → (a : A) × (m ≡ ok a) × (next a ≡ ok b)
bind-ok (ok a) next b e = (a, refl, e)
bind-ok (err x) next b e = absurd (err-ok x b e)
  where
    err-ok : {E B : Type 0} (x : E) (b : B) → ◌≡◌ {A = Result E B} (err x) (ok b) → ⊥
    err-ok x b e = cc

pub ok-eq : {E A : Type 0} (a b : A) → ◌≡◌ {A = Result E A} (ok a) (ok b) → a ≡ b
ok-eq a b e = cc

pub then-ok :
    {E A : Type 0} (m : Result E (Unit {0})) (next : Result E A) {a : A}
    → (m >> next) ≡ ok a
    → (m ≡ ok tt) × (next ≡ ok a)
then-ok (ok tt) next e = (refl, e)
then-ok (err x) next e = cc
