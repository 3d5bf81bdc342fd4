-- ===== src/Executor/Reads.antt =====
-- src/pipeline/mod.rs: what the kernels of automatic routes read.
use tensor_ash.Prelude.{
  ap, ◌&&◌, is_multiple_of, leb, Result, ℕ, ◌≡◌, refl, sym, ap, ◌∙◌, ◌⊎◌, inl, inr, Bool, true,
  false, not, ◌&&◌, ◌||◌, Option, none, some, List, [], ◌∷◌, Result, ok, err, Result-cases,
  Option-cases, Bool-cases, arith, if◌then◌else◌,
}
use mathlib.Core.Path.{subst}
use tensor_ash.Kernels.{supports_epilogue, Kernel, spec, weights_f16, a_f16, is_packed, auto}
use tensor_ash.Routing.{to_f16w, maybe_to_bda, auto_select_kernel}
use tensor_ash.Pipeline.{
  PlanError, kernel_at, MatmulPipeline, TuneKey, TuneEntry, route, find_tuned, key_eq,
  in_budget_index, heuristic_kernel_index, epilogue_fallback_index,
}
use tensor_ash.Pipeline.Budget.{traits, in_budget_index-lands}
use tensor_ash.Pipeline.Storage.{
  wanted, heuristic_kernel_index-traits, auto_select-tile, bda-table, to_f16w-traits,
}

-- The kernel reads B as f16 or f32, A and C as f16 or f32, and B packed or not.
abbrev pub Reads : Kernel → Bool → Bool → Bool → Type 0
Reads k b a packed =
    (weights_f16 (spec k) ≡ b) × (a_f16 (spec k) ≡ a) × (is_packed (spec k) ≡ packed)

head_or : List Bool → Bool
head_or [] = false
head_or (x ∷ xs) = x

abbrev tail_of : List Bool → List Bool
tail_of [] = []
tail_of (x ∷ xs) = xs

pub traits-Reads :
    (k : Kernel) (b a packed bound : Bool)
    → traits k ≡ b ∷ a ∷ packed ∷ bound ∷ []
    → Reads k b a packed
unfolding traits head_or
traits-Reads k b a packed bound e =
    (ap head_or e, ap (λ xs. head_or (tail_of xs)) e, ap (λ xs. head_or (tail_of (tail_of xs))) e)

pub heuristic-Reads :
    (p : MatmulPipeline) (b m n k : ℕ) (b_f16 : Bool) (t : Kernel)
    → heuristic_kernel_index p b m n k b_f16 ≡ ok t
    → Reads t b_f16 false false
heuristic-Reads p b m n k true t e = elim (heuristic_kernel_index-traits p b m n k true) [
  | inl gated ↦ absurd (ground (arith, gated, e))
  | inr (t', e', is) ↦
      traits-Reads t true false false false
        (subst (λ z. traits z ≡ wanted p true) (ground (arith, e, e')) is)
]
heuristic-Reads p b m n k false t e = elim (heuristic_kernel_index-traits p b m n k false) [
  | inl gated ↦ absurd (ground (arith, gated, e))
  | inr (t', e', is) ↦
      traits-Reads t false false false (not p.device.bda)
        (subst (λ z. traits z ≡ wanted p false) (ground (arith, e, e')) is)
]

-- Every tuned winner was measured for weights of its key's storage type.
abbrev pub Measured : List (TuneKey × TuneEntry) → Type 0
Measured [] = Unit {0}
Measured ((key, entry) ∷ rest) = Reads entry.kernel key.b_f16 false false × Measured rest

tuned-Reads :
    (key : TuneKey) (entries : List (TuneKey × TuneEntry)) (entry : TuneEntry)
    → Measured entries
    → find_tuned key entries ≡ some entry
    → Reads entry.kernel key.b_f16 false false
unfolding find_tuned key_eq
tuned-Reads key [] entry m e = absurd (ground (arith, e))
tuned-Reads key ((j, f) ∷ rest) entry m e = elim (Bool-cases (key_eq j key)) [
  | inl same ↦
      let is : f ≡ entry = ground (arith, same, e) in
      let b : j.b_f16 ≡ key.b_f16 = ground (arith, same) in
      subst (λ z. Reads z.kernel key.b_f16 false false) is
        (subst (λ z. Reads f.kernel z false false) b m.0)
  | inr other ↦ tuned-Reads key rest entry m.1 (ground (arith, other, e))
]

pub route-Reads :
    (p : MatmulPipeline) (b m n k : ℕ) (b_f16 : Bool) (t : Kernel) (v : Option (Option ℕ))
    → p.selection ≡ auto
    → Measured p.tuned
    → route p b m n k b_f16 ≡ ok (t, v)
    → Reads t b_f16 false false
unfolding route
route-Reads p b m n k b_f16 t v is_auto' measured e =
    let key : TuneKey = record { batch = b; m = m; n = n; k = k; b_f16 = b_f16 } in
    elim (Option-cases (find_tuned key p.tuned)) [
      | inr (entry, found) ↦
          let is : entry.kernel ≡ t = ground (arith, is_auto', found, e) in
          subst (λ z. Reads z b_f16 false false) is (tuned-Reads key p.tuned entry measured found)
      | inl missing ↦ heuristic-Reads p b m n k b_f16 t (ground (arith, is_auto', missing, e))
    ]

cm2-Reads : Reads Kernel.f16w_cm2 true false false
unfolding weights_f16 a_f16 is_packed tensor_ash.Prelude.contains_text
cm2-Reads = (refl, refl, refl)

pub in_budget-Reads :
    (p : MatmulPipeline) (k t : Kernel) (b packed bound : Bool)
    → traits k ≡ b ∷ false ∷ packed ∷ bound ∷ []
    → in_budget_index p k ≡ ok t
    → Reads t b false packed
in_budget-Reads p k t b packed bound is e = elim (in_budget_index-lands p k) [
  | inl (gated, none') ↦ absurd (ground (arith, gated, e))
  | inr (t', e', live, same) ↦
      traits-Reads t b false packed bound (
        subst (λ z. traits z ≡ b ∷ false ∷ packed ∷ bound ∷ []) (ground (arith, e, e')) (same ∙ is))
]

sibling-Reads :
    (p : MatmulPipeline) (b m n k : ℕ) (b_f16 : Bool) (t : Kernel)
    → let tile = auto_select_kernel b m n k p.auto_min_large_tiles in
      in_budget_index p (if b_f16 then to_f16w tile else maybe_to_bda tile) ≡ ok t
      → Reads t b_f16 false false
sibling-Reads p b m n k true t e =
    let tile = auto_select_kernel b m n k p.auto_min_large_tiles in
    in_budget-Reads p (to_f16w tile) t true false false (to_f16w-traits tile) e
sibling-Reads p b m n k false t e =
    let tile = auto_select_kernel b m n k p.auto_min_large_tiles in
    let is = auto_select-tile b m n k p.auto_min_large_tiles in
    in_budget-Reads p (maybe_to_bda tile) t false false false (rw is at (bda-table tile)) e

pub result-eq : {A : Type 0} {x y : A} → ◌≡◌ {A = Result PlanError A} (ok x) (ok y) → x ≡ y
result-eq {A} {x} e = ap (λ (z : Result PlanError A). elim z as (λ w. A) [ ok a ↦ a | err u ↦ x ]) e

pub err-not_ok :
    {A : Type 0} {x : PlanError} {y : A} → ◌≡◌ {A = Result PlanError A} (err x) (ok y) → ⊥
err-not_ok e = ground (arith, e)

first-of : (b u v w x y z : Bool) → (b && u && v && w && x && y && z) ≡ true → b ≡ true
first-of true u v w x y z e = refl
first-of false u v w x y z e = e

-- The fallback is the heuristic's pick, the tensor-core product for f16 weights, or the sibling.
fallback-cases :
    (p : MatmulPipeline) (b m n k : ℕ) (b_f16 : Bool) (t : Kernel)
    → epilogue_fallback_index p b m n k b_f16 ≡ ok t
    → let tile = auto_select_kernel b m n k p.auto_min_large_tiles in
      (heuristic_kernel_index p b m n k b_f16 ≡ ok t)
      ⊎ (((b_f16 ≡ true) × (t ≡ Kernel.f16w_cm2))
          ⊎ (in_budget_index p (if b_f16 then to_f16w tile else maybe_to_bda tile) ≡ ok t))
unfolding epilogue_fallback_index
fallback-cases p b m n k b_f16 t e =
    let wide =
      b_f16
      && is_multiple_of m 128
      && is_multiple_of n 128
      && is_multiple_of k 32
      && leb 256 m
      && leb 256 n
      && p.present Kernel.f16w_cm2 in
    elim (Result-cases (heuristic_kernel_index p b m n k b_f16)) [
      | inr (x, h) ↦ absurd (err-not_ok (rw h at e))
      | inl (index, h) ↦ elim (Result-cases (kernel_at p index)) [
        | inr (x, g) ↦ absurd (err-not_ok (rw (h, g) at e))
        | inl (s, g) ↦ elim (Bool-cases (supports_epilogue s)) [
          | inl c ↦ inl (h ∙ (rw (h, g, c) at e))
          | inr c ↦ elim (Bool-cases wide) [
            | inl d ↦
                inr (inl (first-of b_f16 _ _ _ _ _ _ d, sym (result-eq (rw (h, g, c, d) at e))))
            | inr d ↦ inr (inr (rw (h, g, c, d) at e))
          ]
        ]
      ]
    ]

pub fallback-Reads :
    (p : MatmulPipeline) (b m n k : ℕ) (b_f16 : Bool) (t : Kernel)
    → epilogue_fallback_index p b m n k b_f16 ≡ ok t
    → Reads t b_f16 false false
fallback-Reads p b m n k b_f16 t e = elim (fallback-cases p b m n k b_f16 t e) [
  | inl h ↦ heuristic-Reads p b m n k b_f16 t h
  | inr (inl (half, is)) ↦ rw (half, is) cm2-Reads
  | inr (inr sibling) ↦ sibling-Reads p b m n k b_f16 t sibling
]
