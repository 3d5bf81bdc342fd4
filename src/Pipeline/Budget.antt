-- ===== src/Pipeline/Budget.antt =====
-- src/pipeline/mod.rs: the walk through in-budget siblings ends, at a filled slot of the same
-- family.
use tensor_ash.Prelude.{
  ℕ, zero, suc, ◌≡◌, refl, ◌∙◌, ap, sym, ◌⊎◌, inl, inr, Bool, true, false, Option, none, some,
  Option-cases, Bool-cases, List, [], ◌∷◌, Result-cases, ok, err, arith, contains_text,
}
use tensor_ash.Kernels.{Kernel, large, spec, weights_f16, a_f16, is_packed}
use tensor_ash.Pipeline.{MatmulPipeline, demote, in_budget, in_budget_index, gated_off, PlanError}

-- What a kernel reads: f16 weights, f16 activations, packed weights, descriptor sets.
unfoldable pub traits : Kernel → List Bool
traits k =
    weights_f16 (spec k) ∷ a_f16 (spec k) ∷ is_packed (spec k) ∷ (spec k).uses_descriptors ∷ []

abbrev traits_after : Kernel → Option Kernel → List Bool
traits_after k none = traits k
traits_after k (some s) = traits s

demote-traits : (k : Kernel) → traits_after k (demote k) ≡ traits k
unfolding demote traits weights_f16 a_f16 is_packed contains_text
demote-traits large = refl
demote-traits _ = refl

-- The end of a kernel's chain of siblings.
abbrev next_or : Kernel → Option Kernel → Kernel
next_or k none = k
next_or k (some s) = s

unfoldable pub last_resort : Kernel → Kernel
last_resort k = next_or (next_or k (demote k)) (demote (next_or k (demote k)))

chain_ends : (k : Kernel) → demote (last_resort k) ≡ none
unfolding demote last_resort
chain_ends large = refl
chain_ends _ = refl

in_budget-keeps :
    (fuel : ℕ) (present : Kernel → Bool) (k k' : Kernel)
    → in_budget fuel present k ≡ ok k'
    → (present k' ≡ true) × (traits k' ≡ traits k)
unfolding in_budget
in_budget-keeps zero present k k' e = absurd (ground arith)
in_budget-keeps (suc fuel) present k k' e = elim (Bool-cases (present k)) [
  | inl here ↦
      let same : k ≡ k' = ground arith in (ap present (sym same) ∙ here, ap traits (sym same))
  | inr gone ↦ elim (Option-cases (demote k)) [
    | inl last ↦ absurd (ground arith)
    | inr (s, more) ↦
        let (live, same) = in_budget-keeps fuel present s k' (ground arith) in
        (live, same ∙ (rw more at (demote-traits k)))
  ]
]

last-one : (k : Kernel) → demote k ≡ none → last_resort k ≡ k
unfolding last_resort
last-one k e = ground arith

last-two : (k s : Kernel) → demote k ≡ some s → demote s ≡ none → last_resort k ≡ s
unfolding last_resort
last-two k s e f = ground arith

last-three : (k s t : Kernel) → demote k ≡ some s → demote s ≡ some t → last_resort k ≡ t
unfolding last_resort
last-three k s t e f = ground arith

in_budget_index-refuses :
    (p : MatmulPipeline) (k : Kernel) (e : PlanError)
    → in_budget_index p k ≡ err e
    → (e ≡ gated_off) × (p.present (last_resort k) ≡ false)
unfolding in_budget_index in_budget
in_budget_index-refuses p k e h = elim (Option-cases (demote k)) [
  | inl last ↦ ground (arith, last-one k last)
  | inr (s, more) ↦ elim (Option-cases (demote s)) [
    | inl last ↦ ground (arith, last-two k s more last)
    | inr (t, again) ↦ ground (arith, last-three k s t more again, chain_ends k)
  ]
]

-- The walk always ends. It panics only if even the last sibling of the chain is gated off; else it
-- comes to a filled slot, whose kernel reads the same kinds of weights, activations, packing and
-- bindings as the kernel that was asked for.
pub in_budget_index-lands :
    (p : MatmulPipeline) (k : Kernel)
    → (in_budget_index p k ≡ err gated_off) × (p.present (last_resort k) ≡ false)
      ⊎ ((k' : Kernel) × (in_budget_index p k ≡ ok k')
          × (p.present k' ≡ true)
          × (traits k' ≡ traits k))
unfolding in_budget_index
in_budget_index-lands p k = elim (Result-cases (in_budget_index p k)) [
  | inl (k', e) ↦ let (live, same) = in_budget-keeps 3 p.present k k' e in inr (k', e, live, same)
  | inr (e, h) ↦
      let (gated, empty) = in_budget_index-refuses p k e h in inl (h ∙ ap err gated, empty)
]
