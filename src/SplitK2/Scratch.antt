-- ===== src/SplitK2/Scratch.antt =====
-- src/executor/dispatch.rs: the scratch regions of a submission do not overlap.
use tensor_ash.Prelude.{
  ℕ, zero, suc, ◌+◌, ◌%◌, ◌≤◌, ◌<◌, ◌≡◌, refl, ap, sym, ◌⊎◌, inl, inr, Option, none, some, arith,
  Option-cases, Result-cases, List, [], ◌∷◌, get_elem?, some-eq, checked_add,
  checked_next_multiple_of,
}
use mathlib.Core.Path.{subst}
use tensor_ash.Matmul.Resolution.{ResolvedMatmul}
use tensor_ash.SplitK2.{
  Groups, SplitK2Dispatch, plan, assign_scratch, checked_auto_scratch_end, auto_scratch_cap,
}

-- A reserved region holds the bytes, ends at a multiple of 16 and stays within the budget.
scratch_end-holds :
    (offset bytes end : ℕ)
    → offset % 16 ≡ 0
    → checked_auto_scratch_end offset bytes ≡ some end
    → (offset + bytes ≤ end) × (end ≤ auto_scratch_cap) × (end % 16 ≡ 0)
unfolding checked_auto_scratch_end checked_add checked_next_multiple_of
scratch_end-holds offset bytes end a e = ground arith

-- What the loop does at its head: no region, or one from the offset on.
head-cases :
    (g : Groups) (offset : ℕ) (r : ResolvedMatmul) (o : Option ℕ)
    (ops : List (ResolvedMatmul × Option ℕ))
    → (assign_scratch g offset ((r, o) ∷ ops)
        ≡ (none ∷ (assign_scratch g offset ops).0, (assign_scratch g offset ops).1))
      ⊎ ((d : SplitK2Dispatch) × (next : ℕ) × (checked_auto_scratch_end offset d.scratch_bytes
            ≡ some next)
          × (assign_scratch g offset ((r, o) ∷ ops)
              ≡ (some (d, offset) ∷ (assign_scratch g next ops).0, (assign_scratch g next ops).1)))
unfolding assign_scratch
head-cases g offset r none ops = inl refl
head-cases g offset r (some splits) ops = elim (Result-cases (plan g r splits)) [
  | inr (e, refused) ↦ inl (rw (refused, assign_scratch))
  | inl (d, planned) ↦ elim (Option-cases (checked_auto_scratch_end offset d.scratch_bytes)) [
    | inl full ↦ inl (rw (planned, full, assign_scratch))
    | inr (next, fits) ↦ inr (d, next, fits, rw (planned, fits, assign_scratch))
  ]
]

abbrev Regions : Type 0
Regions = List (Option (SplitK2Dispatch × ℕ)) × ℕ

abbrev At : Regions → ℕ → SplitK2Dispatch → ℕ → Type 0
At regions i d at = get_elem? regions.0 i ≡ some (some (d, at))

nothing-planned :
    (g : Groups) (offset i : ℕ) (d : SplitK2Dispatch) (at : ℕ)
    → ¬ At (assign_scratch g offset []) i d at
unfolding assign_scratch
nothing-planned g offset i d at p = ground (arith, p)

-- The head's region is the one that is found there.
head-region :
    (regions : List (Option (SplitK2Dispatch × ℕ))) (end : ℕ) (d d' : SplitK2Dispatch)
    (at offset : ℕ)
    → At (some (d', offset) ∷ regions, end) 0 d at
    → (d ≡ d') × (at ≡ offset)
head-region regions end d d' at offset p =
    let same : (d', offset) ≡ (d, at) = some-eq (some-eq p) in
    (sym (ap (λ z. z.0) same), sym (ap (λ z. z.1) same))

-- Every region lies behind the offset, is aligned, and ends within the budget.
regions-bounded :
    (g : Groups) (offset : ℕ) (ops : List (ResolvedMatmul × Option ℕ)) (i : ℕ) (d : SplitK2Dispatch)
    (at : ℕ)
    → offset % 16 ≡ 0
    → At (assign_scratch g offset ops) i d at
    → (offset ≤ at) × (at % 16 ≡ 0) × (at + d.scratch_bytes ≤ auto_scratch_cap)
regions-bounded g offset [] i d at a p = absurd (nothing-planned g offset _ _ _ p)
regions-bounded g offset ((r, o) ∷ ops) zero d at a p = elim (head-cases g offset r o ops) [
  | inl none' ↦ absurd (ground (arith, subst (λ q. At q 0 d at) none' p))
  | inr (d', next, fits, some') ↦
      let holds = scratch_end-holds offset d'.scratch_bytes next a fits in
      let (same_d, same_at) =
        head-region (assign_scratch g next ops).0 (assign_scratch g next ops).1 d d' at offset
          (subst (λ q. At q 0 d at) some' p) in
      rw (same_d, same_at) (omega arith, a, omega arith)
]
regions-bounded g offset ((r, o) ∷ ops) (suc i) d at a p = elim (head-cases g offset r o ops) [
  | inl none' ↦ regions-bounded g offset ops i d at a (subst (λ q. At q (suc i) d at) none' p)
  | inr (d', next, fits, some') ↦
      let holds = scratch_end-holds offset d'.scratch_bytes next a fits in
      let rest =
        regions-bounded g next ops i d at holds.2 (subst (λ q. At q (suc i) d at) some' p) in
      (omega arith, rest.1, rest.2)
]

from-disjoint :
    (g : Groups) (offset : ℕ) (ops : List (ResolvedMatmul × Option ℕ)) (i j : ℕ)
    (d e : SplitK2Dispatch) (x y : ℕ)
    → offset % 16 ≡ 0
    → i < j
    → At (assign_scratch g offset ops) i d x
    → At (assign_scratch g offset ops) j e y
    → (x + d.scratch_bytes ≤ y)
      × (y + e.scratch_bytes ≤ auto_scratch_cap)
      × (x % 16 ≡ 0)
      × (y % 16 ≡ 0)
from-disjoint g offset ops i zero d e x y a lt p q = absurd (omega arith)
from-disjoint g offset [] i (suc j) d e x y a lt p q = absurd (nothing-planned g offset _ _ _ p)
from-disjoint g offset ((r, o) ∷ ops) zero (suc j) d e x y a lt p q =
    elim (head-cases g offset r o ops) [
      | inl none' ↦ absurd (ground (arith, subst (λ z. At z 0 d x) none' p))
      | inr (d', next, fits, some') ↦
          let holds = scratch_end-holds offset d'.scratch_bytes next a fits in
          let (same_d, same_at) =
            head-region (assign_scratch g next ops).0 (assign_scratch g next ops).1 d d' x offset
              (subst (λ z. At z 0 d x) some' p) in
          let rest =
            regions-bounded g next ops j e y holds.2 (subst (λ z. At z (suc j) e y) some' q) in
          rw (same_d, same_at) (omega arith, rest.2, a, rest.1)
    ]
from-disjoint g offset ((r, o) ∷ ops) (suc i) (suc j) d e x y a lt p q =
    elim (head-cases g offset r o ops) [
      | inl none' ↦
          from-disjoint g offset ops i j d e x y a (omega arith)
            (subst (λ z. At z (suc i) d x) none' p) (subst (λ z. At z (suc j) e y) none' q)
      | inr (d', next, fits, some') ↦
          let holds = scratch_end-holds offset d'.scratch_bytes next a fits in
          from-disjoint g next ops i j d e x y holds.2 (omega arith)
            (subst (λ z. At z (suc i) d x) some' p) (subst (λ z. At z (suc j) e y) some' q)
    ]

-- The scratch regions of two operations of a submission do not overlap: the later one starts behind
-- the end of the earlier one, both at multiples of 16, and both end within the automatic budget.
pub assign_scratch-disjoint :
    (g : Groups) (ops : List (ResolvedMatmul × Option ℕ)) (i j : ℕ) (d e : SplitK2Dispatch)
    (x y : ℕ)
    → i < j
    → get_elem? (assign_scratch g 0 ops).0 i ≡ some (some (d, x))
    → get_elem? (assign_scratch g 0 ops).0 j ≡ some (some (e, y))
    → (x + d.scratch_bytes ≤ y)
      × (y + e.scratch_bytes ≤ auto_scratch_cap)
      × (x % 16 ≡ 0)
      × (y % 16 ≡ 0)
assign_scratch-disjoint g ops i j d e x y lt p q = from-disjoint g 0 ops i j d e x y refl lt p q
