-- ===== src/Hazard/Need.antt =====
-- src/executor/graph_ops.rs: a barrier is recorded only before a dispatch that needs it.
use tensor_ash.Prelude.{
  ℕ, zero, suc, ◌<◌, ◌≡◌, refl, ◌⊎◌, inl, inr, Bool, true, false, ◌&&◌, List, [], ◌∷◌, ◌++◌, some,
  contains, ◌∈◌, get_elem?, arith, Bool-cases, ==_iff, ◌==◌, ltb, if◌then◌else◌,
}
use mathlib.Core.Path.{subst}
use tensor_ash.Hazard.{
  Access, HazardCursor, any_in, hazard_with, barrier_before, barriers_from, barriers, fresh, extend,
}
use tensor_ash.Hazard.Separation.{Conflict, raw, waw, war, Conflicts}

mem-contains : (xs : List ℕ) (h : ℕ) → contains xs h ≡ true → h ∈ xs
unfolding contains
mem-contains [] h e = absurd (ground arith)
mem-contains (x ∷ xs) h e = elim (Bool-cases (h == x)) [
  | inl y ↦ inl (ground (arith, ==_iff h x))
  | inr n ↦ inr (mem-contains xs h (ground arith))
]

mem-any_in : (pending hs : List ℕ) → any_in pending hs ≡ true → (h : ℕ) × (h ∈ pending) × (h ∈ hs)
unfolding any_in
mem-any_in pending [] e = absurd (ground arith)
mem-any_in pending (x ∷ xs) e = elim (Bool-cases (contains pending x)) [
  | inl y ↦ (x, mem-contains pending x y, inl refl)
  | inr n ↦ let (h, p, m) = mem-any_in pending xs (ground arith) in (h, p, inr m)
]

mem-split : (xs ys : List ℕ) (h : ℕ) → h ∈ (xs ++ ys) → (h ∈ xs) ⊎ (h ∈ ys)
mem-split [] ys h m = inr m
mem-split (x ∷ xs) ys h (inl e) = inl (inl e)
mem-split (x ∷ xs) ys h (inr m) = elim (mem-split xs ys h m) [ inl l ↦ inl (inr l) | inr r ↦ inr r ]

-- The code's test finds nothing but conflicts.
hazard_with-Conflict : (a : Access) (ws rs : List ℕ) → hazard_with a ws rs ≡ true → Conflict ws rs a
unfolding hazard_with
hazard_with-Conflict a ws rs e = elim (Bool-cases (any_in ws (a.reads ++ a.writes))) [
  | inl y ↦
      let (h, p, m) = mem-any_in ws (a.reads ++ a.writes) y in
      elim (mem-split a.reads a.writes h m) [ inl r ↦ raw h p r | inr w ↦ waw h p w ]
  | inr n ↦ let (h, p, m) = mem-any_in rs a.writes (ground arith) in war h p m
]

-- A conflict with what grew was one before, or is one with what was added.
Conflict-split :
    (ws rs ws' rs' : List ℕ) (b : Access)
    → Conflict (ws ++ ws') (rs ++ rs') b
    → Conflict ws rs b ⊎ Conflict ws' rs' b
Conflict-split ws rs ws' rs' b (raw h m r) = elim (mem-split ws ws' h m) [
  | inl l ↦ inl (raw h l r)
  | inr q ↦ inr (raw h q r)
]
Conflict-split ws rs ws' rs' b (waw h m r) = elim (mem-split ws ws' h m) [
  | inl l ↦ inl (waw h l r)
  | inr q ↦ inr (waw h q r)
]
Conflict-split ws rs ws' rs' b (war h m r) = elim (mem-split rs rs' h m) [
  | inl l ↦ inl (war h l r)
  | inr q ↦ inr (war h q r)
]

-- None of the flags before a position is set.
abbrev ClearBefore : List Bool → ℕ → Type 0
ClearBefore flags zero = Unit {0}
ClearBefore [] (suc b) = ⊥
ClearBefore (f ∷ flags) (suc b) = (f ≡ false) × ClearBefore flags b

-- None of the flags strictly between two positions is set.
abbrev pub ClearBetween : List Bool → ℕ → ℕ → Type 0
ClearBetween [] i b = ⊥
ClearBetween (f ∷ flags) i zero = ⊥
ClearBetween (f ∷ flags) zero (suc b) = ClearBefore flags b
ClearBetween (f ∷ flags) (suc i) (suc b) = ClearBetween flags i b

-- The dispatch at b conflicts with an earlier one, and no barrier stands between the two.
abbrev pub Earlier : List Bool → List Access → ℕ → Access → Type 0
Earlier flags xs b y =
    (i : ℕ) × (x : Access) × (i < b)
    × (get_elem? xs i ≡ some x)
    × Conflicts x y
    × ClearBetween flags i b

abbrev Cause : HazardCursor → List Bool → List Access → ℕ → Access → Type 0
Cause c flags xs b y =
    (Conflict c.pending_writes c.pending_reads y × ClearBefore flags b) ⊎ Earlier flags xs b y

Cause-step :
    (c c' : HazardCursor) (f : Bool) (flags : List Bool) (a : Access) (xs : List Access) (b : ℕ)
    (y : Access)
    → (((f ≡ true) × (c' ≡ extend fresh a)) ⊎ ((f ≡ false) × (c' ≡ extend c a)))
    → Cause c' flags xs b y
    → Cause c (f ∷ flags) (a ∷ xs) (suc b) y
Cause-step c c' f flags a xs b y how (inr (i, x, lt, at, k, clear)) =
    inr (suc i, x, omega arith, at, k, clear)
Cause-step c c' f flags a xs b y (inl (e, p)) (inl (k, clear)) =
    inr
      (0, a, omega arith, refl, subst (λ d. Conflict d.pending_writes d.pending_reads y) p k, clear)
Cause-step c c' f flags a xs b y (inr (e, p)) (inl (k, clear)) =
    elim (Conflict-split c.pending_writes c.pending_reads a.writes a.reads y
      (subst (λ d. Conflict d.pending_writes d.pending_reads y) p k)) [
        | inl old ↦ inl (old, (e, clear))
        | inr new ↦ inr (0, a, omega arith, refl, new, clear)
      ]

chosen :
    (f : Bool) (p q : HazardCursor)
    → ((f ≡ true) × ((if f then p else q) ≡ p)) ⊎ ((f ≡ false) × ((if f then p else q) ≡ q))
chosen true p q = inl (refl, refl)
chosen false p q = inr (refl, refl)

from-caused :
    (c : HazardCursor) (n : ℕ) (xs : List Access) (b : ℕ)
    → get_elem? (barriers_from c n xs) b ≡ some true
    → (y : Access) × (get_elem? xs b ≡ some y) × Cause c (barriers_from c n xs) xs b y
unfolding barriers_from barrier_before
from-caused c n [] b e = absurd (ground arith)
from-caused c n (a ∷ xs) zero e =
    (a, refl, inl (hazard_with-Conflict a c.pending_writes c.pending_reads (ground (arith, e)), tt))
from-caused c n (a ∷ xs) (suc b) e =
    let flag = ltb 0 n && hazard_with a c.pending_writes c.pending_reads in
    let (y, at, cause) = from-caused (if flag then extend fresh a else extend c a) (suc n) xs b e in
    (
      y,
      at,
      Cause-step c (if flag then extend fresh a else extend c a) flag
          (barriers_from (if flag then extend fresh a else extend c a) (suc n) xs) a xs b y
          (chosen flag (extend fresh a) (extend c a)) cause,
    )

fresh-Conflict-free : (y : Access) → ¬ Conflict [] [] y
fresh-Conflict-free y (raw h m r) = m
fresh-Conflict-free y (waw h m r) = m
fresh-Conflict-free y (war h m r) = m

-- A barrier that is recorded before a dispatch separates it from an earlier one that it conflicts
-- with, and no other barrier stands between the two.
pub barriers-needed :
    (xs : List Access) (b : ℕ)
    → get_elem? (barriers xs) b ≡ some true
    → (y : Access) × (get_elem? xs b ≡ some y) × Earlier (barriers xs) xs b y
barriers-needed xs b e =
    let (y, at, cause) = from-caused fresh 0 xs b e in
    (
      y,
      at,
      elim cause [ inl (k, clear) ↦ absurd (fresh-Conflict-free y k) | inr earlier ↦ earlier ],
    )
