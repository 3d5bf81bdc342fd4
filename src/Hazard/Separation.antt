-- ===== src/Hazard/Separation.antt =====
-- src/executor/graph_ops.rs: no conflicting pair of dispatches is left without a barrier between.
use tensor_ash.Prelude.{
  ℕ, zero, suc, ◌<◌, ◌≤◌, ◌≡◌, inl, inr, Bool, true, ◌&&◌, List, [], ◌∷◌, ◌++◌, some, contains, ◌∈◌,
  get_elem?, arith, Bool-cases, some-eq, ltb,
}
use mathlib.Core.Path.{subst, sym}
use tensor_ash.Hazard.{
  Access, HazardCursor, any_in, hazard_with, barrier_before, barriers_from, barriers, fresh, extend,
}

pub contains-mem : (xs : List ℕ) (h : ℕ) → h ∈ xs → contains xs h ≡ true
unfolding contains
contains-mem [] h m = elim m [ ]
contains-mem (x ∷ xs) h (inl e) = ground arith
contains-mem (x ∷ xs) h (inr m) = ground (arith, contains-mem xs h m)

pub any_in-mem : (pending hs : List ℕ) (h : ℕ) → h ∈ pending → h ∈ hs → any_in pending hs ≡ true
unfolding any_in
any_in-mem pending [] h p m = elim m [ ]
any_in-mem pending (x ∷ xs) h p (inl e) = ground (arith, contains-mem pending h p)
any_in-mem pending (x ∷ xs) h p (inr m) = ground (arith, any_in-mem pending xs h p m)

pub mem-append_left : (xs ys : List ℕ) (h : ℕ) → h ∈ xs → h ∈ (xs ++ ys)
mem-append_left [] ys h m = elim m [ ]
mem-append_left (x ∷ xs) ys h (inl e) = inl e
mem-append_left (x ∷ xs) ys h (inr m) = inr (mem-append_left xs ys h m)

pub mem-append_right : (xs ys : List ℕ) (h : ℕ) → h ∈ ys → h ∈ (xs ++ ys)
mem-append_right [] ys h m = m
mem-append_right (x ∷ xs) ys h m = inr (mem-append_right xs ys h m)

-- Two dispatches conflict over a buffer that one of them writes and both touch.
pub data Conflict (writes reads : List ℕ) (a : Access) : Type 0 where
  raw : (h : ℕ) → h ∈ writes → h ∈ a.reads → Conflict writes reads a
  waw : (h : ℕ) → h ∈ writes → h ∈ a.writes → Conflict writes reads a
  war : (h : ℕ) → h ∈ reads → h ∈ a.writes → Conflict writes reads a

abbrev pub Conflicts : Access → Access → Type 0
Conflicts a b = Conflict a.writes a.reads b

-- The code's test finds every conflict.
hazard_with-finds : (a : Access) (ws rs : List ℕ) → Conflict ws rs a → hazard_with a ws rs ≡ true
unfolding hazard_with
hazard_with-finds a ws rs (raw h w r) =
    ground (arith, any_in-mem ws (a.reads ++ a.writes) h w (mem-append_left a.reads a.writes h r))
hazard_with-finds a ws rs (waw h w v) =
    ground (arith, any_in-mem ws (a.reads ++ a.writes) h w (mem-append_right a.reads a.writes h v))
hazard_with-finds a ws rs (war h r w) = ground (arith, any_in-mem rs a.writes h r w)

-- A conflict with what is pending stays one when more is pending.
grows_left :
    (ws rs ws' rs' : List ℕ) (b : Access) → Conflict ws rs b → Conflict (ws ++ ws') (rs ++ rs') b
grows_left ws rs ws' rs' b (raw h w r) = raw h (mem-append_left ws ws' h w) r
grows_left ws rs ws' rs' b (waw h w v) = waw h (mem-append_left ws ws' h w) v
grows_left ws rs ws' rs' b (war h r w) = war h (mem-append_left rs rs' h r) w

grows_right :
    (ws rs ws' rs' : List ℕ) (b : Access) → Conflict ws' rs' b → Conflict (ws ++ ws') (rs ++ rs') b
grows_right ws rs ws' rs' b (raw h w r) = raw h (mem-append_right ws ws' h w) r
grows_right ws rs ws' rs' b (waw h w v) = waw h (mem-append_right ws ws' h w) v
grows_right ws rs ws' rs' b (war h r w) = war h (mem-append_right rs rs' h r) w

-- A barrier stands somewhere up to position j.
abbrev BarrierBy : List Bool → ℕ → Type 0
BarrierBy flags j = (b : ℕ) × (b ≤ j) × (get_elem? flags b ≡ some true)

-- A dispatch that conflicts with what is pending meets a barrier no later than itself.
pending_caught :
    (c : HazardCursor) (n : ℕ) (xs : List Access) (j : ℕ) (y : Access)
    → 0 < n
    → get_elem? xs j ≡ some y
    → Conflict c.pending_writes c.pending_reads y
    → BarrierBy (barriers_from c n xs) j
unfolding barriers_from barrier_before
pending_caught c n [] j y pos at k = absurd (ground arith)
pending_caught c n (a ∷ xs) zero y pos at k =
    (0, omega arith, ground (arith, hazard_with-finds y c.pending_writes c.pending_reads k))
pending_caught c n (a ∷ xs) (suc j) y pos at k =
    elim (Bool-cases (ltb 0 n && hazard_with a c.pending_writes c.pending_reads)) [
      | inl e ↦ (0, omega arith, rw e)
      | inr e ↦
          let (b, le, f) =
            pending_caught (extend c a) (suc n) xs j y (omega arith) at
              (grows_left c.pending_writes c.pending_reads a.writes a.reads y k) in
          (suc b, omega arith, rw (e, f))
    ]

-- After a dispatch, everything that conflicts with it conflicts with what is pending.
abbrev pub BarrierWithin : List Bool → ℕ → ℕ → Type 0
BarrierWithin flags i j = (b : ℕ) × (i < b) × (b ≤ j) × (get_elem? flags b ≡ some true)

head_caught :
    (c : HazardCursor) (n : ℕ) (x y : Access) (xs : List Access) (j : ℕ)
    → get_elem? xs j ≡ some y
    → Conflicts x y
    → BarrierWithin (barriers_from c n (x ∷ xs)) 0 (suc j)
unfolding barriers_from barrier_before
head_caught c n x y xs j at k =
    elim (Bool-cases (ltb 0 n && hazard_with x c.pending_writes c.pending_reads)) [
      | inl e ↦
          let (b, le, f) = pending_caught (extend fresh x) (suc n) xs j y (omega arith) at k in
          (suc b, omega arith, omega arith, rw (e, f))
      | inr e ↦
          let (b, le, f) =
            pending_caught (extend c x) (suc n) xs j y (omega arith) at
              (grows_right c.pending_writes c.pending_reads x.writes x.reads y k) in
          (suc b, omega arith, omega arith, rw (e, f))
    ]

from-separates :
    (c : HazardCursor) (n : ℕ) (xs : List Access) (i j : ℕ) (x y : Access)
    → i < j
    → get_elem? xs i ≡ some x
    → get_elem? xs j ≡ some y
    → Conflicts x y
    → BarrierWithin (barriers_from c n xs) i j
unfolding barriers_from barrier_before
from-separates c n xs i zero x y lt at_i at_j k = absurd (omega arith)
from-separates c n [] i (suc j) x y lt at_i at_j k = absurd (ground arith)
from-separates c n (a ∷ xs) zero (suc j) x y lt at_i at_j k =
    head_caught c n a y xs j at_j (subst (λ z. Conflicts z y) (sym (some-eq at_i)) k)
from-separates c n (a ∷ xs) (suc i) (suc j) x y lt at_i at_j k =
    elim (Bool-cases (ltb 0 n && hazard_with a c.pending_writes c.pending_reads)) [
      | inl e ↦
          let (b, gt, le, f) =
            from-separates (extend fresh a) (suc n) xs i j x y (omega arith) at_i at_j k in
          (suc b, omega arith, omega arith, rw (e, f))
      | inr e ↦
          let (b, gt, le, f) =
            from-separates (extend c a) (suc n) xs i j x y (omega arith) at_i at_j k in
          (suc b, omega arith, omega arith, rw (e, f))
    ]

-- Of two dispatches of a chain that conflict, on a buffer that one of them writes and both touch, a
-- barrier is recorded after the first and no later than directly before the second.
pub barriers-separate :
    (xs : List Access) (i j : ℕ) (x y : Access)
    → i < j
    → get_elem? xs i ≡ some x
    → get_elem? xs j ≡ some y
    → Conflicts x y
    → BarrierWithin (barriers xs) i j
barriers-separate xs i j x y lt at_i at_j k = from-separates fresh 0 xs i j x y lt at_i at_j k
