-- ===== src/ExecGraph/Recorded.antt =====
-- src/executor/graph_ops.rs: the recorded commands against the census and the barrier flags.
use tensor_ash.Prelude.{
  ℕ, suc, ◌≡◌, refl, ap, inl, inr, List, [], ◌∷◌, length, Bool-cases, ltb, ◌&&◌,
}
use tensor_ash.Hazard.{Access, HazardCursor, barrier_before, fresh, hazard_with, extend}
use tensor_ash.ExecGraph.{
  ExecOp, Command, barrier, dispatch, record_from, record_exec_ops, census_from, accesses,
  exec_ops_barrier_count,
}

-- The number of barriers among recorded commands.
abbrev pub count_barriers : List Command → ℕ
count_barriers [] = 0
count_barriers (barrier ∷ cs) = suc (count_barriers cs)
count_barriers (dispatch i ∷ cs) = count_barriers cs

-- The indices that recorded commands dispatch, in order.
abbrev pub dispatched : List Command → List ℕ
dispatched [] = []
dispatched (barrier ∷ cs) = dispatched cs
dispatched (dispatch i ∷ cs) = i ∷ dispatched cs

-- The numbers from one on, as many as a list has elements.
abbrev pub numbered : {A : Type 0} → ℕ → List A → List ℕ
numbered n [] = []
numbered n (x ∷ xs) = n ∷ numbered (suc n) xs

length-numbered : {A : Type 0} → (n : ℕ) (xs : List A) → length (numbered n xs) ≡ length xs
length-numbered n [] = refl
length-numbered n (x ∷ xs) = ap suc (length-numbered (suc n) xs)

recorded-count :
    (c : HazardCursor) (n : ℕ) (xs : List Access)
    → count_barriers (record_from c n xs) ≡ census_from c n xs
unfolding record_from census_from barrier_before
recorded-count c n [] = refl
recorded-count c n (a ∷ xs) =
    elim (Bool-cases (ltb 0 n && hazard_with a c.pending_writes c.pending_reads)) [
      | inl e ↦ rw (e, recorded-count (extend fresh a) (suc n) xs)
      | inr e ↦ rw (e, recorded-count (extend c a) (suc n) xs)
    ]

recorded-order :
    (c : HazardCursor) (n : ℕ) (xs : List Access) → dispatched (record_from c n xs) ≡ numbered n xs
unfolding record_from barrier_before
recorded-order c n [] = refl
recorded-order c n (a ∷ xs) =
    elim (Bool-cases (ltb 0 n && hazard_with a c.pending_writes c.pending_reads)) [
      | inl e ↦ rw (e, recorded-order (extend fresh a) (suc n) xs)
      | inr e ↦ rw (e, recorded-order (extend c a) (suc n) xs)
    ]

-- The census of a chain is what recording it does: as many dispatches, in the order of the steps,
-- and as many barriers.
pub record_exec_ops-census :
    (ops : List ExecOp)
    → (count_barriers (record_exec_ops (accesses ops)) ≡ (exec_ops_barrier_count ops).1)
      × (dispatched (record_exec_ops (accesses ops)) ≡ numbered 0 (accesses ops))
      × (length (dispatched (record_exec_ops (accesses ops))) ≡ (exec_ops_barrier_count ops).0)
record_exec_ops-census ops = (
  recorded-count fresh 0 (accesses ops),
  recorded-order fresh 0 (accesses ops),
  rw (recorded-order fresh 0 (accesses ops), length-numbered 0 (accesses ops)),
)
