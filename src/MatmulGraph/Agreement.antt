-- ===== src/MatmulGraph/Agreement.antt =====
-- src/executor/recording/graph.rs against src/executor/graph_ops.rs: the two recorders agree on a
-- chain of plain matmuls.
use tensor_ash.Prelude.{
  ℕ, suc, ◌≡◌, refl, inl, inr, Bool, true, false, ◌||◌, List, [], ◌∷◌, ◌++◌, map, ltb, Option, some,
  none, contains, arith, Bool-cases,
}
use tensor_ash.Tensor.{Tensor, raw_buffer}
use tensor_ash.Matmul.{MatmulOp}
use tensor_ash.Matmul.Epilogues.{d_of}
use tensor_ash.Matmul.Stores.{no_store}
use tensor_ash.Hazard.{HazardCursor, fresh, extend, barrier_before}
use tensor_ash.ExecGraph.{
  matmul, Command, barrier, dispatch, record_from, record_exec_ops, accesses, op_accesses,
  norm_weight, reads_optional,
}
use tensor_ash.MatmulGraph
use tensor_ash.MatmulGraph.Operands.{
  contains-append, optional-contains, extend-contains, accumulated, plain_access, plain-access,
  accumulated-contains, plain-writes, plain-hazard,
}
use tensor_ash.MatmulGraph.{
  Tracked, untracked, needs_barrier, track, record_graph_from, record_graph, GraphCommand,
  optional_in, extend_optional,
}

-- What the two recorders keep: the same written handles, and read handles that agree up to those.
abbrev Agrees : HazardCursor → Tracked → Type 0
Agrees c s =
    (c.pending_writes ≡ s.written)
    × ((h : ℕ)
        → (contains c.pending_writes h || contains c.pending_reads h)
          ≡ (contains s.written h || contains s.read h))

Agrees-extend :
    (op : MatmulOp) (c : HazardCursor) (s : Tracked)
    → Agrees c s
    → Agrees (extend c (plain_access op)) (track s op)
unfolding contains
Agrees-extend op c s (same, agree) = (
  rw (plain-writes op, same),
  λ h. rw (plain-writes op) (
      grind (
        arith,
        agree h,
        same,
        contains-append c.pending_writes (raw_buffer op.call.c ∷ []) h,
        contains-append s.written (raw_buffer op.call.c ∷ []) h,
        contains-append c.pending_reads (plain_access op).reads h,
        contains-append s.read (raw_buffer op.call.a ∷ raw_buffer op.call.b ∷ []) h,
        optional-contains (norm_weight op)
            (reads_optional (d_of op.epilogue.binary)
              (reads_optional op.epilogue.bias (accumulated op)))
            h,
        optional-contains (d_of op.epilogue.binary)
            (reads_optional op.epilogue.bias (accumulated op)) h,
        optional-contains op.epilogue.bias (accumulated op) h,
        accumulated-contains op h,
        extend-contains
            (extend_optional
              (extend_optional (s.read ++ raw_buffer op.call.a ∷ raw_buffer op.call.b ∷ [])
                op.epilogue.bias)
              (d_of op.epilogue.binary))
            (norm_weight op) h,
        extend-contains
            (extend_optional (s.read ++ raw_buffer op.call.a ∷ raw_buffer op.call.b ∷ [])
              op.epilogue.bias)
            (d_of op.epilogue.binary) h,
        extend-contains (s.read ++ raw_buffer op.call.a ∷ raw_buffer op.call.b ∷ [])
            op.epilogue.bias h,
      )),
)

-- Every operation of the chain stores to its C.
abbrev pub Plain : List MatmulOp → Type 0
Plain [] = Unit
Plain (op ∷ ops) = (op.store ≡ no_store) × Plain ops

abbrev pub as_graph : Command → GraphCommand
as_graph barrier = MatmulGraph.barrier
as_graph (dispatch i) = MatmulGraph.dispatch i

abbrev pub unsplit : List MatmulOp → List (MatmulOp × Bool)
unsplit = map (λ op. (op, false))

positive : (n : ℕ) → ltb 0 (suc n) ≡ true
positive n = ground arith

none_in : (o : Option Tensor) → optional_in [] o ≡ false
unfolding contains
none_in none = refl
none_in (some t) = refl

from-Agrees :
    (c : HazardCursor) (s : Tracked) (n : ℕ) (ops : List MatmulOp)
    → Plain ops
    → Agrees c s
    → record_graph_from s (suc n) (unsplit ops)
      ≡ map as_graph (record_from c (suc n) (accesses (map matmul ops)))
unfolding record_graph_from record_from accesses op_accesses barrier_before
from-Agrees c s n [] plain agree = refl
from-Agrees c s n (op ∷ ops) (store, plain) agree =
    rw (plain-access op store) (elim (Bool-cases (needs_barrier s op)) [
      | inl e ↦ rw (
        positive n,
        plain-hazard op c.pending_writes c.pending_reads s agree.0 agree.1,
        e,
        from-Agrees (extend fresh (plain_access op)) (track untracked op) (suc n) ops plain
            (Agrees-extend op fresh untracked (refl, λ h. refl)),
      )
      | inr e ↦ rw (
        positive n,
        plain-hazard op c.pending_writes c.pending_reads s agree.0 agree.1,
        e,
        from-Agrees (extend c (plain_access op)) (track s op) (suc n) ops plain
            (Agrees-extend op c s agree),
      )
    ])

first-clear : (op : MatmulOp) → needs_barrier untracked op ≡ false
unfolding needs_barrier contains
first-clear op =
    grind
      (arith, none_in op.epilogue.bias, none_in (d_of op.epilogue.binary), none_in (norm_weight op))

-- On a chain of matmuls that all store to their C, and of which none is routed to split-K, the
-- recorder of matmul graphs and the recorder of mixed graphs emit the same barriers and dispatches.
pub record_graph-agrees :
    (ops : List MatmulOp)
    → Plain ops
    → record_graph (unsplit ops) ≡ map as_graph (record_exec_ops (accesses (map matmul ops)))
unfolding record_graph_from record_from accesses op_accesses barrier_before
record_graph-agrees [] plain = refl
record_graph-agrees (op ∷ ops) (store, plain) = rw (
  plain-access op store,
  first-clear op,
  from-Agrees (extend fresh (plain_access op)) (track untracked op) 0 ops plain
      (Agrees-extend op fresh untracked (refl, λ h. refl)),
)
