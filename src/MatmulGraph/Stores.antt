-- ===== src/MatmulGraph/Stores.antt =====
-- src/executor/recording/graph.rs and src/executor/graph_ops.rs on a store that goes to a cache.
use tensor_ash.Prelude.{
  ◌≡◌, ◌≢◌, true, false, [], ◌∷◌, contains, arith, ==_iff, Bool-cases, inl, inr,
}
use tensor_ash.Tensor.{Tensor, raw_buffer}
use tensor_ash.Matmul.{MatmulCall, MatmulOp, new}
use tensor_ash.Matmul.Stores.{scatter, StoreDesc}
use tensor_ash.Hazard.{any_in, hazard_with, barrier_before}
use tensor_ash.ExecGraph.{
  matmul, Command, record_from, record_exec_ops, accesses, op_accesses, matmul_access,
}
use tensor_ash.ExecGraph
use tensor_ash.MatmulGraph.{
  untracked, needs_barrier, track, record_graph_from, record_graph, dispatch,
}

abbrev pub scattering : MatmulCall → Tensor → StoreDesc → MatmulOp
scattering call cache d = record (new call) { store = scatter cache d }

graph-misses :
    (call reader : MatmulCall) (cache : Tensor) (d : StoreDesc)
    → raw_buffer call.c ≢ raw_buffer reader.a
    → raw_buffer call.c ≢ raw_buffer reader.b
    → raw_buffer call.c ≢ raw_buffer reader.c
    → raw_buffer call.a ≢ raw_buffer reader.c
    → raw_buffer call.b ≢ raw_buffer reader.c
    → needs_barrier (track untracked (scattering call cache d)) (new reader) ≡ false
unfolding needs_barrier contains
graph-misses call reader cache d ca cb cc ac bc = grind (
  arith,
  ==_iff (raw_buffer reader.a) (raw_buffer call.c),
  ==_iff (raw_buffer reader.b) (raw_buffer call.c),
  ==_iff (raw_buffer reader.c) (raw_buffer call.c),
  ==_iff (raw_buffer reader.c) (raw_buffer call.a),
  ==_iff (raw_buffer reader.c) (raw_buffer call.b),
)

graph-misses_first :
    (call : MatmulCall) (cache : Tensor) (d : StoreDesc)
    → needs_barrier untracked (scattering call cache d) ≡ false
unfolding needs_barrier contains
graph-misses_first call cache d = grind arith

exec-finds :
    (call reader : MatmulCall) (cache : Tensor) (d : StoreDesc)
    → raw_buffer reader.b ≡ raw_buffer cache
    → hazard_with
        (matmul_access (new reader))
        (matmul_access (scattering call cache d)).writes
        (matmul_access (scattering call cache d)).reads
      ≡ true
unfolding hazard_with any_in contains matmul_access
exec-finds call reader cache d same = elim (Bool-cases reader.accumulate) [
  | inl e ↦ rw e (grind (arith, ==_iff (raw_buffer reader.b) (raw_buffer cache)))
  | inr e ↦ rw e (grind (arith, ==_iff (raw_buffer reader.b) (raw_buffer cache)))
]

-- A matmul that scatters its result to a cache, and after it a plain matmul that reads the cache as
-- its B and shares no other buffer with the first: the recorder of mixed graphs puts a barrier
-- between the two, and the recorder of matmul graphs records none.
pub record_graph-misses_store :
    (call reader : MatmulCall) (cache : Tensor) (d : StoreDesc)
    → raw_buffer reader.b ≡ raw_buffer cache
    → raw_buffer call.c ≢ raw_buffer reader.a
    → raw_buffer call.c ≢ raw_buffer reader.b
    → raw_buffer call.c ≢ raw_buffer reader.c
    → raw_buffer call.a ≢ raw_buffer reader.c
    → raw_buffer call.b ≢ raw_buffer reader.c
    → (record_graph ((scattering call cache d, false) ∷ (new reader, false) ∷ [])
        ≡ dispatch 0 ∷ dispatch 1 ∷ [])
      × (record_exec_ops (accesses (matmul (scattering call cache d) ∷ matmul (new reader) ∷ []))
          ≡ ExecGraph.dispatch 0 ∷ ExecGraph.barrier ∷ ExecGraph.dispatch 1 ∷ [])
unfolding record_graph_from record_from accesses op_accesses barrier_before
record_graph-misses_store call reader cache d same ca cb cc ac bc = (
  rw (graph-misses_first call cache d, graph-misses call reader cache d ca cb cc ac bc),
  rw (exec-finds call reader cache d same),
)
