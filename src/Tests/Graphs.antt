-- ===== src/Tests/Graphs.antt =====
-- src/executor/graph_ops.rs and src/executor/recording/graph.rs at concrete chains.
use tensor_ash.Prelude.{
  ℕ, ◌+◌, ◌≡◌, ◌<◌, ◌≤◌, refl, List, [], ◌∷◌, ◌++◌, Bool, true, false, Option, some, none, inl, inr,
  get_elem?, arith, map, length,
}
use tensor_ash.Tensor.{Tensor, f32, f16}
use tensor_ash.Matmul.{MatmulCall, new}
use tensor_ash.Matmul.Stores.{StoreDesc}
use tensor_ash.Elementwise.{AttnDecodeDesc}
use tensor_ash.Hazard.{Access, barriers, any_in, hazard_with, barrier_before, barriers_from}
use tensor_ash.Hazard.Separation.{barriers-separate, BarrierWithin, raw}
use tensor_ash.Hazard.Need.{barriers-needed, Earlier}
use tensor_ash.ExecGraph.{
  accesses, attn_decode, matmul, rms_norm, record_exec_ops, exec_ops_barrier_count,
}
use tensor_ash.ExecGraph
use tensor_ash.ExecGraph.Ordered.{cache-visible}
use tensor_ash.MatmulGraph.{record_graph, dispatch}
use tensor_ash.MatmulGraph.Agreement.{record_graph-agrees, unsplit, as_graph}
use tensor_ash.MatmulGraph.Stores.{record_graph-misses_store, scattering}
use tensor_ash.GemvChain.{sync_flags}
use tensor_ash.GemvChain.Synced.{read_after, reads_a, sync_flags-separate}
use tensor_ash.Tests.{tensor, row_call}

abbrev producer : Access
producer = record { reads = 1 ∷ []; writes = 2 ∷ [] }

abbrev consumer : Access
consumer = record { reads = 2 ∷ []; writes = 3 ∷ [] }

barriers-separate_example : BarrierWithin (barriers (producer ∷ consumer ∷ [])) 0 1
barriers-separate_example =
    barriers-separate (producer ∷ consumer ∷ []) 0 1 producer consumer (omega arith) refl refl
      (raw 2 (inl refl) (inl refl))

barrier_before_consumer : get_elem? (barriers (producer ∷ consumer ∷ [])) 1 ≡ some true
unfolding barriers_from barrier_before hazard_with any_in tensor_ash.Prelude.contains
barrier_before_consumer = refl

barriers-needed_example :
    (y : Access) × (get_elem? (producer ∷ consumer ∷ []) 1 ≡ some y)
    × Earlier (barriers (producer ∷ consumer ∷ [])) (producer ∷ consumer ∷ []) 1 y
barriers-needed_example = barriers-needed (producer ∷ consumer ∷ []) 1 barrier_before_consumer

abbrev step : AttnDecodeDesc
step = record { kv_len = 1; scale = 1065353216; pos_addr = 0 }

abbrev q : Tensor
q = tensor (4 ∷ 64 ∷ []) f32 10

abbrev kt : Tensor
kt = tensor (4 ∷ 64 ∷ 16 ∷ []) f32 11

abbrev v : Tensor
v = tensor (4 ∷ 16 ∷ 64 ∷ []) f32 12

abbrev scratch : Tensor
scratch = tensor (8448 ∷ []) f32 13

abbrev out : Tensor
out = tensor (4 ∷ 64 ∷ []) f32 14

abbrev column : StoreDesc
column = record {
  head_dim = 64;
  pos_base = 0;
  pos_scale = 1;
  stride_head = 1024;
  stride_dim = 16;
  pos_addr = 0;
}

cache-visible_example :
    BarrierWithin
      (barriers (
        accesses
          (matmul (scattering row_call kt column) ∷ attn_decode q kt v scratch out step ∷ [])))
      0
      1
unfolding accesses ExecGraph.op_accesses
cache-visible_example =
    cache-visible [] [] [] (scattering row_call kt column) kt q kt v scratch out step refl
      (inl refl)

abbrev next_call : MatmulCall
next_call = record row_call {
  a = tensor (1 ∷ 64 ∷ []) f32 3;
  b = tensor (64 ∷ 64 ∷ []) f16 4;
  c = tensor (1 ∷ 64 ∷ []) f32 5;
}

record_graph-agrees_example :
    record_graph (unsplit (new row_call ∷ new next_call ∷ []))
    ≡ map as_graph (record_exec_ops (accesses (map matmul (new row_call ∷ new next_call ∷ []))))
record_graph-agrees_example =
    record_graph-agrees (new row_call ∷ new next_call ∷ []) (refl, (refl, tt))

-- Reads the cache as its B, and is else on the buffers 6 and 7.
abbrev cache_reader : MatmulCall
cache_reader = record row_call {
  a = tensor (1 ∷ 64 ∷ []) f32 6;
  b = kt;
  c = tensor (1 ∷ 16 ∷ []) f32 7;
}

record_graph-misses_store_example :
    (record_graph ((scattering row_call kt column, false) ∷ (new cache_reader, false) ∷ [])
      ≡ dispatch 0 ∷ dispatch 1 ∷ [])
    × (record_exec_ops
          (accesses (matmul (scattering row_call kt column) ∷ matmul (new cache_reader) ∷ []))
        ≡ ExecGraph.dispatch 0 ∷ ExecGraph.barrier ∷ ExecGraph.dispatch 1 ∷ [])
record_graph-misses_store_example =
    record_graph-misses_store row_call cache_reader kt column refl (omega arith) (omega arith)
      (omega arith) (omega arith) (omega arith)

sync_flags-separate_example :
    get_elem? (sync_flags (new row_call ∷ new next_call ∷ [])) 0 ≡ some true
sync_flags-separate_example =
    sync_flags-separate (new row_call ∷ new next_call ∷ []) 0 0 3 (new row_call) (new next_call)
      (omega arith) refl refl (read_after refl (reads_a refl))
