-- ===== src/Elementwise/Flash/Bounds.antt =====
-- src/executor/elementwise/flash.rs: an accepted flash attention reads and writes in bounds.
use tensor_ash.Prelude.{ℕ, ◌+◌, ◌*◌, ◌/◌, ◌<◌, ◌≤◌, ◌≡◌, ok, ◌⊎◌, Bool, is_some, [], ◌∷◌}
use tensor_ash.Tensor.{Tensor, len}
use tensor_ash.Elementwise.{FlashAttentionDesc}
use tensor_ash.Elementwise.Pc.{FlashPc, flash_pc}
use tensor_ash.Elementwise.Plan.{Context, Pipeline, simt, cm2, ElementwiseDispatch}
use tensor_ash.Elementwise.Flash.{
  QueryLayout, query_layout, out_layout, cache_shapes, flash_dispatch,
}

-- The query rows of a workgroup of a pipeline: the tensor-core kernels take 64, the others 128.
abbrev pub rows_of : Pipeline → ℕ
rows_of (cm2 op) = 64
rows_of (simt op) = 128

-- The steps of an accepted flash attention.
record Steps (ctx : Context) (q kt v out : Tensor) (desc : FlashAttentionDesc) (force_simt : Bool)
    (d : ElementwiseDispatch) : Type 0 where
  io_f16 : Bool
  cache : ℕ × ℕ × ℕ
  l : QueryLayout
  o : ℕ × ℕ
  cached : cache_shapes kt v ≡ ok cache
  laid : query_layout q cache.1 desc.token_major_heads ≡ ok l
  out_laid :
      out_layout q out cache.1 (is_some desc.token_major_heads) l desc.out_token_major_heads ≡ ok o
  dispatched : flash_dispatch ctx q kt v out desc force_simt io_f16 cache l o ≡ ok d

-- What an accepted dispatch promises of its push constants, for query heads of `dh` lanes.
pub record Attends (q kt v out : Tensor) (d : ElementwiseDispatch) (kv_heads dh : ℕ) (pc : FlashPc)
    : Type 0 where
  pub pushed : d.push ≡ flash_pc pc
  pub head_dim : (dh ≡ 64) ⊎ (dh ≡ 128)
  pub caches :
      (kt.shape ≡ kv_heads ∷ dh ∷ pc.t_max ∷ []) × (v.shape ≡ kv_heads ∷ pc.t_max ∷ dh ∷ [])
  pub valid : pc.kv_len ≤ pc.t_max
  pub reads_query :
      (h t lane : ℕ)
      → h < d.groups.1
      → t < pc.t_q
      → lane < dh
      → h * pc.q_head_stride + t * pc.q_row_stride + lane < len q
  pub writes_out :
      (h t lane : ℕ)
      → h < d.groups.1
      → t < pc.t_q
      → lane < dh
      → h * pc.o_head_stride + t * pc.o_row_stride + lane < len out
  pub reads_cache : (h : ℕ) → h < d.groups.1 → h / pc.group_size < kv_heads
  pub covered : pc.t_q ≤ d.groups.0 * rows_of d.pipeline
