-- ===== src/Elementwise/Flash.antt =====
-- src/executor/elementwise/flash.rs: fused causal attention over a whole prompt.
pub mod Strides
pub mod Bounds
use package.tensor_ash.Prelude.{
  ℕ, ◌*◌, ◌/◌, Bool, true, false, not, ◌||◌, ◌&&◌, Option, some, none, is_some, List, [], ◌∷◌,
  Result, ok, err, ◌>>=◌, ◌>>◌, bail_if, ok_or, ltb, ◌==◌, if◌then◌else◌, is_multiple_of, div_ceil,
  mul64, mul32,
}
use package.tensor_ash.Tensor.{Tensor, is_f16, len, device_address}
use package.tensor_ash.Elementwise.{FlashAttentionDesc}
use package.tensor_ash.Elementwise.Attention.{shape3}
use package.tensor_ash.Elementwise.Pc.{FlashPc, flash_pc}
use package.tensor_ash.Matmul.Resolution.Op.{same_shape}
use package.tensor_ash.Elementwise.Plan.{
  Context, ElementwiseDispatch, ElementwiseError, Op, Cm2Op, Pipeline, simt, flash_dh64,
  flash_dh128, flash_kv16_dh64, flash_kv16_dh128, cm2_flash_dh64, cm2_flash_dh128,
  cm2_flash_kv16_dh64, cm2_flash_kv16_dh128, cm2_flash_kv16_io16_dh64, bad_storage, bad_shape,
  bad_geometry, no_kernel, cm2_pipeline, validate_tensor_context, elementwise, io_dtype_f16,
  same_dtype, plan_elementwise,
}

-- Heads, query rows, and the strides of a head and of a row.
pub record QueryLayout : Type 0 where
  pub heads : ℕ
  pub t_q : ℕ
  pub head_stride : ℕ
  pub row_stride : ℕ

-- `q.shape().first().copied().unwrap_or(0)`.
abbrev pub first_or_zero : List ℕ → ℕ
first_or_zero [] = 0
first_or_zero (d ∷ ds) = d

unfoldable pub query_layout : Tensor → ℕ → Option ℕ → Result ElementwiseError QueryLayout
query_layout q dh (some heads) = do
  bail_if (heads == 0) bad_geometry
  bail_if
      (first_or_zero q.shape == 0 || not (len q == mul64 (mul64 (first_or_zero q.shape) heads) dh))
      bad_shape
  ok (record {
    heads = heads;
    t_q = first_or_zero q.shape;
    head_stride = dh;
    row_stride = mul32 heads dh;
  })
query_layout q dh none = do
  dims ← shape3 q.shape
  bail_if (not (dims.2 == dh)) bad_shape
  ok (record { heads = dims.0; t_q = dims.1; head_stride = mul32 dims.1 dh; row_stride = dh })

-- The strides of the output: token-major when asked for, else those of the query.
unfoldable pub out_layout :
    Tensor → Tensor → ℕ → Bool → QueryLayout → Option ℕ → Result ElementwiseError (ℕ × ℕ)
out_layout q out dh token_major l (some oh) = do
  bail_if (oh == 0) bad_geometry
  bail_if (not (oh == l.heads)) bad_geometry
  bail_if (not (len out == mul64 (mul64 l.t_q oh) dh)) bad_shape
  ok (dh, mul32 oh dh)
out_layout q out dh token_major l none = do
  bail_if
      (if token_major
        then not (len out == len q)
        else (not (same_shape out.shape q.shape) || not (len out == len q)))
      bad_shape
  ok (l.head_stride, l.row_stride)

-- The kernels of a head dimension and of the storage type of the caches.
unfoldable pub flash_kernels : ℕ → Bool → Result ElementwiseError (Op × Cm2Op)
flash_kernels dh kv_f16 =
    if dh == 64
    then ok
        (if kv_f16 then (flash_kv16_dh64, cm2_flash_kv16_dh64) else (flash_dh64, cm2_flash_dh64))
    else if dh == 128
    then ok (
        if kv_f16 then (flash_kv16_dh128, cm2_flash_kv16_dh128) else (flash_dh128, cm2_flash_dh128))
    else err no_kernel

-- The pipeline and the query rows of a workgroup, when a tensor-core pipeline is there or not.
unfoldable pub or_simt : Option Pipeline → Op → Pipeline × ℕ
or_simt (some pipeline) op = (pipeline, 64)
or_simt none op = (simt op, 128)

unfoldable pub io16 : Option Pipeline → Result ElementwiseError (Pipeline × ℕ)
io16 (some pipeline) = ok (pipeline, 64)
io16 none = err no_kernel

unfoldable pub flash_pipeline :
    Context → Bool → Bool → ℕ → Bool → Result ElementwiseError (Pipeline × ℕ)
flash_pipeline ctx true kv_f16 dh force_simt =
    if kv_f16 && dh == 64 && not force_simt
    then io16 (cm2_pipeline ctx cm2_flash_kv16_io16_dh64)
    else err no_kernel
flash_pipeline ctx false kv_f16 dh force_simt = do
  kernels ← flash_kernels dh kv_f16
  ok (or_simt (if force_simt then none else cm2_pipeline ctx kernels.1) kernels.0)

-- The shapes of the caches: `kt` is `[kv_heads, dh, t_max]`, `v` is `[kv_heads, t_max, dh]`.
unfoldable pub cache_shapes : Tensor → Tensor → Result ElementwiseError (ℕ × ℕ × ℕ)
cache_shapes kt v = do
  cache ← shape3 kt.shape
  values ← shape3 v.shape
  bail_if (not (values.1 == cache.2) || not (values.0 == cache.0) || not (values.2 == cache.1))
      bad_shape
  ok cache

-- The push constants.
abbrev pub flash_block :
    Tensor
    → Tensor
    → Tensor
    → Tensor
    → FlashAttentionDesc
    → ℕ × ℕ × ℕ
    → QueryLayout
    → ℕ × ℕ
    → FlashPc
flash_block q kt v out desc (kv_heads, dh, t_max) l (o_head_stride, o_row_stride) = record {
  t_q = l.t_q;
  t_max = t_max;
  kv_len = desc.kv_len;
  pos_base = desc.pos_base;
  group_size = l.heads / kv_heads;
  scale = desc.scale;
  q_head_stride = l.head_stride;
  q_row_stride = l.row_stride;
  o_head_stride = o_head_stride;
  o_row_stride = o_row_stride;
  q_ptr = device_address q;
  kt_ptr = device_address kt;
  v_ptr = device_address v;
  out_ptr = device_address out;
}

-- The last checks, the choice of the kernel and the dispatch.
unfoldable pub flash_dispatch :
    Context
    → Tensor
    → Tensor
    → Tensor
    → Tensor
    → FlashAttentionDesc
    → Bool
    → Bool
    → ℕ × ℕ × ℕ
    → QueryLayout
    → ℕ × ℕ
    → Result ElementwiseError ElementwiseDispatch
flash_dispatch ctx q kt v out desc force_simt io_f16 cache l o = do
  bail_if (cache.0 == 0 || not (is_multiple_of l.heads cache.0)) bad_geometry
  bail_if (ltb cache.2 desc.kv_len) bad_geometry
  elementwise ctx
  route ← flash_pipeline ctx io_f16 (is_f16 kt.dtype) cache.1 force_simt
  plan_elementwise ctx route.0 (flash_pc (flash_block q kt v out desc cache l o))
      (div_ceil l.t_q route.1) l.heads

unfoldable pub plan_flash_attention :
    Context
    → Tensor
    → Tensor
    → Tensor
    → Tensor
    → FlashAttentionDesc
    → Bool
    → Result ElementwiseError ElementwiseDispatch
plan_flash_attention ctx q kt v out desc force_simt = do
  io_f16 ← io_dtype_f16 ctx q out
  validate_tensor_context ctx kt
  validate_tensor_context ctx v
  bail_if (not (same_dtype kt v)) bad_storage
  cache ← cache_shapes kt v
  l ← query_layout q cache.1 desc.token_major_heads
  o ← out_layout q out cache.1 (is_some desc.token_major_heads) l desc.out_token_major_heads
  flash_dispatch ctx q kt v out desc force_simt io_f16 cache l o
