-- ===== src/Elementwise/Strided.antt =====
-- src/executor/elementwise/ops.rs: the rotary embedding, its scattering form and the strided copy.
pub mod Bounds
pub mod Scatter
use package.tensor_ash.Prelude.{
  ℕ, ◌+◌, ◌*◌, ◌/◌, Bool, true, false, not, ◌||◌, Result, ok, err, ◌>>=◌, ◌>>◌, bail_if, ok_or, ltb,
  leb, ◌==◌, if◌then◌else◌, is_multiple_of, div_ceil, try_u32, add64, sub64, mul64, mul32,
}
use package.tensor_ash.Tensor.{Tensor, DType, f32, f16, is_f16, len, device_address, raw_buffer}
use package.tensor_ash.Elementwise.{RopeDesc, RopeScatterDesc, CopyDesc}
use package.tensor_ash.Elementwise.Pc.{Push, rope_pc, rope_scatter_pc, copy_pc}
use package.tensor_ash.Elementwise.Plan.{
  Context, ElementwiseDispatch, ElementwiseError, Op, simt, rope, rope_f16, rope_scatter,
  rope_scatter_to_f16, copy, copy_to_f16, copy_f16, copy_f16_to_f32, bad_geometry, bad_length,
  exceeds_u32, same_tensor, out_of_bounds, wg, validate_tensor_context, elementwise, ensure_f32,
  io_dtype_f16, ensure_same_shape, plan_elementwise,
}

-- `rope_tokens`: the token count of the input, when the rotated width and the table fit.
unfoldable pub rope_tokens : Tensor → Tensor → RopeDesc → Result ElementwiseError ℕ
rope_tokens input table desc = do
  bail_if
      (ltb desc.rot_dim 2 || not (is_multiple_of desc.rot_dim 2) || ltb desc.head_dim desc.rot_dim)
      bad_geometry
  bail_if
      (desc.heads * desc.head_dim == 0
        || not (is_multiple_of (len input) (desc.heads * desc.head_dim)))
      bad_geometry
  tokens ← ok_or (try_u32 (len input / (desc.heads * desc.head_dim))) exceeds_u32
  bail_if (ltb (len table) (mul64 (desc.pos_base + tokens) desc.rot_dim)) bad_length
  ok tokens

-- The pairs that a rotation rotates, in u32.
abbrev pub rope_pairs : ℕ → RopeDesc → ℕ
rope_pairs tokens desc = mul32 (mul32 tokens desc.heads) (desc.rot_dim / 2)

unfoldable pub plan_rope :
    Context → Tensor → Tensor → Tensor → RopeDesc → Result ElementwiseError ElementwiseDispatch
plan_rope ctx input table output desc = do
  io_f16 ← io_dtype_f16 ctx input output
  ensure_f32 ctx table
  ensure_same_shape input output
  tokens ← rope_tokens input table desc
  elementwise ctx
  plan_elementwise ctx (simt (if io_f16 then rope_f16 else rope))
      (rope_pc (record {
        tokens = tokens;
        heads = desc.heads;
        head_dim = desc.head_dim;
        rot_dim = desc.rot_dim;
        pos_base = desc.pos_base;
        in_ptr = device_address input;
        out_ptr = device_address output;
        table_ptr = device_address table;
        pos_ptr = desc.pos_addr;
      }))
      (div_ceil (rope_pairs tokens desc) wg) 1

-- The farthest element of a triple of axes, in u64.
unfoldable pub farthest : ℕ → ℕ × ℕ × ℕ → ℕ × ℕ × ℕ → ℕ
farthest offset extent strides =
    add64
      (add64 (add64 offset (mul64 (sub64 extent.0 1) strides.0))
        (mul64 (sub64 extent.1 1) strides.1))
      (mul64 (sub64 extent.2 1) strides.2)

abbrev scatter_kernel : DType → Op
scatter_kernel f32 = rope_scatter
scatter_kernel f16 = rope_scatter_to_f16

unfoldable pub plan_rope_scatter :
    Context
    → Tensor
    → Tensor
    → Tensor
    → RopeDesc
    → RopeScatterDesc
    → Result ElementwiseError ElementwiseDispatch
plan_rope_scatter ctx input table dst desc scatter = do
  ensure_f32 ctx input
  ensure_f32 ctx table
  validate_tensor_context ctx dst
  bail_if (raw_buffer input == raw_buffer dst) same_tensor
  tokens ← rope_tokens input table desc
  bail_if
      (leb (len dst)
        (farthest scatter.dst_offset (tokens, desc.heads, desc.head_dim) scatter.dst_strides))
      out_of_bounds
  elementwise ctx
  plan_elementwise ctx (simt (scatter_kernel dst.dtype))
      (rope_scatter_pc (record {
        tokens = tokens;
        heads = desc.heads;
        head_dim = desc.head_dim;
        rot_dim = desc.rot_dim;
        pos_base = desc.pos_base;
        dst_offset = scatter.dst_offset;
        dst_strides = scatter.dst_strides;
        pos_scale = scatter.pos_scale;
        in_ptr = device_address input;
        dst_ptr = device_address dst;
        table_ptr = device_address table;
        pos_ptr = desc.pos_addr;
      }))
      (div_ceil (rope_pairs tokens desc) wg) 1

-- The kernel of each pair of storage types.
unfoldable pub copy_kernel : DType → DType → Op
copy_kernel f32 f32 = copy
copy_kernel f32 f16 = copy_to_f16
copy_kernel f16 f16 = copy_f16
copy_kernel f16 f32 = copy_f16_to_f32

-- `extent.iter().product::<u64>()`, which wraps around.
unfoldable pub extent_product : ℕ × ℕ × ℕ → ℕ
extent_product (x, y, z) = mul64 (mul64 x y) z

-- `extent.contains(&0)`.
abbrev pub has_zero : ℕ × ℕ × ℕ → Bool
has_zero (x, y, z) = x == 0 || y == 0 || z == 0

unfoldable pub plan_copy_strided :
    Context → Tensor → Tensor → CopyDesc → Result ElementwiseError ElementwiseDispatch
plan_copy_strided ctx src dst desc = do
  validate_tensor_context ctx src
  validate_tensor_context ctx dst
  bail_if (raw_buffer src == raw_buffer dst) same_tensor
  bail_if (has_zero desc.extent) bad_geometry
  bail_if (leb (len src) (farthest desc.src_offset desc.extent desc.src_strides)) out_of_bounds
  bail_if (leb (len dst) (farthest desc.dst_offset desc.extent desc.dst_strides)) out_of_bounds
  total ← ok_or (try_u32 (extent_product desc.extent)) exceeds_u32
  elementwise ctx
  plan_elementwise ctx (simt (copy_kernel src.dtype dst.dtype))
      (copy_pc (record {
        extent = desc.extent;
        src_offset = desc.src_offset;
        src_strides = desc.src_strides;
        dst_offset = desc.dst_offset;
        dst_strides = desc.dst_strides;
        pos_scale = desc.pos_scale;
        src_ptr = device_address src;
        dst_ptr = device_address dst;
        pos_ptr = desc.pos_addr;
      }))
      (div_ceil total wg) 1
