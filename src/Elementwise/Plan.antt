-- ===== src/Elementwise/Plan.antt =====
-- src/executor/elementwise/mod.rs: what the planners share. The Vulkan objects are parameters: the
-- context says whether building the pipelines succeeds, and a pipeline is known by its kernel. A
-- refusal and a panic of the source are both errors here; u32 and u64 arithmetic wraps around, as
-- in a release build.
use package.tensor_ash.Prelude.{
  ℕ, ◌/◌, Bool, not, ◌||◌, Option, some, none, List, [], ◌∷◌, Result, ok, ◌>>=◌, ◌>>◌, bail_if,
  ok_or, ltb, ◌==◌, if◌then◌else◌, try_u32,
}
use package.tensor_ash.Tensor.{Tensor, Buffer, is_f16, len}
use package.tensor_ash.Matmul.Resolution.Op.{same_shape}
use package.tensor_ash.Elementwise.Pc.{Push}

-- `Op` and `Cm2Op`, the indices of the compiled kernels.
pub data Op : Type 0 where
  softmax rms_norm layer_norm rms_norm_f16 rope rope_f16 rope_scatter rope_scatter_to_f16 : Op
  copy binary binary_f16 copy_to_f16 copy_f16 copy_f16_to_f32 : Op
  flash_dh64 flash_dh128 flash_kv16_dh64 flash_kv16_dh128 : Op
  attn_decode_dh64 attn_decode_kv16_dh64 attn_decode_combine : Op
  argmax embed_gather prefill_qkv_pack : Op

pub data Cm2Op : Type 0 where
  cm2_flash_dh64 cm2_flash_dh128 cm2_flash_kv16_dh64 cm2_flash_kv16_dh128 : Cm2Op
  cm2_flash_kv16_io16_dh64 : Cm2Op

-- What a dispatch binds.
pub data Pipeline : Type 0 where
  simt : Op → Pipeline
  cm2 : Cm2Op → Pipeline

-- Threads per workgroup.
abbrev pub wg : ℕ
wg = 256

-- What the planners read of `VulkanContext`, and whether `ElementwisePipeline::new` succeeds.
pub record Context : Type 0 where
  pub id : ℕ
  pub bda : Bool
  pub coopmat2 : Bool
  pub max_x : ℕ
  pub max_y : ℕ
  pub builds : Bool

pub data ElementwiseError : Type 0 where
  foreign_context bad_storage bad_shape bad_mask bad_length bad_geometry : ElementwiseError
  out_of_bounds exceeds_u32 same_tensor no_bda build_failed no_kernel : ElementwiseError
  grid_too_large panic : ElementwiseError

pub record ElementwiseDispatch : Type 0 where
  pub pipeline : Pipeline
  pub push : Push
  pub groups : ℕ × ℕ

-- `Arc::ptr_eq`, and `validate_tensor_context` over it.
abbrev pub belongs_to : Buffer → Context → Bool
belongs_to b ctx = b.context == ctx.id

abbrev pub validate_tensor_context : Context → Tensor → Result ElementwiseError (Unit {0})
validate_tensor_context ctx t = bail_if (not (belongs_to t.buffer ctx)) foreign_context

-- `shape.last()`.
unfoldable pub last_of : List ℕ → Option ℕ
last_of [] = none
last_of (d ∷ []) = some d
last_of (d ∷ e ∷ ds) = last_of (e ∷ ds)

-- The `expect` of an empty shape and a division by zero panic; no constructed tensor has either.
unfoldable pub rows_cols : Tensor → Result ElementwiseError (ℕ × ℕ)
rows_cols t = do
  cols ← ok_or (last_of t.shape) panic
  bail_if (cols == 0) panic
  rows ← ok_or (try_u32 (len t / cols)) exceeds_u32
  ok (rows, cols)

-- `Executor::elementwise`, which builds the pipelines once.
unfoldable pub elementwise : Context → Result ElementwiseError (Unit {0})
elementwise ctx = do bail_if (not ctx.bda) no_bda; bail_if (not ctx.builds) build_failed

-- `ElementwisePipeline::cm2_pipeline`.
abbrev pub cm2_pipeline : Context → Cm2Op → Option Pipeline
cm2_pipeline ctx op = if ctx.coopmat2 then some (cm2 op) else none

unfoldable pub ensure_f32 : Context → Tensor → Result ElementwiseError (Unit {0})
ensure_f32 ctx t = do validate_tensor_context ctx t; bail_if (is_f16 t.dtype) bad_storage

-- Equality of storage types.
abbrev pub same_dtype : Tensor → Tensor → Bool
same_dtype s t = if is_f16 s.dtype then is_f16 t.dtype else not (is_f16 t.dtype)

unfoldable pub io_dtype_f16 : Context → Tensor → Tensor → Result ElementwiseError Bool
io_dtype_f16 ctx input output = do
  validate_tensor_context ctx input
  validate_tensor_context ctx output
  bail_if (not (same_dtype input output)) bad_storage
  ok (is_f16 input.dtype)

unfoldable pub ensure_same_shape : Tensor → Tensor → Result ElementwiseError (Unit {0})
ensure_same_shape input output = bail_if (not (same_shape input.shape output.shape)) bad_shape

-- `plan_elementwise`: the grid is checked against the device.
unfoldable pub plan_elementwise :
    Context → Pipeline → Push → ℕ → ℕ → Result ElementwiseError ElementwiseDispatch
plan_elementwise ctx pipeline push groups_x groups_y = do
  bail_if (ltb ctx.max_x groups_x || ltb ctx.max_y groups_y) grid_too_large
  elementwise ctx
  ok (record { pipeline = pipeline; push = push; groups = (groups_x, groups_y) })
