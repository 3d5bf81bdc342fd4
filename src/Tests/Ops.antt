-- ===== src/Tests/Ops.antt =====
-- src/matmul/resolution.rs at concrete ops.
use tensor_ash.Prelude.{◌≡◌, ◌<◌, ◌≤◌, refl, [], ◌∷◌, true, false, arith, ok, checked_mul}
use tensor_ash.Tensor.{Tensor, f32, numel}
use tensor_ash.Matmul.{MatmulOp, new}
use tensor_ash.Matmul.Epilogues
use tensor_ash.Matmul.Stores.{StoreDesc, scatter}
use tensor_ash.Matmul.Resolution.{
  ResolvedMatmul, from_tensor_shape, checked_product, product_from, batch_stride, checked_flops,
  from_matrix_shapes,
}
use tensor_ash.Tensor.{len}
use tensor_ash.Matmul.Resolution.Op.{
  from_op, from_call, check_storage, check_packed, validate_epilogue, validate_normed_a,
  validate_store, store_last,
}
use tensor_ash.Matmul.Resolution.Op.StoreBounds.{
  slot, from_op-store_in_bounds, validate_store-wraps,
}
use tensor_ash.Executor.Validation.{
  validate_op_context, validate_call_context, validate_tensor_context, validate_optional,
  validate_destination,
}
use tensor_ash.Executor.Ownership.{validate_op_context-writes_apart}
use tensor_ash.ExecGraph.{matmul_access}
use tensor_ash.Prelude.{contains, false, ◌==◌}
use tensor_ash.Tests.{tensor, row_call, row_dims}

-- A K cache of four heads, 64 dimensions and 16 positions.
abbrev cache : Tensor
cache = tensor (4 ∷ 64 ∷ 16 ∷ []) f32 11

abbrev column : StoreDesc
column = record {
  head_dim = 64;
  pos_base = 2;
  pos_scale = 1;
  stride_head = 1024;
  stride_dim = 16;
  pos_addr = 0;
}

abbrev scatter_op : MatmulOp
scatter_op = record (new row_call) { store = scatter cache column }

scatter_resolves : from_op scatter_op ≡ ok (row_dims false)
unfolding from_op from_call check_storage check_packed from_tensor_shape from_matrix_shapes
    batch_stride checked_flops checked_product product_from checked_mul validate_epilogue
    validate_normed_a validate_store Epilogues.has_none store_last numel
scatter_resolves = refl

from_op-store_in_bounds_example : slot column 63 < len cache
unfolding numel
from_op-store_in_bounds_example =
    from_op-store_in_bounds scatter_op (row_dims false) cache 63 scatter_resolves refl (omega arith)
      (omega arith)

abbrev six_dims : ResolvedMatmul
six_dims = record {
  m = 1;
  n = 6;
  k = 32;
  batch = 1;
  batch_stride_a = 0;
  batch_stride_b = 0;
  batch_stride_c = 0;
  total_flops = 384;
  b_f16 = true;
  a_f16 = false;
  packed_b = false;
}

-- Three heads of two dimensions, with the greatest u32 as position, scale and stride.
abbrev far : StoreDesc
far = record {
  head_dim = 2;
  pos_base = 4294967295;
  pos_scale = 4294967295;
  stride_head = 4294967295;
  stride_dim = 1;
  pos_addr = 0;
}

abbrev far_op : MatmulOp
far_op = record (new row_call) { store = scatter cache far }

validate_store-wraps_example : (validate_store six_dims far_op ≡ ok tt) × (len cache ≤ slot far 5)
unfolding numel Epilogues.has_none
validate_store-wraps_example =
    validate_store-wraps six_dims far_op cache far refl (refl, refl, refl) (refl, refl)
      (omega arith, refl, refl, omega arith) (omega arith) (omega arith)

validate_op_context-writes_apart_example : (11 == 1 ≡ false) × (11 == 2 ≡ false)
unfolding validate_op_context validate_call_context validate_tensor_context validate_optional
    validate_destination matmul_access contains
validate_op_context-writes_apart_example =
    validate_op_context-writes_apart 1 scatter_op 11 refl refl
