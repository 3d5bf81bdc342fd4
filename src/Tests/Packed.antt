-- ===== src/Tests/Packed.antt =====
-- src/matmul/resolution.rs on a packed op.
use tensor_ash.Prelude.{◌≡◌, refl, true, ok, checked_mul}
use tensor_ash.Matmul.Epilogues
use tensor_ash.Matmul.Resolution.{
  from_tensor_shape, checked_product, product_from, batch_stride, checked_flops, from_matrix_shapes,
}
use tensor_ash.Matmul.Resolution.Op.{
  from_op, from_call, check_storage, check_packed, validate_epilogue, validate_normed_a,
  validate_store,
}
use tensor_ash.Tests.{row_dims, packed_op}

pub packed_resolves : from_op packed_op ≡ ok (row_dims true)
unfolding from_op from_call check_storage check_packed from_tensor_shape from_matrix_shapes
    batch_stride checked_flops checked_product product_from checked_mul validate_epilogue
    validate_normed_a validate_store Epilogues.has_none
packed_resolves = refl
