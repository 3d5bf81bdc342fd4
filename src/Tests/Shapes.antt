-- ===== src/Tests/Shapes.antt =====
-- src/tensor.rs and src/matmul/resolution.rs at concrete shapes.
use tensor_ash.Prelude.{
  ℕ, ◌+◌, ◌*◌, ◌≡◌, ◌<◌, ◌↔◌, refl, List, [], ◌∷◌, arith, ok, min, u32_mod, checked_mul,
  checked_next_multiple_of,
}
use tensor_ash.Tensor.{
  Tensor, f32, f16, size, numel, numel_from, numel_checked, alloc_bytes, alias_with_shape,
}
use tensor_ash.Matmul.Resolution.{
  MatrixShape, ResolvedMatmul, checked_product, product_from, batch_stride, checked_flops,
  from_matrix_shapes,
}
use tensor_ash.Matmul.Resolution.Shapes.{
  IsShape, plane, from_matrix_shapes_iff, Fits, resolved, from_matrix_shapes-addressable,
}
use tensor_ash.Tests.{tensor}

abbrev two_by_three : List ℕ
two_by_three = 2 ∷ 3 ∷ []

alloc_three : alloc_bytes (3 ∷ []) f16 ≡ ok 16
unfolding alloc_bytes numel_checked numel_from size checked_mul checked_next_multiple_of
alloc_three = ground arith

abbrev flat : Tensor
flat = tensor (6 ∷ []) f32 1

abbrev square : Tensor
square = tensor (2 ∷ 3 ∷ []) f32 1

alias_flat : alias_with_shape flat (2 ∷ 3 ∷ []) ≡ ok square
unfolding alias_with_shape numel_checked numel_from numel checked_mul
alias_flat = refl

-- A batch of two, and one plane that broadcasts over it.
abbrev left : MatrixShape
left = record { batch = 2; rows = 4; cols = 8 }

abbrev right : MatrixShape
right = record { batch = 1; rows = 8; cols = 16 }

abbrev result : MatrixShape
result = record { batch = 2; rows = 4; cols = 16 }

left-IsShape : IsShape left
left-IsShape = record {
  batch_pos = omega arith;
  rows_pos = omega arith;
  cols_pos = omega arith;
  batch_fits = omega arith;
  rows_fits = omega arith;
  cols_fits = omega arith;
}

right-IsShape : IsShape right
right-IsShape = record {
  batch_pos = omega arith;
  rows_pos = omega arith;
  cols_pos = omega arith;
  batch_fits = omega arith;
  rows_fits = omega arith;
  cols_fits = omega arith;
}

result-IsShape : IsShape result
result-IsShape = record {
  batch_pos = omega arith;
  rows_pos = omega arith;
  cols_pos = omega arith;
  batch_fits = omega arith;
  rows_fits = omega arith;
  cols_fits = omega arith;
}

abbrev product : ResolvedMatmul
product = resolved left right result

from_matrix_shapes_iff_example :
    (from_matrix_shapes left right result ≡ ok product)
    ↔ (Fits left right result × (product ≡ resolved left right result))
from_matrix_shapes_iff_example =
    from_matrix_shapes_iff left right result product left-IsShape right-IsShape result-IsShape

product_resolves : from_matrix_shapes left right result ≡ ok product
unfolding from_matrix_shapes batch_stride checked_flops checked_product product_from checked_mul
product_resolves = refl

from_matrix_shapes-addressable_example :
    (1 * product.batch_stride_a + 3 * product.k + 7 < min (left.batch * plane left) u32_mod)
    × (1 * product.batch_stride_b + 7 * product.n + 15 < min (right.batch * plane right) u32_mod)
    × (1 * product.batch_stride_c + 3 * product.n + 15 < min (result.batch * plane result) u32_mod)
from_matrix_shapes-addressable_example =
    from_matrix_shapes-addressable left right result product 1 3 15 7 left-IsShape right-IsShape
      result-IsShape product_resolves (omega arith) (omega arith) (omega arith) (omega arith)
