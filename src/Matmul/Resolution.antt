-- ===== src/Matmul/Resolution.antt =====
-- src/matmul/resolution.rs: the checks that turn a call into dimensions, strides and a FLOP count.
pub mod Shapes
pub mod Op
use package.tensor_ash.Prelude.{
  ℕ, ◌*◌, ◌+◌, Bool, true, false, ◌&&◌, ◌||◌, not, Option, none, some, List, [], ◌∷◌, Result, ok,
  err, ◌>>=◌, ◌>>◌, bail_if, ok_or, if◌then◌else◌, ltb, leb, ◌==◌, checked_mul, checked_add,
  u32_mod,
}

pub data ResolveError : Type 0 where
  unsupported_rank zero_dimension size_overflow stride_overflow not_addressable : ResolveError
  dim_mismatch not_broadcastable flops_overflow storage_mismatch not_aligned : ResolveError
  packed_unsupported a16_fusion bad_normed_a bad_store bad_epilogue : ResolveError

pub record MatrixShape : Type 0 where
  pub batch : ℕ
  pub rows : ℕ
  pub cols : ℕ

-- The match of `MatrixShape::from_tensor_shape`.
abbrev normalize : List ℕ → Result ResolveError MatrixShape
normalize (r ∷ c ∷ []) = ok (record { batch = 1; rows = r; cols = c })
normalize (b ∷ r ∷ c ∷ []) = ok (record { batch = b; rows = r; cols = c })
normalize _ = err unsupported_rank

unfoldable pub from_tensor_shape : List ℕ → Result ResolveError MatrixShape
from_tensor_shape shape = do
  s ← normalize shape
  bail_if (s.batch == 0 || s.rows == 0 || s.cols == 0) zero_dimension
  ok s

-- `checked_product`: the fold of `checked_mul` over the values.
unfoldable pub product_from : ℕ → List ℕ → Option ℕ
product_from acc [] = some acc
product_from acc (v ∷ vs) = elim (checked_mul acc v) [
  | none ↦ none
  | some next ↦ product_from next vs
]

unfoldable pub checked_product : List ℕ → Option ℕ
unfolding product_from
checked_product = product_from 1

-- `u32::try_from`.
abbrev u32_try_from : ℕ → Option ℕ
u32_try_from n = if ltb n u32_mod then some n else none

-- `elements <= u32::MAX as u64 + 1`, false where the product overflowed.
abbrev is_addressable : Option ℕ → Bool
is_addressable none = false
is_addressable (some elements) = leb elements u32_mod

-- `MatrixShape::batch_stride`: 0 broadcasts one plane over every batch.
unfoldable pub batch_stride : MatrixShape → Result ResolveError ℕ
unfolding checked_product
batch_stride s = do
  plane ← ok_or (checked_product (s.rows ∷ s.cols ∷ [])) size_overflow
  stride ← if s.batch == 1 then ok 0 else ok_or (u32_try_from plane) stride_overflow
  bail_if (not (is_addressable (checked_product (s.batch ∷ plane ∷ [])))) not_addressable
  ok stride

pub record ResolvedMatmul : Type 0 where
  pub m : ℕ
  pub n : ℕ
  pub k : ℕ
  pub batch : ℕ
  pub batch_stride_a : ℕ
  pub batch_stride_b : ℕ
  pub batch_stride_c : ℕ
  pub total_flops : ℕ
  pub b_f16 : Bool
  pub a_f16 : Bool
  pub packed_b : Bool

abbrev ensure_dim_eq : ℕ → ℕ → Result ResolveError (Unit {0})
ensure_dim_eq left right = bail_if (not (left == right)) dim_mismatch

abbrev ensure_broadcastable : ℕ → ℕ → Result ResolveError (Unit {0})
ensure_broadcastable input_batch output_batch =
    bail_if (not (input_batch == 1) && not (input_batch == output_batch)) not_broadcastable

unfoldable pub checked_flops : ℕ → ℕ → ℕ → ℕ → Result ResolveError ℕ
unfolding checked_product
checked_flops batch m n k = ok_or (checked_product (2 ∷ batch ∷ m ∷ n ∷ k ∷ [])) flops_overflow

-- `ResolvedMatmul::from_matrix_shapes`.
unfoldable pub from_matrix_shapes :
    MatrixShape → MatrixShape → MatrixShape → Result ResolveError ResolvedMatmul
from_matrix_shapes a b c = do
  ensure_dim_eq a.cols b.rows
  ensure_dim_eq a.rows c.rows
  ensure_dim_eq b.cols c.cols
  ensure_broadcastable a.batch c.batch
  ensure_broadcastable b.batch c.batch
  stride_a ← batch_stride a
  stride_b ← batch_stride b
  stride_c ← batch_stride c
  flops ← checked_flops c.batch a.rows b.cols a.cols
  ok (record {
    m = a.rows;
    n = b.cols;
    k = a.cols;
    batch = c.batch;
    batch_stride_a = stride_a;
    batch_stride_b = stride_b;
    batch_stride_c = stride_c;
    total_flops = flops;
    b_f16 = false;
    a_f16 = false;
    packed_b = false;
  })

-- `total_flops`: the checked sum over a submission.
unfoldable pub total_flops_from : ℕ → List ResolvedMatmul → Result ResolveError ℕ
total_flops_from acc [] = ok acc
total_flops_from acc (r ∷ rs) = do
  next ← ok_or (checked_add acc r.total_flops) flops_overflow
  total_flops_from next rs

unfoldable pub total_flops : List ResolvedMatmul → Result ResolveError ℕ
unfolding total_flops_from
total_flops = total_flops_from 0
