-- ===== src/Matmul/Resolution/Op.antt =====
-- src/matmul/resolution.rs: the checks of a whole op: storage types, packed weights, fused
-- epilogue, normed A and fused store. u64 sums wrap as in a release build.
pub mod Accepts
pub mod StoreBounds
use package.tensor_ash.Prelude.{
  ℕ, ◌*◌, ◌+◌, ◌-◌, ◌/◌, ◌%◌, Bool, true, false, ◌&&◌, ◌||◌, not, Option, none, some, is_some, List,
  [], ◌∷◌, Result, ok, err, ◌>>=◌, ◌>>◌, bail_if, if◌then◌else◌, ltb, leb, ◌==◌, is_multiple_of,
  u64_mod,
}
use package.tensor_ash.Tensor.{len, Tensor, numel, is_f16}
use package.tensor_ash.Matmul.{MatmulCall, MatmulOp}
use package.tensor_ash.Matmul.Epilogues
use package.tensor_ash.Matmul.Epilogues.{EpilogueBinary, add_scaled}
use package.tensor_ash.Matmul.Stores
use package.tensor_ash.Matmul.Stores.{StoreDesc}
use package.tensor_ash.Matmul.Resolution.{
  ResolveError, ResolvedMatmul, MatrixShape, from_tensor_shape, from_matrix_shapes,
  storage_mismatch, not_aligned, packed_unsupported, a16_fusion, bad_normed_a, bad_store,
  bad_epilogue,
}

-- `shape != other` on two shapes.
unfoldable pub same_shape : List ℕ → List ℕ → Bool
same_shape [] [] = true
same_shape [] (e ∷ es) = false
same_shape (d ∷ ds) [] = false
same_shape (d ∷ ds) (e ∷ es) = d == e && same_shape ds es

-- The storage checks that open `ResolvedMatmul::from_call`.
unfoldable pub check_storage : MatmulCall → Result ResolveError (Unit {0})
check_storage call =
    if is_f16 call.a.dtype
    then bail_if (not (is_f16 call.b.dtype) || not (is_f16 call.c.dtype)) storage_mismatch
    else bail_if (is_f16 call.c.dtype) storage_mismatch

-- `ResolvedMatmul::from_call`.
unfoldable pub from_call : MatmulCall → Result ResolveError ResolvedMatmul
unfolding check_storage
from_call call = do
  check_storage call
  a ← from_tensor_shape call.a.shape
  b ← from_tensor_shape call.b.shape
  c ← from_tensor_shape call.c.shape
  r ← from_matrix_shapes a b c
  bail_if
      (is_f16 call.a.dtype
        && (not (is_multiple_of r.m 64)
            || not (is_multiple_of r.n 64)
            || not (is_multiple_of r.k 32)))
      not_aligned
  ok (record r { b_f16 = is_f16 call.b.dtype; a_f16 = is_f16 call.a.dtype; packed_b = false })

-- The packed-B block of `from_op`.
unfoldable pub check_packed : ResolvedMatmul → Result ResolveError (Unit {0})
check_packed r =
    bail_if
      (not (r.m == 1)
        || not (r.batch == 1)
        || not r.b_f16
        || r.a_f16
        || not (is_multiple_of r.n 32))
      packed_unsupported

unfoldable pub validate_bias_shape : ResolvedMatmul → List ℕ → Result ResolveError (Unit {0})
unfolding same_shape
validate_bias_shape r shape =
    bail_if (not (same_shape shape (r.n ∷ [])) && not (same_shape shape (r.batch ∷ r.n ∷ [])))
      bad_epilogue

validate_bias : ResolvedMatmul → Option Tensor → Result ResolveError (Unit {0})
unfolding validate_bias_shape
validate_bias r none = ok tt
validate_bias r (some bias) = do
  validate_bias_shape r bias.shape
  bail_if (is_f16 bias.dtype) bad_epilogue

validate_d : MatmulOp → Option Tensor → Result ResolveError (Unit {0})
unfolding same_shape
validate_d op none = ok tt
validate_d op (some d) = do
  bail_if (not (same_shape d.shape op.call.c.shape)) bad_epilogue
  bail_if (is_f16 d.dtype) bad_epilogue

unfoldable pub validate_epilogue : ResolvedMatmul → MatmulOp → Result ResolveError (Unit {0})
unfolding validate_bias validate_d
validate_epilogue r op = do
  validate_bias r op.epilogue.bias
  validate_d op (Epilogues.d_of op.epilogue.binary)

abbrev pub is_add_scaled : EpilogueBinary → Bool
is_add_scaled (add_scaled d beta) = true
is_add_scaled _ = false

normed_with : ResolvedMatmul → MatmulOp → Option (Tensor × ℕ) → Result ResolveError (Unit {0})
normed_with r op none = ok tt
normed_with r op (some (weight, eps)) = do
  bail_if (is_f16 weight.dtype) bad_normed_a
  bail_if (not (len weight == r.k)) bad_normed_a
  bail_if (is_some op.epilogue.bias) bad_normed_a
  bail_if (is_add_scaled op.epilogue.binary) bad_normed_a

unfoldable pub validate_normed_a : ResolvedMatmul → MatmulOp → Result ResolveError (Unit {0})
unfolding normed_with
validate_normed_a r op = normed_with r op op.normed_a

check_table : StoreDesc → Option Tensor → Result ResolveError (Unit {0})
check_table desc none = ok tt
check_table desc (some table) = do
  bail_if (is_f16 table.dtype) bad_store
  bail_if (ltb (len table) ((desc.pos_base + 1) * desc.head_dim)) bad_store

-- The last element that a scattered row touches, as the source adds it up in u64.
unfoldable pub store_last : ℕ → StoreDesc → ℕ
store_last n desc =
    (desc.pos_base * desc.pos_scale
      + (n / desc.head_dim - 1) * desc.stride_head
      + (desc.head_dim - 1) * desc.stride_dim)
    % u64_mod

-- Every storage type of the model is one of the two that a destination may have.
check_dst : ResolvedMatmul → StoreDesc → Option Tensor → Result ResolveError (Unit {0})
unfolding store_last
check_dst r desc none = ok tt
check_dst r desc (some dst) = bail_if (leb (len dst) (store_last r.n desc)) bad_store

unfoldable pub validate_store : ResolvedMatmul → MatmulOp → Result ResolveError (Unit {0})
unfolding check_table check_dst
validate_store r op =
    let desc = Stores.desc op.store in
    if Stores.has_none op.store then ok tt else do
      bail_if (not (r.m == 1) || not (r.batch == 1)) bad_store
      bail_if (not r.b_f16) bad_store
      bail_if op.call.accumulate bad_store
      bail_if (not (Epilogues.has_none op.epilogue)) bad_store
      bail_if
          (desc.head_dim == 0
            || not (is_multiple_of desc.head_dim 2)
            || not (is_multiple_of r.n desc.head_dim))
          bad_store
      check_table desc (Stores.table op.store)
      check_dst r desc (Stores.dst op.store)

-- `ResolvedMatmul::from_op`.
unfoldable pub from_op : MatmulOp → Result ResolveError ResolvedMatmul
from_op op = do
  dims ← from_call op.call
  let r : ResolvedMatmul = record dims { packed_b = op.packed_b }
  (if op.packed_b then check_packed r else ok tt)
  bail_if
      (r.a_f16
        && (not (Epilogues.has_none op.epilogue)
            || is_some op.normed_a
            || not (Stores.has_none op.store)))
      a16_fusion
  validate_epilogue r op
  validate_normed_a r op
  validate_store r op
  ok r
