-- ===== src/Matmul/Resolution/Op/Accepts.antt =====
-- src/matmul/resolution.rs: what holds of an op that resolution lets through.
use tensor_ash.Prelude.{◌%◌, ◌≡◌, inl, inr, true, false, none, ok, arith, Result-cases}
use tensor_ash.Tensor.{is_f16}
use tensor_ash.Matmul.{MatmulCall, MatmulOp}
use tensor_ash.Matmul.Epilogues
use tensor_ash.Matmul.Stores
use tensor_ash.Matmul.Resolution.{ResolvedMatmul}
use tensor_ash.Matmul.Resolution.Op.{
  from_call, from_op, check_packed, validate_epilogue, validate_normed_a, validate_store,
}

-- The parts of a successful `from_op`.
pub record Resolves (op : MatmulOp) (r : ResolvedMatmul) : Type 0 where
  pub dims : ResolvedMatmul
  pub called : from_call op.call ≡ ok dims
  pub result : r ≡ record dims { packed_b = op.packed_b }
  pub epilogue : validate_epilogue r op ≡ ok tt
  pub normed : validate_normed_a r op ≡ ok tt
  pub store : validate_store r op ≡ ok tt

pub from_op-Resolves : (op : MatmulOp) (r : ResolvedMatmul) → from_op op ≡ ok r → Resolves op r
unfolding from_op
from_op-Resolves op r e = elim (Result-cases (from_call op.call)) [
  | inl (dims, h) ↦ record {
    dims = dims;
    called = h;
    result = ground arith;
    epilogue = ground arith;
    normed = ground arith;
    store = ground arith;
  }
  | inr (_, h) ↦ absurd (ground arith)
]

-- The storage types of a resolved call are those of its operands, and A and C agree.
pub from_call-storage :
    (call : MatmulCall) (r : ResolvedMatmul)
    → from_call call ≡ ok r
    → (r.a_f16 ≡ is_f16 call.a.dtype)
      × (r.b_f16 ≡ is_f16 call.b.dtype)
      × (is_f16 call.c.dtype ≡ is_f16 call.a.dtype)
unfolding from_call
from_call-storage call r e = ground arith

-- An op that resolves with the packed flag is a one-row, one-batch product with f16 weights, f32
-- activations and a width that is a multiple of 32.
pub from_op-packed :
    (op : MatmulOp) (r : ResolvedMatmul)
    → from_op op ≡ ok r
    → op.packed_b ≡ true
    → (r.packed_b ≡ true)
      × (r.m ≡ 1)
      × (r.batch ≡ 1)
      × (r.b_f16 ≡ true)
      × (r.a_f16 ≡ false)
      × (r.n % 32 ≡ 0)
unfolding from_op check_packed
from_op-packed op r e p = elim (Result-cases (from_call op.call)) [
  | inl (dims, h) ↦ ground arith
  | inr (_, h) ↦ absurd (ground arith)
]

-- With f16 activations an op resolves only if B and C are f16 too, M and N are multiples of 64 and
-- K of 32, and neither an epilogue, a normed A, a store nor the packed layout is asked for.
pub from_op-a16 :
    (op : MatmulOp) (r : ResolvedMatmul)
    → from_op op ≡ ok r
    → is_f16 op.call.a.dtype ≡ true
    → (is_f16 op.call.b.dtype ≡ true)
      × (is_f16 op.call.c.dtype ≡ true)
      × (r.m % 64 ≡ 0)
      × (r.n % 64 ≡ 0)
      × (r.k % 32 ≡ 0)
      × (Epilogues.has_none op.epilogue ≡ true)
      × (op.normed_a ≡ none)
      × (Stores.has_none op.store ≡ true)
      × (op.packed_b ≡ false)
unfolding from_op check_packed from_call
from_op-a16 op r e p = elim (Result-cases (from_call op.call)) [
  | inl (dims, h) ↦ ground arith
  | inr (_, h) ↦ absurd (ground arith)
]
