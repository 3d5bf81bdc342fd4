-- ===== src/Elementwise.antt =====
-- src/executor/elementwise/mod.rs: the geometry that callers hand to the non-matmul operations.
-- An f32 scalar is kept as its bit pattern, a triple of strides as its three components.
pub mod Pc
pub mod Plan
pub mod Rows
pub mod Strided
pub mod Attention
pub mod Flash
pub mod Prefill
use package.tensor_ash.Prelude.{ℕ, Option}

pub data SoftmaxMask : Type 0 where
  full : SoftmaxMask
  prefix : (valid : ℕ) → SoftmaxMask
  causal : (prefix_len rows_per_group : ℕ) → SoftmaxMask

pub record RopeDesc : Type 0 where
  pub heads : ℕ
  pub head_dim : ℕ
  pub rot_dim : ℕ
  pub pos_base : ℕ
  pub pos_addr : ℕ

pub record RopeScatterDesc : Type 0 where
  pub dst_offset : ℕ
  pub dst_strides : ℕ × ℕ × ℕ
  pub pos_scale : ℕ

pub record FlashAttentionDesc : Type 0 where
  pub kv_len : ℕ
  pub pos_base : ℕ
  pub scale : ℕ
  pub token_major_heads : Option ℕ
  pub out_token_major_heads : Option ℕ

pub record PrefillQkvPackDesc : Type 0 where
  pub heads : ℕ
  pub kv_heads : ℕ
  pub head_dim : ℕ
  pub rot_dim : ℕ
  pub pos_base : ℕ

pub record AttnDecodeDesc : Type 0 where
  pub kv_len : ℕ
  pub scale : ℕ
  pub pos_addr : ℕ

pub data BinaryOp : Type 0 where
  add_scaled : (beta : ℕ) → BinaryOp
  silu_mul : BinaryOp

pub record CopyDesc : Type 0 where
  pub extent : ℕ × ℕ × ℕ
  pub src_offset : ℕ
  pub src_strides : ℕ × ℕ × ℕ
  pub dst_offset : ℕ
  pub dst_strides : ℕ × ℕ × ℕ
  pub pos_addr : ℕ
  pub pos_scale : ℕ
