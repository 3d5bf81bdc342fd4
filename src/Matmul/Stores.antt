-- ===== src/Matmul/Stores.antt =====
-- src/matmul/api.rs: the fused store of a row GEMV, which rotates a row or scatters it to a cache.
use tensor_ash.Prelude.{Bool, true, false, Option, none, some, ℕ}
use tensor_ash.Tensor.{Tensor}

-- `MatmulStoreDesc`.
pub record StoreDesc : Type 0 where
  pub head_dim : ℕ
  pub pos_base : ℕ
  pub pos_scale : ℕ
  pub stride_head : ℕ
  pub stride_dim : ℕ
  pub pos_addr : ℕ

-- `MatmulStore`.
pub data Store : Type 0 where
  no_store : Store
  rope : (table : Tensor) (desc : StoreDesc) → Store
  scatter : (dst : Tensor) (desc : StoreDesc) → Store
  rope_scatter : (table dst : Tensor) (desc : StoreDesc) → Store

abbrev pub has_none : Store → Bool
has_none no_store = true
has_none _ = false

abbrev pub mode : Store → ℕ
mode no_store = 0
mode (rope t d) = 1
mode (scatter t d) = 2
mode (rope_scatter t s d) = 3

abbrev pub table : Store → Option Tensor
table no_store = none
table (rope t d) = some t
table (scatter t d) = none
table (rope_scatter t s d) = some t

abbrev pub dst : Store → Option Tensor
dst no_store = none
dst (rope t d) = none
dst (scatter t d) = some t
dst (rope_scatter t s d) = some s

abbrev pub desc : Store → StoreDesc
desc no_store = record {
  head_dim = 0;
  pos_base = 0;
  pos_scale = 0;
  stride_head = 0;
  stride_dim = 0;
  pos_addr = 0;
}
desc (rope t d) = d
desc (scatter t d) = d
desc (rope_scatter t s d) = d
