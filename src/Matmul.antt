-- ===== src/Matmul.antt =====
-- src/matmul/api.rs: the calls, their fused epilogues and stores, and the packed weight layout.
-- An f32 scalar is kept as its bit pattern.
pub mod Epilogues
pub mod Stores
pub mod Resolution
pub mod Pack
use package.tensor_ash.Prelude.{ℕ, Bool, true, false, ◌&&◌, Option, none, some, List, [], ◌∷◌}
use package.tensor_ash.Tensor.{Tensor}
use Epilogues.{Epilogue}
use Stores.{Store, no_store}
use Epilogues

pub record MatmulCall : Type 0 where
  pub a : Tensor
  pub b : Tensor
  pub c : Tensor
  pub alpha : ℕ
  pub accumulate : Bool

pub record MatmulOp : Type 0 where
  pub call : MatmulCall
  pub epilogue : Epilogue
  pub normed_a : Option (Tensor × ℕ)
  pub store : Store
  pub packed_b : Bool

-- `MatmulOp::new`.
abbrev pub new : MatmulCall → MatmulOp
new call = record {
  call = call;
  epilogue = Epilogues.plain;
  normed_a = none;
  store = no_store;
  packed_b = false;
}
