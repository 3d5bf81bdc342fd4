-- ===== src/Llama.antt =====
-- tools/llama-ash/src/model/mod.rs: the configuration, the tensors and the mutable state of a
-- Llama model, and the small helpers that its graphs are built with. An f32 scalar is kept as its
-- bit pattern.
pub mod Graph
pub mod PrefillGraph
pub mod Replays
pub mod Replayed
pub mod Steps
pub mod PerOp
pub mod Decode
pub mod Caches
use package.tensor_ash.Prelude.{ℕ, Bool, false, Option, none, List}
use package.tensor_ash.Tensor.{Tensor, Buffer}
use package.tensor_ash.Matmul.{MatmulCall}
use package.tensor_ash.Matmul.Epilogues.{Activation, EpilogueBinary, Epilogue}

pub record Config : Type 0 where
  pub n_layers : ℕ
  pub embd : ℕ
  pub heads : ℕ
  pub kv_heads : ℕ
  pub dh : ℕ
  pub ffn : ℕ
  pub vocab : ℕ
  pub rms_eps : ℕ
  pub rope_base : ℕ
  pub t_max : ℕ

pub record Layer : Type 0 where
  pub w_qkv : Tensor
  pub wo : Tensor
  pub w_gate : Tensor
  pub w_up : Tensor
  pub w_down : Tensor
  pub wq_p : Tensor
  pub wk_p : Tensor
  pub wv_p : Tensor
  pub w_gate_p : Tensor
  pub w_up_p : Tensor
  pub attn_norm : Tensor
  pub ffn_norm : Tensor
  pub kt_cache : Tensor
  pub v_cache : Tensor

pub record Scratch : Type 0 where
  pub t : ℕ
  pub x_a : Tensor
  pub x_b : Tensor
  pub xn : Tensor
  pub q : Tensor
  pub k : Tensor
  pub v : Tensor
  pub qkv : Option Tensor
  pub q_heads : Tensor
  pub attn_heads : Tensor
  pub scores : Option Tensor
  pub attn_partials : Option Tensor
  pub q_flash : Option Tensor
  pub attn_flash : Option Tensor
  pub q_gqa : Option Tensor
  pub attn_gqa : Option Tensor
  pub attn_flat : Tensor
  pub o : Tensor
  pub on : Tensor
  pub up : Tensor
  pub gate : Tensor
  pub last : Tensor
  pub last_n : Tensor
  pub logits : Tensor

pub data DecodeMode : Type 0 where
  prepared graph per_op flash : DecodeMode

-- `Model`, less the device and its diagnostics: what the graph builders read. `attn_scale` is the
-- f32 quotient `1.0 / (dh as f32).sqrt()`.
pub record Model : Type 0 where
  pub cfg : Config
  pub attn_scale : ℕ
  pub layers : List Layer
  pub embd_cpu : List ℕ
  pub embd_gpu : Tensor
  pub output_norm : Tensor
  pub lm_head : Tensor
  pub lm_head_p : Tensor
  pub rope_table : Tensor
  pub pos_buf : Buffer
  pub token_buf : Buffer
  pub token_ids : Buffer
  pub decode_mode : DecodeMode
  pub fused_attn : Bool
  pub decode_scratch : Scratch

-- Where the source refuses (`device_failed` for every failed call of the executor) or panics.
pub data ModelError : Type 0 where
  cache_overflow token_out_of_vocab empty_logits bad_alias device_failed : ModelError
  composed_attention missing_scratch short_table : ModelError

-- The bits of 1.0.
abbrev pub one : ℕ
one = 0x3f80_0000

abbrev pub mm : Tensor → Tensor → Tensor → MatmulCall
mm a b c = record { a = a; b = b; c = c; alpha = one; accumulate = false }

abbrev pub epi : Activation → EpilogueBinary → Epilogue
epi activation binary = record { bias = none; activation = activation; binary = binary }
