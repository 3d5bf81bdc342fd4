-- ===== src/Llama/PrefillGraph.antt =====
-- tools/llama-ash/src/model/forward/prefill.rs: the chain of operations of one prefill.
use tensor_ash.Prelude.{
  ℕ, ◌&&◌, List, [], ◌∷◌, ◌++◌, Option, some, none, Result, ok, ◌>>=◌, ok_or, if◌then◌else◌, leb,
  add32, mul32,
}
use tensor_ash.Tensor.{Tensor, is_f16}
use tensor_ash.Matmul.{new}
use tensor_ash.Elementwise.{CopyDesc, RopeDesc}
use tensor_ash.ExecGraph.{
  ExecOp, matmul, rms_norm, rope, copy_strided, flash_attn, prefill_qkv_pack, argmax,
  embed_gather_rows,
}
use tensor_ash.Llama.{Config, Layer, Scratch, Model, ModelError, missing_scratch, mm}
use tensor_ash.Llama.Graph.{mlp_ops, lm_head_ops}

abbrev pub kv_dim : Config → ℕ
kv_dim cfg = mul32 cfg.kv_heads cfg.dh

-- A column block of the concatenated rows.
unfoldable pub split_desc : Config → ℕ → ℕ → ℕ → CopyDesc
split_desc cfg t width src_offset = record {
  extent = (width, t, 1);
  src_offset = src_offset;
  src_strides = (1, add32 cfg.embd (mul32 2 (kv_dim cfg)), 0);
  dst_offset = 0;
  dst_strides = (1, width, 0);
  pos_addr = 0;
  pos_scale = 0;
}

-- The rows of k, transposed into their cache.
unfoldable pub append_k : Config → ℕ → ℕ → CopyDesc
append_k cfg t pos_base = record {
  extent = (cfg.dh, cfg.kv_heads, t);
  src_offset = 0;
  src_strides = (1, cfg.dh, mul32 cfg.kv_heads cfg.dh);
  dst_offset = pos_base;
  dst_strides = (cfg.t_max, mul32 cfg.dh cfg.t_max, 1);
  pos_addr = 0;
  pos_scale = 0;
}

unfoldable pub append_v : Config → ℕ → ℕ → CopyDesc
append_v cfg t pos_base = record {
  extent = (cfg.dh, cfg.kv_heads, t);
  src_offset = 0;
  src_strides = (1, cfg.dh, mul32 cfg.kv_heads cfg.dh);
  dst_offset = mul32 pos_base cfg.dh;
  dst_strides = (1, mul32 cfg.t_max cfg.dh, cfg.dh);
  pos_addr = 0;
  pos_scale = 0;
}

-- Rows of tokens to rows of heads.
unfoldable pub to_heads : Config → ℕ → CopyDesc
to_heads cfg t = record {
  extent = (cfg.dh, t, cfg.heads);
  src_offset = 0;
  src_strides = (1, mul32 cfg.heads cfg.dh, cfg.dh);
  dst_offset = 0;
  dst_strides = (1, cfg.dh, mul32 t cfg.dh);
  pos_addr = 0;
  pos_scale = 0;
}

-- And back.
unfoldable pub to_tokens : Config → ℕ → CopyDesc
to_tokens cfg t = record {
  extent = (cfg.dh, t, cfg.heads);
  src_offset = 0;
  src_strides = (1, cfg.dh, mul32 t cfg.dh);
  dst_offset = 0;
  dst_strides = (1, mul32 cfg.heads cfg.dh, cfg.dh);
  pos_addr = 0;
  pos_scale = 0;
}

abbrev pub rope_desc : Config → ℕ → ℕ → RopeDesc
rope_desc cfg pos_base heads = record {
  heads = heads;
  head_dim = cfg.dh;
  rot_dim = cfg.dh;
  pos_base = pos_base;
  pos_addr = 0;
}

-- `ExecOp::FlashAttn` over the prefix of the caches that is filled.
unfoldable pub attend : Model → Layer → ℕ → ℕ → Tensor → Tensor → Option ℕ → Option ℕ → ExecOp
attend m layer t pos_base q out heads_in heads_out =
    flash_attn q layer.kt_cache layer.v_cache out (record {
      kv_len = add32 pos_base t;
      pos_base = pos_base;
      scale = m.attn_scale;
      token_major_heads = heads_in;
      out_token_major_heads = heads_out;
    })

-- The fused path: one dispatch packs the rows, and the attention writes rows of tokens.
unfoldable pub packed_attention : Model → Scratch → Layer → ℕ → ℕ → Tensor → List ExecOp
packed_attention m s layer t pos_base qkv =
    prefill_qkv_pack qkv m.rope_table s.q_heads layer.kt_cache layer.v_cache (record {
      heads = m.cfg.heads;
      kv_heads = m.cfg.kv_heads;
      head_dim = m.cfg.dh;
      rot_dim = m.cfg.dh;
      pos_base = pos_base;
    })
    ∷ attend m layer t pos_base s.q_heads s.attn_flat none (some m.cfg.heads)
    ∷ []

-- The composed path up to the caches: split, rotate and append.
unfoldable pub split_ops : Model → Scratch → Layer → ℕ → ℕ → Tensor → List ExecOp
split_ops m s layer t pos_base qkv =
    let cfg = m.cfg in
    copy_strided qkv s.q (split_desc cfg t cfg.embd 0)
    ∷ copy_strided qkv s.k (split_desc cfg t (kv_dim cfg) cfg.embd)
    ∷ copy_strided qkv s.v (split_desc cfg t (kv_dim cfg) (add32 cfg.embd (kv_dim cfg)))
    ∷ rope s.q m.rope_table s.q (rope_desc cfg pos_base cfg.heads)
    ∷ rope s.k m.rope_table s.k (rope_desc cfg pos_base cfg.kv_heads)
    ∷ copy_strided s.k layer.kt_cache (append_k cfg t pos_base)
    ∷ copy_strided s.v layer.v_cache (append_v cfg t pos_base)
    ∷ []

-- The attention of the composed path.
unfoldable pub flash_ops : Model → Scratch → Layer → ℕ → ℕ → List ExecOp
flash_ops m s layer t pos_base =
    if leb 128 t
    then attend m layer t pos_base s.q s.attn_flat (some m.cfg.heads) none ∷ []
    else copy_strided s.q s.q_heads (to_heads m.cfg t)
      ∷ attend m layer t pos_base s.q_heads s.attn_heads none none
      ∷ copy_strided s.attn_heads s.attn_flat (to_tokens m.cfg t)
      ∷ []

unfoldable pub prefill_attention : Model → Scratch → Layer → ℕ → ℕ → Tensor → List ExecOp
prefill_attention m s layer t pos_base qkv =
    if leb 128 t && is_f16 s.q.dtype && is_f16 layer.kt_cache.dtype
    then packed_attention m s layer t pos_base qkv
    else split_ops m s layer t pos_base qkv ++ flash_ops m s layer t pos_base

-- The loop of `prefill_ops` over the layers, and the activation that the last layer wrote.
unfoldable pub prefill_layers :
    Model
    → Scratch
    → ℕ
    → ℕ
    → Tensor
    → Tensor
    → List Layer
    → Result ModelError (List ExecOp × Tensor)
prefill_layers m s t pos_base x_in x_out [] = ok ([], x_in)
prefill_layers m s t pos_base x_in x_out (layer ∷ layers) = do
  qkv ← ok_or s.qkv missing_scratch
  rest ← prefill_layers m s t pos_base x_out x_in layers
  ok (
    rms_norm x_in layer.attn_norm s.xn m.cfg.rms_eps
          ∷ matmul (new (mm s.xn layer.w_qkv qkv))
          ∷ prefill_attention m s layer t pos_base qkv
        ++ mlp_ops m layer s x_in x_out
        ++ rest.0,
    rest.1,
  )

unfoldable pub prefill_ops : Model → Scratch → ℕ → ℕ → Result ModelError (List ExecOp)
prefill_ops m s t pos_base = do
  layers ← prefill_layers m s t pos_base s.x_a s.x_b m.layers
  ok (
      embed_gather_rows m.token_ids m.embd_gpu s.x_a ∷ layers.0
      ++ lm_head_ops m s layers.1
      ++ argmax s.logits m.token_buf ∷ [])
