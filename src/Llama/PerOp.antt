-- ===== src/Llama/PerOp.antt =====
-- tools/llama-ash/src/model/forward/decode.rs and forward/mod.rs: the decode step that submits one
-- operation after the other.
use tensor_ash.Prelude.{
  ℕ, ◌/◌, Bool, true, false, List, [], ◌∷◌, map, none, Result, ok, err, ok_or, if◌then◌else◌, ltb,
  add32,
}
use tensor_ash.Tensor.{Tensor, alias_with_shape}
use tensor_ash.Matmul.{new}
use tensor_ash.Matmul.Epilogues.{silu, identity, add_scaled, mul}
use tensor_ash.Elementwise.{CopyDesc, prefix}
use tensor_ash.ExecGraph.{ExecOp, matmul, copy_strided, flash_attn, softmax_rows}
use tensor_ash.Llama.{
  Layer, Scratch, Model, ModelError, DecodeMode, flash, one, mm, epi, cache_overflow,
  missing_scratch, bad_alias,
}
use tensor_ash.Llama.Graph.{
  with_epilogue, with_packed_b, with_normed_a, qkv_decode_ops, fused, lm_head_ops, down,
}
use tensor_ash.Llama.Steps.{
  Device, Step, ◌>>=◌, ◌>>◌, pure, lift, ensure, get, modify, calls, set_position, seed, sample,
}

-- A copy of a row that changes nothing but its shape.
abbrev pub straight : ℕ → CopyDesc
straight len = record {
  extent = (len, 1, 1);
  src_offset = 0;
  src_strides = (1, 0, 0);
  dst_offset = 0;
  dst_strides = (1, 0, 0);
  pos_addr = 0;
  pos_scale = 0;
}

abbrev pub aliased : Tensor → List ℕ → Result ModelError Tensor
aliased t shape = elim (alias_with_shape t shape) [ ok view ↦ ok view | err e ↦ err bad_alias ]

-- One submission of one operation.
abbrev pub run_one : {W : Type 0} → Device W → ExecOp → Step W (Unit {0})
run_one dev op = calls (dev.run_ops (op ∷ []))

module _ {W : Type 0} (dev : Device W) (m : Model) (s : Scratch) where
  unfoldable pub per_op_flash : Layer → ℕ → Step W (Unit {0})
  per_op_flash layer pos = do
    q_flash ← lift (ok_or s.q_flash missing_scratch)
    attn_flash ← lift (ok_or s.attn_flash missing_scratch)
    run_one dev (copy_strided s.q q_flash (straight m.cfg.embd))
    run_one dev (
        flash_attn q_flash layer.kt_cache layer.v_cache attn_flash (record {
          kv_len = add32 pos 1;
          pos_base = pos;
          scale = m.attn_scale;
          token_major_heads = none;
          out_token_major_heads = none;
        }))
    run_one dev (copy_strided attn_flash s.attn_flat (straight m.cfg.embd))

  unfoldable pub per_op_fused : Layer → ℕ → Step W (Unit {0})
  per_op_fused layer pos = do
    let shape = m.cfg.kv_heads ∷ m.cfg.heads / m.cfg.kv_heads ∷ m.cfg.dh ∷ []
    q_gqa ← lift (aliased s.q shape)
    attn_gqa ← lift (aliased s.attn_flat shape)
    partials ← lift (ok_or s.attn_partials missing_scratch)
    run_one dev (fused m layer q_gqa attn_gqa partials (add32 pos 1) 0)

  unfoldable pub per_op_composed : Layer → ℕ → Step W (Unit {0})
  per_op_composed layer pos = do
    run_one dev (copy_strided s.q s.q_heads (straight m.cfg.embd))
    scores ← lift (ok_or s.scores missing_scratch)
    run_one dev (matmul (new (mm s.q_heads layer.kt_cache scores)))
    run_one dev (softmax_rows scores scores m.attn_scale (prefix (add32 pos 1)))
    run_one dev (matmul (new (mm scores layer.v_cache s.attn_heads)))
    run_one dev (copy_strided s.attn_heads s.attn_flat (straight m.cfg.embd))

  abbrev pub is_flash : DecodeMode → Bool
  is_flash flash = true
  is_flash _ = false

  unfoldable pub per_op_attention : Layer → ℕ → Step W (Unit {0})
  per_op_attention layer pos =
      if is_flash m.decode_mode
      then per_op_flash layer pos
      else if m.fused_attn
      then per_op_fused layer pos
      else per_op_composed layer pos

  -- `mlp_block_into`.
  unfoldable pub mlp_block_into : Layer → Tensor → Tensor → Step W (Unit {0})
  mlp_block_into layer x_in x_out = do
    run_one dev
        (matmul (with_epilogue (mm s.attn_flat layer.wo s.o) (epi identity (add_scaled x_in one))))
    run_one dev (
        matmul (
          with_normed_a layer.ffn_norm m.cfg.rms_eps
            (with_packed_b (new (mm s.o layer.w_up_p s.up)))))
    run_one dev (
        matmul (
          with_normed_a layer.ffn_norm m.cfg.rms_eps
            (with_packed_b (with_epilogue (mm s.o layer.w_gate_p s.gate) (epi silu (mul s.up))))))
    run_one dev (matmul (down layer s x_out))

  -- The loop of `decode_perop` over the layers; it returns the activation that the last layer
  -- wrote.
  unfoldable pub per_op_layers : ℕ → Tensor → Tensor → List Layer → Step W Tensor
  per_op_layers pos x_in x_out [] = pure x_in
  per_op_layers pos x_in x_out (layer ∷ layers) = do
    calls (dev.run_ops (map matmul (qkv_decode_ops m layer s x_in pos 0)))
    per_op_attention layer pos
    mlp_block_into layer x_in x_out
    per_op_layers pos x_out x_in layers

  -- The submissions of `lm_head_last_row`.
  unfoldable pub run_each : List ExecOp → Step W (Unit {0})
  run_each [] = pure tt
  run_each (op ∷ ops) = do run_one dev op; run_each ops

unfoldable pub decode_perop : {W : Type 0} → Device W → Model → ℕ → Step W (ℕ × List ℕ)
decode_perop dev m token = do
  st ← get
  let s = m.decode_scratch
  ensure (ltb st.pos m.cfg.t_max) cache_overflow
  seed dev m token
  last ← per_op_layers dev m s st.pos s.x_a s.x_b m.layers
  run_each dev m s (lm_head_ops m s last)
  sampled ← sample dev m
  modify (set_position (add32 st.pos 1))
  pure sampled
