-- ===== src/Llama/Graph.antt =====
-- tools/llama-ash/src/model/forward/mod.rs and forward/decode.rs: the chain of operations of one
-- decode step, and the blocks that it shares with the prefill.
use tensor_ash.Prelude.{
  ℕ, zero, suc, true, ◌||◌, not, List, [], ◌∷◌, ◌++◌, map, some, Result, ok, ◌>>=◌, ◌>>◌, bail_if,
  ok_or, if◌then◌else◌, leb, ◌==◌, add32, sub32, mul32,
}
use tensor_ash.Tensor.{Tensor}
use tensor_ash.Matmul.{MatmulOp, MatmulCall, new}
use tensor_ash.Matmul.Epilogues.{Epilogue, identity, silu, add_scaled, mul}
use tensor_ash.Matmul.Stores.{Store, StoreDesc, rope, scatter, rope_scatter}
use tensor_ash.Elementwise
use tensor_ash.Elementwise.{silu_mul, prefix}
use tensor_ash.ExecGraph.{
  ExecOp, matmul, rms_norm, softmax_rows, copy_strided, binary, attn_decode, argmax, embed_gather,
}
use tensor_ash.Llama.{
  Layer, Scratch, Model, ModelError, composed_attention, missing_scratch, one, mm, epi,
}

-- `MatmulOp::with_epilogue`, `with_packed_b`, `with_normed_a` and the three `with_store_*`.
abbrev pub with_epilogue : MatmulCall → Epilogue → MatmulOp
with_epilogue call epilogue = record (new call) { epilogue = epilogue }

abbrev pub with_packed_b : MatmulOp → MatmulOp
with_packed_b op = record op { packed_b = true }

abbrev pub with_normed_a : Tensor → ℕ → MatmulOp → MatmulOp
with_normed_a weight eps op = record op { normed_a = some (weight, eps) }

abbrev pub with_store : Store → MatmulOp → MatmulOp
with_store store op = record op { store = store }

-- The base that is recorded: zero when the position buffer supplies the position.
unfoldable pub base : ℕ → ℕ → ℕ
base pos pos_addr = if pos_addr == 0 then pos else 0

unfoldable pub store_desc : Model → ℕ → ℕ → ℕ → ℕ → ℕ → StoreDesc
store_desc m pos pos_addr pos_scale stride_head stride_dim = record {
  head_dim = m.cfg.dh;
  pos_base = base pos pos_addr;
  pos_scale = pos_scale;
  stride_head = stride_head;
  stride_dim = stride_dim;
  pos_addr = pos_addr;
}

-- A projection of the normed row by a packed weight, with its store.
abbrev pub projected : Model → Layer → Tensor → Tensor → Tensor → Store → MatmulOp
projected m layer x_in weight out store =
    with_store store
      (with_normed_a layer.attn_norm m.cfg.rms_eps (with_packed_b (new (mm x_in weight out))))

-- How k and v of a position go into their caches.
abbrev pub k_desc : Model → ℕ → ℕ → StoreDesc
k_desc m pos pos_addr = store_desc m pos pos_addr 1 (mul32 m.cfg.dh m.cfg.t_max) m.cfg.t_max

abbrev pub v_desc : Model → ℕ → ℕ → StoreDesc
v_desc m pos pos_addr = store_desc m pos pos_addr m.cfg.dh (mul32 m.cfg.t_max m.cfg.dh) 1

unfoldable pub qkv_decode_ops : Model → Layer → Scratch → Tensor → ℕ → ℕ → List MatmulOp
qkv_decode_ops m layer s x_in pos pos_addr =
    projected m layer x_in layer.wq_p s.q (rope m.rope_table (store_desc m pos pos_addr 0 0 0))
    ∷ projected m layer x_in layer.wk_p s.k
        (rope_scatter m.rope_table layer.kt_cache (k_desc m pos pos_addr))
    ∷ projected m layer x_in layer.wv_p s.v (scatter layer.v_cache (v_desc m pos pos_addr))
    ∷ []

-- `push_mlp_ops` for 128 rows and more: plain projections and standalone combines.
unfoldable pub wide_mlp_ops : Model → Layer → Scratch → Tensor → Tensor → List ExecOp
wide_mlp_ops m layer s x_in x_out =
    matmul (new (mm s.attn_flat layer.wo s.o))
    ∷ binary s.o x_in s.o (Elementwise.add_scaled one)
    ∷ rms_norm s.o layer.ffn_norm s.on m.cfg.rms_eps
    ∷ matmul (new (mm s.on layer.w_up s.up))
    ∷ matmul (new (mm s.on layer.w_gate s.gate))
    ∷ binary s.gate s.up s.gate silu_mul
    ∷ matmul (new (mm s.gate layer.w_down x_out))
    ∷ binary x_out s.o x_out (Elementwise.add_scaled one)
    ∷ []

-- The FFN norm with the up and gate projections: folded into them for a single row.
unfoldable pub gated_ops : Model → Layer → Scratch → List ExecOp
gated_ops m layer s =
    if s.t == 1
    then matmul (
        with_normed_a layer.ffn_norm m.cfg.rms_eps (with_packed_b (new (mm s.o layer.w_up_p s.up))))
      ∷ matmul (
          with_normed_a layer.ffn_norm m.cfg.rms_eps
            (with_packed_b (with_epilogue (mm s.o layer.w_gate_p s.gate) (epi silu (mul s.up)))))
      ∷ []
    else rms_norm s.o layer.ffn_norm s.on m.cfg.rms_eps
      ∷ matmul (new (mm s.on layer.w_up s.up))
      ∷ matmul (with_epilogue (mm s.on layer.w_gate s.gate) (epi silu (mul s.up)))
      ∷ []

-- The down projection with its residual.
abbrev pub down : Layer → Scratch → Tensor → MatmulOp
down layer s x_out =
    with_epilogue (mm s.gate layer.w_down x_out) (epi identity (add_scaled s.o one))

-- What `push_mlp_ops` pushes.
unfoldable pub mlp_ops : Model → Layer → Scratch → Tensor → Tensor → List ExecOp
mlp_ops m layer s x_in x_out =
    if leb 128 s.t
    then wide_mlp_ops m layer s x_in x_out
    else matmul (with_epilogue (mm s.attn_flat layer.wo s.o) (epi identity (add_scaled x_in one)))
        ∷ gated_ops m layer s
      ++ matmul (down layer s x_out) ∷ []

-- The last row of a prefill, behind the rows before it.
unfoldable pub last_row : Model → Scratch → Elementwise.CopyDesc
last_row m s = record {
  extent = (m.cfg.embd, 1, 1);
  src_offset = mul32 (sub32 s.t 1) m.cfg.embd;
  src_strides = (1, 0, 0);
  dst_offset = 0;
  dst_strides = (1, 0, 0);
  pos_addr = 0;
  pos_scale = 0;
}

-- What `push_lm_head_ops` pushes.
unfoldable pub lm_head_ops : Model → Scratch → Tensor → List ExecOp
lm_head_ops m s x =
    if s.t == 1
    then matmul (
        with_normed_a m.output_norm m.cfg.rms_eps (with_packed_b (new (mm x m.lm_head_p s.logits))))
      ∷ []
    else copy_strided x s.last (last_row m s)
      ∷ rms_norm s.last m.output_norm s.last_n m.cfg.rms_eps
      ∷ matmul (new (mm s.last_n m.lm_head s.logits))
      ∷ []

unfoldable pub decode_close_ops : Model → Scratch → List ExecOp
decode_close_ops m s = argmax s.logits m.token_buf ∷ embed_gather m.token_buf m.embd_gpu s.x_a ∷ []

-- The fused attention of a cache of `kv_len` positions.
abbrev pub fused : Model → Layer → Tensor → Tensor → Tensor → ℕ → ℕ → ExecOp
fused m layer q_gqa attn_gqa partials kv_len pos_addr =
    attn_decode q_gqa layer.kt_cache layer.v_cache partials attn_gqa
      (record { kv_len = kv_len; scale = m.attn_scale; pos_addr = pos_addr })

-- The attention of one layer of `decode_ops`.
unfoldable pub attention_ops :
    Model → Scratch → Layer → ℕ → ℕ → Tensor → Tensor → Tensor → Result ModelError (List ExecOp)
attention_ops m s layer pos pos_addr q_gqa attn_gqa scores =
    if m.fused_attn
    then (do
      partials ← ok_or s.attn_partials missing_scratch
      ok (fused m layer q_gqa attn_gqa partials (add32 (base pos pos_addr) 1) pos_addr ∷ []))
    else ok (
        matmul (new (mm q_gqa layer.kt_cache scores))
        ∷ softmax_rows scores scores m.attn_scale (prefix (add32 pos 1))
        ∷ matmul (new (mm scores layer.v_cache attn_gqa))
        ∷ [])

-- The operations of one layer, around its attention.
abbrev pub layer_ops : Model → Layer → Scratch → Tensor → Tensor → ℕ → ℕ → List ExecOp → List ExecOp
layer_ops m layer s x_in x_out pos pos_addr attention =
    map matmul (qkv_decode_ops m layer s x_in pos pos_addr)
    ++ attention
    ++ mlp_ops m layer s x_in x_out

-- The loop of `decode_ops` over the layers, with the two activations that swap, and the one that
-- the last layer wrote.
unfoldable pub decode_layers :
    Model
    → Scratch
    → ℕ
    → ℕ
    → Tensor
    → Tensor
    → Tensor
    → Tensor
    → List Layer
    → Result ModelError (List ExecOp × Tensor)
decode_layers m s pos pos_addr q_gqa attn_gqa x_in x_out [] = ok ([], x_in)
decode_layers m s pos pos_addr q_gqa attn_gqa x_in x_out (layer ∷ layers) = do
  scores ← ok_or s.scores missing_scratch
  attention ← attention_ops m s layer pos pos_addr q_gqa attn_gqa scores
  rest ← decode_layers m s pos pos_addr q_gqa attn_gqa x_out x_in layers
  ok (layer_ops m layer s x_in x_out pos pos_addr attention ++ rest.0, rest.1)

unfoldable pub decode_ops : Model → Scratch → ℕ → ℕ → Result ModelError (List ExecOp)
decode_ops m s pos pos_addr = do
  bail_if (not (pos_addr == 0 || m.fused_attn)) composed_attention
  q_gqa ← ok_or s.q_gqa missing_scratch
  attn_gqa ← ok_or s.attn_gqa missing_scratch
  layers ← decode_layers m s pos pos_addr q_gqa attn_gqa s.x_a s.x_b m.layers
  ok (layers.0 ++ lm_head_ops m s layers.1)

-- The chain that `decode_many` records once: its positions are relative to the cell at `pos_addr`.
unfoldable pub relative_ops : Model → Scratch → ℕ → Result ModelError (List ExecOp)
relative_ops m s pos_addr = do ops ← decode_ops m s 0 pos_addr; ok (ops ++ decode_close_ops m s)

-- The chains that `decode_unrolled` records for `left` steps, from `start + i` on.
unfoldable pub unrolled_ops : Model → Scratch → ℕ → ℕ → ℕ → Result ModelError (List ExecOp)
unrolled_ops m s start i zero = ok []
unrolled_ops m s start i (suc left) = do
  ops ← decode_ops m s (add32 start i) 0
  rest ← unrolled_ops m s start (suc i) left
  ok (ops ++ decode_close_ops m s ++ rest)
