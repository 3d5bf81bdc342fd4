-- ===== src/Tests/Llamas.antt =====
-- tools/llama-ash/src/model/forward/decode.rs: a model of one layer, and a device that keeps a log
-- of the chains that it runs.
use tensor_ash.Prelude.{
  ◌+◌, ◌<◌, ℕ, ◌*◌, ◌≡◌, refl, true, List, [], ◌∷◌, ◌++◌, map, Option, some, none, ok, arith,
}
use tensor_ash.Tensor.{Tensor, Buffer, f32}
use tensor_ash.ExecGraph.{ExecOp, check_positions}
use tensor_ash.Llama.{Config, Layer, Scratch, Model, prepared}
use tensor_ash.Llama.Graph.{
  k_desc, v_desc, base, attention_ops, decode_layers, decode_ops, decode_close_ops, fused,
  layer_ops, lm_head_ops,
}
use tensor_ash.Llama.Replayed.{decode_ops-replays}
use tensor_ash.Llama.Replays.{at_position}
use tensor_ash.Llama.Steps.{Device, State}
use tensor_ash.Llama.Decode.{
  DecodeCall, decode_call, decode_many_call, decode_unrolled_call, decode_calls,
}
use tensor_ash.Llama.Decode.Fits.{Fits}
use tensor_ash.Llama.Decode.Sound.{Guarded}
use tensor_ash.Llama.Decode.Recordings.{Valid}
use tensor_ash.Llama.Decode.Positions.{decode_calls-Valid}
use tensor_ash.Matmul.Resolution.Op.StoreBounds.{slot}
use tensor_ash.Llama.PrefillGraph.{append_k, append_v}
use tensor_ash.Llama.Caches.{Copies, append-agree}

abbrev memory : ℕ → Buffer
memory handle = record {
  context = 0;
  handle = handle;
  size_bytes = 4096;
  device_address = handle * 4096;
}

abbrev floats : ℕ → List ℕ → Tensor
floats handle shape = record { shape = shape; dtype = f32; buffer = memory handle }

-- Two heads of two elements in one group, and caches of four positions.
abbrev cfg : Config
cfg = record {
  n_layers = 1;
  embd = 4;
  heads = 2;
  kv_heads = 1;
  dh = 2;
  ffn = 8;
  vocab = 2;
  rms_eps = 0x3727_c5ac;
  rope_base = 0x461c_4000;
  t_max = 4;
}

abbrev layer : Layer
layer = record {
  w_qkv = floats 1 (4 ∷ 8 ∷ []);
  wo = floats 2 (4 ∷ 4 ∷ []);
  w_gate = floats 3 (4 ∷ 8 ∷ []);
  w_up = floats 4 (4 ∷ 8 ∷ []);
  w_down = floats 5 (8 ∷ 4 ∷ []);
  wq_p = floats 6 (4 ∷ 4 ∷ []);
  wk_p = floats 7 (4 ∷ 2 ∷ []);
  wv_p = floats 8 (4 ∷ 2 ∷ []);
  w_gate_p = floats 9 (4 ∷ 8 ∷ []);
  w_up_p = floats 10 (4 ∷ 8 ∷ []);
  attn_norm = floats 11 (4 ∷ []);
  ffn_norm = floats 12 (4 ∷ []);
  kt_cache = floats 13 (1 ∷ 2 ∷ 4 ∷ []);
  v_cache = floats 14 (1 ∷ 4 ∷ 2 ∷ []);
}

abbrev scratch : Scratch
scratch = record {
  t = 1;
  x_a = floats 20 (1 ∷ 4 ∷ []);
  x_b = floats 21 (1 ∷ 4 ∷ []);
  xn = floats 22 (1 ∷ 4 ∷ []);
  q = floats 23 (1 ∷ 4 ∷ []);
  k = floats 24 (1 ∷ 2 ∷ []);
  v = floats 25 (1 ∷ 2 ∷ []);
  qkv = none;
  q_heads = floats 26 (1 ∷ 2 ∷ 2 ∷ []);
  attn_heads = floats 27 (1 ∷ 2 ∷ 2 ∷ []);
  scores = some (floats 28 (1 ∷ 2 ∷ 4 ∷ []));
  attn_partials = some (floats 29 (512 ∷ []));
  q_flash = none;
  attn_flash = none;
  q_gqa = some (floats 23 (1 ∷ 2 ∷ 2 ∷ []));
  attn_gqa = some (floats 30 (1 ∷ 2 ∷ 2 ∷ []));
  attn_flat = floats 30 (1 ∷ 4 ∷ []);
  o = floats 31 (1 ∷ 4 ∷ []);
  on = floats 32 (1 ∷ 4 ∷ []);
  up = floats 33 (1 ∷ 8 ∷ []);
  gate = floats 34 (1 ∷ 8 ∷ []);
  last = floats 35 (1 ∷ 4 ∷ []);
  last_n = floats 36 (1 ∷ 4 ∷ []);
  logits = floats 37 (1 ∷ 2 ∷ []);
}

abbrev model : Model
model = record {
  cfg = cfg;
  attn_scale = 0x3f35_04f3;
  layers = layer ∷ [];
  embd_cpu = 1 ∷ 2 ∷ 3 ∷ 4 ∷ 5 ∷ 6 ∷ 7 ∷ 8 ∷ [];
  embd_gpu = floats 40 (2 ∷ 4 ∷ []);
  output_norm = floats 41 (4 ∷ []);
  lm_head = floats 42 (4 ∷ 2 ∷ []);
  lm_head_p = floats 43 (4 ∷ 2 ∷ []);
  rope_table = floats 44 (4 ∷ 1 ∷ 2 ∷ []);
  pos_buf = memory 45;
  token_buf = memory 46;
  token_ids = memory 47;
  decode_mode = prepared;
  fused_attn = true;
  decode_scratch = scratch;
}

-- The chain of one layer, recorded for the position buffer.
abbrev chain : List ExecOp
chain =
    layer_ops model layer scratch (floats 20 (1 ∷ 4 ∷ [])) (floats 21 (1 ∷ 4 ∷ [])) 0 184320 (
      fused model layer (floats 23 (1 ∷ 2 ∷ 2 ∷ [])) (floats 30 (1 ∷ 2 ∷ 2 ∷ []))
        (floats 29 (512 ∷ [])) 1 184320
      ∷ [])
    ++ []
    ++ lm_head_ops model scratch (floats 21 (1 ∷ 4 ∷ []))

records : decode_ops model scratch 0 184320 ≡ ok chain
unfolding decode_ops decode_layers attention_ops base
records = refl

decode_ops-replays_example :
    (check_positions 184320 (chain ++ decode_close_ops model scratch) ≡ true)
    × (decode_ops model scratch 3 0 ≡ ok (map (at_position 3) chain))
decode_ops-replays_example =
    decode_ops-replays model scratch 3 184320 chain (omega arith) (omega arith) records

-- A device that logs the chains, and always samples the second token.
abbrev device : Device (List (List ExecOp))
device = record {
  upload = λ xs x log. (true, log);
  run_ops = λ ops log. (true, ops ∷ log);
  prepare_exec_ops = λ ops addr log. (true, log);
  replay = λ ops p log. (true, map (at_position p) ops ∷ log);
  set_pos = λ p log. (true, log);
  read_token = λ log. (some 1, log);
  download = λ x log. (some (0 ∷ 1 ∷ []), log);
}

abbrev AllFit : List (List ExecOp) → Type 0
AllFit [] = Unit {0}
AllFit (ops ∷ log) = Fits 4 ops × AllFit log

guarded : Guarded device 4 AllFit
guarded = record {
  uploads = λ xs x w g. g;
  runs = λ ops w fits g. (fits, g);
  prepares = λ ops addr w g. g;
  plays = λ ops p w fits g. (fits, g);
  sets = λ p w below g. g;
  reads = λ w g. g;
  downloads = λ x w g. g;
}

abbrev start : State
start = record { pos = 1; cell = 0; decode_prepared = none; decode_unrolled = none }

starts : Valid 4 start
starts = record {
  within = omega arith;
  relative = λ ops e. absurd (none-not_some e);
  baked = λ p n ops e. absurd (none-not_some e);
}
  where
    none-not_some : {A : Type 0} {a : A} → ◌≡◌ {A = Option A} none (some a) → ⊥
    none-not_some e = cc

-- A step, two replays, and one more step than the caches hold.
abbrev calls : List DecodeCall
calls = decode_call 0 ∷ decode_many_call 1 2 ∷ decode_unrolled_call 1 1 ∷ []

decode_calls-Valid_example :
    Valid 4 (decode_calls device model calls (start, [])).0
    × AllFit (decode_calls device model calls (start, [])).1
decode_calls-Valid_example =
    decode_calls-Valid device model AllFit guarded (omega arith) (omega arith) calls start []
      (tt, (omega arith, (omega arith, tt))) starts tt

-- The second of two tokens that follow one token.
append-agree_example :
    let to_k = slot (k_desc model (1 + 1) 0) (0 * 2 + 1) in
    let to_v = slot (v_desc model (1 + 1) 0) (0 * 2 + 1) in
    Copies (append_k cfg 2 1) (1, 0, 1) (1 * 2) (0 * 2 + 1) to_k
    × (to_k < 1 * 2 * 4)
    × Copies (append_v cfg 2 1) (1, 0, 1) (1 * 2) (0 * 2 + 1) to_v
    × (to_v < 1 * 2 * 4)
append-agree_example =
    append-agree model 2 1 0 1 1 (omega arith) (omega arith) (omega arith) (omega arith)
      (omega arith)
