-- ===== src/Llama/Decode.antt =====
-- tools/llama-ash/src/model/forward/decode.rs: a decode step, many of them by replays of one
-- recording, and many of them in one recording.
pub mod Fits
pub mod Sound
pub mod SoundPerOp
pub mod Recordings
pub mod Positions
use package.tensor_ash.Prelude.{
  ℕ, zero, suc, Bool, true, false, ◌||◌, ◌&&◌, not, List, [], ◌∷◌, ◌++◌, Option, some, none, Result,
  ok, err, if◌then◌else◌, leb, ◌==◌, add32,
}
use package.tensor_ash.ExecGraph.{ExecOp}
use package.tensor_ash.Llama.{
  Model, ModelError, DecodeMode, prepared, graph, per_op, flash, cache_overflow,
}
use package.tensor_ash.Llama.Graph.{relative_ops, unrolled_ops}
use package.tensor_ash.Llama.Steps.{
  Device, State, Step, ◌>>=◌, ◌>>◌, pure, lift, ensure, get, modify, calls, asks, set_position,
  set_cell, replays, seed, decode_graph,
}
use package.tensor_ash.Llama.PerOp.{decode_perop}

-- The calls that a caller makes.
pub data DecodeCall : Type 0 where
  decode_call : (token : ℕ) → DecodeCall
  decode_many_call decode_unrolled_call : (token n : ℕ) → DecodeCall

abbrev pub records_graph : DecodeMode → Bool
records_graph prepared = true
records_graph graph = true
records_graph _ = false

abbrev pub is_prepared : DecodeMode → Bool
is_prepared prepared = true
is_prepared _ = false

module _ {W : Type 0} (dev : Device W) (m : Model) where
  unfoldable pub decode : ℕ → Step W (ℕ × List ℕ)
  decode token =
      if records_graph m.decode_mode then decode_graph dev m token else decode_perop dev m token

  -- The loop of `decode_many` that decodes token by token.
  unfoldable pub decode_each : ℕ → ℕ → Step W (List ℕ)
  decode_each zero token = pure []
  decode_each (suc n) token = do
    next ← decode token
    generated ← decode_each n next.0
    pure (next.0 ∷ generated)

  -- `if self.decode_prepared.is_none()`: the recording that is kept, or a new one.
  abbrev pub kept_or_new : Option (List ExecOp) → Step W (List ExecOp)
  kept_or_new (some ops) = pure ops
  kept_or_new none = do
    ops ← lift (relative_ops m m.decode_scratch m.pos_buf.device_address)
    calls (dev.prepare_exec_ops ops (some m.pos_buf.device_address))
    modify (λ s. record s { decode_prepared = some ops })
    pure ops

  unfoldable pub recorded : Step W (List ExecOp)
  recorded = get >>= (λ s. kept_or_new s.decode_prepared)

  -- The loop of `decode_many` over the replays: `left` of them, at `start + i` and on.
  unfoldable pub replay_from : List ExecOp → ℕ → ℕ → ℕ → Step W (List ℕ)
  replay_from ops start i zero = pure []
  replay_from ops start i (suc left) = do
    set_cell dev (add32 start i)
    replays dev ops
    token ← asks dev.read_token
    generated ← replay_from ops start (suc i) left
    pure (token ∷ generated)

  unfoldable pub decode_many : ℕ → ℕ → Step W (List ℕ)
  decode_many token n =
      if not (is_prepared m.decode_mode) || not m.fused_attn then decode_each n token else do
        s ← get
        ensure (leb (add32 s.pos n) m.cfg.t_max) cache_overflow
        ops ← recorded
        seed dev m token
        generated ← replay_from ops s.pos 0 n
        modify (set_position (add32 s.pos n))
        pure generated

  -- The recording of `n` steps from `start`, reused when it is kept under these two.
  abbrev pub reusable : ℕ → ℕ → Option (ℕ × ℕ × List ExecOp) → Option (List ExecOp)
  reusable start n none = none
  reusable start n (some (p, count, ops)) = if p == start && count == n then some ops else none

  abbrev pub reused_or_new : ℕ → ℕ → Option (List ExecOp) → Step W (List ExecOp)
  reused_or_new start n (some ops) = pure ops
  reused_or_new start n none = do
    modify (λ s. record s { decode_unrolled = none })
    ops ← lift (unrolled_ops m m.decode_scratch start 0 n)
    calls (dev.prepare_exec_ops ops none)
    modify (λ s. record s { decode_unrolled = some (start, n, ops) })
    pure ops

  unfoldable pub unrolled : ℕ → ℕ → Step W (List ExecOp)
  unrolled start n = get >>= (λ s. reused_or_new start n (reusable start n s.decode_unrolled))

  unfoldable pub decode_unrolled : ℕ → ℕ → Step W (List ℕ)
  decode_unrolled token n =
      if not (is_prepared m.decode_mode) || not m.fused_attn || n == 0
      then decode_many token n
      else do
        s ← get
        ensure (leb (add32 s.pos n) m.cfg.t_max) cache_overflow
        ops ← unrolled s.pos n
        seed dev m token
        replays dev ops
        last ← asks dev.read_token
        modify (set_position (add32 s.pos n))
        pure (last ∷ [])

  abbrev pub left_by : {A : Type 0} → Result ModelError A × State × W → State × W
  left_by (r, s, w) = (s, w)

  unfoldable pub decode_call_step : DecodeCall → State × W → State × W
  decode_call_step (decode_call token) (s, w) = left_by (decode token s w)
  decode_call_step (decode_many_call token n) (s, w) = left_by (decode_many token n s w)
  decode_call_step (decode_unrolled_call token n) (s, w) = left_by (decode_unrolled token n s w)

  unfoldable pub decode_calls : List DecodeCall → State × W → State × W
  decode_calls [] start = start
  decode_calls (c ∷ cs) start = decode_calls cs (decode_call_step c start)
