-- ===== src/Llama/Steps.antt =====
-- tools/llama-ash/src/model/forward/decode.rs: the decode steps as programs over the state of the
-- model and a device. The device behind the executor is a parameter: `Device W` says how each call
-- changes the world `W` and whether it succeeds.
use package.tensor_ash.Prelude.{
  ℕ, suc, ◌+◌, ◌-◌, Bool, true, false, not, List, [], ◌∷◌, ◌++◌, Option, some, none, Result, ok,
  err, if◌then◌else◌, ltb, leb, ◌==◌, add32, mul64, take, length, bail_if,
}
use package.tensor_ash.Tensor.{Tensor}
use package.tensor_ash.Transfers.{drop}
use package.tensor_ash.ExecGraph.{ExecOp}
use package.tensor_ash.Llama.{
  Model, ModelError, cache_overflow, token_out_of_vocab, empty_logits, device_failed, short_table,
}
use package.tensor_ash.Llama.Graph.{decode_ops}

-- The calls on the executor and on the two cells. A chain is prepared with the address of the
-- position buffer, or without; a replay runs it while the position buffer holds a position.
pub record Device (W : Type 0) : Type 0 where
  pub upload : List ℕ → Tensor → W → Bool × W
  pub run_ops : List ExecOp → W → Bool × W
  pub prepare_exec_ops : List ExecOp → Option ℕ → W → Bool × W
  pub replay : List ExecOp → ℕ → W → Bool × W
  pub set_pos : ℕ → W → Bool × W
  pub read_token : W → Option ℕ × W
  pub download : Tensor → W → Option (List ℕ) × W

-- What the decode steps change: the position, the content of the position buffer, and the chains
-- that are prepared.
pub record State : Type 0 where
  pub pos : ℕ
  pub cell : ℕ
  pub decode_prepared : Option (List ExecOp)
  pub decode_unrolled : Option (ℕ × ℕ × List ExecOp)

-- A program: a result, and the state and the world that it leaves.
abbrev pub Step : Type 0 → Type 0 → Type 0
Step W A = State → W → Result ModelError A × State × W

abbrev pub bound :
    {W A B : Type 0}
    → Result ModelError A × State × W
    → (A → Step W B)
    → Result ModelError B × State × W
bound (ok a, s, w) next = next a s w
bound (err e, s, w) next = (err e, s, w)

infixl 5 ◌>>=◌ ◌>>◌
abbrev pub ◌>>=◌ : {W A B : Type 0} → Step W A → (A → Step W B) → Step W B
m >>= next = λ s w. bound (m s w) next

abbrev pub ◌>>◌ : {W A B : Type 0} → Step W A → Step W B → Step W B
m >> next = λ s w. bound (m s w) (λ a. next)

abbrev pub pure : {W A : Type 0} → A → Step W A
pure a s w = (ok a, s, w)

-- `?` on a result that needs neither the state nor the device, `ensure!`, and reading the state.
abbrev pub lift : {W A : Type 0} → Result ModelError A → Step W A
lift r s w = (r, s, w)

abbrev pub ensure : {W : Type 0} → Bool → ModelError → Step W (Unit {0})
ensure b e = lift (bail_if (not b) e)

abbrev pub get : {W : Type 0} → Step W State
get s w = (ok s, s, w)

abbrev pub modify : {W : Type 0} → (State → State) → Step W (Unit {0})
modify f s w = (ok tt, f s, w)

-- A call on the device.
abbrev pub answered : {W A : Type 0} → State → Option A × W → Result ModelError A × State × W
answered s (some a, w) = (ok a, s, w)
answered s (none, w) = (err device_failed, s, w)

abbrev pub asks : {W A : Type 0} → (W → Option A × W) → Step W A
asks call s w = answered s (call w)

abbrev pub succeeds : Bool → Option (Unit {0})
succeeds true = some tt
succeeds false = none

abbrev pub calls : {W : Type 0} → (W → Bool × W) → Step W (Unit {0})
calls call = asks (λ w. let (b, w') = call w in (succeeds b, w'))

abbrev pub set_position : ℕ → State → State
set_position p s = record s { pos = p }

-- `PosBuffer::set`: the cell holds the position once the write has succeeded.
abbrev pub set_cell : {W : Type 0} → Device W → ℕ → Step W (Unit {0})
set_cell dev p = calls (dev.set_pos p) >> modify (λ s. record s { cell = p })

-- `run` of a prepared chain: the kernels read the cell.
abbrev pub replays : {W : Type 0} → Device W → List ExecOp → Step W (Unit {0})
replays dev ops = get >>= (λ s. calls (dev.replay ops s.cell))

-- The rows of `embed`.
unfoldable pub embed : Model → List ℕ → Result ModelError (List ℕ)
embed m [] = ok []
embed m (token ∷ tokens) =
    let row = take m.cfg.embd (drop (mul64 token m.cfg.embd) m.embd_cpu) in
    let rest = embed m tokens in
    if not (ltb token m.cfg.vocab)
    then err token_out_of_vocab
    else if not (length row == m.cfg.embd)
    then err short_table
    else elim rest [ ok rows ↦ ok (row ++ rows) | err e ↦ err e ]

-- The order of `f32::total_cmp` on bit patterns, as a number: negative patterns are reversed.
unfoldable pub total_order : ℕ → ℕ
total_order bits = if ltb bits 0x8000_0000 then bits + 0x8000_0000 else 0xffff_ffff - bits

-- `max_by` keeps the last of equal maxima.
unfoldable pub argmax_from : ℕ → ℕ → ℕ → List ℕ → ℕ
argmax_from best best_at i [] = best_at
argmax_from best best_at i (x ∷ xs) =
    let (next, next_at) =
      if leb best (total_order x) then (total_order x, i) else (best, best_at) in
    argmax_from next next_at (suc i) xs

unfoldable pub argmax : List ℕ → Result ModelError ℕ
argmax [] = err empty_logits
argmax (x ∷ xs) = ok (argmax_from (total_order x) 0 1 xs)

-- `self.embed(&[token])` and its upload to the activation that a chain reads first.
unfoldable pub seed : {W : Type 0} → Device W → Model → ℕ → Step W (Unit {0})
seed dev m token = do
  host_x ← lift (embed m (token ∷ []))
  calls (dev.upload host_x m.decode_scratch.x_a)

-- Downloading the logits, and the greedy token.
unfoldable pub sample : {W : Type 0} → Device W → Model → Step W (ℕ × List ℕ)
sample dev m = do
  logits ← asks (dev.download m.decode_scratch.logits)
  best ← lift (argmax logits)
  pure (best, logits)

unfoldable pub decode_graph : {W : Type 0} → Device W → Model → ℕ → Step W (ℕ × List ℕ)
decode_graph dev m token = do
  s ← get
  ensure (ltb s.pos m.cfg.t_max) cache_overflow
  seed dev m token
  ops ← lift (decode_ops m m.decode_scratch s.pos 0)
  calls (dev.run_ops ops)
  sampled ← sample dev m
  modify (set_position (add32 s.pos 1))
  pure sampled
