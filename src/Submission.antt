-- ===== src/Submission.antt =====
-- src/executor/dispatch.rs and src/executor/reduction.rs: from a list of ops to the commands of one
-- submission. The state that a call leaves behind is the tuning store of the pipeline. Slots, the
-- writing of descriptor sets and the submission to the queue are calls of the device.
pub mod Tuned
pub mod Routes
pub mod Performed
pub mod Accepted
use package.tensor_ash.Prelude.{
  ℕ, zero, suc, Bool, true, false, not, ◌&&◌, ◌||◌, Option, none, some, is_none, is_some, List, [],
  ◌∷◌, length, Result, ok, err, ◌>>=◌, ◌>>◌, bail_if, if◌then◌else◌, ltb, leb, ◌==◌,
}
use package.tensor_ash.Kernels.{Kernel, spec}
use package.tensor_ash.Matmul.{MatmulCall, MatmulOp, new}
use package.tensor_ash.Matmul.Epilogues
use package.tensor_ash.Matmul.Stores
use package.tensor_ash.Matmul.Resolution.{ResolveError, ResolvedMatmul, total_flops}
use package.tensor_ash.Matmul.Resolution.Op.{from_op, from_call}
use package.tensor_ash.Pipeline.{
  MatmulPipeline, PlanError, TuneKey, TuneEntry, is_auto, find_tuned, kernel_at,
}
use package.tensor_ash.SplitK2.{
  SplitK2Dispatch, SplitError, plan, assign_scratch, default_num_k_splits, stage1_tile,
}
use package.tensor_ash.Executor.{
  OpPlan, RecordError, groups, plan_matmul, demote_for_op, record_checks,
}
use package.tensor_ash.Executor.Validation.{
  ContextError, validate_call_context, validate_op_context,
}
use package.tensor_ash.MatmulGraph.{GraphCommand, barrier, dispatch, stage1, reduce, record_graph}
use package.tensor_ash.Tuning.{TuneError, tune_key, tune_op}

-- What a tuning run measures on an op: the parameters of `tune_op`.
pub record Timing : Type 0 where
  pub keeps : ℕ → ℕ → Bool
  pub beats : ℕ → ℕ → Bool
  pub warmup : Kernel → Result TuneError (Option ℕ)
  pub timer : ℕ → ℕ → Kernel → Result TuneError (Option ℕ)
  pub split_times : ℕ → Result TuneError (List ℕ)
  pub rounds : ℕ

-- The fields of `Executor` and of its context that a submission reads.
pub record Host : Type 0 where
  pub context : ℕ
  pub max_calls_per_submit : ℕ
  pub tune_enabled : Bool
  pub timestamps_supported : Bool
  pub timing : MatmulOp → ResolvedMatmul → Timing

-- `never_ends` stands for a recursion of the two entry points into each other.
pub data SubmitError : Type 0 where
  too_many_ops accumulate_unsupported splits_out_of_range exceeds_k no_addresses never_ends :
      SubmitError
  misplaced : ContextError → SubmitError
  unresolved : ResolveError → SubmitError
  unplanned : PlanError → SubmitError
  unsplit : SplitError → SubmitError
  unrecorded : RecordError → SubmitError

-- `?` with the conversion of its error.
abbrev pub via {ℓ} :
    {E : Type 0} {A : Type ℓ} → (E → SubmitError) → Result E A → Result SubmitError A
via into (ok a) = ok a
via into (err e) = err (into e)

-- The conditions under which an op may be tuned or cut along K.
unfoldable pub is_plain : MatmulOp → Bool
is_plain op =
    not op.call.accumulate
    && Epilogues.has_none op.epilogue
    && is_none op.normed_a
    && Stores.has_none op.store

-- `MatmulPipeline::is_tuned`.
unfoldable pub is_tuned : MatmulPipeline → TuneKey → Bool
is_tuned p key = not (is_auto p) || is_some (find_tuned key p.tuned)

-- `record_tuned`: the first entry of a key is the one that counts.
abbrev pub record_tuned : MatmulPipeline → TuneKey × TuneEntry → MatmulPipeline
record_tuned p entry = record p { tuned = entry ∷ p.tuned }

-- A tuning run that fails is logged, and changes nothing.
abbrev pub store_winner : MatmulPipeline → Result TuneError (TuneKey × TuneEntry) → MatmulPipeline
store_winner p (ok entry) = record_tuned p entry
store_winner p (err e) = p

abbrev pub measure :
    Timing → MatmulPipeline → ResolvedMatmul → Result TuneError (TuneKey × TuneEntry)
measure t = tune_op t.keeps t.beats t.warmup t.timer t.split_times t.rounds

-- The online tuning of a lone plain op whose shape is new.
unfoldable pub tune_first :
    Host → MatmulPipeline → List MatmulOp → List ResolvedMatmul → MatmulPipeline
unfolding is_plain is_tuned
tune_first h p (op ∷ []) (r ∷ []) =
    if h.tune_enabled
      && is_plain op
      && not r.a_f16
      && not (is_tuned p (tune_key r))
      && h.timestamps_supported
    then store_winner p (measure (h.timing op r) p r)
    else p
tune_first h p ops rs = p

unfoldable pub validate_all : ℕ → List MatmulOp → Result SubmitError (Unit {0})
validate_all ctx [] = ok tt
validate_all ctx (op ∷ ops) = do via misplaced (validate_op_context ctx op); validate_all ctx ops

-- `ResolvedMatmulBatch::from_ops`.
unfoldable pub from_ops : List MatmulOp → Result SubmitError (List ResolvedMatmul)
from_ops [] = ok []
from_ops (op ∷ ops) = do r ← via unresolved (from_op op); rs ← from_ops ops; ok (r ∷ rs)

-- An op with its dimensions and its complete route.
pub record Planned : Type 0 where
  pub op : MatmulOp
  pub dims : ResolvedMatmul
  pub plan : OpPlan

unfoldable pub plan_op :
    MatmulPipeline → Bool → MatmulOp → ResolvedMatmul → Result SubmitError Planned
unfolding is_plain
plan_op p shared op r = do
  first ← via unplanned (plan_matmul p r (is_plain op && shared))
  final ← via unplanned (demote_for_op p op r first)
  ok (record { op = op; dims = r; plan = final })

-- `shared` says that the submission is a graph or holds one op only.
unfoldable pub plan_all :
    MatmulPipeline → Bool → List MatmulOp → List ResolvedMatmul → Result SubmitError (List Planned)
plan_all p shared (op ∷ ops) (r ∷ rs) = do
  first ← plan_op p shared op r
  rest ← plan_all p shared ops rs
  ok (first ∷ rest)
plan_all p shared ops rs = ok []

abbrev pub Region : Type 0
Region = Option (SplitK2Dispatch × ℕ)

abbrev pub split_requests : List Planned → List (ResolvedMatmul × Option ℕ)
split_requests [] = []
split_requests (x ∷ xs) = (x.dims, x.plan.splitk2) ∷ split_requests xs

abbrev pub no_regions : List Planned → List Region
no_regions [] = []
no_regions (x ∷ xs) = none ∷ no_regions xs

-- The scratch regions of `record_and_run`, by position.
unfoldable pub graph_regions : MatmulPipeline → Bool → List Planned → List Region
graph_regions p graph xs =
    let (regions, end) = assign_scratch (groups p.device) 0 (split_requests xs) in
    if graph && p.device.bda && not (end == 0) then regions else no_regions xs

-- How an op is recorded: as one dispatch of a kernel over a grid of workgroups, or in two stages
-- with its partial planes at an offset of the scratch buffer.
pub data Dispatched : Type 0 where
  whole : (kernel : Kernel) (gx gy gz : ℕ) → Dispatched
  split : (d : SplitK2Dispatch) (offset : ℕ) → Dispatched

abbrev pub as_whole : Kernel → ℕ × ℕ × ℕ → Dispatched
as_whole k (gx, gy, gz) = whole k gx gy gz

-- The calls of `record_one_matmul` in the two recorders.
unfoldable pub record_whole : MatmulPipeline → Planned → Result SubmitError Dispatched
record_whole p x = do
  s ← via unplanned (kernel_at p x.plan.kernel)
  grid ← via unrecorded (record_checks p.device x.op x.dims s)
  ok (as_whole x.plan.kernel grid)

unfoldable pub record_all :
    MatmulPipeline → List Planned → List Region → Result SubmitError (List Dispatched)
record_all p (x ∷ xs) (none ∷ regions) = do
  one ← record_whole p x
  rest ← record_all p xs regions
  ok (one ∷ rest)
record_all p (x ∷ xs) (some (d, offset) ∷ regions) = do
  rest ← record_all p xs regions
  ok (split d offset ∷ rest)
record_all p xs regions = ok []

-- The commands: those of `record_matmul_commands` are bare dispatches.
unfoldable pub bare : ℕ → List Planned → List GraphCommand
bare index [] = []
bare index (x ∷ xs) = dispatch index ∷ bare (suc index) xs

abbrev pub routes : List Planned → List Region → List (MatmulOp × Bool)
routes (x ∷ xs) (region ∷ regions) = (x.op, is_some region) ∷ routes xs regions
routes xs regions = []

abbrev pub commands_of : Bool → List Planned → List Region → List GraphCommand
commands_of true xs regions = record_graph (routes xs regions)
commands_of false xs regions = bare 0 xs

pub record Submitted : Type 0 where
  pub dispatched : List Dispatched
  pub commands : List GraphCommand
  pub n_calls : ℕ
  pub flops : ℕ

-- `record_and_run`.
unfoldable pub record_and_run :
    MatmulPipeline → Bool → ℕ → List Planned → Result SubmitError Submitted
unfolding graph_regions
record_and_run p graph flops xs = do
  dispatched ← record_all p xs (graph_regions p graph xs)
  ok (record {
    dispatched = dispatched;
    commands = commands_of graph xs (graph_regions p graph xs);
    n_calls = length xs;
    flops = flops;
  })

-- `record_and_run_split_k2`.
unfoldable pub record_split : MatmulPipeline → ResolvedMatmul → ℕ → Result SubmitError Submitted
record_split p r splits = do
  d ← via unsplit (plan (groups p.device) r splits)
  ok (record {
    dispatched = split d 0 ∷ [];
    commands = stage1 0 ∷ barrier ∷ reduce 0 ∷ [];
    n_calls = 1;
    flops = r.total_flops;
  })

-- The checks of `run_matmuls_split_k2`, and the split count that it settles on.
unfoldable pub split_request : ℕ → MatmulCall → ℕ → Result SubmitError (ResolvedMatmul × ℕ)
split_request ctx call requested = do
  via misplaced (validate_call_context ctx call)
  bail_if call.accumulate accumulate_unsupported
  r ← via unresolved (from_call call)
  bail_if (ltb 65535 requested) splits_out_of_range
  bail_if (ltb r.k requested) exceeds_k
  let tile = stage1_tile r.m r.n
  let fallback = default_num_k_splits r.batch r.m r.n r.k tile tile
  ok (r, if requested == 0 then fallback else requested)

-- `run_matmuls_split_k2`; `regular` is its call of `run_matmuls`.
unfoldable pub split_k2 :
    Host
    → MatmulPipeline
    → MatmulPipeline × Result SubmitError Submitted
    → MatmulCall
    → ℕ
    → MatmulPipeline × Result SubmitError Submitted
unfolding split_request
split_k2 h p regular call requested = elim (split_request h.context call requested) [
  | err e ↦ (p, err e)
  | ok (r, splits) ↦
      if leb splits 1
      then regular
      else if not p.device.bda
      then (p, err no_addresses)
      else (p, record_split p r splits)
]

-- The checks before tuning.
unfoldable pub admit : Host → List MatmulOp → Result SubmitError (List ResolvedMatmul × ℕ)
admit h ops = do
  bail_if (ltb h.max_calls_per_submit (length ops)) too_many_ops
  validate_all h.context ops
  rs ← from_ops ops
  flops ← via unresolved (total_flops rs)
  ok (rs, flops)

-- What follows the plans: a lone op that is cut along K outside a graph goes through the dedicated
-- entry point.
unfoldable pub launch :
    Host → MatmulPipeline → Bool → ℕ → List Planned → MatmulPipeline × Result SubmitError Submitted
launch h p false flops (x ∷ []) = elim x.plan.splitk2 [
  | none ↦ (p, record_and_run p false flops (x ∷ []))
  | some splits ↦ split_k2 h p (p, err never_ends) x.op.call splits
]
launch h p graph flops xs = (p, record_and_run p graph flops xs)

abbrev pub is_single : List MatmulOp → Bool
is_single (op ∷ []) = true
is_single ops = false

abbrev pub launch_planned :
    Host
    → MatmulPipeline
    → Bool
    → ℕ
    → Result SubmitError (List Planned)
    → MatmulPipeline × Result SubmitError Submitted
launch_planned h p graph flops (ok xs) = launch h p graph flops xs
launch_planned h p graph flops (err e) = (p, err e)

abbrev pub nothing_submitted : Submitted
nothing_submitted = record { dispatched = []; commands = []; n_calls = 0; flops = 0 }

-- What follows the checks: tuning, plans and their recording.
abbrev pub run_admitted :
    Host
    → MatmulPipeline
    → Bool
    → List MatmulOp
    → Result SubmitError (List ResolvedMatmul × ℕ)
    → MatmulPipeline × Result SubmitError Submitted
run_admitted h p graph ops (err e) = (p, err e)
run_admitted h p graph ops (ok (rs, flops)) =
    let tuned = tune_first h p ops rs in
    launch_planned h tuned graph flops (plan_all tuned (graph || is_single ops) ops rs)

-- `run_ops_impl`: the pipeline with its store afterwards, and what was submitted.
unfoldable pub run_ops_impl :
    Host → MatmulPipeline → Bool → List MatmulOp → MatmulPipeline × Result SubmitError Submitted
run_ops_impl h p graph [] = (p, ok nothing_submitted)
run_ops_impl h p graph (op ∷ ops) = run_admitted h p graph (op ∷ ops) (admit h (op ∷ ops))

-- `run_matmuls` of one call, `run_calls_impl` of several, and the public `run_matmuls_split_k2`.
abbrev as_ops : List MatmulCall → List MatmulOp
as_ops [] = []
as_ops (call ∷ calls) = new call ∷ as_ops calls

unfoldable pub run_calls_impl :
    Host → MatmulPipeline → Bool → List MatmulCall → MatmulPipeline × Result SubmitError Submitted
run_calls_impl h p graph calls = run_ops_impl h p graph (as_ops calls)

unfoldable pub run_matmuls_split_k2 :
    Host → MatmulPipeline → MatmulCall → ℕ → MatmulPipeline × Result SubmitError Submitted
run_matmuls_split_k2 h p call splits =
    split_k2 h p (run_calls_impl h p false (call ∷ [])) call splits
