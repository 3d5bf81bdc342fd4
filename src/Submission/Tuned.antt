-- ===== src/Submission/Tuned.antt =====
-- src/executor/dispatch.rs: the tuning store across submissions.
use tensor_ash.Prelude.{
  ℕ, ◌≡◌, refl, sym, ap, ◌∙◌, Bool, true, false, List, [], ◌∷◌, Result, ok, err, inl, inr, arith,
  Option-cases, ◌||◌, if◌then◌else◌,
}
use mathlib.Core.Path.{subst}
use tensor_ash.Matmul.{MatmulOp, MatmulCall}
use tensor_ash.Matmul.Resolution.{ResolvedMatmul}
use tensor_ash.Pipeline.{MatmulPipeline, TuneKey, TuneEntry}
use tensor_ash.Executor.Reads.{Measured}
use tensor_ash.Tuning.{TuneError}
use tensor_ash.Tuning.Choice.{Eligible}
use tensor_ash.Tuning.Records.{tune_op-Eligible}
use tensor_ash.Submission.{
  Timing, Host, SubmitError, Submitted, Planned, tune_first, store_winner, measure, admit, launch,
  launch_planned, plan_all, run_ops_impl, run_admitted, is_single, split_k2, never_ends,
}

-- Two states of a pipeline differ in the tuning store at most.
abbrev pub Keeps : MatmulPipeline → MatmulPipeline → Type 0
Keeps p q =
    (q.device ≡ p.device) × (q.selection ≡ p.selection) × (Measured p.tuned → Measured q.tuned)

Keeps-refl : (p : MatmulPipeline) → Keeps p p
Keeps-refl p = (refl, refl, λ m. m)

winner-Keeps :
    (t : Timing) (p : MatmulPipeline) (r : ResolvedMatmul)
    (found : Result TuneError (TuneKey × TuneEntry))
    → measure t p r ≡ found
    → Keeps p (store_winner p found)
unfolding Eligible
winner-Keeps t p r (err e) h = Keeps-refl p
winner-Keeps t p r (ok (key, entry)) h =
    let (keyed, fit) =
      tune_op-Eligible t.keeps t.beats t.warmup t.timer t.split_times t.rounds p r key entry h in
    (refl, refl, λ m. ((fit.0 ∙ sym (ap (λ z. z.b_f16) keyed), fit.1, fit.2), m))

either-Keeps : (c : Bool) (p q : MatmulPipeline) → Keeps p q → Keeps p (if c then q else p)
either-Keeps true p q k = k
either-Keeps false p q k = Keeps-refl p

tune_first-Keeps :
    (h : Host) (p : MatmulPipeline) (ops : List MatmulOp) (rs : List ResolvedMatmul)
    → Keeps p (tune_first h p ops rs)
unfolding tune_first
tune_first-Keeps h p [] rs = Keeps-refl p
tune_first-Keeps h p (op ∷ []) [] = Keeps-refl p
tune_first-Keeps h p (op ∷ []) (r ∷ []) =
    either-Keeps _ p _ (winner-Keeps (h.timing op r) p r (measure (h.timing op r) p r) refl)
tune_first-Keeps h p (op ∷ []) (r ∷ s ∷ rs) = Keeps-refl p
tune_first-Keeps h p (op ∷ o ∷ ops) rs = Keeps-refl p

-- Recording leaves the store as it is.
split_k2-state :
    (h : Host) (p : MatmulPipeline) (regular : MatmulPipeline × Result SubmitError Submitted)
    (call : MatmulCall) (splits : ℕ)
    → regular.0 ≡ p
    → (split_k2 h p regular call splits).0 ≡ p
unfolding split_k2
split_k2-state h p regular call splits e = ground arith

pub launch-state :
    (h : Host) (p : MatmulPipeline) (graph : Bool) (flops : ℕ)
    (planned : Result SubmitError (List Planned))
    → (launch_planned h p graph flops planned).0 ≡ p
unfolding launch
launch-state h p graph flops (err e) = refl
launch-state h p true flops (ok []) = refl
launch-state h p true flops (ok (x ∷ xs)) = refl
launch-state h p false flops (ok []) = refl
launch-state h p false flops (ok (x ∷ y ∷ xs)) = refl
launch-state h p false flops (ok (x ∷ [])) = elim (Option-cases x.plan.splitk2) [
  | inl whole ↦ rw (whole, launch) refl
  | inr (splits, e) ↦ rw (e, launch) (split_k2-state h p (p, err never_ends) x.op.call splits refl)
]

pub admitted-Keeps :
    (h : Host) (p : MatmulPipeline) (graph : Bool) (ops : List MatmulOp)
    (admitted : Result SubmitError (List ResolvedMatmul × ℕ))
    → Keeps p (run_admitted h p graph ops admitted).0
admitted-Keeps h p graph ops (err e) = Keeps-refl p
admitted-Keeps h p graph ops (ok (rs, flops)) =
    let tuned = tune_first h p ops rs in
    subst (Keeps p)
      (sym (launch-state h tuned graph flops (plan_all tuned (graph || is_single ops) ops rs)))
      (tune_first-Keeps h p ops rs)

-- Whatever a submission comes to, refused ones included, it leaves the device and the forced kernel
-- of the pipeline as they were, and a tuning store in which every winner reads the storage types
-- of its key stays such a store: the hypotheses under which plans agree with their operands hold
-- from one submission to the next.
pub run_ops_impl-Measured :
    (h : Host) (p : MatmulPipeline) (graph : Bool) (ops : List MatmulOp)
    → Measured p.tuned
    → ((run_ops_impl h p graph ops).0.device ≡ p.device)
      × ((run_ops_impl h p graph ops).0.selection ≡ p.selection)
      × Measured (run_ops_impl h p graph ops).0.tuned
unfolding run_ops_impl
run_ops_impl-Measured h p graph [] m = (refl, refl, m)
run_ops_impl-Measured h p graph (op ∷ ops) m =
    let (device, selection, measured) = admitted-Keeps h p graph (op ∷ ops) (admit h (op ∷ ops)) in
    (device, selection, measured m)
