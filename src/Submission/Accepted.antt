-- ===== src/Submission/Accepted.antt =====
-- src/executor/dispatch.rs and src/executor/reduction.rs: whole submissions that go through.
use tensor_ash.Prelude.{
  ℕ, ◌≡◌, refl, sym, ap, ◌∙◌, Bool, true, false, List, [], ◌∷◌, Result, ok, err, Result-cases,
  Option-cases, Bool-cases, inl, inr, bind-ok, ok-eq, then-ok, leb, ◌||◌,
}
use mathlib.Core.Path.{subst}
use tensor_ash.Matmul.{MatmulOp, MatmulCall}
use tensor_ash.Matmul.Resolution.{ResolvedMatmul, total_flops}
use tensor_ash.Matmul.Resolution.Op.{from_call}
use tensor_ash.Pipeline.{MatmulPipeline}
use tensor_ash.SplitK2.{plan}
use tensor_ash.Executor.{groups}
use tensor_ash.Executor.Ownership.{Owned}
use tensor_ash.Submission.{
  Host, SubmitError, Submitted, Planned, Dispatched, split, via, is_plain, plan_all, validate_all,
  from_ops, admit, unresolved, unsplit, record_and_run, record_split, record_all, graph_regions,
  split_k2, split_request, launch, launch_planned, run_admitted, run_ops_impl, is_single,
  tune_first, never_ends,
}
use tensor_ash.Submission.Tuned.{launch-state, admitted-Keeps}
use tensor_ash.Submission.Performed.{
  Performs, AllPerform, AllReady, Ready, AllAdmitted, err-not_ok, none-not_some, via-ok,
  plan_all-Ready, graph_regions-Granted, record_all-AllPerform, admitted,
}

record_and_run-AllPerform :
    (p : MatmulPipeline) (graph : Bool) (ctx flops : ℕ) (ops : List MatmulOp) (xs : List Planned)
    (s : Submitted)
    → AllReady ctx ops xs
    → record_and_run p graph flops xs ≡ ok s
    → AllPerform ctx p.device ops s.dispatched
unfolding record_and_run
record_and_run-AllPerform p graph ctx flops ops xs s ready e =
    let (done, recorded, last) = bind-ok (record_all p xs (graph_regions p graph xs)) _ s e in
    subst (λ z. AllPerform ctx p.device ops z) (ap (λ z. z.dispatched) (ok-eq _ s last))
      (record_all-AllPerform p ctx ops xs (graph_regions p graph xs) done ready
        (graph_regions-Granted p graph xs) recorded)

-- The dimensions of a request for two stages are those of its call.
split_request-called :
    (ctx : ℕ) (call : MatmulCall) (requested : ℕ) (r : ResolvedMatmul) (splits : ℕ)
    → split_request ctx call requested ≡ ok (r, splits)
    → from_call call ≡ ok r
unfolding split_request
split_request-called ctx call requested r splits e =
    let (_, e1) = then-ok _ _ e in
    let (_, e2) = then-ok _ _ e1 in
    let (s, called, e3) = bind-ok (via unresolved (from_call call)) _ (r, splits) e2 in
    let (_, e4) = then-ok _ _ e3 in
    let (_, e5) = then-ok _ _ e4 in
    via-ok unresolved _ s called ∙ ap (λ z. ok z.0) (ok-eq _ (r, splits) e5)

record_split-Performs :
    (p : MatmulPipeline) (op : MatmulOp) (r : ResolvedMatmul) (splits : ℕ) (s : Submitted)
    → from_call op.call ≡ ok r
    → is_plain op ≡ true
    → record_split p r splits ≡ ok s
    → (x : Dispatched) × (s.dispatched ≡ x ∷ []) × Performs p.device op x
unfolding record_split
record_split-Performs p op r splits s called plain e =
    let (d, planned, last) = bind-ok (via unsplit (plan (groups p.device) r splits)) _ s e in
    (
      split d 0,
      ap (λ z. z.dispatched) (sym (ok-eq _ s last)),
      (r, splits, called, plain, via-ok unsplit _ d planned),
    )

split_k2-Performs :
    (h : Host) (p : MatmulPipeline) (op : MatmulOp) (requested : ℕ) (s : Submitted)
    → is_plain op ≡ true
    → (split_k2 h p (p, err never_ends) op.call requested).1 ≡ ok s
    → (x : Dispatched) × (s.dispatched ≡ x ∷ []) × Performs p.device op x
unfolding split_k2 record_split
split_k2-Performs h p op requested s plain e =
    elim (Result-cases (split_request h.context op.call requested)) [
      | inr (x, refused) ↦ absurd (err-not_ok (rw (refused, split_k2) at e))
      | inl ((r, splits), request) ↦
          let called = split_request-called h.context op.call requested r splits request in
          elim (Bool-cases (leb splits 1)) [
            | inl regular ↦ absurd (err-not_ok (rw (request, regular, split_k2) at e))
            | inr several ↦ elim (Bool-cases p.device.bda) [
              | inr lacks ↦ absurd (err-not_ok (rw (request, several, lacks, split_k2) at e))
              | inl has ↦
                  record_split-Performs p op r splits s called plain
                    (rw (request, several, has, split_k2) at e)
            ]
          ]
    ]

lone-AllPerform :
    (h : Host) (p : MatmulPipeline) (flops : ℕ) (op : MatmulOp) (x : Planned) (s : Submitted)
    → (x.op ≡ op)
    → Ready h.context x
    → (launch h p false flops (x ∷ [])).1 ≡ ok s
    → AllPerform h.context p.device (op ∷ []) s.dispatched
unfolding launch
lone-AllPerform h p flops op x s same ready e = elim (Option-cases x.plan.splitk2) [
  | inl uncut ↦
      record_and_run-AllPerform p false h.context flops (op ∷ []) (x ∷ []) s (same, ready, tt)
        (rw (uncut, launch) at e)
  | inr (splits, cut) ↦ elim ready.cut [
    | inl uncut ↦ absurd (none-not_some splits (sym uncut ∙ cut))
    | inr plain ↦
        let (one, is, performs) =
          split_k2-Performs h p x.op splits s plain (rw (cut, launch) at e) in
        subst (AllPerform h.context p.device (op ∷ [])) (sym is) (
          subst (Owned h.context) same ready.owned,
          subst (λ z. Performs p.device z one) same performs,
          tt,
        )
  ]
]

launch-AllPerform :
    (h : Host) (p : MatmulPipeline) (graph : Bool) (flops : ℕ) (ops : List MatmulOp)
    (xs : List Planned) (s : Submitted)
    → AllReady h.context ops xs
    → (launch h p graph flops xs).1 ≡ ok s
    → AllPerform h.context p.device ops s.dispatched
unfolding launch
launch-AllPerform h p true flops ops [] s ready e =
    record_and_run-AllPerform p true h.context flops ops [] s ready e
launch-AllPerform h p true flops ops (x ∷ xs) s ready e =
    record_and_run-AllPerform p true h.context flops ops (x ∷ xs) s ready e
launch-AllPerform h p false flops ops [] s ready e =
    record_and_run-AllPerform p false h.context flops ops [] s ready e
launch-AllPerform h p false flops ops (x ∷ y ∷ xs) s ready e =
    record_and_run-AllPerform p false h.context flops ops (x ∷ y ∷ xs) s ready e
launch-AllPerform h p false flops [] (x ∷ []) s ready e = elim ready [ ]
launch-AllPerform h p false flops (op ∷ o ∷ ops) (x ∷ []) s ready e = elim ready.2 [ ]
launch-AllPerform h p false flops (op ∷ []) (x ∷ []) s (same, ready, _) e =
    lone-AllPerform h p flops op x s same ready e

planned-AllPerform :
    (h : Host) (p : MatmulPipeline) (graph : Bool) (flops : ℕ) (ops : List MatmulOp)
    (planned : Result SubmitError (List Planned)) (s : Submitted)
    → ((xs : List Planned) → planned ≡ ok xs → AllReady h.context ops xs)
    → (launch_planned h p graph flops planned).1 ≡ ok s
    → AllPerform h.context p.device ops s.dispatched
planned-AllPerform h p graph flops ops (err x) s ready e = absurd (err-not_ok e)
planned-AllPerform h p graph flops ops (ok xs) s ready e =
    launch-AllPerform h p graph flops ops xs s (ready xs refl) e

admitted-AllPerform :
    (h : Host) (p : MatmulPipeline) (graph : Bool) (ops : List MatmulOp)
    (m : Result SubmitError (List ResolvedMatmul × ℕ)) (s : Submitted)
    → ((rs : List ResolvedMatmul) (flops : ℕ) → m ≡ ok (rs, flops) → AllAdmitted h.context ops rs)
    → (run_admitted h p graph ops m).1 ≡ ok s
    → AllPerform h.context (run_admitted h p graph ops m).0.device ops s.dispatched
admitted-AllPerform h p graph ops (err x) s all e = absurd (err-not_ok e)
admitted-AllPerform h p graph ops (ok (rs, flops)) s all e =
    let tuned = tune_first h p ops rs in
    let planned = plan_all tuned (graph || is_single ops) ops rs in
    subst (λ z. AllPerform h.context z.device ops s.dispatched)
      (sym (launch-state h tuned graph flops planned))
      (planned-AllPerform h tuned graph flops ops planned s
        (λ xs is.
          plan_all-Ready tuned (graph || is_single ops) h.context ops rs xs (all rs flops refl) is)
        e)

admit-AllAdmitted :
    (h : Host) (ops : List MatmulOp) (rs : List ResolvedMatmul) (flops : ℕ)
    → admit h ops ≡ ok (rs, flops)
    → AllAdmitted h.context ops rs
unfolding admit
admit-AllAdmitted h ops rs flops e =
    let (_, e1) = then-ok _ _ e in
    let (valid, e2) = then-ok (validate_all h.context ops) _ e1 in
    let (ts, resolved, e3) = bind-ok (from_ops ops) _ (rs, flops) e2 in
    let (n, _, e4) = bind-ok (via unresolved (total_flops ts)) _ (rs, flops) e3 in
    subst (AllAdmitted h.context ops) (ap (λ z. z.0) (ok-eq (ts, n) (rs, flops) e4))
      (admitted h.context ops ts valid resolved)

-- A submission that goes through dispatches every op of its list, in order: each op's tensors were
-- allocated by the executor's context and its outputs are apart from its inputs, and it runs
-- either as one grid of the kernel that is dispatched, which reads its operands as they are stored,
-- whose tiles divide its dimensions where the kernel handles no edges, and whose tiles cover the
-- output within the device's limits, or, where nothing is fused and nothing is accumulated, in the
-- two stages that are planned for its dimensions.
pub run_ops_impl-AllPerform :
    (h : Host) (p : MatmulPipeline) (graph : Bool) (ops : List MatmulOp) (s : Submitted)
    → (run_ops_impl h p graph ops).1 ≡ ok s
    → AllPerform h.context p.device ops s.dispatched
unfolding run_ops_impl
run_ops_impl-AllPerform h p graph [] s e =
    subst (λ z. AllPerform h.context p.device [] z.dispatched) (ok-eq _ s e) tt
run_ops_impl-AllPerform h p graph (op ∷ ops) s e =
    let same = (admitted-Keeps h p graph (op ∷ ops) (admit h (op ∷ ops))).0 in
    subst (λ d. AllPerform h.context d (op ∷ ops) s.dispatched) same
      (admitted-AllPerform h p graph (op ∷ ops) (admit h (op ∷ ops)) s
        (admit-AllAdmitted h (op ∷ ops)) e)
