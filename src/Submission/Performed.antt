-- ===== src/Submission/Performed.antt =====
-- src/executor/dispatch.rs: what holds of the dispatches of a submission that goes through.
use tensor_ash.Prelude.{
  ℕ, ◌≡◌, refl, sym, ap, ◌∙◌, Bool, true, false, Option, none, some, List, [], ◌∷◌, Result, ok, err,
  Result-cases, Option-cases, Bool-cases, inl, inr, ◌⊎◌, then-ok, if◌then◌else◌, bind-ok, ok-eq,
  ◌&&◌, not, ◌==◌,
}
use mathlib.Core.Path.{subst}
use tensor_ash.Kernels.{Kernel, KernelSpec, spec}
use tensor_ash.Matmul.{MatmulOp}
use tensor_ash.Matmul.Resolution.{ResolvedMatmul}
use tensor_ash.Matmul.Resolution.Op.{from_op, from_call}
use tensor_ash.Matmul.Resolution.Op.Accepts.{from_op-Resolves}
use tensor_ash.Pipeline.{MatmulPipeline, Device, kernel_at}
use tensor_ash.SplitK2.{SplitK2Dispatch, plan, assign_scratch, checked_auto_scratch_end, Groups}
use tensor_ash.Executor.{groups, record_checks, plan_matmul, demote_for_op}
use tensor_ash.Executor.Recording.{Aligned, Matches, Covers, Within, record_checks-Covers}
use tensor_ash.Executor.Validation.{validate_op_context}
use tensor_ash.Executor.Ownership.{Owned, validate_op_context_iff}
use tensor_ash.Submission.{
  SubmitError, Planned, Region, Dispatched, whole, split, as_whole, via, is_plain, plan_op,
  plan_all, split_requests, no_regions, graph_regions, record_whole, record_all, validate_all,
  from_ops, misplaced, unplanned, unresolved, unrecorded,
}
use tensor_ash.Submission.Routes.{plan_matmul-Uncut, demote_for_op-Uncut}

-- What a dispatch does for an op: one grid of a kernel that reads the operands as they are stored
-- and covers the output, or two stages over the parts of K, which a plain op only may take.
abbrev pub Performs : Device → MatmulOp → Dispatched → Type 0
Performs d op (whole k gx gy gz) =
    (r : ResolvedMatmul) × (from_op op ≡ ok r)
    × Matches (spec k) r
    × Aligned (spec k) r
    × Covers (spec k) r.m r.n gx gy
    × Within d gx gy gz
    × (gz ≡ r.batch)
Performs d op (split s offset) =
    (r : ResolvedMatmul) × (splits : ℕ) × (from_call op.call ≡ ok r)
    × (is_plain op ≡ true)
    × (plan (groups d) r splits ≡ ok s)

-- One dispatch for each op, in order.
abbrev pub AllPerform : ℕ → Device → List MatmulOp → List Dispatched → Type 0
AllPerform ctx d [] [] = Unit {0}
AllPerform ctx d (op ∷ ops) (x ∷ xs) = Owned ctx op × Performs d op x × AllPerform ctx d ops xs
AllPerform ctx d [] (x ∷ xs) = ⊥
AllPerform ctx d (op ∷ ops) [] = ⊥

pub err-not_ok : {E A : Type 0} {x : E} {a : A} → ◌≡◌ {A = Result E A} (err x) (ok a) → ⊥
err-not_ok e = cc

pub none-not_some : {A : Type 0} (a : A) → ◌≡◌ {A = Option A} none (some a) → ⊥
none-not_some a e = cc

pub via-ok :
    {E A : Type 0} (into : E → SubmitError) (m : Result E A) (a : A) → via into m ≡ ok a → m ≡ ok a
via-ok into (ok b) a e = ap ok (ok-eq b a e)
via-ok into (err x) a e = cc

-- What an op is known to be when its route has been planned.
pub record Ready (ctx : ℕ) (x : Planned) : Type 0 where
  pub owned : Owned ctx x.op
  pub resolved : from_op x.op ≡ ok x.dims
  pub cut : (x.plan.splitk2 ≡ none) ⊎ (is_plain x.op ≡ true)

abbrev pub AllReady : ℕ → List MatmulOp → List Planned → Type 0
AllReady ctx [] [] = Unit {0}
AllReady ctx (op ∷ ops) (x ∷ xs) = (x.op ≡ op) × Ready ctx x × AllReady ctx ops xs
AllReady ctx [] (x ∷ xs) = ⊥
AllReady ctx (op ∷ ops) [] = ⊥

abbrev pub AllAdmitted : ℕ → List MatmulOp → List ResolvedMatmul → Type 0
AllAdmitted ctx [] [] = Unit {0}
AllAdmitted ctx (op ∷ ops) (r ∷ rs) = Owned ctx op × (from_op op ≡ ok r) × AllAdmitted ctx ops rs
AllAdmitted ctx [] (r ∷ rs) = ⊥
AllAdmitted ctx (op ∷ ops) [] = ⊥

pub admitted :
    (ctx : ℕ) (ops : List MatmulOp) (rs : List ResolvedMatmul)
    → validate_all ctx ops ≡ ok tt
    → from_ops ops ≡ ok rs
    → AllAdmitted ctx ops rs
unfolding validate_all from_ops
admitted ctx [] [] v e = tt
admitted ctx [] (r ∷ rs) v e = cc
admitted ctx (op ∷ ops) rs v e =
    let (valid, v') =
      then-ok (via misplaced (validate_op_context ctx op)) (validate_all ctx ops) v in
    let (r, resolved, e1) = bind-ok (via unresolved (from_op op)) _ rs e in
    let (tail, others, e2) = bind-ok (from_ops ops) _ rs e1 in
    subst (AllAdmitted ctx (op ∷ ops)) (ok-eq (r ∷ tail) rs e2) (
      (validate_op_context_iff ctx op).0 (via-ok misplaced _ tt valid),
      via-ok unresolved _ r resolved,
      admitted ctx ops tail v' others,
    )

plan_op-Ready :
    (p : MatmulPipeline) (shared : Bool) (ctx : ℕ) (op : MatmulOp) (r : ResolvedMatmul)
    (x : Planned)
    → Owned ctx op
    → from_op op ≡ ok r
    → plan_op p shared op r ≡ ok x
    → (x.op ≡ op) × Ready ctx x
unfolding plan_op
plan_op-Ready p shared ctx op r x o e planned =
    let (first, routed, rest) =
      bind-ok (via unplanned (plan_matmul p r (is_plain op && shared))) _ x planned in
    let (final, demoted, last) = bind-ok (via unplanned (demote_for_op p op r first)) _ x rest in
    let is : (record { op = op; dims = r; plan = final }) ≡ x = ok-eq _ x last in
    let ready : Ready ctx (record { op = op; dims = r; plan = final }) = record {
      owned = o;
      resolved = e;
      cut = elim (Bool-cases (is_plain op)) [
        | inl plain ↦ inr plain
        | inr fused ↦ inl (
            demote_for_op-Uncut p op r first final
              (plan_matmul-Uncut p r first (
                subst (λ b. plan_matmul p r (b && shared) ≡ ok first) fused
                  (via-ok unplanned _ first routed)))
              (via-ok unplanned _ final demoted))
      ];
    } in
    subst (λ z. (z.op ≡ op) × Ready ctx z) is (refl, ready)

pub plan_all-Ready :
    (p : MatmulPipeline) (shared : Bool) (ctx : ℕ) (ops : List MatmulOp) (rs : List ResolvedMatmul)
    (xs : List Planned)
    → AllAdmitted ctx ops rs
    → plan_all p shared ops rs ≡ ok xs
    → AllReady ctx ops xs
unfolding plan_all
plan_all-Ready p shared ctx [] [] xs all e = subst (AllReady ctx []) (ok-eq [] xs e) tt
plan_all-Ready p shared ctx [] (r ∷ rs) xs all e = elim all [ ]
plan_all-Ready p shared ctx (op ∷ ops) [] xs all e = elim all [ ]
plan_all-Ready p shared ctx (op ∷ ops) (r ∷ rs) xs (o, resolved, all) e =
    let (x, first, e1) = bind-ok (plan_op p shared op r) _ xs e in
    let (tail, rest, e2) = bind-ok (plan_all p shared ops rs) _ xs e1 in
    let (same, ready) = plan_op-Ready p shared ctx op r x o resolved first in
    subst (AllReady ctx (op ∷ ops)) (ok-eq (x ∷ tail) xs e2)
      (same, ready, plan_all-Ready p shared ctx ops rs tail all rest)

-- Each region belongs to an op that asked for it, and holds the dispatch of its request.
abbrev pub Granted : Groups → Planned → Region → Type 0
Granted g x none = Unit {0}
Granted g x (some (d, offset)) =
    (splits : ℕ) × (x.plan.splitk2 ≡ some splits) × (plan g x.dims splits ≡ ok d)

abbrev pub AllGranted : Groups → List Planned → List Region → Type 0
AllGranted g [] [] = Unit {0}
AllGranted g (x ∷ xs) (region ∷ regions) = Granted g x region × AllGranted g xs regions
AllGranted g [] (region ∷ regions) = ⊥
AllGranted g (x ∷ xs) [] = ⊥

no_regions-Granted : (g : Groups) (xs : List Planned) → AllGranted g xs (no_regions xs)
no_regions-Granted g [] = tt
no_regions-Granted g (x ∷ xs) = (tt, no_regions-Granted g xs)

-- What the head of the loop adds to the regions behind it.
head-Granted :
    (g : Groups) (offset : ℕ) (x : Planned) (xs : List Planned)
    → ((next : ℕ) → AllGranted g xs (assign_scratch g next (split_requests xs)).0)
    → (request : Option ℕ) → x.plan.splitk2 ≡ request
    → AllGranted g (x ∷ xs) (assign_scratch g offset ((x.dims, request) ∷ split_requests xs)).0
unfolding assign_scratch
head-Granted g offset x xs rest none asked = (tt, rest offset)
head-Granted g offset x xs rest (some splits) asked = elim (Result-cases (plan g x.dims splits)) [
  | inr (e, h) ↦ rw (h, assign_scratch) (tt, rest offset)
  | inl (d, h) ↦ elim (Option-cases (checked_auto_scratch_end offset d.scratch_bytes)) [
    | inl full ↦ rw (h, full, assign_scratch) (tt, rest offset)
    | inr (next, fits) ↦ rw (h, fits, assign_scratch) ((splits, asked, h), rest next)
  ]
]

assign_scratch-Granted :
    (g : Groups) (offset : ℕ) (xs : List Planned)
    → AllGranted g xs (assign_scratch g offset (split_requests xs)).0
unfolding assign_scratch
assign_scratch-Granted g offset [] = tt
assign_scratch-Granted g offset (x ∷ xs) =
    head-Granted g offset x xs (λ next. assign_scratch-Granted g next xs) x.plan.splitk2 refl

pub graph_regions-Granted :
    (p : MatmulPipeline) (graph : Bool) (xs : List Planned)
    → AllGranted (groups p.device) xs (graph_regions p graph xs)
unfolding graph_regions
graph_regions-Granted p graph xs =
    either (
      graph
      && p.device.bda
      && not ((assign_scratch (groups p.device) 0 (split_requests xs)).1 == 0))
  where
    either :
        (b : Bool)
        → AllGranted (groups p.device) xs (
            if b then (assign_scratch (groups p.device) 0 (split_requests xs)).0 else no_regions xs)
    either true = assign_scratch-Granted (groups p.device) 0 xs
    either false = no_regions-Granted (groups p.device) xs

kernel_at-spec :
    (p : MatmulPipeline) (k : Kernel) (s : KernelSpec) → kernel_at p k ≡ ok s → spec k ≡ s
unfolding kernel_at
kernel_at-spec p k s e = elim (Bool-cases (p.present k)) [
  | inl has ↦ ok-eq (spec k) s (rw has at e)
  | inr gated ↦ absurd (err-not_ok (rw gated at e))
]

-- Where K is cut does not depend on the packing of B.
plan-unpacked :
    (g : Groups) (r : ResolvedMatmul) (b : Bool) (splits : ℕ)
    → plan g (record r { packed_b = b }) splits ≡ plan g r splits
unfolding plan
plan-unpacked g r b splits = refl

record_whole-Performs :
    (p : MatmulPipeline) (ctx : ℕ) (x : Planned) (one : Dispatched)
    → Ready ctx x
    → record_whole p x ≡ ok one
    → Performs p.device x.op one
unfolding record_whole
record_whole-Performs p ctx x one ready e =
    let (s, at, e1) = bind-ok (via unplanned (kernel_at p x.plan.kernel)) _ one e in
    let (grid, checked, last) =
      bind-ok (via unrecorded (record_checks p.device x.op x.dims s)) _ one e1 in
    let (gx, gy, gz) = grid in
    let is = kernel_at-spec p x.plan.kernel s (via-ok unplanned _ s at) in
    let (matches, aligned, covers, within, planes) =
      record_checks-Covers p.device x.op x.dims x.plan.kernel gx gy gz (
        subst (λ z. record_checks p.device x.op x.dims z ≡ ok grid) (sym is)
          (via-ok unrecorded _ grid checked)) in
    subst (Performs p.device x.op) (ok-eq (as_whole x.plan.kernel grid) one last)
      (x.dims, ready.resolved, matches, aligned, covers, within, planes)

split-Performs :
    (p : MatmulPipeline) (ctx : ℕ) (x : Planned) (d : SplitK2Dispatch) (offset : ℕ)
    → Ready ctx x
    → Granted (groups p.device) x (some (d, offset))
    → Performs p.device x.op (split d offset)
split-Performs p ctx x d offset ready (splits, asked, cut) =
    let parts = from_op-Resolves x.op x.dims ready.resolved in
    let planned : plan (groups p.device) parts.dims splits ≡ ok d =
      sym (plan-unpacked (groups p.device) parts.dims x.op.packed_b splits)
      ∙ ap (λ z. plan (groups p.device) z splits) (sym parts.result)
      ∙ cut in
    elim ready.cut [
      | inl uncut ↦ absurd (none-not_some splits (sym uncut ∙ asked))
      | inr plain ↦ (parts.dims, splits, parts.called, plain, planned)
    ]

pub record_all-AllPerform :
    (p : MatmulPipeline) (ctx : ℕ) (ops : List MatmulOp) (xs : List Planned) (regions : List Region)
    (done : List Dispatched)
    → AllReady ctx ops xs
    → AllGranted (groups p.device) xs regions
    → record_all p xs regions ≡ ok done
    → AllPerform ctx p.device ops done
unfolding record_all
record_all-AllPerform p ctx [] [] [] done ready granted e =
    subst (AllPerform ctx p.device []) (ok-eq [] done e) tt
record_all-AllPerform p ctx [] [] (region ∷ regions) done ready granted e = elim granted [ ]
record_all-AllPerform p ctx [] (x ∷ xs) regions done ready granted e = elim ready [ ]
record_all-AllPerform p ctx (op ∷ ops) [] regions done ready granted e = elim ready [ ]
record_all-AllPerform p ctx (op ∷ ops) (x ∷ xs) [] done ready granted e = elim granted [ ]
record_all-AllPerform p ctx (op ∷ ops) (x ∷ xs) (none ∷ regions) done (same, ready, others)
      (granted, rest) e =
    let (one, first, e1) = bind-ok (record_whole p x) _ done e in
    let (tail, behind, e2) = bind-ok (record_all p xs regions) _ done e1 in
    subst (AllPerform ctx p.device (op ∷ ops)) (ok-eq (one ∷ tail) done e2) (
      subst (Owned ctx) same ready.owned,
      subst (λ z. Performs p.device z one) same (record_whole-Performs p ctx x one ready first),
      record_all-AllPerform p ctx ops xs regions tail others rest behind,
    )
record_all-AllPerform p ctx (op ∷ ops) (x ∷ xs) (some (d, offset) ∷ regions) done
      (same, ready, others) (granted, rest) e =
    let (tail, behind, e1) = bind-ok (record_all p xs regions) _ done e in
    subst (AllPerform ctx p.device (op ∷ ops)) (ok-eq (split d offset ∷ tail) done e1) (
      subst (Owned ctx) same ready.owned,
      subst (λ z. Performs p.device z (split d offset)) same
          (split-Performs p ctx x d offset ready granted),
      record_all-AllPerform p ctx ops xs regions tail others rest behind,
    )
