-- ===== src/Submission/Routes.antt =====
-- src/executor/mod.rs: only the plan of an eligible op is cut along K.
use tensor_ash.Prelude.{
  ◌≡◌, sym, ap, ◌∙◌, false, Option, none, some, Result, ok, err, Bool-cases, inl, inr, arith, ◌&&◌,
  bind-ok, ok-eq,
}
use tensor_ash.Kernels.{Kernel}
use tensor_ash.Matmul.{MatmulOp}
use tensor_ash.Matmul.Resolution.{ResolvedMatmul}
use tensor_ash.Pipeline.{MatmulPipeline, PlanError, route}
use tensor_ash.Executor.Demotion.{demote_epilogue-cases, demote_fusions-cases}
use tensor_ash.Executor.{
  OpPlan, plan_shape, plan_matmul, planned, coopmat_plan, demote_for_op, demote_epilogue,
  demote_fusions, reroute,
}

-- A plan that runs every value of K in one dispatch.
abbrev Uncut : OpPlan → Type 0
Uncut plan = plan.splitk2 ≡ none

planned-Uncut : (m : Result PlanError Kernel) (plan : OpPlan) → planned m ≡ ok plan → Uncut plan
planned-Uncut (ok k) plan e = ground arith
planned-Uncut (err x) plan e = ground arith

coopmat-Uncut : (m : Option Kernel) (plan : OpPlan) → coopmat_plan m ≡ ok plan → Uncut plan
coopmat-Uncut none plan e = ground arith
coopmat-Uncut (some k) plan e = ground arith

err-not_ok : {E A : Type 0} {x : E} {a : A} → ◌≡◌ {A = Result E A} (err x) (ok a) → ⊥
err-not_ok e = cc

-- An op that is not eligible for it is not cut along K by its plan.
pub plan_matmul-Uncut :
    (p : MatmulPipeline) (r : ResolvedMatmul) (plan : OpPlan)
    → plan_matmul p r false ≡ ok plan
    → plan.splitk2 ≡ none
unfolding plan_matmul plan_shape
plan_matmul-Uncut p r plan e = elim (Bool-cases r.packed_b) [
  | inl packed ↦ planned-Uncut _ plan (rw packed at e)
  | inr loose ↦ elim (Bool-cases r.a_f16) [
    | inl half ↦ elim (Bool-cases (p.device.coopmat && p.device.f16_storage)) [
      | inl has ↦ coopmat-Uncut _ plan (rw (loose, half, has) at e)
      | inr lacks ↦ absurd (err-not_ok (rw (loose, half, lacks) at e))
    ]
    | inr full ↦
        let (k, _, h) =
          bind-ok (route p r.batch r.m r.n r.k r.b_f16) _ plan (rw (loose, full) at e) in
        ap (λ z. z.splitk2) (sym (ok-eq _ plan h))
  ]
]

-- Demotion keeps a plan's split count or drops it.
pub demote_for_op-Uncut :
    (p : MatmulPipeline) (op : MatmulOp) (r : ResolvedMatmul) (plan final : OpPlan)
    → plan.splitk2 ≡ none
    → demote_for_op p op r plan ≡ ok final
    → final.splitk2 ≡ none
unfolding demote_for_op demote_epilogue demote_fusions reroute
demote_for_op-Uncut p op r plan final uncut e = elim (Bool-cases r.packed_b) [
  | inl packed ↦ ap (λ z. z.splitk2) (sym (ok-eq plan final (rw packed at e))) ∙ uncut
  | inr loose ↦
      let (mid, first, second) =
        bind-ok (demote_epilogue p op r plan) (demote_fusions p op r) final (rw loose at e) in
      let kept : mid.splitk2 ≡ none = elim (demote_epilogue-cases p op r plan mid first) [
        | inl same ↦ ap (λ z. z.splitk2) same ∙ uncut
        | inr (k, _, is) ↦ ap (λ z. z.splitk2) is
      ] in
      elim (demote_fusions-cases p op r mid final second) [
        | inl same ↦ ap (λ z. z.splitk2) same ∙ kept
        | inr (k, _, is) ↦ ap (λ z. z.splitk2) is
      ]
]
