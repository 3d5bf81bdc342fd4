-- ===== src/Executor/Demotion.antt =====
-- src/executor/mod.rs: the two steps of demote_for_op keep what the kernel reads.
use tensor_ash.Prelude.{
  ◌≡◌, refl, sym, ◌⊎◌, inl, inr, Bool, true, false, not, ◌&&◌, Result, ok, err, Result-cases,
  Bool-cases, arith, if◌then◌else◌,
}
use mathlib.Core.Path.{subst}
use tensor_ash.Kernels.{Kernel, supports_epilogue}
use tensor_ash.Pipeline.{
  MatmulPipeline, PlanError, is_auto, heuristic_kernel_index, epilogue_fallback_index, kernel_at,
}
use tensor_ash.Matmul.{MatmulOp}
use tensor_ash.Matmul.Epilogues
use tensor_ash.Matmul.Resolution.{ResolvedMatmul}
use tensor_ash.Executor.Reads.{result-eq, err-not_ok, Reads, heuristic-Reads, fallback-Reads}
use tensor_ash.Executor.{
  OpPlan, demote_epilogue, demote_fusions, reroute, planned, data_parallel, fusions_fit,
}

planned-cases :
    (b : Bool) (q : Result PlanError Kernel) (plan final : OpPlan)
    → (if b then planned q else ok plan) ≡ ok final
    → (final ≡ plan) ⊎ ((k : Kernel) × (q ≡ ok k) × (final ≡ data_parallel k))
planned-cases false q plan final e = inl (ground (arith, e))
planned-cases true (err x) plan final e = absurd (ground (arith, e))
planned-cases true (ok k) plan final e = inr (k, refl, ground (arith, e))

pub demote_epilogue-cases :
    (p : MatmulPipeline) (op : MatmulOp) (r : ResolvedMatmul) (plan final : OpPlan)
    → demote_epilogue p op r plan ≡ ok final
    → (final ≡ plan)
      ⊎ ((k : Kernel) × (epilogue_fallback_index p r.batch r.m r.n r.k r.b_f16 ≡ ok k)
          × (final ≡ data_parallel k))
unfolding demote_epilogue
demote_epilogue-cases p op r plan final e =
    let q = epilogue_fallback_index p r.batch r.m r.n r.k r.b_f16 in
    elim (Bool-cases (Epilogues.has_none op.epilogue)) [
      | inl c ↦ inl (sym (result-eq (rw c at e)))
      | inr c ↦ elim (Result-cases (kernel_at p plan.kernel)) [
        | inl (s, m) ↦
            planned-cases (not (supports_epilogue s) && is_auto p) q plan final (rw (c, m) at e)
        | inr (x, m) ↦ absurd (err-not_ok (rw (c, m) at e))
      ]
    ]

reroute-cases :
    (p : MatmulPipeline) (op : MatmulOp) (r : ResolvedMatmul) (plan final : OpPlan)
    → reroute p op r plan ≡ ok final
    → (final ≡ plan)
      ⊎ ((k : Kernel) × (heuristic_kernel_index p r.batch r.m r.n r.k r.b_f16 ≡ ok k)
          × (final ≡ data_parallel k))
unfolding reroute
reroute-cases p op r plan final e =
    elim (Result-cases (heuristic_kernel_index p r.batch r.m r.n r.k r.b_f16)) [
      | inl (k, h) ↦ elim (Result-cases (kernel_at p k)) [
        | inl (s, m) ↦ elim (Bool-cases (fusions_fit op s)) [
          | inl fits ↦ inr (k, h, sym (result-eq (rw (h, m, fits) at e)))
          | inr misfits ↦ inl (sym (result-eq (rw (h, m, misfits) at e)))
        ]
        | inr (x, m) ↦ absurd (err-not_ok (rw (h, m) at e))
      ]
      | inr (x, h) ↦ absurd (err-not_ok (rw h at e))
    ]

pub demote_fusions-cases :
    (p : MatmulPipeline) (op : MatmulOp) (r : ResolvedMatmul) (plan final : OpPlan)
    → demote_fusions p op r plan ≡ ok final
    → (final ≡ plan)
      ⊎ ((k : Kernel) × (heuristic_kernel_index p r.batch r.m r.n r.k r.b_f16 ≡ ok k)
          × (final ≡ data_parallel k))
unfolding demote_fusions
demote_fusions-cases p op r plan final e = elim (Result-cases (kernel_at p plan.kernel)) [
  | inl (s, m) ↦ elim (Bool-cases (not (fusions_fit op s) && is_auto p)) [
    | inl c ↦ reroute-cases p op r plan final (rw (m, c) at e)
    | inr c ↦ inl (sym (result-eq (rw (m, c) at e)))
  ]
  | inr (x, m) ↦ absurd (err-not_ok (rw m at e))
]

pub demote_epilogue-Reads :
    (p : MatmulPipeline) (op : MatmulOp) (r : ResolvedMatmul) (plan final : OpPlan)
    → Reads plan.kernel r.b_f16 false false
    → demote_epilogue p op r plan ≡ ok final
    → Reads final.kernel r.b_f16 false false
demote_epilogue-Reads p op r plan final reads e = elim (demote_epilogue-cases p op r plan final e) [
  | inl same ↦ subst (λ z. Reads z.kernel r.b_f16 false false) (sym same) reads
  | inr (k, h, is) ↦
      subst (λ z. Reads z.kernel r.b_f16 false false) (sym is)
        (fallback-Reads p r.batch r.m r.n r.k r.b_f16 k h)
]

pub demote_fusions-Reads :
    (p : MatmulPipeline) (op : MatmulOp) (r : ResolvedMatmul) (plan final : OpPlan)
    → Reads plan.kernel r.b_f16 false false
    → demote_fusions p op r plan ≡ ok final
    → Reads final.kernel r.b_f16 false false
demote_fusions-Reads p op r plan final reads e = elim (demote_fusions-cases p op r plan final e) [
  | inl same ↦ subst (λ z. Reads z.kernel r.b_f16 false false) (sym same) reads
  | inr (k, h, is) ↦
      subst (λ z. Reads z.kernel r.b_f16 false false) (sym is)
        (heuristic-Reads p r.batch r.m r.n r.k r.b_f16 k h)
]
