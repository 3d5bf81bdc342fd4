-- ===== src/Executor/Agreement.antt =====
-- src/executor/mod.rs against src/executor/recording.rs: an automatic plan's kernel reads the
-- operands as they are stored.
use tensor_ash.Prelude.{
  ℕ, ◌≡◌, refl, sym, ap, ◌∙◌, ◌⊎◌, inl, inr, Bool, true, false, not, ◌&&◌, ◌||◌, Option, none, some,
  List, [], ◌∷◌, Result, ok, err, ◌>>=◌, Result-cases, Option-cases, Bool-cases, arith,
  if◌then◌else◌,
}
use mathlib.Core.Path.{subst}
use tensor_ash.Kernels.{Kernel, KernelSpec, weights_f16, a_f16, is_packed, auto}
use tensor_ash.Routing.{f16w_row_packed_selection, coopmat_selection}
use tensor_ash.Pipeline.{MatmulPipeline, route, in_budget_index, kernel_at}
use tensor_ash.Pipeline.Budget.{traits}
use tensor_ash.Pipeline.Storage.{coopmat-traits}
use tensor_ash.Matmul.{MatmulOp}
use tensor_ash.Matmul.Epilogues
use tensor_ash.Matmul.Resolution.{ResolvedMatmul}
use tensor_ash.Executor.Demotion.{demote_epilogue-Reads, demote_fusions-Reads}
use tensor_ash.Executor.Reads.{
  result-eq, err-not_ok, Reads, Measured, traits-Reads, route-Reads, in_budget-Reads,
}
use tensor_ash.Matmul.Stores
use tensor_ash.Tensor.{is_f16}
use tensor_ash.Matmul.Resolution.Op.{from_op}
use tensor_ash.Matmul.Resolution.Op.Accepts.{
  from_op-Resolves, from_call-storage, from_op-packed, from_op-a16,
}
use tensor_ash.Executor.{
  OpPlan, plan_matmul, plan_shape, demote_for_op, demote_epilogue, demote_fusions, data_parallel,
  fusions_fit,
}

if-false : {A : Type 0} → (b : Bool) → b ≡ false → (x y : A) → (if b then x else y) ≡ y
if-false b e x y = rw e refl

-- An op that is neither packed nor of f16 activations.
plain_plan-Reads :
    (p : MatmulPipeline) (op : MatmulOp) (r : ResolvedMatmul) (eligible : Bool)
    (plan final : OpPlan)
    → p.selection ≡ auto
    → Measured p.tuned
    → r.packed_b ≡ false
    → r.a_f16 ≡ false
    → plan_matmul p r eligible ≡ ok plan
    → demote_for_op p op r plan ≡ ok final
    → Reads final.kernel r.b_f16 false false
unfolding plan_matmul plan_shape demote_for_op
plain_plan-Reads p op r eligible plan final auto' measured loose full e f =
    elim (Result-cases (route p r.batch r.m r.n r.k r.b_f16)) [
      | inr (x, h) ↦ absurd (err-not_ok (rw (loose, full, h) at e))
      | inl ((kernel, tuned), h) ↦
          let is : kernel ≡ plan.kernel =
            ap (λ z. z.kernel) (result-eq (rw (loose, full, h) at e)) in
          let reads : Reads plan.kernel r.b_f16 false false =
            subst (λ z. Reads z r.b_f16 false false) is
              (route-Reads p r.batch r.m r.n r.k r.b_f16 kernel tuned auto' measured h) in
          let steps : (demote_epilogue p op r plan >>= demote_fusions p op r) ≡ ok final =
            sym (
              if-false r.packed_b loose (ok plan)
                (demote_epilogue p op r plan >>= demote_fusions p op r))
            ∙ f in
          elim (Result-cases (demote_epilogue p op r plan)) [
            | inr (x, g) ↦ absurd (err-not_ok (rw g at steps))
            | inl (middle, g) ↦
                demote_fusions-Reads p op r middle final
                  (demote_epilogue-Reads p op r plan middle reads g) (rw g at steps)
          ]
    ]

packed-table :
    (traits Kernel.f16w_row_bda_k16_packed ≡ true ∷ false ∷ true ∷ false ∷ [])
    × (traits Kernel.f16w_row_bda_k16_v2_packed ≡ true ∷ false ∷ true ∷ false ∷ [])
unfolding traits weights_f16 a_f16 is_packed tensor_ash.Prelude.contains_text
packed-table = (refl, refl)

packed-traits :
    (k n : ℕ) → traits (f16w_row_packed_selection k n) ≡ true ∷ false ∷ true ∷ false ∷ []
unfolding f16w_row_packed_selection
packed-traits k n = ground (arith, packed-table)

packed_plan-Reads :
    (p : MatmulPipeline) (op : MatmulOp) (r : ResolvedMatmul) (eligible : Bool)
    (plan final : OpPlan)
    → r.packed_b ≡ true
    → plan_matmul p r eligible ≡ ok plan
    → demote_for_op p op r plan ≡ ok final
    → Reads final.kernel true false true
unfolding plan_matmul demote_for_op
packed_plan-Reads p op r eligible plan final packed e f =
    elim (Result-cases (in_budget_index p (f16w_row_packed_selection r.k r.n))) [
      | inr (x, h) ↦ absurd (err-not_ok (rw (packed, h) at e))
      | inl (k, h) ↦
          let is : data_parallel k ≡ final =
            result-eq (rw (packed, h) at e) ∙ result-eq (rw packed at f) in
          subst (λ z. Reads z.kernel true false true) is
            (in_budget-Reads p (f16w_row_packed_selection r.k r.n) k true true false
              (packed-traits r.k r.n) h)
    ]

unfused_fits :
    (op : MatmulOp) (row : KernelSpec)
    → op.normed_a ≡ none
    → Stores.has_none op.store ≡ true
    → fusions_fit op row ≡ true
unfolding fusions_fit
unfused_fits op row n s = rw (n, s) refl

unfused_stays :
    (p : MatmulPipeline) (op : MatmulOp) (r : ResolvedMatmul) (plan final : OpPlan)
    → Epilogues.has_none op.epilogue ≡ true
    → op.normed_a ≡ none
    → Stores.has_none op.store ≡ true
    → demote_for_op p op r plan ≡ ok final
    → final ≡ plan
unfolding demote_for_op demote_epilogue demote_fusions
unfused_stays p op r plan final e n s d = elim (Result-cases (kernel_at p plan.kernel)) [
  | inl (row, m) ↦ ground (arith, unfused_fits op row n s)
  | inr (x, m) ↦ ground arith
]

a16_plan-cases :
    (p : MatmulPipeline) (r : ResolvedMatmul) (eligible : Bool) (plan : OpPlan)
    → r.packed_b ≡ false
    → r.a_f16 ≡ true
    → plan_matmul p r eligible ≡ ok plan
    → (k : Kernel) × (coopmat_selection r.batch r.m r.n true ≡ some k) × (plan ≡ data_parallel k)
unfolding plan_matmul
a16_plan-cases p r eligible plan loose half e =
    elim (Bool-cases (not (p.device.coopmat && p.device.f16_storage))) [
      | inl lacks ↦ absurd (err-not_ok (rw (loose, half, lacks) at e))
      | inr has ↦ elim (Option-cases (coopmat_selection r.batch r.m r.n true)) [
        | inl none' ↦ absurd (err-not_ok (rw (loose, half, has, none') at e))
        | inr (k, h) ↦ (k, h, sym (result-eq (rw (loose, half, has, h) at e)))
      ]
    ]

-- With f16 activations nothing is fused, and the plan stays.
a16_plan-Reads :
    (p : MatmulPipeline) (op : MatmulOp) (r : ResolvedMatmul) (eligible : Bool)
    (plan final : OpPlan)
    → r.packed_b ≡ false
    → r.a_f16 ≡ true
    → Epilogues.has_none op.epilogue ≡ true
    → op.normed_a ≡ none
    → Stores.has_none op.store ≡ true
    → plan_matmul p r eligible ≡ ok plan
    → demote_for_op p op r plan ≡ ok final
    → Reads final.kernel true true false
a16_plan-Reads p op r eligible plan final loose half e n s planned' demoted =
    let (k, h, is) = a16_plan-cases p r eligible plan loose half planned' in
    let stays : final ≡ plan = unfused_stays p op r plan final e n s demoted in
    subst (λ z. Reads z.kernel true true false) (sym (stays ∙ is))
      (traits-Reads k true true false false (coopmat-traits r.batch r.m r.n true k h))

-- Where the device is left to choose (no kernel is forced, and every tuned winner was measured for
-- its storage type), a resolved op that can be planned at all ends on a kernel that reads B and the
-- activations at the storage types of the op's tensors, and B packed exactly if the op says so:
-- with and without fusions, packed weights or f16 activations.
pub plan-Reads :
    (p : MatmulPipeline) (op : MatmulOp) (r : ResolvedMatmul) (eligible : Bool)
    (plan final : OpPlan)
    → p.selection ≡ auto
    → Measured p.tuned
    → from_op op ≡ ok r
    → plan_matmul p r eligible ≡ ok plan
    → demote_for_op p op r plan ≡ ok final
    → Reads final.kernel r.b_f16 r.a_f16 op.packed_b
plan-Reads p op r eligible plan final auto' measured resolved' planned' demoted =
    elim (Bool-cases op.packed_b) [
      | inl packed ↦
          let (is, _, _, b, a, _) = from_op-packed op r resolved' packed in
          rw (b, a, packed) (packed_plan-Reads p op r eligible plan final is planned' demoted)
      | inr unpacked ↦
          let parts = from_op-Resolves op r resolved' in
          let (a_is, b_is, _) = from_call-storage op.call parts.dims parts.called in
          let loose : r.packed_b ≡ false = ap (λ z. z.packed_b) parts.result ∙ unpacked in
          let a_of : r.a_f16 ≡ is_f16 op.call.a.dtype = ap (λ z. z.a_f16) parts.result ∙ a_is in
          let b_of : r.b_f16 ≡ is_f16 op.call.b.dtype = ap (λ z. z.b_f16) parts.result ∙ b_is in
          elim (Bool-cases r.a_f16) [
            | inl half ↦
                let (b, _, _, _, _, e, n, s, _) = from_op-a16 op r resolved' (sym a_of ∙ half) in
                rw (b_of ∙ b, half, unpacked)
                  (a16_plan-Reads p op r eligible plan final loose half e n s planned' demoted)
            | inr full ↦
                rw (full, unpacked)
                  (plain_plan-Reads p op r eligible plan final auto' measured loose full planned'
                    demoted)
          ]
    ]
