-- ===== src/Executor.antt =====
-- src/executor/mod.rs and src/executor/recording.rs: the plan of a resolved op, and the checks that
-- its kernel must pass before it is recorded.
pub mod Reads
pub mod Demotion
pub mod Recording
pub mod Validation
pub mod Ownership
pub mod Agreement
use package.tensor_ash.Prelude.{
  ℕ, ◌*◌, Bool, true, false, ◌&&◌, ◌||◌, not, Option, none, some, is_none, is_some, Result, ok, err,
  ◌>>=◌, ◌>>◌, bail_if, if◌then◌else◌, ltb, leb, ◌==◌, div_ceil, is_multiple_of, contains_text,
  ends_with,
}
use text.Mathlib.Text.{◌==◌ as str_eq}
use package.tensor_ash.Kernels.{
  Kernel, KernelSpec, spec, weights_f16, a_f16, supports_epilogue, supports_normed_a,
  supports_store, is_packed,
}
use package.tensor_ash.Routing.{
  DeviceKind, discrete_gpu, coopmat_selection, f16w_row_packed_selection,
}
use package.tensor_ash.Pipeline.{
  Device, MatmulPipeline, PlanError, not_aligned, a16_unsupported, bool_eq, route, is_auto,
  in_budget_index, kernel_at, epilogue_fallback_index, heuristic_kernel_index,
}
use package.tensor_ash.SplitK2.{Groups, heuristic_splits, resolve_auto_splits, auto_route_fits}
use package.tensor_ash.Matmul.{MatmulOp}
use package.tensor_ash.Matmul.Epilogues
use package.tensor_ash.Matmul.Stores
use package.tensor_ash.Matmul.Resolution.{ResolvedMatmul}

pub record OpPlan : Type 0 where
  pub kernel : Kernel
  pub splitk2 : Option ℕ

abbrev is_discrete : DeviceKind → Bool
is_discrete discrete_gpu = true
is_discrete _ = false

abbrev pub groups : Device → Groups
groups d = record { x = d.max_x; y = d.max_y; z = d.max_z }

-- The split count of `plan_shape`, from the tuned verdict.
unfoldable pub plan_splits : MatmulPipeline → ℕ → ℕ → ℕ → ℕ → Option (Option ℕ) → Option ℕ
plan_splits p batch m n k tuned =
    let heuristic =
      if is_none tuned && is_discrete p.device.kind then heuristic_splits batch m n k else none in
    elim (resolve_auto_splits tuned heuristic) [
      | none ↦ none
      | some splits ↦
          if auto_route_fits (groups p.device) batch m n k splits then some splits else none
    ]

unfoldable pub plan_shape : MatmulPipeline → ℕ → ℕ → ℕ → ℕ → Bool → Bool → Result PlanError OpPlan
unfolding plan_splits
plan_shape p batch m n k b_f16 eligible = do
  (kernel, tuned) ← route p batch m n k b_f16
  ok (record {
    kernel = kernel;
    splitk2 =
        if eligible && not b_f16 && is_auto p && p.device.bda
        then plan_splits p batch m n k tuned
        else none;
  })

abbrev pub data_parallel : Kernel → OpPlan
data_parallel k = record { kernel = k; splitk2 = none }

abbrev pub planned : Result PlanError Kernel → Result PlanError OpPlan
planned (ok k) = ok (data_parallel k)
planned (err e) = err e

-- `expect("a16 resolution already requires 64-aligned M/N")`: its panic is `not_aligned`.
abbrev pub coopmat_plan : Option Kernel → Result PlanError OpPlan
coopmat_plan none = err not_aligned
coopmat_plan (some k) = ok (data_parallel k)

unfoldable pub plan_matmul : MatmulPipeline → ResolvedMatmul → Bool → Result PlanError OpPlan
plan_matmul p r eligible =
    if r.packed_b
    then planned (in_budget_index p (f16w_row_packed_selection r.k r.n))
    else if r.a_f16
    then if not (p.device.coopmat && p.device.f16_storage)
      then err a16_unsupported
      else coopmat_plan (coopmat_selection r.batch r.m r.n true)
    else plan_shape p r.batch r.m r.n r.k r.b_f16 eligible

-- The closure `fusions_fit`.
unfoldable pub fusions_fit : MatmulOp → KernelSpec → Bool
fusions_fit op s =
    (is_none op.normed_a || supports_normed_a s) && (Stores.has_none op.store || supports_store s)

-- The first step of `demote_for_op`, for the fused epilogue.
unfoldable pub demote_epilogue :
    MatmulPipeline → MatmulOp → ResolvedMatmul → OpPlan → Result PlanError OpPlan
demote_epilogue p op r plan = if Epilogues.has_none op.epilogue then ok plan else do
  s ← kernel_at p plan.kernel
  if not (supports_epilogue s) && is_auto p
      then planned (epilogue_fallback_index p r.batch r.m r.n r.k r.b_f16)
      else ok plan

-- The heuristic's pick, if its kernel fits the fusions.
unfoldable pub reroute :
    MatmulPipeline → MatmulOp → ResolvedMatmul → OpPlan → Result PlanError OpPlan
unfolding fusions_fit
reroute p op r plan = do
  index ← heuristic_kernel_index p r.batch r.m r.n r.k r.b_f16
  row ← kernel_at p index
  ok (if fusions_fit op row then data_parallel index else plan)

-- The second step, for the normed A and the fused store.
unfoldable pub demote_fusions :
    MatmulPipeline → MatmulOp → ResolvedMatmul → OpPlan → Result PlanError OpPlan
unfolding fusions_fit
demote_fusions p op r plan = do
  s ← kernel_at p plan.kernel
  if not (fusions_fit op s) && is_auto p then reroute p op r plan else ok plan

unfoldable pub demote_for_op :
    MatmulPipeline → MatmulOp → ResolvedMatmul → OpPlan → Result PlanError OpPlan
demote_for_op p op r plan =
    if r.packed_b then ok plan else demote_epilogue p op r plan >>= demote_fusions p op r

-- `ensure_kernel_alignment`, as a test.
unfoldable pub is_aligned : KernelSpec → ℕ → ℕ → ℕ → Bool
is_aligned s m n k =
    let v3 = str_eq s.name "v3_128x128_bk8_static" in
    let tile_k = if v3 then 2 * s.tile_k else s.tile_k in
    not (
      (ends_with s.name "_aligned" || contains_text s.name "coopmat" || v3)
      && (not (is_multiple_of m s.tile_m)
          || not (is_multiple_of n s.tile_n)
          || not (is_multiple_of k tile_k)))

pub data RecordError : Type 0 where
  misaligned wrong_b_storage wrong_a_storage no_addresses wrong_packing : RecordError
  no_epilogue no_normed_a no_store grid_exceeds : RecordError

-- The checks of `record_one_matmul` on the kernel, in their order.
unfoldable pub check_kernel : Device → ResolvedMatmul → KernelSpec → Result RecordError (Unit {0})
check_kernel d r s = do
  bail_if (not (is_aligned s r.m r.n r.k)) misaligned
  bail_if (not (bool_eq (weights_f16 s) r.b_f16)) wrong_b_storage
  bail_if (not (bool_eq (a_f16 s) r.a_f16)) wrong_a_storage
  bail_if (r.b_f16 && not d.bda) no_addresses
  bail_if (not (bool_eq r.packed_b (is_packed s))) wrong_packing

-- Those on the fused epilogue, normed A and store.
unfoldable pub check_fusions : Device → MatmulOp → KernelSpec → Result RecordError (Unit {0})
check_fusions d op s = do
  bail_if (not (Epilogues.has_none op.epilogue) && not d.bda) no_addresses
  bail_if (not (Epilogues.has_none op.epilogue) && not (supports_epilogue s)) no_epilogue
  bail_if (is_some op.normed_a && not (supports_normed_a s)) no_normed_a
  bail_if (not (Stores.has_none op.store) && not (supports_store s)) no_store

-- The grid that is dispatched.
unfoldable pub check_grid : Device → ResolvedMatmul → KernelSpec → Result RecordError (ℕ × ℕ × ℕ)
check_grid d r s =
    let gx = div_ceil r.n s.tile_n in
    let gy = div_ceil r.m s.tile_m in
    if ltb d.max_x gx || ltb d.max_y gy || ltb d.max_z r.batch
    then err grid_exceeds
    else ok (gx, gy, r.batch)

-- `record_one_matmul`: its checks, and the grid. The device's own failure to build a pipeline is
-- left out.
unfoldable pub record_checks :
    Device → MatmulOp → ResolvedMatmul → KernelSpec → Result RecordError (ℕ × ℕ × ℕ)
unfolding check_kernel check_fusions check_grid
record_checks d op r s = do check_kernel d r s; check_fusions d op s; check_grid d r s
