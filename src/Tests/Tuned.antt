-- ===== src/Tests/Tuned.antt =====
-- src/executor/tuning.rs at a list of five candidates, and on a device that times every kernel
-- alike.
use tensor_ash.Prelude.{
  ℕ, suc, ◌+◌, ◌-◌, ◌*◌, ◌<◌, ◌≡◌, refl, [], Bool, true, false, some, none, ok, arith, div_ceil,
  contains_text, ends_with, saturating_mul,
}
use tensor_ash.Tuning.{
  candidate_at, median, tune_op, tune_key, tune_splitk2, measure_rounds, measure_round, choose,
  challenger, heuristic_time, sort, insert, keep_fitting, fits_grid, has_kernel,
}
use tensor_ash.Kernels.{Kernel, auto, spec, index, weights_f16, a_f16, is_packed}
use tensor_ash.Routing.{discrete_gpu, f16w_row_selection, f16w_row_uses_k16}
use tensor_ash.Pipeline.{
  MatmulPipeline, TuneEntry, tune_candidate_indices, keep_candidates, is_candidate,
  heuristic_kernel_index, gemv_route, gemv_choice, grid_fits, general_choice, coopmat_fits,
  in_budget_index, in_budget,
}
use tensor_ash.Tests.{row_dims}
use tensor_ash.Tuning.Order.{candidate_at-balanced}
use tensor_ash.Tuning.Choice.{Eligible}
use tensor_ash.Tuning.Records.{tune_op-Eligible}

candidate_at-balanced_example :
    (first : ℕ) × (second : ℕ) × (first < 5)
    × (second < 5)
    × (candidate_at 5 (suc (2 * 1)) first ≡ 3)
    × (candidate_at 5 (suc (suc (2 * 1))) second ≡ 3)
    × ((o : ℕ) → o < 5 → candidate_at 5 (suc (2 * 1)) o ≡ 3 → o ≡ first)
    × ((o : ℕ) → o < 5 → candidate_at 5 (suc (suc (2 * 1))) o ≡ 3 → o ≡ second)
    × (first + second ≡ 5 - 1)
candidate_at-balanced_example = candidate_at-balanced 5 1 3 (omega arith)

abbrev row_only : Kernel → Bool
row_only Kernel.f16w_row_bda_k16_v2 = true
row_only _ = false

abbrev pub tuner : MatmulPipeline
tuner = record {
  device = record {
    bda = true;
    coopmat = false;
    f16_storage = false;
    kind = discrete_gpu;
    max_x = 65535;
    max_y = 65535;
    max_z = 65535;
  };
  present = row_only;
  selection = auto;
  auto_min_large_tiles = 46;
  tuned = [];
}

abbrev entry : TuneEntry
entry = record { kernel = Kernel.f16w_row_bda_k16_v2; splitk2_splits = none }

tuned_run :
    tune_op
      (λ a b. true)
      (λ a b. false)
      (λ k. ok none)
      (λ round place k. ok (some 5))
      (λ splits. ok [])
      2
      tuner
      (row_dims false)
    ≡ ok (tune_key (row_dims false), entry)
unfolding tune_op tune_splitk2 measure_rounds measure_round choose challenger heuristic_time median
    sort insert candidate_at keep_fitting fits_grid has_kernel tune_candidate_indices
    keep_candidates is_candidate heuristic_kernel_index gemv_route gemv_choice grid_fits
    general_choice coopmat_fits index in_budget_index in_budget div_ceil contains_text ends_with
    weights_f16 a_f16 is_packed f16w_row_selection f16w_row_uses_k16 saturating_mul
tuned_run = refl

tune_op-Eligible_example :
    (tune_key (row_dims false) ≡ tune_key (row_dims false))
    × Eligible tuner.device (row_dims false) (spec entry.kernel)
tune_op-Eligible_example =
    tune_op-Eligible (λ a b. true) (λ a b. false) (λ k. ok none) (λ round place k. ok (some 5))
      (λ splits. ok []) 2 tuner (row_dims false) (tune_key (row_dims false)) entry tuned_run
