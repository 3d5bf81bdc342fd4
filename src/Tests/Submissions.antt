-- ===== src/Tests/Submissions.antt =====
-- src/executor/dispatch.rs: a row product that is tuned on its first submission.
use tensor_ash.Prelude.{◌≡◌, refl, [], ◌∷◌, true, false, some, none, ok}
use tensor_ash.Matmul.{new}
use tensor_ash.Submission.{Host, Submitted, whole}
use tensor_ash.MatmulGraph.{dispatch}
use tensor_ash.Submission.{
  run_ops_impl, admit, validate_all, from_ops, tune_first, is_plain, is_tuned, plan_all, plan_op,
  launch, record_and_run, record_all, record_whole, graph_regions, bare,
}
use tensor_ash.Executor.Validation.{
  validate_op_context, validate_call_context, validate_tensor_context, validate_optional,
  validate_destination,
}
use tensor_ash.Matmul.Resolution.Op.{
  from_op, from_call, check_storage, check_packed, validate_epilogue, validate_normed_a,
  validate_store,
}
use tensor_ash.Matmul.Resolution.{
  from_tensor_shape, from_matrix_shapes, batch_stride, checked_flops, checked_product, product_from,
  total_flops, total_flops_from,
}
use tensor_ash.Prelude.{
  checked_mul, checked_add, div_ceil, contains_text, ends_with, saturating_mul,
}
use tensor_ash.Pipeline.{
  find_tuned, key_eq, is_auto, tune_candidate_indices, keep_candidates, is_candidate,
  heuristic_kernel_index, gemv_route, gemv_choice, grid_fits, general_choice, coopmat_fits,
  in_budget_index, in_budget, route, kernel_at,
}
use tensor_ash.Tuning.{
  tune_op, tune_splitk2, measure_rounds, measure_round, choose, challenger, heuristic_time, median,
  sort, insert, candidate_at, keep_fitting, fits_grid, has_kernel,
}
use tensor_ash.Kernels.{Kernel, index, weights_f16, a_f16, is_packed}
use tensor_ash.Routing.{f16w_row_selection, f16w_row_uses_k16}
use tensor_ash.Executor.{
  plan_matmul, plan_shape, plan_splits, demote_for_op, demote_epilogue, demote_fusions, reroute,
  fusions_fit, record_checks, check_kernel, check_fusions, check_grid, is_aligned,
}
use tensor_ash.SplitK2.{assign_scratch}
use tensor_ash.Matmul.Epilogues
use tensor_ash.Submission.Accepted.{run_ops_impl-AllPerform}
use tensor_ash.Submission.Tuned.{run_ops_impl-Measured}
use tensor_ash.Executor.Reads.{Measured}
use tensor_ash.Tests.{row_call}
use tensor_ash.Tests.Tuned.{tuner}
use tensor_ash.Submission.Performed.{AllPerform}

abbrev host : Host
host = record {
  context = 1;
  max_calls_per_submit = 16;
  tune_enabled = true;
  timestamps_supported = true;
  timing = λ op r. record {
    keeps = λ a b. true;
    beats = λ a b. false;
    warmup = λ k. ok none;
    timer = λ round offset k. ok (some 100);
    split_times = λ splits. ok [];
    rounds = 2;
  };
}

abbrev sent : Submitted
sent = record {
  dispatched = whole Kernel.f16w_row_bda_k16_v2 1 1 1 ∷ [];
  commands = dispatch 0 ∷ [];
  n_calls = 1;
  flops = 4096;
}

sends : (run_ops_impl host tuner false (new row_call ∷ [])).1 ≡ ok sent
unfolding run_ops_impl admit validate_all validate_op_context validate_call_context
    validate_tensor_context validate_optional validate_destination from_ops from_op from_call
    check_storage check_packed from_tensor_shape from_matrix_shapes batch_stride checked_flops
    checked_product product_from checked_mul checked_add validate_epilogue validate_normed_a
    validate_store Epilogues.has_none total_flops total_flops_from tune_first is_plain is_tuned
    find_tuned key_eq is_auto tune_op tune_splitk2 measure_rounds measure_round choose challenger
    heuristic_time median sort insert candidate_at keep_fitting fits_grid has_kernel
    tune_candidate_indices keep_candidates is_candidate heuristic_kernel_index gemv_route
    gemv_choice grid_fits general_choice coopmat_fits index in_budget_index in_budget div_ceil
    contains_text ends_with weights_f16 a_f16 is_packed f16w_row_selection f16w_row_uses_k16
    saturating_mul plan_all plan_op plan_matmul plan_shape plan_splits route demote_for_op
    demote_epilogue demote_fusions reroute fusions_fit kernel_at launch record_and_run record_all
    record_whole record_checks check_kernel check_fusions check_grid is_aligned graph_regions
    assign_scratch bare
sends = refl

run_ops_impl-AllPerform_example :
    AllPerform 1 tuner.device (new row_call ∷ []) (whole Kernel.f16w_row_bda_k16_v2 1 1 1 ∷ [])
run_ops_impl-AllPerform_example =
    run_ops_impl-AllPerform host tuner false (new row_call ∷ []) sent sends

run_ops_impl-Measured_example :
    ((run_ops_impl host tuner false (new row_call ∷ [])).0.device ≡ tuner.device)
    × ((run_ops_impl host tuner false (new row_call ∷ [])).0.selection ≡ tuner.selection)
    × Measured (run_ops_impl host tuner false (new row_call ∷ [])).0.tuned
run_ops_impl-Measured_example = run_ops_impl-Measured host tuner false (new row_call ∷ []) tt
