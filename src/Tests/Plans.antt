-- ===== src/Tests/Plans.antt =====
-- src/executor/: split-K, plans and recorded dispatches at concrete inputs.
use tensor_ash.Prelude.{
  ℕ, ◌+◌, ◌%◌, ◌≡◌, ◌≤◌, refl, List, [], ◌∷◌, true, false, Option, some, arith, ok, get_elem?,
  div_ceil, checked_mul, checked_mul32, checked_add, checked_next_multiple_of, contains_text,
  ends_with,
}
use tensor_ash.Kernels.{Kernel, spec, auto, weights_f16, a_f16, is_packed, supports_epilogue}
use tensor_ash.Routing.{discrete_gpu, f16w_row_packed_selection, f16w_row_uses_k16}
use tensor_ash.Pipeline.{Device, MatmulPipeline, in_budget_index, in_budget}
use tensor_ash.Matmul.Epilogues
use tensor_ash.Matmul.Resolution.{ResolvedMatmul, checked_product, product_from}
use tensor_ash.SplitK2.{
  Groups, auto_route_fits, auto_fits_limits, plan, validate_scratch_geometry, auto_scratch_cap,
  assign_scratch, checked_auto_scratch_end,
}
use tensor_ash.SplitK2.Auto.{auto_route_fits-plan, dispatch_of}
use tensor_ash.SplitK2.Scratch.{assign_scratch-disjoint}
use tensor_ash.Executor.{
  OpPlan, data_parallel, plan_matmul, demote_for_op, record_checks, check_kernel, check_fusions,
  check_grid, is_aligned,
}
use tensor_ash.Executor.Reads.{Reads}
use tensor_ash.Executor.Agreement.{plan-Reads}
use tensor_ash.Executor.Recording.{record_checks-Covers, Matches, Aligned, Covers, Within}
use tensor_ash.Tests.{row_dims, packed_op}
use tensor_ash.Tests.Packed.{packed_resolves}

-- A deep product with a small output.
abbrev deep : ResolvedMatmul
deep = record {
  m = 64;
  n = 64;
  k = 4096;
  batch = 1;
  batch_stride_a = 0;
  batch_stride_b = 0;
  batch_stride_c = 0;
  total_flops = 33554432;
  b_f16 = false;
  a_f16 = false;
  packed_b = false;
}

abbrev limits : Groups
limits = record { x = 65535; y = 65535; z = 65535 }

deep_fits : auto_route_fits limits 1 64 64 4096 16 ≡ true
unfolding auto_route_fits auto_fits_limits checked_mul checked_mul32 div_ceil
deep_fits = refl

auto_route_fits-plan_example :
    (plan limits deep 16 ≡ ok (dispatch_of deep 16))
    × ((dispatch_of deep 16).scratch_bytes ≤ auto_scratch_cap)
    × ((dispatch_of deep 16).gx ≤ limits.x)
    × ((dispatch_of deep 16).gy ≤ limits.y)
    × ((dispatch_of deep 16).gz ≤ limits.z)
auto_route_fits-plan_example = auto_route_fits-plan limits deep 16 deep_fits

abbrev two_deep : List (ResolvedMatmul × Option ℕ)
two_deep = (deep, some 16) ∷ (deep, some 16) ∷ []

first_region :
    get_elem? (assign_scratch limits 0 two_deep).0 0 ≡ some (some (dispatch_of deep 16, 0))
unfolding assign_scratch plan validate_scratch_geometry checked_product product_from checked_mul
    checked_mul32 checked_auto_scratch_end checked_add checked_next_multiple_of div_ceil
first_region = refl

second_region :
    get_elem? (assign_scratch limits 0 two_deep).0 1 ≡ some (some (dispatch_of deep 16, 262144))
unfolding assign_scratch plan validate_scratch_geometry checked_product product_from checked_mul
    checked_mul32 checked_auto_scratch_end checked_add checked_next_multiple_of div_ceil
second_region = refl

assign_scratch-disjoint_example :
    (0 + (dispatch_of deep 16).scratch_bytes ≤ 262144)
    × (262144 + (dispatch_of deep 16).scratch_bytes ≤ auto_scratch_cap)
    × (0 % 16 ≡ 0)
    × (262144 % 16 ≡ 0)
assign_scratch-disjoint_example =
    assign_scratch-disjoint limits two_deep 0 1 (dispatch_of deep 16) (dispatch_of deep 16) 0 262144
      (omega arith) first_region second_region

abbrev device : Device
device = record {
  bda = true;
  coopmat = true;
  f16_storage = true;
  kind = discrete_gpu;
  max_x = 65535;
  max_y = 65535;
  max_z = 65535;
}

abbrev pipeline : MatmulPipeline
pipeline = record {
  device = device;
  present = λ k. true;
  selection = auto;
  auto_min_large_tiles = 256;
  tuned = [];
}

abbrev packed_plan : OpPlan
packed_plan = data_parallel Kernel.f16w_row_bda_k16_packed

packed_planned : plan_matmul pipeline (row_dims true) false ≡ ok packed_plan
unfolding plan_matmul in_budget_index in_budget f16w_row_packed_selection f16w_row_uses_k16
packed_planned = refl

packed_kept : demote_for_op pipeline packed_op (row_dims true) packed_plan ≡ ok packed_plan
unfolding demote_for_op
packed_kept = refl

plan-Reads_example : Reads Kernel.f16w_row_bda_k16_packed true false true
plan-Reads_example =
    plan-Reads pipeline packed_op (row_dims true) false packed_plan packed_plan refl tt
      packed_resolves packed_planned packed_kept

recorded :
    record_checks device packed_op (row_dims true) (spec Kernel.f16w_row_bda_k16_packed)
    ≡ ok (2, 1, 1)
unfolding record_checks check_kernel check_fusions check_grid is_aligned weights_f16 a_f16 is_packed
    supports_epilogue contains_text ends_with Epilogues.has_none div_ceil
recorded = refl

record_checks-Covers_example :
    Matches (spec Kernel.f16w_row_bda_k16_packed) (row_dims true)
    × Aligned (spec Kernel.f16w_row_bda_k16_packed) (row_dims true)
    × Covers (spec Kernel.f16w_row_bda_k16_packed) 1 64 2 1
    × Within device 2 1 1
    × (1 ≡ (row_dims true).batch)
record_checks-Covers_example =
    record_checks-Covers device packed_op (row_dims true) Kernel.f16w_row_bda_k16_packed 2 1 1
      recorded
