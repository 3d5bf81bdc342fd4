-- ===== src/Pipeline.antt =====
-- src/pipeline/mod.rs and src/executor/mod.rs: the compiled kernels of a device and the route of an
-- op. A slot of the registry is empty where the device's features or its shared-memory budget gate
-- the kernel off; `present` says which slots are filled. Kernel indices are the kernels themselves.
pub mod Budget
pub mod Storage
pub mod Variants
pub mod Specialized
use package.tensor_ash.Prelude.{
  ℕ, zero, suc, ◌%◌, Bool, true, false, ◌&&◌, ◌||◌, not, Option, none, some, is_none, is_some, List,
  [], ◌∷◌, Result, ok, err, ◌>>=◌, if◌then◌else◌, ltb, leb, ◌==◌, div_ceil, is_multiple_of,
  contains_text, ends_with, starts_with,
}
use text.Mathlib.Text.{◌==◌ as str_eq}
use package.tensor_ash.Kernels
use package.tensor_ash.Kernels.{
  Kernel, KernelSelection, KernelSpec, auto, pick, spec, concrete, weights_f16, a_f16,
  supports_epilogue, supports_normed_a, supports_store, is_packed,
}
use package.tensor_ash.Routing.{
  DeviceKind, auto_select_kernel, f16w_row_selection, f16w_row_packed_selection, coopmat_selection,
  to_f16w, maybe_to_bda,
}
use package.tensor_ash.Matmul.{MatmulOp}
use package.tensor_ash.Matmul.Epilogues
use package.tensor_ash.Matmul.Stores
use package.tensor_ash.Matmul.Resolution.{ResolvedMatmul}

-- What the routes read of `VulkanContext`.
pub record Device : Type 0 where
  pub bda : Bool
  pub coopmat : Bool
  pub f16_storage : Bool
  pub kind : DeviceKind
  pub max_x : ℕ
  pub max_y : ℕ
  pub max_z : ℕ

pub record TuneKey : Type 0 where
  pub batch : ℕ
  pub m : ℕ
  pub n : ℕ
  pub k : ℕ
  pub b_f16 : Bool

pub record TuneEntry : Type 0 where
  pub kernel : Kernel
  pub splitk2_splits : Option ℕ

pub record MatmulPipeline : Type 0 where
  pub device : Device
  pub present : Kernel → Bool
  pub selection : KernelSelection
  pub auto_min_large_tiles : ℕ
  pub tuned : List (TuneKey × TuneEntry)

-- `gated_off` is the panic of an empty slot and `not_aligned` the one of an `expect` on 64-aligned
-- dimensions; `out_of_fuel` is the model's own.
pub data PlanError : Type 0 where
  gated_off not_aligned out_of_fuel a16_unsupported : PlanError

-- The match of `in_budget_index`: the sibling that takes over for a kernel whose slot is empty, and
-- `none` where the source panics.
unfoldable pub demote : Kernel → Option Kernel
demote Kernel.m128n64k64 = some Kernel.m128n64
demote Kernel.m128n64k64_bda_v4 = some Kernel.m128n64_bda_v4
demote Kernel.f16w_m128n64k64_bda_v4 = some Kernel.f16w_small_bda_v4
demote Kernel.large = some Kernel.small
demote Kernel.k64 = some Kernel.small
demote Kernel.m128n64 = some Kernel.small
demote Kernel.m64n128 = some Kernel.small
demote Kernel.large_bda_v4 = some Kernel.small_bda_v4
demote Kernel.k64_bda_v4_tm8_tn4 = some Kernel.small_bda_v4
demote Kernel.m128n64_bda_v4 = some Kernel.small_bda_v4
demote Kernel.m64n128_bda_v4 = some Kernel.small_bda_v4
demote Kernel.f16w_large_bda_v4 = some Kernel.f16w_small_bda_v4
demote Kernel.f16w_k64_bda_v4 = some Kernel.f16w_small_bda_v4
demote Kernel.f16w_coopmat_m64 = some Kernel.f16w_coopmat
demote Kernel.f16w_coopmat_m64n128 = some Kernel.f16w_coopmat
demote Kernel.f16w_coopmat_m128n64 = some Kernel.f16w_coopmat
demote Kernel.f16w_a16_coopmat_m64 = some Kernel.f16w_a16_coopmat
demote Kernel.f16w_a16_coopmat_m64n128 = some Kernel.f16w_a16_coopmat
demote Kernel.f16w_a16_coopmat_m128n64 = some Kernel.f16w_a16_coopmat
demote _ = none

-- The loop of `in_budget_index`, with fuel.
unfoldable pub in_budget : ℕ → (Kernel → Bool) → Kernel → Result PlanError Kernel
in_budget zero present k = err out_of_fuel
in_budget (suc fuel) present k =
    let next : Result PlanError Kernel = elim (demote k) [
      | none ↦ err gated_off
      | some s ↦ in_budget fuel present s
    ] in
    if present k then ok k else next

unfoldable pub in_budget_index : MatmulPipeline → Kernel → Result PlanError Kernel
in_budget_index p k = in_budget 3 p.present k

-- The specialised row, column and outer-product kernels of `heuristic_kernel_index`.
unfoldable pub gemv_choice : ℕ → ℕ → ℕ → Bool → Option Kernel
gemv_choice m n k b_f16 =
    if m == 1
    then some (if b_f16 then f16w_row_selection k n else Kernel.row_bda)
    else if n == 1 && not b_f16
    then some Kernel.col_bda
    else if k == 1 && not b_f16
    then some Kernel.outer_bda
    else none

unfoldable pub grid_fits : Device → KernelSpec → ℕ → ℕ → ℕ → Bool
grid_fits d s batch m n =
    leb (div_ceil n s.tile_n) d.max_x && leb (div_ceil m s.tile_m) d.max_y && leb batch d.max_z

abbrev fitting : Device → ℕ → ℕ → ℕ → Option Kernel → Option Kernel
fitting d batch m n none = none
fitting d batch m n (some k) = if grid_fits d (spec k) batch m n then some k else none

-- The test for the tensor-core route of f16 weights.
unfoldable pub coopmat_fits : Device → ℕ → ℕ → ℕ → Bool
coopmat_fits d m n k =
    d.coopmat
    && is_multiple_of k 32
    && leb 128 m
    && leb 128 n
    && is_multiple_of m 64
    && is_multiple_of n 64

-- The tile class of the general path, promoted to its family.
unfoldable pub general_choice : MatmulPipeline → ℕ → ℕ → ℕ → ℕ → Bool → Option Kernel
general_choice p batch m n k b_f16 =
    let tile = auto_select_kernel batch m n k p.auto_min_large_tiles in
    if b_f16
    then if coopmat_fits p.device m n k
      then coopmat_selection batch m n false
      else some (to_f16w tile)
    else some (if p.device.bda then maybe_to_bda tile else tile)

unfoldable pub gemv_route : MatmulPipeline → ℕ → ℕ → ℕ → ℕ → Bool → Option Kernel
gemv_route p batch m n k b_f16 =
    if p.device.bda then fitting p.device batch m n (gemv_choice m n k b_f16) else none

abbrev in_budget_or_panic : MatmulPipeline → Option Kernel → Result PlanError Kernel
in_budget_or_panic p none = err not_aligned
in_budget_or_panic p (some selection) = in_budget_index p selection

-- `heuristic_kernel_index`.
unfoldable pub heuristic_kernel_index :
    MatmulPipeline → ℕ → ℕ → ℕ → ℕ → Bool → Result PlanError Kernel
heuristic_kernel_index p batch m n k b_f16 =
    let general = in_budget_or_panic p (general_choice p batch m n k b_f16) in
    elim (gemv_route p batch m n k b_f16) [ some k' ↦ ok k' | none ↦ general ]

abbrev pub bool_eq : Bool → Bool → Bool
bool_eq true b = b
bool_eq false b = not b

unfoldable pub key_eq : TuneKey → TuneKey → Bool
key_eq a b = a.batch == b.batch && a.m == b.m && a.n == b.n && a.k == b.k && bool_eq a.b_f16 b.b_f16

unfoldable pub find_tuned : TuneKey → List (TuneKey × TuneEntry) → Option TuneEntry
unfolding key_eq
find_tuned key [] = none
find_tuned key ((j, e) ∷ rest) = if key_eq j key then some e else find_tuned key rest

-- `MatmulPipeline::route`: the kernel, and the tuned split-K verdict.
unfoldable pub route :
    MatmulPipeline → ℕ → ℕ → ℕ → ℕ → Bool → Result PlanError (Kernel × Option (Option ℕ))
route p batch m n k b_f16 =
    let key : TuneKey = record { batch = batch; m = m; n = n; k = k; b_f16 = b_f16 } in
    elim p.selection [
      | auto ↦ elim (find_tuned key p.tuned) [
        | some entry ↦ ok (entry.kernel, some entry.splitk2_splits)
        | none ↦ heuristic_kernel_index p batch m n k b_f16 >>= λ k'. ok (k', none)
      ]
      | pick explicit ↦ ok (explicit, none)
    ]

-- `kernel_at`, which panics at an empty slot.
unfoldable pub kernel_at : MatmulPipeline → Kernel → Result PlanError KernelSpec
kernel_at p k = if p.present k then ok (spec k) else err gated_off

unfoldable pub is_auto : MatmulPipeline → Bool
is_auto p = elim p.selection [ auto ↦ true | pick k ↦ false ]

-- `epilogue_fallback_index`.
unfoldable pub epilogue_fallback_index :
    MatmulPipeline → ℕ → ℕ → ℕ → ℕ → Bool → Result PlanError Kernel
epilogue_fallback_index p batch m n k b_f16 =
    let tile = auto_select_kernel batch m n k p.auto_min_large_tiles in
    let sibling = in_budget_index p (if b_f16 then to_f16w tile else maybe_to_bda tile) in
    do
      index ← heuristic_kernel_index p batch m n k b_f16
      s ← kernel_at p index
      if supports_epilogue s
          then ok index
          else if b_f16
              && is_multiple_of m 128
              && is_multiple_of n 128
              && is_multiple_of k 32
              && leb 256 m
              && leb 256 n
              && p.present Kernel.f16w_cm2
          then ok Kernel.f16w_cm2
          else sibling

-- The filter of `tune_candidate_indices`.
unfoldable pub is_candidate : ℕ → ℕ → ℕ → Bool → KernelSpec → Bool
is_candidate m n k b_f16 s =
    let tensor_core = contains_text s.name "coopmat" || contains_text s.name "cm2" in
    let aligned =
      tensor_core && is_multiple_of m 128 && is_multiple_of n 128 && is_multiple_of k 32 in
    if contains_text s.name "coopmat" && not (ends_with s.name "_aligned") || is_packed s
    then false
    else not s.uses_descriptors
      && (not (ends_with s.name "_aligned") || aligned)
      && (not tensor_core || aligned)
      && bool_eq (weights_f16 s) b_f16
      && not (a_f16 s)
      && (m == 1 || not (contains_text s.name "row_bda"))
      && (n == 1 || not (str_eq s.name "col_bda"))
      && (k == 1 || not (str_eq s.name "outer_bda"))

unfoldable pub keep_candidates : (Kernel → Bool) → List Kernel → List Kernel
keep_candidates keep [] = []
keep_candidates keep (k ∷ ks) =
    if keep k then k ∷ keep_candidates keep ks else keep_candidates keep ks

unfoldable pub tune_candidate_indices : MatmulPipeline → ℕ → ℕ → ℕ → Bool → List Kernel
unfolding keep_candidates is_candidate
tune_candidate_indices p m n k b_f16 =
    if p.device.bda
    then keep_candidates (λ i. p.present i && is_candidate m n k b_f16 (spec i)) concrete
    else []
