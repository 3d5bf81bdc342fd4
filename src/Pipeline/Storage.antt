-- ===== src/Pipeline/Storage.antt =====
-- src/pipeline/mod.rs: the heuristic's kernels read the storage types of the op.
use tensor_ash.Prelude.{
  ℕ, ◌%◌, ◌≡◌, refl, ◌∙◌, ◌⊎◌, inl, inr, Bool, true, false, not, Option, none, some, Option-cases,
  Bool-cases, List, [], ◌∷◌, ok, err, arith, contains_text, if◌then◌else◌, some-eq,
}
use tensor_ash.Kernels.{Kernel, large, weights_f16, a_f16, is_packed}
use tensor_ash.Routing.{
  auto_select_kernel, single_plane_kernel, f16w_row_selection, to_f16w, maybe_to_bda,
  coopmat_selection,
}
use tensor_ash.Routing.Tiles.{coopmat_selection-divides}
use tensor_ash.Pipeline.{
  MatmulPipeline, gemv_choice, gemv_route, general_choice, coopmat_fits, heuristic_kernel_index,
  gated_off,
}
use tensor_ash.Pipeline.Budget.{traits, in_budget_index-lands}

-- The six tile classes that the heuristic knows.
unfoldable pub is_tile : Kernel → Bool
is_tile Kernel.large = true
is_tile Kernel.small = true
is_tile Kernel.m128n64 = true
is_tile Kernel.m128n64k64 = true
is_tile Kernel.m64n32 = true
is_tile Kernel.k64 = true
is_tile _ = false

abbrev tile_or_none : Option Kernel → Bool
tile_or_none none = true
tile_or_none (some k) = is_tile k

single_plane-tile : (m n k : ℕ) → tile_or_none (single_plane_kernel m n k) ≡ true
unfolding single_plane_kernel is_tile
single_plane-tile m n k = ground arith

pub auto_select-tile : (b m n k t : ℕ) → is_tile (auto_select_kernel b m n k t) ≡ true
unfolding auto_select_kernel is_tile
auto_select-tile b m n k t = ground (arith, single_plane-tile m n k)

-- The traits of f32 and f16 families; `bound` says whether descriptors are used.
abbrev pub plain : Bool → Bool → List Bool
plain b_f16 bound = b_f16 ∷ false ∷ false ∷ bound ∷ []

tile-table : (k : Kernel) → (if is_tile k then traits k else plain false true) ≡ plain false true
unfolding is_tile traits weights_f16 a_f16 is_packed contains_text
tile-table large = refl
tile-table _ = refl

pub bda-table :
    (k : Kernel)
    → (if is_tile k then traits (maybe_to_bda k) else plain false false) ≡ plain false false
unfolding is_tile maybe_to_bda traits weights_f16 a_f16 is_packed contains_text
bda-table large = refl
bda-table _ = refl

pub to_f16w-traits : (k : Kernel) → traits (to_f16w k) ≡ plain true false
unfolding to_f16w traits weights_f16 a_f16 is_packed contains_text
to_f16w-traits large = refl
to_f16w-traits _ = refl

gemv-table :
    (traits Kernel.f16w_row_bda_k16 ≡ plain true false)
    × (traits Kernel.f16w_row_bda_k16_v2 ≡ plain true false)
    × (traits Kernel.row_bda ≡ plain false false)
    × (traits Kernel.col_bda ≡ plain false false)
    × (traits Kernel.outer_bda ≡ plain false false)
unfolding traits weights_f16 a_f16 is_packed contains_text
gemv-table = (refl, refl, refl, refl, refl)

pub coopmat-traits :
    (b m n : ℕ) (a16 : Bool) (k : Kernel)
    → coopmat_selection b m n a16 ≡ some k
    → traits k ≡ true ∷ a16 ∷ false ∷ false ∷ []
unfolding traits
coopmat-traits b m n a16 k e = ground (arith, coopmat_selection-divides b m n a16)

-- What the heuristic's kernel for such weights must be like: BDA routes bind no descriptors.
abbrev pub wanted : MatmulPipeline → Bool → List Bool
wanted p true = plain true false
wanted p false = plain false (not p.device.bda)

general_choice-traits :
    (p : MatmulPipeline) (b m n k : ℕ) (b_f16 : Bool) (t : Kernel)
    → general_choice p b m n k b_f16 ≡ some t
    → traits t ≡ wanted p b_f16
unfolding general_choice
general_choice-traits p b m n k true t e = elim (Bool-cases (coopmat_fits p.device m n k)) [
  | inl fits ↦ coopmat-traits b m n false t (rw fits at e)
  | inr misfits ↦
      let tile = auto_select_kernel b m n k p.auto_min_large_tiles in
      let is : to_f16w tile ≡ t = some-eq (rw misfits at e) in rw (← is) (to_f16w-traits tile)
]
general_choice-traits p b m n k false t e =
    let tile = auto_select_kernel b m n k p.auto_min_large_tiles in
    let is = auto_select-tile b m n k p.auto_min_large_tiles in
    let bound : traits tile ≡ plain false true = rw is at (tile-table tile) in
    let free : traits (maybe_to_bda tile) ≡ plain false false = rw is at (bda-table tile) in
    elim (Bool-cases p.device.bda) [
      | inl bda ↦ let is : maybe_to_bda tile ≡ t = some-eq (rw bda at e) in rw (← is, bda) free
      | inr lacks ↦ let is : tile ≡ t = some-eq (rw lacks at e) in rw (← is, lacks) bound
    ]

-- The test for the tensor-core route has seen that M and N are multiples of 64.
coopmat_fits-aligned :
    (p : MatmulPipeline) (m n k : ℕ)
    → coopmat_fits p.device m n k ≡ true
    → (m % 64 ≡ 0) × (n % 64 ≡ 0)
unfolding coopmat_fits
coopmat_fits-aligned p m n k fits = ground arith

coopmat-chosen :
    (p : MatmulPipeline) (b m n k : ℕ)
    → coopmat_fits p.device m n k ≡ true
    → (t : Kernel) × (coopmat_selection b m n false ≡ some t)
coopmat-chosen p b m n k fits = elim (coopmat_selection-divides b m n false) [
  | inl (_, inl odd) ↦ absurd (omega (arith, (coopmat_fits-aligned p m n k fits).0))
  | inl (_, inr odd) ↦ absurd (omega (arith, (coopmat_fits-aligned p m n k fits).1))
  | inr (t, e, _, _, _) ↦ (t, e)
]

-- The general path always has a tile class: the `expect` on its alignment does not panic.
general_choice-chosen :
    (p : MatmulPipeline) (b m n k : ℕ) (b_f16 : Bool)
    → (t : Kernel) × (general_choice p b m n k b_f16 ≡ some t)
unfolding general_choice
general_choice-chosen p b m n k true = elim (Bool-cases (coopmat_fits p.device m n k)) [
  | inl fits ↦ let (t, e) = coopmat-chosen p b m n k fits in (t, rw fits e)
  | inr misfits ↦ (to_f16w (auto_select_kernel b m n k p.auto_min_large_tiles), rw misfits refl)
]
general_choice-chosen p b m n k false = (_, refl)

gemv_route-traits :
    (p : MatmulPipeline) (b m n k : ℕ) (b_f16 : Bool) (t : Kernel)
    → gemv_route p b m n k b_f16 ≡ some t
    → traits t ≡ wanted p b_f16
unfolding gemv_route gemv_choice f16w_row_selection
gemv_route-traits p b m n k true t e = ground (arith, gemv-table)
gemv_route-traits p b m n k false t e = ground (arith, gemv-table)

-- The heuristic never picks a kernel that would misread the operands: its pick reads B at the
-- storage type of the weights, A and C as f32, B unpacked, and uses descriptor sets only for f32
-- weights on a device with no buffer addresses. It fails only with a gated-off kernel: the
-- `expect` on 64-aligned dimensions, whose panic is another error, is never reached.
pub heuristic_kernel_index-traits :
    (p : MatmulPipeline) (b m n k : ℕ) (b_f16 : Bool)
    → (heuristic_kernel_index p b m n k b_f16 ≡ err gated_off)
      ⊎ ((t : Kernel) × (heuristic_kernel_index p b m n k b_f16 ≡ ok t)
          × (traits t ≡ wanted p b_f16))
unfolding heuristic_kernel_index
heuristic_kernel_index-traits p b m n k b_f16 = elim (Option-cases (gemv_route p b m n k b_f16)) [
  | inr (t, e) ↦ inr (t, rw (e, heuristic_kernel_index), gemv_route-traits p b m n k b_f16 t e)
  | inl e ↦
      let (s, f) = general_choice-chosen p b m n k b_f16 in
      elim (in_budget_index-lands p s) [
        | inl (gated, _) ↦ inl (rw (e, f, heuristic_kernel_index) gated)
        | inr (t, lands, _, same) ↦ inr (
          t,
          rw (e, f, heuristic_kernel_index) lands,
          same ∙ general_choice-traits p b m n k b_f16 s f,
        )
      ]
]
