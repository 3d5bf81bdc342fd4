-- ===== src/SplitK2.antt =====
-- src/executor/splitk2.rs and src/executor/dispatch.rs: when a product is cut along K, into how
-- many parts, and where in the scratch buffer the partial planes of a submission go.
pub mod Auto
pub mod Scratch
use package.tensor_ash.Prelude.{
  ℕ, ◌+◌, ◌*◌, ◌/◌, ◌%◌, max, min, Bool, true, false, ◌&&◌, ◌||◌, not, Option, none, some, is_none,
  List, [], ◌∷◌, Result, ok, err, ◌>>=◌, ◌>>◌, bail_if, ok_or, if◌then◌else◌, ltb, leb, ◌==◌,
  div_ceil, checked_mul, checked_add, checked_mul32, checked_next_multiple_of, saturating_mul,
  u32_mod, u32_max, u64_mod,
}
use package.tensor_ash.Matmul.Resolution.{ResolvedMatmul, checked_product}

-- `maxComputeWorkGroupCount`.
pub record Groups : Type 0 where
  pub x : ℕ
  pub y : ℕ
  pub z : ℕ

abbrev pub uses_m128 : ℕ → ℕ → Bool
uses_m128 m n = leb 128 m && leb 128 n

-- The output tile of the stage-1 kernel: `stage1_dispatch_info`, and `pick_stage1`.
abbrev pub stage1_tile : ℕ → ℕ → ℕ
stage1_tile m n = if uses_m128 m n then 128 else 64

-- The least K for the large tile, by the number of tiles.
unfoldable pub least_k : ℕ → Option ℕ
least_k tiles =
    if tiles == 1
    then some 1024
    else if leb 2 tiles && leb tiles 4
    then some 2048
    else if leb 5 tiles && leb tiles 16
    then some 4096
    else none

-- The wanted number of workgroups, and the least K of a part.
unfoldable pub targets : Bool → ℕ → ℕ → Option (ℕ × ℕ)
unfolding least_k
targets true tiles k = elim (least_k tiles) [
  | none ↦ none
  | some min_k ↦
      if ltb k min_k then none else some ((if leb 9 tiles && leb 8192 k then 128 else 64), 128)
]
targets false tiles k = if ltb 4 tiles then none else some (128, 64)

-- `[64, 32, 16, 8, 4].into_iter().find(...)`.
unfoldable pub first_fitting : ℕ → ℕ → List ℕ → Option ℕ
first_fitting wanted max_splits [] = none
first_fitting wanted max_splits (s ∷ rest) =
    let later = first_fitting wanted max_splits rest in
    if leb s wanted && leb s max_splits then some s else later

unfoldable pub heuristic_splits : ℕ → ℕ → ℕ → ℕ → Option ℕ
unfolding first_fitting targets
heuristic_splits batch m n k =
    let large = uses_m128 m n in
    let tile = stage1_tile m n in
    let tiles = saturating_mul (saturating_mul batch (div_ceil m tile)) (div_ceil n tile) in
    if batch == 0 || leb m 1 || leb n 1 || ltb k 1024 then none else elim (targets large tiles k) [
      | none ↦ none
      | some (target_wgs, min_k) ↦
          first_fitting (div_ceil target_wgs tiles)
            (if large && tiles == 1 then max (k / min_k) 16 else k / min_k)
            (64 ∷ 32 ∷ 16 ∷ 8 ∷ 4 ∷ [])
    ]

unfoldable pub default_num_k_splits : ℕ → ℕ → ℕ → ℕ → ℕ → ℕ → ℕ
default_num_k_splits batch m n k tile_m tile_n =
    let tiles =
      saturating_mul (saturating_mul (div_ceil m tile_m) (div_ceil n tile_n)) (max batch 1) in
    if tile_m == 0 || tile_n == 0
    then 1
    else if tiles == 0
    then 1
    else min (min (max (div_ceil 64 tiles) 1) (max (k / 32) 1)) u32_max

-- `resolve_auto_splits`: a measured verdict, also one against splitting, goes first.
abbrev pub resolve_auto_splits : Option (Option ℕ) → Option ℕ → Option ℕ
resolve_auto_splits none heuristic = heuristic
resolve_auto_splits (some verdict) heuristic = verdict

-- `AUTO_SCRATCH_CAP_BYTES`.
abbrev pub auto_scratch_cap : ℕ
auto_scratch_cap = 268435456

unfoldable pub auto_fits_limits : Groups → ℕ → ℕ → ℕ → ℕ → Bool
auto_fits_limits g batch m n splits = elim (checked_mul batch m) [
  | none ↦ false
  | some rows ↦ elim (checked_mul rows n) [
    | none ↦ false
    | some total ↦ elim (checked_mul total splits) [
      | none ↦ false
      | some elements ↦ elim (checked_mul elements 4) [
        | none ↦ false
        | some bytes ↦ elim (checked_mul32 batch splits) [
          | none ↦ false
          | some gz ↦
              leb (div_ceil n (stage1_tile m n)) g.x
              && leb (div_ceil m (stage1_tile m n)) g.y
              && leb gz g.z
              && leb (div_ceil total 1024) g.x
              && leb elements u32_mod
              && leb bytes auto_scratch_cap
        ]
      ]
    ]
  ]
]

unfoldable pub auto_route_fits : Groups → ℕ → ℕ → ℕ → ℕ → ℕ → Bool
unfolding auto_fits_limits
auto_route_fits g batch m n k splits =
    if batch == 0 || m == 0 || n == 0 || not (leb 2 splits && leb splits 65535) || ltb k splits
    then false
    else auto_fits_limits g batch m n splits

pub record SplitK2Dispatch : Type 0 where
  pub splits : ℕ
  pub gx : ℕ
  pub gy : ℕ
  pub gz : ℕ
  pub mn : ℕ
  pub total : ℕ
  pub reduce_groups : ℕ
  pub scratch_bytes : ℕ
  pub use_m128 : Bool

pub data SplitError : Type 0 where
  splits_out_of_range exceeds_k scratch_overflow scratch_addressing : SplitError
  grid_overflow grid_exceeds output_overflow output_addressing reduce_exceeds : SplitError

unfoldable pub validate_scratch_geometry : ℕ → ℕ → ℕ → ℕ → ℕ → Result SplitError (Unit {0})
validate_scratch_geometry batch m n k splits = do
  bail_if (ltb k splits) exceeds_k
  elements ← ok_or (checked_product (batch ∷ m ∷ n ∷ splits ∷ [])) scratch_overflow
  bail_if (ltb u32_mod elements) scratch_addressing

-- `SplitK2Dispatch::plan`; `as u32` is written as the remainder.
unfoldable pub plan : Groups → ResolvedMatmul → ℕ → Result SplitError SplitK2Dispatch
unfolding validate_scratch_geometry
plan g r splits = do
  bail_if (not (leb 2 splits && leb splits 65535)) splits_out_of_range
  validate_scratch_geometry r.batch r.m r.n r.k splits
  let gx = div_ceil r.n (stage1_tile r.m r.n)
  let gy = div_ceil r.m (stage1_tile r.m r.n)
  gz ← ok_or (checked_mul32 r.batch splits) grid_overflow
  bail_if (ltb g.x gx || ltb g.y gy || ltb g.z gz) grid_exceeds
  let mn = r.m * r.n % u64_mod
  total ← ok_or (checked_mul mn r.batch) output_overflow
  bail_if (ltb u32_max total) output_addressing
  scratch_bytes ← ok_or (checked_mul (total * splits % u64_mod) 4) scratch_overflow
  let reduce_groups = div_ceil (total % u32_mod) 1024
  bail_if (ltb g.x reduce_groups) reduce_exceeds
  ok (record {
    splits = splits;
    gx = gx;
    gy = gy;
    gz = gz;
    mn = mn % u32_mod;
    total = total % u32_mod;
    reduce_groups = reduce_groups;
    scratch_bytes = scratch_bytes;
    use_m128 = uses_m128 r.m r.n;
  })

unfoldable pub checked_auto_scratch_end : ℕ → ℕ → Option ℕ
checked_auto_scratch_end offset bytes = elim (checked_next_multiple_of bytes 16) [
  | none ↦ none
  | some aligned ↦ elim (checked_add offset aligned) [
    | none ↦ none
    | some end ↦ if leb end auto_scratch_cap then some end else none
  ]
]

-- The loop of a graph submission that hands out scratch regions: each operation with its split
-- count, if it has one, gets its plan and its offset, or none; and the offset after the last.
unfoldable pub assign_scratch :
    Groups → ℕ → List (ResolvedMatmul × Option ℕ) → List (Option (SplitK2Dispatch × ℕ)) × ℕ
assign_scratch g offset [] = ([], offset)
assign_scratch g offset ((r, none) ∷ ops) =
    let (plans, end) = assign_scratch g offset ops in (none ∷ plans, end)
assign_scratch g offset ((r, some splits) ∷ ops) =
    let (skipped, skipped_end) = assign_scratch g offset ops in
    elim (plan g r splits) [
      | err e ↦ (none ∷ skipped, skipped_end)
      | ok d ↦ elim (checked_auto_scratch_end offset d.scratch_bytes) [
        | none ↦ (none ∷ skipped, skipped_end)
        | some next ↦
            let (plans, end) = assign_scratch g next ops in (some (d, offset) ∷ plans, end)
      ]
    ]
