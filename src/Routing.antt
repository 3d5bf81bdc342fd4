-- ===== src/Routing.antt =====
-- src/pipeline/selection.rs and src/pipeline/routing.rs: which tile class and which kernel a shape
-- gets from the static heuristic.
pub mod Tiles
use package.tensor_ash.Prelude.{
  ℕ, ◌*◌, ◌/◌, min, max, Bool, true, false, ◌&&◌, ◌||◌, not, Option, none, some, ltb, leb, ◌==◌,
  if◌then◌else◌, div_ceil, saturating_mul, saturating_mul32, is_multiple_of, u64_max,
}
use package.tensor_ash.Kernels.{Kernel, spec}
use package.tensor_ash.Kernels

pub data DeviceKind : Type 0 where
  discrete_gpu integrated_gpu virtual_gpu cpu other : DeviceKind

unfoldable pub auto_min_large_tiles_for : DeviceKind → ℕ
auto_min_large_tiles_for discrete_gpu = 256
auto_min_large_tiles_for integrated_gpu = 64
auto_min_large_tiles_for virtual_gpu = u64_max
auto_min_large_tiles_for cpu = u64_max
auto_min_large_tiles_for other = u64_max

-- The padded extent of an m×n output under tiles of a kernel, saturating at u64::MAX.
unfoldable pub padded : Kernel → ℕ → ℕ → ℕ
padded k m n =
    let s = spec k in
    saturating_mul
      (saturating_mul (saturating_mul (div_ceil m s.tile_m) s.tile_m) (div_ceil n s.tile_n))
      s.tile_n

unfoldable pub large_tiles : ℕ → ℕ → ℕ → ℕ
large_tiles batch m n =
    let s = spec Kernel.large in
    saturating_mul (saturating_mul batch (div_ceil m s.tile_m)) (div_ceil n s.tile_n)

unfoldable pub auto_selects_small_kernel : ℕ → ℕ → ℕ → ℕ → ℕ → Bool
auto_selects_small_kernel batch m n k min_large_tiles =
    if ltb (div_ceil (saturating_mul (padded Kernel.small m n) 5) 4) (padded Kernel.large m n)
    then true
    else if ltb k 128
    then true
    else let threshold =
        if min_large_tiles == 256 && ltb 1 batch && leb 256 k
        then min_large_tiles / 2
        else min_large_tiles in
      ltb (large_tiles batch m n) threshold

-- The rules of `auto_select_kernel` for a single plane, in their order; `none` where none applies.
unfoldable pub single_plane_kernel : ℕ → ℕ → ℕ → Option Kernel
single_plane_kernel m n k =
    let min_mn = min m n in
    let max_mn = max m n in
    if leb 512 min_mn && ltb min_mn 2048 && leb max_mn (saturating_mul32 min_mn 5) && leb 256 k
    then some Kernel.m128n64k64
    else if m == n && (m == 512 || m == 1024) && leb 512 k
    then some Kernel.m128n64k64
    else if leb 2048 min_mn && leb 128 k && leb k 1024
    then some Kernel.m128n64k64
    else if leb 1024 min_mn && ltb min_mn 2048 && leb 4096 max_mn && leb 512 k
    then some Kernel.m128n64k64
    else if leb k 128 && leb 2048 m && leb 2048 n
    then some Kernel.m128n64
    else if leb min_mn 128 && leb 512 max_mn && leb 256 k
    then some Kernel.k64
    else if leb min_mn 256 && max_mn == saturating_mul32 min_mn 2 && leb 256 k
    then some Kernel.k64
    else none

unfoldable pub auto_select_kernel : ℕ → ℕ → ℕ → ℕ → ℕ → Kernel
auto_select_kernel batch m n k min_large_tiles =
    let min_mn = min m n in
    let max_mn = max m n in
    let near_square = leb max_mn (saturating_mul32 min_mn 5 / 4) in
    let by_occupancy =
      if auto_selects_small_kernel batch m n k min_large_tiles
      then Kernel.small
      else Kernel.large in
    if leb 128 k
      && leb 128 min_mn
      && leb max_mn 320
      && near_square
      && (batch == 1 || leb max_mn 256 && ltb batch 8)
    then Kernel.m64n32
    else if batch == 1 && leb 192 min_mn && leb min_mn 480 && near_square && leb 256 k
    then Kernel.k64
    else if batch == 1
    then elim (single_plane_kernel m n k) [ some tile ↦ tile | none ↦ by_occupancy ]
    else by_occupancy

unfoldable pub f16w_row_uses_k16 : ℕ → ℕ → Bool
f16w_row_uses_k16 k n = leb 4096 k || leb n 512 || leb 2048 k && leb n 2048

unfoldable pub f16w_row_tile_n : ℕ → ℕ → ℕ
unfolding f16w_row_uses_k16
f16w_row_tile_n k n = if f16w_row_uses_k16 k n || not (is_multiple_of n 64) then 32 else 64

unfoldable pub f16w_row_selection : ℕ → ℕ → Kernel
unfolding f16w_row_uses_k16
f16w_row_selection k n =
    if f16w_row_uses_k16 k n then Kernel.f16w_row_bda_k16 else Kernel.f16w_row_bda_k16_v2

unfoldable pub f16w_row_packed_selection : ℕ → ℕ → Kernel
unfolding f16w_row_uses_k16
f16w_row_packed_selection k n =
    if f16w_row_uses_k16 k n || not (is_multiple_of n 64)
    then Kernel.f16w_row_bda_k16_packed
    else Kernel.f16w_row_bda_k16_v2_packed

pub data CoopmatTile : Type 0 where
  t128 t64 t64x128 t128x64 : CoopmatTile

unfoldable pub coopmat_tile : ℕ → ℕ → ℕ → Option CoopmatTile
coopmat_tile batch m n =
    let m128 = is_multiple_of m 128 in
    let n128 = is_multiple_of n 128 in
    let tiles_128 = saturating_mul (saturating_mul batch (m / 128)) (n / 128) in
    if not (is_multiple_of m 64) || not (is_multiple_of n 64)
    then none
    else if leb m 512
    then if m == 512 && m128 && ltb (4 * m) n
      then some t128x64
      else if m == 512 && n128 && ltb (4 * n) m
      then some t64x128
      else some t64
    else if not m128 || not n128
    then some (if m128 then t128x64 else if n128 then t64x128 else t64)
    else some (if ltb tiles_128 96 then t64 else t128)

-- The kernel of a tile, with f32 or with f16 activations.
coopmat_kernel : CoopmatTile → Bool → Kernel
coopmat_kernel t128 a16 = if a16 then Kernel.f16w_a16_coopmat else Kernel.f16w_coopmat
coopmat_kernel t64 a16 = if a16 then Kernel.f16w_a16_coopmat_m64 else Kernel.f16w_coopmat_m64
coopmat_kernel t64x128 a16 =
    if a16 then Kernel.f16w_a16_coopmat_m64n128 else Kernel.f16w_coopmat_m64n128
coopmat_kernel t128x64 a16 =
    if a16 then Kernel.f16w_a16_coopmat_m128n64 else Kernel.f16w_coopmat_m128n64

unfoldable pub coopmat_selection : ℕ → ℕ → ℕ → Bool → Option Kernel
unfolding coopmat_tile coopmat_kernel
coopmat_selection batch m n a16 = elim (coopmat_tile batch m n) [
  | none ↦ none
  | some tile ↦ some (coopmat_kernel tile a16)
]

unfoldable pub to_f16w : Kernel → Kernel
to_f16w Kernel.large = Kernel.f16w_large_bda_v4
to_f16w Kernel.m64n128 = Kernel.f16w_large_bda_v4
to_f16w Kernel.m128n64 = Kernel.f16w_m128n64k64_bda_v4
to_f16w Kernel.m128n64k64 = Kernel.f16w_m128n64k64_bda_v4
to_f16w Kernel.k64 = Kernel.f16w_k64_bda_v4
to_f16w _ = Kernel.f16w_small_bda_v4

unfoldable pub maybe_to_bda : Kernel → Kernel
maybe_to_bda Kernel.large = Kernel.large_bda_v4
maybe_to_bda Kernel.small = Kernel.small_bda_v4
maybe_to_bda Kernel.m128n64k64 = Kernel.m128n64k64_bda_v4
maybe_to_bda Kernel.k64 = Kernel.k64_bda_v4_tm8_tn4
maybe_to_bda Kernel.m128n64 = Kernel.m128n64_bda_v4
maybe_to_bda Kernel.m64n128 = Kernel.m64n128_bda_v4
maybe_to_bda Kernel.m64n32 = Kernel.m64n32_bda
maybe_to_bda tile = tile
