-- ===== src/Routing/Tiles.antt =====
-- src/pipeline/routing.rs: the tiles that the f16 routes pick fit the shape and the packing.
use tensor_ash.Prelude.{
  ℕ, ◌%◌, ◌<◌, ◌≡◌, refl, ◌⊎◌, inl, inr, Bool, true, false, none, some, arith, Option-cases,
  contains_text,
}
use tensor_ash.Kernels.{Kernel, spec, KernelSpec, weights_f16, a_f16, is_packed}
use tensor_ash.Routing.{
  CoopmatTile, coopmat_tile, coopmat_selection, coopmat_kernel, t128, t64, t64x128, t128x64,
  f16w_row_tile_n, f16w_row_packed_selection,
}

abbrev tile_m : CoopmatTile → ℕ
tile_m t128 = 128
tile_m t64 = 64
tile_m t64x128 = 64
tile_m t128x64 = 128

abbrev tile_n : CoopmatTile → ℕ
tile_n t128 = 128
tile_n t64 = 64
tile_n t64x128 = 128
tile_n t128x64 = 64

coopmat_tile-some :
    (batch m n : ℕ) (t : CoopmatTile)
    → coopmat_tile batch m n ≡ some t
    → (m % tile_m t ≡ 0) × (n % tile_n t ≡ 0)
unfolding coopmat_tile
coopmat_tile-some batch m n t128 e = ground arith
coopmat_tile-some batch m n _ e = ground arith

coopmat_tile-none : (batch m n : ℕ) → coopmat_tile batch m n ≡ none → (0 < m % 64) ⊎ (0 < n % 64)
unfolding coopmat_tile
coopmat_tile-none batch m n e = ground arith

coopmat_tile-divides :
    (batch m n : ℕ)
    → ((coopmat_tile batch m n ≡ none) × ((0 < m % 64) ⊎ (0 < n % 64)))
      ⊎ ((t : CoopmatTile) × (coopmat_tile batch m n ≡ some t)
          × (m % tile_m t ≡ 0)
          × (n % tile_n t ≡ 0))
coopmat_tile-divides batch m n = elim (Option-cases (coopmat_tile batch m n)) [
  | inl e ↦ inl (e, coopmat_tile-none batch m n e)
  | inr (t, e) ↦ let (hm, hn) = coopmat_tile-some batch m n t e in inr (t, e, hm, hn)
]

-- What a tensor-core kernel is, by its registry row.
abbrev pub IsCoopmat : KernelSpec → Bool → Type 0
IsCoopmat s a16 =
    (s.tile_k ≡ 32)
    × (a_f16 s ≡ a16)
    × (weights_f16 s ≡ true)
    × (is_packed s ≡ false)
    × (s.uses_descriptors ≡ false)

coopmat_kernel-spec :
    (t : CoopmatTile) (a16 : Bool)
    → let s = spec (coopmat_kernel t a16) in
      (s.tile_m ≡ tile_m t) × (s.tile_n ≡ tile_n t) × IsCoopmat s a16
unfolding coopmat_kernel a_f16 weights_f16 is_packed contains_text
coopmat_kernel-spec t128 true = (refl, refl, (refl, refl, refl, refl, refl))
coopmat_kernel-spec _ true = (refl, refl, (refl, refl, refl, refl, refl))
coopmat_kernel-spec t128 false = (refl, refl, (refl, refl, refl, refl, refl))
coopmat_kernel-spec _ false = (refl, refl, (refl, refl, refl, refl, refl))

-- The tensor-core route is refused exactly when M or N is no multiple of 64; else the chosen tile
-- divides the output both ways, and its kernel reads f16 weights and the asked activations
-- through device addresses.
pub coopmat_selection-divides :
    (batch m n : ℕ) (a16 : Bool)
    → ((coopmat_selection batch m n a16 ≡ none) × ((0 < m % 64) ⊎ (0 < n % 64)))
      ⊎ ((k : Kernel) × (coopmat_selection batch m n a16 ≡ some k)
          × (m % (spec k).tile_m ≡ 0)
          × (n % (spec k).tile_n ≡ 0)
          × IsCoopmat (spec k) a16)
unfolding coopmat_selection
coopmat_selection-divides batch m n a16 = elim (coopmat_tile-divides batch m n) [
  | inl (e, h) ↦ inl (rw (e, coopmat_selection), h)
  | inr (t, e, hm, hn) ↦
      let (sm, sn, is) = coopmat_kernel-spec t a16 in
      inr (coopmat_kernel t a16, rw (e, coopmat_selection), rw sm hm, rw sn hn, is)
]

-- The packing width is the tile width of the kernel that reads the packed layout, and divides every
-- width that packed weights may have.
pub f16w_row_tile_n-matches :
    (k n : ℕ)
    → n % 32 ≡ 0
    → (f16w_row_tile_n k n ≡ (spec (f16w_row_packed_selection k n)).tile_n)
      × (n % f16w_row_tile_n k n ≡ 0)
unfolding f16w_row_tile_n f16w_row_packed_selection
f16w_row_tile_n-matches k n h = ground arith
