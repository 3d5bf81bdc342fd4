-- ===== src/Matmul/Pack.antt =====
-- src/matmul/api.rs: pack_f16w_row_tiles. An f32 is its bit pattern; a slice outside its vector and
-- a failed assertion panic.
pub mod Slices
pub mod Layout
use package.tensor_ash.Prelude.{
  ℕ, zero, suc, ◌+◌, ◌*◌, ◌/◌, Bool, true, false, not, ◌||◌, List, [], ◌∷◌, Result, ok, err, ◌>>=◌,
  ◌>>◌, bail_if, length, take, ltb, ◌==◌, is_multiple_of, saturating_mul,
}

pub data PackPanic : Type 0 where
  assertion out_of_bounds : PackPanic

unfoldable pub drop : ℕ → List ℕ → List ℕ
drop zero xs = xs
drop (suc s) [] = []
drop (suc s) (x ∷ xs) = drop s xs

unfoldable pub window : List ℕ → ℕ → ℕ → List ℕ
window src start len = take len (drop start src)

-- `src[start..start + len]`.
unfoldable pub slice : List ℕ → ℕ → ℕ → Result PackPanic (List ℕ)
slice src start len = do
  bail_if (ltb (length src) (start + len)) out_of_bounds
  ok (window src start len)

-- `vec![0.0; len]`.
unfoldable pub zeros : ℕ → List ℕ
zeros zero = []
zeros (suc len) = 0 ∷ zeros len

-- `out[dst..dst + row.len()].copy_from_slice(row)`.
unfoldable pub write_at : ℕ → List ℕ → List ℕ → Result PackPanic (List ℕ)
write_at zero [] out = ok out
write_at zero (x ∷ row) [] = err out_of_bounds
write_at zero (x ∷ row) (o ∷ out) = write_at zero row out >>= λ rest. ok (x ∷ rest)
write_at (suc dst) row [] = err out_of_bounds
write_at (suc dst) row (o ∷ out) = write_at dst row out >>= λ rest. ok (o ∷ rest)

-- The inner loop over `ki`, from a row on, for a number of rows.
unfoldable pub write_rows : List ℕ → ℕ → ℕ → ℕ → ℕ → ℕ → ℕ → List ℕ → Result PackPanic (List ℕ)
write_rows src k n tile_n tile ki zero out = ok out
write_rows src k n tile_n tile ki (suc rows) out = do
  row ← slice src (ki * n + tile * tile_n) tile_n
  written ← write_at ((tile * k + ki) * tile_n) row out
  write_rows src k n tile_n tile (suc ki) rows written

-- The outer loop, from a tile on, for a number of tiles.
unfoldable pub write_tiles : List ℕ → ℕ → ℕ → ℕ → ℕ → ℕ → List ℕ → Result PackPanic (List ℕ)
write_tiles src k n tile_n tile zero out = ok out
write_tiles src k n tile_n tile (suc tiles) out = do
  written ← write_rows src k n tile_n tile 0 k out
  write_tiles src k n tile_n (suc tile) tiles written

unfoldable pub pack_f16w_row_tiles : List ℕ → ℕ → ℕ → ℕ → Result PackPanic (List ℕ)
pack_f16w_row_tiles src k n tile_n = do
  bail_if (not (ltb 0 tile_n) || not (is_multiple_of n tile_n)) assertion
  bail_if (not (length src == saturating_mul k n)) assertion
  write_tiles src k n tile_n 0 (n / tile_n) (zeros (length src))
