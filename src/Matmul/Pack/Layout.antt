-- ===== src/Matmul/Pack/Layout.antt =====
-- src/matmul/api.rs: where pack_f16w_row_tiles puts each weight.
use tensor_ash.Prelude.{
  ℕ, zero, suc, ◌+◌, ◌*◌, ◌/◌, ◌%◌, ◌<◌, ◌≤◌, ◌≡◌, refl, sym, ap, ◌∙◌, List, [], ◌∷◌, ◌++◌, ok,
  length, get_elem?, length-append, arith, saturating_mul, u64_mod, ◌>>=◌,
}
use mathlib.Core.Path.{subst}
use tensor_ash.Matmul.Pack.{
  window, slice, zeros, write_at, write_rows, write_tiles, pack_f16w_row_tiles,
}
use tensor_ash.Matmul.Pack.Slices.{
  pack_rows, pack_tiles, length-window, length-rows, window-fits, first-inside, whole, tile-lt,
  column-split, get-tiles,
}

zero_left : (b : ℕ) → 0 + b ≡ b
zero_left b = omega arith

suc_left : (a b : ℕ) → suc a + b ≡ suc (a + b)
suc_left a b = omega arith

zero_times : (t m : ℕ) → 0 * t + m ≡ m
zero_times t m = omega arith

append_nil : (xs : List ℕ) → xs ++ [] ≡ xs
append_nil [] = refl
append_nil (x ∷ xs) = ap (λ l. x ∷ l) (append_nil xs)

append_assoc : (xs ys zs : List ℕ) → (xs ++ ys) ++ zs ≡ xs ++ (ys ++ zs)
append_assoc [] ys zs = refl
append_assoc (x ∷ xs) ys zs = ap (λ l. x ∷ l) (append_assoc xs ys zs)

zeros-append : (a b : ℕ) → zeros (a + b) ≡ zeros a ++ zeros b
unfolding zeros
zeros-append zero b = ap zeros (zero_left b)
zeros-append (suc a) b = ap zeros (suc_left a b) ∙ ap (λ l. 0 ∷ l) (zeros-append a b)

-- A row written over as many zeros.
write_at-zeros :
    (row : List ℕ) (len m : ℕ)
    → length row ≡ len
    → write_at 0 row (zeros (len + m)) ≡ ok (row ++ zeros m)
unfolding write_at zeros
write_at-zeros [] zero m e = ap (λ n. ok (zeros n)) (zero_left m)
write_at-zeros [] (suc len) m e = absurd (omega arith)
write_at-zeros (x ∷ row) zero m e = absurd (omega arith)
write_at-zeros (x ∷ row) (suc len) m e =
    let rest = write_at-zeros row len m (omega arith) in
    ap (λ n. write_at 0 (x ∷ row) (zeros n)) (suc_left len m) ∙ ap (λ r. r >>= λ l. ok (x ∷ l)) rest

-- A row written behind what is filled.
write_at-behind :
    (filled row : List ℕ) (dst len m : ℕ)
    → length filled ≡ dst
    → length row ≡ len
    → write_at dst row (filled ++ zeros (len + m)) ≡ ok ((filled ++ row) ++ zeros m)
unfolding write_at
write_at-behind [] row zero len m d e = write_at-zeros row len m e
write_at-behind [] row (suc dst) len m d e = absurd (omega arith)
write_at-behind (x ∷ filled) row zero len m d e = absurd (omega arith)
write_at-behind (x ∷ filled) row (suc dst) len m d e =
    ap (λ r. r >>= λ l. ok (x ∷ l)) (write_at-behind filled row dst len m (omega arith) e)

slice-within :
    (src : List ℕ) (start len : ℕ)
    → start + len ≤ length src
    → slice src start len ≡ ok (window src start len)
unfolding slice
slice-within src start len le = ground arith

spread : (rows t m : ℕ) → suc rows * t + m ≡ t + (rows * t + m)
spread rows t m = omega arith

no_tiles : (b : ℕ) → 0 * b ≡ 0
no_tiles b = omega arith

next_tile : (tile k t : ℕ) → tile * k * t + k * t ≡ suc tile * k * t
next_tile tile k t = grind arith

module _ (src : List ℕ) (k n t tile : ℕ) (inside : tile * t + t ≤ n) where
  -- The rows of a tile, written behind what is filled.
  write_rows-fills :
      (ki rows m : ℕ) (filled : List ℕ)
      → (ki + rows) * n ≤ length src
      → length filled ≡ (tile * k + ki) * t
      → write_rows src k n t tile ki rows (filled ++ zeros (rows * t + m))
        ≡ ok ((filled ++ pack_rows src n t tile ki rows) ++ zeros m)
  unfolding write_rows pack_rows
  write_rows-fills ki zero m filled le at =
      ap (λ z. ok (filled ++ zeros z)) (zero_times t m)
      ∙ ap (λ l. ok (l ++ zeros m)) (sym (append_nil filled))
  write_rows-fills ki (suc rows) m filled le at =
      let start = ki * n + tile * t in
      let row = window src start t in
      let fits = window-fits src n t tile inside ki rows le in
      let long : length row ≡ t = length-window src start t fits in
      let read : slice src start t ≡ ok row = slice-within src start t fits in
      let wrote : write_at ((tile * k + ki) * t) row (filled ++ zeros (suc rows * t + m))
          ≡ ok ((filled ++ row) ++ zeros (rows * t + m)) =
        ap (λ z. write_at ((tile * k + ki) * t) row (filled ++ zeros z)) (spread rows t m)
        ∙ write_at-behind filled row ((tile * k + ki) * t) t (rows * t + m) at long in
      let length_next : length (filled ++ row) ≡ (tile * k + suc ki) * t =
        omega (arith, length-append filled row) in
      rw (read, wrote)
        (write_rows-fills (suc ki) rows m (filled ++ row)
            (subst (λ z. z * n ≤ length src) (omega arith) le) length_next
          ∙ ap (λ l. ok (l ++ zeros m))
              (append_assoc filled row (pack_rows src n t tile (suc ki) rows)))

-- The tiles, written behind what is filled.
write_tiles-fills :
    (src : List ℕ) (k n t tile tiles : ℕ) (filled : List ℕ)
    → (tile + tiles) * t ≤ n
    → k * n ≤ length src
    → length filled ≡ tile * k * t
    → write_tiles src k n t tile tiles (filled ++ zeros (tiles * (k * t)))
      ≡ ok (filled ++ pack_tiles src k n t tile tiles)
unfolding write_tiles pack_tiles zeros
write_tiles-fills src k n t tile zero filled inside le at =
    ap (λ z. ok (filled ++ zeros z)) (no_tiles (k * t))
write_tiles-fills src k n t tile (suc tiles) filled inside le at =
    let fits = first-inside tile tiles t n inside in
    let le_k : (0 + k) * n ≤ length src = omega arith in
    let block = pack_rows src n t tile 0 k in
    let behind : length filled ≡ (tile * k + 0) * t = omega arith in
    let tall : length block ≡ k * t = length-rows src n t tile fits 0 k le_k in
    let wrote : write_rows src k n t tile 0 k (filled ++ zeros (suc tiles * (k * t)))
        ≡ ok ((filled ++ block) ++ zeros (tiles * (k * t))) =
      ap (λ z. write_rows src k n t tile 0 k (filled ++ zeros z)) (omega arith)
      ∙ write_rows-fills src k n t tile fits 0 k (tiles * (k * t)) filled le_k behind in
    let length_next : length (filled ++ block) ≡ suc tile * k * t =
      omega (arith, length-append filled block, next_tile tile k t) in
    rw (wrote) (
      write_tiles-fills src k n t (suc tile) tiles (filled ++ block)
        (subst (λ z. z * t ≤ n) (omega arith) inside) le length_next
      ∙ ap ok (append_assoc filled block (pack_tiles src k n t (suc tile) tiles)))

all-tiles : (k n t : ℕ) → 0 < t → n % t ≡ 0 → k * n ≡ n / t * (k * t)
all-tiles k n t pos even = grind arith

-- Packing a matrix of k rows and n columns, of fewer than 2^64 elements and with n a multiple of a
-- width that is not zero, panics nowhere, and puts the weight of row `row` and column `col` at tile
-- col / tile_n, row `row` of the tile and lane col % tile_n.
pub pack_f16w_row_tiles-get :
    (src : List ℕ) (k n tile_n : ℕ)
    → 0 < tile_n
    → n % tile_n ≡ 0
    → length src ≡ k * n
    → length src < u64_mod
    → (out : List ℕ) × (pack_f16w_row_tiles src k n tile_n ≡ ok out)
      × ((row col : ℕ)
          → row < k
          → col < n
          → get_elem? out (col % tile_n + row * tile_n + col / tile_n * (k * tile_n))
            ≡ get_elem? src (row * n + col))
unfolding pack_f16w_row_tiles saturating_mul
pack_f16w_row_tiles-get src k n t pos even long small =
    let room : length src ≡ n / t * (k * t) = omega (arith, long, all-tiles k n t pos even) in
    let filled : write_tiles src k n t 0 (n / t) (zeros (length src))
        ≡ ok (pack_tiles src k n t 0 (n / t)) =
      ap (λ z. write_tiles src k n t 0 (n / t) (zeros z)) room
      ∙ write_tiles-fills src k n t 0 (n / t) [] (whole n t pos) (omega arith) (omega arith) in
    (
      pack_tiles src k n t 0 (n / t),
      ground (arith, filled),
      λ row col in_k in_n.
          get-tiles src k n t 0 (n / t) (col / t) row (col % t) (whole n t pos) (omega arith)
            (tile-lt n t col pos even in_n) in_k (omega arith)
          ∙ ap (get_elem? src) (column-split row n t col pos),
    )
