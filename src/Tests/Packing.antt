-- ===== src/Tests/Packing.antt =====
-- src/matmul/api.rs: a packed matrix of two rows and four columns.
use tensor_ash.Prelude.{
  ℕ, ◌+◌, ◌*◌, ◌/◌, ◌%◌, ◌<◌, ◌≡◌, refl, List, [], ◌∷◌, ok, get_elem?, arith, saturating_mul,
}
use tensor_ash.Matmul.Pack.{
  drop, window, slice, zeros, write_at, write_rows, write_tiles, pack_f16w_row_tiles,
}
use tensor_ash.Matmul.Pack.Layout.{pack_f16w_row_tiles-get}

abbrev weights : List ℕ
weights = 10 ∷ 11 ∷ 12 ∷ 13 ∷ 20 ∷ 21 ∷ 22 ∷ 23 ∷ []

abbrev packed : List ℕ
packed = 10 ∷ 11 ∷ 20 ∷ 21 ∷ 12 ∷ 13 ∷ 22 ∷ 23 ∷ []

weights_pack : pack_f16w_row_tiles weights 2 4 2 ≡ ok packed
unfolding pack_f16w_row_tiles write_tiles write_rows write_at zeros slice window drop saturating_mul
weights_pack = refl

pack_f16w_row_tiles-get_example :
    (out : List ℕ) × (pack_f16w_row_tiles weights 2 4 2 ≡ ok out)
    × ((row col : ℕ)
        → row < 2
        → col < 4
        → get_elem? out (col % 2 + row * 2 + col / 2 * (2 * 2)) ≡ get_elem? weights (row * 4 + col))
pack_f16w_row_tiles-get_example =
    pack_f16w_row_tiles-get weights 2 4 2 (omega arith) refl refl (omega arith)
