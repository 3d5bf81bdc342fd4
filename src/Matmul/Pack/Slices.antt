-- ===== src/Matmul/Pack/Slices.antt =====
-- src/matmul/api.rs: the slices that pack_f16w_row_tiles copies, one after another, and what stands
-- at each place of them.
use tensor_ash.Prelude.{
  ℕ, zero, suc, ◌+◌, ◌*◌, ◌/◌, ◌%◌, ◌<◌, ◌≤◌, ◌≡◌, refl, sym, ap, ◌∙◌, List, [], ◌∷◌, ◌++◌, length,
  take, get_elem?, length-append, arith,
}
use mathlib.Core.Path.{subst}
use tensor_ash.Matmul.Pack.{drop, window}

-- The slices of a tile, from a row on.
unfoldable pub pack_rows : List ℕ → ℕ → ℕ → ℕ → ℕ → ℕ → List ℕ
pack_rows src n tile_n tile ki zero = []
pack_rows src n tile_n tile ki (suc rows) =
    window src (ki * n + tile * tile_n) tile_n ++ pack_rows src n tile_n tile (suc ki) rows

-- The slices of the tiles, from a tile on.
unfoldable pub pack_tiles : List ℕ → ℕ → ℕ → ℕ → ℕ → ℕ → List ℕ
pack_tiles src k n tile_n tile zero = []
pack_tiles src k n tile_n tile (suc tiles) =
    pack_rows src n tile_n tile 0 k ++ pack_tiles src k n tile_n (suc tile) tiles

add_suc : (i s : ℕ) → i + suc s ≡ suc (i + s)
add_suc i s = omega arith

get-drop : (s : ℕ) (xs : List ℕ) (i : ℕ) → get_elem? (drop s xs) i ≡ get_elem? xs (i + s)
unfolding drop
get-drop zero xs i = ap (get_elem? xs) (omega arith)
get-drop (suc s) [] i = refl
get-drop (suc s) (x ∷ xs) i = get-drop s xs i ∙ sym (ap (get_elem? (x ∷ xs)) (add_suc i s))

length-drop : (s : ℕ) (xs : List ℕ) → s ≤ length xs → length (drop s xs) + s ≡ length xs
unfolding drop
length-drop zero xs le = omega arith
length-drop (suc s) [] le = absurd (omega arith)
length-drop (suc s) (x ∷ xs) le = omega (arith, length-drop s xs (omega arith))

get-take : (l : ℕ) (xs : List ℕ) (i : ℕ) → i < l → get_elem? (take l xs) i ≡ get_elem? xs i
get-take zero xs i lt = absurd (omega arith)
get-take (suc l) [] i lt = refl
get-take (suc l) (x ∷ xs) zero lt = refl
get-take (suc l) (x ∷ xs) (suc i) lt = get-take l xs i (omega arith)

length-take : (l : ℕ) (xs : List ℕ) → l ≤ length xs → length (take l xs) ≡ l
length-take zero xs le = refl
length-take (suc l) [] le = absurd (omega arith)
length-take (suc l) (x ∷ xs) le = ap suc (length-take l xs (omega arith))

get-window : (xs : List ℕ) (s l i : ℕ) → i < l → get_elem? (window xs s l) i ≡ get_elem? xs (i + s)
unfolding window
get-window xs s l i lt = get-take l (drop s xs) i lt ∙ get-drop s xs i

pub length-window : (xs : List ℕ) (s l : ℕ) → s + l ≤ length xs → length (window xs s l) ≡ l
unfolding window
length-window xs s l le = length-take l (drop s xs) (omega (arith, length-drop s xs (omega arith)))

get-append_left : (xs ys : List ℕ) (i : ℕ) → i < length xs → get_elem? (xs ++ ys) i ≡ get_elem? xs i
get-append_left [] ys i lt = absurd (omega arith)
get-append_left (x ∷ xs) ys zero lt = refl
get-append_left (x ∷ xs) ys (suc i) lt = get-append_left xs ys i (omega arith)

get-append_right : (xs ys : List ℕ) (i : ℕ) → get_elem? (xs ++ ys) (i + length xs) ≡ get_elem? ys i
get-append_right [] ys i = ap (get_elem? ys) (omega arith)
get-append_right (x ∷ xs) ys i =
    ap (get_elem? ((x ∷ xs) ++ ys)) (add_suc i (length xs)) ∙ get-append_right xs ys i

row-fits : (ki rows n c : ℕ) → c ≤ n → ki * n + c ≤ (ki + suc rows) * n
row-fits ki rows n c le = grind arith

module _ (src : List ℕ) (n t tile : ℕ) (inside : tile * t + t ≤ n) where
  pub window-fits :
      (ki rows : ℕ) → (ki + suc rows) * n ≤ length src → ki * n + tile * t + t ≤ length src
  window-fits ki rows le = omega (arith, row-fits ki rows n (tile * t + t) inside)

  pub length-rows :
      (ki rows : ℕ)
      → (ki + rows) * n ≤ length src
      → length (pack_rows src n t tile ki rows) ≡ rows * t
  unfolding pack_rows
  length-rows ki zero le = omega arith
  length-rows ki (suc rows) le =
      let rest = length-rows (suc ki) rows (subst (λ z. z * n ≤ length src) (omega arith) le) in
      let head = length-window src (ki * n + tile * t) t (window-fits ki rows le) in
      omega (
        arith,
        length-append (window src (ki * n + tile * t) t) (pack_rows src n t tile (suc ki) rows),
      )

  get-rows :
      (ki rows j x : ℕ)
      → (ki + rows) * n ≤ length src
      → j < rows
      → x < t
      → get_elem? (pack_rows src n t tile ki rows) (x + j * t)
        ≡ get_elem? src (x + ((ki + j) * n + tile * t))
  unfolding pack_rows
  get-rows ki zero j x le lt in_t = absurd (omega arith)
  get-rows ki (suc rows) zero x le lt in_t =
      let row = window src (ki * n + tile * t) t in
      let rest = pack_rows src n t tile (suc ki) rows in
      let long = length-window src (ki * n + tile * t) t (window-fits ki rows le) in
      ap (get_elem? (row ++ rest)) (omega arith)
      ∙ get-append_left row rest x (omega arith)
      ∙ get-window src (ki * n + tile * t) t x in_t
      ∙ ap (get_elem? src) (omega arith)
  get-rows ki (suc rows) (suc j) x le lt in_t =
      let row = window src (ki * n + tile * t) t in
      let rest = pack_rows src n t tile (suc ki) rows in
      let long = length-window src (ki * n + tile * t) t (window-fits ki rows le) in
      ap (get_elem? (row ++ rest)) (omega arith)
      ∙ get-append_right row rest (x + j * t)
      ∙ get-rows (suc ki) rows j x (subst (λ z. z * n ≤ length src) (omega arith) le) (omega arith)
          in_t
      ∙ ap (λ z. get_elem? src (x + (z * n + tile * t))) (omega arith)

pub first-inside : (tile tiles t n : ℕ) → (tile + suc tiles) * t ≤ n → tile * t + t ≤ n
first-inside tile tiles t n le = grind arith

in-block : (j k x t : ℕ) → j < k → x < t → x + j * t < k * t
in-block j k x t lt in_t = grind arith

pub whole : (n t : ℕ) → 0 < t → (0 + n / t) * t ≤ n
whole n t pos = grind arith

pub tile-lt : (n t col : ℕ) → 0 < t → n % t ≡ 0 → col < n → col / t < n / t
tile-lt n t col pos even lt = grind arith

pub column-split :
    (row n t col : ℕ) → 0 < t → col % t + (row * n + (0 + col / t) * t) ≡ row * n + col
column-split row n t col pos = grind arith

pub get-tiles :
    (src : List ℕ) (k n t tile tiles q j x : ℕ)
    → (tile + tiles) * t ≤ n
    → k * n ≤ length src
    → q < tiles
    → j < k
    → x < t
    → get_elem? (pack_tiles src k n t tile tiles) (x + j * t + q * (k * t))
      ≡ get_elem? src (x + (j * n + (tile + q) * t))
unfolding pack_tiles
get-tiles src k n t tile zero q j x inside le lt in_k in_t = absurd (omega arith)
get-tiles src k n t tile (suc tiles) zero j x inside le lt in_k in_t =
    let fits = first-inside tile tiles t n inside in
    let le_k : (0 + k) * n ≤ length src = omega arith in
    let block = pack_rows src n t tile 0 k in
    let rest = pack_tiles src k n t (suc tile) tiles in
    let long = length-rows src n t tile fits 0 k le_k in
    ap (get_elem? (block ++ rest)) (omega arith)
    ∙ get-append_left block rest (x + j * t) (omega (arith, in-block j k x t in_k in_t))
    ∙ get-rows src n t tile fits 0 k j x le_k in_k in_t
    ∙ ap (get_elem? src) (omega arith)
get-tiles src k n t tile (suc tiles) (suc q) j x inside le lt in_k in_t =
    let fits = first-inside tile tiles t n inside in
    let le_k : (0 + k) * n ≤ length src = omega arith in
    let block = pack_rows src n t tile 0 k in
    let rest = pack_tiles src k n t (suc tile) tiles in
    let long = length-rows src n t tile fits 0 k le_k in
    ap (get_elem? (block ++ rest)) (omega arith)
    ∙ get-append_right block rest (x + j * t + q * (k * t))
    ∙ get-tiles src k n t (suc tile) tiles q j x (subst (λ z. z * t ≤ n) (omega arith) inside) le
        (omega arith) in_k in_t
    ∙ ap (λ z. get_elem? src (x + (j * n + z * t))) (omega arith)
