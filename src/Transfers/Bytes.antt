-- ===== src/Transfers/Bytes.antt =====
-- Words of a fixed width as bytes: the casts of slices that the transfers rely on.
use tensor_ash.Prelude.{
  ℕ, zero, suc, ◌*◌, ◌/◌, ◌<◌, ◌≤◌, ◌≡◌, refl, sym, ap, ◌∙◌, List, [], ◌∷◌, ◌++◌, length,
  length-append, take, arith,
}
use mathlib.Core.List.{append_assoc}
use tensor_ash.Transfers.{drop, word_bytes, bytes_word, to_bytes, from_bytes}

pub take-append {ℓ} : {A : Type ℓ} (xs ys : List A) → take (length xs) (xs ++ ys) ≡ xs
take-append [] ys = refl
take-append (x ∷ xs) ys = ap (λ t. x ∷ t) (take-append xs ys)

pub drop-append {ℓ} : {A : Type ℓ} (xs ys : List A) → drop (length xs) (xs ++ ys) ≡ ys
drop-append [] ys = refl
drop-append (x ∷ xs) ys = drop-append xs ys

pub length-take {ℓ} : {A : Type ℓ} (n : ℕ) (xs : List A) → n ≤ length xs → length (take n xs) ≡ n
length-take zero xs h = refl
length-take (suc n) [] h = absurd (omega arith)
length-take (suc n) (x ∷ xs) h = ap suc (length-take n xs (omega arith))

pub length-word_bytes : (width v : ℕ) → length (word_bytes width v) ≡ width
unfolding word_bytes
length-word_bytes zero v = refl
length-word_bytes (suc width) v = ap suc (length-word_bytes width (v / 256))

pub length-to_bytes : (width : ℕ) (vs : List ℕ) → length (to_bytes width vs) ≡ length vs * width
unfolding to_bytes
length-to_bytes width [] = omega arith
length-to_bytes width (v ∷ vs) = grind (
  arith,
  length-append (word_bytes width v) (to_bytes width vs),
  length-word_bytes width v,
  length-to_bytes width vs,
)

-- 2 ^ (8 * width).
abbrev pub word_bound : ℕ → ℕ
word_bound zero = 1
word_bound (suc width) = 256 * word_bound width

pub bytes_word-word_bytes :
    (width v : ℕ) → v < word_bound width → bytes_word (word_bytes width v) ≡ v
unfolding word_bytes bytes_word
bytes_word-word_bytes zero v h = omega arith
bytes_word-word_bytes (suc width) v h =
    omega (arith, bytes_word-word_bytes width (v / 256) (omega arith))

abbrev pub AllBelow : ℕ → List ℕ → Type 0
AllBelow bound [] = Unit {0}
AllBelow bound (v ∷ vs) = (v < bound) × AllBelow bound vs

take-word : (width v : ℕ) (r : List ℕ) → take width (word_bytes width v ++ r) ≡ word_bytes width v
take-word width v r =
    ap (λ n. take n (word_bytes width v ++ r)) (sym (length-word_bytes width v))
    ∙ take-append (word_bytes width v) r

drop-word : (width v : ℕ) (r : List ℕ) → drop width (word_bytes width v ++ r) ≡ r
drop-word width v r =
    ap (λ n. drop n (word_bytes width v ++ r)) (sym (length-word_bytes width v))
    ∙ drop-append (word_bytes width v) r

-- Words that fit their width are read back from their bytes, whatever follows them.
pub from_bytes-to_bytes :
    (width : ℕ) (vs rest : List ℕ)
    → AllBelow (word_bound width) vs
    → from_bytes width (length vs) (to_bytes width vs ++ rest) ≡ vs
unfolding from_bytes to_bytes
from_bytes-to_bytes width [] rest all = refl
from_bytes-to_bytes width (v ∷ vs) rest (fits, all) =
    let tail = to_bytes width vs ++ rest in
    rw (append_assoc (word_bytes width v) (to_bytes width vs) rest) (
      rw (take-word width v tail, drop-word width v tail, bytes_word-word_bytes width v fits)
        (ap (λ ws. v ∷ ws) (from_bytes-to_bytes width vs rest all)))
