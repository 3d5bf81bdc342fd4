-- ===== src/Elementwise/Flash/Strides.antt =====
-- src/executor/elementwise/flash.rs: the strides of an accepted flash attention stay in bounds.
use tensor_ash.Prelude.{
  ℕ, ◌+◌, ◌*◌, ◌%◌, ◌<◌, ◌≤◌, ◌≡◌, List, Option, some, none, ok, ◌⊎◌, inl, inr, Result-cases, arith,
  u32_mod, u64_mod, index-lt, le-mul, mul_mono_right, ◌∙◌, ap, sym, zero, suc, mul32, mul64, Bool,
}
use tensor_ash.Tensor.{Tensor, len, numel}
use tensor_ash.Elementwise.Attention.{shape3}
use tensor_ash.Elementwise.Attention.Scratch.{shape3-exact}
use tensor_ash.Elementwise.Flash.{QueryLayout, query_layout, out_layout, first_or_zero}

-- A head stride and a row stride, either head-major or token-major, over the same element count.
pub Strided : ℕ → ℕ → ℕ → ℕ → ℕ → Type 0
Strided heads rows dh head_stride row_stride =
    ((head_stride ≡ rows * dh) × (row_stride ≡ dh))
    ⊎ ((head_stride ≡ dh) × (row_stride ≡ heads * dh))

pub Strided-lt :
    (heads rows dh head_stride row_stride : ℕ)
    → Strided heads rows dh head_stride row_stride
    → (h t lane : ℕ) → h < heads
    → t < rows
    → lane < dh
    → h * head_stride + t * row_stride + lane < heads * rows * dh
unfolding Strided
Strided-lt heads rows dh head_stride row_stride (inl (p, q)) h t lane hh ht hl =
    rw (p, q)
      (omega
        (arith, index-lt (h * rows + t) lane (heads * rows) dh (index-lt h t heads rows hh ht) hl))
Strided-lt heads rows dh head_stride row_stride (inr (p, q)) h t lane hh ht hl =
    rw (p, q)
      (omega
        (arith, index-lt (t * heads + h) lane (rows * heads) dh (index-lt t h rows heads ht hh) hl))

-- A head count below 2^25, so that the width of a token fits in a u32.
unfoldable pub FewHeads : Option ℕ → Type 0
FewHeads none = Unit {0}
FewHeads (some heads) = heads < 0x200_0000

token_major-accepts :
    (q : Tensor) (dh heads : ℕ) (l : QueryLayout)
    → query_layout q dh (some heads) ≡ ok l
    → (l.heads ≡ heads)
      × (l.t_q ≡ first_or_zero q.shape)
      × (l.head_stride ≡ dh)
      × (l.row_stride ≡ mul32 heads dh)
      × (len q ≡ mul64 (mul64 (first_or_zero q.shape) heads) dh)
      × (0 < heads)
unfolding query_layout
token_major-accepts q dh heads l e = ground arith

head_major-accepts :
    (q : Tensor) (dh : ℕ) (l : QueryLayout) (heads rows lanes : ℕ)
    → shape3 q.shape ≡ ok (heads, rows, lanes)
    → query_layout q dh none ≡ ok l
    → (l.heads ≡ heads)
      × (l.t_q ≡ rows)
      × (l.head_stride ≡ mul32 rows dh)
      × (l.row_stride ≡ dh)
      × (lanes ≡ dh)
unfolding query_layout
head_major-accepts q dh l heads rows lanes h e = ground arith

-- The layout of the query, without wrapping.
unfoldable pub Laid : Tensor → ℕ → QueryLayout → Type 0
Laid q dh l = Strided l.heads l.t_q dh l.head_stride l.row_stride × (len q ≡ l.heads * l.t_q * dh)

token-exact :
    (n t heads dh : ℕ)
    → n ≡ mul64 (mul64 t heads) dh
    → t < u32_mod
    → heads < 0x200_0000
    → dh ≤ 128
    → (n ≡ heads * t * dh) × (mul32 heads dh ≡ heads * dh)
token-exact n t heads dh e ht hh hd =
    let a : heads * dh ≤ heads * 128 = mul_mono_right dh 128 heads hd in
    let b : t * (heads * dh) ≤ t * 0xffff_ffff =
      mul_mono_right (heads * dh) 0xffff_ffff t (omega arith) in
    let c : t * heads ≤ t * 0x200_0000 = mul_mono_right heads 0x200_0000 t (omega arith) in
    let inner : (t * heads) % u64_mod ≡ t * heads = omega arith in
    ((rw inner at e) ∙ omega arith, omega arith)

head-count :
    (shape : List ℕ) (heads rows lanes dh : ℕ)
    → shape3 shape ≡ ok (heads, rows, lanes)
    → lanes ≡ dh
    → numel shape ≡ heads * rows * dh
unfolding numel
head-count shape heads rows lanes dh h same =
    ap numel (shape3-exact shape heads rows lanes h)
    ∙ ap (λ n. heads * (rows * (n * 1))) same
    ∙ omega arith

head-stride :
    (heads rows dh n : ℕ) → n ≡ heads * rows * dh → 0 < n → n < u32_mod → mul32 rows dh ≡ rows * dh
head-stride zero rows dh n e some_ small = absurd (omega arith)
head-stride (suc heads) rows dh n e some_ small = omega (arith, le-mul (rows * dh) (suc heads))

pub query_layout-Laid :
    (q : Tensor) (dh : ℕ) (token_major : Option ℕ) (l : QueryLayout)
    → dh ≤ 128
    → FewHeads token_major
    → first_or_zero q.shape < u32_mod
    → 0 < len q
    → len q < u32_mod
    → query_layout q dh token_major ≡ ok l
    → Laid q dh l
unfolding FewHeads Laid Strided query_layout
query_layout-Laid q dh (some heads) l narrow few word some_ small e =
    let (a, b, c, d, n, pos) = token_major-accepts q dh heads l e in
    let (whole, stride) = token-exact (len q) (first_or_zero q.shape) heads dh n word few narrow in
    (inr (c, d ∙ stride ∙ ap (λ n. n * dh) (sym a)), whole ∙ (rw (a, b)))
query_layout-Laid q dh none l narrow few word some_ small e = elim (Result-cases (shape3 q.shape)) [
  | inl ((heads, rows, lanes), h) ↦
      let (a, b, c, d, same) = head_major-accepts q dh l heads rows lanes h e in
      let count : len q ≡ heads * rows * dh = head-count q.shape heads rows lanes dh h same in
      let stride : mul32 rows dh ≡ rows * dh =
        head-stride heads rows dh (len q) count some_ small in
      (inl (c ∙ stride ∙ ap (λ n. n * dh) (sym b), d), count ∙ (rw (a, b)))
  | inr (_, h) ↦ absurd (ground arith)
]

out-exact :
    (n t heads dh count : ℕ)
    → n ≡ mul64 (mul64 t heads) dh
    → count ≡ heads * t * dh
    → 0 < count
    → count < u32_mod
    → (n ≡ count) × (mul32 heads dh ≡ heads * dh)
out-exact n zero heads dh count e whole some_ small = absurd (omega arith)
out-exact n (suc t) heads zero count e whole some_ small = absurd (omega arith)
out-exact n (suc t) heads (suc dh) count e whole some_ small =
    let a : suc t * heads ≤ suc t * heads * suc dh =
      le-mul (suc t * heads) (suc dh) (omega arith) in
    let b : heads * suc dh ≤ heads * suc dh * suc t =
      le-mul (heads * suc dh) (suc t) (omega arith) in
    let inner : (suc t * heads) % u64_mod ≡ suc t * heads = omega arith in
    ((rw inner at e) ∙ omega arith, omega arith)

out_layout-plain :
    (q out : Tensor) (dh : ℕ) (token_major : Bool) (l : QueryLayout) (o : ℕ × ℕ)
    → out_layout q out dh token_major l none ≡ ok o
    → (o.0 ≡ l.head_stride) × (o.1 ≡ l.row_stride) × (len out ≡ len q)
unfolding out_layout
out_layout-plain q out dh token_major l o e = ground arith

out_layout-token :
    (q out : Tensor) (dh : ℕ) (token_major : Bool) (l : QueryLayout) (heads : ℕ) (o : ℕ × ℕ)
    → out_layout q out dh token_major l (some heads) ≡ ok o
    → (heads ≡ l.heads)
      × (o.0 ≡ dh)
      × (o.1 ≡ mul32 heads dh)
      × (len out ≡ mul64 (mul64 l.t_q heads) dh)
unfolding out_layout
out_layout-token q out dh token_major l heads o e = ground arith

pub out_layout-Strided :
    (q out : Tensor) (dh : ℕ) (token_major : Bool) (l : QueryLayout) (own : Option ℕ) (o : ℕ × ℕ)
    → Laid q dh l
    → 0 < len q
    → len q < u32_mod
    → out_layout q out dh token_major l own ≡ ok o
    → Strided l.heads l.t_q dh o.0 o.1 × (len out ≡ len q)
unfolding Laid Strided
out_layout-Strided q out dh token_major l none o (strided, whole) some_ small e =
    let (a, b, same) = out_layout-plain q out dh token_major l o e in ((rw (a, b) strided), same)
out_layout-Strided q out dh token_major l (some heads) o (strided, whole) some_ small e =
    let (a, b, c, count) = out_layout-token q out dh token_major l heads o e in
    let (same, stride) =
      out-exact (len out) l.t_q heads dh (len q) count (whole ∙ ap (λ n. n * l.t_q * dh) (sym a))
        some_ small in
    (inr (b, c ∙ stride ∙ ap (λ n. n * dh) a), same)
