-- ===== src/Matmul/Resolution/Shapes.antt =====
-- src/matmul/resolution.rs: what a successful resolution promises of strides, offsets and counts.
use tensor_ash.Prelude.{
  ℕ, zero, suc, min, ◌+◌, ◌*◌, ◌<◌, ◌≤◌, ◌≡◌, refl, ◌≢◌, ◌↔◌, ◌⊎◌, inl, inr, false, List, [], ◌∷◌,
  ok, err, arith, checked_mul, checked_add, ◌==◌, if◌then◌else◌, u64_mod, u32_mod, ltb, ◌∙◌,
  Result-cases, ap,
}
use tensor_ash.Matmul.Resolution.{
  MatrixShape, ResolvedMatmul, ResolveError, batch_stride, checked_flops, from_matrix_shapes,
  total_flops, total_flops_from, flops_overflow,
}

-- Each dimension is a positive u32, as `from_tensor_shape` leaves it.
pub record IsShape (s : MatrixShape) : Type 0 where
  pub batch_pos : 0 < s.batch
  pub rows_pos : 0 < s.rows
  pub cols_pos : 0 < s.cols
  pub batch_fits : s.batch < u32_mod
  pub rows_fits : s.rows < u32_mod
  pub cols_fits : s.cols < u32_mod

abbrev pub plane : MatrixShape → ℕ
plane s = s.rows * s.cols

abbrev pub stride_of : MatrixShape → ℕ
stride_of s = if s.batch == 1 then 0 else plane s

le-mul : (n c : ℕ) → 0 < c → n ≤ c * n
le-mul n zero h = absurd (omega arith)
le-mul n (suc c) h = omega arith

-- Two planes or more that are addressable together leave each plane below 2^32.
plane-fits : (b p : ℕ) → 0 < b → b ≢ 1 → b * p ≤ u32_mod → p < u32_mod
plane-fits b p h ne fits = grind arith

-- On a shape of positive u32 dimensions `batch_stride` succeeds exactly when the whole layout has
-- at most 2^32 elements; the stride is then 0 for one plane, and the plane's size for several.
pub batch_stride_iff :
    (s : MatrixShape) (stride : ℕ)
    → IsShape s
    → (batch_stride s ≡ ok stride) ↔ ((stride ≡ stride_of s) × (s.batch * plane s ≤ u32_mod))
unfolding batch_stride checked_mul
batch_stride_iff s stride v =
    (λ e. ground arith, λ h. ground (arith, plane-fits s.batch (plane s), le-mul (plane s) s.batch))

abbrev pub flops_of : MatrixShape → MatrixShape → MatrixShape → ℕ
flops_of a b c = 2 * c.batch * a.rows * b.cols * a.cols

mul-zero : (a b : ℕ) → 0 < b → a ≤ a * b
mul-zero a zero h = absurd (omega arith)
mul-zero a (suc b) h = omega arith

checked_flops_iff :
    (b m n k flops : ℕ)
    → 0 < b
    → 0 < m
    → 0 < n
    → 0 < k
    → (checked_flops b m n k ≡ ok flops)
      ↔ ((flops ≡ 2 * b * m * n * k) × (2 * b * m * n * k < u64_mod))
unfolding checked_flops checked_mul
checked_flops_iff b m n k flops hb hm hn hk = (
  λ e. ground arith,
  λ h. ground (arith, mul-zero (2 * b * m * n) k, mul-zero (2 * b * m) n, mul-zero (2 * b) m),
)

batch_stride-cases :
    (s : MatrixShape)
    → IsShape s
    → (batch_stride s ≡ ok (stride_of s)) × (s.batch * plane s ≤ u32_mod)
      ⊎ ((e : ResolveError) × (batch_stride s ≡ err e))
batch_stride-cases s v = elim (Result-cases (batch_stride s)) [
  | inl (n, h) ↦ let (value, fits) = (batch_stride_iff s n v).0 h in inl (h ∙ ap ok value, fits)
  | inr refused ↦ inr refused
]

checked_flops-cases :
    (b m n k : ℕ)
    → 0 < b
    → 0 < m
    → 0 < n
    → 0 < k
    → (checked_flops b m n k ≡ ok (2 * b * m * n * k)) × (2 * b * m * n * k < u64_mod)
      ⊎ ((e : ResolveError) × (checked_flops b m n k ≡ err e))
checked_flops-cases b m n k hb hm hn hk = elim (Result-cases (checked_flops b m n k)) [
  | inl (f, h) ↦
      let (value, fits) = (checked_flops_iff b m n k f hb hm hn hk).0 h in
      inl (h ∙ ap ok value, fits)
  | inr refused ↦ inr refused
]

-- The dimensions that multiply: A is M×K, B is K×N, C is M×N, and a batch of one broadcasts.
pub record Fits (a b c : MatrixShape) : Type 0 where
  pub inner : a.cols ≡ b.rows
  pub outer_m : a.rows ≡ c.rows
  pub outer_n : b.cols ≡ c.cols
  pub batch_a : (a.batch ≡ 1) ⊎ (a.batch ≡ c.batch)
  pub batch_b : (b.batch ≡ 1) ⊎ (b.batch ≡ c.batch)
  pub layout_a : a.batch * plane a ≤ u32_mod
  pub layout_b : b.batch * plane b ≤ u32_mod
  pub layout_c : c.batch * plane c ≤ u32_mod
  pub flops_fit : flops_of a b c < u64_mod

abbrev pub resolved : MatrixShape → MatrixShape → MatrixShape → ResolvedMatmul
resolved a b c = record {
  m = a.rows;
  n = b.cols;
  k = a.cols;
  batch = c.batch;
  batch_stride_a = stride_of a;
  batch_stride_b = stride_of b;
  batch_stride_c = stride_of c;
  total_flops = flops_of a b c;
  b_f16 = false;
  a_f16 = false;
  packed_b = false;
}

-- On shapes of positive u32 dimensions, resolution succeeds exactly on operands that multiply,
-- broadcast, stay within 32-bit addressing and have a FLOP count below 2^64; the result then holds
-- the dimensions, the strides and the count 2·B·M·N·K.
pub from_matrix_shapes_iff :
    (a b c : MatrixShape) (r : ResolvedMatmul)
    → IsShape a
    → IsShape b
    → IsShape c
    → (from_matrix_shapes a b c ≡ ok r) ↔ (Fits a b c × (r ≡ resolved a b c))
unfolding from_matrix_shapes
from_matrix_shapes_iff a b c r va vb vc = (
  λ e. ground (
    arith,
    batch_stride-cases a va,
    batch_stride-cases b vb,
    batch_stride-cases c vc,
    checked_flops-cases c.batch a.rows b.cols a.cols vc.batch_pos va.rows_pos vb.cols_pos
        va.cols_pos,
  ),
  λ h. ground (
    arith,
    (batch_stride_iff a (stride_of a) va).1 (refl, h.0.layout_a),
    (batch_stride_iff b (stride_of b) vb).1 (refl, h.0.layout_b),
    (batch_stride_iff c (stride_of c) vc).1 (refl, h.0.layout_c),
    (checked_flops_iff c.batch a.rows b.cols a.cols (flops_of a b c) vc.batch_pos va.rows_pos
          vb.cols_pos va.cols_pos).1
        (refl, h.0.flops_fit),
  ),
)

-- The offset at which a shader reads element (row, col) of batch `i`, with an operand's stride.
abbrev pub offset : MatrixShape → ℕ → ℕ → ℕ → ℕ
offset s i row col = i * stride_of s + row * s.cols + col

in_plane : (rows cols row col : ℕ) → row < rows → col < cols → row * cols + col < rows * cols
in_plane rows cols row col hr hc = grind arith

in_batch : (b p i x : ℕ) → i < b → x < p → i * p + x < b * p
in_batch b p i x hi hx = grind arith

offset-lt :
    (s : MatrixShape) (batch i row col : ℕ)
    → IsShape s
    → (s.batch ≡ 1) ⊎ (s.batch ≡ batch)
    → i < batch
    → row < s.rows
    → col < s.cols
    → offset s i row col < s.batch * plane s
offset-lt s batch i row col v either hi hr hc = ground (
  arith,
  in_plane s.rows s.cols row col hr hc,
  in_batch s.batch (plane s) i (row * s.cols + col),
  le-mul (plane s) s.batch,
)

resolved-addressable :
    (a b c : MatrixShape) (i row col x : ℕ)
    → IsShape a
    → IsShape b
    → IsShape c
    → Fits a b c
    → i < c.batch
    → row < a.rows
    → col < b.cols
    → x < a.cols
    → (offset a i row x < min (a.batch * plane a) u32_mod)
      × (offset b i x col < min (b.batch * plane b) u32_mod)
      × (i * stride_of c + row * b.cols + col < min (c.batch * plane c) u32_mod)
resolved-addressable a b c i row col x va vb vc f hi hr hc hx =
    let in_a = offset-lt a c.batch i row x va f.batch_a hi hr hx in
    let in_b = offset-lt b c.batch i x col vb f.batch_b hi (omega arith) hc in
    let in_c = offset-lt c c.batch i row col vc (inr refl) hi (omega arith) (omega arith) in
    let width : row * b.cols ≡ row * c.cols = ap (λ (t : ℕ). row * t) f.outer_n in
    (omega arith, omega arith, omega arith)

-- After a successful resolution every access of every batch, broadcast operands included, lies in
-- its tensor, and its 32-bit offset does not wrap.
pub from_matrix_shapes-addressable :
    (a b c : MatrixShape) (r : ResolvedMatmul) (i row col x : ℕ)
    → IsShape a
    → IsShape b
    → IsShape c
    → from_matrix_shapes a b c ≡ ok r
    → i < r.batch
    → row < r.m
    → col < r.n
    → x < r.k
    → (i * r.batch_stride_a + row * r.k + x < min (a.batch * plane a) u32_mod)
      × (i * r.batch_stride_b + x * r.n + col < min (b.batch * plane b) u32_mod)
      × (i * r.batch_stride_c + row * r.n + col < min (c.batch * plane c) u32_mod)
from_matrix_shapes-addressable a b c r i row col x va vb vc e hi hr hc hx =
    let (f, same) = (from_matrix_shapes_iff a b c r va vb vc).0 e in
    rw same (
      resolved-addressable a b c i row col x va vb vc f (rw same at hi) (rw same at hr)
        (rw same at hc) (rw same at hx))

abbrev pub sum_flops : List ResolvedMatmul → ℕ
sum_flops [] = 0
sum_flops (r ∷ rs) = r.total_flops + sum_flops rs

total_flops_from-sum :
    (acc : ℕ) (rs : List ResolvedMatmul)
    → acc < u64_mod
    → total_flops_from acc rs
      ≡ (if ltb (acc + sum_flops rs) u64_mod then ok (acc + sum_flops rs) else err flops_overflow)
unfolding total_flops_from checked_add
total_flops_from-sum acc [] h = ground arith
total_flops_from-sum acc (r ∷ rs) h = ground (arith, total_flops_from-sum (acc + r.total_flops) rs)

-- The FLOP count of a submission is the exact sum of its parts, refused exactly when that sum does
-- not fit in a u64.
pub total_flops-sum :
    (rs : List ResolvedMatmul)
    → total_flops rs
      ≡ (if ltb (sum_flops rs) u64_mod then ok (sum_flops rs) else err flops_overflow)
unfolding total_flops
total_flops-sum rs = ground (arith, total_flops_from-sum 0 rs)
