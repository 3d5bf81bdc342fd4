-- ===== src/Executor/Recording.antt =====
-- src/executor/recording.rs: what holds of a dispatch that passes the recorder's checks.
use tensor_ash.Prelude.{
  ℕ, ◌+◌, ◌*◌, ◌%◌, ◌<◌, ◌⊎◌, not, ◌&&◌, ◌||◌, ◌==◌, if◌then◌else◌, ends_with, contains_text, ◌≤◌,
  ◌≡◌, refl, sym, inl, inr, Bool, true, false, ok, Result-cases, arith, div_ceil-covers, ltb,
}
use text.Mathlib.Text.{◌==◌ as str_eq}
use tensor_ash.Kernels.{Kernel, KernelSpec, spec, weights_f16, a_f16, is_packed, large}
use tensor_ash.Pipeline.{Device, bool_eq}
use tensor_ash.Matmul.{MatmulOp}
use tensor_ash.Matmul.Resolution.{ResolvedMatmul}
use tensor_ash.Executor.{record_checks, is_aligned, check_kernel, check_fusions, check_grid}

tile_m-positive : (k : Kernel) → ltb 0 (spec k).tile_m ≡ true
tile_m-positive large = refl
tile_m-positive _ = refl

tile_n-positive : (k : Kernel) → ltb 0 (spec k).tile_n ≡ true
tile_n-positive large = refl
tile_n-positive _ = refl

-- The grid of a dispatch covers an output of n columns and m rows, and no whole tile more.
abbrev pub Covers : KernelSpec → ℕ → ℕ → ℕ → ℕ → Type 0
Covers s m n gx gy =
    (n ≤ gx * s.tile_n)
    × (gx * s.tile_n < n + s.tile_n)
    × (m ≤ gy * s.tile_m)
    × (gy * s.tile_m < m + s.tile_m)

abbrev pub Within : Device → ℕ → ℕ → ℕ → Type 0
Within d gx gy gz = (gx ≤ d.max_x) × (gy ≤ d.max_y) × (gz ≤ d.max_z)

grid-Covers :
    (d : Device) (r : ResolvedMatmul) (s : KernelSpec) (gx gy gz : ℕ)
    → 0 < s.tile_m
    → 0 < s.tile_n
    → check_grid d r s ≡ ok (gx, gy, gz)
    → Covers s r.m r.n gx gy × Within d gx gy gz × (gz ≡ r.batch)
unfolding check_grid
grid-Covers d r s gx gy gz pm pn e =
    ground (arith, div_ceil-covers r.n s.tile_n pn, div_ceil-covers r.m s.tile_m pm)

-- The kernel reads the operands as they are stored.
abbrev pub Matches : KernelSpec → ResolvedMatmul → Type 0
Matches s r = (weights_f16 s ≡ r.b_f16) × (a_f16 s ≡ r.a_f16) × (is_packed s ≡ r.packed_b)

-- A kernel without edge handling, as its name says, takes whole tiles only; the static v3 kernel
-- takes K in pairs of its tiles.
abbrev pub WholeTiles : KernelSpec → ℕ → ResolvedMatmul → Type 0
WholeTiles s tile_k r = (r.m % s.tile_m ≡ 0) × (r.n % s.tile_n ≡ 0) × (r.k % tile_k ≡ 0)

abbrev pub Aligned : KernelSpec → ResolvedMatmul → Type 0
Aligned s r =
    (str_eq s.name "v3_128x128_bk8_static" ≡ true → WholeTiles s (2 * s.tile_k) r)
    × (str_eq s.name "v3_128x128_bk8_static" ≡ false
        → (ends_with s.name "_aligned" ≡ true) ⊎ (contains_text s.name "coopmat" ≡ true)
        → WholeTiles s s.tile_k r)

passed :
    (m n k tm tn tk : ℕ)
    → not (true && (not (m % tm == 0) || not (n % tn == 0) || not (k % tk == 0))) ≡ true
    → (m % tm ≡ 0) × (n % tn ≡ 0) × (k % tk ≡ 0)
passed m n k tm tn tk e = ground arith

-- The test of the three properties of a name.
tested :
    (al co v3 : Bool) (m n k tm tn tk : ℕ)
    → not (
        (al || co || v3)
        && (not (m % tm == 0) || not (n % tn == 0) || not (k % (if v3 then 2 * tk else tk) == 0)))
      ≡ true
    → (v3 ≡ true → (m % tm ≡ 0) × (n % tn ≡ 0) × (k % (2 * tk) ≡ 0))
      × (v3 ≡ false → (al ≡ true) ⊎ (co ≡ true) → (m % tm ≡ 0) × (n % tn ≡ 0) × (k % tk ≡ 0))
tested true true true m n k tm tn tk e = (λ h. passed m n k tm tn (2 * tk) e, λ h. cc)
tested true false true m n k tm tn tk e = (λ h. passed m n k tm tn (2 * tk) e, λ h. cc)
tested false true true m n k tm tn tk e = (λ h. passed m n k tm tn (2 * tk) e, λ h. cc)
tested false false true m n k tm tn tk e = (λ h. passed m n k tm tn (2 * tk) e, λ h. cc)
tested true true false m n k tm tn tk e = (λ h. cc, λ h g. passed m n k tm tn tk e)
tested true false false m n k tm tn tk e = (λ h. cc, λ h g. passed m n k tm tn tk e)
tested false true false m n k tm tn tk e = (λ h. cc, λ h g. passed m n k tm tn tk e)
tested false false false m n k tm tn tk e = (λ h. cc, λ h g. elim g [ inl x ↦ cc | inr x ↦ cc ])

is_aligned-Aligned :
    (s : KernelSpec) (r : ResolvedMatmul) → is_aligned s r.m r.n r.k ≡ true → Aligned s r
unfolding is_aligned
is_aligned-Aligned s r e =
    tested (ends_with s.name "_aligned") (contains_text s.name "coopmat")
      (str_eq s.name "v3_128x128_bk8_static") r.m r.n r.k s.tile_m s.tile_n s.tile_k e

bool_eq-eq : (a b : Bool) → bool_eq a b ≡ true → a ≡ b
bool_eq-eq true b e = sym e
bool_eq-eq false true e = e
bool_eq-eq false false e = refl

kernel-Matches :
    (d : Device) (r : ResolvedMatmul) (s : KernelSpec)
    → check_kernel d r s ≡ ok tt
    → Matches s r × Aligned s r
unfolding check_kernel
kernel-Matches d r s e = (
  (
    bool_eq-eq (weights_f16 s) r.b_f16 (ground (arith, e)),
    bool_eq-eq (a_f16 s) r.a_f16 (ground (arith, e)),
    sym (bool_eq-eq r.packed_b (is_packed s) (ground (arith, e))),
  ),
  is_aligned-Aligned s r (ground (arith, e)),
)

-- A dispatch that passes the checks has a kernel that reads the operands as they are stored; where
-- the kernel's name says that it handles no edges, its tiles (for the static v3 kernel, pairs of
-- tiles along K) divide M, N and K; and it has a grid that covers the output with no whole tile to
-- spare and stays within the device's limits, one plane for each batch.
pub record_checks-Covers :
    (d : Device) (op : MatmulOp) (r : ResolvedMatmul) (k : Kernel) (gx gy gz : ℕ)
    → record_checks d op r (spec k) ≡ ok (gx, gy, gz)
    → Matches (spec k) r
      × Aligned (spec k) r
      × Covers (spec k) r.m r.n gx gy
      × Within d gx gy gz
      × (gz ≡ r.batch)
unfolding record_checks
record_checks-Covers d op r k gx gy gz e = elim (Result-cases (check_kernel d r (spec k))) [
  | inr (x, h) ↦ absurd (ground (arith, rw h at e))
  | inl (tt, h) ↦ elim (Result-cases (check_fusions d op (spec k))) [
    | inr (x, g) ↦ absurd (ground (arith, rw (h, g) at e))
    | inl (tt, g) ↦
        let (matches, is) = kernel-Matches d r (spec k) h in
        let pm : 0 < (spec k).tile_m = ground (arith, tile_m-positive k) in
        let pn : 0 < (spec k).tile_n = ground (arith, tile_n-positive k) in
        let (covers, within, planes) = grid-Covers d r (spec k) gx gy gz pm pn (rw (h, g) at e) in
        (matches, is, covers, within, planes)
  ]
]
