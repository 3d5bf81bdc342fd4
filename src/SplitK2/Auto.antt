-- ===== src/SplitK2/Auto.antt =====
-- src/executor/splitk2.rs: an automatic split-K route is dispatchable as it is.
use tensor_ash.Prelude.{
  ℕ, zero, suc, ◌*◌, ◌/◌, ◌≤◌, ◌<◌, ◌≡◌, inl, inr, Bool, true, false, some, ok, arith, div_ceil,
  checked_mul, checked_mul32, u32_mod, max, [], ◌∷◌, Option-cases, saturating_mul,
}
use tensor_ash.Matmul.Resolution.{ResolvedMatmul, checked_product, product_from}
use tensor_ash.SplitK2.{
  Groups, SplitK2Dispatch, auto_route_fits, auto_fits_limits, plan, validate_scratch_geometry,
  auto_scratch_cap, stage1_tile, uses_m128, heuristic_splits, first_fitting, targets, least_k,
}

first_fitting-le :
    (wanted max_splits s : ℕ)
    → first_fitting wanted max_splits (64 ∷ 32 ∷ 16 ∷ 8 ∷ 4 ∷ []) ≡ some s
    → (4 ≤ s) × (s ≤ 64) × (s ≤ max_splits) × (s ≤ wanted)
unfolding first_fitting
first_fitting-le wanted max_splits s e = ground arith

targets-bounds :
    (large : Bool) (tiles k t p : ℕ) → targets large tiles k ≡ some (t, p) → (64 ≤ p) × (t ≤ 128)
unfolding targets least_k
targets-bounds true tiles k t p e = ground arith
targets-bounds false tiles k t p e = ground arith

part-le : (k p s : ℕ) → 64 ≤ p → s ≤ k / p → 64 * s ≤ k
part-le k p s large le = grind arith

-- The heuristic splits into 4 to 64 parts, each of at least 64 values of K.
pub heuristic_splits-bounds :
    (batch m n k s : ℕ) → heuristic_splits batch m n k ≡ some s → (4 ≤ s) × (s ≤ 64) × (64 * s ≤ k)
unfolding heuristic_splits
heuristic_splits-bounds batch m n k s e =
    let tile = stage1_tile m n in
    let tiles = saturating_mul (saturating_mul batch (div_ceil m tile)) (div_ceil n tile) in
    elim (Option-cases (targets (uses_m128 m n) tiles k)) [
      | inl none' ↦ absurd (ground arith)
      | inr ((t, p), some') ↦
          let bound = (targets-bounds (uses_m128 m n) tiles k t p some').0 in
          ground (
            arith,
            first_fitting-le (div_ceil t tiles) (k / p) s,
            first_fitting-le (div_ceil t tiles) (max (k / p) 16) s,
            part-le k p s,
          )
    ]

-- What `plan` computes where nothing overflows.
abbrev pub dispatch_of : ResolvedMatmul → ℕ → SplitK2Dispatch
dispatch_of r s = record {
  splits = s;
  gx = div_ceil r.n (stage1_tile r.m r.n);
  gy = div_ceil r.m (stage1_tile r.m r.n);
  gz = r.batch * s;
  mn = r.m * r.n;
  total = r.batch * r.m * r.n;
  reduce_groups = div_ceil (r.batch * r.m * r.n) 1024;
  scratch_bytes = r.batch * r.m * r.n * s * 4;
  use_m128 = uses_m128 r.m r.n;
}

record FitsLimits (g : Groups) (b m n s : ℕ) : Type 0 where
  x_fits : div_ceil n (stage1_tile m n) ≤ g.x
  y_fits : div_ceil m (stage1_tile m n) ≤ g.y
  z_fits : b * s ≤ g.z
  z_u32 : b * s < u32_mod
  reduce_fits : div_ceil (b * m * n) 1024 ≤ g.x
  addressable : b * m * n * s ≤ u32_mod
  capped : b * m * n * s * 4 ≤ auto_scratch_cap

limits-FitsLimits :
    (g : Groups) (b m n s : ℕ) → auto_fits_limits g b m n s ≡ true → FitsLimits g b m n s
unfolding auto_fits_limits checked_mul checked_mul32
limits-FitsLimits g b m n s e = record {
  x_fits = ground arith;
  y_fits = ground arith;
  z_fits = ground arith;
  z_u32 = ground arith;
  reduce_fits = ground arith;
  addressable = ground arith;
  capped = ground arith;
}

le-mul : (a c : ℕ) → 0 < c → a ≤ a * c
le-mul a zero h = absurd (omega arith)
le-mul a (suc c) h = omega arith

le-mul_left : (a c : ℕ) → 0 < c → a ≤ c * a
le-mul_left a zero h = absurd (omega arith)
le-mul_left a (suc c) h = omega arith

twice-le : (a s : ℕ) → 2 ≤ s → a * 2 ≤ a * s
twice-le a zero h = absurd (omega arith)
twice-le a (suc zero) h = absurd (omega arith)
twice-le a (suc (suc s)) h = omega arith

-- The element count of the scratch planes is their product.
elements-some :
    (b m n s : ℕ)
    → 0 < m
    → 0 < n
    → 2 ≤ s
    → b * m * n * s ≤ u32_mod
    → checked_product (b ∷ m ∷ n ∷ s ∷ []) ≡ some (b * m * n * s)
unfolding checked_product product_from checked_mul
elements-some b m n s pm pn ps le =
    ground (arith, le-mul b m pm, le-mul (b * m) n pn, twice-le (b * m * n) s ps)

product_swap : (b m n : ℕ) → m * n * b ≡ b * m * n
product_swap b m n = grind arith

outputs-le : (b m n : ℕ) → 0 < b → m * n ≤ b * m * n
outputs-le b m n pb = omega (arith, le-mul (m * n) b pb, product_swap b m n)

plan-fits :
    (g : Groups) (r : ResolvedMatmul) (s : ℕ)
    → 2 ≤ s
    → s ≤ 65535
    → s ≤ r.k
    → 0 < r.batch
    → 0 < r.m
    → 0 < r.n
    → FitsLimits g r.batch r.m r.n s
    → plan g r s ≡ ok (dispatch_of r s)
unfolding plan validate_scratch_geometry checked_mul checked_mul32
plan-fits g r s two most parts pb pm pn f =
    let x = f.x_fits in
    let y = f.y_fits in
    let z = f.z_fits in
    let w = f.z_u32 in
    let v = f.reduce_fits in
    let a = f.addressable in
    ground (
      arith,
      elements-some r.batch r.m r.n s pm pn two a,
      outputs-le r.batch r.m r.n pb,
      product_swap r.batch r.m r.n,
      twice-le (r.batch * r.m * r.n) s two,
    )

-- A split count that the automatic route accepts can be dispatched as it is: planning it succeeds,
-- with the exact grid, element counts and scratch bytes, within the device's limits and the
-- automatic scratch budget.
pub auto_route_fits-plan :
    (g : Groups) (r : ResolvedMatmul) (s : ℕ)
    → auto_route_fits g r.batch r.m r.n r.k s ≡ true
    → (plan g r s ≡ ok (dispatch_of r s))
      × ((dispatch_of r s).scratch_bytes ≤ auto_scratch_cap)
      × ((dispatch_of r s).gx ≤ g.x)
      × ((dispatch_of r s).gy ≤ g.y)
      × ((dispatch_of r s).gz ≤ g.z)
unfolding auto_route_fits
auto_route_fits-plan g r s e =
    let f = limits-FitsLimits g r.batch r.m r.n s (ground (arith, e)) in
    (
      plan-fits g r s (ground arith) (ground arith) (ground arith) (ground arith) (ground arith)
          (ground arith) f,
      f.capped,
      f.x_fits,
      f.y_fits,
      f.z_fits,
    )
