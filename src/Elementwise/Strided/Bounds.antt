-- ===== src/Elementwise/Strided/Bounds.antt =====
-- src/executor/elementwise/ops.rs: what an accepted copy or scatter touches.
use tensor_ash.Prelude.{
  ℕ, zero, suc, ◌+◌, ◌-◌, ◌*◌, ◌%◌, ◌<◌, ◌≤◌, ◌≡◌, ◌≢◌, false, ok, arith, u32_mod, u64_mod,
  div_ceil, div_ceil-covers, try_u32, sub64, add64, mul_mono, le-mul,
}
use tensor_ash.Tensor.{Tensor, len, device_address, raw_buffer}
use tensor_ash.Elementwise.Pc.{Push, copy_pc}
use tensor_ash.Elementwise.{CopyDesc}
use tensor_ash.Elementwise.Plan.{Context, ElementwiseDispatch, wg, elementwise, plan_elementwise}
use tensor_ash.Elementwise.Strided.{plan_copy_strided, farthest, extent_product, has_zero}

-- The element of a triple of strides at three coordinates.
abbrev pub element : ℕ → ℕ × ℕ × ℕ → ℕ × ℕ × ℕ → ℕ
element offset strides at = offset + at.0 * strides.0 + at.1 * strides.1 + at.2 * strides.2

abbrev pub Within : ℕ × ℕ × ℕ → ℕ × ℕ × ℕ → Type 0
Within at extent = (at.0 < extent.0) × (at.1 < extent.1) × (at.2 < extent.2)

-- The fields of a triple are u32 values.
abbrev pub Words : ℕ × ℕ × ℕ → Type 0
Words t = (t.0 < u32_mod) × (t.1 < u32_mod) × (t.2 < u32_mod)

-- Fewer than 2^32 positions: the axes add up to less than their product.
sum-axes :
    (x y z : ℕ)
    → 0 < x
    → 0 < y
    → 0 < z
    → x * y * z < u32_mod
    → (x - 1) + (y - 1) + (z - 1) < u32_mod
sum-axes zero y z hx hy hz h = absurd (omega arith)
sum-axes (suc x) zero z hx hy hz h = absurd (omega arith)
sum-axes (suc x) (suc y) zero hx hy hz h = absurd (omega arith)
sum-axes (suc x) (suc y) (suc z) hx hy hz h = omega (arith, sum-suc x y z)
  where
    sum-suc : (x y z : ℕ) → x + y + z < suc x * suc y * suc z
    sum-suc x y z = omega arith

scaled : (a s : ℕ) → s < u32_mod → a * s ≤ a * 0xffff_ffff
scaled zero s h = omega arith
scaled (suc a) s h = omega (arith, scaled a s h)

-- The largest index of a small extent.
abbrev pub last : ℕ × ℕ × ℕ → ℕ × ℕ × ℕ
last extent = (extent.0 - 1, extent.1 - 1, extent.2 - 1)

sub64-one : (x : ℕ) → 0 < x → x - 1 < u32_mod → sub64 x 1 ≡ x - 1
sub64-one x h f = omega arith

sum-small :
    (o a b c : ℕ)
    → o + a + b + c < u64_mod
    → add64 (add64 (add64 o (a % u64_mod)) (b % u64_mod)) (c % u64_mod) ≡ o + a + b + c
sum-small o a b c h = omega arith

-- With fewer than 2^32 positions the u64 sum does not wrap.
pub farthest-element :
    (offset : ℕ) (extent strides : ℕ × ℕ × ℕ)
    → offset < u32_mod
    → Words strides
    → (0 < extent.0) × (0 < extent.1) × (0 < extent.2)
    → extent.0 * extent.1 * extent.2 < u32_mod
    → farthest offset extent strides ≡ element offset strides (last extent)
unfolding farthest
farthest-element offset (x, y, z) (s, t, u) ho hs (hx, hy, hz) h =
    let sum : (x - 1) + (y - 1) + (z - 1) < u32_mod = sum-axes x y z hx hy hz h in
    let a : (x - 1) * s ≤ (x - 1) * 0xffff_ffff = scaled (x - 1) s hs.0 in
    let b : (y - 1) * t ≤ (y - 1) * 0xffff_ffff = scaled (y - 1) t hs.1 in
    let c : (z - 1) * u ≤ (z - 1) * 0xffff_ffff = scaled (z - 1) u hs.2 in
    rw (sub64-one x hx (omega arith), sub64-one y hy (omega arith), sub64-one z hz (omega arith))
      (sum-small offset ((x - 1) * s) ((y - 1) * t) ((z - 1) * u) (omega arith))

pub element-le :
    (offset : ℕ) (extent strides at : ℕ × ℕ × ℕ)
    → Within at extent
    → element offset strides at ≤ element offset strides (last extent)
element-le offset (x, y, z) (s, t, u) (i, j, k) (hi, hj, hk) = omega (
  arith,
  mul_mono i (x - 1) s (omega arith),
  mul_mono j (y - 1) t (omega arith),
  mul_mono k (z - 1) u (omega arith),
)

-- The block that a copy pushes: the strides and offsets of its description.
abbrev pub pushed_copy : Tensor → Tensor → CopyDesc → Push
pushed_copy src dst desc = copy_pc (record {
  extent = desc.extent;
  src_offset = desc.src_offset;
  src_strides = desc.src_strides;
  dst_offset = desc.dst_offset;
  dst_strides = desc.dst_strides;
  pos_scale = desc.pos_scale;
  src_ptr = device_address src;
  dst_ptr = device_address dst;
  pos_ptr = desc.pos_addr;
})

-- The checks that an accepted copy has passed, and the block that it pushes.
copy-accepts :
    (ctx : Context) (src dst : Tensor) (desc : CopyDesc) (d : ElementwiseDispatch)
    → plan_copy_strided ctx src dst desc ≡ ok d
    → (raw_buffer src ≢ raw_buffer dst)
      × (has_zero desc.extent ≡ false)
      × (farthest desc.src_offset desc.extent desc.src_strides < len src)
      × (farthest desc.dst_offset desc.extent desc.dst_strides < len dst)
      × (extent_product desc.extent < u32_mod)
      × (d.groups.0 ≡ div_ceil (extent_product desc.extent) wg)
      × (d.groups.0 ≤ ctx.max_x)
      × (d.push ≡ pushed_copy src dst desc)
unfolding plan_copy_strided plan_elementwise elementwise try_u32
copy-accepts ctx src dst desc d e = ground arith

unfoldable pub WordCopy : CopyDesc → Type 0
WordCopy desc =
    (desc.src_offset < u32_mod)
    × (desc.dst_offset < u32_mod)
    × Words desc.src_strides
    × Words desc.dst_strides

positive-axes :
    (extent : ℕ × ℕ × ℕ)
    → has_zero extent ≡ false
    → (0 < extent.0) × (0 < extent.1) × (0 < extent.2)
positive-axes (x, y, z) h = ground arith

abbrev pub positions : ℕ × ℕ × ℕ → ℕ
positions extent = extent.0 * extent.1 * extent.2

extent_product-exact :
    (extent : ℕ × ℕ × ℕ)
    → 0 < extent.2
    → positions extent < u64_mod
    → extent_product extent ≡ positions extent
unfolding extent_product
extent_product-exact (x, y, z) h f =
    let small : x * y ≤ x * y * z = le-mul (x * y) z h in
    let inner : (x * y) % u64_mod ≡ x * y = omega arith in rw (inner) (omega arith)

-- A strided copy that is accepted, that reads no position on the device and whose extents multiply
-- to a u64, is between different buffers; the element of every position of the extent lies in the
-- source and in the destination, the grid has a thread for each position and no more columns than
-- the device allows, and what is pushed are the extent, offsets and strides that these elements are
-- computed from and the addresses of the two tensors. The triples and offsets are u32 values.
pub copy-in_bounds :
    (ctx : Context) (src dst : Tensor) (desc : CopyDesc) (d : ElementwiseDispatch)
    → WordCopy desc
    → desc.pos_addr ≡ 0
    → positions desc.extent < u64_mod
    → plan_copy_strided ctx src dst desc ≡ ok d
    → (raw_buffer src ≢ raw_buffer dst)
      × ((at : ℕ × ℕ × ℕ)
          → Within at desc.extent
          → (element desc.src_offset desc.src_strides at < len src)
            × (element desc.dst_offset desc.dst_strides at < len dst))
      × (positions desc.extent ≤ d.groups.0 * wg)
      × (d.groups.0 ≤ ctx.max_x)
      × (d.push ≡ pushed_copy src dst desc)
unfolding WordCopy
copy-in_bounds ctx src dst desc d (so, do_, ss, ds) unmoved fits e =
    let (apart, nonzero, src_fits, dst_fits, small, grid, limit, pushed) =
      copy-accepts ctx src dst desc d e in
    let axes = positive-axes desc.extent nonzero in
    let total : extent_product desc.extent ≡ positions desc.extent =
      extent_product-exact desc.extent axes.2 fits in
    let few : positions desc.extent < u32_mod = omega arith in
    let from = farthest-element desc.src_offset desc.extent desc.src_strides so ss axes few in
    let to = farthest-element desc.dst_offset desc.extent desc.dst_strides do_ ds axes few in
    (
      apart,
      λ at within. (
        omega (
          arith,
          from,
          src_fits,
          element-le desc.src_offset desc.extent desc.src_strides at within,
        ),
        omega (
          arith,
          to,
          dst_fits,
          element-le desc.dst_offset desc.extent desc.dst_strides at within,
        ),
      ),
      omega (arith, grid, total, div_ceil-covers (extent_product desc.extent) wg (omega arith)),
      limit,
      pushed,
    )
