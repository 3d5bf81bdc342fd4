-- ===== src/Elementwise/Strided/Scatter.antt =====
-- src/executor/elementwise/ops.rs: what an accepted scattering rotation reads and writes.
use tensor_ash.Prelude.{
  ℕ, zero, suc, ◌+◌, ◌*◌, ◌/◌, ◌%◌, ◌<◌, ◌≤◌, ◌≡◌, ◌≢◌, ok, arith, u32_mod, div_ceil,
  div_ceil-covers, try_u32, mul64, le-mul, mul_mono_right, index-lt, Result-cases, inl, inr,
}
use tensor_ash.Tensor.{Tensor, len, device_address, raw_buffer}
use tensor_ash.Elementwise.Pc.{Push, rope_scatter_pc}
use tensor_ash.Elementwise.{RopeDesc, RopeScatterDesc}
use tensor_ash.Elementwise.Plan.{Context, ElementwiseDispatch, wg, elementwise, plan_elementwise}
use tensor_ash.Elementwise.Strided.{plan_rope_scatter, rope_tokens, rope_pairs, farthest}
use tensor_ash.Elementwise.Strided.Bounds.{element, Within, Words, farthest-element, element-le}

-- The checks of a rotation.
rope_tokens-accepts :
    (input table : Tensor) (desc : RopeDesc) (tokens : ℕ)
    → rope_tokens input table desc ≡ ok tokens
    → (2 ≤ desc.rot_dim)
      × (desc.rot_dim ≤ desc.head_dim)
      × (0 < desc.heads * desc.head_dim)
      × (len input ≡ tokens * (desc.heads * desc.head_dim))
      × (mul64 (desc.pos_base + tokens) desc.rot_dim ≤ len table)
unfolding rope_tokens try_u32
rope_tokens-accepts input table desc tokens e = grind arith

-- The pairs of the grid, counted without wrapping.
pairs-exact :
    (tokens : ℕ) (desc : RopeDesc)
    → 2 ≤ desc.rot_dim
    → desc.rot_dim ≤ desc.head_dim
    → tokens * (desc.heads * desc.head_dim) < u32_mod
    → rope_pairs tokens desc ≡ tokens * desc.heads * (desc.rot_dim / 2)
pairs-exact tokens desc r h f =
    let outer : tokens * desc.heads ≤ tokens * desc.heads * desc.head_dim =
      le-mul (tokens * desc.heads) desc.head_dim (omega arith) in
    let half : tokens * desc.heads * (desc.rot_dim / 2) ≤ tokens * desc.heads * desc.head_dim =
      mul_mono_right (desc.rot_dim / 2) desc.head_dim (tokens * desc.heads) (omega arith) in
    let inner : (tokens * desc.heads) % u32_mod ≡ tokens * desc.heads = omega arith in
    rw (inner) (omega arith)

-- The rotation reads its table at a position and a lane.
table-covers :
    (base tokens rot t lane size : ℕ)
    → base + tokens < u32_mod
    → rot < u32_mod
    → mul64 (base + tokens) rot ≤ size
    → t < tokens
    → lane < rot
    → (base + t) * rot + lane < size
table-covers base tokens rot t lane size hb hr h ht hl =
    let fits : (base + tokens) * rot ≤ (base + tokens) * 0xffff_ffff =
      mul_mono_right rot 0xffff_ffff (base + tokens) (omega arith) in
    let at : (base + t) * rot + lane < (base + tokens) * rot =
      index-lt (base + t) lane (base + tokens) rot (omega arith) hl in
    omega arith

-- The block that a scattering rotation pushes: the geometry and strides of its descriptions.
abbrev pub pushed_scatter : Tensor → Tensor → Tensor → RopeDesc → RopeScatterDesc → ℕ → Push
pushed_scatter input table dst desc scatter tokens = rope_scatter_pc (record {
  tokens = tokens;
  heads = desc.heads;
  head_dim = desc.head_dim;
  rot_dim = desc.rot_dim;
  pos_base = desc.pos_base;
  dst_offset = scatter.dst_offset;
  dst_strides = scatter.dst_strides;
  pos_scale = scatter.pos_scale;
  in_ptr = device_address input;
  dst_ptr = device_address dst;
  table_ptr = device_address table;
  pos_ptr = desc.pos_addr;
})

scatter-accepts :
    (ctx : Context) (input table dst : Tensor) (desc : RopeDesc) (scatter : RopeScatterDesc)
    (d : ElementwiseDispatch)
    → plan_rope_scatter ctx input table dst desc scatter ≡ ok d
    → (tokens : ℕ) × (rope_tokens input table desc ≡ ok tokens)
      × (raw_buffer input ≢ raw_buffer dst)
      × (farthest scatter.dst_offset (tokens, desc.heads, desc.head_dim) scatter.dst_strides
          < len dst)
      × (d.groups.0 ≡ div_ceil (rope_pairs tokens desc) wg)
      × (d.push ≡ pushed_scatter input table dst desc scatter tokens)
unfolding plan_rope_scatter plan_elementwise elementwise
scatter-accepts ctx input table dst desc scatter d e =
    elim (Result-cases (rope_tokens input table desc)) [
      | inl (tokens, h) ↦ (tokens, h, ground arith, ground arith, ground arith, ground arith)
      | inr (_, h) ↦ absurd (ground arith)
    ]

positive-factors : (a b c : ℕ) → 0 < a * (b * c) → (0 < a) × (0 < b) × (0 < c)
positive-factors zero b c h = absurd (omega arith)
positive-factors (suc a) zero c h = absurd (omega arith)
positive-factors (suc a) (suc b) zero h = absurd (omega arith)
positive-factors (suc a) (suc b) (suc c) h = (omega arith, omega arith, omega arith)

-- A scattering rotation that is accepted, that reads no position on the device, of a non-empty
-- input of fewer than 2^32 elements at positions below 2^32, takes the input for whole tokens and
-- writes to another buffer; the destination of every (token, head, lane) lies in the destination
-- tensor, the table holds both factors of every rotated pair of every position, the grid has a
-- thread for each rotated pair, and what is pushed are the geometry, base position, offset and
-- strides that these places are computed from and the addresses of the three tensors.
pub rope_scatter-in_bounds :
    (ctx : Context) (input table dst : Tensor) (desc : RopeDesc) (scatter : RopeScatterDesc)
    (d : ElementwiseDispatch)
    → (desc.rot_dim < u32_mod) × (scatter.dst_offset < u32_mod) × Words scatter.dst_strides
    → desc.pos_addr ≡ 0
    → 0 < len input
    → len input < u32_mod
    → desc.pos_base + len input < u32_mod
    → plan_rope_scatter ctx input table dst desc scatter ≡ ok d
    → (tokens : ℕ) × (len input ≡ tokens * (desc.heads * desc.head_dim))
      × (raw_buffer input ≢ raw_buffer dst)
      × ((at : ℕ × ℕ × ℕ)
          → Within at (tokens, desc.heads, desc.head_dim)
          → element scatter.dst_offset scatter.dst_strides at < len dst)
      × ((t lane : ℕ)
          → t < tokens
          → lane < desc.rot_dim
          → (desc.pos_base + t) * desc.rot_dim + lane < len table)
      × (tokens * desc.heads * (desc.rot_dim / 2) ≤ d.groups.0 * wg)
      × (d.push ≡ pushed_scatter input table dst desc scatter tokens)
rope_scatter-in_bounds ctx input table dst desc scatter d (rot, off, words) unmoved some_ few pos
      e =
    let (tokens, th, apart, far, grid, pushed) =
      scatter-accepts ctx input table dst desc scatter d e in
    let (two, narrow, vec, whole, covered) = rope_tokens-accepts input table desc tokens th in
    let axes : (0 < tokens) × (0 < desc.heads) × (0 < desc.head_dim) =
      positive-factors tokens desc.heads desc.head_dim (omega arith) in
    let within_u32 : tokens * (desc.heads * desc.head_dim) < u32_mod = omega arith in
    let least : tokens ≤ len input =
      omega (arith, le-mul tokens (desc.heads * desc.head_dim) vec) in
    let pairs = pairs-exact tokens desc two narrow within_u32 in
    let exact =
      farthest-element scatter.dst_offset (tokens, desc.heads, desc.head_dim) scatter.dst_strides
        off words axes (omega arith) in
    (
      tokens,
      whole,
      apart,
      λ at inside. omega (
        arith,
        exact,
        far,
        element-le scatter.dst_offset (tokens, desc.heads, desc.head_dim) scatter.dst_strides at
            inside,
      ),
      λ t lane ht hl.
          table-covers desc.pos_base tokens desc.rot_dim t lane (len table) (omega arith) rot
            covered ht hl,
      omega (arith, grid, pairs, div_ceil-covers (rope_pairs tokens desc) wg (omega arith)),
      pushed,
    )
