-- ===== src/Matmul/Resolution/Op/StoreBounds.antt =====
-- src/matmul/resolution.rs: the bound that `validate_store` puts on a scattered row.
use tensor_ash.Prelude.{
  ℕ, ◌+◌, ◌-◌, ◌*◌, ◌/◌, ◌%◌, ◌≤◌, ◌<◌, ◌≡◌, true, false, some, ok, arith, u64_mod,
}
use tensor_ash.Tensor.{Tensor}
use tensor_ash.Matmul.{MatmulOp}
use tensor_ash.Matmul.Epilogues
use tensor_ash.Matmul.Stores
use tensor_ash.Matmul.Stores.{StoreDesc}
use tensor_ash.Matmul.Resolution.{ResolvedMatmul}
use tensor_ash.Tensor.{len}
use tensor_ash.Matmul.Resolution.Op.{validate_store, store_last, from_op}
use tensor_ash.Matmul.Resolution.Op.Accepts.{from_op-Resolves}

-- Where column `col` of the row goes, at the position `pos_base`.
abbrev pub slot : StoreDesc → ℕ → ℕ
slot d col =
    d.pos_base * d.pos_scale + col / d.head_dim * d.stride_head + col % d.head_dim * d.stride_dim

-- The last slot, with no wrap.
abbrev pub last_slot : ℕ → StoreDesc → ℕ
last_slot n d =
    d.pos_base * d.pos_scale
    + (n / d.head_dim - 1) * d.stride_head
    + (d.head_dim - 1) * d.stride_dim

validate_store-last :
    (r : ResolvedMatmul) (op : MatmulOp) (dst : Tensor)
    → validate_store r op ≡ ok tt
    → Stores.dst op.store ≡ some dst
    → let d = Stores.desc op.store in
      (0 < d.head_dim) × (r.n % d.head_dim ≡ 0) × (last_slot r.n d % u64_mod < len dst)
unfolding validate_store store_last
validate_store-last r op dst v e = ground arith

quotient_below : (n h col : ℕ) → 0 < h → n % h ≡ 0 → col < n → col / h ≤ n / h - 1
quotient_below n h col p even hc = grind arith

-- The last slot is the greatest.
slot-le-last :
    (n col : ℕ) (d : StoreDesc)
    → 0 < d.head_dim
    → n % d.head_dim ≡ 0
    → col < n
    → slot d col ≤ last_slot n d
slot-le-last n col d p even hc =
    let heads = quotient_below n d.head_dim col p even hc in
    let lane : col % d.head_dim ≤ d.head_dim - 1 = omega arith in grind arith

-- Once an op resolves, and the u64 sum of the check does not wrap, every column of the row, stored
-- at the position that the op states, lands on an element of the destination.
pub from_op-store_in_bounds :
    (op : MatmulOp) (r : ResolvedMatmul) (dst : Tensor) (col : ℕ)
    → from_op op ≡ ok r
    → Stores.dst op.store ≡ some dst
    → last_slot r.n (Stores.desc op.store) < u64_mod
    → col < r.n
    → slot (Stores.desc op.store) col < len dst
from_op-store_in_bounds op r dst col e s small hc =
    let (p, even, last) = validate_store-last r op dst (from_op-Resolves op r e).store s in
    let le = slot-le-last r.n col (Stores.desc op.store) p even hc in omega arith

last_col : (n h : ℕ) → 0 < h → n % h ≡ 0 → 0 < n → ((n - 1) / h ≡ n / h - 1) × ((n - 1) % h ≡ h - 1)
last_col n h p even pos = (grind arith, grind arith)

-- The sum wraps: a scatter whose last column lies outside the destination passes the check when
-- the wrapped sum is small, if the rest of the op is in order.
pub validate_store-wraps :
    (r : ResolvedMatmul) (op : MatmulOp) (dst : Tensor) (d : StoreDesc)
    → op.store ≡ Stores.scatter dst d
    → (r.m ≡ 1) × (r.batch ≡ 1) × (r.b_f16 ≡ true)
    → (op.call.accumulate ≡ false) × (Epilogues.has_none op.epilogue ≡ true)
    → (0 < d.head_dim) × (d.head_dim % 2 ≡ 0) × (r.n % d.head_dim ≡ 0) × (0 < r.n)
    → len dst ≤ last_slot r.n d
    → last_slot r.n d % u64_mod < len dst
    → (validate_store r op ≡ ok tt) × (len dst ≤ slot d (r.n - 1))
unfolding validate_store store_last
validate_store-wraps r op dst d s dims plain heads outside wrapped = (
  ground arith,
  let (q, x) = last_col r.n d.head_dim heads.0 heads.2 heads.3 in rw (q, x) outside,
)
