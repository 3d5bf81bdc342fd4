-- ===== src/Llama/Caches.antt =====
-- tools/llama-ash/src/model/forward/: where the prefill and a decode step put k and v of a token.
use tensor_ash.Prelude.{
  ℕ, ◌+◌, ◌*◌, ◌/◌, ◌%◌, ◌<◌, ◌≤◌, ◌≡◌, ◌∙◌, arith, u32_mod, mul32, index-lt, mul_mono, le-mul, sym,
}
use tensor_ash.Matmul.Resolution.Op.StoreBounds.{slot}
use tensor_ash.Elementwise.Strided.Bounds.{element, Within}
use tensor_ash.Elementwise.{CopyDesc}
use tensor_ash.Llama.{Model}
use tensor_ash.Llama.Graph.{base, store_desc, k_desc, v_desc}
use tensor_ash.Llama.PrefillGraph.{append_k, append_v}

column_head : (h d dh : ℕ) → d < dh → (h * dh + d) / dh ≡ h
column_head h d dh p = grind arith

column_lane : (h d dh : ℕ) → d < dh → (h * dh + d) % dh ≡ d
column_lane h d dh p = grind arith

-- Three factors whose product is a u32.
small_product : (kv dh t h : ℕ) → h < kv → kv * dh * t < u32_mod → dh * t < u32_mod
small_product kv dh t h p fits = omega (arith, fits, mul_mono 1 kv (dh * t) (omega (arith, p)))

-- A lane of a head below the heads, at a position below `t`.
cell-lt : (kv dh t h d p : ℕ) → h < kv → d < dh → p < t → (h * dh + d) * t + p < kv * dh * t
cell-lt kv dh t h d p hh hd hp = index-lt (h * dh + d) p (kv * dh) t (index-lt h d kv dh hh hd) hp

row-lt : (kv dh t h d p : ℕ) → h < kv → d < dh → p < t → (h * t + p) * dh + d < kv * t * dh
row-lt kv dh t h d p hh hd hp = index-lt (h * t + p) d (kv * t) dh (index-lt h p kv t hh hp) hd

module _ (kv dh t h d p : ℕ) (hh : h < kv) (hd : d < dh) (hp : p < t)
    (fits : kv * dh * t < u32_mod) where
  k_stride : mul32 dh t ≡ dh * t
  k_stride = omega (arith, small_product kv dh t h hh fits)

  v_stride : mul32 t dh ≡ t * dh
  v_stride = omega (arith, small_product kv dh t h hh fits)

  k_slot : p * 1 + (h * dh + d) / dh * mul32 dh t + (h * dh + d) % dh * t ≡ (h * dh + d) * t + p
  k_slot = rw (column_head h d dh hd, column_lane h d dh hd, k_stride) (omega arith)

  v_slot : p * dh + (h * dh + d) / dh * mul32 t dh + (h * dh + d) % dh * 1 ≡ (h * t + p) * dh + d
  v_slot = rw (column_head h d dh hd, column_lane h d dh hd, v_stride) (omega arith)

-- What a copy does with lane `d` of head `h` of token `tok`: it is a position of the copy's extent,
-- is read from the token's row of `width` elements at column `col`, and is written to `place`.
abbrev pub Copies : CopyDesc → ℕ × ℕ × ℕ → ℕ → ℕ → ℕ → Type 0
Copies c at width col place =
    Within at c.extent
    × (element c.src_offset c.src_strides at ≡ at.2 * width + col)
    × (element c.dst_offset c.dst_strides at ≡ place)

-- Take a head `h`, a lane `d` of it, and a token `tok` of a prefill of `t` tokens that starts at
-- the position `pos_base` and fits the caches, whose element count is a u32. The copies of the
-- prefill that append to the caches take the element of that lane, head and token from the token's
-- row of k and of v, and put it exactly where a decode step at that token's position stores the
-- column of that head and lane; both places lie inside the caches.
pub append-agree :
    (m : Model) (t pos_base h d tok : ℕ)
    → h < m.cfg.kv_heads
    → d < m.cfg.dh
    → tok < t
    → pos_base + t ≤ m.cfg.t_max
    → m.cfg.kv_heads * m.cfg.dh * m.cfg.t_max < u32_mod
    → let kv_dim = m.cfg.kv_heads * m.cfg.dh in
      let col = h * m.cfg.dh + d in
      let to_k = slot (k_desc m (pos_base + tok) 0) col in
      let to_v = slot (v_desc m (pos_base + tok) 0) col in
      Copies (append_k m.cfg t pos_base) (d, h, tok) kv_dim col to_k
      × (to_k < kv_dim * m.cfg.t_max)
      × Copies (append_v m.cfg t pos_base) (d, h, tok) kv_dim col to_v
      × (to_v < kv_dim * m.cfg.t_max)
unfolding store_desc base append_k append_v
append-agree m t pos_base h d tok hh hd ht bounded fits =
    let ks = k_slot kv dh t_max h d p hh hd hp fits in
    let vs = v_slot kv dh t_max h d p hh hd hp fits in
    (
      ((hd, hh, ht), row, sym (ks ∙ k_copy)),
      omega (arith, ks, cell-lt kv dh t_max h d p hh hd hp),
      ((hd, hh, ht), row, sym (vs ∙ v_copy)),
      omega (arith, vs, row-lt kv dh t_max h d p hh hd hp),
    )
  where
    kv : ℕ
    kv = m.cfg.kv_heads

    dh : ℕ
    dh = m.cfg.dh

    t_max : ℕ
    t_max = m.cfg.t_max

    p : ℕ
    p = pos_base + tok

    hp : pos_base + tok < m.cfg.t_max
    hp = omega (arith, ht, bounded)

    k_copy :
        (h * dh + d) * t_max + p ≡ pos_base + d * t_max + h * mul32 m.cfg.dh m.cfg.t_max + tok * 1
    k_copy = rw (k_stride kv dh t_max h d p hh hd hp fits) (omega arith)

    base_offset : mul32 pos_base m.cfg.dh ≡ pos_base * m.cfg.dh
    base_offset =
        omega (
          arith,
          small_product kv dh t_max h hh fits,
          mul_mono pos_base t_max dh (omega (arith, hp)),
        )

    v_copy :
        (h * t_max + p) * dh + d
        ≡ mul32 pos_base m.cfg.dh + d * 1 + h * mul32 m.cfg.t_max m.cfg.dh + tok * dh
    v_copy = rw (v_stride kv dh t_max h d p hh hd hp fits, base_offset) (omega arith)

    width : mul32 m.cfg.kv_heads m.cfg.dh ≡ m.cfg.kv_heads * m.cfg.dh
    width = omega (arith, fits, le-mul (m.cfg.kv_heads * m.cfg.dh) m.cfg.t_max (omega (arith, hp)))

    row :
        0 + d * 1 + h * m.cfg.dh + tok * mul32 m.cfg.kv_heads m.cfg.dh
        ≡ tok * (m.cfg.kv_heads * m.cfg.dh) + (h * m.cfg.dh + d)
    row = rw width (omega arith)
