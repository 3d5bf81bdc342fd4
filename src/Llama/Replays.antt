-- ===== src/Llama/Replays.antt =====
-- tools/llama-ash/src/model/forward/: the blocks of a decode chain that is recorded against the
-- position buffer, and what they amount to at a position.
use tensor_ash.Prelude.{
  ℕ, ◌+◌, ◌≡◌, refl, sym, ap, ◌∙◌, true, false, ◌&&◌, not, List, [], ◌∷◌, ◌++◌, map, if◌then◌else◌,
  leb, ◌==◌, arith, map-append, Bool-cases, inl, inr,
}
use tensor_ash.Tensor.{Tensor}
use tensor_ash.Matmul.Stores.{Store, StoreDesc, no_store, rope, scatter, rope_scatter}
use tensor_ash.ExecGraph.{ExecOp, matmul, attn_decode, check_positions, pos_addr_of}
use tensor_ash.Llama.{Layer, Scratch, Model}
use tensor_ash.Llama.Graph.{
  base, store_desc, qkv_decode_ops, wide_mlp_ops, gated_ops, down, mlp_ops, lm_head_ops, last_row,
  decode_close_ops,
}

-- The store that a kernel makes when the position buffer holds `p`.
abbrev pub desc_at : ℕ → StoreDesc → StoreDesc
desc_at p d = if d.pos_addr == 0 then d else record d { pos_base = d.pos_base + p; pos_addr = 0 }

abbrev pub store_at : ℕ → Store → Store
store_at p no_store = no_store
store_at p (rope table d) = rope table (desc_at p d)
store_at p (scatter dst d) = scatter dst (desc_at p d)
store_at p (rope_scatter table dst d) = rope_scatter table dst (desc_at p d)

-- The operation that an operation of a decode chain amounts to when the position buffer holds `p`:
-- the kernels add the position to their base and to the length of the cache.
unfoldable pub at_position : ℕ → ExecOp → ExecOp
at_position p (matmul op) = matmul (record op { store = store_at p op.store })
at_position p (attn_decode q kt v scratch out d) =
    attn_decode q kt v scratch out
      (if d.pos_addr == 0 then d else record d { kv_len = d.kv_len + p; pos_addr = 0 })
at_position p op = op

-- A chain that reads the position buffer at `addr` alone, and what it amounts to at the position
-- `p`.
pub record Replays (p addr : ℕ) (recorded baked : List ExecOp) : Type 0 where
  pub positions : check_positions addr recorded ≡ true
  pub amounts : map (at_position p) recorded ≡ baked

module _ (p addr : ℕ) (real : (addr == 0) ≡ false) where
  checked-append :
      (xs ys : List ExecOp)
      → check_positions addr xs ≡ true
      → check_positions addr ys ≡ true
      → check_positions addr (xs ++ ys) ≡ true
  unfolding check_positions
  checked-append [] ys h k = k
  checked-append (x ∷ xs) ys h k =
      elim (Bool-cases (not (pos_addr_of x == 0) && not (pos_addr_of x == addr))) [
        | inl other ↦ cc
        | inr own ↦ rw own (checked-append xs ys (rw own at h) k)
      ]

  pub append-Replays :
      (xs xs' ys ys' : List ExecOp)
      → Replays p addr xs xs'
      → Replays p addr ys ys'
      → Replays p addr (xs ++ ys) (xs' ++ ys')
  append-Replays xs xs' ys ys' h k = record {
    positions = checked-append xs ys h.positions k.positions;
    amounts = map-append (at_position p) xs ys ∙ rw (h.amounts, k.amounts) refl;
  }

  pub Replays-along :
      (xs ys zs : List ExecOp) → xs ≡ ys → Replays p addr xs zs → Replays p addr ys zs
  Replays-along xs ys zs e h = record {
    positions = ap (check_positions addr) (sym e) ∙ h.positions;
    amounts = ap (map (at_position p)) (sym e) ∙ h.amounts;
  }

  pub addr-itself : (addr == addr) ≡ true
  addr-itself = ground arith

  from_zero : 0 + p ≡ p
  from_zero = omega arith

  pub qkv-Replays :
      (m : Model) (layer : Layer) (s : Scratch) (x_in : Tensor)
      → Replays p addr
          (map matmul (qkv_decode_ops m layer s x_in 0 addr))
          (map matmul (qkv_decode_ops m layer s x_in p 0))
  unfolding check_positions pos_addr_of at_position qkv_decode_ops store_desc base
  qkv-Replays m layer s x_in = record {
    positions = rw (real, addr-itself) refl;
    amounts = rw (real, from_zero) refl;
  }

  gated-Replays :
      (m : Model) (layer : Layer) (s : Scratch)
      → Replays p addr (gated_ops m layer s) (gated_ops m layer s)
  unfolding check_positions pos_addr_of at_position gated_ops
  gated-Replays m layer s = elim (Bool-cases (s.t == 1)) [
    | inl e ↦ record { positions = rw e refl; amounts = rw e refl }
    | inr e ↦ record { positions = rw e refl; amounts = rw e refl }
  ]

  pub mlp-Replays :
      (m : Model) (layer : Layer) (s : Scratch) (x_in x_out : Tensor)
      → Replays p addr (mlp_ops m layer s x_in x_out) (mlp_ops m layer s x_in x_out)
  unfolding check_positions pos_addr_of at_position mlp_ops wide_mlp_ops
  mlp-Replays m layer s x_in x_out = elim (Bool-cases (leb 128 s.t)) [
    | inl e ↦ record { positions = rw e refl; amounts = rw e refl }
    | inr e ↦ record { positions = rw e (both.positions); amounts = rw (e, both.amounts) refl }
  ]
    where
      both :
          Replays p addr
            (gated_ops m layer s ++ matmul (down layer s x_out) ∷ [])
            (gated_ops m layer s ++ matmul (down layer s x_out) ∷ [])
      both =
          append-Replays _ _ _ _ (gated-Replays m layer s)
            record { positions = refl; amounts = refl }

  pub lm_head-Replays :
      (m : Model) (s : Scratch) (x : Tensor)
      → Replays p addr (lm_head_ops m s x) (lm_head_ops m s x)
  unfolding check_positions pos_addr_of at_position lm_head_ops last_row
  lm_head-Replays m s x = elim (Bool-cases (s.t == 1)) [
    | inl e ↦ record { positions = rw e refl; amounts = rw e refl }
    | inr e ↦ record { positions = rw e refl; amounts = rw e refl }
  ]

  pub close-Replays :
      (m : Model) (s : Scratch) → Replays p addr (decode_close_ops m s) (decode_close_ops m s)
  unfolding decode_close_ops check_positions pos_addr_of at_position
  close-Replays m s = record { positions = refl; amounts = refl }
