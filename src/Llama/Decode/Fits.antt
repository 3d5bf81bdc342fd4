-- ===== src/Llama/Decode/Fits.antt =====
-- tools/llama-ash/src/model/forward/decode.rs: which positions of the caches a chain addresses.
use tensor_ash.Prelude.{
  ℕ, ◌<◌, ◌≤◌, ◌≡◌, refl, ap, List, [], ◌∷◌, ◌++◌, map, ok, ok_or, add32, arith, bind-ok, ok-eq,
  then-ok, bail_if, not, Bool-cases, inl, inr, leb, ◌==◌, ◌||◌,
}
use tensor_ash.Tensor.{Tensor}
use tensor_ash.Matmul.Stores.{Store, no_store, rope, scatter, rope_scatter}
use tensor_ash.Elementwise.{prefix}
use tensor_ash.ExecGraph.{ExecOp, matmul, softmax_rows, attn_decode, flash_attn}
use tensor_ash.Llama.{Layer, Scratch, Model, composed_attention, missing_scratch}
use tensor_ash.Llama.Graph.{
  base, store_desc, qkv_decode_ops, wide_mlp_ops, gated_ops, down, mlp_ops, lm_head_ops,
  decode_close_ops, attention_ops, decode_layers, decode_ops,
}
use tensor_ash.Llama.Replays.{at_position, store_at}

-- A store at a position below `t`, which is not looked up in the buffer.
abbrev pub StoreFits : ℕ → Store → Type 0
StoreFits t no_store = Unit {0}
StoreFits t (rope table d) = (d.pos_base < t) × (d.pos_addr ≡ 0)
StoreFits t (scatter dst d) = (d.pos_base < t) × (d.pos_addr ≡ 0)
StoreFits t (rope_scatter table dst d) = (d.pos_base < t) × (d.pos_addr ≡ 0)

-- An operation that addresses no position of a cache of `t` positions from `t` on.
abbrev pub OpFits : ℕ → ExecOp → Type 0
OpFits t (matmul op) = StoreFits t op.store
OpFits t (attn_decode q kt v scratch out d) = (d.kv_len ≤ t) × (d.pos_addr ≡ 0)
OpFits t (flash_attn q kt v out d) = d.kv_len ≤ t
OpFits t (softmax_rows input output scale (prefix valid)) = valid ≤ t
OpFits t op = Unit {0}

abbrev pub Fits : ℕ → List ExecOp → Type 0
Fits t [] = Unit {0}
Fits t (op ∷ ops) = OpFits t op × Fits t ops

pub append-Fits : (t : ℕ) (xs ys : List ExecOp) → Fits t xs → Fits t ys → Fits t (xs ++ ys)
append-Fits t [] ys h k = k
append-Fits t (x ∷ xs) ys (own, h) k = (own, append-Fits t xs ys h k)

pub along : (t : ℕ) (xs ys : List ExecOp) → xs ≡ ys → Fits t xs → Fits t ys
along t xs ys e h = rw e at h

store_at-same : (t p : ℕ) (store : Store) → StoreFits t store → store_at p store ≡ store
store_at-same t p no_store h = refl
store_at-same t p (rope table d) (h, k) = rw k refl
store_at-same t p (scatter dst d) (h, k) = rw k refl
store_at-same t p (rope_scatter table dst d) (h, k) = rw k refl

op-same : (t p : ℕ) (op : ExecOp) → OpFits t op → at_position p op ≡ op
unfolding at_position
op-same t p (matmul op) h = rw (store_at-same t p op.store h) refl
op-same t p (attn_decode q kt v scratch out d) (h, k) = rw k refl
op-same t p op h = refl

-- A chain that fits does not depend on the buffer.
pub at_position-same : (t p : ℕ) (ops : List ExecOp) → Fits t ops → map (at_position p) ops ≡ ops
at_position-same t p [] h = refl
at_position-same t p (op ∷ ops) (own, h) = rw (op-same t p op own, at_position-same t p ops h) refl

module _ (t p : ℕ) (below : p < t) where
  pub next-le : add32 p 1 ≤ t
  next-le = omega (arith, below)

  pub qkv-Fits :
      (m : Model) (layer : Layer) (s : Scratch) (x_in : Tensor)
      → Fits t (map matmul (qkv_decode_ops m layer s x_in p 0))
  unfolding qkv_decode_ops store_desc base
  qkv-Fits m layer s x_in = ((below, refl), ((below, refl), ((below, refl), tt)))

  pub lm_head-Fits : (m : Model) (s : Scratch) (x : Tensor) → Fits t (lm_head_ops m s x)
  unfolding lm_head_ops
  lm_head-Fits m s x = elim (Bool-cases (s.t == 1)) [
    | inl e ↦ rw e (tt, tt)
    | inr e ↦ rw e (tt, (tt, (tt, tt)))
  ]

  gated-Fits : (m : Model) (layer : Layer) (s : Scratch) → Fits t (gated_ops m layer s)
  unfolding gated_ops
  gated-Fits m layer s = elim (Bool-cases (s.t == 1)) [
    | inl e ↦ rw e (tt, (tt, tt))
    | inr e ↦ rw e (tt, (tt, (tt, tt)))
  ]

  mlp-Fits :
      (m : Model) (layer : Layer) (s : Scratch) (x_in x_out : Tensor)
      → Fits t (mlp_ops m layer s x_in x_out)
  unfolding mlp_ops wide_mlp_ops
  mlp-Fits m layer s x_in x_out = elim (Bool-cases (leb 128 s.t)) [
    | inl e ↦ rw e (tt, (tt, (tt, (tt, (tt, (tt, (tt, (tt, tt))))))))
    | inr e ↦
        rw e
          (tt, append-Fits t _ (matmul (down layer s x_out) ∷ []) (gated-Fits m layer s) (tt, tt))
  ]

  attention-Fits :
      (m : Model) (s : Scratch) (layer : Layer) (q_gqa attn_gqa scores : Tensor) (ops : List ExecOp)
      → attention_ops m s layer p 0 q_gqa attn_gqa scores ≡ ok ops
      → Fits t ops
  unfolding attention_ops base
  attention-Fits m s layer q_gqa attn_gqa scores ops e = elim (Bool-cases m.fused_attn) [
    | inl all ↦
        let (partials, have, h) =
          bind-ok (ok_or s.attn_partials missing_scratch) _ ops (rw all at e) in
        along t _ _ (ok-eq _ _ h) ((next-le, refl), tt)
    | inr composed ↦ along t _ _ (ok-eq _ _ (rw composed at e)) (tt, (next-le, (tt, tt)))
  ]

  layers-Fits :
      (m : Model) (s : Scratch) (q_gqa attn_gqa x_in x_out : Tensor) (layers : List Layer)
      (built : List ExecOp × Tensor)
      → decode_layers m s p 0 q_gqa attn_gqa x_in x_out layers ≡ ok built
      → Fits t built.0
  unfolding decode_layers
  layers-Fits m s q_gqa attn_gqa x_in x_out [] built e =
      along t _ _ (ap (λ z. z.0) (ok-eq _ _ e)) tt
  layers-Fits m s q_gqa attn_gqa x_in x_out (layer ∷ layers) built e =
      let (scores, scored, e1) = bind-ok (ok_or s.scores missing_scratch) _ built e in
      let (attention, attended, e2) =
        bind-ok (attention_ops m s layer p 0 q_gqa attn_gqa scores) _ built e1 in
      let (rest, rested, e3) =
        bind-ok (decode_layers m s p 0 q_gqa attn_gqa x_out x_in layers) _ built e2 in
      along t _ _ (ap (λ z. z.0) (ok-eq _ _ e3)) (
        append-Fits t _ _
          (append-Fits t _ _
            (append-Fits t _ _ (qkv-Fits m layer s x_in)
              (attention-Fits m s layer q_gqa attn_gqa scores attention attended))
            (mlp-Fits m layer s x_in x_out))
          (layers-Fits m s q_gqa attn_gqa x_out x_in layers rest rested))

  -- The chain of a position below `t` fits.
  pub decode_ops-Fits :
      (m : Model) (s : Scratch) (ops : List ExecOp) → decode_ops m s p 0 ≡ ok ops → Fits t ops
  unfolding decode_ops
  decode_ops-Fits m s ops e =
      let (guarded, e1) = then-ok (bail_if (not (0 == 0 || m.fused_attn)) composed_attention) _ e in
      let (q_gqa, had, e2) = bind-ok (ok_or s.q_gqa missing_scratch) _ ops e1 in
      let (attn_gqa, had', e3) = bind-ok (ok_or s.attn_gqa missing_scratch) _ ops e2 in
      let (layers, built, e4) =
        bind-ok (decode_layers m s p 0 q_gqa attn_gqa s.x_a s.x_b m.layers) _ ops e3 in
      along t _ _ (ok-eq _ _ e4) (
        append-Fits t _ _ (layers-Fits m s q_gqa attn_gqa s.x_a s.x_b m.layers layers built)
          (lm_head-Fits m s layers.1))

pub close-Fits : (t : ℕ) (m : Model) (s : Scratch) → Fits t (decode_close_ops m s)
unfolding decode_close_ops
close-Fits t m s = (tt, (tt, tt))
