-- ===== src/Llama/Replayed.antt =====
-- tools/llama-ash/src/model/forward/decode.rs: the chain that is recorded once against the position
-- buffer, and the chains that are recorded for a position.
use tensor_ash.Prelude.{
  ℕ, ◌+◌, ◌%◌, ◌<◌, ◌≡◌, refl, sym, ap, ◌∙◌, Bool, true, false, ◌||◌, not, List, [], ◌∷◌, ◌++◌, map,
  Result, ok, bail_if, ok_or, ◌==◌, add32, u32_mod, arith, bind-ok, ok-eq, then-ok,
}
use tensor_ash.Tensor.{Tensor}
use tensor_ash.ExecGraph.{ExecOp, check_positions, pos_addr_of}
use tensor_ash.Llama.{Layer, Scratch, Model, ModelError, missing_scratch, composed_attention}
use tensor_ash.Llama.Graph.{
  base, lm_head_ops, decode_close_ops, fused, attention_ops, layer_ops, decode_layers, decode_ops,
}
use tensor_ash.Llama.Replays.{
  at_position, Replays, append-Replays, Replays-along, addr-itself, qkv-Replays, mlp-Replays,
  lm_head-Replays, close-Replays,
}

module _ (p addr : ℕ) (real : (addr == 0) ≡ false) where
  -- At a small position, the attention that is recorded for the buffer.
  attention-Replays :
      (m : Model) (s : Scratch) (layer : Layer) (q_gqa attn_gqa scores : Tensor) (ops : List ExecOp)
      → p + 1 < u32_mod
      → m.fused_attn ≡ true
      → attention_ops m s layer 0 addr q_gqa attn_gqa scores ≡ ok ops
      → (baked : List ExecOp) × (attention_ops m s layer p 0 q_gqa attn_gqa scores ≡ ok baked)
        × Replays p addr ops baked
  unfolding check_positions pos_addr_of at_position attention_ops base
  attention-Replays m s layer q_gqa attn_gqa scores ops small all e =
      let (partials, have, h) =
        bind-ok (ok_or s.attn_partials missing_scratch) _ ops (rw (all, real) at e) in
      let same = ok-eq (attends 1 addr partials) ops h in
      (
        attends (add32 p 1) 0 partials,
        rw (all, have) refl,
        record {
          positions = rw (sym same, real, addr-itself p addr real) refl;
          amounts = rw (sym same, real, grown) refl;
        },
      )
    where
      attends : ℕ → ℕ → Tensor → List ExecOp
      attends kv_len pos_addr partials = fused m layer q_gqa attn_gqa partials kv_len pos_addr ∷ []

      grown : 1 + p ≡ (p + 1) % u32_mod
      grown = omega (arith, small)

  joined :
      (m : Model) (s : Scratch) (q_gqa attn_gqa x_in x_out : Tensor) (layer : Layer)
      (layers : List Layer) (scores : Tensor) (attention : List ExecOp)
      (rest : List ExecOp × Tensor)
      → ok_or s.scores missing_scratch ≡ ok scores
      → attention_ops m s layer p 0 q_gqa attn_gqa scores ≡ ok attention
      → decode_layers m s p 0 q_gqa attn_gqa x_out x_in layers ≡ ok rest
      → decode_layers m s p 0 q_gqa attn_gqa x_in x_out (layer ∷ layers)
        ≡ ok (layer_ops m layer s x_in x_out p 0 attention ++ rest.0, rest.1)
  unfolding decode_layers
  joined m s q_gqa attn_gqa x_in x_out layer layers scores attention rest h k l = rw (h, k, l) refl

  layers-Replays :
      (m : Model) (s : Scratch) (q_gqa attn_gqa x_in x_out : Tensor) (layers : List Layer)
      (recorded : List ExecOp × Tensor)
      → p + 1 < u32_mod
      → m.fused_attn ≡ true
      → decode_layers m s 0 addr q_gqa attn_gqa x_in x_out layers ≡ ok recorded
      → (baked : List ExecOp) × (decode_layers m s p 0 q_gqa attn_gqa x_in x_out layers
          ≡ ok (baked, recorded.1))
        × Replays p addr recorded.0 baked
  unfolding decode_layers check_positions
  layers-Replays m s q_gqa attn_gqa x_in x_out [] recorded small all e =
      let same = ok-eq _ _ e in
      (
        [],
        rw (sym same) refl,
        record { positions = rw (sym same) refl; amounts = rw (sym same) refl },
      )
  layers-Replays m s q_gqa attn_gqa x_in x_out (layer ∷ layers) recorded small all e =
      let (scores, scored, e1) = bind-ok (ok_or s.scores missing_scratch) _ recorded e in
      let (attention, attended, e2) =
        bind-ok (attention_ops m s layer 0 addr q_gqa attn_gqa scores) _ recorded e1 in
      let (rest, rested, e3) =
        bind-ok (decode_layers m s 0 addr q_gqa attn_gqa x_out x_in layers) _ recorded e2 in
      let (attention', attended', h) =
        attention-Replays m s layer q_gqa attn_gqa scores attention small all attended in
      let (rest', rested', k) =
        layers-Replays m s q_gqa attn_gqa x_out x_in layers rest small all rested in
      let same = ok-eq _ _ e3 in
      let whole =
        append-Replays p addr real _ _ _ _
          (append-Replays p addr real _ _ _ _
            (append-Replays p addr real _ _ _ _ (qkv-Replays p addr real m layer s x_in) h)
            (mlp-Replays p addr real m layer s x_in x_out))
          k in
      (
        _,
        joined m s q_gqa attn_gqa x_in x_out layer layers scores attention' (rest', rest.1) scored
              attended' rested'
            ∙ ap (λ z. ok (layer_ops m layer s x_in x_out p 0 attention' ++ rest', z.1)) same,
        Replays-along p addr real _ _ _ (ap (λ z. z.0) same) whole,
      )

-- The chain of a position, from its layers.
baked_chain :
    (m : Model) (s : Scratch) (p : ℕ) (q_gqa attn_gqa : Tensor) (layers : List ExecOp × Tensor)
    → ok_or s.q_gqa missing_scratch ≡ ok q_gqa
    → ok_or s.attn_gqa missing_scratch ≡ ok attn_gqa
    → decode_layers m s p 0 q_gqa attn_gqa s.x_a s.x_b m.layers ≡ ok layers
    → decode_ops m s p 0 ≡ ok (layers.0 ++ lm_head_ops m s layers.1)
unfolding decode_ops
baked_chain m s p q_gqa attn_gqa layers h k l = rw (h, k, l) refl

-- The chain that `decode_ops` records for the position buffer at `addr`, with the tail that closes
-- the token loop, reads no other position cell, so that `prepare_exec_ops` accepts its positions;
-- and when the buffer holds a position `p` it amounts, operation by operation, to the chain that
-- `decode_ops` builds for the position `p` itself, for every number of layers. The address is not
-- 0, and p + 1 fits u32.
pub decode_ops-replays :
    (m : Model) (s : Scratch) (p addr : ℕ) (recorded : List ExecOp)
    → 0 < addr
    → p + 1 < u32_mod
    → decode_ops m s 0 addr ≡ ok recorded
    → (check_positions addr (recorded ++ decode_close_ops m s) ≡ true)
      × (decode_ops m s p 0 ≡ ok (map (at_position p) recorded))
unfolding decode_ops
decode_ops-replays m s p addr recorded real small e =
    let (guarded, e1) =
      then-ok (bail_if (not (addr == 0 || m.fused_attn)) composed_attention) _ e in
    let all = fused_of m.fused_attn (rw away at guarded) in
    let (q_gqa, had, e2) = bind-ok (ok_or s.q_gqa missing_scratch) _ recorded e1 in
    let (attn_gqa, had', e3) = bind-ok (ok_or s.attn_gqa missing_scratch) _ recorded e2 in
    let (layers, built, e4) =
      bind-ok (decode_layers m s 0 addr q_gqa attn_gqa s.x_a s.x_b m.layers) _ recorded e3 in
    let (baked, built', h) =
      layers-Replays p addr away m s q_gqa attn_gqa s.x_a s.x_b m.layers layers small all built in
    let same = ok-eq _ _ e4 in
    let chain = append-Replays p addr away _ _ _ _ h (lm_head-Replays p addr away m s layers.1) in
    let closed = append-Replays p addr away _ _ _ _ chain (close-Replays p addr away m s) in
    (
      ap (λ zs. check_positions addr (zs ++ decode_close_ops m s)) (sym same) ∙ closed.positions,
      baked_chain m s p q_gqa attn_gqa (baked, layers.1) had had' built'
          ∙ ap ok (sym chain.amounts ∙ ap (map (at_position p)) same),
    )
  where
    away : (addr == 0) ≡ false
    away = ground arith

    fused_of :
        (b : Bool)
        → ◌≡◌ {A = Result ModelError (Unit {0})} (bail_if (not b) composed_attention) (ok tt)
        → b ≡ true
    fused_of true h = refl
    fused_of false h = cc
