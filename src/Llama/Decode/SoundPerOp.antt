-- ===== src/Llama/Decode/SoundPerOp.antt =====
-- tools/llama-ash/src/model/forward/decode.rs: the submissions of the step that runs one operation
-- after the other.
use tensor_ash.Prelude.{
  ℕ, ◌<◌, ◌≤◌, refl, List, [], ◌∷◌, map, ok_or, ltb, ltb→lt, add32, Bool-cases, inl, inr,
}
use tensor_ash.Tensor.{Tensor}
use tensor_ash.ExecGraph.{ExecOp, matmul}
use tensor_ash.Llama.{Layer, Scratch, Model, missing_scratch}
use tensor_ash.Llama.Graph.{qkv_decode_ops, lm_head_ops}
use tensor_ash.Llama.Steps.{Device, State, Step, bound, set_position}
use tensor_ash.Llama.PerOp.{
  run_one, aliased, per_op_flash, per_op_fused, per_op_composed, is_flash, per_op_attention,
  mlp_block_into, per_op_layers, run_each, decode_perop,
}
use tensor_ash.Llama.Decode.Fits.{OpFits, Fits, qkv-Fits, lm_head-Fits, next-le}
use tensor_ash.Llama.Decode.Sound.{
  Guarded, Sound, after-Sound, after-calls, calls-Sound, after-lift, after-ensure, after-seed,
  sampled-Sound,
}

module _ {W : Type 0} (Good : W → Type 0) (Valid : State → Type 0) (dev : Device W) (m : Model)
    (guard : Guarded dev m.cfg.t_max Good)
    (moves : (p : ℕ) (s : State) → p ≤ m.cfg.t_max → Valid s → Valid (set_position p s)) where
  after-run :
      {B : Type 0} (op : ExecOp) (next : Unit {0} → Step W B) (s : State) (w : W)
      → OpFits m.cfg.t_max op
      → Valid s
      → Good w
      → ((w' : W) → Good w' → Sound Good Valid (next tt s w'))
      → Sound Good Valid (bound (run_one dev op s w) next)
  after-run op next s w fits v g k =
      after-calls Good Valid (dev.run_ops (op ∷ [])) next s w v
        (guard.runs (op ∷ []) w (fits, tt) g) k

  run_one-Sound :
      (op : ExecOp) (s : State) (w : W)
      → OpFits m.cfg.t_max op
      → Valid s
      → Good w
      → Sound Good Valid (run_one dev op s w)
  run_one-Sound op s w fits v g =
      calls-Sound Good Valid (dev.run_ops (op ∷ [])) s w v (guard.runs (op ∷ []) w (fits, tt) g)

  each-Sound :
      (sc : Scratch) (ops : List ExecOp) (s : State) (w : W)
      → Fits m.cfg.t_max ops
      → Valid s
      → Good w
      → Sound Good Valid (run_each dev m sc ops s w)
  unfolding run_each
  each-Sound sc [] s w fits v g = (v, g)
  each-Sound sc (op ∷ ops) s w (own, fits) v g =
      after-run op _ s w own v g (λ w1 g1. each-Sound sc ops s w1 fits v g1)

  mlp_block-Sound :
      (sc : Scratch) (layer : Layer) (x_in x_out : Tensor) (s : State) (w : W)
      → Valid s
      → Good w
      → Sound Good Valid (mlp_block_into dev m sc layer x_in x_out s w)
  unfolding mlp_block_into
  mlp_block-Sound sc layer x_in x_out s w v g = after-run _ _ s w tt v g (λ w1 g1.
      after-run _ _ s w1 tt v g1
        (λ w2 g2. after-run _ _ s w2 tt v g2 (λ w3 g3. run_one-Sound _ s w3 tt v g3)))

  module _ (sc : Scratch) (p : ℕ) (below : p < m.cfg.t_max) where
    reaches : add32 p 1 ≤ m.cfg.t_max
    reaches = next-le m.cfg.t_max p below

    flash-Sound :
        (layer : Layer) (s : State) (w : W)
        → Valid s
        → Good w
        → Sound Good Valid (per_op_flash dev m sc layer p s w)
    unfolding per_op_flash
    flash-Sound layer s w v g =
        after-lift Good Valid (ok_or sc.q_flash missing_scratch) _ s w v g (λ q_flash e.
          after-lift Good Valid (ok_or sc.attn_flash missing_scratch) _ s w v g (λ attn_flash e'.
            after-run _ _ s w tt v g
              (λ w1 g1. after-run _ _ s w1 reaches v g1 (λ w2 g2. run_one-Sound _ s w2 tt v g2))))

    fused-Sound :
        (layer : Layer) (s : State) (w : W)
        → Valid s
        → Good w
        → Sound Good Valid (per_op_fused dev m sc layer p s w)
    unfolding per_op_fused
    fused-Sound layer s w v g = after-lift Good Valid (aliased sc.q _) _ s w v g (λ q_gqa e.
        after-lift Good Valid (aliased sc.attn_flat _) _ s w v g (λ attn_gqa e'.
          after-lift Good Valid (ok_or sc.attn_partials missing_scratch) _ s w v g
            (λ partials e''. run_one-Sound _ s w (reaches, refl) v g)))

    composed-Sound :
        (layer : Layer) (s : State) (w : W)
        → Valid s
        → Good w
        → Sound Good Valid (per_op_composed dev m sc layer p s w)
    unfolding per_op_composed
    composed-Sound layer s w v g = after-run _ _ s w tt v g (λ w1 g1.
        after-lift Good Valid (ok_or sc.scores missing_scratch) _ s w1 v g1 (λ scores e.
          after-run _ _ s w1 tt v g1 (λ w2 g2.
            after-run _ _ s w2 reaches v g2
              (λ w3 g3. after-run _ _ s w3 tt v g3 (λ w4 g4. run_one-Sound _ s w4 tt v g4)))))

    attention-Sound :
        (layer : Layer) (s : State) (w : W)
        → Valid s
        → Good w
        → Sound Good Valid (per_op_attention dev m sc layer p s w)
    unfolding per_op_attention per_op_fused per_op_composed
    attention-Sound layer s w v g = elim (Bool-cases (is_flash dev m sc m.decode_mode)) [
      | inl e ↦ rw e (flash-Sound layer s w v g)
      | inr e ↦ elim (Bool-cases m.fused_attn) [
        | inl all ↦ rw (e, all) (fused-Sound layer s w v g)
        | inr composed ↦ rw (e, composed) (composed-Sound layer s w v g)
      ]
    ]

    layers-Sound :
        (x_in x_out : Tensor) (layers : List Layer) (s : State) (w : W)
        → Valid s
        → Good w
        → Sound Good Valid (per_op_layers dev m sc p x_in x_out layers s w)
    unfolding per_op_layers
    layers-Sound x_in x_out [] s w v g = (v, g)
    layers-Sound x_in x_out (layer ∷ layers) s w v g =
        after-calls Good Valid (dev.run_ops (map matmul (qkv_decode_ops m layer sc x_in p 0))) _ s w
          v (guard.runs _ w (qkv-Fits m.cfg.t_max p below m layer sc x_in) g)
          (λ w1 g1.
            after-Sound Good Valid (per_op_attention dev m sc layer p s w1) _
              (attention-Sound layer s w1 v g1)
              (λ u s2 w2 v2 g2.
                after-Sound Good Valid (mlp_block_into dev m sc layer x_in x_out s2 w2) _
                  (mlp_block-Sound sc layer x_in x_out s2 w2 v2 g2)
                  (λ u' s3 w3 v3 g3. layers-Sound x_out x_in layers s3 w3 v3 g3)))

  pub decode_perop-Sound :
      (token : ℕ) (s : State) (w : W)
      → Valid s
      → Good w
      → Sound Good Valid (decode_perop dev m token s w)
  unfolding decode_perop
  decode_perop-Sound token s w v g =
      after-ensure Good Valid (ltb s.pos m.cfg.t_max) _ _ s w v g (λ h.
        let below = ltb→lt s.pos m.cfg.t_max h in
        let sc = m.decode_scratch in
        after-seed Good Valid dev m guard moves token _ s w v g (λ w1 g1.
          after-Sound Good Valid (per_op_layers dev m sc s.pos sc.x_a sc.x_b m.layers s w1) _
            (layers-Sound sc s.pos below sc.x_a sc.x_b m.layers s w1 v g1)
            (λ last s2 w2 v2 g2.
              after-Sound Good Valid (run_each dev m sc (lm_head_ops m sc last) s2 w2) _
                (each-Sound sc (lm_head_ops m sc last) s2 w2
                  (lm_head-Fits m.cfg.t_max s.pos below m sc last) v2 g2)
                (λ u s3 w3 v3 g3.
                  sampled-Sound Good Valid dev m guard moves (add32 s.pos 1) s3 w3
                    (next-le m.cfg.t_max s.pos below) v3 g3))))
