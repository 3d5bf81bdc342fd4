-- ===== src/Llama/Decode/Sound.antt =====
-- tools/llama-ash/src/model/forward/decode.rs: outcomes that leave the model well formed, and the
-- device in a state that it reached by chains which fit the caches.
use tensor_ash.Prelude.{
  ℕ, ◌<◌, ◌≤◌, ◌≡◌, refl, Bool, true, false, List, [], ◌∷◌, map, Option, some, none, Result, ok,
  err, ltb, ltb→lt, add32, arith,
}
use tensor_ash.Tensor.{Tensor}
use tensor_ash.ExecGraph.{ExecOp}
use tensor_ash.Llama.{Model, ModelError}
use tensor_ash.Llama.Graph.{decode_ops}
use tensor_ash.Llama.Replays.{at_position}
use tensor_ash.Llama.Steps.{
  Device, State, Step, bound, ◌>>=◌, ◌>>◌, pure, lift, ensure, modify, calls, asks, answered,
  succeeds, set_position, set_cell, embed, argmax, seed, sample, decode_graph,
}
use tensor_ash.Llama.Decode.Fits.{Fits, decode_ops-Fits}

-- A property of the device that its calls keep, as long as every chain that runs fits caches of `t`
-- positions, and every position that is set lies below `t`.
pub record Guarded {W : Type 0} (dev : Device W) (t : ℕ) (Good : W → Type 0) : Type 0 where
  pub uploads : (xs : List ℕ) (x : Tensor) (w : W) → Good w → Good (dev.upload xs x w).1
  pub runs : (ops : List ExecOp) (w : W) → Fits t ops → Good w → Good (dev.run_ops ops w).1
  pub prepares :
      (ops : List ExecOp) (addr : Option ℕ) (w : W)
      → Good w
      → Good (dev.prepare_exec_ops ops addr w).1
  pub plays :
      (ops : List ExecOp) (p : ℕ) (w : W)
      → Fits t (map (at_position p) ops)
      → Good w
      → Good (dev.replay ops p w).1
  pub sets : (p : ℕ) (w : W) → p < t → Good w → Good (dev.set_pos p w).1
  pub reads : (w : W) → Good w → Good (dev.read_token w).1
  pub downloads : (x : Tensor) (w : W) → Good w → Good (dev.download x w).1

module _ {W : Type 0} (Good : W → Type 0) (Valid : State → Type 0) where
  -- What a program leaves, whether it succeeds or not.
  abbrev pub Sound : {A : Type 0} → Result ModelError A × State × W → Type 0
  Sound (r, s, w) = Valid s × Good w

  pub after-Sound :
      {A B : Type 0} (o : Result ModelError A × State × W) (next : A → Step W B)
      → Sound o
      → ((a : A) (s : State) (w : W) → Valid s → Good w → Sound (next a s w))
      → Sound (bound o next)
  after-Sound (ok a, s, w) next (v, g) k = k a s w v g
  after-Sound (err e, s, w) next h k = h

  answered-Sound :
      {A B : Type 0} (s : State) (o : Option A × W) (next : A → Step W B)
      → Valid s
      → Good o.1
      → ((a : A) (w : W) → Good w → Sound (next a s w))
      → Sound (bound (answered s o) next)
  answered-Sound s (some a, w) next v g k = k a w g
  answered-Sound s (none, w) next v g k = (v, g)

  pub after-asks :
      {A B : Type 0} (call : W → Option A × W) (next : A → Step W B) (s : State) (w : W)
      → Valid s
      → Good (call w).1
      → ((a : A) (w' : W) → Good w' → Sound (next a s w'))
      → Sound (bound (asks call s w) next)
  after-asks call next s w v g k = answered-Sound s (call w) next v g k

  pub after-calls :
      {B : Type 0} (call : W → Bool × W) (next : Unit {0} → Step W B) (s : State) (w : W)
      → Valid s
      → Good (call w).1
      → ((w' : W) → Good w' → Sound (next tt s w'))
      → Sound (bound (calls call s w) next)
  after-calls call next s w v g k =
      answered-Sound s (succeeds (call w).0, (call w).1) next v g (λ a. k)

  pub calls-Sound :
      (call : W → Bool × W) (s : State) (w : W) → Valid s → Good (call w).1 → Sound (calls call s w)
  calls-Sound call s w v g = settled (call w) g
    where
      settled : (o : Bool × W) → Good o.1 → Sound {A = Unit {0}} (answered s (succeeds o.0, o.1))
      settled (true, w') g' = (v, g')
      settled (false, w') g' = (v, g')

  -- A program that ends in another one.
  pub Sound-assoc :
      {A B C : Type 0} (o : Result ModelError A × State × W) (f : A → Step W B)
      (next : B → Step W C)
      → Sound (bound o (λ a s w. bound (f a s w) next))
      → Sound (bound (bound o f) next)
  Sound-assoc (ok a, s, w) f next h = h
  Sound-assoc (err e, s, w) f next h = h

  pub after-lift :
      {A B : Type 0} (r : Result ModelError A) (next : A → Step W B) (s : State) (w : W)
      → Valid s
      → Good w
      → ((a : A) → r ≡ ok a → Sound (next a s w))
      → Sound (bound (lift r s w) next)
  after-lift (ok a) next s w v g k = k a refl
  after-lift (err e) next s w v g k = (v, g)

  pub after-ensure :
      {B : Type 0} (b : Bool) (e : ModelError) (next : Unit {0} → Step W B) (s : State) (w : W)
      → Valid s
      → Good w
      → (b ≡ true → Sound (next tt s w))
      → Sound (bound (ensure b e s w) next)
  after-ensure true e next s w v g k = k refl
  after-ensure false e next s w v g k = (v, g)

  module _ (dev : Device W) (m : Model) (guard : Guarded dev m.cfg.t_max Good)
      (moves : (p : ℕ) (s : State) → p ≤ m.cfg.t_max → Valid s → Valid (set_position p s)) where
    pub after-seed :
        {B : Type 0} (token : ℕ) (next : Unit {0} → Step W B) (s : State) (w : W)
        → Valid s
        → Good w
        → ((w' : W) → Good w' → Sound (next tt s w'))
        → Sound (bound (seed dev m token s w) next)
    unfolding seed
    after-seed token next s w v g k = embedded (embed m (token ∷ []))
      where
        embedded :
            (r : Result ModelError (List ℕ))
            → Sound (
                bound
                  (bound (lift r s w) (λ host_x. calls (dev.upload host_x m.decode_scratch.x_a)))
                  next)
        embedded (ok host_x) =
            after-calls (dev.upload host_x m.decode_scratch.x_a) next s w v
              (guard.uploads host_x m.decode_scratch.x_a w g) k
        embedded (err e) = (v, g)

    -- The rest of a step that samples a token and moves on.
    pub sampled-Sound :
        (p : ℕ) (s : State) (w : W)
        → p ≤ m.cfg.t_max
        → Valid s
        → Good w
        → Sound ((sample dev m >>= (λ r. modify (set_position p) >> pure r)) s w)
    unfolding sample
    sampled-Sound p s w bounded v g =
        downloaded (dev.download m.decode_scratch.logits w)
          (guard.downloads m.decode_scratch.logits w g)
      where
        picked :
            (logits : List ℕ) (w' : W) (r : Result ModelError ℕ)
            → Good w'
            → Sound {A = ℕ × List ℕ} (
                bound
                  (bound (lift r s w') (λ best. pure (best, logits)))
                  (λ (r : ℕ × List ℕ). modify (set_position p) >> pure r))
        picked logits w' (ok best) g' = (moves p s bounded v, g')
        picked logits w' (err e) g' = (v, g')

        downloaded :
            (o : Option (List ℕ) × W)
            → Good o.1
            → Sound {A = ℕ × List ℕ} (
                bound
                  (bound
                    (answered s o)
                    (λ logits. lift (argmax logits) >>= (λ best. pure (best, logits))))
                  (λ (r : ℕ × List ℕ). modify (set_position p) >> pure r))
        downloaded (some logits, w') g' = picked logits w' (argmax logits) g'
        downloaded (none, w') g' = (v, g')

    pub decode_graph-Sound :
        (token : ℕ) (s : State) (w : W) → Valid s → Good w → Sound (decode_graph dev m token s w)
    unfolding decode_graph
    decode_graph-Sound token s w v g = after-ensure (ltb s.pos m.cfg.t_max) _ _ s w v g (λ h.
        let below = ltb→lt s.pos m.cfg.t_max h in
        after-seed token _ s w v g (λ w1 g1.
          after-lift (decode_ops m m.decode_scratch s.pos 0) _ s w1 v g1 (λ ops built.
            let fits = decode_ops-Fits m.cfg.t_max s.pos below m m.decode_scratch ops built in
            after-calls (dev.run_ops ops) _ s w1 v (guard.runs ops w1 fits g1)
              (λ w2 g2. sampled-Sound (add32 s.pos 1) s w2 (omega (arith, below)) v g2))))

    pub after-set_cell :
        {B : Type 0} (p : ℕ) (next : Unit {0} → Step W B) (s : State) (w : W)
        → p < m.cfg.t_max
        → Valid s
        → Good w
        → ((w' : W) → Good w' → Sound (next tt (record s { cell = p }) w'))
        → Sound (bound (set_cell dev p s w) next)
    after-set_cell p next s w below v g k =
        Sound-assoc (calls (dev.set_pos p) s w) (λ u. modify (λ s'. record s' { cell = p })) next
          (after-calls (dev.set_pos p) _ s w v (guard.sets p w below g) k)
