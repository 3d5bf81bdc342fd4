-- ===== src/Llama/Decode/Positions.antt =====
-- tools/llama-ash/src/model/forward/decode.rs: the position, and the positions that the submitted
-- chains address, over every sequence of decode calls.
use tensor_ash.Prelude.{
  ℕ, zero, suc, ◌+◌, ◌<◌, ◌≤◌, Bool, true, false, not, ◌||◌, List, [], ◌∷◌, leb, leb→le, ◌==◌,
  add32, u32_mod, arith, if◌then◌else◌,
}
use tensor_ash.ExecGraph.{ExecOp}
use tensor_ash.Llama.{Model, cache_overflow}
use tensor_ash.Llama.Steps.{
  Device, State, Step, ◌>>=◌, ◌>>◌, pure, ensure, get, modify, seed, asks, set_position, replays,
  decode_graph,
}
use tensor_ash.Llama.PerOp.{decode_perop}
use tensor_ash.Llama.Decode.{
  DecodeCall, decode_call, decode_many_call, decode_unrolled_call, records_graph, is_prepared,
  decode, decode_each, recorded, replay_from, decode_many, unrolled, decode_unrolled,
  decode_call_step, decode_calls,
}
use tensor_ash.Llama.Decode.Sound.{
  Guarded, Sound, after-Sound, after-calls, after-asks, after-ensure, after-seed, after-set_cell,
  decode_graph-Sound,
}
use tensor_ash.Llama.Decode.SoundPerOp.{decode_perop-Sound}
use tensor_ash.Llama.Decode.Recordings.{FitsBelow, Valid, moves, after-recorded, after-unrolled}

-- A call whose step count cannot wrap the position around.
abbrev pub Small : ℕ → DecodeCall → Type 0
Small t (decode_call token) = Unit {0}
Small t (decode_many_call token n) = t + n < u32_mod
Small t (decode_unrolled_call token n) = t + n < u32_mod

abbrev pub AllSmall : ℕ → List DecodeCall → Type 0
AllSmall t [] = Unit {0}
AllSmall t (c ∷ cs) = Small t c × AllSmall t cs

-- The sum that was checked did not wrap around.
no_wrap : (p n t : ℕ) → p ≤ t → t + n < u32_mod → add32 p n ≤ t → p + n ≤ t
no_wrap p n t h fine bounded = omega (arith, h, fine, bounded)

module _ {W : Type 0} (dev : Device W) (m : Model) (Good : W → Type 0)
    (guard : Guarded dev m.cfg.t_max Good) (real : 0 < m.pos_buf.device_address)
    (small : m.cfg.t_max < u32_mod) where
  abbrev Kept : {A : Type 0} → Step W A → Type 0
  Kept step =
      (s : State) (w : W) → Valid m.cfg.t_max s → Good w → Sound Good (Valid m.cfg.t_max) (step s w)

  decode-Kept : (token : ℕ) → Kept (decode dev m token)
  unfolding decode
  decode-Kept token s w v g = by_mode (records_graph m.decode_mode)
    where
      by_mode :
          (b : Bool)
          → Sound Good
              (Valid m.cfg.t_max)
              ((if b then decode_graph dev m token else decode_perop dev m token) s w)
      by_mode true =
          decode_graph-Sound Good (Valid m.cfg.t_max) dev m guard (moves m.cfg.t_max) token s w v g
      by_mode false =
          decode_perop-Sound Good (Valid m.cfg.t_max) dev m guard (moves m.cfg.t_max) token s w v g

  decode_each-Kept : (n token : ℕ) → Kept (decode_each dev m n token)
  unfolding decode_each
  decode_each-Kept zero token s w v g = (v, g)
  decode_each-Kept (suc n) token s w v g =
      after-Sound Good (Valid m.cfg.t_max) (decode dev m token s w) _ (decode-Kept token s w v g)
        (λ next s1 w1 v1 g1.
          after-Sound Good (Valid m.cfg.t_max) (decode_each dev m n next.0 s1 w1) _
            (decode_each-Kept n next.0 s1 w1 v1 g1) (λ rest s2 w2 v2 g2. (v2, g2)))

  -- A replay at a position of the cache.
  replay_from-Kept :
      (ops : List ExecOp) (start i left : ℕ)
      → FitsBelow m.cfg.t_max ops
      → start + (i + left) ≤ m.cfg.t_max
      → Kept (replay_from dev m ops start i left)
  unfolding replay_from
  replay_from-Kept ops start i zero fits h s w v g = (v, g)
  replay_from-Kept ops start i (suc left) fits h s w v g =
      after-set_cell Good (Valid t) dev m guard (moves t) (add32 start i) _ s w below v g (λ w1 g1.
        after-calls Good (Valid t) (dev.replay ops (add32 start i)) _ s1 w1 v1
          (guard.plays ops (add32 start i) w1 (fits (add32 start i) below) g1)
          (λ w2 g2.
            after-asks Good (Valid t) dev.read_token _ s1 w2 v1 (guard.reads w2 g2) (λ token w3 g3.
              after-Sound Good (Valid t) (replay_from dev m ops start (suc i) left s1 w3) _
                (replay_from-Kept ops start (suc i) left fits (omega (arith, h)) s1 w3 v1 g3)
                (λ rest s4 w4 v4 g4. (v4, g4)))))
    where
      t : ℕ
      t = m.cfg.t_max

      below : add32 start i < m.cfg.t_max
      below = omega (arith, h, small)

      s1 : State
      s1 = record s { cell = add32 start i }

      v1 : Valid m.cfg.t_max (record s { cell = add32 start i })
      v1 = record { within = v.within; relative = v.relative; baked = v.baked }

  decode_many-Kept : (token n : ℕ) → m.cfg.t_max + n < u32_mod → Kept (decode_many dev m token n)
  unfolding decode_many
  decode_many-Kept token n fine s w v g =
      by_mode (not (is_prepared m.decode_mode) || not m.fused_attn)
    where
      t : ℕ
      t = m.cfg.t_max

      many : Step W (List ℕ)
      many = do
        s ← get
        ensure (leb (add32 s.pos n) m.cfg.t_max) cache_overflow
        ops ← recorded dev m
        seed dev m token
        generated ← replay_from dev m ops s.pos 0 n
        modify (set_position (add32 s.pos n))
        pure generated

      replayed : Sound Good (Valid t) (many s w)
      replayed = after-ensure Good (Valid t) (leb (add32 s.pos n) t) cache_overflow _ s w v g (λ h.
          let bounded = no_wrap s.pos n t v.within fine (leb→le (add32 s.pos n) t h) in
          after-recorded dev m Good guard real small _ s w v g (λ ops s1 w1 fits v1 g1.
            after-seed Good (Valid t) dev m guard (moves t) token _ s1 w1 v1 g1 (λ w2 g2.
              after-Sound Good (Valid t) (replay_from dev m ops s.pos 0 n s1 w2) _
                (replay_from-Kept ops s.pos 0 n fits (omega (arith, bounded)) s1 w2 v1 g2)
                (λ generated s3 w3 v3 g3.
                  (moves t (add32 s.pos n) s3 (leb→le (add32 s.pos n) t h) v3, g3)))))

      by_mode :
          (b : Bool) → Sound Good (Valid t) ((if b then decode_each dev m n token else many) s w)
      by_mode true = decode_each-Kept n token s w v g
      by_mode false = replayed

  decode_unrolled-Kept :
      (token n : ℕ) → m.cfg.t_max + n < u32_mod → Kept (decode_unrolled dev m token n)
  unfolding decode_unrolled
  decode_unrolled-Kept token n fine s w v g =
      by_mode (not (is_prepared m.decode_mode) || not m.fused_attn || n == 0)
    where
      t : ℕ
      t = m.cfg.t_max

      once : Step W (List ℕ)
      once = do
        s ← get
        ensure (leb (add32 s.pos n) m.cfg.t_max) cache_overflow
        ops ← unrolled dev m s.pos n
        seed dev m token
        replays dev ops
        last ← asks dev.read_token
        modify (set_position (add32 s.pos n))
        pure (last ∷ [])

      replayed : Sound Good (Valid t) (once s w)
      replayed = after-ensure Good (Valid t) (leb (add32 s.pos n) t) cache_overflow _ s w v g (λ h.
          let bounded = no_wrap s.pos n t v.within fine (leb→le (add32 s.pos n) t h) in
          after-unrolled dev m Good guard real small s.pos n _ s w bounded v g
            (λ ops s1 w1 fits v1 g1.
              after-seed Good (Valid t) dev m guard (moves t) token _ s1 w1 v1 g1 (λ w2 g2.
                after-calls Good (Valid t) (dev.replay ops s1.cell) _ s1 w2 v1
                  (guard.plays ops s1.cell w2 (fits s1.cell) g2)
                  (λ w3 g3.
                    after-asks Good (Valid t) dev.read_token _ s1 w3 v1 (guard.reads w3 g3)
                      (λ last w4 g4.
                        (moves t (add32 s.pos n) s1 (leb→le (add32 s.pos n) t h) v1, g4))))))

      by_mode :
          (b : Bool) → Sound Good (Valid t) ((if b then decode_many dev m token n else once) s w)
      by_mode true = decode_many-Kept token n fine s w v g
      by_mode false = replayed

  call-Kept :
      (c : DecodeCall) (s : State) (w : W)
      → Small m.cfg.t_max c
      → Valid m.cfg.t_max s
      → Good w
      → Valid m.cfg.t_max (decode_call_step dev m c (s, w)).0
        × Good (decode_call_step dev m c (s, w)).1
  unfolding decode_call_step
  call-Kept (decode_call token) s w fine v g = decode-Kept token s w v g
  call-Kept (decode_many_call token n) s w fine v g = decode_many-Kept token n fine s w v g
  call-Kept (decode_unrolled_call token n) s w fine v g = decode_unrolled-Kept token n fine s w v g

  decode_calls-Kept :
      (cs : List DecodeCall) (s : State) (w : W)
      → AllSmall m.cfg.t_max cs
      → Valid m.cfg.t_max s
      → Good w
      → Valid m.cfg.t_max (decode_calls dev m cs (s, w)).0 × Good (decode_calls dev m cs (s, w)).1
  unfolding decode_calls
  decode_calls-Kept [] s w fine v g = (v, g)
  decode_calls-Kept (c ∷ cs) s w (own, fine) v g =
      let (v1, g1) = call-Kept c s w own v g in decode_calls-Kept cs _ _ fine v1 g1

-- Take a property of the device that its calls keep as long as every chain that runs stays within
-- KV caches of `t_max` positions (for a replay: at the position that the buffer holds) and every
-- position that is set lies below `t_max`. Then every sequence of `decode`, `decode_many` and
-- `decode_unrolled` calls, in every decode mode, successful or failing, keeps the property, keeps
-- the position at most `t_max`, and keeps only recordings that fit the caches. The position buffer
-- has an address, `t_max` is a u32, and no call asks for so many steps that `t_max + n` wraps.
pub decode_calls-Valid :
    {W : Type 0} (dev : Device W) (m : Model) (Good : W → Type 0)
    → Guarded dev m.cfg.t_max Good
    → 0 < m.pos_buf.device_address
    → m.cfg.t_max < u32_mod
    → (cs : List DecodeCall) (s : State) (w : W) → AllSmall m.cfg.t_max cs
    → Valid m.cfg.t_max s
    → Good w
    → Valid m.cfg.t_max (decode_calls dev m cs (s, w)).0 × Good (decode_calls dev m cs (s, w)).1
decode_calls-Valid dev m Good guard real small cs s w fine v g =
    decode_calls-Kept dev m Good guard real small cs s w fine v g
