-- ===== src/Llama/Decode/Recordings.antt =====
-- tools/llama-ash/src/model/forward/decode.rs: the recordings that the model keeps fit its caches.
use tensor_ash.Prelude.{
  ℕ, zero, suc, ◌+◌, ◌<◌, ◌≤◌, ◌≡◌, refl, sym, ap, ◌∙◌, ◌&&◌, List, [], ◌++◌, map, map-append,
  Option, some, none, Result, ok, err, ◌==◌, add32, u32_mod, arith, Bool-cases, inl, inr, ok-eq,
  bind-ok,
}
use tensor_ash.ExecGraph.{ExecOp}
use tensor_ash.Llama.{Model, Scratch}
use tensor_ash.Llama.Graph.{decode_ops, decode_close_ops, relative_ops, unrolled_ops}
use tensor_ash.Llama.Replayed.{decode_ops-replays}
use tensor_ash.Llama.Replays.{at_position}
use tensor_ash.Llama.Steps.{Device, State, Step, bound, lift, calls, set_position}
use tensor_ash.Llama.Decode.{recorded, reusable, kept_or_new, reused_or_new, unrolled}
use tensor_ash.Llama.Decode.Fits.{
  Fits, along, append-Fits, close-Fits, at_position-same, decode_ops-Fits,
}
use tensor_ash.Llama.Decode.Sound.{Guarded, Sound, after-calls, after-lift, Sound-assoc}

-- A chain that fits caches of `t` positions whenever the buffer holds a position below `t`.
abbrev pub FitsBelow : ℕ → List ExecOp → Type 0
FitsBelow t ops = (p : ℕ) → p < t → Fits t (map (at_position p) ops)

-- A chain that fits whatever the buffer holds.
abbrev pub FitsAlways : ℕ → List ExecOp → Type 0
FitsAlways t ops = (p : ℕ) → Fits t (map (at_position p) ops)

-- The position lies in the cache, and the recordings that are kept fit it.
pub record Valid (t : ℕ) (s : State) : Type 0 where
  pub within : s.pos ≤ t
  pub relative : (ops : List ExecOp) → s.decode_prepared ≡ some ops → FitsBelow t ops
  pub baked :
      (p n : ℕ) (ops : List ExecOp) → s.decode_unrolled ≡ some (p, n, ops) → FitsAlways t ops

some-eq : {A : Type 0} (a b : A) → ◌≡◌ {A = Option A} (some a) (some b) → a ≡ b
some-eq a b e = cc

none-not_some : {A : Type 0} {a : A} → ◌≡◌ {A = Option A} none (some a) → ⊥
none-not_some e = cc

err-not_ok : {E A : Type 0} {x : E} {a : A} → ◌≡◌ {A = Result E A} (err x) (ok a) → ⊥
err-not_ok e = cc

pub moves : (t p : ℕ) (s : State) → p ≤ t → Valid t s → Valid t (set_position p s)
moves t p s h v = record { within = h; relative = v.relative; baked = v.baked }

module _ (m : Model) (sc : Scratch) (small : m.cfg.t_max < u32_mod) where
  -- The chain that is recorded once fits at every position of the cache.
  relative_ops-Fits :
      (addr : ℕ) (ops : List ExecOp)
      → 0 < addr
      → relative_ops m sc addr ≡ ok ops
      → FitsBelow m.cfg.t_max ops
  unfolding relative_ops
  relative_ops-Fits addr ops real e p below =
      let t = m.cfg.t_max in
      let close = decode_close_ops m sc in
      let (chain, built, e1) = bind-ok (decode_ops m sc 0 addr) _ ops e in
      let (checked, at) =
        decode_ops-replays m sc p addr chain real (omega (arith, below, small)) built in
      along t (map (at_position p) chain ++ map (at_position p) close) _
        (sym (map-append (at_position p) chain close) ∙ ap (map (at_position p)) (ok-eq _ ops e1))
        (append-Fits t (map (at_position p) chain) _ (decode_ops-Fits t p below m sc _ at) (
          along t close _ (sym (at_position-same t p close (close-Fits t m sc)))
            (close-Fits t m sc)))

  -- The chains of the steps from `start + i` on fit.
  unrolled_ops-Fits :
      (start i left : ℕ) (ops : List ExecOp)
      → start + (i + left) ≤ m.cfg.t_max
      → unrolled_ops m sc start i left ≡ ok ops
      → Fits m.cfg.t_max ops
  unfolding unrolled_ops
  unrolled_ops-Fits start i zero ops h e = along m.cfg.t_max [] ops (ok-eq [] ops e) tt
  unrolled_ops-Fits start i (suc left) ops h e =
      let t = m.cfg.t_max in
      let (chain, built, e1) = bind-ok (decode_ops m sc (add32 start i) 0) _ ops e in
      let (later, built', e2) = bind-ok (unrolled_ops m sc start (suc i) left) _ ops e1 in
      along t (chain ++ decode_close_ops m sc ++ later) ops (ok-eq _ ops e2) (
        append-Fits t (chain ++ decode_close_ops m sc) later
          (append-Fits t chain (decode_close_ops m sc)
            (decode_ops-Fits t (add32 start i) (omega (arith, h, small)) m sc chain built)
            (close-Fits t m sc))
          (unrolled_ops-Fits start (suc i) left later (omega (arith, h)) built'))

module _ {W : Type 0} (dev : Device W) (m : Model) (Good : W → Type 0)
    (guard : Guarded dev m.cfg.t_max Good) (real : 0 < m.pos_buf.device_address)
    (small : m.cfg.t_max < u32_mod) where
  -- The recording of `decode_many` fits, and the position stays.
  pub after-recorded :
      {B : Type 0} (next : List ExecOp → Step W B) (s : State) (w : W)
      → Valid m.cfg.t_max s
      → Good w
      → ((ops : List ExecOp) (s' : State) (w' : W)
          → FitsBelow m.cfg.t_max ops
          → Valid m.cfg.t_max s'
          → Good w'
          → Sound Good (Valid m.cfg.t_max) (next ops s' w'))
      → Sound Good (Valid m.cfg.t_max) (bound (recorded dev m s w) next)
  unfolding recorded
  after-recorded next s w v g k = by_kept s.decode_prepared refl
    where
      t : ℕ
      t = m.cfg.t_max

      addr : ℕ
      addr = m.pos_buf.device_address

      grown :
          (ops : List ExecOp) → FitsBelow t ops → Valid t (record s { decode_prepared = some ops })
      grown ops fits = record {
        within = v.within;
        relative = λ ops' e.
            let same = some-eq ops ops' e in
            λ p below. along t _ _ (ap (map (at_position p)) same) (fits p below);
        baked = v.baked;
      }

      by_kept :
          (o : Option (List ExecOp))
          → s.decode_prepared ≡ o
          → Sound Good (Valid t) (bound (kept_or_new dev m o s w) next)
      by_kept (some ops) e = k ops s w (v.relative ops e) v g
      by_kept none e =
          Sound-assoc Good (Valid t) (lift (relative_ops m m.decode_scratch addr) s w) _ next (
            after-lift Good (Valid t) (relative_ops m m.decode_scratch addr) _ s w v g (λ ops built.
              let fits = relative_ops-Fits m m.decode_scratch small addr ops real built in
              Sound-assoc Good (Valid t) (calls (dev.prepare_exec_ops ops (some addr)) s w) _ next (
                after-calls Good (Valid t) (dev.prepare_exec_ops ops (some addr)) _ s w v
                  (guard.prepares ops (some addr) w g)
                  (λ w1 g1.
                    k ops (record s { decode_prepared = some ops }) w1 fits (grown ops fits) g1))))

  -- The recording of `decode_unrolled` fits.
  pub after-unrolled :
      {B : Type 0} (start n : ℕ) (next : List ExecOp → Step W B) (s : State) (w : W)
      → start + n ≤ m.cfg.t_max
      → Valid m.cfg.t_max s
      → Good w
      → ((ops : List ExecOp) (s' : State) (w' : W)
          → FitsAlways m.cfg.t_max ops
          → Valid m.cfg.t_max s'
          → Good w'
          → Sound Good (Valid m.cfg.t_max) (next ops s' w'))
      → Sound Good (Valid m.cfg.t_max) (bound (unrolled dev m start n s w) next)
  unfolding unrolled
  after-unrolled start n next s w bounded v g k =
      by_kept (reusable dev m start n s.decode_unrolled)
        (λ ops e. from_cache s.decode_unrolled refl ops e)
    where
      t : ℕ
      t = m.cfg.t_max

      sc : Scratch
      sc = m.decode_scratch

      from_cache :
          (cache : Option (ℕ × ℕ × List ExecOp))
          → s.decode_unrolled ≡ cache
          → (ops : List ExecOp) → reusable dev m start n cache ≡ some ops
          → FitsAlways t ops
      from_cache none e ops h = absurd (none-not_some h)
      from_cache (some (p, count, ops')) e ops h = elim (Bool-cases (p == start && count == n)) [
        | inl same ↦
            let equal = some-eq ops' ops (rw same at h) in
            λ q. along t _ _ (ap (map (at_position q)) equal) (v.baked p count ops' e q)
        | inr other ↦ absurd (none-not_some (rw other at h))
      ]

      cleared : State
      cleared = record s { decode_unrolled = none }

      cleared-Valid : Valid t (record s { decode_unrolled = none })
      cleared-Valid = record {
        within = v.within;
        relative = v.relative;
        baked = λ p count ops e. absurd (none-not_some e);
      }

      grown :
          (ops : List ExecOp)
          → FitsAlways t ops
          → Valid t (record s { decode_unrolled = some (start, n, ops) })
      grown ops fits = record {
        within = v.within;
        relative = v.relative;
        baked = λ p count ops' e q.
            along t _ _ (ap (λ (z : ℕ × ℕ × List ExecOp). map (at_position q) z.2) (some-eq _ _ e))
              (fits q);
      }

      by_kept :
          (o : Option (List ExecOp))
          → ((ops : List ExecOp) → o ≡ some ops → FitsAlways t ops)
          → Sound Good (Valid t) (bound (reused_or_new dev m start n o s w) next)
      by_kept (some ops) fits = k ops s w (fits ops refl) v g
      by_kept none fits =
          Sound-assoc Good (Valid t) (lift (unrolled_ops m sc start 0 n) cleared w) _ next (
            after-lift Good (Valid t) (unrolled_ops m sc start 0 n) _ cleared w cleared-Valid g
              (λ ops built.
                let own =
                  unrolled_ops-Fits m sc small start 0 n ops (omega (arith, bounded)) built in
                let always : FitsAlways t ops =
                  λ q. along t _ _ (sym (at_position-same t q ops own)) own in
                Sound-assoc Good (Valid t) (calls (dev.prepare_exec_ops ops none) cleared w) _ next
                  (after-calls Good (Valid t) (dev.prepare_exec_ops ops none) _ cleared w
                    cleared-Valid (guard.prepares ops none w g)
                    (λ w1 g1.
                      k ops (record s { decode_unrolled = some (start, n, ops) }) w1 always
                        (grown ops always) g1))))
