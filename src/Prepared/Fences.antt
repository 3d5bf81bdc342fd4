-- ===== src/Prepared/Fences.antt =====
-- src/executor/prepared.rs: the fence is never submitted, reset or abandoned out of turn.
use tensor_ash.Prelude.{
  ℕ, zero, suc, Bool, true, false, not, Option, none, some, Result, ok, err, ◌≡◌, refl, List, [],
  ◌∷◌, arith, if◌then◌else◌,
}
use tensor_ash.Prepared.{
  Vulkan, PreparedOps, PreparedError, Status, signalled, pending, lost, Call, submit_call,
  wait_call, run_call, run_silent_call, Outcome, polled, wait_fence_spin, submit, released, fenced,
  report, wait, run, answer, wait_failed, after, submitted, timed_stats, set_in_flight, wait_silent,
  and_then, run_silent, call, calls,
}

-- An answer with the world after it: one predicate when the call succeeded, another when it failed.
abbrev pub After : {W : Type 0} → Bool × W → (W → Type 0) → (W → Type 0) → Type 0
After (true, v) good bad = good v
After (false, v) good bad = bad v

abbrev pub Polled : {W : Type 0} → Status × W → (W → Type 0) → (W → Type 0) → Type 0
Polled (signalled, v) good bad = good v
Polled (pending, v) good bad = bad v
Polled (lost, v) good bad = bad v

-- What Vulkan documents of a fence: `idle` while it is unsignalled and no work is queued on it,
-- `held` from a successful submission until it is reset, `over` once the work is known to be done.
-- A call has a law only in the states in which the specification allows the call.
pub record Fence {W : Type 0} (vk : Vulkan W) (idle held over : W → Type 0) : Type 0 where
  pub submits : (w : W) → idle w → After (vk.queue_submit w) held idle
  pub polls : (w : W) → held w → Polled (vk.get_fence_status w) over held
  pub waits : (w : W) → held w → After (vk.wait_for_fences w) over held
  pub resets : (w : W) → over w → After (vk.reset_fences w) idle over
  pub reads : (w : W) → idle w → idle (vk.read_gpu_time_ns w).1
  pub over_held : (w : W) → over w → held w

-- The invariant: `in_flight` says on which side of the fence's life the object is.
abbrev pub Tracks : {W : Type 0} → (W → Type 0) → (W → Type 0) → PreparedOps × W → Type 0
Tracks idle held (p, w) = if p.in_flight then held w else idle w

module _ {W : Type 0} (vk : Vulkan W) (idle held over : W → Type 0)
    (fence : Fence vk idle held over) where
  Answered : Result PreparedError (Unit {0}) × W → Type 0
  Answered (ok u, w) = over w
  Answered (err e, w) = held w

  polled-Answered :
      (s : Status × W) (next : W → Result PreparedError (Unit {0}) × W)
      → Polled s over held
      → ((w : W) → held w → Answered (next w))
      → Answered (polled s next)
  unfolding polled Answered
  polled-Answered (signalled, v) next h k = h
  polled-Answered (pending, v) next h k = k v h
  polled-Answered (lost, v) next h k = h

  answer-Answered : (e : PreparedError) (a : Bool × W) → After a over held → Answered (answer e a)
  unfolding Answered
  answer-Answered e (true, w) h = h
  answer-Answered e (false, w) h = h

  spin-Answered : (polls : ℕ) (w : W) → held w → Answered (wait_fence_spin vk polls w)
  unfolding wait_fence_spin
  spin-Answered zero w h =
      polled-Answered (vk.get_fence_status w) _ (fence.polls w h)
        (λ v k. answer-Answered wait_failed (vk.wait_for_fences v) (fence.waits v k))
  spin-Answered (suc polls) w h =
      polled-Answered (vk.get_fence_status w) _ (fence.polls w h) (spin-Answered polls)

  -- A call of the object that ends with an object which `Tracks`.
  abbrev Sound : {A : Type 0} → Outcome W A → Type 0
  Sound o = Tracks idle held (after o)

  if-Sound :
      {A : Type 0} (b : Bool) (x y : Outcome W A)
      → (b ≡ true → Sound x)
      → (b ≡ false → Sound y)
      → Sound (if b then x else y)
  if-Sound true x y h k = h refl
  if-Sound false x y h k = k refl

  held-Tracks : (p : PreparedOps) (w : W) → p.in_flight ≡ true → held w → Tracks idle held (p, w)
  held-Tracks p w f h = rw f h

  idle-Tracks : (p : PreparedOps) (w : W) → p.in_flight ≡ false → idle w → Tracks idle held (p, w)
  idle-Tracks p w f h = rw f h

  Tracks-held : (p : PreparedOps) (w : W) → p.in_flight ≡ true → Tracks idle held (p, w) → held w
  Tracks-held p w f h = rw f at h

  Tracks-idle : (p : PreparedOps) (w : W) → p.in_flight ≡ false → Tracks idle held (p, w) → idle w
  Tracks-idle p w f h = rw f at h

  submitted-Sound :
      (p : PreparedOps) (a : Bool × W)
      → p.in_flight ≡ false
      → After a held idle
      → Sound (submitted p a)
  submitted-Sound p (true, w) f h = h
  submitted-Sound p (false, w) f h = idle-Tracks p w f h

  submit-Sound : (p : PreparedOps) (w : W) → Tracks idle held (p, w) → Sound (submit vk p w)
  unfolding submit
  submit-Sound p w h =
      if-Sound p.in_flight _ _ (λ f. h)
        (λ f. submitted-Sound p (vk.queue_submit w) f (fence.submits w (Tracks-idle p w f h)))

  released-Sound :
      {A : Type 0} (p : PreparedOps) (a : Bool × W) (next : W → Outcome W A)
      → p.in_flight ≡ true
      → After a idle over
      → ((v : W) → idle v → Sound (next v))
      → Sound (released p a next)
  released-Sound p (true, w) next f h k = k w h
  released-Sound p (false, w) next f h k = held-Tracks p w f (fence.over_held w h)

  fenced-Sound :
      {A : Type 0} (p : PreparedOps) (a : Result PreparedError (Unit {0}) × W)
      (next : W → Outcome W A)
      → p.in_flight ≡ true
      → Answered a
      → ((v : W) → idle v → Sound (next v))
      → Sound (fenced vk p a next)
  unfolding fenced Answered
  fenced-Sound p (err e, w) next f h k = held-Tracks p w f h
  fenced-Sound p (ok u, w) next f h k =
      released-Sound p (vk.reset_fences w) next f (fence.resets w h) k

  timed_stats-Sound :
      (p : PreparedOps) (a : Option ℕ × W)
      → p.in_flight ≡ false
      → idle a.1
      → Sound (timed_stats p a)
  timed_stats-Sound p (none, w) f h = idle-Tracks p w f h
  timed_stats-Sound p (some time, w) f h = idle-Tracks p w f h

  report-Sound : (p : PreparedOps) (w : W) → p.in_flight ≡ false → idle w → Sound (report vk p w)
  unfolding report
  report-Sound p w f h =
      if-Sound p.timed _ _ (λ t. timed_stats-Sound p (vk.read_gpu_time_ns w) f (fence.reads w h))
        (λ t. idle-Tracks p w f h)

  not-false : (b : Bool) → not b ≡ false → b ≡ true
  not-false b h = ground arith

  wait-Sound :
      (polls : ℕ) (p : PreparedOps) (w : W) → Tracks idle held (p, w) → Sound (wait vk polls p w)
  unfolding wait
  wait-Sound polls p w h =
      if-Sound (not p.in_flight) _ _ (λ f. h)
        (λ f.
          fenced-Sound p (wait_fence_spin vk polls w) _ (not-false p.in_flight f)
            (spin-Answered polls w (Tracks-held p w (not-false p.in_flight f) h))
            (λ v i. report-Sound (set_in_flight false p) v refl i))

  wait_silent-Sound :
      (polls : ℕ) (p : PreparedOps) (w : W)
      → Tracks idle held (p, w)
      → Sound (wait_silent vk polls p w)
  wait_silent-Sound polls p w h =
      if-Sound (not p.in_flight) _ _ (λ f. h)
        (λ f.
          fenced-Sound p (wait_fence_spin vk polls w) _ (not-false p.in_flight f)
            (spin-Answered polls w (Tracks-held p w (not-false p.in_flight f) h)) (λ v i. i))

  and_then-Sound :
      {A : Type 0} (o : Outcome W (Unit {0})) (next : PreparedOps → W → Outcome W A)
      → Sound o
      → ((p : PreparedOps) (w : W) → Tracks idle held (p, w) → Sound (next p w))
      → Sound (and_then o next)
  and_then-Sound (err e, p, w) next h k = h
  and_then-Sound (ok u, p, w) next h k = k p w h

  call-Tracks :
      (c : Call) (p : PreparedOps) (w : W)
      → Tracks idle held (p, w)
      → Tracks idle held (call vk c (p, w))
  unfolding call run run_silent
  call-Tracks submit_call p w h = submit-Sound p w h
  call-Tracks (wait_call polls) p w h = wait-Sound polls p w h
  call-Tracks (run_call polls) p w h =
      and_then-Sound (submit vk p w) (wait vk polls) (submit-Sound p w h) (wait-Sound polls)
  call-Tracks (run_silent_call polls) p w h =
      and_then-Sound (submit vk p w) (wait_silent vk polls) (submit-Sound p w h)
        (wait_silent-Sound polls)

  -- Whatever calls a caller makes, and whatever the device answers, the object keeps track of its
  -- fence: it is not in flight only while the fence is idle, and in flight only while it is held.
  pub calls-Tracks :
      (cs : List Call) (s : PreparedOps × W) → Tracks idle held s → Tracks idle held (calls vk cs s)
  unfolding calls
  calls-Tracks [] s h = h
  calls-Tracks (c ∷ cs) (p, w) h = calls-Tracks cs (call vk c (p, w)) (call-Tracks c p w h)
