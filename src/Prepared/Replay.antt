-- ===== src/Prepared/Replay.antt =====
-- src/executor/prepared.rs: a replay on a device that answers returns, and the object is free
-- again.
use tensor_ash.Prelude.{
  ℕ, zero, suc, Bool, true, false, Option, none, some, Result, ok, err, ◌≡◌, ◌≢◌, refl, sym, ap,
  ◌∙◌, arith, if◌then◌else◌,
}
use tensor_ash.Prepared.{
  Vulkan, PreparedOps, PreparedError, Status, signalled, pending, lost, polled, wait_fence_spin,
  submit, fenced, report, wait, run, answer, wait_failed, submitted, set_in_flight, and_then, stats,
  already_in_flight, timed_stats,
}
use tensor_ash.Prepared.Fences.{Fence, After, Polled}

-- No call fails in a state in which it is allowed, and a fence is never lost.
pub record Responsive {W : Type 0} (vk : Vulkan W) (idle held over : W → Type 0) : Type 0 where
  pub submits : (w : W) → idle w → (vk.queue_submit w).0 ≡ true
  pub polls : (w : W) → held w → (vk.get_fence_status w).0 ≢ lost
  pub waits : (w : W) → held w → (vk.wait_for_fences w).0 ≡ true
  pub resets : (w : W) → over w → (vk.reset_fences w).0 ≡ true
  pub reads : (w : W) → idle w → (vk.read_gpu_time_ns w).0 ≢ none

module _ {W : Type 0} (vk : Vulkan W) (idle held over : W → Type 0)
    (fence : Fence vk idle held over) (live : Responsive vk idle held over) where
  succeeds :
      (a : Bool × W) (good bad : W → Type 0)
      → After a good bad
      → a.0 ≡ true
      → (v : W) × (a ≡ (true, v)) × good v
  succeeds (true, v) good bad h e = (v, refl, h)
  succeeds (false, v) good bad h e = absurd (ground arith)

  polled-over :
      (s : Status × W) (next : W → Result PreparedError (Unit {0}) × W)
      → Polled s over held
      → s.0 ≢ lost
      → ((w : W) → held w → (v : W) × (next w ≡ (ok tt, v)) × over v)
      → (v : W) × (polled s next ≡ (ok tt, v)) × over v
  unfolding polled
  polled-over (signalled, v) next h n k = (v, refl, h)
  polled-over (pending, v) next h n k = k v h
  polled-over (lost, v) next h n k = absurd (n refl)

  block-over :
      (w : W) → held w → (v : W) × (answer wait_failed (vk.wait_for_fences w) ≡ (ok tt, v)) × over v
  block-over w h =
      let (v, e, o) =
        succeeds (vk.wait_for_fences w) over held (fence.waits w h) (live.waits w h) in
      (v, ap (answer wait_failed) e, o)

  spin-over :
      (polls : ℕ) (w : W) → held w → (v : W) × (wait_fence_spin vk polls w ≡ (ok tt, v)) × over v
  unfolding wait_fence_spin
  spin-over zero w h =
      polled-over (vk.get_fence_status w) _ (fence.polls w h) (live.polls w h) block-over
  spin-over (suc polls) w h =
      polled-over (vk.get_fence_status w) _ (fence.polls w h) (live.polls w h) (spin-over polls)

  reports :
      (p : PreparedOps) (w : W)
      → idle w
      → (time : Option ℕ) × (v : W) × (report vk p w ≡ (ok (stats p time), p, v)) × idle v
  unfolding report
  reports p w h = by_timed p.timed (vk.read_gpu_time_ns w) (live.reads w h) (fence.reads w h)
    where
      by_timed :
          (timed : Bool) (a : Option ℕ × W)
          → a.0 ≢ none
          → idle a.1
          → (time : Option ℕ) × (v : W) × ((if timed
                then timed_stats p a
                else (ok (stats p none), p, w))
              ≡ (ok (stats p time), p, v))
            × idle v
      by_timed false a n i = (none, w, refl, h)
      by_timed true (none, v) n i = absurd (n refl)
      by_timed true (some time, v) n i = (some time, v, refl, i)

  waits :
      (polls : ℕ) (p : PreparedOps) (w : W)
      → held w
      → (time : Option ℕ) × (v : W) × (wait vk polls (set_in_flight true p) w
          ≡ (ok (stats p time), set_in_flight false p, v))
        × idle v
  unfolding wait fenced
  waits polls p w h =
      let (u, over_, o) = spin-over polls w h in
      let (x, free, i) =
        succeeds (vk.reset_fences u) idle over (fence.resets u o) (live.resets u o) in
      let (time, v, reported, j) = reports (set_in_flight false p) x i in
      (time, v, rw (over_, free) reported, j)

  sends :
      (p : PreparedOps) (w u : W)
      → p.in_flight ≡ false
      → vk.queue_submit w ≡ (true, u)
      → submit vk p w ≡ (ok tt, set_in_flight true p, u)
  unfolding submit
  sends p w u f sent =
      ap (λ b. if b then (err already_in_flight, p, w) else submitted p (vk.queue_submit w)) f
      ∙ ap (submitted p) sent

  -- A run of an object that is not in flight, on an idle fence of a device whose calls succeed,
  -- returns the object's counts whatever number of polls fits before the deadline; it leaves the
  -- object as it was and the fence idle, so that it can be run again.
  pub run-completes :
      (polls : ℕ) (p : PreparedOps) (w : W)
      → p.in_flight ≡ false
      → idle w
      → (time : Option ℕ) × (v : W) × (run vk polls p w ≡ (ok (stats p time), p, v)) × idle v
  unfolding run
  run-completes polls p w f h =
      let (u, sent, held_) =
        succeeds (vk.queue_submit w) held idle (fence.submits w h) (live.submits w h) in
      let (time, v, done, i) = waits polls p u held_ in
      let back : set_in_flight false p ≡ p = ap (λ b. record p { in_flight = b }) (sym f) in
      (
        time,
        v,
        ap (λ o. and_then o (wait vk polls)) (sends p w u f sent)
            ∙ done
            ∙ ap (λ q. (ok (stats p time), q, v)) back,
        i,
      )
