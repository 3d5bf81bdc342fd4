-- ===== src/Tests/Replays.antt =====
-- src/executor/prepared.rs on a device whose work takes a number of polls.
use tensor_ash.Prelude.{
  ℕ, zero, suc, Bool, true, false, Option, some, ok, ◌≡◌, ◌≢◌, refl, [], ◌∷◌, arith,
}
use tensor_ash.Prepared.{
  Vulkan, PreparedOps, Status, signalled, pending, lost, submit_call, wait_call, run_call, run,
  calls, stats,
}
use tensor_ash.Prepared.Fences
use tensor_ash.Prepared.Fences.{Fence, Tracks, calls-Tracks}
use tensor_ash.Prepared.Replay.{Responsive, run-completes}

data Phase : Type 0 where
  free over : Phase
  running : (left : ℕ) → Phase

abbrev start : Phase → Bool × Phase
start free = (true, running 2)
start w = (false, w)

abbrev poll : Phase → Status × Phase
poll (running zero) = (signalled, over)
poll (running (suc left)) = (pending, running left)
poll free = (pending, free)
poll over = (signalled, over)

abbrev block : Phase → Bool × Phase
block free = (false, free)
block w = (true, over)

abbrev reset : Phase → Bool × Phase
reset over = (true, free)
reset w = (false, w)

abbrev device : Vulkan Phase
device = record {
  queue_submit = start;
  get_fence_status = poll;
  wait_for_fences = block;
  reset_fences = reset;
  read_gpu_time_ns = λ w. (some 7, w);
  destroy = λ w. w;
}

abbrev IsFree : Phase → Type 0
IsFree free = Unit {0}
IsFree w = ⊥

abbrev IsHeld : Phase → Type 0
IsHeld free = ⊥
IsHeld w = Unit {0}

abbrev IsOver : Phase → Type 0
IsOver over = Unit {0}
IsOver w = ⊥

fence : Fence device IsFree IsHeld IsOver
fence = record {
  submits = submits_;
  polls = polls_;
  waits = waits_;
  resets = resets_;
  reads = λ w h. h;
  over_held = held_;
}
  where
    submits_ : (w : Phase) → IsFree w → Fences.After (start w) IsHeld IsFree
    submits_ free h = tt
    submits_ over h = absurd h
    submits_ (running left) h = absurd h

    polls_ : (w : Phase) → IsHeld w → Fences.Polled (poll w) IsOver IsHeld
    polls_ (running zero) h = tt
    polls_ (running (suc left)) h = tt
    polls_ over h = tt
    polls_ free h = absurd h

    waits_ : (w : Phase) → IsHeld w → Fences.After (block w) IsOver IsHeld
    waits_ (running left) h = tt
    waits_ over h = tt
    waits_ free h = absurd h

    resets_ : (w : Phase) → IsOver w → Fences.After (reset w) IsFree IsOver
    resets_ over h = tt
    resets_ free h = absurd h
    resets_ (running left) h = absurd h

    held_ : (w : Phase) → IsOver w → IsHeld w
    held_ over h = tt
    held_ free h = absurd h
    held_ (running left) h = absurd h

live : Responsive device IsFree IsHeld IsOver
live = record {
  submits = submits_;
  polls = polls_;
  waits = waits_;
  resets = resets_;
  reads = λ w h e. absurd (ground arith);
}
  where
    submits_ : (w : Phase) → IsFree w → (start w).0 ≡ true
    submits_ free h = refl
    submits_ over h = absurd h
    submits_ (running left) h = absurd h

    polls_ : (w : Phase) → IsHeld w → (poll w).0 ≢ lost
    polls_ (running zero) h e = absurd (ground arith)
    polls_ (running (suc left)) h e = absurd (ground arith)
    polls_ over h e = absurd (ground arith)
    polls_ free h e = absurd h

    waits_ : (w : Phase) → IsHeld w → (block w).0 ≡ true
    waits_ (running left) h = refl
    waits_ over h = refl
    waits_ free h = absurd h

    resets_ : (w : Phase) → IsOver w → (reset w).0 ≡ true
    resets_ over h = refl
    resets_ free h = absurd h
    resets_ (running left) h = absurd h

abbrev prepared : PreparedOps
prepared = record { in_flight = false; timed = true; n_calls = 3; total_flops = 4096 }

calls-Tracks_example :
    Tracks IsFree IsHeld
      (calls device (submit_call ∷ submit_call ∷ wait_call 1 ∷ run_call 9 ∷ []) (prepared, free))
calls-Tracks_example =
    calls-Tracks device IsFree IsHeld IsOver fence
      (submit_call ∷ submit_call ∷ wait_call 1 ∷ run_call 9 ∷ []) (prepared, free) tt

run-completes_example :
    (time : Option ℕ) × (v : Phase) × (run device 1 prepared free
      ≡ (ok (stats prepared time), prepared, v))
    × IsFree v
run-completes_example = run-completes device IsFree IsHeld IsOver fence live 1 prepared free refl tt
