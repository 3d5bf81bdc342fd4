-- ===== src/Prepared.antt =====
-- src/executor/prepared.rs and src/executor/submission.rs: a recorded command buffer that is
-- submitted again and again. The device behind the Vulkan calls is a parameter: `Vulkan W` says how
-- each call changes the world `W` and what it answers. An error is an answer of the device, or a
-- call of the object out of turn.
pub mod Fences
pub mod Replay
use package.tensor_ash.Prelude.{
  ℕ, zero, suc, Bool, true, false, not, Option, none, some, List, [], ◌∷◌, Result, ok, err,
  if◌then◌else◌,
}

pub data PreparedError : Type 0 where
  already_in_flight nothing_submitted : PreparedError
  submit_failed wait_failed reset_failed query_failed : PreparedError

-- What `get_fence_status` answers.
pub data Status : Type 0 where
  signalled pending lost : Status

-- The calls on the fence and the queue; a Boolean answer says whether the call succeeded. Reading
-- the time includes its conversion by the device's floating-point period.
pub record Vulkan (W : Type 0) : Type 0 where
  pub queue_submit : W → Bool × W
  pub get_fence_status : W → Status × W
  pub wait_for_fences : W → Bool × W
  pub reset_fences : W → Bool × W
  pub read_gpu_time_ns : W → Option ℕ × W
  pub destroy : W → W

-- `PreparedOps`, less its handles: `timed` says whether there is a query pool.
pub record PreparedOps : Type 0 where
  pub in_flight : Bool
  pub timed : Bool
  pub n_calls : ℕ
  pub total_flops : ℕ

pub record RunStats : Type 0 where
  pub gpu_time_ns : Option ℕ
  pub n_calls : ℕ
  pub total_flops : ℕ

-- The outcome of a call of the object: a result, the object and the world.
abbrev pub Outcome : Type 0 → Type 0 → Type 0
Outcome W A = Result PreparedError A × PreparedOps × W

abbrev pub answer : {W : Type 0} → PreparedError → Bool × W → Result PreparedError (Unit {0}) × W
answer e (true, w) = (ok tt, w)
answer e (false, w) = (err e, w)

-- One round of `wait_fence_spin`, and what comes after a poll that found the fence pending.
unfoldable pub polled :
    {W : Type 0}
    → Status × W
    → (W → Result PreparedError (Unit {0}) × W)
    → Result PreparedError (Unit {0}) × W
polled (signalled, w) next = (ok tt, w)
polled (lost, w) next = (err wait_failed, w)
polled (pending, w) next = next w

-- `wait_fence_spin`: `polls` rounds fit before the deadline; the round after them blocks.
unfoldable pub wait_fence_spin :
    {W : Type 0} → Vulkan W → ℕ → W → Result PreparedError (Unit {0}) × W
wait_fence_spin vk zero w =
    polled (vk.get_fence_status w) (λ v. answer wait_failed (vk.wait_for_fences v))
wait_fence_spin vk (suc polls) w = polled (vk.get_fence_status w) (wait_fence_spin vk polls)

abbrev pub set_in_flight : Bool → PreparedOps → PreparedOps
set_in_flight b p = record p { in_flight = b }

abbrev pub submitted : {W : Type 0} → PreparedOps → Bool × W → Outcome W (Unit {0})
submitted p (true, w) = (ok tt, set_in_flight true p, w)
submitted p (false, w) = (err submit_failed, p, w)

unfoldable pub submit : {W : Type 0} → Vulkan W → PreparedOps → W → Outcome W (Unit {0})
submit vk p w =
    if p.in_flight then (err already_in_flight, p, w) else submitted p (vk.queue_submit w)

-- The end of `wait` and of `run_silent`: the fence is reset, and the object is free again.
abbrev pub released : {W A : Type 0} → PreparedOps → Bool × W → (W → Outcome W A) → Outcome W A
released p (false, w) next = (err reset_failed, p, w)
released p (true, w) next = next w

unfoldable pub fenced :
    {W A : Type 0}
    → Vulkan W
    → PreparedOps
    → Result PreparedError (Unit {0}) × W
    → (W → Outcome W A)
    → Outcome W A
fenced vk p (err e, w) next = (err e, p, w)
fenced vk p (ok u, w) next = released p (vk.reset_fences w) next

abbrev pub stats : PreparedOps → Option ℕ → RunStats
stats p time = record { gpu_time_ns = time; n_calls = p.n_calls; total_flops = p.total_flops }

abbrev pub timed_stats : {W : Type 0} → PreparedOps → Option ℕ × W → Outcome W RunStats
timed_stats p (none, w) = (err query_failed, p, w)
timed_stats p (some time, w) = (ok (stats p (some time)), p, w)

unfoldable pub report : {W : Type 0} → Vulkan W → PreparedOps → W → Outcome W RunStats
report vk p w = if p.timed then timed_stats p (vk.read_gpu_time_ns w) else (ok (stats p none), p, w)

unfoldable pub wait : {W : Type 0} → Vulkan W → ℕ → PreparedOps → W → Outcome W RunStats
wait vk polls p w =
    if not p.in_flight
    then (err nothing_submitted, p, w)
    else fenced vk p (wait_fence_spin vk polls w) (report vk (set_in_flight false p))

-- `?` on the result of `submit`.
abbrev pub and_then :
    {W A : Type 0} → Outcome W (Unit {0}) → (PreparedOps → W → Outcome W A) → Outcome W A
and_then (err e, p, w) next = (err e, p, w)
and_then (ok u, p, w) next = next p w

unfoldable pub run : {W : Type 0} → Vulkan W → ℕ → PreparedOps → W → Outcome W RunStats
run vk polls p w = and_then (submit vk p w) (wait vk polls)

abbrev pub wait_silent : {W : Type 0} → Vulkan W → ℕ → PreparedOps → W → Outcome W (Unit {0})
wait_silent vk polls p w =
    if not p.in_flight
    then (err nothing_submitted, p, w)
    else fenced vk p (wait_fence_spin vk polls w) (λ v. (ok tt, set_in_flight false p, v))

unfoldable pub run_silent : {W : Type 0} → Vulkan W → ℕ → PreparedOps → W → Outcome W (Unit {0})
run_silent vk polls p w = and_then (submit vk p w) (wait_silent vk polls)

-- `Drop`: the answer of the last wait is ignored.
unfoldable pub drop : {W : Type 0} → Vulkan W → PreparedOps → W → W
drop vk p w = vk.destroy (if p.in_flight then (vk.wait_for_fences w).1 else w)

-- The calls that a caller can make.
pub data Call : Type 0 where
  submit_call : Call
  wait_call run_call run_silent_call : (polls : ℕ) → Call

abbrev pub after : {W A : Type 0} → Outcome W A → PreparedOps × W
after (r, p, w) = (p, w)

unfoldable pub call : {W : Type 0} → Vulkan W → Call → PreparedOps × W → PreparedOps × W
call vk submit_call (p, w) = after (submit vk p w)
call vk (wait_call polls) (p, w) = after (wait vk polls p w)
call vk (run_call polls) (p, w) = after (run vk polls p w)
call vk (run_silent_call polls) (p, w) = after (run_silent vk polls p w)

unfoldable pub calls : {W : Type 0} → Vulkan W → List Call → PreparedOps × W → PreparedOps × W
calls vk [] s = s
calls vk (c ∷ cs) s = calls vk cs (call vk c s)
