-- ===== src/Tuning.antt =====
-- src/executor/tuning.rs: the measured choice of a kernel. What a submission takes on the device is
-- a parameter, `timer`, which is asked with the round and the place in it; the comparison of two
-- times by a floating-point margin is a parameter as well.
pub mod Order
pub mod Choice
pub mod Records
use package.tensor_ash.Prelude.{
  ℕ, zero, suc, ◌+◌, ◌-◌, ◌*◌, ◌/◌, ◌%◌, Bool, true, false, not, ◌&&◌, ◌||◌, Option, none, some,
  List, [], ◌∷◌, ◌++◌, Result, ok, err, ◌>>=◌, ◌>>◌, bail_if, ok_or, ltb, leb, ◌==◌, if◌then◌else◌,
  div_ceil, is_multiple_of, length, get_elem?,
}
use package.tensor_ash.Kernels.{Kernel, KernelSpec, spec, index}
use package.tensor_ash.Matmul.Resolution.{ResolvedMatmul}
use package.tensor_ash.Pipeline.{
  MatmulPipeline, Device, PlanError, TuneKey, TuneEntry, tune_candidate_indices,
  heuristic_kernel_index,
}
use package.tensor_ash.SplitK2.{Groups, auto_route_fits}

-- `candidate_at`: odd rounds go forward and even ones backward, each pair from its own start.
unfoldable pub candidate_at : ℕ → ℕ → ℕ → ℕ
candidate_at len zero offset = offset
candidate_at len (suc round) offset =
    let start = round / 2 * div_ceil len 2 % len in
    if suc round % 2 == 1 then (start + offset) % len else (start + len - 1 - offset) % len

-- `sort_unstable` of numbers.
unfoldable pub insert : ℕ → List ℕ → List ℕ
insert x [] = x ∷ []
insert x (y ∷ ys) = let rest = insert x ys in if leb x y then x ∷ y ∷ ys else y ∷ rest

unfoldable pub sort : List ℕ → List ℕ
sort [] = []
sort (x ∷ xs) = insert x (sort xs)

abbrev nth : List ℕ → ℕ → ℕ
nth [] i = 0
nth (x ∷ xs) zero = x
nth (x ∷ xs) (suc i) = nth xs i

-- `median`, of an even number of samples the mean of the middle ones.
unfoldable pub median : List ℕ → Option ℕ
median [] = none
median (x ∷ xs) =
    let sorted = sort (x ∷ xs) in
    let mid = length (x ∷ xs) / 2 in
    if is_multiple_of (length (x ∷ xs)) 2
    then some ((nth sorted (mid - 1) + nth sorted mid) / 2)
    else some (nth sorted mid)

pub data TuneError : Type 0 where
  no_candidate no_measurement run_failed bad_index gated : TuneError

-- The filter of `tune_op` on the device's dispatch limits.
unfoldable pub fits_grid : Device → ResolvedMatmul → Kernel → Bool
fits_grid d r k =
    leb (div_ceil r.n (spec k).tile_n) d.max_x
    && leb (div_ceil r.m (spec k).tile_m) d.max_y
    && leb r.batch d.max_z

unfoldable pub keep_fitting : Device → ResolvedMatmul → List Kernel → List Kernel
keep_fitting d r [] = []
keep_fitting d r (k ∷ ks) =
    let rest = keep_fitting d r ks in if fits_grid d r k then k ∷ rest else rest

abbrev pub candidates : MatmulPipeline → ResolvedMatmul → List Kernel
candidates p r = keep_fitting p.device r (tune_candidate_indices p r.m r.n r.k r.b_f16)

-- `samples[ci].push(ns)`.
abbrev push_at : List (Kernel × List ℕ) → ℕ → ℕ → List (Kernel × List ℕ)
push_at [] ci ns = []
push_at ((k, xs) ∷ rest) zero ns = (k, xs ++ ns ∷ []) ∷ rest
push_at ((k, xs) ∷ rest) (suc ci) ns = (k, xs) ∷ push_at rest ci ns

-- Round 0 is the warmup, whose times are discarded; a run without a time is left out.
abbrev sampled : ℕ → List (Kernel × List ℕ) → ℕ → Option ℕ → List (Kernel × List ℕ)
sampled zero samples ci time = samples
sampled (suc round) samples ci none = samples
sampled (suc round) samples ci (some ns) = push_at samples ci ns

unfoldable pub measure_round :
    (ℕ → ℕ → Kernel → Result TuneError (Option ℕ))
    → ℕ
    → ℕ
    → ℕ
    → List (Kernel × List ℕ)
    → Result TuneError (List (Kernel × List ℕ))
measure_round timer round zero offset samples = ok samples
measure_round timer round (suc left) offset samples = do
  entry ← ok_or (get_elem? samples (candidate_at (length samples) round offset)) bad_index
  time ← timer round offset entry.0
  measure_round timer round left (suc offset)
      (sampled round samples (candidate_at (length samples) round offset) time)

-- The rounds from `round` on, `left` of them.
unfoldable pub measure_rounds :
    (ℕ → ℕ → Kernel → Result TuneError (Option ℕ))
    → ℕ
    → ℕ
    → List (Kernel × List ℕ)
    → Result TuneError (List (Kernel × List ℕ))
measure_rounds timer zero round samples = ok samples
measure_rounds timer (suc left) round samples = do
  next ← measure_round timer round (length samples) 0 samples
  measure_rounds timer left (suc round) next

-- The challenger: of the candidates with a median, the first with the least.
abbrev faster : Kernel → Option ℕ → Option (Kernel × ℕ) → Option (Kernel × ℕ)
faster k none best = best
faster k (some ns) none = some (k, ns)
faster k (some ns) (some (j, best)) = if leb ns best then some (k, ns) else some (j, best)

unfoldable pub challenger : List (Kernel × List ℕ) → Option (Kernel × ℕ)
challenger [] = none
challenger ((k, samples) ∷ rest) = faster k (median samples) (challenger rest)

-- The median of the heuristic's pick, if that is a candidate.
unfoldable pub heuristic_time : Kernel → List (Kernel × List ℕ) → Option ℕ
heuristic_time h [] = none
heuristic_time h ((k, samples) ∷ rest) =
    let later = heuristic_time h rest in if index k == index h then median samples else later

-- The pick stays unless the challenger beats it by the margin.
abbrev pub settle : (ℕ → ℕ → Bool) → Kernel → Option ℕ → Kernel × ℕ → Kernel × ℕ
settle keeps h none (k, ns) = (k, ns)
settle keeps h (some heur_ns) (k, ns) = if keeps ns heur_ns then (h, heur_ns) else (k, ns)

unfoldable pub choose :
    (ℕ → ℕ → Bool) → Kernel → List (Kernel × List ℕ) → Result TuneError (Kernel × ℕ)
choose keeps h samples = do
  fastest ← ok_or (challenger samples) no_measurement
  ok (settle keeps h (heuristic_time h samples) fastest)

-- The gate of `tune_splitk2`, and the split counts that the loop skips.
abbrev worth_probing : ResolvedMatmul → Bool
worth_probing r =
    not (r.b_f16 || ltb r.k 1024 || ltb 48 (div_ceil r.m 128 * div_ceil r.n 128 * r.batch))

abbrev skipped : Device → ResolvedMatmul → ℕ → Bool
skipped d r splits =
    ltb (r.k / splits) 128
    || not (
        auto_route_fits (record { x = d.max_x; y = d.max_y; z = d.max_z }) r.batch r.m r.n r.k
          splits)

abbrev better : Option (ℕ × ℕ) → ℕ → Option ℕ → Option (ℕ × ℕ)
better best splits none = best
better none splits (some ns) = some (ns, splits)
better (some (b, old)) splits (some ns) = if ltb ns b then some (ns, splits) else some (b, old)

-- The loop over the split counts; `split_times` is the measured rounds of a count.
unfoldable pub probe_splits :
    (ℕ → Result TuneError (List ℕ))
    → Device
    → ResolvedMatmul
    → List ℕ
    → Option (ℕ × ℕ)
    → Result TuneError (Option (ℕ × ℕ))
probe_splits split_times d r [] best = ok best
probe_splits split_times d r (splits ∷ rest) best = elim (skipped d r splits) [
  | true ↦ probe_splits split_times d r rest best
  | false ↦ do
    times ← split_times splits
    probe_splits split_times d r rest (better best splits (median times))
]

-- A split count stays when its time beats the best data-parallel time by the margin.
abbrev pub margin : (ℕ → ℕ → Bool) → ℕ → Option (ℕ × ℕ) → Option ℕ
margin beats dp none = none
margin beats dp (some (ns, splits)) = if beats ns dp then some splits else none

unfoldable pub tune_splitk2 :
    (ℕ → ℕ → Bool)
    → (ℕ → Result TuneError (List ℕ))
    → Device
    → ResolvedMatmul
    → ℕ
    → Result TuneError (Option ℕ)
tune_splitk2 beats split_times d r dp = if not (worth_probing r) then ok none else do
  best ← probe_splits split_times d r (4 ∷ 8 ∷ 16 ∷ 32 ∷ 64 ∷ []) none
  ok (margin beats dp best)

abbrev unmeasured : List Kernel → List (Kernel × List ℕ)
unmeasured [] = []
unmeasured (k ∷ ks) = (k, []) ∷ unmeasured ks

abbrev first_kernel : List Kernel → Result TuneError Kernel
first_kernel [] = err no_candidate
first_kernel (k ∷ ks) = ok k

unfoldable pub has_kernel : List Kernel → Kernel → Bool
has_kernel [] h = false
has_kernel (k ∷ ks) h = index k == index h || has_kernel ks h

-- A panic of the registry while the heuristic's pick is looked up.
abbrev looked_up : Result PlanError Kernel → Result TuneError Kernel
looked_up (ok k) = ok k
looked_up (err e) = err gated

abbrev pub tune_key : ResolvedMatmul → TuneKey
tune_key r = record { batch = r.batch; m = r.m; n = r.n; k = r.k; b_f16 = r.b_f16 }

-- `tune_op`: the entry that is recorded for the shape. `warmup` is the run that raises the clocks.
unfoldable pub tune_op :
    (keeps beats : ℕ → ℕ → Bool)
    → (warmup : Kernel → Result TuneError (Option ℕ))
    → (timer : ℕ → ℕ → Kernel → Result TuneError (Option ℕ))
    → (split_times : ℕ → Result TuneError (List ℕ)) → (rounds : ℕ) → MatmulPipeline
    → ResolvedMatmul
    → Result TuneError (TuneKey × TuneEntry)
tune_op keeps beats warmup timer split_times rounds p r = do
  first ← first_kernel (candidates p r)
  h ← looked_up (heuristic_kernel_index p r.batch r.m r.n r.k r.b_f16)
  _ ← warmup (if has_kernel (candidates p r) h then h else first)
  samples ← measure_rounds timer (suc rounds) 0 (unmeasured (candidates p r))
  winner ← choose keeps h samples
  splits ← tune_splitk2 beats split_times p.device r winner.1
  ok (tune_key r, record { kernel = winner.0; splitk2_splits = splits })
