-- ===== src/Tuning/Records.antt =====
-- src/executor/tuning.rs: the entry that a tuning run records.
use tensor_ash.Prelude.{
  ℕ, suc, ◌≤◌, ◌≡◌, refl, sym, ap, ◌∙◌, Bool, true, false, ◌&&◌, inl, inr, ◌⊎◌, Option, none, some,
  List, [], ◌∷◌, Result, ok, bind-ok, ok-eq, Option-cases, Bool-cases, arith, leb, ◌==◌,
  if◌then◌else◌, get_elem?,
}
use mathlib.Core.Path.{subst}
use tensor_ash.Kernels.{Kernel, KernelSpec, spec, index, kernel_specs, concrete}
use tensor_ash.Kernels.Registry.{kernel_specs-index}
use tensor_ash.Matmul.Resolution.{ResolvedMatmul}
use tensor_ash.Pipeline.{
  MatmulPipeline, TuneKey, TuneEntry, is_candidate, keep_candidates, tune_candidate_indices,
  heuristic_kernel_index,
}
use tensor_ash.Tuning.{
  TuneError, median, candidates, measure_rounds, faster, challenger, heuristic_time, settle, choose,
  unmeasured, tune_splitk2, tune_key, tune_op, first_kernel, looked_up, has_kernel,
}
use tensor_ash.Tuning.Choice.{
  Eligible, Every, Sampled, unmeasured-Sampled, measure_rounds-Sampled, challenger-holds, kept,
  fitted,
}

same-spec : (i j : Kernel) → index i ≡ index j → spec i ≡ spec j
same-spec i j e =
    some-eq (sym (kernel_specs-index i) ∙ ap (get_elem? kernel_specs) e ∙ kernel_specs-index j)
  where
    some-eq : {a b : KernelSpec} → some a ≡ some b → a ≡ b
    some-eq e = cc

-- No measured median lies below.
unfoldable pub Least : ℕ → List (Kernel × List ℕ) → Type 0
Least ns [] = Unit {0}
Least ns ((k, times) ∷ rest) = ((m : ℕ) → median times ≡ some m → ns ≤ m) × Least ns rest

Least-mono :
    (a b : ℕ) (samples : List (Kernel × List ℕ)) → a ≤ b → Least b samples → Least a samples
unfolding Least
Least-mono a b [] h l = tt
Least-mono a b ((k, times) ∷ rest) h (m, l) = (λ t e. omega (arith, m t e), Least-mono a b rest h l)

none-faster :
    (k : Kernel) (time : Option ℕ) (best : Option (Kernel × ℕ))
    → faster k time best ≡ none
    → (time ≡ none) × (best ≡ none)
none-faster k none best e = (refl, e)
none-faster k (some t) none e = absurd (ground arith)
none-faster k (some t) (some (j, b)) e = absurd (ground arith)

none-Least :
    (samples : List (Kernel × List ℕ)) (ns : ℕ) → challenger samples ≡ none → Least ns samples
unfolding challenger Least
none-Least [] ns e = tt
none-Least ((j, times) ∷ rest) ns e =
    let (quiet, others) = none-faster j (median times) (challenger rest) e in
    (λ m f. absurd (ground arith), none-Least rest ns others)

some-faster :
    (k j : Kernel) (t : ℕ) (best : Option (Kernel × ℕ)) (ns : ℕ)
    → faster k (some t) best ≡ some (j, ns)
    → (ns ≤ t) × ((best ≡ none) ⊎ ((i : Kernel) × (b : ℕ) × (best ≡ some (i, b)) × (ns ≤ b)))
some-faster k j t none ns e = (ground arith, inl refl)
some-faster k j t (some (i, b)) ns e = elim (Bool-cases (leb t b)) [
  | inl yes_ ↦ (ground arith, inr (i, b, refl, ground arith))
  | inr no_ ↦ (ground arith, inr (i, b, refl, ground arith))
]

challenger-Least :
    (samples : List (Kernel × List ℕ)) (k : Kernel) (ns : ℕ)
    → challenger samples ≡ some (k, ns)
    → Least ns samples
unfolding challenger Least
challenger-Least [] k ns e = absurd (ground arith)
challenger-Least ((j, times) ∷ rest) k ns e = elim (Option-cases (median times)) [
  | inl quiet ↦ (λ m f. absurd (ground arith), challenger-Least rest k ns (rw quiet at e))
  | inr (t, timed) ↦
      let (here, others) = some-faster j k t (challenger rest) ns (rw timed at e) in
      (λ m f. ground arith, rest-Least (challenger-Least rest) others)
]
  where
    rest-Least :
        ((i : Kernel) (b : ℕ) → challenger rest ≡ some (i, b) → Least b rest)
        → (challenger rest ≡ none)
          ⊎ ((i : Kernel) × (b : ℕ) × (challenger rest ≡ some (i, b)) × (ns ≤ b))
        → Least ns rest
    rest-Least ih (inl gone) = none-Least rest ns gone
    rest-Least ih (inr (i, b, is, le)) = Least-mono ns b rest le (ih i b is)

heuristic-holds :
    (P : Kernel → Type 0) (h : Kernel) (samples : List (Kernel × List ℕ)) (t : ℕ)
    → Sampled P samples
    → heuristic_time h samples ≡ some t
    → (k : Kernel) × (index k ≡ index h) × P k
unfolding heuristic_time Sampled
heuristic-holds P h [] t s e = absurd (ground arith)
heuristic-holds P h ((k, times) ∷ rest) t (p, s) e = elim (Bool-cases (index k == index h)) [
  | inl yes_ ↦ (k, ground arith, p)
  | inr no_ ↦ heuristic-holds P h rest t s (ground arith)
]

-- The choice among samples of kernels that all have a property of their specs has it as well; and
-- it is the fastest, unless the heuristic's pick is kept by the margin.
choose-holds :
    (Q : KernelSpec → Type 0) (keeps : ℕ → ℕ → Bool) (h k : Kernel)
    (samples : List (Kernel × List ℕ)) (ns : ℕ)
    → Sampled (λ i. Q (spec i)) samples
    → choose keeps h samples ≡ ok (k, ns)
    → Q (spec k) × ((k ≡ h) ⊎ Least ns samples)
unfolding choose
choose-holds Q keeps h k samples ns s e = elim (Option-cases (challenger samples)) [
  | inl gone ↦ absurd (ground arith)
  | inr ((j, best), found) ↦
      settled j best (heuristic_time h samples) refl
        (challenger-holds (λ i. Q (spec i)) samples j best s found)
        (challenger-Least samples j best found) (ground arith)
]
  where
    settled :
        (j : Kernel) (best : ℕ) (time : Option ℕ)
        → heuristic_time h samples ≡ time
        → Q (spec j)
        → Least best samples
        → settle keeps h time (j, best) ≡ (k, ns)
        → Q (spec k) × ((k ≡ h) ⊎ Least ns samples)
    settled j best none t q l f = (
      subst (λ i. Q (spec i)) (ap (λ x. x.0) f) q,
      inr (subst (λ n. Least n samples) (ap (λ x. x.1) f) l),
    )
    settled j best (some heur) t q l f = elim (Bool-cases (keeps best heur)) [
      | inl yes_ ↦
          let (i, same, q') = heuristic-holds (λ i. Q (spec i)) h samples heur s t in
          let picked : h ≡ k = ap (λ x. x.0) (rw yes_ at f) in
          (subst Q (same-spec i h same ∙ ap (λ x. spec x) picked) q', inl (sym picked))
      | inr no_ ↦
          let kept_ : (j, best) ≡ (k, ns) = rw no_ at f in
          (
            subst (λ i. Q (spec i)) (ap (λ x. x.0) kept_) q,
            inr (subst (λ n. Least n samples) (ap (λ x. x.1) kept_) l),
          )
    ]

and_right : (a b : Bool) → a && b ≡ true → b ≡ true
and_right a b e = ground arith

Every-map :
    (P Q : Kernel → Type 0) (ks : List Kernel)
    → ((k : Kernel) → P k → Q k)
    → Every P ks
    → Every Q ks
unfolding Every
Every-map P Q [] f h = tt
Every-map P Q (k ∷ ks) f (p, h) = (f k p, Every-map P Q ks f h)

all-Eligible :
    (p : MatmulPipeline) (r : ResolvedMatmul)
    → Every (λ k. Eligible p.device r (spec k)) (candidates p r)
unfolding tune_candidate_indices Every
all-Eligible p r =
    fitted p.device r (tune_candidate_indices p r.m r.n r.k r.b_f16) (listed p.device.bda)
  where
    fit : Kernel → Bool
    fit i = is_candidate r.m r.n r.k r.b_f16 (spec i)

    listed :
        (bda : Bool)
        → Every
            (λ k. fit k ≡ true)
            (if bda then keep_candidates (λ i. p.present i && fit i) concrete else [])
    listed true =
        Every-map (λ k. p.present k && fit k ≡ true) (λ k. fit k ≡ true) _
          (λ k e. and_right (p.present k) (fit k) e) (kept (λ i. p.present i && fit i) concrete)
    listed false = tt

-- The steps of a run that records something.
recorded :
    (keeps beats : ℕ → ℕ → Bool) (warmup : Kernel → Result TuneError (Option ℕ))
    (timer : ℕ → ℕ → Kernel → Result TuneError (Option ℕ))
    (split_times : ℕ → Result TuneError (List ℕ)) (rounds : ℕ) (p : MatmulPipeline)
    (r : ResolvedMatmul) (key : TuneKey) (entry : TuneEntry)
    → tune_op keeps beats warmup timer split_times rounds p r ≡ ok (key, entry)
    → (h : Kernel) × (samples : List (Kernel × List ℕ)) × (won : Kernel × ℕ) × (measure_rounds timer
          (suc rounds)
          0
          (unmeasured (candidates p r))
        ≡ ok samples)
      × (choose keeps h samples ≡ ok won)
      × (key ≡ tune_key r)
      × (entry.kernel ≡ won.0)
unfolding tune_op
recorded keeps beats warmup timer split_times rounds p r key entry e =
    let (first, _, e1) = bind-ok (first_kernel (candidates p r)) _ (key, entry) e in
    let (h, _, e2) =
      bind-ok (looked_up (heuristic_kernel_index p r.batch r.m r.n r.k r.b_f16)) _ (key, entry)
        e1 in
    let (_, _, e3) =
      bind-ok (warmup (if has_kernel (candidates p r) h then h else first)) _ (key, entry) e2 in
    let (samples, measured, e4) =
      bind-ok (measure_rounds timer (suc rounds) 0 (unmeasured (candidates p r))) _ (key, entry)
        e3 in
    let (won, chosen, e5) = bind-ok (choose keeps h samples) _ (key, entry) e4 in
    let (splits, _, e6) =
      bind-ok (tune_splitk2 beats split_times p.device r won.1) _ (key, entry) e5 in
    let last = ok-eq _ (key, entry) e6 in
    (h, samples, won, measured, chosen, sym (ap (λ x. x.0) last), sym (ap (λ x. x.1.kernel) last))

-- What a tuning run records stands under the key of the shape; its kernel reads the shape's storage
-- types unpacked, binds no descriptor sets, and covers the shape within the device's dispatch
-- limits, whatever the measured times were.
pub tune_op-Eligible :
    (keeps beats : ℕ → ℕ → Bool) (warmup : Kernel → Result TuneError (Option ℕ))
    (timer : ℕ → ℕ → Kernel → Result TuneError (Option ℕ))
    (split_times : ℕ → Result TuneError (List ℕ)) (rounds : ℕ) (p : MatmulPipeline)
    (r : ResolvedMatmul) (key : TuneKey) (entry : TuneEntry)
    → tune_op keeps beats warmup timer split_times rounds p r ≡ ok (key, entry)
    → (key ≡ tune_key r) × Eligible p.device r (spec entry.kernel)
tune_op-Eligible keeps beats warmup timer split_times rounds p r key entry e =
    let (h, samples, (k, ns), measured, chosen, keyed, is) =
      recorded keeps beats warmup timer split_times rounds p r key entry e in
    let fits : (k : Kernel) → Type 0 = λ i. Eligible p.device r (spec i) in
    let s =
      measure_rounds-Sampled fits timer (suc rounds) 0 (unmeasured (candidates p r)) samples
        (unmeasured-Sampled fits (candidates p r) (all-Eligible p r)) measured in
    let (fit, _) = choose-holds (Eligible p.device r) keeps h k samples ns s chosen in
    (keyed, subst fits (sym is) fit)
