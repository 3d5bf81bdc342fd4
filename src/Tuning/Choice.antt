-- ===== src/Tuning/Choice.antt =====
-- src/executor/tuning.rs: what the measured choice can record.
use tensor_ash.Prelude.{
  ℕ, zero, suc, ◌≤◌, ◌≡◌, refl, Bool, true, false, not, ◌&&◌, ◌||◌, inl, inr, Option, none, some,
  List, [], ◌∷◌, Result, ok, Result-cases, Option-cases, Bool-cases, arith, get_elem?, length, leb,
  if◌then◌else◌, div_ceil,
}
use mathlib.Core.Path.{subst}
use tensor_ash.Kernels.{Kernel, KernelSpec, spec, weights_f16, a_f16, is_packed}
use tensor_ash.Matmul.Resolution.{ResolvedMatmul}
use tensor_ash.Pipeline.{Device, is_candidate, bool_eq, keep_candidates}
use tensor_ash.Tuning.{
  TuneError, candidate_at, median, fits_grid, keep_fitting, push_at, sampled, measure_round,
  measure_rounds, faster, challenger, unmeasured,
}

-- A kernel that can be measured for a shape: it reads the shape's storage types unpacked and binds
-- no descriptor sets, and its tiles cover the shape within the device's dispatch limits.
unfoldable pub Eligible : Device → ResolvedMatmul → KernelSpec → Type 0
Eligible d r s =
    (weights_f16 s ≡ r.b_f16)
    × (a_f16 s ≡ false)
    × (is_packed s ≡ false)
    × (s.uses_descriptors ≡ false)
    × (div_ceil r.n s.tile_n ≤ d.max_x)
    × (div_ceil r.m s.tile_m ≤ d.max_y)
    × (r.batch ≤ d.max_z)

passed :
    (tile packed descriptors aligned core w b a row col outer : Bool)
    → (if tile || packed
        then false
        else not descriptors && aligned && core && bool_eq w b && not a && row && col && outer)
      ≡ true
    → (w ≡ b) × (a ≡ false) × (packed ≡ false) × (descriptors ≡ false)
passed tile packed descriptors aligned core w b a row col outer e = ground arith

fitting :
    (d : Device) (r : ResolvedMatmul) (k : Kernel)
    → fits_grid d r k ≡ true
    → (div_ceil r.n (spec k).tile_n ≤ d.max_x)
      × (div_ceil r.m (spec k).tile_m ≤ d.max_y)
      × (r.batch ≤ d.max_z)
unfolding fits_grid
fitting d r k f = ground arith

candidate-Eligible :
    (d : Device) (r : ResolvedMatmul) (k : Kernel)
    → is_candidate r.m r.n r.k r.b_f16 (spec k) ≡ true
    → fits_grid d r k ≡ true
    → Eligible d r (spec k)
unfolding Eligible is_candidate
candidate-Eligible d r k c f =
    let (w, a, p, u) =
      passed _ (is_packed (spec k)) (spec k).uses_descriptors _ _ (weights_f16 (spec k)) r.b_f16
        (a_f16 (spec k)) _ _ _ c in
    let (x, y, z) = fitting d r k f in (w, a, p, u, x, y, z)

-- Every kernel of a list.
unfoldable pub Every : (Kernel → Type 0) → List Kernel → Type 0
Every P [] = Unit {0}
Every P (k ∷ ks) = P k × Every P ks

pub kept :
    (keep : Kernel → Bool) (ks : List Kernel) → Every (λ k. keep k ≡ true) (keep_candidates keep ks)
unfolding keep_candidates Every
kept keep [] = tt
kept keep (k ∷ ks) = elim (Bool-cases (keep k)) [
  | inl yes_ ↦ rw yes_ (yes_, kept keep ks)
  | inr no_ ↦ rw no_ (kept keep ks)
]

pub fitted :
    (d : Device) (r : ResolvedMatmul) (ks : List Kernel)
    → Every (λ k. is_candidate r.m r.n r.k r.b_f16 (spec k) ≡ true) ks
    → Every (λ k. Eligible d r (spec k)) (keep_fitting d r ks)
unfolding keep_fitting Every
fitted d r [] h = tt
fitted d r (k ∷ ks) (c, h) = elim (Bool-cases (fits_grid d r k)) [
  | inl yes_ ↦ rw yes_ (candidate-Eligible d r k c yes_, fitted d r ks h)
  | inr no_ ↦ rw no_ (fitted d r ks h)
]

module _ (P : Kernel → Type 0) where
  unfoldable pub Sampled : List (Kernel × List ℕ) → Type 0
  Sampled [] = Unit {0}
  Sampled ((k, times) ∷ rest) = P k × Sampled rest

  pub unmeasured-Sampled : (ks : List Kernel) → Every P ks → Sampled (unmeasured ks)
  unfolding Every Sampled
  unmeasured-Sampled [] h = tt
  unmeasured-Sampled (k ∷ ks) (p, h) = (p, unmeasured-Sampled ks h)

  push_at-Sampled :
      (samples : List (Kernel × List ℕ)) (ci ns : ℕ)
      → Sampled samples
      → Sampled (push_at samples ci ns)
  unfolding Sampled
  push_at-Sampled [] ci ns h = tt
  push_at-Sampled ((k, times) ∷ rest) zero ns h = h
  push_at-Sampled ((k, times) ∷ rest) (suc ci) ns (p, h) = (p, push_at-Sampled rest ci ns h)

  sampled-Sampled :
      (round : ℕ) (samples : List (Kernel × List ℕ)) (ci : ℕ) (time : Option ℕ)
      → Sampled samples
      → Sampled (sampled round samples ci time)
  sampled-Sampled zero samples ci time h = h
  sampled-Sampled (suc round) samples ci none h = h
  sampled-Sampled (suc round) samples ci (some ns) h = push_at-Sampled samples ci ns h

  module _ (timer : ℕ → ℕ → Kernel → Result TuneError (Option ℕ)) where
    measure_round-Sampled :
        (round left offset : ℕ) (samples out : List (Kernel × List ℕ))
        → Sampled samples
        → measure_round timer round left offset samples ≡ ok out
        → Sampled out
    unfolding measure_round
    measure_round-Sampled round zero offset samples out h e = subst Sampled (ground arith) h
    measure_round-Sampled round (suc left) offset samples out h e =
        elim (Option-cases (get_elem? samples (candidate_at (length samples) round offset))) [
          | inl gone ↦ absurd (ground arith)
          | inr (entry, there) ↦ elim (Result-cases (timer round offset entry.0)) [
            | inl (time, timed) ↦
                measure_round-Sampled round left (suc offset)
                  (sampled round samples (candidate_at (length samples) round offset) time) out
                  (sampled-Sampled round samples (candidate_at (length samples) round offset) time
                    h)
                  (ground arith)
            | inr (_, failed) ↦ absurd (ground arith)
          ]
        ]

    pub measure_rounds-Sampled :
        (left round : ℕ) (samples out : List (Kernel × List ℕ))
        → Sampled samples
        → measure_rounds timer left round samples ≡ ok out
        → Sampled out
    unfolding measure_rounds
    measure_rounds-Sampled zero round samples out h e = subst Sampled (ground arith) h
    measure_rounds-Sampled (suc left) round samples out h e =
        elim (Result-cases (measure_round timer round (length samples) 0 samples)) [
          | inl (next, done) ↦
              measure_rounds-Sampled left (suc round) next out
                (measure_round-Sampled round (length samples) 0 samples next h done) (ground arith)
          | inr (_, failed) ↦ absurd (ground arith)
        ]

  faster-holds :
      (k j : Kernel) (time : Option ℕ) (best : Option (Kernel × ℕ)) (ns : ℕ)
      → P k
      → ((i : Kernel) (m : ℕ) → best ≡ some (i, m) → P i)
      → faster k time best ≡ some (j, ns)
      → P j
  faster-holds k j none best ns p h e = h j ns e
  faster-holds k j (some t) none ns p h e = subst P (ground arith) p
  faster-holds k j (some t) (some (i, m)) ns p h e = elim (Bool-cases (leb t m)) [
    | inl yes_ ↦ subst P (ground arith) p
    | inr no_ ↦ subst P (ground arith) (h i m refl)
  ]

  pub challenger-holds :
      (samples : List (Kernel × List ℕ)) (k : Kernel) (ns : ℕ)
      → Sampled samples
      → challenger samples ≡ some (k, ns)
      → P k
  unfolding challenger Sampled
  challenger-holds [] k ns h e = absurd (ground arith)
  challenger-holds ((j, times) ∷ rest) k ns (p, h) e =
      faster-holds j k (median times) (challenger rest) ns p
        (λ i m f. challenger-holds rest i m h f) e
