-- ===== src/Pipeline/Specialized.antt =====
-- src/pipeline/mod.rs: the cached pipelines are those that the driver compiled for their keys.
use Prim.Native.String.{String}
use text.Mathlib.Text.{◌==◌ as str_eq}
use text.Mathlib.TextEquality.{eq_iff}
use tensor_ash.Prelude.{
  ℕ, ◌≡◌, refl, sym, ap, ◌∙◌, inl, inr, Bool, true, false, ◌&&◌, Option, none, some, List, [], ◌∷◌,
  if◌then◌else◌, arith, Bool-cases,
}
use tensor_ash.Kernels.{
  Kernel, KernelSpec, spec, kernel_specs, large, supports_store, supports_epilogue,
}
use tensor_ash.Pipeline.{bool_eq}
use tensor_ash.Pipeline.Variants.{
  KernelVariant, EpilogueKey, CacheKey, Compiler, variant_index, from_index, fallback, same_variant,
  key_is_none, same_key, same_cache_key, cached, fallback_constants, create_epilogue_pipeline, bit,
  spec_count, spec_data, eager_slot, pipeline_for, pipeline_for_epilogue, answer, remember,
}

pub from_index-variant_index : (v : KernelVariant) → from_index (variant_index v) ≡ v
unfolding from_index variant_index
from_index-variant_index v = decode v.accumulate v.alpha_is_one v.interior_only v.k_multiple
  where
    decode :
        (a b c d : Bool)
        → (let w : KernelVariant = record {
          accumulate = a;
          alpha_is_one = b;
          interior_only = c;
          k_multiple = d;
        } in
            from_index (variant_index w) ≡ w)
    decode true true true true = refl
    decode true true true false = refl
    decode true true false true = refl
    decode true true false false = refl
    decode true false true true = refl
    decode true false true false = refl
    decode true false false true = refl
    decode true false false false = refl
    decode false true true true = refl
    decode false true true false = refl
    decode false true false true = refl
    decode false true false false = refl
    decode false false true true = refl
    decode false false true false = refl
    decode false false false true = refl
    decode false false false false = refl

bool_eq-eq : (a b : Bool) → bool_eq a b ≡ true → a ≡ b
bool_eq-eq true b e = sym e
bool_eq-eq false true e = e
bool_eq-eq false false e = refl

-- The first row of the registry with a name.
named : String → List KernelSpec → Option KernelSpec
named name [] = none
named name (s ∷ rest) = if str_eq s.name name then some s else named name rest

named-spec : (k : Kernel) → named (spec k).name kernel_specs ≡ some (spec k)
unfolding named
named-spec large = refl
named-spec _ = refl

name-injective : (j k : Kernel) → (spec j).name ≡ (spec k).name → spec j ≡ spec k
name-injective j k e =
    some-eq _ _ (sym (named-spec j) ∙ ap (λ n. named n kernel_specs) e ∙ named-spec k)
  where
    some-eq : (s t : KernelSpec) → ◌≡◌ {A = Option KernelSpec} (some s) (some t) → s ≡ t
    some-eq s t e = cc

same_key-eq : (e f : EpilogueKey) → same_key e f ≡ true → e ≡ f
unfolding same_key
same_key-eq e f h =
    let bias = bool_eq-eq e.bias f.bias (ground arith) in
    let activation : e.activation ≡ f.activation = ground arith in
    let binary : e.binary ≡ f.binary = ground arith in
    let mode : e.store_mode ≡ f.store_mode = ground arith in
    let half = bool_eq-eq e.store_f16 f.store_f16 (ground arith) in
    λ i. record {
      bias = bias i;
      activation = activation i;
      binary = binary i;
      store_mode = mode i;
      store_f16 = half i;
    }

pipeline_for-constants :
    (compile : Compiler) (s : KernelSpec) (v : KernelVariant)
    → pipeline_for compile s v ≡ compile s (fallback_constants (fallback v))
unfolding pipeline_for eager_slot
pipeline_for-constants compile s v =
    ap (λ w. compile s (fallback_constants (from_index (variant_index (fallback w)))))
      (from_index-variant_index v)
    ∙ ap (λ w. compile s (fallback_constants w)) (from_index-variant_index (fallback v))

same_variant-eq : (v w : KernelVariant) → same_variant v w ≡ true → v ≡ w
unfolding same_variant
same_variant-eq v w h =
    let accumulate = bool_eq-eq v.accumulate w.accumulate (ground arith) in
    let alpha = bool_eq-eq v.alpha_is_one w.alpha_is_one (ground arith) in
    let interior = bool_eq-eq v.interior_only w.interior_only (ground arith) in
    let multiple = bool_eq-eq v.k_multiple w.k_multiple (ground arith) in
    λ i. record {
      accumulate = accumulate i;
      alpha_is_one = alpha i;
      interior_only = interior i;
      k_multiple = multiple i;
    }

-- The constants of a kernel, a variant and an epilogue: the four of the variant; for a kernel that
-- supports epilogues also bias, activation and binary; for one that supports stores also the two of
-- the store.
unfoldable pub constants_of : KernelSpec → KernelVariant → EpilogueKey → List ℕ
constants_of s v e =
    if supports_store s
    then bit v.accumulate
      ∷ bit v.alpha_is_one
      ∷ bit v.interior_only
      ∷ bit v.k_multiple
      ∷ bit e.bias
      ∷ e.activation
      ∷ e.binary
      ∷ e.store_mode
      ∷ bit e.store_f16
      ∷ []
    else if supports_epilogue s
    then bit v.accumulate
      ∷ bit v.alpha_is_one
      ∷ bit v.interior_only
      ∷ bit v.k_multiple
      ∷ bit e.bias
      ∷ e.activation
      ∷ e.binary
      ∷ []
    else bit v.accumulate ∷ bit v.alpha_is_one ∷ bit v.interior_only ∷ bit v.k_multiple ∷ []

created :
    (compile : Compiler) (s : KernelSpec) (v : KernelVariant) (e : EpilogueKey)
    → create_epilogue_pipeline compile s v e ≡ compile s (constants_of s v e)
unfolding create_epilogue_pipeline spec_count spec_data constants_of
created compile s v e = elim (Bool-cases (supports_store s)) [
  | inl stores ↦ rw stores refl
  | inr plain ↦ elim (Bool-cases (supports_epilogue s)) [
    | inl fuses ↦ rw (plain, fuses) refl
    | inr bare ↦ rw (plain, bare) refl
  ]
]

abbrev pub key_of : Kernel → KernelVariant → EpilogueKey → CacheKey
key_of k v e = record { kernel = (spec k).name; variant = variant_index v; epilogue = e }

-- A handle is what the driver returned for the kernel, the variant and the epilogue of the key.
abbrev pub Answers : Compiler → CacheKey → ℕ → Type 0
Answers compile key p =
    (k : Kernel) (v : KernelVariant) (e : EpilogueKey)
    → same_cache_key key (key_of k v e) ≡ true
    → compile (spec k) (constants_of (spec k) v e) ≡ some p

abbrev pub Filled : Compiler → List (CacheKey × ℕ) → Type 0
Filled compile [] = Unit
Filled compile ((key, p) ∷ rest) = Answers compile key p × Filled compile rest

created-Answers :
    (compile : Compiler) (k : Kernel) (v : KernelVariant) (e : EpilogueKey) (p : ℕ)
    → compile (spec k) (constants_of (spec k) v e) ≡ some p
    → Answers compile (key_of k v e) p
unfolding same_cache_key
created-Answers compile k v e p made j w f same =
    let kernels = name-injective k j ((eq_iff (spec k).name (spec j).name).0 (ground arith)) in
    let index : variant_index v ≡ variant_index w = ground arith in
    let variants =
      sym (from_index-variant_index v) ∙ ap from_index index ∙ from_index-variant_index w in
    let keys = same_key-eq e f (ground arith) in
    sym (λ i. compile (kernels i) (constants_of (kernels i) (variants i) (keys i))) ∙ made

cached-Answers :
    (compile : Compiler) (cache : List (CacheKey × ℕ)) (k : Kernel) (v : KernelVariant)
    (e : EpilogueKey) (p : ℕ)
    → Filled compile cache
    → cached (key_of k v e) cache ≡ some p
    → compile (spec k) (constants_of (spec k) v e) ≡ some p
unfolding cached
cached-Answers compile [] k v e p all found = ground arith
cached-Answers compile ((key, q) ∷ rest) k v e p all found =
    elim (Bool-cases (same_cache_key key (key_of k v e))) [
      | inl h ↦ all.0 k v e h ∙ ground arith
      | inr h ↦ cached-Answers compile rest k v e p all.1 (ground arith)
    ]

-- An epilogue with no bias, no activation, no binary operation and no store.
abbrev pub Empty : EpilogueKey → Type 0
Empty e = (e.bias ≡ false) × (e.activation ≡ 0) × (e.binary ≡ 0) × (e.store_mode ≡ 0)

key_is_none-Empty : (e : EpilogueKey) → key_is_none e ≡ true → Empty e
unfolding key_is_none
key_is_none-Empty e h = ground arith

-- How a handle was compiled: with the constants of the variant alone, which an empty epilogue
-- allows, or with the ones of the epilogue.
pub data Served (compile : Compiler) (k : Kernel) (v : KernelVariant) (e : EpilogueKey) (p : ℕ)
    : Type 0 where
  as_fallback :
      Empty e
      → compile
          (spec k)
          (bit v.accumulate ∷ bit v.alpha_is_one ∷ bit v.interior_only ∷ bit v.k_multiple ∷ [])
        ≡ some p
      → Served compile k v e p
  as_keyed : compile (spec k) (constants_of (spec k) v e) ≡ some p → Served compile k v e p

-- The handle of an answer, if there is one, and the cache behind it.
abbrev Serves :
    Compiler → Kernel → KernelVariant → EpilogueKey → Option ℕ × List (CacheKey × ℕ) → Type 0
Serves compile k v e (o, after) =
    ((p : ℕ) → o ≡ some p → Served compile k v e p) × Filled compile after

remember-Serves :
    (compile : Compiler) (k : Kernel) (v : KernelVariant) (e : EpilogueKey)
    (cache : List (CacheKey × ℕ)) (made : Option ℕ)
    → compile (spec k) (constants_of (spec k) v e) ≡ made
    → Filled compile cache
    → Serves compile k v e (remember (key_of k v e) made cache)
remember-Serves compile k v e cache none h all = (λ p o. as_keyed (h ∙ o), all)
remember-Serves compile k v e cache (some q) h all =
    (λ p o. as_keyed (h ∙ o), (created-Answers compile k v e q h, all))

answer-Serves :
    (compile : Compiler) (k : Kernel) (v : KernelVariant) (e : EpilogueKey)
    (cache : List (CacheKey × ℕ)) (found : Option ℕ)
    → cached (key_of k v e) cache ≡ found
    → Filled compile cache
    → Serves compile k v e
        (answer (key_of k v e) found (create_epilogue_pipeline compile (spec k) v e) cache)
answer-Serves compile k v e cache none h all =
    remember-Serves compile k v e cache (create_epilogue_pipeline compile (spec k) v e)
      (sym (created compile (spec k) v e)) all
answer-Serves compile k v e cache (some q) h all =
    (λ p o. as_keyed (cached-Answers compile cache k v e p all (h ∙ o)), all)

plain-Serves :
    (compile : Compiler) (k : Kernel) (v : KernelVariant) (e : EpilogueKey)
    (cache : List (CacheKey × ℕ))
    → key_is_none e ≡ true
    → v ≡ fallback v
    → Filled compile cache
    → Serves compile k v e (pipeline_for compile (spec k) v, cache)
unfolding fallback_constants
plain-Serves compile k v e cache empty same all = (
  λ p o. as_fallback (key_is_none-Empty e empty) (
      ap (λ w. compile (spec k) (fallback_constants w)) same
      ∙ sym (pipeline_for-constants compile (spec k) v)
      ∙ o),
  all,
)

pipeline_for_epilogue-Serves :
    (compile : Compiler) (k : Kernel) (v : KernelVariant) (e : EpilogueKey)
    (cache : List (CacheKey × ℕ))
    → Filled compile cache
    → Serves compile k v e (pipeline_for_epilogue compile (spec k) v e cache)
unfolding pipeline_for_epilogue
pipeline_for_epilogue-Serves compile k v e cache all =
    choose (key_is_none e && same_variant v (fallback v)) refl
  where
    choose :
        (b : Bool)
        → (key_is_none e && same_variant v (fallback v)) ≡ b
        → Serves compile k v e (
            if b
            then (pipeline_for compile (spec k) v, cache)
            else answer
                (key_of k v e)
                (cached (key_of k v e) cache)
                (create_epilogue_pipeline compile (spec k) v e)
                cache)
    choose true h =
        plain-Serves compile k v e cache (ground arith)
          (same_variant-eq v (fallback v) (ground arith)) all
    choose false h = answer-Serves compile k v e cache (cached (key_of k v e) cache) refl all

-- A pipeline that `pipeline_for_epilogue` hands out, whether it comes from a slot, from the cache
-- or from the driver, was compiled for this kernel of the registry with the constants of this
-- variant and this epilogue: nine of them where the kernel supports stores, the first seven where
-- it supports epilogues only, and the variant's four where it supports neither, so that such a
-- kernel ignores the epilogue; or, where the epilogue is empty, with the variant's four. And the
-- cache that it leaves still holds, under every key, what the driver compiles for the constants of
-- that key. The cache is assumed to hold such pipelines at the start, as an empty one does.
pub pipeline_for_epilogue-Served :
    (compile : Compiler) (k : Kernel) (v : KernelVariant) (e : EpilogueKey)
    (cache : List (CacheKey × ℕ)) (p : ℕ)
    → Filled compile cache
    → (pipeline_for_epilogue compile (spec k) v e cache).0 ≡ some p
    → Served compile k v e p × Filled compile (pipeline_for_epilogue compile (spec k) v e cache).1
pipeline_for_epilogue-Served compile k v e cache p all given =
    let served = pipeline_for_epilogue-Serves compile k v e cache all in
    (served.0 p given, served.1)
