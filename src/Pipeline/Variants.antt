-- ===== src/Pipeline/Variants.antt =====
-- src/pipeline/abi.rs, src/pipeline/create.rs and src/pipeline/mod.rs: the specialisations of a
-- kernel, and the cache of those that are compiled on first use. A compiled pipeline is its handle.
use Prim.Native.String.{String}
use text.Mathlib.Text.{◌==◌ as str_eq}
use tensor_ash.Prelude.{
  ℕ, ◌*◌, ◌+◌, ◌/◌, ◌%◌, Bool, true, false, ◌&&◌, not, Option, none, some, is_some, List, [], ◌∷◌,
  if◌then◌else◌, ◌==◌, take,
}
use tensor_ash.Kernels.{KernelSpec, supports_epilogue, supports_store}
use tensor_ash.Pipeline.{bool_eq}
use tensor_ash.Matmul.Epilogues
use tensor_ash.Matmul.Epilogues.{Activation, EpilogueBinary, Epilogue}

pub record KernelVariant : Type 0 where
  pub accumulate : Bool
  pub alpha_is_one : Bool
  pub interior_only : Bool
  pub k_multiple : Bool

-- `b as u32`.
abbrev pub bit : Bool → ℕ
bit true = 1
bit false = 0

-- `KernelVariant::index`: an `or` of distinct bits is their sum.
unfoldable pub variant_index : KernelVariant → ℕ
variant_index v =
    bit v.accumulate + 2 * bit v.alpha_is_one + 4 * bit v.interior_only + 8 * bit v.k_multiple

-- `(idx & (1 << n)) != 0`, given `1 << n`.
abbrev has_bit : ℕ → ℕ → Bool
has_bit idx power = not (idx / power % 2 == 0)

unfoldable pub from_index : ℕ → KernelVariant
from_index idx = record {
  accumulate = has_bit idx 1;
  alpha_is_one = has_bit idx 2;
  interior_only = has_bit idx 4;
  k_multiple = has_bit idx 8;
}

unfoldable pub fallback : KernelVariant → KernelVariant
fallback v = record v { interior_only = false; k_multiple = false }

-- `variant == other`, the derived equality.
unfoldable pub same_variant : KernelVariant → KernelVariant → Bool
same_variant v w =
    bool_eq v.accumulate w.accumulate
    && bool_eq v.alpha_is_one w.alpha_is_one
    && bool_eq v.interior_only w.interior_only
    && bool_eq v.k_multiple w.k_multiple

pub record EpilogueKey : Type 0 where
  pub bias : Bool
  pub activation : ℕ
  pub binary : ℕ
  pub store_mode : ℕ
  pub store_f16 : Bool

-- `EpilogueKey::is_none`.
unfoldable pub key_is_none : EpilogueKey → Bool
key_is_none e = not e.bias && e.activation == 0 && e.binary == 0 && e.store_mode == 0

-- `key == other`, the derived equality.
unfoldable pub same_key : EpilogueKey → EpilogueKey → Bool
same_key e f =
    bool_eq e.bias f.bias
    && e.activation == f.activation
    && e.binary == f.binary
    && e.store_mode == f.store_mode
    && bool_eq e.store_f16 f.store_f16

-- `Activation::code`.
unfoldable pub code : Activation → ℕ
code Epilogues.identity = 0
code Epilogues.relu = 1
code Epilogues.silu = 2
code Epilogues.gelu = 3

abbrev binary_code : EpilogueBinary → ℕ
binary_code Epilogues.no_binary = 0
binary_code (Epilogues.add_scaled d beta) = 1
binary_code (Epilogues.mul d) = 2

-- `Epilogue::key`.
unfoldable pub epilogue_key : Epilogue → EpilogueKey
unfolding code
epilogue_key e = record {
  bias = is_some e.bias;
  activation = code e.activation;
  binary = binary_code e.binary;
  store_mode = 0;
  store_f16 = false;
}

-- The constants of a fallback in `create_kernel`.
unfoldable pub fallback_constants : KernelVariant → List ℕ
fallback_constants v =
    bit v.accumulate ∷ bit v.alpha_is_one ∷ bit v.interior_only ∷ bit v.k_multiple ∷ []

-- The `spec_data` and `spec_count` of `create_epilogue_pipeline`.
unfoldable pub spec_count : KernelSpec → ℕ
spec_count s = if supports_store s then 9 else if supports_epilogue s then 7 else 4

unfoldable pub spec_data : KernelVariant → EpilogueKey → List ℕ
spec_data v e =
    bit v.accumulate
    ∷ bit v.alpha_is_one
    ∷ bit v.interior_only
    ∷ bit v.k_multiple
    ∷ bit e.bias
    ∷ e.activation
    ∷ e.binary
    ∷ e.store_mode
    ∷ bit e.store_f16
    ∷ []

-- The creation of a pipeline by the driver, from a kernel and its specialisation constants.
abbrev pub Compiler : Type 0
Compiler = KernelSpec → List ℕ → Option ℕ

-- `create_epilogue_pipeline`.
unfoldable pub create_epilogue_pipeline :
    Compiler → KernelSpec → KernelVariant → EpilogueKey → Option ℕ
unfolding spec_count spec_data
create_epilogue_pipeline compile s v e = compile s (take (spec_count s) (spec_data v e))

-- `create_kernel`: the pipeline in the slot `idx` of a kernel.
unfoldable pub eager_slot : Compiler → KernelSpec → ℕ → Option ℕ
unfolding fallback_constants from_index fallback variant_index
eager_slot compile s idx =
    compile s (fallback_constants (from_index (variant_index (fallback (from_index idx)))))

-- `MatmulKernel::pipeline_for`.
unfoldable pub pipeline_for : Compiler → KernelSpec → KernelVariant → Option ℕ
unfolding eager_slot
pipeline_for compile s v = eager_slot compile s (variant_index v)

-- An entry of `epilogue_pipelines`: the kernel's name, the variant's index and the epilogue.
pub record CacheKey : Type 0 where
  pub kernel : String
  pub variant : ℕ
  pub epilogue : EpilogueKey

unfoldable pub same_cache_key : CacheKey → CacheKey → Bool
unfolding same_key
same_cache_key a b =
    str_eq a.kernel b.kernel && a.variant == b.variant && same_key a.epilogue b.epilogue

-- `cache.get(&key)`.
unfoldable pub cached : CacheKey → List (CacheKey × ℕ) → Option ℕ
cached key [] = none
cached key ((k, p) ∷ rest) = if same_cache_key k key then some p else cached key rest

-- `cache.insert(key, pipeline)`, once the pipeline is created; the `?` of a creation that fails
-- leaves the cache as it is.
abbrev pub remember : CacheKey → Option ℕ → List (CacheKey × ℕ) → Option ℕ × List (CacheKey × ℕ)
remember key none cache = (none, cache)
remember key (some p) cache = (some p, (key, p) ∷ cache)

-- A hit is returned, and what is not found is created.
abbrev pub answer :
    CacheKey → Option ℕ → Option ℕ → List (CacheKey × ℕ) → Option ℕ × List (CacheKey × ℕ)
answer key (some p) created cache = (some p, cache)
answer key none created cache = remember key created cache

-- `pipeline_for_epilogue`: the pipeline, and the cache that it leaves.
unfoldable pub pipeline_for_epilogue :
    Compiler
    → KernelSpec
    → KernelVariant
    → EpilogueKey
    → List (CacheKey × ℕ)
    → Option ℕ × List (CacheKey × ℕ)
pipeline_for_epilogue compile s v e cache =
    let key : CacheKey = record { kernel = s.name; variant = variant_index v; epilogue = e } in
    if key_is_none e && same_variant v (fallback v)
    then (pipeline_for compile s v, cache)
    else answer key (cached key cache) (create_epilogue_pipeline compile s v e) cache
