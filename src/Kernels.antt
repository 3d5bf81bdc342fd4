-- ===== src/Kernels.antt =====
-- src/pipeline/catalog.rs and src/pipeline/runtime.rs: the registry of matmul kernels. `Kernel` is
-- `KernelSelection` without `Auto`, so that what the source asserts by `expect("concrete")` holds
-- by its type. SPIR-V binaries are data that the build makes, and are not modelled.
pub mod Registry
pub mod Aliases
use Prim.Native.String.{String}
use package.tensor_ash.Prelude.{
  ℕ, Bool, true, false, ◌&&◌, not, Option, none, some, List, [], ◌∷◌, map, contains_text, ends_with,
  starts_with,
}

pub data Kernel : Type 0 where
  large small m64n128 m128n64 m128n64k64 m64n32 k64 bk16 v2 m64n128k64 : Kernel
  m128n128_t4 m256n64 v3 large_bda m128n64k64_bda k64_bda small_bda m64n32_bda : Kernel
  m128n64_bda m64n128_bda large_bda_v4 m128n64k64_bda_v4 small_bda_v4 : Kernel
  k64_bda_v4 m128n64_bda_v4 m64n128_bda_v4 bk16_bda_v4 : Kernel
  m128n64k64_bda_v4_tm8_tn8 m128n64k64_bda_v4_tm16_tn4 k64_bda_v4_tm8_tn4 : Kernel
  k64_bda_v4_tm4_tn8 k64_bda_v4_tm8_tn8 large_bda_v4_aligned : Kernel
  m128n64k64_bda_v4_aligned row_bda col_bda outer_bda f16w_large_bda_v4 : Kernel
  f16w_small_bda_v4 f16w_k64_bda_v4 f16w_m128n64k64_bda_v4 f16w_row_bda : Kernel
  f16w_row_bda_k16 f16w_row_bda_k16_v2 f16w_row_bda_k16_packed : Kernel
  f16w_row_bda_k16_v2_packed f16w_coopmat f16w_a16_coopmat f16w_coopmat_m64 : Kernel
  f16w_a16_coopmat_m64 f16w_coopmat_m64n128 f16w_a16_coopmat_m64n128 : Kernel
  f16w_coopmat_m128n64 f16w_a16_coopmat_m128n64 f16w_cm2 : Kernel

pub data KernelSelection : Type 0 where
  auto : KernelSelection
  pick : Kernel → KernelSelection

-- `KernelSpec` without the binary.
pub record KernelSpec : Type 0 where
  pub name : String
  pub tile_m : ℕ
  pub tile_n : ℕ
  pub tile_k : ℕ
  pub uses_descriptors : Bool

abbrev row : String → ℕ → ℕ → ℕ → Bool → KernelSpec
row name m n k d = record { name = name; tile_m = m; tile_n = n; tile_k = k; uses_descriptors = d }

-- The rows that `kernel_catalog!` declares.
abbrev pub spec : Kernel → KernelSpec
spec large = row "large_128" 128 128 32 true
spec small = row "small_64" 64 64 32 true
spec m64n128 = row "m64n128" 64 128 32 true
spec m128n64 = row "m128n64" 128 64 32 true
spec m128n64k64 = row "m128n64k64" 128 64 64 true
spec m64n32 = row "m64n32" 64 32 32 true
spec k64 = row "k64" 64 64 64 true
spec bk16 = row "bk16_128x128" 128 128 16 true
spec v2 = row "v2_128x128_bk8" 128 128 8 true
spec m64n128k64 = row "m64n128k64" 64 128 64 true
spec m128n128_t4 = row "m128n128_t4" 128 128 32 true
spec m256n64 = row "m256n64" 256 64 32 true
spec v3 = row "v3_128x128_bk8_static" 128 128 8 true
spec large_bda = row "large_bda" 128 128 32 false
spec m128n64k64_bda = row "m128n64k64_bda" 128 64 64 false
spec k64_bda = row "k64_bda" 64 64 64 false
spec small_bda = row "small_bda" 64 64 32 false
spec m64n32_bda = row "m64n32_bda" 64 32 32 false
spec m128n64_bda = row "m128n64_bda" 128 64 32 false
spec m64n128_bda = row "m64n128_bda" 64 128 32 false
spec large_bda_v4 = row "large_bda_v4" 128 128 32 false
spec m128n64k64_bda_v4 = row "m128n64k64_bda_v4" 128 64 64 false
spec small_bda_v4 = row "small_bda_v4" 64 64 32 false
spec k64_bda_v4 = row "k64_bda_v4" 64 64 64 false
spec m128n64_bda_v4 = row "m128n64_bda_v4" 128 64 32 false
spec m64n128_bda_v4 = row "m64n128_bda_v4" 64 128 32 false
spec bk16_bda_v4 = row "bk16_bda_v4" 128 128 16 false
spec m128n64k64_bda_v4_tm8_tn8 = row "m128n64k64_bda_v4_tm8_tn8" 128 64 64 false
spec m128n64k64_bda_v4_tm16_tn4 = row "m128n64k64_bda_v4_tm16_tn4" 128 64 64 false
spec k64_bda_v4_tm8_tn4 = row "k64_bda_v4_tm8_tn4" 64 64 64 false
spec k64_bda_v4_tm4_tn8 = row "k64_bda_v4_tm4_tn8" 64 64 64 false
spec k64_bda_v4_tm8_tn8 = row "k64_bda_v4_tm8_tn8" 64 64 64 false
spec large_bda_v4_aligned = row "large_bda_v4_aligned" 128 128 32 false
spec m128n64k64_bda_v4_aligned = row "m128n64k64_bda_v4_aligned" 128 64 64 false
spec row_bda = row "row_bda" 1 32 1 false
spec col_bda = row "col_bda" 2 1 1 false
spec outer_bda = row "outer_bda" 16 128 1 false
spec f16w_large_bda_v4 = row "f16w_large_bda_v4" 128 128 32 false
spec f16w_small_bda_v4 = row "f16w_small_bda_v4" 64 64 32 false
spec f16w_k64_bda_v4 = row "f16w_k64_bda_v4" 64 64 64 false
spec f16w_m128n64k64_bda_v4 = row "f16w_m128n64k64_bda_v4" 128 64 64 false
spec f16w_row_bda = row "f16w_row_bda" 1 32 1 false
spec f16w_row_bda_k16 = row "f16w_row_bda_k16" 1 32 1 false
spec f16w_row_bda_k16_v2 = row "f16w_row_bda_k16_v2" 1 64 1 false
spec f16w_row_bda_k16_packed = row "f16w_row_bda_k16_packed" 1 32 1 false
spec f16w_row_bda_k16_v2_packed = row "f16w_row_bda_k16_v2_packed" 1 64 1 false
spec f16w_coopmat = row "f16w_coopmat_aligned" 128 128 32 false
spec f16w_a16_coopmat = row "f16w_a16_coopmat_aligned" 128 128 32 false
spec f16w_coopmat_m64 = row "f16w_coopmat_m64n64" 64 64 32 false
spec f16w_a16_coopmat_m64 = row "f16w_a16_coopmat_m64n64" 64 64 32 false
spec f16w_coopmat_m64n128 = row "f16w_coopmat_m64n128" 64 128 32 false
spec f16w_a16_coopmat_m64n128 = row "f16w_a16_coopmat_m64n128" 64 128 32 false
spec f16w_coopmat_m128n64 = row "f16w_coopmat_m128n64" 128 64 32 false
spec f16w_a16_coopmat_m128n64 = row "f16w_a16_coopmat_m128n64" 128 64 32 false
spec f16w_cm2 = row "f16w_cm2" 128 64 64 false

-- `KernelSelection::index` of a concrete kernel: its place in the declaration order.
unfoldable pub index : Kernel → ℕ
index large = 0
index small = 1
index m64n128 = 2
index m128n64 = 3
index m128n64k64 = 4
index m64n32 = 5
index k64 = 6
index bk16 = 7
index v2 = 8
index m64n128k64 = 9
index m128n128_t4 = 10
index m256n64 = 11
index v3 = 12
index large_bda = 13
index m128n64k64_bda = 14
index k64_bda = 15
index small_bda = 16
index m64n32_bda = 17
index m128n64_bda = 18
index m64n128_bda = 19
index large_bda_v4 = 20
index m128n64k64_bda_v4 = 21
index small_bda_v4 = 22
index k64_bda_v4 = 23
index m128n64_bda_v4 = 24
index m64n128_bda_v4 = 25
index bk16_bda_v4 = 26
index m128n64k64_bda_v4_tm8_tn8 = 27
index m128n64k64_bda_v4_tm16_tn4 = 28
index k64_bda_v4_tm8_tn4 = 29
index k64_bda_v4_tm4_tn8 = 30
index k64_bda_v4_tm8_tn8 = 31
index large_bda_v4_aligned = 32
index m128n64k64_bda_v4_aligned = 33
index row_bda = 34
index col_bda = 35
index outer_bda = 36
index f16w_large_bda_v4 = 37
index f16w_small_bda_v4 = 38
index f16w_k64_bda_v4 = 39
index f16w_m128n64k64_bda_v4 = 40
index f16w_row_bda = 41
index f16w_row_bda_k16 = 42
index f16w_row_bda_k16_v2 = 43
index f16w_row_bda_k16_packed = 44
index f16w_row_bda_k16_v2_packed = 45
index f16w_coopmat = 46
index f16w_a16_coopmat = 47
index f16w_coopmat_m64 = 48
index f16w_a16_coopmat_m64 = 49
index f16w_coopmat_m64n128 = 50
index f16w_a16_coopmat_m64n128 = 51
index f16w_coopmat_m128n64 = 52
index f16w_a16_coopmat_m128n64 = 53
index f16w_cm2 = 54

-- `CONCRETE_SELECTIONS`.
abbrev pub concrete : List Kernel
concrete =
    large ∷ small ∷ m64n128 ∷ m128n64 ∷ m128n64k64 ∷ m64n32 ∷ k64 ∷ bk16 ∷ v2 ∷ m64n128k64
    ∷ m128n128_t4 ∷ m256n64 ∷ v3 ∷ large_bda ∷ m128n64k64_bda ∷ k64_bda ∷ small_bda ∷ m64n32_bda
    ∷ m128n64_bda ∷ m64n128_bda ∷ large_bda_v4 ∷ m128n64k64_bda_v4 ∷ small_bda_v4 ∷ k64_bda_v4
    ∷ m128n64_bda_v4 ∷ m64n128_bda_v4 ∷ bk16_bda_v4 ∷ m128n64k64_bda_v4_tm8_tn8
    ∷ m128n64k64_bda_v4_tm16_tn4 ∷ k64_bda_v4_tm8_tn4 ∷ k64_bda_v4_tm4_tn8 ∷ k64_bda_v4_tm8_tn8
    ∷ large_bda_v4_aligned ∷ m128n64k64_bda_v4_aligned ∷ row_bda ∷ col_bda ∷ outer_bda
    ∷ f16w_large_bda_v4 ∷ f16w_small_bda_v4 ∷ f16w_k64_bda_v4 ∷ f16w_m128n64k64_bda_v4
    ∷ f16w_row_bda ∷ f16w_row_bda_k16 ∷ f16w_row_bda_k16_v2 ∷ f16w_row_bda_k16_packed
    ∷ f16w_row_bda_k16_v2_packed ∷ f16w_coopmat ∷ f16w_a16_coopmat ∷ f16w_coopmat_m64
    ∷ f16w_a16_coopmat_m64 ∷ f16w_coopmat_m64n128 ∷ f16w_a16_coopmat_m64n128 ∷ f16w_coopmat_m128n64
    ∷ f16w_a16_coopmat_m128n64 ∷ f16w_cm2 ∷ []

-- `KERNEL_SPECS`.
abbrev pub kernel_specs : List KernelSpec
kernel_specs = map spec concrete

-- `KernelSpec::weights_f16` and `MatmulKernel::weights_f16`.
unfoldable pub weights_f16 : KernelSpec → Bool
weights_f16 s = starts_with s.name "f16w_"

-- `KernelSpec::a_f16` and `MatmulKernel::a_f16`.
unfoldable pub a_f16 : KernelSpec → Bool
a_f16 s = contains_text s.name "_a16_"

-- `MatmulKernel::supports_epilogue`.
unfoldable pub supports_epilogue : KernelSpec → Bool
supports_epilogue s =
    not s.uses_descriptors
    && not (ends_with s.name "_aligned")
    && not (contains_text s.name "coopmat")

-- `MatmulKernel::supports_normed_a`.
unfoldable pub supports_normed_a : KernelSpec → Bool
supports_normed_a s = contains_text s.name "row_bda"

-- `MatmulKernel::supports_store`.
unfoldable pub supports_store : KernelSpec → Bool
unfolding weights_f16
supports_store s = weights_f16 s && contains_text s.name "row_bda"

-- `name.contains("packed")`, as the recorder and the tuner test it.
unfoldable pub is_packed : KernelSpec → Bool
is_packed s = contains_text s.name "packed"
