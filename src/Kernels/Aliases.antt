-- ===== src/Kernels/Aliases.antt =====
-- src/pipeline/catalog.rs: the names by which `ML_KERNEL` selects a kernel.
use Prim.Native.String.{String}
use tensor_ash.Prelude.{List, [], ◌∷◌}
use tensor_ash.Kernels.{Kernel, KernelSelection, auto, pick}

-- The aliases that `KernelSelection::parse` accepts, after trimming and lower-casing.
abbrev pub aliases : List (String × KernelSelection)
aliases =
    ("", auto)
    ∷ ("auto", auto)
    ∷ ("large", pick Kernel.large)
    ∷ ("large_128", pick Kernel.large)
    ∷ ("128", pick Kernel.large)
    ∷ ("small", pick Kernel.small)
    ∷ ("small_64", pick Kernel.small)
    ∷ ("64", pick Kernel.small)
    ∷ ("m64n128", pick Kernel.m64n128)
    ∷ ("64x128", pick Kernel.m64n128)
    ∷ ("wide", pick Kernel.m64n128)
    ∷ ("m128n64", pick Kernel.m128n64)
    ∷ ("128x64", pick Kernel.m128n64)
    ∷ ("tall", pick Kernel.m128n64)
    ∷ ("m128n64k64", pick Kernel.m128n64k64)
    ∷ ("128x64k64", pick Kernel.m128n64k64)
    ∷ ("m64n32", pick Kernel.m64n32)
    ∷ ("64x32", pick Kernel.m64n32)
    ∷ ("k64", pick Kernel.k64)
    ∷ ("small_k64", pick Kernel.k64)
    ∷ ("64k", pick Kernel.k64)
    ∷ ("bk16", pick Kernel.bk16)
    ∷ ("128x128bk16", pick Kernel.bk16)
    ∷ ("v2", pick Kernel.v2)
    ∷ ("128x128bk8", pick Kernel.v2)
    ∷ ("sota", pick Kernel.v2)
    ∷ ("m64n128k64", pick Kernel.m64n128k64)
    ∷ ("64x128k64", pick Kernel.m64n128k64)
    ∷ ("m128n128_t4", pick Kernel.m128n128_t4)
    ∷ ("128x128_t4", pick Kernel.m128n128_t4)
    ∷ ("m256n64", pick Kernel.m256n64)
    ∷ ("256x64", pick Kernel.m256n64)
    ∷ ("v3", pick Kernel.v3)
    ∷ ("128x128bk8static", pick Kernel.v3)
    ∷ ("large_bda", pick Kernel.large_bda)
    ∷ ("128x128_bda", pick Kernel.large_bda)
    ∷ ("m128n64k64_bda", pick Kernel.m128n64k64_bda)
    ∷ ("128x64k64_bda", pick Kernel.m128n64k64_bda)
    ∷ ("k64_bda", pick Kernel.k64_bda)
    ∷ ("small_bda", pick Kernel.small_bda)
    ∷ ("64_bda", pick Kernel.small_bda)
    ∷ ("m64n32_bda", pick Kernel.m64n32_bda)
    ∷ ("64x32_bda", pick Kernel.m64n32_bda)
    ∷ ("m128n64_bda", pick Kernel.m128n64_bda)
    ∷ ("m64n128_bda", pick Kernel.m64n128_bda)
    ∷ ("large_bda_v4", pick Kernel.large_bda_v4)
    ∷ ("m128n64k64_bda_v4", pick Kernel.m128n64k64_bda_v4)
    ∷ ("small_bda_v4", pick Kernel.small_bda_v4)
    ∷ ("k64_bda_v4", pick Kernel.k64_bda_v4)
    ∷ ("m128n64_bda_v4", pick Kernel.m128n64_bda_v4)
    ∷ ("m64n128_bda_v4", pick Kernel.m64n128_bda_v4)
    ∷ ("bk16_bda_v4", pick Kernel.bk16_bda_v4)
    ∷ ("128x128bk16_bda_v4", pick Kernel.bk16_bda_v4)
    ∷ ("m128n64k64_bda_v4_tm8_tn8", pick Kernel.m128n64k64_bda_v4_tm8_tn8)
    ∷ ("m128n64k64_bda_v4_tm16_tn4", pick Kernel.m128n64k64_bda_v4_tm16_tn4)
    ∷ ("k64_bda_v4_tm8_tn4", pick Kernel.k64_bda_v4_tm8_tn4)
    ∷ ("k64_bda_v4_tm4_tn8", pick Kernel.k64_bda_v4_tm4_tn8)
    ∷ ("k64_bda_v4_tm8_tn8", pick Kernel.k64_bda_v4_tm8_tn8)
    ∷ ("large_bda_v4_aligned", pick Kernel.large_bda_v4_aligned)
    ∷ ("128x128_bda_v4_aligned", pick Kernel.large_bda_v4_aligned)
    ∷ ("m128n64k64_bda_v4_aligned", pick Kernel.m128n64k64_bda_v4_aligned)
    ∷ ("row_bda", pick Kernel.row_bda)
    ∷ ("row", pick Kernel.row_bda)
    ∷ ("gemv_bda", pick Kernel.row_bda)
    ∷ ("col_bda", pick Kernel.col_bda)
    ∷ ("col", pick Kernel.col_bda)
    ∷ ("gemv_col_bda", pick Kernel.col_bda)
    ∷ ("outer_bda", pick Kernel.outer_bda)
    ∷ ("outer", pick Kernel.outer_bda)
    ∷ ("k1", pick Kernel.outer_bda)
    ∷ ("f16w_large_bda_v4", pick Kernel.f16w_large_bda_v4)
    ∷ ("f16w_large", pick Kernel.f16w_large_bda_v4)
    ∷ ("f16w_small_bda_v4", pick Kernel.f16w_small_bda_v4)
    ∷ ("f16w_small", pick Kernel.f16w_small_bda_v4)
    ∷ ("f16w_k64_bda_v4", pick Kernel.f16w_k64_bda_v4)
    ∷ ("f16w_k64", pick Kernel.f16w_k64_bda_v4)
    ∷ ("f16w_m128n64k64_bda_v4", pick Kernel.f16w_m128n64k64_bda_v4)
    ∷ ("f16w_m128n64k64", pick Kernel.f16w_m128n64k64_bda_v4)
    ∷ ("f16w_row_bda", pick Kernel.f16w_row_bda)
    ∷ ("f16w_row", pick Kernel.f16w_row_bda)
    ∷ ("f16w_row_bda_k16", pick Kernel.f16w_row_bda_k16)
    ∷ ("f16w_row_k16", pick Kernel.f16w_row_bda_k16)
    ∷ ("f16w_row_bda_k16_v2", pick Kernel.f16w_row_bda_k16_v2)
    ∷ ("f16w_row_k16_v2", pick Kernel.f16w_row_bda_k16_v2)
    ∷ ("f16w_row_bda_k16_packed", pick Kernel.f16w_row_bda_k16_packed)
    ∷ ("f16w_row_k16_packed", pick Kernel.f16w_row_bda_k16_packed)
    ∷ ("f16w_row_bda_k16_v2_packed", pick Kernel.f16w_row_bda_k16_v2_packed)
    ∷ ("f16w_row_k16_v2_packed", pick Kernel.f16w_row_bda_k16_v2_packed)
    ∷ ("f16w_coopmat_aligned", pick Kernel.f16w_coopmat)
    ∷ ("f16w_coopmat", pick Kernel.f16w_coopmat)
    ∷ ("coopmat", pick Kernel.f16w_coopmat)
    ∷ ("f16w_a16_coopmat_aligned", pick Kernel.f16w_a16_coopmat)
    ∷ ("f16w_a16_coopmat", pick Kernel.f16w_a16_coopmat)
    ∷ ("a16_coopmat", pick Kernel.f16w_a16_coopmat)
    ∷ ("f16w_coopmat_m64n64", pick Kernel.f16w_coopmat_m64)
    ∷ ("coopmat_m64", pick Kernel.f16w_coopmat_m64)
    ∷ ("f16w_a16_coopmat_m64n64", pick Kernel.f16w_a16_coopmat_m64)
    ∷ ("a16_coopmat_m64", pick Kernel.f16w_a16_coopmat_m64)
    ∷ ("f16w_coopmat_m64n128", pick Kernel.f16w_coopmat_m64n128)
    ∷ ("coopmat_m64n128", pick Kernel.f16w_coopmat_m64n128)
    ∷ ("f16w_a16_coopmat_m64n128", pick Kernel.f16w_a16_coopmat_m64n128)
    ∷ ("a16_coopmat_m64n128", pick Kernel.f16w_a16_coopmat_m64n128)
    ∷ ("f16w_coopmat_m128n64", pick Kernel.f16w_coopmat_m128n64)
    ∷ ("coopmat_m128n64", pick Kernel.f16w_coopmat_m128n64)
    ∷ ("f16w_a16_coopmat_m128n64", pick Kernel.f16w_a16_coopmat_m128n64)
    ∷ ("a16_coopmat_m128n64", pick Kernel.f16w_a16_coopmat_m128n64)
    ∷ ("f16w_cm2", pick Kernel.f16w_cm2)
    ∷ ("cm2", pick Kernel.f16w_cm2)
    ∷ ("cm2_gemm", pick Kernel.f16w_cm2)
    ∷ []
