-- ===== src/Tests/Routes.antt =====
-- src/pipeline/: routes at concrete shapes.
use tensor_ash.Prelude.{
  ends_with, contains_text, refl, ◌∷◌, ◌+◌, ◌%◌, ◌≡◌, ◌<◌, ◌⊎◌, [], Bool, true, false, some, none,
  ok, err,
}
use tensor_ash.Pipeline.Variants.{
  Compiler, KernelVariant, EpilogueKey, pipeline_for_epilogue, create_epilogue_pipeline, spec_count,
  cached, spec_data, key_is_none, same_variant, fallback,
}
use tensor_ash.Pipeline.Specialized.{Served, Filled, pipeline_for_epilogue-Served}
use tensor_ash.Kernels.{Kernel, spec, auto, supports_epilogue, supports_store, weights_f16}
use tensor_ash.Routing.{coopmat_selection, discrete_gpu}
use tensor_ash.Routing.Tiles.{coopmat_selection-divides, IsCoopmat}
use tensor_ash.Pipeline.{MatmulPipeline, gated_off, in_budget_index, heuristic_kernel_index}
use tensor_ash.Pipeline.Budget.{traits, last_resort, in_budget_index-lands}
use tensor_ash.Pipeline.Storage.{wanted, heuristic_kernel_index-traits}

-- A discrete GPU with tensor cores, on which every kernel but one was built.
abbrev without_tall : Kernel → Bool
without_tall Kernel.m128n64k64 = false
without_tall _ = true

abbrev pipeline : MatmulPipeline
pipeline = record {
  device = record {
    bda = true;
    coopmat = true;
    f16_storage = true;
    kind = discrete_gpu;
    max_x = 65535;
    max_y = 65535;
    max_z = 65535;
  };
  present = without_tall;
  selection = auto;
  auto_min_large_tiles = 256;
  tuned = [];
}

coopmat_selection-divides_example :
    ((coopmat_selection 1 512 4096 false ≡ none) × ((0 < 512 % 64) ⊎ (0 < 4096 % 64)))
    ⊎ ((k : Kernel) × (coopmat_selection 1 512 4096 false ≡ some k)
        × (512 % (spec k).tile_m ≡ 0)
        × (4096 % (spec k).tile_n ≡ 0)
        × IsCoopmat (spec k) false)
coopmat_selection-divides_example = coopmat_selection-divides 1 512 4096 false

in_budget_index-lands_example :
    ((in_budget_index pipeline Kernel.m128n64k64 ≡ err gated_off)
      × (pipeline.present (last_resort Kernel.m128n64k64) ≡ false))
    ⊎ ((k' : Kernel) × (in_budget_index pipeline Kernel.m128n64k64 ≡ ok k')
        × (pipeline.present k' ≡ true)
        × (traits k' ≡ traits Kernel.m128n64k64))
in_budget_index-lands_example = in_budget_index-lands pipeline Kernel.m128n64k64

heuristic_kernel_index-traits_example :
    (heuristic_kernel_index pipeline 1 1 2048 2048 true ≡ err gated_off)
    ⊎ ((t : Kernel) × (heuristic_kernel_index pipeline 1 1 2048 2048 true ≡ ok t)
        × (traits t ≡ wanted pipeline true))
heuristic_kernel_index-traits_example = heuristic_kernel_index-traits pipeline 1 1 2048 2048 true

-- A driver whose handles tell whether C is added to.
abbrev driver : Compiler
driver s [] = none
driver s (c ∷ constants) = some (c + 1)

abbrev aligned : KernelVariant
aligned = record {
  accumulate = true;
  alpha_is_one = true;
  interior_only = true;
  k_multiple = false;
}

abbrev activated : EpilogueKey
activated = record { bias = false; activation = 2; binary = 0; store_mode = 0; store_f16 = false }

pipeline_for_epilogue-Served_example :
    Served driver Kernel.large_bda_v4 aligned activated 2
    × Filled driver (pipeline_for_epilogue driver (spec Kernel.large_bda_v4) aligned activated []).1
unfolding pipeline_for_epilogue create_epilogue_pipeline spec_count supports_epilogue supports_store
    weights_f16 cached spec_data key_is_none same_variant fallback ends_with contains_text
pipeline_for_epilogue-Served_example =
    pipeline_for_epilogue-Served driver Kernel.large_bda_v4 aligned activated [] 2 tt refl
