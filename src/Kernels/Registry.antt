-- ===== src/Kernels/Registry.antt =====
-- src/pipeline/catalog.rs: the registry agrees with the selections that index it.
use tensor_ash.Prelude.{◌≡◌, refl, some, get_elem?}
use tensor_ash.Kernels.{Kernel, large, index, spec, kernel_specs}

-- The registry row at a kernel's index is that kernel's own row.
pub kernel_specs-index : (k : Kernel) → get_elem? kernel_specs (index k) ≡ some (spec k)
unfolding index
kernel_specs-index large = refl
kernel_specs-index _ = refl
