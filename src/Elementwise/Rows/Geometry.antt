-- ===== src/Elementwise/Rows/Geometry.antt =====
-- src/executor/elementwise/ops.rs: rows and columns of an accepted row operation.
use tensor_ash.Prelude.{ℕ, ◌+◌, ◌%◌, ◌<◌, min, u32_mod, if◌then◌else◌, ◌==◌}
use tensor_ash.Tensor.{Tensor}
use tensor_ash.Elementwise.{SoftmaxMask, full, prefix, causal}
use tensor_ash.Elementwise.Pc.{SoftmaxPc}

-- The columns that a row sees, as the three modes of the mask describe them.
unfoldable pub visible : SoftmaxMask → ℕ → ℕ → ℕ
visible full cols row = cols
visible (prefix valid) cols row = min valid cols
visible (causal cached rows_per_group) cols row = min (cached + row % rows_per_group + 1) cols

-- The columns that the shader lets a row see, from the fields of a block and in u32, where the sum
-- wraps around.
unfoldable pub seen_from : ℕ → ℕ → ℕ → ℕ → ℕ → ℕ
seen_from causal_flag base group cols row =
    if causal_flag == 0 then min cols base else min cols ((base + row % group + 1) % u32_mod)

abbrev pub seen : SoftmaxPc → ℕ → ℕ
seen pc row = seen_from pc.causal pc.valid_base pc.rows_per_group pc.cols row

-- A causal mask whose last row sees fewer than 2^32 columns.
unfoldable pub NoWrap : SoftmaxMask → Type 0
NoWrap (causal cached rows_per_group) = cached + rows_per_group < u32_mod
NoWrap _ = Unit {0}
