-- ===== src/Tests.antt =====
-- Runs of the model at concrete inputs, on shapes and chains like those of the repository's tests.
mod Graphs
mod Shapes
mod Packed
mod Packing
mod Ops
mod Plans
mod Routes
mod Planned
mod Halves
mod Replays
mod Tuned
mod Models
mod Submissions
mod Staged
mod Llamas
use package.tensor_ash.Prelude.{ℕ, ◌*◌, List, [], ◌∷◌, Bool, true, false}
use package.tensor_ash.Matmul.Resolution.{ResolvedMatmul}
use package.tensor_ash.Tensor.{Tensor, DType, f32, f16}
use package.tensor_ash.Matmul.{MatmulCall, MatmulOp, new}

abbrev pub tensor : List ℕ → DType → ℕ → Tensor
tensor shape dtype handle = record {
  shape = shape;
  dtype = dtype;
  buffer = record {
    context = 1;
    handle = handle;
    size_bytes = 4096;
    device_address = handle * 4096;
  };
}

-- A one-row product with f16 weights, on the buffers 1, 2 and 3.
abbrev pub row_call : MatmulCall
row_call = record {
  a = tensor (1 ∷ 32 ∷ []) f32 1;
  b = tensor (32 ∷ 64 ∷ []) f16 2;
  c = tensor (1 ∷ 64 ∷ []) f32 3;
  alpha = 1065353216;
  accumulate = false;
}

-- A product of f16 activations and weights, on the buffers 1, 2 and 3.
abbrev pub half_call : MatmulCall
half_call = record {
  a = tensor (64 ∷ 32 ∷ []) f16 1;
  b = tensor (32 ∷ 64 ∷ []) f16 2;
  c = tensor (64 ∷ 64 ∷ []) f16 3;
  alpha = 1065353216;
  accumulate = false;
}

-- The dimensions of `row_call`.
abbrev pub row_dims : Bool → ResolvedMatmul
row_dims packed = record {
  m = 1;
  n = 64;
  k = 32;
  batch = 1;
  batch_stride_a = 0;
  batch_stride_b = 0;
  batch_stride_c = 0;
  total_flops = 4096;
  b_f16 = true;
  a_f16 = false;
  packed_b = packed;
}

abbrev pub packed_op : MatmulOp
packed_op = record (new row_call) { packed_b = true }
