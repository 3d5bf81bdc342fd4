-- ===== src/Tensor.antt =====
-- src/dtype.rs and src/tensor.rs: storage types, and a tensor as its shape, its storage type and
-- the device buffer that it shares. A buffer is known by its Vulkan handle, its device address
-- and its size; the memory behind it belongs to the device and is not modelled.
pub mod F16
pub mod Numel
use package.tensor_ash.Prelude.{
  ℕ, ◌*◌, ◌≡◌, Bool, true, false, Option, some, none, List, [], ◌∷◌, Result, ok, err, ◌>>=◌, ◌>>◌,
  bail_if, ok_or, not, checked_mul, checked_next_multiple_of, ◌==◌, if◌then◌else◌,
}

pub data DType : Type 0 where
  f32 f16 : DType

-- `DType::size`, bytes per element.
unfoldable pub size : DType → ℕ
size f32 = 4
size f16 = 2

-- `self == DType::F16`.
abbrev pub is_f16 : DType → Bool
is_f16 f32 = false
is_f16 f16 = true

-- `context` tells which `VulkanContext` allocated the buffer, by a number for the shared pointer.
pub record Buffer : Type 0 where
  pub context : ℕ
  pub handle : ℕ
  pub size_bytes : ℕ
  pub device_address : ℕ

pub record Tensor : Type 0 where
  pub shape : List ℕ
  pub dtype : DType
  pub buffer : Buffer

-- `Tensor::raw_buffer`, the handle by which hazards are tracked.
abbrev pub raw_buffer : Tensor → ℕ
raw_buffer t = t.buffer.handle

pub data TensorError : Type 0 where
  empty_shape zero_dimension numel_overflow bytes_overflow no_f16_storage alias_mismatch :
      TensorError

-- `Tensor::numel`, the product of the dimensions.
unfoldable pub numel : List ℕ → ℕ
numel [] = 1
numel (d ∷ ds) = d * numel ds

-- `Tensor::len` and `Tensor::device_address`.
abbrev pub len : Tensor → ℕ
len t = numel t.shape

abbrev pub device_address : Tensor → ℕ
device_address t = t.buffer.device_address

-- The fold of `Tensor::numel_checked` over the dimensions that are left.
unfoldable pub numel_from : ℕ → List ℕ → Result TensorError ℕ
numel_from acc [] = ok acc
numel_from acc (d ∷ ds) = do
  bail_if (d == 0) zero_dimension
  next ← ok_or (checked_mul acc d) numel_overflow
  numel_from next ds

unfoldable pub numel_checked : List ℕ → Result TensorError ℕ
numel_checked [] = err empty_shape
numel_checked (d ∷ ds) = numel_from 1 (d ∷ ds)

-- The size that `Tensor::uninit_device_with` asks of the allocator: the bytes of the elements,
-- rounded up to 16.
unfoldable pub alloc_bytes : List ℕ → DType → Result TensorError ℕ
alloc_bytes shape dtype = do
  n ← numel_checked shape
  bytes ← ok_or (checked_mul n (size dtype)) bytes_overflow
  ok_or (checked_next_multiple_of bytes 16) bytes_overflow

-- `Tensor::alias_with_shape`: the same buffer under another shape.
unfoldable pub alias_with_shape : Tensor → List ℕ → Result TensorError Tensor
alias_with_shape t shape = do
  n ← numel_checked shape
  bail_if (not (n == numel t.shape)) alias_mismatch
  ok (record t { shape = shape })
