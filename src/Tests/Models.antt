-- ===== src/Tests/Models.antt =====
-- tools/llama-ash/src/gguf.rs at a file with one f16 tensor of two elements.
use tensor_ash.Prelude.{ℕ, ◌≡◌, refl, List, [], ◌∷◌, Bool, true, ok, div_ceil}
use tensor_ash.Gguf.{
  TensorInfo, GgufFile, open_gguf, read_header, read_metadata, read_tensors, read_info, read_dims,
  read_string, read_number, read_exact, little_endian, alignment, power_below, lookup,
}

abbrev file : List ℕ
file =
    71 ∷ 71 ∷ 85 ∷ 70 ∷ 3 ∷ 0 ∷ 0 ∷ 0 ∷ 1 ∷ 0 ∷ 0 ∷ 0 ∷ 0 ∷ 0 ∷ 0 ∷ 0 ∷ 0 ∷ 0 ∷ 0 ∷ 0 ∷ 0 ∷ 0 ∷ 0
    ∷ 0 ∷ 1 ∷ 0 ∷ 0 ∷ 0 ∷ 0 ∷ 0 ∷ 0 ∷ 0 ∷ 119 ∷ 1 ∷ 0 ∷ 0 ∷ 0 ∷ 2 ∷ 0 ∷ 0 ∷ 0 ∷ 0 ∷ 0 ∷ 0 ∷ 0 ∷ 1
    ∷ 0 ∷ 0 ∷ 0 ∷ 0 ∷ 0 ∷ 0 ∷ 0 ∷ 0 ∷ 0 ∷ 0 ∷ 0 ∷ 0 ∷ 0 ∷ 0 ∷ 0 ∷ 0 ∷ 0 ∷ 0 ∷ 0 ∷ 60 ∷ 0 ∷ 192 ∷ []

abbrev any_bytes : List ℕ → Bool
any_bytes bytes = true

abbrev info : TensorInfo
info = record { name = 119 ∷ []; ne = 2 ∷ []; ggml_type = 1; offset = 0 }

abbrev opened : GgufFile
opened = record { metadata = []; tensors = (119 ∷ [], info) ∷ []; data_start = 64 }

opens : open_gguf any_bytes file ≡ ok opened
unfolding open_gguf read_header read_metadata read_tensors read_info read_dims read_string
    read_number read_exact little_endian alignment power_below lookup div_ceil
opens = refl

-- 1.0 and -2.0.
abbrev elements : List ℕ
elements = 0x3f80_0000 ∷ 0xc000_0000 ∷ []
