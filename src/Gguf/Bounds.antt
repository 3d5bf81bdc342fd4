-- ===== src/Gguf/Bounds.antt =====
-- tools/llama-ash/src/gguf.rs: how much of a file a tensor read takes.
use tensor_ash.Prelude.{ℕ, ◌*◌, List, [], ◌∷◌}

-- The product of the dimensions.
unfoldable pub product : List ℕ → ℕ
product [] = 1
product (n ∷ ns) = n * product ns
