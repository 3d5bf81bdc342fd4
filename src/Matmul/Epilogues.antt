-- ===== src/Matmul/Epilogues.antt =====
-- src/matmul/api.rs: the fused epilogue of a matmul.
use tensor_ash.Prelude.{Bool, true, false, ◌&&◌, Option, none, some, ℕ, is_none}
use tensor_ash.Tensor.{Tensor}

pub data Activation : Type 0 where
  identity relu silu gelu : Activation

pub data EpilogueBinary : Type 0 where
  no_binary : EpilogueBinary
  add_scaled : (d : Tensor) (beta : ℕ) → EpilogueBinary
  mul : (d : Tensor) → EpilogueBinary

pub record Epilogue : Type 0 where
  pub bias : Option Tensor
  pub activation : Activation
  pub binary : EpilogueBinary

abbrev is_identity : Activation → Bool
is_identity identity = true
is_identity _ = false

abbrev is_no_binary : EpilogueBinary → Bool
is_no_binary no_binary = true
is_no_binary _ = false

-- `Epilogue::NONE`.
abbrev pub plain : Epilogue
plain = record { bias = none; activation = identity; binary = no_binary }

-- `Epilogue::is_none`.
unfoldable pub has_none : Epilogue → Bool
has_none e = is_none e.bias && is_identity e.activation && is_no_binary e.binary

-- `Epilogue::d_tensor`.
abbrev pub d_of : EpilogueBinary → Option Tensor
d_of no_binary = none
d_of (add_scaled d beta) = some d
d_of (mul d) = some d
