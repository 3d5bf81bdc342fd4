-- ===== src/Executor/Validation.antt =====
-- src/executor/validation.rs: the ownership checks before raw handles are used. A context is the
-- number of its shared pointer.
use tensor_ash.Prelude.{ℕ, ◌||◌, not, Option, none, some, Result, ok, ◌>>◌, bail_if, ◌==◌}
use tensor_ash.Tensor.{Tensor, raw_buffer}
use tensor_ash.Matmul.{MatmulCall, MatmulOp}
use tensor_ash.Matmul.Epilogues.{d_of}
use tensor_ash.Matmul.Stores
use tensor_ash.ExecGraph.{norm_weight}

pub data ContextError : Type 0 where
  foreign_tensor aliased_output aliased_destination : ContextError

unfoldable pub validate_tensor_context : ℕ → Tensor → Result ContextError (Unit {0})
validate_tensor_context ctx t = bail_if (not (t.buffer.context == ctx)) foreign_tensor

-- `if let Some(t) = o { self.validate_tensor_context(t, ..)?; }`.
unfoldable pub validate_optional : ℕ → Option Tensor → Result ContextError (Unit {0})
validate_optional ctx none = ok tt
validate_optional ctx (some t) = validate_tensor_context ctx t

unfoldable pub validate_call_context : ℕ → MatmulCall → Result ContextError (Unit {0})
validate_call_context ctx call = do
  validate_tensor_context ctx call.a
  validate_tensor_context ctx call.b
  validate_tensor_context ctx call.c
  bail_if (raw_buffer call.c == raw_buffer call.a || raw_buffer call.c == raw_buffer call.b)
      aliased_output

-- The alias test of the store's destination.
unfoldable pub validate_destination : MatmulCall → Option Tensor → Result ContextError (Unit {0})
validate_destination call none = ok tt
validate_destination call (some d) =
    bail_if (raw_buffer d == raw_buffer call.a || raw_buffer d == raw_buffer call.b)
      aliased_destination

unfoldable pub validate_op_context : ℕ → MatmulOp → Result ContextError (Unit {0})
validate_op_context ctx op = do
  validate_call_context ctx op.call
  validate_optional ctx op.epilogue.bias
  validate_optional ctx (d_of op.epilogue.binary)
  validate_optional ctx (norm_weight op)
  validate_optional ctx (Stores.table op.store)
  validate_optional ctx (Stores.dst op.store)
  validate_destination op.call (Stores.dst op.store)
