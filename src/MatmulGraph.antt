-- ===== src/MatmulGraph.antt =====
-- src/executor/recording/graph.rs: the barriers of a chain that holds only matmuls, some of them
-- routed to split-K. A recorded dispatch is its index in the chain; what it computes is left to the
-- device.
pub mod Operands
pub mod Agreement
pub mod Stores
use package.tensor_ash.Prelude.{
  ℕ, zero, suc, ◌+◌, Bool, true, false, ◌&&◌, ◌||◌, List, [], ◌∷◌, ◌++◌, Option, some, none,
  contains, if◌then◌else◌,
}
use package.tensor_ash.Tensor.{Tensor, raw_buffer}
use package.tensor_ash.Matmul.{MatmulOp}
use package.tensor_ash.Matmul.Epilogues.{d_of}
use package.tensor_ash.ExecGraph.{norm_weight}

-- The handles that the loop of `record_matmul_graph_commands` keeps.
pub record Tracked : Type 0 where
  pub written : List ℕ
  pub read : List ℕ

abbrev pub untracked : Tracked
untracked = record { written = []; read = [] }

-- `operand.is_some_and(|buf| written.contains(&buf))`.
abbrev pub optional_in : List ℕ → Option Tensor → Bool
optional_in written none = false
optional_in written (some t) = contains written (raw_buffer t)

-- `read.extend(operand)`.
abbrev pub extend_optional : List ℕ → Option Tensor → List ℕ
extend_optional xs none = xs
extend_optional xs (some t) = xs ++ raw_buffer t ∷ []

-- The tests before a matmul that is not routed to split-K.
unfoldable pub needs_barrier : Tracked → MatmulOp → Bool
needs_barrier s op =
    let a = raw_buffer op.call.a in
    let b = raw_buffer op.call.b in
    let c = raw_buffer op.call.c in
    let reads_written =
      contains s.written a
      || contains s.written b
      || (op.call.accumulate && contains s.written c)
      || optional_in s.written op.epilogue.bias
      || optional_in s.written (d_of op.epilogue.binary)
      || optional_in s.written (norm_weight op) in
    let write_hazard = contains s.written c || contains s.read c in reads_written || write_hazard

-- The pushes after such a matmul.
abbrev pub track : Tracked → MatmulOp → Tracked
track s op =
    let operands = s.read ++ raw_buffer op.call.a ∷ raw_buffer op.call.b ∷ [] in
    let biased = extend_optional operands op.epilogue.bias in
    let combined = extend_optional biased (d_of op.epilogue.binary) in
    record {
      written = s.written ++ raw_buffer op.call.c ∷ [];
      read = extend_optional combined (norm_weight op);
    }

-- The commands that the recorder emits.
pub data GraphCommand : Type 0 where
  barrier : GraphCommand
  dispatch : (index : ℕ) → GraphCommand
  stage1 : (index : ℕ) → GraphCommand
  reduce : (index : ℕ) → GraphCommand

-- The test before a matmul that is routed to split-K.
abbrev pub split_needs_barrier : Tracked → MatmulOp → Bool
split_needs_barrier s op =
    contains s.written (raw_buffer op.call.a) || contains s.written (raw_buffer op.call.b)

abbrev pub track_split : MatmulOp → Tracked
track_split op = record {
  written = raw_buffer op.call.c ∷ [];
  read = raw_buffer op.call.a ∷ raw_buffer op.call.b ∷ [];
}

-- The loop of `record_matmul_graph_commands`, each operation with its split-K route, if it has one.
unfoldable pub record_graph_from : Tracked → ℕ → List (MatmulOp × Bool) → List GraphCommand
record_graph_from s index [] = []
record_graph_from s index ((op, true) ∷ ops) =
    let tail = record_graph_from (track_split op) (suc index) ops in
    let body = stage1 index ∷ barrier ∷ reduce index ∷ tail in
    if split_needs_barrier s op then barrier ∷ body else body
record_graph_from s index ((op, false) ∷ ops) =
    let needed = needs_barrier s op in
    let tail = record_graph_from (track (if needed then untracked else s) op) (suc index) ops in
    if needed then barrier ∷ dispatch index ∷ tail else dispatch index ∷ tail

abbrev pub record_graph : List (MatmulOp × Bool) → List GraphCommand
record_graph = record_graph_from untracked 0
