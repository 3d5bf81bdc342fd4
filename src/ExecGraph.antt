-- ===== src/ExecGraph.antt =====
-- src/executor/graph_ops.rs: a chain of mixed operations, the dispatches that it plans as, and the
-- walk that records them with their barriers. How a single elementwise dispatch is planned (its
-- kernel, its push constants, its grid) is left out: a step is known by the buffers it touches.
pub mod Recorded
pub mod Ordered
use package.tensor_ash.Prelude.{
  ℕ, zero, suc, ◌+◌, Bool, true, false, ◌&&◌, ◌||◌, not, List, [], ◌∷◌, ◌++◌, Option, some, none,
  Result, ok, err, ◌>>=◌, ◌>>◌, bail_if, length, if◌then◌else◌, ltb, leb, ◌==◌, take,
}
use package.tensor_ash.Tensor.{Tensor, Buffer, raw_buffer}
use package.tensor_ash.Matmul.{MatmulOp}
use package.tensor_ash.Matmul.Epilogues.{d_of}
use package.tensor_ash.Matmul.Stores.{desc, dst, table}
use package.tensor_ash.Elementwise.{
  SoftmaxMask, RopeDesc, RopeScatterDesc, FlashAttentionDesc, PrefillQkvPackDesc, AttnDecodeDesc,
  BinaryOp, CopyDesc,
}
use package.tensor_ash.Hazard.{
  Access, HazardCursor, nothing, reading, writing, barrier_before, fresh,
}

-- `ExecOp`. A cell (`HostU32Buffer`, `TokenIdBuffer`) is its buffer.
pub data ExecOp : Type 0 where
  matmul : (op : MatmulOp) → ExecOp
  rms_norm : (input weight output : Tensor) (eps : ℕ) → ExecOp
  layer_norm : (input weight bias output : Tensor) (eps : ℕ) → ExecOp
  softmax_rows : (input output : Tensor) (scale : ℕ) (mask : SoftmaxMask) → ExecOp
  rope : (input table output : Tensor) (desc : RopeDesc) → ExecOp
  rope_scatter : (input table dst : Tensor) (desc : RopeDesc) (scatter : RopeScatterDesc) → ExecOp
  copy_strided : (src dst : Tensor) (desc : CopyDesc) → ExecOp
  binary : (a b out : Tensor) (op : BinaryOp) → ExecOp
  attn_decode : (q kt v scratch out : Tensor) (desc : AttnDecodeDesc) → ExecOp
  flash_attn : (q kt v out : Tensor) (desc : FlashAttentionDesc) → ExecOp
  prefill_qkv_pack : (qkv table q kt v : Tensor) (desc : PrefillQkvPackDesc) → ExecOp
  argmax : (input : Tensor) (result : Buffer) → ExecOp
  embed_gather : (token : Buffer) (table out : Tensor) → ExecOp
  embed_gather_rows : (tokens : Buffer) (table out : Tensor) → ExecOp
  gemv_chain : (jobs : List MatmulOp) (n : ℕ) → ExecOp

abbrev pub reads : Tensor → Access → Access
reads t = reading (raw_buffer t)

abbrev pub writes : Tensor → Access → Access
writes t = writing (raw_buffer t)

-- `if let Some(t) = ... { access = access.read(t) }`.
abbrev pub reads_optional : Option Tensor → Access → Access
reads_optional none a = a
reads_optional (some t) a = reads t a

abbrev pub norm_weight : MatmulOp → Option Tensor
norm_weight op = elim op.normed_a [ none ↦ none | some (weight, eps) ↦ some weight ]

-- The store into the cache replaces the store into C.
abbrev pub writes_result : MatmulOp → Access → Access
writes_result op a = elim (dst op.store) [ some t ↦ writes t a | none ↦ writes op.call.c a ]

-- The accesses of a matmul step.
unfoldable pub matmul_access : MatmulOp → Access
matmul_access op =
    let base = writes_result op (reads op.call.b (reads op.call.a nothing)) in
    let tabled = reads_optional (table op.store) base in
    let accumulated = if op.call.accumulate then reads op.call.c tabled else tabled in
    let biased = reads_optional op.epilogue.bias accumulated in
    reads_optional (norm_weight op) (reads_optional (d_of op.epilogue.binary) biased)

-- The accesses of a GEMV chain, folded over its jobs.
unfoldable pub chain_access : Access → List MatmulOp → Access
chain_access a [] = a
chain_access a (op ∷ jobs) =
    let base = writes op.call.c (reads op.call.b (reads op.call.a a)) in
    chain_access (reads_optional (norm_weight op) (reads_optional (d_of op.epilogue.binary) base))
      jobs

-- The accesses that `plan_exec_ops` pushes for one operation that plans, one for each dispatch. (A
-- GEMV chain plans only with one to eight jobs.)
unfoldable pub op_accesses : ExecOp → List Access
op_accesses (matmul op) = matmul_access op ∷ []
op_accesses (rms_norm input weight output e) =
    writes output (reads weight (reads input nothing)) ∷ []
op_accesses (layer_norm input weight bias output e) =
    writes output (reads bias (reads weight (reads input nothing))) ∷ []
op_accesses (softmax_rows input output s m) = writes output (reads input nothing) ∷ []
op_accesses (rope input t output d) = writes output (reads t (reads input nothing)) ∷ []
op_accesses (rope_scatter input t to d s) = writes to (reads t (reads input nothing)) ∷ []
op_accesses (copy_strided src to d) = writes to (reads src nothing) ∷ []
op_accesses (binary a b out o) = writes out (reads b (reads a nothing)) ∷ []
op_accesses (attn_decode q kt v scratch out d) =
    writes scratch (reads v (reads kt (reads q nothing))) ∷ writes out (reads scratch nothing) ∷ []
op_accesses (flash_attn q kt v out d) = writes out (reads v (reads kt (reads q nothing))) ∷ []
op_accesses (prefill_qkv_pack qkv t q kt v d) =
    writes v (writes kt (writes q (reads t (reads qkv nothing)))) ∷ []
op_accesses (argmax input result) = writing result.handle (reads input nothing) ∷ []
op_accesses (embed_gather token t out) = writes out (reads t (reading token.handle nothing)) ∷ []
op_accesses (embed_gather_rows tokens t out) =
    writes out (reads t (reading tokens.handle nothing)) ∷ []
op_accesses (gemv_chain jobs n) = chain_access nothing (take n jobs) ∷ []

-- The access list that `plan_exec_ops` returns beside its planned steps.
unfoldable pub accesses : List ExecOp → List Access
accesses [] = []
accesses (op ∷ ops) = op_accesses op ++ accesses ops

-- A recorded command: a compute barrier, or the dispatch of the step at an index.
pub data Command : Type 0 where
  barrier : Command
  dispatch : (index : ℕ) → Command

-- The loop of `record_exec_ops`.
unfoldable pub record_from : HazardCursor → ℕ → List Access → List Command
record_from c index [] = []
record_from c index (a ∷ rest) =
    let (c', needed) = barrier_before c index a in
    let tail = record_from c' (suc index) rest in
    if needed then barrier ∷ dispatch index ∷ tail else dispatch index ∷ tail

abbrev pub record_exec_ops : List Access → List Command
record_exec_ops = record_from fresh 0

-- The loop of `exec_ops_barrier_count`.
unfoldable pub census_from : HazardCursor → ℕ → List Access → ℕ
census_from c index [] = 0
census_from c index (a ∷ rest) =
    let (c', needed) = barrier_before c index a in
    let count = census_from c' (suc index) rest in if needed then suc count else count

-- `exec_ops_barrier_count`: dispatches and barriers.
abbrev pub exec_ops_barrier_count : List ExecOp → ℕ × ℕ
exec_ops_barrier_count ops = (length (accesses ops), census_from fresh 0 (accesses ops))

-- The position address that an operation reads at run time, 0 for none.
unfoldable pub pos_addr_of : ExecOp → ℕ
pos_addr_of (rope i t o d) = d.pos_addr
pos_addr_of (rope_scatter i t o d s) = d.pos_addr
pos_addr_of (copy_strided s t d) = d.pos_addr
pos_addr_of (attn_decode q kt v s o d) = d.pos_addr
pos_addr_of (matmul op) = (desc op.store).pos_addr
pos_addr_of _ = 0

-- The loop of `prepare_exec_ops` over the operations, against the prepared position buffer.
unfoldable pub check_positions : ℕ → List ExecOp → Bool
check_positions prepared [] = true
check_positions prepared (op ∷ ops) =
    let used = pos_addr_of op in
    let rest = check_positions prepared ops in
    if not (used == 0) && not (used == prepared) then false else rest
