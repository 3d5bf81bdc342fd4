-- ===== src/Lib.antt =====
-- tensor-ash: batched matrix products and transformer operations on Vulkan, checked where its host
-- code decides something. The library turns calls into dispatches: it validates shapes and storage
-- types, picks a kernel for every shape, and records dispatches into command buffers with the
-- barriers that keep dependent work apart. What a shader computes belongs to the device.
--
-- The files and the code that they model (paths from the repository's root):
--   Tensor: src/tensor.rs and src/dtype.rs (DType::size, Tensor::numel_checked, uninit_device_with,
--     alias_with_shape). A buffer is its context, handle, size and address.
--   Tensor/F16: src/dtype.rs (f32_to_f16_bits, f16_bits_to_f32).
--   Matmul, Matmul/Epilogues, Matmul/Stores, Matmul/Pack: src/matmul/api.rs (MatmulCall, MatmulOp,
--     Epilogue, MatmulStore, pack_f16w_row_tiles).
--   Matmul/Resolution, Matmul/Resolution/Op: src/matmul/resolution.rs (MatrixShape::batch_stride,
--     ResolvedMatmul::from_matrix_shapes, from_call, from_op, the validate functions, total_flops).
--     `from_op` hands a ResolvedMatmul to the planner and the recorder.
--   Kernels: src/pipeline/catalog.rs and src/pipeline/runtime.rs (the kernel registry, and what a
--     kernel's name says of its operands). A kernel index is the kernel itself.
--   Routing: src/pipeline/selection.rs and src/pipeline/routing.rs (tile classes, promotions).
--   Pipeline: src/pipeline/mod.rs (heuristic_kernel_index, in_budget_index, route,
--     epilogue_fallback_index, tune_candidate_indices). Which slots are filled is the field
--     `present`, a function; a slot's panic is an error value. Variants is src/pipeline/abi.rs, the
--     constants of src/pipeline/create.rs and pipeline_for_epilogue, over a driver that compiles.
--   SplitK2: src/executor/splitk2.rs and the scratch loop of src/executor/dispatch.rs
--     (heuristic_splits, auto_route_fits, SplitK2Dispatch::plan, checked_auto_scratch_end).
--   Executor: src/executor/mod.rs (plan_shape, plan_matmul, demote_for_op) and
--     src/executor/recording.rs (ensure_kernel_alignment, the checks of record_one_matmul), with
--     Validation (src/executor/validation.rs).
--   Submission: src/executor/dispatch.rs and src/executor/reduction.rs (run_ops_impl, run_calls_impl,
--     record_and_run, run_matmuls_split_k2), which puts Executor, SplitK2, MatmulGraph and Tuning
--     together. The tuning store is the state that a call leaves; the two entry points call each
--     other, which an error value cuts off.
--   Transfers: src/executor/transfer.rs, src/executor/slot.rs (ensure_slot_buffer),
--     src/executor/cells.rs and the host copies of src/buffer.rs. Memory is bytes by handle; the
--     allocation of buffers is a parameter with what is relied on of it.
--   Hazard: src/executor/graph_ops.rs (Access, HazardCursor).
--   Elementwise: src/executor/elementwise/mod.rs (the geometry records), with Plan (the shared checks
--     and plan_elementwise), Pc (src/executor/elementwise/pc.rs, every block that is pushed), Rows and Strided (the planners of
--     src/executor/elementwise/ops.rs), Attention (attn.rs), Flash and Prefill (flash.rs).
--   Prepared: src/executor/prepared.rs and src/executor/submission.rs (PreparedOps::submit, wait,
--     run, run_silent, Drop, wait_fence_spin). The device is a record of its calls, and what Vulkan
--     documents of a fence is a record of hypotheses.
--   Tuning: src/executor/tuning.rs (candidate_at, median, tune_op, tune_splitk2). Measured times and
--     the floating-point margin are parameters.
--   ExecGraph: src/executor/graph_ops.rs (ExecOp, the access sets of plan_exec_ops,
--     record_exec_ops, exec_ops_barrier_count, the position check of prepare_exec_ops).
--   GemvChain: src/executor/elementwise/gemv_chain.rs (gemv_jobs_hazard, the flags of
--     plan_gemv_chain).
--   MatmulGraph: src/executor/recording/graph.rs (record_matmul_graph_commands).
--   Gguf: tools/llama-ash/src/gguf.rs (GgufFile::open and read_f32). A file is the list of its bytes;
--     whether bytes are UTF-8 is a parameter.
--   Llama: tools/llama-ash/src/model (the chains that decode_ops, prefill_ops and their helpers build
--     in Graph and PrefillGraph; decode, decode_many, decode_unrolled and decode_perop in Steps, PerOp
--     and Decode, over a device that is a record of the calls on the executor). The f32 scale of
--     the attention is a field of the model. The operations of the graphs are those of ExecGraph.
--   Prelude: numbers, lists and results that the others share. Tests: runs at concrete inputs.
--
-- Machine integers are natural numbers. Checked and saturating operations are written out, and a
-- plain u64 sum that can exceed its width wraps as in a release build. An f32 scalar is its bit
-- pattern. The loop of in_budget_index runs on fuel 3, which is enough: the longest chain of
-- siblings has three kernels, and no run of the walk ends for want of fuel.
--
-- Not modelled: Vulkan calls (instance, device, memory, pipelines, queues), SPIR-V reflection, the
-- shaders, the C interface, and the command-line tools but for that reader and the model's graphs
-- and decode steps. The creation of slots and the
-- text of the persistent tuning store are not modelled either.
pub mod Elementwise
pub mod ExecGraph
pub mod Executor
pub mod GemvChain
pub mod Gguf
pub mod Hazard
pub mod Kernels
pub mod Llama
pub mod Matmul
pub mod MatmulGraph
pub mod Pipeline
pub mod Prelude
pub mod Prepared
pub mod Routing
pub mod SplitK2
pub mod Submission
pub mod Tensor
pub mod Tests
pub mod Transfers
pub mod Tuning
