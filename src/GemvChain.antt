-- ===== src/GemvChain.antt =====
-- src/executor/elementwise/gemv_chain.rs: up to eight one-row products in one dispatch, and the
-- flags after which the dispatch waits. The job table's upload and the kernel itself are left out.
pub mod Synced
use package.tensor_ash.Prelude.{
  ℕ, Bool, true, false, ◌&&◌, ◌||◌, Option, none, some, List, [], ◌∷◌, ◌++◌, contains,
  if◌then◌else◌, leb,
}
use package.tensor_ash.Tensor.{Tensor, raw_buffer}
use package.tensor_ash.Matmul.{MatmulOp}
use package.tensor_ash.Matmul.Epilogues.{d_of}
use package.tensor_ash.Hazard.{any_in}
use package.tensor_ash.ExecGraph.{norm_weight}

-- `v.push(operand)` where there is one.
abbrev pub push : Option Tensor → List ℕ → List ℕ
push none v = v
push (some t) v = v ++ raw_buffer t ∷ []

-- `gemv_job_reads`.
unfoldable pub job_reads : MatmulOp → List ℕ
job_reads op =
    let operands = raw_buffer op.call.a ∷ raw_buffer op.call.b ∷ [] in
    let v = push (norm_weight op) (push (d_of op.epilogue.binary) operands) in
    if op.call.accumulate then v ++ raw_buffer op.call.c ∷ [] else v

-- `gemv_job_writes`.
unfoldable pub job_writes : MatmulOp → List ℕ
job_writes op = raw_buffer op.call.c ∷ []

-- `next_writes.iter().any(|b| writes.contains(b) || reads.contains(b))`.
unfoldable pub any_in_either : List ℕ → List ℕ → List ℕ → Bool
any_in_either writes reads [] = false
any_in_either writes reads (b ∷ bs) =
    contains writes b || contains reads b || any_in_either writes reads bs

-- `gemv_jobs_hazard`.
unfoldable pub jobs_hazard : List MatmulOp → MatmulOp → Bool
jobs_hazard [] next = false
jobs_hazard (prev ∷ prior) next =
    let rest = jobs_hazard prior next in
    if any_in (job_writes prev) (job_reads next)
      || any_in_either (job_writes prev) (job_reads prev) (job_writes next)
    then true
    else rest

-- The SYNC_AFTER flags of `plan_gemv_chain`, each from the jobs up to its own and the next one.
unfoldable pub sync_from : List MatmulOp → List MatmulOp → List Bool
sync_from prior [] = []
sync_from prior (job ∷ []) = false ∷ []
sync_from prior (job ∷ next ∷ rest) =
    let upto = prior ++ job ∷ [] in jobs_hazard upto next ∷ sync_from upto (next ∷ rest)

abbrev pub sync_flags : List MatmulOp → List Bool
sync_flags = sync_from []

-- `gemv_chain_vcols`.
unfoldable pub gemv_chain_vcols : ℕ → ℕ → ℕ
gemv_chain_vcols k n = if leb 4096 k || leb n 512 || leb 2048 k && leb n 2048 then 1 else 2
