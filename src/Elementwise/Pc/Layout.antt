-- ===== src/Elementwise/Pc/Layout.antt =====
-- src/executor/elementwise/pc.rs: `repr(C)` puts no padding into the blocks.
use tensor_ash.Prelude.{ℕ, ◌+◌, ◌%◌, ◌≤◌, ◌≡◌, List, [], ◌∷◌, arith}
use tensor_ash.Elementwise.Pc.{
  Push, Field, fields, width, push_len, elementwise_pc_bytes, softmax_pc, norm_pc, rope_pc,
  rope_scatter_pc, copy_pc, binary_pc, flash_pc, prefill_qkv_pack_pc, attn_decode_pc,
  attn_combine_pc, argmax_pc, embed_gather_pc, gemv_chain_pc,
}

-- Each field starts at a multiple of its own width, when the first starts at `offset`.
unfoldable pub Aligned : ℕ → List Field → Type 0
Aligned offset [] = Unit {0}
Aligned offset (f ∷ fs) = (offset % width f ≡ 0) × Aligned (offset + width f) fs

-- Every block that is pushed lies in the shared range of 80 bytes, so the copy into the push array
-- is in bounds; its fields, laid one after another, are each aligned to their width, and its size
-- is a multiple of 8.
pub fields-Aligned :
    (p : Push)
    → (push_len (fields p) ≤ elementwise_pc_bytes)
      × Aligned 0 (fields p)
      × (push_len (fields p) % 8 ≡ 0)
unfolding fields push_len width Aligned
fields-Aligned (softmax_pc p) = ground arith
fields-Aligned (norm_pc p) = ground arith
fields-Aligned (rope_pc p) = ground arith
fields-Aligned (rope_scatter_pc p) = ground arith
fields-Aligned (copy_pc p) = ground arith
fields-Aligned (binary_pc p) = ground arith
fields-Aligned (flash_pc p) = ground arith
fields-Aligned (prefill_qkv_pack_pc p) = ground arith
fields-Aligned (attn_decode_pc p) = ground arith
fields-Aligned (attn_combine_pc p) = ground arith
fields-Aligned (argmax_pc p) = ground arith
fields-Aligned (embed_gather_pc p) = ground arith
fields-Aligned (gemv_chain_pc p) = ground arith
