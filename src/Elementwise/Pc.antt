-- ===== src/Elementwise/Pc.antt =====
-- src/executor/elementwise/pc.rs: the push-constant blocks of the elementwise kernels. A block is
-- its record; `fields` lists the widths in bytes of what the record holds, in declaration order.
pub mod Layout
use package.tensor_ash.Prelude.{ℕ, ◌+◌, List, [], ◌∷◌}

-- `ELEMENTWISE_PC_BYTES`.
abbrev pub elementwise_pc_bytes : ℕ
elementwise_pc_bytes = 80

pub record SoftmaxPc : Type 0 where
  pub rows : ℕ
  pub cols : ℕ
  pub valid_base : ℕ
  pub rows_per_group : ℕ
  pub causal : ℕ
  pub scale : ℕ
  pub in_ptr : ℕ
  pub out_ptr : ℕ

pub record NormPc : Type 0 where
  pub rows : ℕ
  pub cols : ℕ
  pub eps : ℕ
  pub in_ptr : ℕ
  pub out_ptr : ℕ
  pub weight_ptr : ℕ
  pub bias_ptr : ℕ

pub record RopePc : Type 0 where
  pub tokens : ℕ
  pub heads : ℕ
  pub head_dim : ℕ
  pub rot_dim : ℕ
  pub pos_base : ℕ
  pub in_ptr : ℕ
  pub out_ptr : ℕ
  pub table_ptr : ℕ
  pub pos_ptr : ℕ

pub record RopeScatterPc : Type 0 where
  pub tokens : ℕ
  pub heads : ℕ
  pub head_dim : ℕ
  pub rot_dim : ℕ
  pub pos_base : ℕ
  pub dst_offset : ℕ
  pub dst_strides : ℕ × ℕ × ℕ
  pub pos_scale : ℕ
  pub in_ptr : ℕ
  pub dst_ptr : ℕ
  pub table_ptr : ℕ
  pub pos_ptr : ℕ

pub record CopyPc : Type 0 where
  pub extent : ℕ × ℕ × ℕ
  pub src_offset : ℕ
  pub src_strides : ℕ × ℕ × ℕ
  pub dst_offset : ℕ
  pub dst_strides : ℕ × ℕ × ℕ
  pub pos_scale : ℕ
  pub src_ptr : ℕ
  pub dst_ptr : ℕ
  pub pos_ptr : ℕ

pub record BinaryPc : Type 0 where
  pub n : ℕ
  pub mode : ℕ
  pub beta : ℕ
  pub a_ptr : ℕ
  pub b_ptr : ℕ
  pub out_ptr : ℕ

pub record FlashPc : Type 0 where
  pub t_q : ℕ
  pub t_max : ℕ
  pub kv_len : ℕ
  pub pos_base : ℕ
  pub group_size : ℕ
  pub scale : ℕ
  pub q_head_stride : ℕ
  pub q_row_stride : ℕ
  pub o_head_stride : ℕ
  pub o_row_stride : ℕ
  pub q_ptr : ℕ
  pub kt_ptr : ℕ
  pub v_ptr : ℕ
  pub out_ptr : ℕ

pub record PrefillQkvPackPc : Type 0 where
  pub tokens : ℕ
  pub heads : ℕ
  pub kv_heads : ℕ
  pub head_dim : ℕ
  pub rot_dim : ℕ
  pub pos_base : ℕ
  pub qkv_stride : ℕ
  pub t_max : ℕ
  pub k_offset : ℕ
  pub v_offset : ℕ
  pub qkv_ptr : ℕ
  pub q_ptr : ℕ
  pub kt_ptr : ℕ
  pub v_ptr : ℕ
  pub table_ptr : ℕ

pub record AttnDecodePc : Type 0 where
  pub kv_len : ℕ
  pub num_chunks : ℕ
  pub group : ℕ
  pub t_max : ℕ
  pub scale : ℕ
  pub q_ptr : ℕ
  pub kt_ptr : ℕ
  pub v_ptr : ℕ
  pub scratch_ptr : ℕ
  pub pos_ptr : ℕ

pub record AttnCombinePc : Type 0 where
  pub num_chunks : ℕ
  pub group : ℕ
  pub dh : ℕ
  pub scratch_ptr : ℕ
  pub out_ptr : ℕ

pub record ArgmaxPc : Type 0 where
  pub n : ℕ
  pub in_ptr : ℕ
  pub result_ptr : ℕ

pub record EmbedGatherPc : Type 0 where
  pub embd : ℕ
  pub vocab : ℕ
  pub table_f16 : ℕ
  pub n_tokens : ℕ
  pub out_f16 : ℕ
  pub token_ptr : ℕ
  pub table_ptr : ℕ
  pub out_ptr : ℕ

pub record GemvChainPc : Type 0 where
  pub jobs_ptr : ℕ
  pub sync_ptr : ℕ
  pub n_jobs : ℕ
  pub n_wg : ℕ

-- A block that some planner pushes.
pub data Push : Type 0 where
  softmax_pc : SoftmaxPc → Push
  norm_pc : NormPc → Push
  rope_pc : RopePc → Push
  rope_scatter_pc : RopeScatterPc → Push
  copy_pc : CopyPc → Push
  binary_pc : BinaryPc → Push
  flash_pc : FlashPc → Push
  prefill_qkv_pack_pc : PrefillQkvPackPc → Push
  attn_decode_pc : AttnDecodePc → Push
  attn_combine_pc : AttnCombinePc → Push
  argmax_pc : ArgmaxPc → Push
  embed_gather_pc : EmbedGatherPc → Push
  gemv_chain_pc : GemvChainPc → Push

-- A field of a block: a u32 (or an f32), the padding word, or a u64 address, with its value.
pub data Field : Type 0 where
  u32 u64 : (value : ℕ) → Field

abbrev triple : ℕ × ℕ × ℕ → List Field → List Field
triple (x, y, z) rest = u32 x ∷ u32 y ∷ u32 z ∷ rest

unfoldable pub fields : Push → List Field
fields (softmax_pc p) =
    u32 p.rows
    ∷ u32 p.cols
    ∷ u32 p.valid_base
    ∷ u32 p.rows_per_group
    ∷ u32 p.causal
    ∷ u32 p.scale
    ∷ u64 p.in_ptr
    ∷ u64 p.out_ptr
    ∷ []
fields (norm_pc p) =
    u32 p.rows
    ∷ u32 p.cols
    ∷ u32 p.eps
    ∷ u32 0
    ∷ u64 p.in_ptr
    ∷ u64 p.out_ptr
    ∷ u64 p.weight_ptr
    ∷ u64 p.bias_ptr
    ∷ []
fields (rope_pc p) =
    u32 p.tokens
    ∷ u32 p.heads
    ∷ u32 p.head_dim
    ∷ u32 p.rot_dim
    ∷ u32 p.pos_base
    ∷ u32 0
    ∷ u64 p.in_ptr
    ∷ u64 p.out_ptr
    ∷ u64 p.table_ptr
    ∷ u64 p.pos_ptr
    ∷ []
fields (rope_scatter_pc p) =
    u32 p.tokens
    ∷ u32 p.heads
    ∷ u32 p.head_dim
    ∷ u32 p.rot_dim
    ∷ u32 p.pos_base
    ∷ u32 p.dst_offset
    ∷ triple p.dst_strides
        (u32 p.pos_scale ∷ u64 p.in_ptr ∷ u64 p.dst_ptr ∷ u64 p.table_ptr ∷ u64 p.pos_ptr ∷ [])
fields (copy_pc p) = triple p.extent (
    u32 p.src_offset
    ∷ triple p.src_strides (
        u32 p.dst_offset
        ∷ triple p.dst_strides
            (u32 p.pos_scale ∷ u64 p.src_ptr ∷ u64 p.dst_ptr ∷ u64 p.pos_ptr ∷ [])))
fields (binary_pc p) =
    u32 p.n ∷ u32 p.mode ∷ u32 p.beta ∷ u32 0 ∷ u64 p.a_ptr ∷ u64 p.b_ptr ∷ u64 p.out_ptr ∷ []
fields (flash_pc p) =
    u32 p.t_q
    ∷ u32 p.t_max
    ∷ u32 p.kv_len
    ∷ u32 p.pos_base
    ∷ u32 p.group_size
    ∷ u32 p.scale
    ∷ u32 p.q_head_stride
    ∷ u32 p.q_row_stride
    ∷ u32 p.o_head_stride
    ∷ u32 p.o_row_stride
    ∷ u64 p.q_ptr
    ∷ u64 p.kt_ptr
    ∷ u64 p.v_ptr
    ∷ u64 p.out_ptr
    ∷ []
fields (prefill_qkv_pack_pc p) =
    u32 p.tokens
    ∷ u32 p.heads
    ∷ u32 p.kv_heads
    ∷ u32 p.head_dim
    ∷ u32 p.rot_dim
    ∷ u32 p.pos_base
    ∷ u32 p.qkv_stride
    ∷ u32 p.t_max
    ∷ u32 p.k_offset
    ∷ u32 p.v_offset
    ∷ u64 p.qkv_ptr
    ∷ u64 p.q_ptr
    ∷ u64 p.kt_ptr
    ∷ u64 p.v_ptr
    ∷ u64 p.table_ptr
    ∷ []
fields (attn_decode_pc p) =
    u32 p.kv_len
    ∷ u32 p.num_chunks
    ∷ u32 p.group
    ∷ u32 p.t_max
    ∷ u32 p.scale
    ∷ u32 0
    ∷ u64 p.q_ptr
    ∷ u64 p.kt_ptr
    ∷ u64 p.v_ptr
    ∷ u64 p.scratch_ptr
    ∷ u64 p.pos_ptr
    ∷ []
fields (attn_combine_pc p) =
    u32 p.num_chunks ∷ u32 p.group ∷ u32 p.dh ∷ u32 0 ∷ u64 p.scratch_ptr ∷ u64 p.out_ptr ∷ []
fields (argmax_pc p) = u32 p.n ∷ u32 0 ∷ u64 p.in_ptr ∷ u64 p.result_ptr ∷ []
fields (embed_gather_pc p) =
    u32 p.embd
    ∷ u32 p.vocab
    ∷ u32 p.table_f16
    ∷ u32 p.n_tokens
    ∷ u32 p.out_f16
    ∷ u32 0
    ∷ u64 p.token_ptr
    ∷ u64 p.table_ptr
    ∷ u64 p.out_ptr
    ∷ []
fields (gemv_chain_pc p) = u64 p.jobs_ptr ∷ u64 p.sync_ptr ∷ u32 p.n_jobs ∷ u32 p.n_wg ∷ []

unfoldable pub width : Field → ℕ
width (u32 value) = 4
width (u64 value) = 8

-- `bytemuck::bytes_of`: the fields one after another, each little-endian.
unfoldable pub push_len : List Field → ℕ
push_len [] = 0
push_len (f ∷ fs) = width f + push_len fs
