-- ===== src/Tests/Planned.antt =====
-- src/executor/elementwise at concrete tensors: a strided copy, a scattering rotation, a softmax,
-- and the two attentions.
use tensor_ash.Prelude.{
  ℕ, ◌+◌, ◌*◌, ◌/◌, ◌<◌, ◌≤◌, ◌≡◌, ◌≢◌, refl, [], ◌∷◌, true, false, some, none, ok, arith, try_u32,
  div_ceil,
}
use tensor_ash.Tensor.{Tensor, f32, f16, len, numel, raw_buffer}
use tensor_ash.Elementwise.{CopyDesc, RopeDesc, RopeScatterDesc, AttnDecodeDesc, FlashAttentionDesc}
use tensor_ash.Elementwise.Pc
use tensor_ash.Elementwise.Pc.{fields, push_len, elementwise_pc_bytes}
use tensor_ash.Elementwise.Plan
use tensor_ash.Elementwise.Plan.{
  Context, ElementwiseDispatch, wg, elementwise, plan_elementwise, ensure_f32,
}
use tensor_ash.Elementwise.Strided.{
  plan_copy_strided, plan_rope_scatter, rope_tokens, farthest, extent_product, copy_kernel,
}
use tensor_ash.Elementwise.Strided.Bounds.{
  copy-in_bounds, element, Within, positions, WordCopy, pushed_copy,
}
use tensor_ash.Elementwise.Strided.Scatter.{rope_scatter-in_bounds, pushed_scatter}
use tensor_ash.Elementwise.Attention.{
  plan_attn_decode, check_attn, attn_dispatches, shape3, num_chunks, attn_decode_num_chunks,
}
use tensor_ash.Elementwise.Attention.Scratch.{plan_attn_decode-Decodes, Decodes}
use tensor_ash.Tests.{tensor}

abbrev context : Context
context = record {
  id = 1;
  bda = true;
  coopmat2 = false;
  max_x = 65535;
  max_y = 65535;
  builds = true;
}

-- The transpose of a 4 by 8 matrix.
abbrev transpose : CopyDesc
transpose = record {
  extent = (8, 4, 1);
  src_offset = 0;
  src_strides = (1, 8, 0);
  dst_offset = 0;
  dst_strides = (4, 1, 0);
  pos_addr = 0;
  pos_scale = 0;
}

abbrev transposed : ElementwiseDispatch
transposed = record {
  pipeline = Plan.simt Plan.copy;
  push = Pc.copy_pc (record {
    extent = (8, 4, 1);
    src_offset = 0;
    src_strides = (1, 8, 0);
    dst_offset = 0;
    dst_strides = (4, 1, 0);
    pos_scale = 0;
    src_ptr = 4096;
    dst_ptr = 8192;
    pos_ptr = 0;
  });
  groups = (1, 1);
}

transpose-planned :
    plan_copy_strided context (tensor (4 ∷ 8 ∷ []) f32 1) (tensor (8 ∷ 4 ∷ []) f32 2) transpose
    ≡ ok transposed
unfolding plan_copy_strided plan_elementwise elementwise farthest extent_product try_u32 numel
    div_ceil copy_kernel
transpose-planned = refl

transpose-WordCopy : WordCopy transpose
unfolding WordCopy
transpose-WordCopy = ground arith

counts :
    (len (tensor (2 ∷ 4 ∷ 64 ∷ []) f32 1) ≡ 512)
    × (len (tensor (8 ∷ 64 ∷ []) f32 1) ≡ 512)
    × (len (tensor (100 ∷ 512 ∷ []) f32 1) ≡ 51200)
unfolding numel
counts = (refl, refl, refl)

copy-in_bounds_example :
    (raw_buffer (tensor (4 ∷ 8 ∷ []) f32 1) ≢ raw_buffer (tensor (8 ∷ 4 ∷ []) f32 2))
    × ((at : ℕ × ℕ × ℕ)
        → Within at transpose.extent
        → (element transpose.src_offset transpose.src_strides at < len (tensor (4 ∷ 8 ∷ []) f32 1))
          × (element transpose.dst_offset transpose.dst_strides at
              < len (tensor (8 ∷ 4 ∷ []) f32 2)))
    × (positions transpose.extent ≤ transposed.groups.0 * wg)
    × (transposed.groups.0 ≤ context.max_x)
    × (transposed.push
        ≡ pushed_copy (tensor (4 ∷ 8 ∷ []) f32 1) (tensor (8 ∷ 4 ∷ []) f32 2) transpose)
copy-in_bounds_example =
    copy-in_bounds context (tensor (4 ∷ 8 ∷ []) f32 1) (tensor (8 ∷ 4 ∷ []) f32 2) transpose
      transposed transpose-WordCopy refl (omega arith) transpose-planned

-- Two tokens of four heads of 64 lanes, rotated into a cache of 128 positions.
abbrev rotation : RopeDesc
rotation = record { heads = 4; head_dim = 64; rot_dim = 64; pos_base = 3; pos_addr = 0 }

abbrev append : RopeScatterDesc
append = record { dst_offset = 3; dst_strides = (1, 8192, 128); pos_scale = 0 }

abbrev tokens : Tensor
tokens = tensor (2 ∷ 4 ∷ 64 ∷ []) f32 1

abbrev factors : Tensor
factors = tensor (128 ∷ 32 ∷ 2 ∷ []) f32 2

abbrev cache : Tensor
cache = tensor (4 ∷ 64 ∷ 128 ∷ []) f16 3

scatter-planned :
    (d : ElementwiseDispatch) × (plan_rope_scatter context tokens factors cache rotation append
      ≡ ok d)
unfolding plan_rope_scatter rope_tokens ensure_f32 plan_elementwise elementwise farthest try_u32
    numel div_ceil
scatter-planned = (_, refl)

rope_scatter-in_bounds_example :
    (count : ℕ) × (len tokens ≡ count * (rotation.heads * rotation.head_dim))
    × (raw_buffer tokens ≢ raw_buffer cache)
    × ((at : ℕ × ℕ × ℕ)
        → Within at (count, rotation.heads, rotation.head_dim)
        → element append.dst_offset append.dst_strides at < len cache)
    × ((t lane : ℕ)
        → t < count
        → lane < rotation.rot_dim
        → (rotation.pos_base + t) * rotation.rot_dim + lane < len factors)
    × (count * rotation.heads * (rotation.rot_dim / 2) ≤ scatter-planned.0.groups.0 * wg)
    × (scatter-planned.0.push ≡ pushed_scatter tokens factors cache rotation append count)
rope_scatter-in_bounds_example =
    rope_scatter-in_bounds context tokens factors cache rotation append scatter-planned.0
      (omega arith, omega arith, (omega arith, omega arith, omega arith)) refl
      (omega (arith, counts.0)) (omega (arith, counts.0)) (omega (arith, counts.0))
      scatter-planned.1

-- Eight query heads over four cache heads of 128 positions, of which 40 are valid.
abbrev query : Tensor
query = tensor (8 ∷ 64 ∷ []) f32 1

abbrev values : Tensor
values = tensor (4 ∷ 128 ∷ 64 ∷ []) f16 4

abbrev scratch : Tensor
scratch = tensor (4 ∷ 32 ∷ 2 ∷ 66 ∷ []) f32 5

abbrev attended : Tensor
attended = tensor (8 ∷ 64 ∷ []) f32 6

abbrev decode : AttnDecodeDesc
decode = record { kv_len = 40; scale = 0; pos_addr = 0 }

decode-planned :
    (d : ElementwiseDispatch × ElementwiseDispatch) × (plan_attn_decode context query cache values
        scratch attended decode
      ≡ ok d)
unfolding plan_attn_decode check_attn attn_dispatches shape3 num_chunks attn_decode_num_chunks
    ensure_f32 plan_elementwise elementwise try_u32 numel div_ceil
decode-planned = (_, refl)

plan_attn_decode-Decodes_example :
    (kv_heads : ℕ) × (t_max : ℕ) × (group : ℕ) × Decodes query cache values scratch attended decode
      decode-planned.0.0 decode-planned.0.1 kv_heads t_max group
plan_attn_decode-Decodes_example =
    plan_attn_decode-Decodes context query cache values scratch attended decode decode-planned.0.0
      decode-planned.0.1 refl (omega (arith, counts.1)) decode-planned.1

-- A prompt of 100 rows and eight heads, token-major.
abbrev prompt : Tensor
prompt = tensor (100 ∷ 512 ∷ []) f32 1

abbrev prefill : FlashAttentionDesc
prefill = record {
  kv_len = 100;
  pos_base = 0;
  scale = 0;
  token_major_heads = some 8;
  out_token_major_heads = none;
}
