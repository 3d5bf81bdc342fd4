-- ===== src/Elementwise/Attention.antt =====
-- src/executor/elementwise/attn.rs: the two dispatches of split-K decode attention.
pub mod Scratch
use package.tensor_ash.Prelude.{
  ℕ, ◌+◌, ◌*◌, ◌/◌, Bool, true, false, not, ◌||◌, List, [], ◌∷◌, Result, ok, err, ◌>>=◌, ◌>>◌,
  bail_if, ok_or, ltb, ◌==◌, if◌then◌else◌, min, max, is_multiple_of, div_ceil, try_u32, mul64,
  mul32,
}
use package.tensor_ash.Tensor.{Tensor, is_f16, len, device_address}
use package.tensor_ash.Elementwise.{AttnDecodeDesc}
use package.tensor_ash.Elementwise.Pc.{Push, attn_decode_pc, attn_combine_pc}
use package.tensor_ash.Elementwise.Plan.{
  Context, ElementwiseDispatch, ElementwiseError, Op, simt, attn_decode_dh64, attn_decode_kv16_dh64,
  attn_decode_combine, bad_storage, bad_shape, bad_geometry, bad_length, exceeds_u32,
  validate_tensor_context, elementwise, ensure_f32, same_dtype, plan_elementwise,
}

abbrev pub attn_decode_max_chunks : ℕ
attn_decode_max_chunks = 32

unfoldable pub attn_decode_num_chunks : ℕ → ℕ
attn_decode_num_chunks kv_len = min (max (div_ceil kv_len 32) 8) attn_decode_max_chunks

-- A shape of rank three.
unfoldable pub shape3 : List ℕ → Result ElementwiseError (ℕ × ℕ × ℕ)
shape3 (x ∷ y ∷ z ∷ []) = ok (x, y, z)
shape3 _ = err bad_shape

-- The chunks of a dispatch: a fixed number when the position is read on the device.
unfoldable pub num_chunks : AttnDecodeDesc → ℕ
num_chunks desc =
    if not (desc.pos_addr == 0) then attn_decode_max_chunks else attn_decode_num_chunks desc.kv_len

-- The two dispatches once the operands are checked: `kt` is `[kv_heads, dh, t_max]`.
unfoldable pub attn_dispatches :
    Context
    → Tensor
    → Tensor
    → Tensor
    → Tensor
    → Tensor
    → AttnDecodeDesc
    → ℕ × ℕ × ℕ
    → ℕ
    → Result ElementwiseError (ElementwiseDispatch × ElementwiseDispatch)
attn_dispatches ctx q kt v scratch out desc (kv_heads, dh, t_max) group = do
  elementwise ctx
  stage1 ←
      plan_elementwise ctx
        (simt (if is_f16 kt.dtype then attn_decode_kv16_dh64 else attn_decode_dh64))
        (attn_decode_pc (record {
          kv_len = desc.kv_len;
          num_chunks = num_chunks desc;
          group = group;
          t_max = t_max;
          scale = desc.scale;
          q_ptr = device_address q;
          kt_ptr = device_address kt;
          v_ptr = device_address v;
          scratch_ptr = device_address scratch;
          pos_ptr = desc.pos_addr;
        }))
        (num_chunks desc) kv_heads
  combine ←
      plan_elementwise ctx (simt attn_decode_combine)
        (attn_combine_pc (record {
          num_chunks = num_chunks desc;
          group = group;
          dh = dh;
          scratch_ptr = device_address scratch;
          out_ptr = device_address out;
        }))
        (mul32 kv_heads group) 1
  ok (stage1, combine)

-- `scratch.len() < needed`, in u64.
abbrev pub scratch_needed : ℕ → ℕ → ℕ → ℕ → ℕ
scratch_needed kv_heads chunks group dh = mul64 (mul64 (mul64 kv_heads chunks) group) (dh + 2)

-- The checks on the caches, the query heads and the scratch; the result is the group size.
unfoldable pub check_attn :
    Tensor → Tensor → Tensor → AttnDecodeDesc → ℕ × ℕ × ℕ → ℕ × ℕ × ℕ → Result ElementwiseError ℕ
check_attn q scratch out desc (kv_heads, dh, t_max) (v_heads, v_t, v_dh) = do
  bail_if (not (v_dh == dh) || not (v_t == t_max) || not (v_heads == kv_heads) || kv_heads == 0)
      bad_shape
  bail_if (not (dh == 64)) bad_geometry
  bail_if (not (is_multiple_of (len q) (kv_heads * dh))) bad_length
  group ← ok_or (try_u32 (len q / (kv_heads * dh))) exceeds_u32
  bail_if (group == 0 || ltb 8 group) bad_geometry
  bail_if (not (len out == len q)) bad_length
  bail_if (desc.kv_len == 0 || ltb t_max desc.kv_len) bad_geometry
  bail_if (ltb (len scratch) (scratch_needed kv_heads (num_chunks desc) group dh)) bad_length
  ok group

unfoldable pub plan_attn_decode :
    Context
    → Tensor
    → Tensor
    → Tensor
    → Tensor
    → Tensor
    → AttnDecodeDesc
    → Result ElementwiseError (ElementwiseDispatch × ElementwiseDispatch)
plan_attn_decode ctx q kt v scratch out desc = do
  ensure_f32 ctx q
  validate_tensor_context ctx kt
  validate_tensor_context ctx v
  ensure_f32 ctx scratch
  ensure_f32 ctx out
  bail_if (not (same_dtype kt v)) bad_storage
  cache ← shape3 kt.shape
  values ← shape3 v.shape
  group ← check_attn q scratch out desc cache values
  attn_dispatches ctx q kt v scratch out desc cache group
