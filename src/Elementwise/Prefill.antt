-- ===== src/Elementwise/Prefill.antt =====
-- src/executor/elementwise/flash.rs: the pack that spreads concatenated query, key and value rows
-- over the head-major query tensor and the two caches. u32 products wrap around.
use package.tensor_ash.Prelude.{
  ℕ, ◌+◌, ◌/◌, not, ◌||◌, List, [], ◌∷◌, Result, ok, err, ◌>>=◌, ◌>>◌, bail_if, ltb, ◌==◌,
  is_multiple_of, div_ceil, add32, mul32, mul64, saturating_add32,
}
use package.tensor_ash.Tensor.{Tensor, is_f16, len, device_address}
use package.tensor_ash.Elementwise.{PrefillQkvPackDesc}
use package.tensor_ash.Elementwise.Attention.{shape3}
use package.tensor_ash.Elementwise.Pc.{prefill_qkv_pack_pc}
use package.tensor_ash.Matmul.Resolution.Op.{same_shape}
use package.tensor_ash.Elementwise.Plan.{
  Context, ElementwiseDispatch, ElementwiseError, simt, prefill_qkv_pack, bad_storage, bad_shape,
  bad_geometry, bad_length, wg, validate_tensor_context, elementwise, ensure_f32, plan_elementwise,
}

-- One step of the loop over the four f16 operands.
unfoldable pub ensure_f16 : Context → Tensor → Result ElementwiseError (Unit {0})
ensure_f16 ctx t = do validate_tensor_context ctx t; bail_if (not (is_f16 t.dtype)) bad_storage

unfoldable pub check_heads : PrefillQkvPackDesc → Result ElementwiseError (Unit {0})
check_heads desc =
    bail_if
      (desc.heads == 0
        || desc.kv_heads == 0
        || desc.head_dim == 0
        || desc.rot_dim == 0
        || not (is_multiple_of desc.rot_dim 2)
        || ltb desc.head_dim desc.rot_dim)
      bad_geometry

-- The widths of the query part and of the key part of a row.
abbrev pub embd : PrefillQkvPackDesc → ℕ
embd desc = mul32 desc.heads desc.head_dim

abbrev pub kv_dim : PrefillQkvPackDesc → ℕ
kv_dim desc = mul32 desc.kv_heads desc.head_dim

-- `[tokens, qkv_stride]`, where the stride is what the head counts ask for.
unfoldable pub qkv_shape : List ℕ → PrefillQkvPackDesc → Result ElementwiseError (ℕ × ℕ)
qkv_shape (tokens ∷ qkv_stride ∷ []) desc = do
  bail_if (not (qkv_stride == add32 (embd desc) (mul32 2 (kv_dim desc)))) bad_shape
  ok (tokens, qkv_stride)
qkv_shape _ desc = err bad_shape

unfoldable pub check_caches :
    PrefillQkvPackDesc → ℕ × ℕ × ℕ → ℕ × ℕ × ℕ → Result ElementwiseError (Unit {0})
check_caches desc (kt_heads, kt_dh, t_max) (v_heads, v_t, v_dh) =
    bail_if
      (not (kt_heads == desc.kv_heads)
        || not (v_heads == desc.kv_heads)
        || not (kt_dh == desc.head_dim)
        || not (v_dh == desc.head_dim)
        || not (v_t == t_max))
      bad_shape

-- The threads of the dispatch: a pair of query lanes, a pair of key lanes or four value lanes each.
unfoldable pub pack_threads : PrefillQkvPackDesc → ℕ → ℕ
pack_threads desc tokens =
    saturating_add32
      (saturating_add32 (mul32 (mul32 tokens desc.heads) (desc.rot_dim / 2))
        (mul32 (mul32 tokens desc.kv_heads) (desc.rot_dim / 2)))
      (mul32 (mul32 tokens desc.kv_heads) (desc.head_dim / 4))

-- The checks after the storage types; the result is the token count, the row stride and `t_max`.
unfoldable pub check_prefill :
    Tensor
    → Tensor
    → Tensor
    → Tensor
    → Tensor
    → PrefillQkvPackDesc
    → Result ElementwiseError (ℕ × ℕ × ℕ)
check_prefill qkv table q kt v desc = do
  check_heads desc
  row ← qkv_shape qkv.shape desc
  bail_if (not (same_shape q.shape (desc.heads ∷ row.0 ∷ desc.head_dim ∷ []))) bad_shape
  cache ← shape3 kt.shape
  values ← shape3 v.shape
  check_caches desc cache values
  bail_if (ltb cache.2 (saturating_add32 desc.pos_base row.0)) bad_geometry
  bail_if (ltb (len table) (mul64 (desc.pos_base + row.0) desc.rot_dim)) bad_length
  bail_if (not (is_multiple_of desc.head_dim 4)) bad_geometry
  ok (row.0, row.1, cache.2)

unfoldable pub plan_prefill_qkv_pack :
    Context
    → Tensor
    → Tensor
    → Tensor
    → Tensor
    → Tensor
    → PrefillQkvPackDesc
    → Result ElementwiseError ElementwiseDispatch
plan_prefill_qkv_pack ctx qkv table q kt v desc = do
  ensure_f16 ctx qkv
  ensure_f16 ctx q
  ensure_f16 ctx kt
  ensure_f16 ctx v
  ensure_f32 ctx table
  geometry ← check_prefill qkv table q kt v desc
  elementwise ctx
  plan_elementwise ctx (simt prefill_qkv_pack)
      (prefill_qkv_pack_pc (record {
        tokens = geometry.0;
        heads = desc.heads;
        kv_heads = desc.kv_heads;
        head_dim = desc.head_dim;
        rot_dim = desc.rot_dim;
        pos_base = desc.pos_base;
        qkv_stride = geometry.1;
        t_max = geometry.2;
        k_offset = embd desc;
        v_offset = add32 (embd desc) (kv_dim desc);
        qkv_ptr = device_address qkv;
        q_ptr = device_address q;
        kt_ptr = device_address kt;
        v_ptr = device_address v;
        table_ptr = device_address table;
      }))
      (div_ceil (pack_threads desc geometry.0) wg) 1
