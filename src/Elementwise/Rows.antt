-- ===== src/Elementwise/Rows.antt =====
-- src/executor/elementwise/ops.rs: softmax, the norms, the binary combination, argmax and the
-- embedding gather.
pub mod Geometry
use package.tensor_ash.Prelude.{
  ℕ, zero, ◌*◌, Bool, true, false, not, ◌||◌, ◌&&◌, Option, some, none, is_some, List, [], ◌∷◌,
  Result, ok, err, ◌>>=◌, ◌>>◌, bail_if, ok_or, ltb, ◌==◌, if◌then◌else◌, min, is_multiple_of,
  div_ceil, try_u32,
}
use package.tensor_ash.Tensor.{Tensor, Buffer, is_f16, len, device_address}
use package.tensor_ash.Elementwise.{
  SoftmaxMask, BinaryOp, full, prefix, causal, add_scaled, silu_mul,
}
use package.tensor_ash.Elementwise.Pc.{
  Push, softmax_pc, norm_pc, binary_pc, argmax_pc, embed_gather_pc,
}
use package.tensor_ash.Elementwise.Plan.{
  Context, ElementwiseDispatch, ElementwiseError, Op, simt, softmax, rms_norm, layer_norm,
  rms_norm_f16, binary, binary_f16, argmax, embed_gather, bad_mask, bad_storage, bad_shape,
  bad_length, exceeds_u32, foreign_context, wg, belongs_to, validate_tensor_context, rows_cols,
  elementwise, ensure_f32, io_dtype_f16, same_dtype, ensure_same_shape, plan_elementwise,
}

-- `(valid_base, rows_per_group, causal)` of a mask.
unfoldable pub mask_fields : SoftmaxMask → ℕ → ℕ → Result ElementwiseError (ℕ × ℕ × ℕ)
mask_fields full rows cols = ok (cols, 1, 0)
mask_fields (prefix valid) rows cols = ok (min valid cols, 1, 0)
mask_fields (causal cached rows_per_group) rows cols = do
  bail_if (rows_per_group == 0 || not (is_multiple_of rows rows_per_group)) bad_mask
  ok (cached, rows_per_group, 1)

unfoldable pub plan_softmax_rows :
    Context → Tensor → Tensor → ℕ → SoftmaxMask → Result ElementwiseError ElementwiseDispatch
plan_softmax_rows ctx input output scale mask = do
  ensure_f32 ctx input
  ensure_f32 ctx output
  ensure_same_shape input output
  geometry ← rows_cols input
  masked ← mask_fields mask geometry.0 geometry.1
  elementwise ctx
  plan_elementwise ctx (simt softmax)
      (softmax_pc (record {
        rows = geometry.0;
        cols = geometry.1;
        valid_base = masked.0;
        rows_per_group = masked.1;
        causal = masked.2;
        scale = scale;
        in_ptr = device_address input;
        out_ptr = device_address output;
      }))
      geometry.0 1

-- The checks of an optional bias.
abbrev ensure_f32_opt : Context → Option Tensor → Result ElementwiseError (Unit {0})
ensure_f32_opt ctx none = ok tt
ensure_f32_opt ctx (some bias) = ensure_f32 ctx bias

abbrev check_bias_len : Option Tensor → ℕ → Result ElementwiseError (Unit {0})
check_bias_len none cols = ok tt
check_bias_len (some bias) cols = bail_if (not (len bias == cols)) bad_length

abbrev bias_ptr : Option Tensor → ℕ
bias_ptr none = 0
bias_ptr (some bias) = device_address bias

unfoldable pub norm_kernel : Bool → Bool → Op
norm_kernel true io_f16 = layer_norm
norm_kernel false false = rms_norm
norm_kernel false true = rms_norm_f16

-- `plan_norm`: RMSNorm without a bias, LayerNorm with one.
unfoldable pub plan_norm :
    Context
    → Tensor
    → Tensor
    → Option Tensor
    → Tensor
    → ℕ
    → Result ElementwiseError ElementwiseDispatch
plan_norm ctx input weight bias output eps = do
  io_f16 ← io_dtype_f16 ctx input output
  ensure_f32 ctx weight
  ensure_f32_opt ctx bias
  bail_if (io_f16 && is_some bias) bad_storage
  ensure_same_shape input output
  geometry ← rows_cols input
  bail_if (not (len weight == geometry.1)) bad_length
  check_bias_len bias geometry.1
  elementwise ctx
  plan_elementwise ctx (simt (norm_kernel (is_some bias) io_f16))
      (norm_pc (record {
        rows = geometry.0;
        cols = geometry.1;
        eps = eps;
        in_ptr = device_address input;
        out_ptr = device_address output;
        weight_ptr = device_address weight;
        bias_ptr = bias_ptr bias;
      }))
      geometry.0 1

-- `(mode, beta)` of a combination.
abbrev binary_mode : BinaryOp → ℕ × ℕ
binary_mode (add_scaled beta) = (0, beta)
binary_mode silu_mul = (1, 0)

unfoldable pub plan_binary :
    Context → Tensor → Tensor → Tensor → BinaryOp → Result ElementwiseError ElementwiseDispatch
plan_binary ctx a b out op = do
  io_f16 ← io_dtype_f16 ctx a out
  validate_tensor_context ctx b
  bail_if (not (same_dtype b a)) bad_storage
  bail_if (not (len a == len b) || not (len a == len out)) bad_length
  n ← ok_or (try_u32 (len a)) exceeds_u32
  elementwise ctx
  plan_elementwise ctx (simt (if io_f16 then binary_f16 else binary))
      (binary_pc (record {
        n = n;
        mode = (binary_mode op).0;
        beta = (binary_mode op).1;
        a_ptr = device_address a;
        b_ptr = device_address b;
        out_ptr = device_address out;
      }))
      (div_ceil n (4 * wg)) 1

unfoldable pub plan_argmax : Context → Tensor → Buffer → Result ElementwiseError ElementwiseDispatch
plan_argmax ctx input result = do
  ensure_f32 ctx input
  bail_if (not (belongs_to result ctx)) foreign_context
  n ← ok_or (try_u32 (len input)) exceeds_u32
  bail_if (n == 0) bad_length
  elementwise ctx
  plan_elementwise ctx (simt argmax)
      (argmax_pc
        (record { n = n; in_ptr = device_address input; result_ptr = result.device_address }))
      1 1

-- The `[vocab, embd]` of a table, and how many rows the output asks for.
unfoldable pub table_shape : List ℕ → Result ElementwiseError (ℕ × ℕ)
table_shape (vocab ∷ embd ∷ []) = do bail_if (vocab == 0 || embd == 0) bad_shape; ok (vocab, embd)
table_shape _ = err bad_shape

unfoldable pub token_rows : List ℕ → ℕ → Result ElementwiseError ℕ
token_rows (e ∷ []) embd = do bail_if (not (e == embd)) bad_shape; ok 1
token_rows (t ∷ e ∷ []) embd = do bail_if (not (e == embd && ltb 0 t)) bad_shape; ok t
token_rows _ embd = err bad_shape

abbrev flag : Bool → ℕ
flag b = if b then 1 else 0

unfoldable pub plan_embed_gather :
    Context → Buffer → Tensor → Tensor → Result ElementwiseError ElementwiseDispatch
plan_embed_gather ctx token table out = do
  validate_tensor_context ctx table
  validate_tensor_context ctx out
  bail_if (not (belongs_to token ctx)) foreign_context
  dims ← table_shape table.shape
  n_tokens ← token_rows out.shape dims.1
  bail_if (ltb token.size_bytes (n_tokens * 4)) bad_length
  elementwise ctx
  plan_elementwise ctx (simt embed_gather)
      (embed_gather_pc (record {
        embd = dims.1;
        vocab = dims.0;
        table_f16 = flag (is_f16 table.dtype);
        n_tokens = n_tokens;
        out_f16 = flag (is_f16 out.dtype);
        token_ptr = token.device_address;
        table_ptr = device_address table;
        out_ptr = device_address out;
      }))
      (div_ceil dims.1 (4 * wg)) n_tokens
