-- ===== src/Gguf.antt =====
-- tools/llama-ash/src/gguf.rs: the reader of GGUF model files. A file is the list of its
-- bytes, a reader the position in it; a seek may leave the file, a read may not. Strings are their
-- bytes, with the test for UTF-8 a parameter; a float is its bit pattern.
pub mod Bounds
use package.tensor_ash.Prelude.{
  ℕ, zero, suc, ◌+◌, ◌-◌, ◌*◌, ◌/◌, ◌%◌, ◌^◌, Bool, true, false, not, ◌&&◌, ◌||◌, Option, none,
  some, List, [], ◌∷◌, Result, ok, err, ◌>>=◌, ◌>>◌, bail_if, ok_or, ltb, leb, ◌==◌, if◌then◌else◌,
  length, take, checked_mul, add64, mul64, div_ceil, u64_mod,
}
use package.tensor_ash.Tensor.F16.{f16_bits_to_f32}

-- `Value`. An i64 is its two's complement; an f64 that widens an f32 keeps the bits of the f32.
pub data Value : Type 0 where
  u64 i64 f64 f64_of_f32 : (bits : ℕ) → Value
  bool : Bool → Value
  str : List ℕ → Value
  skipped : Value

unfoldable pub as_u64 : Value → Option ℕ
as_u64 (u64 v) = some v
as_u64 (i64 v) = if ltb v (2 ^ 63) then some v else none
as_u64 _ = none

pub record TensorInfo : Type 0 where
  pub name : List ℕ
  pub ne : List ℕ
  pub ggml_type : ℕ
  pub offset : ℕ

-- `ne.iter().product()`, which wraps around.
unfoldable pub element_count : List ℕ → ℕ
element_count [] = 1
element_count (n ∷ ns) = mul64 n (element_count ns)

pub data GgufError : Type 0 where
  end_of_file string_too_long not_utf8 array_overflow bad_seek nested_array : GgufError
  unknown_type bad_magic bad_version implausible bad_dims bad_alignment : GgufError
  no_tensor unsupported_type : GgufError

pub record GgufFile : Type 0 where
  pub metadata : List (List ℕ × Value)
  pub tensors : List (List ℕ × TensorInfo)
  pub data_start : ℕ

abbrev pub drop : List ℕ → ℕ → List ℕ
drop xs zero = xs
drop [] (suc n) = []
drop (x ∷ xs) (suc n) = drop xs n

-- `from_le_bytes`.
unfoldable pub little_endian : List ℕ → ℕ
little_endian [] = 0
little_endian (b ∷ bs) = b + 256 * little_endian bs

-- `iN as i64` of a value of `bits` bits.
abbrev sign_extend : ℕ → ℕ → ℕ
sign_extend bits v = if ltb v (2 ^ (bits - 1)) then v else v + (u64_mod - 2 ^ bits)

unfoldable pub scalar_width : ℕ → Option ℕ
scalar_width ty =
    if ty == 0 || ty == 1 || ty == 7
    then some 1
    else if ty == 2 || ty == 3
    then some 2
    else if leb 4 ty && leb ty 6
    then some 4
    else if leb 10 ty && leb ty 12
    then some 8
    else none

-- `SeekFrom::Current(n as i64)`.
unfoldable pub seek_by : ℕ → ℕ → Result GgufError ℕ
seek_by n pos =
    if ltb n (2 ^ 63)
    then ok (pos + n)
    else if leb (u64_mod - n) pos
    then ok (pos - (u64_mod - n))
    else err bad_seek

-- Insertion and lookup in a map: the last insertion under a key counts.
abbrev same_bytes : List ℕ → List ℕ → Bool
same_bytes [] [] = true
same_bytes [] (y ∷ ys) = false
same_bytes (x ∷ xs) [] = false
same_bytes (x ∷ xs) (y ∷ ys) = x == y && same_bytes xs ys

unfoldable pub lookup {ℓ} : {A : Type ℓ} → List ℕ → List (List ℕ × A) → Option A
lookup key [] = none
lookup key ((k, v) ∷ rest) =
    let later = lookup key rest in if same_bytes k key then some v else later

-- `b"GGUF"` as a little-endian number, and the key `general.alignment`.
abbrev magic_number : ℕ
magic_number = 0x4655_4747

abbrev alignment_key : List ℕ
alignment_key =
    103 ∷ 101 ∷ 110 ∷ 101 ∷ 114 ∷ 97 ∷ 108 ∷ 46 ∷ 97 ∷ 108 ∷ 105 ∷ 103 ∷ 110 ∷ 109 ∷ 101 ∷ 110 ∷ 116
    ∷ []

abbrev or_default : Option ℕ → ℕ
or_default none = 32
or_default (some v) = v

abbrev integer : Option Value → Option ℕ
integer none = none
integer (some v) = as_u64 v

unfoldable pub alignment : List (List ℕ × Value) → ℕ
alignment metadata = or_default (integer (lookup alignment_key metadata))

-- `is_power_of_two` of a u64, over the 64 powers; zero is none of them.
unfoldable pub power_below : ℕ → ℕ → Bool
power_below zero n = false
power_below (suc k) n = let less = power_below k n in if n == 2 ^ k then true else less

abbrev pub is_power_of_two : ℕ → Bool
is_power_of_two = power_below 64

-- The elements of `chunks_exact`, as f32 bit patterns.
unfoldable pub chunks : ℕ → (ℕ → ℕ) → ℕ → List ℕ → List ℕ
chunks width to_f32 zero bytes = []
chunks width to_f32 (suc count) bytes =
    to_f32 (little_endian (take width bytes)) ∷ chunks width to_f32 count (drop bytes width)

module _ (utf8 : List ℕ → Bool) (file : List ℕ) where
  unfoldable pub read_exact : ℕ → ℕ → Result GgufError (List ℕ × ℕ)
  read_exact n pos =
      if leb (pos + n) (length file) then ok (take n (drop file pos), pos + n) else err end_of_file

  unfoldable pub read_number : ℕ → ℕ → Result GgufError (ℕ × ℕ)
  read_number width pos = do (bytes, next) ← read_exact width pos; ok (little_endian bytes, next)

  unfoldable pub read_string : ℕ → Result GgufError (List ℕ × ℕ)
  read_string pos = do
    (len, start) ← read_number 8 pos
    bail_if (ltb (2 ^ 24) len) string_too_long
    (bytes, next) ← read_exact len start
    bail_if (not (utf8 bytes)) not_utf8
    ok (bytes, next)

  -- The loop over the strings of an array.
  unfoldable pub skip_strings : ℕ → ℕ → Result GgufError ℕ
  skip_strings zero pos = ok pos
  skip_strings (suc count) pos = do
    (len, start) ← read_number 8 pos
    next ← seek_by len start
    skip_strings count next

  unfoldable pub skip_array : ℕ → Result GgufError (Value × ℕ)
  skip_array pos = do
    (elem_ty, p) ← read_number 4 pos
    (count, start) ← read_number 8 p
    next ← elim (scalar_width elem_ty) [
      | some width ↦
          (ok_or (checked_mul width count) array_overflow >>= λ bytes. seek_by bytes start)
      | none ↦ if elem_ty == 8 then skip_strings count start else err nested_array
    ]
    ok (skipped, next)

  -- The scalars of `read_value`: the width, and the conversion of the bytes.
  unfoldable pub convert : ℕ → ℕ → Value
  convert ty v =
      if ty == 1
      then i64 (sign_extend 8 v)
      else if ty == 3
      then i64 (sign_extend 16 v)
      else if ty == 5
      then i64 (sign_extend 32 v)
      else if ty == 11
      then i64 v
      else if ty == 6
      then f64_of_f32 v
      else if ty == 12
      then f64 v
      else if ty == 7
      then bool (not (v == 0))
      else u64 v

  -- `read_value` of a value that is kept.
  unfoldable pub read_value : ℕ → ℕ → Result GgufError (Value × ℕ)
  read_value ty pos = elim (scalar_width ty) [
    | some width ↦ read_number width pos >>= λ (v, next). ok (convert ty v, next)
    | none ↦
        if ty == 8
        then (read_string pos >>= λ (s, next). ok (str s, next))
        else if ty == 9
        then skip_array pos
        else err unknown_type
  ]

  -- The loop over the metadata, which inserts each pair in front.
  unfoldable pub read_metadata :
      ℕ → ℕ → List (List ℕ × Value) → Result GgufError (List (List ℕ × Value) × ℕ)
  read_metadata zero pos map = ok (map, pos)
  read_metadata (suc left) pos map = do
    (key, p) ← read_string pos
    (ty, q) ← read_number 4 p
    (value, next) ← read_value ty q
    read_metadata left next ((key, value) ∷ map)

  unfoldable pub read_dims : ℕ → ℕ → Result GgufError (List ℕ × ℕ)
  read_dims zero pos = ok ([], pos)
  read_dims (suc left) pos = do
    (n, p) ← read_number 8 pos
    (ns, next) ← read_dims left p
    ok (n ∷ ns, next)

  unfoldable pub read_info : ℕ → Result GgufError (TensorInfo × ℕ)
  read_info pos = do
    (name, p) ← read_string pos
    (n_dims, q) ← read_number 4 p
    bail_if (n_dims == 0 || ltb 4 n_dims) bad_dims
    (ne, r) ← read_dims n_dims q
    (ggml_type, t) ← read_number 4 r
    (offset, next) ← read_number 8 t
    ok (record { name = name; ne = ne; ggml_type = ggml_type; offset = offset }, next)

  unfoldable pub read_tensors :
      ℕ → ℕ → List (List ℕ × TensorInfo) → Result GgufError (List (List ℕ × TensorInfo) × ℕ)
  read_tensors zero pos map = ok (map, pos)
  read_tensors (suc left) pos map = do
    (info, next) ← read_info pos
    read_tensors left next ((info.name, info) ∷ map)

  -- The magic bytes, the version and the two counts.
  unfoldable pub read_header : Result GgufError (ℕ × ℕ × ℕ)
  read_header = do
    (magic, p) ← read_number 4 0
    bail_if (not (magic == magic_number)) bad_magic
    (version, q) ← read_number 4 p
    bail_if (not (version == 2) && not (version == 3)) bad_version
    (tensor_count, r) ← read_number 8 q
    (kv_count, next) ← read_number 8 r
    bail_if (ltb (2 ^ 20) tensor_count || ltb (2 ^ 20) kv_count) implausible
    ok (tensor_count, kv_count, next)

  -- `GgufFile::open`, after the file is opened.
  unfoldable pub open_gguf : Result GgufError GgufFile
  open_gguf = do
    (tensor_count, kv_count, start) ← read_header
    (metadata, infos) ← read_metadata kv_count start []
    (tensors, here) ← read_tensors tensor_count infos []
    bail_if (not (is_power_of_two (alignment metadata))) bad_alignment
    ok (record {
      metadata = metadata;
      tensors = tensors;
      data_start = mul64 (div_ceil here (alignment metadata)) (alignment metadata);
    })

  unfoldable pub read_elements : ℕ → (ℕ → ℕ) → TensorInfo → ℕ → Result GgufError (List ℕ)
  read_elements width to_f32 info pos = do
    (bytes, next) ← read_exact (mul64 (element_count info.ne) width) pos
    ok (chunks width to_f32 (length bytes / width) bytes)

  -- `GgufFile::read_f32`.
  unfoldable pub read_f32 : GgufFile → List ℕ → Result GgufError (List ℕ)
  read_f32 gguf name = do
    info ← ok_or (lookup name gguf.tensors) no_tensor
    if info.ggml_type == 0
        then read_elements 4 (λ v. v) info (add64 gguf.data_start info.offset)
        else if info.ggml_type == 1
        then read_elements 2 f16_bits_to_f32 info (add64 gguf.data_start info.offset)
        else err unsupported_type
