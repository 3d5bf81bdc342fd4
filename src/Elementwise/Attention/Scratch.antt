-- ===== src/Elementwise/Attention/Scratch.antt =====
-- src/executor/elementwise/attn.rs: the scratch and the grids of an accepted decode attention.
use tensor_ash.Prelude.{
  ℕ, ◌+◌, ◌*◌, ◌%◌, ◌<◌, ◌≤◌, ◌≡◌, List, [], ◌∷◌, ok, inl, inr, Result-cases, arith, u32_mod,
  u64_mod, ◌∙◌, ap, le-mul, try_u32, index-lt, mul_mono_right,
}
use tensor_ash.Tensor.{Tensor, len, device_address}
use tensor_ash.Elementwise.Pc.{Push, attn_decode_pc, attn_combine_pc}
use tensor_ash.Elementwise.{AttnDecodeDesc}
use tensor_ash.Elementwise.Plan.{Context, ElementwiseDispatch, elementwise, plan_elementwise}
use tensor_ash.Elementwise.Attention.{
  attn_decode_num_chunks, shape3, num_chunks, attn_dispatches, check_attn, plan_attn_decode,
  scratch_needed,
}

pub shape3-exact :
    (shape : List ℕ) (x y z : ℕ) → shape3 shape ≡ ok (x, y, z) → shape ≡ x ∷ y ∷ z ∷ []
unfolding shape3
shape3-exact (a ∷ b ∷ c ∷ []) x y z e = cc
shape3-exact [] x y z e = absurd (ground arith)
shape3-exact (a ∷ []) x y z e = absurd (ground arith)
shape3-exact (a ∷ b ∷ []) x y z e = absurd (ground arith)
shape3-exact (a ∷ b ∷ c ∷ d ∷ ds) x y z e = absurd (ground arith)

num_chunks-bounds : (desc : AttnDecodeDesc) → (8 ≤ num_chunks desc) × (num_chunks desc ≤ 32)
unfolding num_chunks attn_decode_num_chunks
num_chunks-bounds desc = ground arith

check-accepts :
    (q scratch out : Tensor) (desc : AttnDecodeDesc) (kv_heads dh t_max v_heads v_t v_dh group : ℕ)
    → check_attn q scratch out desc (kv_heads, dh, t_max) (v_heads, v_t, v_dh) ≡ ok group
    → (v_heads ≡ kv_heads)
      × (v_t ≡ t_max)
      × (v_dh ≡ dh)
      × (dh ≡ 64)
      × (0 < kv_heads)
      × (len q ≡ group * (kv_heads * dh))
      × (0 < group)
      × (group ≤ 8)
      × (len out ≡ len q)
      × (0 < desc.kv_len)
      × (desc.kv_len ≤ t_max)
      × (scratch_needed kv_heads (num_chunks desc) group dh ≤ len scratch)
unfolding check_attn try_u32
check-accepts q scratch out desc kv_heads dh t_max v_heads v_t v_dh group e = ground arith

-- The blocks of the two dispatches, whose chunks and group the kernels index the scratch with.
abbrev pub pushed_decode : Tensor → Tensor → Tensor → Tensor → AttnDecodeDesc → ℕ → ℕ → ℕ → Push
pushed_decode q kt v scratch desc chunks group t_max = attn_decode_pc (record {
  kv_len = desc.kv_len;
  num_chunks = chunks;
  group = group;
  t_max = t_max;
  scale = desc.scale;
  q_ptr = device_address q;
  kt_ptr = device_address kt;
  v_ptr = device_address v;
  scratch_ptr = device_address scratch;
  pos_ptr = desc.pos_addr;
})

abbrev pub pushed_combine : Tensor → Tensor → ℕ → ℕ → ℕ → Push
pushed_combine scratch out chunks group dh = attn_combine_pc (record {
  num_chunks = chunks;
  group = group;
  dh = dh;
  scratch_ptr = device_address scratch;
  out_ptr = device_address out;
})

dispatches-grids :
    (ctx : Context) (q kt v scratch out : Tensor) (desc : AttnDecodeDesc)
    (kv_heads dh t_max group : ℕ) (stage1 combine : ElementwiseDispatch)
    → attn_dispatches ctx q kt v scratch out desc (kv_heads, dh, t_max) group ≡ ok (stage1, combine)
    → (stage1.groups ≡ (num_chunks desc, kv_heads))
      × (combine.groups ≡ ((kv_heads * group) % u32_mod, 1))
      × (stage1.push ≡ pushed_decode q kt v scratch desc (num_chunks desc) group t_max)
      × (combine.push ≡ pushed_combine scratch out (num_chunks desc) group dh)
unfolding attn_dispatches plan_elementwise elementwise
dispatches-grids ctx q kt v scratch out desc kv_heads dh t_max group stage1 combine e = ground arith

-- The scratch element of a partial: per head, chunk and query of the group, the `dh` lanes of the
-- accumulator and the two of the running softmax.
abbrev pub partial : ℕ → ℕ → ℕ × ℕ × ℕ × ℕ → ℕ
partial chunks group (head, chunk, member, lane) =
    ((head * chunks + chunk) * group + member) * 66 + lane

partial-lt :
    (kv_heads chunks group : ℕ) (head chunk member lane : ℕ)
    → head < kv_heads
    → chunk < chunks
    → member < group
    → lane < 66
    → partial chunks group (head, chunk, member, lane) < kv_heads * chunks * group * 66
partial-lt kv_heads chunks group head chunk member lane h c m l =
    index-lt ((head * chunks + chunk) * group + member) lane (kv_heads * chunks * group) 66
      (index-lt (head * chunks + chunk) member (kv_heads * chunks) group
        (index-lt head chunk kv_heads chunks h c) m)
      l

needed-exact :
    (kv_heads chunks group : ℕ)
    → kv_heads < u32_mod
    → chunks ≤ 32
    → group ≤ 8
    → scratch_needed kv_heads chunks group 64 ≡ kv_heads * chunks * group * 66
needed-exact kv_heads chunks group k c g =
    let a : kv_heads * chunks ≤ kv_heads * 32 = mul_mono_right chunks 32 kv_heads c in
    let b : kv_heads * chunks * group ≤ kv_heads * chunks * 8 =
      mul_mono_right group 8 (kv_heads * chunks) g in
    let inner : (kv_heads * chunks) % u64_mod ≡ kv_heads * chunks = omega arith in
    let next : (kv_heads * chunks * group) % u64_mod ≡ kv_heads * chunks * group = omega arith in
    rw (inner, next) (omega arith)

-- What an accepted decode attention promises, for `kv_heads` caches and groups of `group` queries.
pub record Decodes (q kt v scratch out : Tensor) (desc : AttnDecodeDesc)
    (stage1 combine : ElementwiseDispatch) (kv_heads t_max group : ℕ) : Type 0 where
  pub keys : kt.shape ≡ kv_heads ∷ 64 ∷ t_max ∷ []
  pub values : v.shape ≡ kv_heads ∷ t_max ∷ 64 ∷ []
  pub queries : len q ≡ kv_heads * group * 64
  pub outputs : len out ≡ len q
  pub group_fits : (0 < group) × (group ≤ 8)
  pub valid : (0 < desc.kv_len) × (desc.kv_len ≤ t_max)
  pub chunks : ℕ
  pub chunks_fit : (8 ≤ chunks) × (chunks ≤ 32)
  pub grids : (stage1.groups ≡ (chunks, kv_heads)) × (combine.groups ≡ (kv_heads * group, 1))
  pub pushes :
      (stage1.push ≡ pushed_decode q kt v scratch desc chunks group t_max)
      × (combine.push ≡ pushed_combine scratch out chunks group 64)
  pub holds :
      (head chunk member lane : ℕ)
      → head < kv_heads
      → chunk < chunks
      → member < group
      → lane < 66
      → partial chunks group (head, chunk, member, lane) < len scratch

mod-small : (a : ℕ) → a < u32_mod → a % u32_mod ≡ a
mod-small a h = omega arith

decodes :
    (ctx : Context) (q kt v scratch out : Tensor) (desc : AttnDecodeDesc)
    (stage1 combine : ElementwiseDispatch) (kv_heads dh t_max v_heads v_t v_dh group : ℕ)
    → len q < u32_mod
    → shape3 kt.shape ≡ ok (kv_heads, dh, t_max)
    → shape3 v.shape ≡ ok (v_heads, v_t, v_dh)
    → check_attn q scratch out desc (kv_heads, dh, t_max) (v_heads, v_t, v_dh) ≡ ok group
    → attn_dispatches ctx q kt v scratch out desc (kv_heads, dh, t_max) group ≡ ok (stage1, combine)
    → Decodes q kt v scratch out desc stage1 combine kv_heads t_max group
decodes ctx q kt v scratch out desc stage1 combine kv_heads dh t_max v_heads v_t v_dh group few hk
      hv hc hd =
    let (heads, time, width, sixty, some_, whole, least, most, same, positive, below, room) =
      check-accepts q scratch out desc kv_heads dh t_max v_heads v_t v_dh group hc in
    let (grid1, grid2, push1, push2) =
      dispatches-grids ctx q kt v scratch out desc kv_heads dh t_max group stage1 combine hd in
    let chunked = num_chunks-bounds desc in
    let queries : len q ≡ kv_heads * group * 64 = omega (arith, (rw sixty at whole)) in
    let heads_few : kv_heads * group < u32_mod = omega arith in
    let kv_few : kv_heads < u32_mod = omega (arith, le-mul kv_heads group least) in
    record {
      keys = shape3-exact kt.shape kv_heads dh t_max hk ∙ ap (λ n. kv_heads ∷ n ∷ t_max ∷ []) sixty;
      values = shape3-exact v.shape v_heads v_t v_dh hv ∙ (rw (heads, time, width, sixty));
      queries = queries;
      outputs = same;
      group_fits = (least, most);
      valid = (positive, below);
      chunks = num_chunks desc;
      chunks_fit = chunked;
      grids = (grid1, grid2 ∙ ap (λ n. (n, 1)) (mod-small (kv_heads * group) heads_few));
      pushes = (push1, push2 ∙ ap (pushed_combine scratch out (num_chunks desc) group) sixty);
      holds = λ head chunk member lane h c m l. omega (
        arith,
        partial-lt kv_heads (num_chunks desc) group head chunk member lane h c m l,
        needed-exact kv_heads (num_chunks desc) group kv_few chunked.1 most,
        (rw sixty at room),
      );
    }

-- A decode attention that is accepted, that reads no position on the device, of fewer than 2^32
-- query elements, has caches of one shape with heads of 64 lanes, a group of 1 to 8 queries per
-- cache head, and a valid length within the caches; its first dispatch has a workgroup for each of
-- 8 to 32 chunks and each cache head, its second one for each query head; both push these chunks,
-- this group and the scratch's address, the first also this valid length and the caches' capacity;
-- and the scratch element of every partial of these chunks and this group lies in the scratch.
pub plan_attn_decode-Decodes :
    (ctx : Context) (q kt v scratch out : Tensor) (desc : AttnDecodeDesc)
    (stage1 combine : ElementwiseDispatch)
    → desc.pos_addr ≡ 0
    → len q < u32_mod
    → plan_attn_decode ctx q kt v scratch out desc ≡ ok (stage1, combine)
    → (kv_heads : ℕ) × (t_max : ℕ) × (group : ℕ) × Decodes q kt v scratch out desc stage1 combine
        kv_heads t_max group
unfolding plan_attn_decode
plan_attn_decode-Decodes ctx q kt v scratch out desc stage1 combine unmoved few e =
    elim (Result-cases (shape3 kt.shape)) [
      | inl ((kv_heads, dh, t_max), hk) ↦ elim (Result-cases (shape3 v.shape)) [
        | inl ((v_heads, v_t, v_dh), hv) ↦
            elim (Result-cases
              (check_attn q scratch out desc (kv_heads, dh, t_max) (v_heads, v_t, v_dh))) [
                | inl (group, hc) ↦ (
                  kv_heads,
                  t_max,
                  group,
                  decodes ctx q kt v scratch out desc stage1 combine kv_heads dh t_max v_heads v_t
                      v_dh group few hk hv hc (ground arith),
                )
                | inr (_, h) ↦ absurd (ground arith)
              ]
        | inr (_, h) ↦ absurd (ground arith)
      ]
      | inr (_, h) ↦ absurd (ground arith)
    ]
