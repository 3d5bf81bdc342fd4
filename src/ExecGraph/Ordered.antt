-- ===== src/ExecGraph/Ordered.antt =====
-- src/executor/graph_ops.rs: what the barriers of a chain of operations order.
use tensor_ash.Prelude.{
  ℕ, suc, ◌<◌, ◌≡◌, refl, sym, if◌then◌else◌, ◌⊎◌, inl, inr, Bool, true, false, List, [], ◌∷◌, ◌++◌,
  Option, some, none, ◌∈◌, get_elem?, arith, length, length-append, get-after, get-after_suc,
}
use mathlib.Core.Path.{subst}
use mathlib.Core.List.{append_assoc}
use tensor_ash.Tensor.{Tensor, raw_buffer}
use tensor_ash.Matmul.{MatmulOp}
use tensor_ash.Matmul.Stores.{dst, table}
use tensor_ash.Hazard.{Access, barriers, nothing}
use tensor_ash.Matmul.Epilogues.{d_of}
use tensor_ash.Hazard.Separation.{raw, BarrierWithin, barriers-separate}
use tensor_ash.Elementwise.{AttnDecodeDesc}
use tensor_ash.ExecGraph.{
  ExecOp, attn_decode, matmul, accesses, op_accesses, matmul_access, reads, writes, reads_optional,
  writes_result, norm_weight,
}

accesses-append : (xs ys : List ExecOp) → accesses (xs ++ ys) ≡ accesses xs ++ accesses ys
unfolding accesses
accesses-append [] ys = refl
accesses-append (x ∷ xs) ys =
    rw (accesses-append xs ys, sym (append_assoc (op_accesses x) (accesses xs) (accesses ys)))

first_dispatch :
    (before after : List ExecOp) (op : ExecOp) (x : Access) (xs : List Access)
    → op_accesses op ≡ x ∷ xs
    → get_elem? (accesses (before ++ op ∷ after)) (length (accesses before)) ≡ some x
unfolding accesses
first_dispatch before after op x xs e =
    rw
      (accesses-append before (op ∷ after), e, get-after (accesses before) x (xs ++ accesses after))

second_dispatch :
    (before after : List ExecOp) (op : ExecOp) (x y : Access) (xs : List Access)
    → op_accesses op ≡ x ∷ y ∷ xs
    → get_elem? (accesses (before ++ op ∷ after)) (suc (length (accesses before))) ≡ some y
unfolding accesses
second_dispatch before after op x y xs e = rw (
  accesses-append before (op ∷ after),
  e,
  get-after_suc (accesses before) x y (xs ++ accesses after),
)

within_one :
    (flags : List Bool) (i : ℕ)
    → BarrierWithin flags i (suc i)
    → get_elem? flags (suc i) ≡ some true
within_one flags i (b, gt, le, e) =
    subst (λ n. get_elem? flags n ≡ some true) (omega (arith, gt, le)) e

-- The two dispatches of a decode attention stand one after the other, and a barrier stands directly
-- before the second, whatever surrounds the operation in the chain.
pub attn_decode-barrier :
    (before after : List ExecOp) (q kt v scratch out : Tensor) (d : AttnDecodeDesc)
    → get_elem?
        (barriers (accesses (before ++ attn_decode q kt v scratch out d ∷ after)))
        (suc (length (accesses before)))
      ≡ some true
unfolding op_accesses
attn_decode-barrier before after q kt v scratch out d =
    let op = attn_decode q kt v scratch out d in
    let ops = before ++ op ∷ after in
    let n = length (accesses before) in
    within_one (barriers (accesses ops)) n (
      barriers-separate (accesses ops) n (suc n) _ _ (omega arith)
        (first_dispatch before after op _ _ refl) (second_dispatch before after op _ _ _ refl)
        (raw (raw_buffer scratch) (inl refl) (inl refl)))

optional_writes : (o : Option Tensor) (a : Access) → (reads_optional o a).writes ≡ a.writes
optional_writes none a = refl
optional_writes (some t) a = refl

accumulate_writes :
    (b : Bool) (t : Tensor) (a : Access) → (if b then reads t a else a).writes ≡ a.writes
accumulate_writes true t a = refl
accumulate_writes false t a = refl

result-written :
    (op : MatmulOp) (cache : Tensor) (a : Access)
    → a.writes ≡ []
    → dst op.store ≡ some cache
    → raw_buffer cache ∈ (writes_result op a).writes
result-written op cache a empty e =
    subst
      (λ o.
        raw_buffer cache
        ∈ (elim o as (λ x. Access) [ some t ↦ writes t a | none ↦ writes op.call.c a ]).writes)
      (sym e) (rw empty (inl refl))

-- A matmul whose store scatters to a cache writes the cache.
cache-written :
    (op : MatmulOp) (cache : Tensor)
    → dst op.store ≡ some cache
    → raw_buffer cache ∈ (matmul_access op).writes
unfolding matmul_access
cache-written op cache e =
    let base = writes_result op (reads op.call.b (reads op.call.a nothing)) in
    let tabled = reads_optional (table op.store) base in
    let accumulated = if op.call.accumulate then reads op.call.c tabled else tabled in
    let biased = reads_optional op.epilogue.bias accumulated in
    rw
      (
        optional_writes (norm_weight op) (reads_optional (d_of op.epilogue.binary) biased),
        optional_writes (d_of op.epilogue.binary) biased,
        optional_writes op.epilogue.bias accumulated,
        accumulate_writes op.call.accumulate op.call.c tabled,
        optional_writes (table op.store) base,
      )
      (result-written op cache (reads op.call.b (reads op.call.a nothing)) refl e)

position-grows :
    (before between : List ExecOp) (op : MatmulOp)
    → length (accesses before) < length (accesses (before ++ matmul op ∷ between))
unfolding accesses op_accesses
position-grows before between op =
    subst (λ xs. length (accesses before) < length xs)
      (sym (accesses-append before (matmul op ∷ between)))
      (omega (arith, length-append (accesses before) (matmul_access op ∷ accesses between)))

-- A decode attention whose keys or whose values lie in the buffer of a cache runs behind a barrier
-- that follows the matmul whose store scattered to that cache, whatever stands before, between and
-- after the two.
pub cache-visible :
    (before between after : List ExecOp) (op : MatmulOp) (cache q kt v scratch out : Tensor)
    (d : AttnDecodeDesc)
    → dst op.store ≡ some cache
    → (raw_buffer cache ≡ raw_buffer kt) ⊎ (raw_buffer cache ≡ raw_buffer v)
    → BarrierWithin
        (barriers
          (accesses (before ++ matmul op ∷ (between ++ attn_decode q kt v scratch out d ∷ after))))
        (length (accesses before))
        (length (accesses (before ++ matmul op ∷ between)))
unfolding op_accesses
cache-visible before between after op cache q kt v scratch out d e is =
    let reader = attn_decode q kt v scratch out d in
    let ops = before ++ matmul op ∷ (between ++ reader ∷ after) in
    let same = append_assoc before (matmul op ∷ between) (reader ∷ after) in
    barriers-separate (accesses ops) (length (accesses before))
      (length (accesses (before ++ matmul op ∷ between))) _ _ (position-grows before between op)
      (first_dispatch before (between ++ reader ∷ after) (matmul op) _ _ refl)
      (subst
        (λ ops.
          get_elem? (accesses ops) (length (accesses (before ++ matmul op ∷ between)))
          ≡ some (writes scratch (reads v (reads kt (reads q nothing)))))
        same (first_dispatch (before ++ matmul op ∷ between) after reader _ _ refl))
      (raw (raw_buffer cache) (cache-written op cache e) (read-among is))
  where
    read-among :
        (raw_buffer cache ≡ raw_buffer kt) ⊎ (raw_buffer cache ≡ raw_buffer v)
        → raw_buffer cache ∈ (writes scratch (reads v (reads kt (reads q nothing)))).reads
    read-among (inl k) = inr (inl k)
    read-among (inr k) = inr (inr (inl k))
