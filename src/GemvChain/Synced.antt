-- ===== src/GemvChain/Synced.antt =====
-- src/executor/elementwise/gemv_chain.rs: dependent jobs of a chain are kept apart.
use tensor_ash.Prelude.{
  ℕ, zero, suc, ◌≤◌, ◌≡◌, refl, sym, ap, ◌⊎◌, inl, inr, Bool, true, false, if◌then◌else◌, Option,
  none, some, List, [], ◌∷◌, ◌++◌, ◌∈◌, get_elem?, some-eq, arith,
}
use mathlib.Core.Path.{subst}
use tensor_ash.Matmul.{MatmulOp}
use tensor_ash.Tensor.{Tensor, raw_buffer}
use tensor_ash.Matmul.Epilogues.{add_scaled, mul, d_of}
use tensor_ash.ExecGraph.{norm_weight}
use tensor_ash.Hazard.{Access}
use tensor_ash.Hazard.Separation.{
  raw, waw, war, Conflicts, mem-append_left, mem-append_right, contains-mem, any_in-mem,
}
use tensor_ash.GemvChain.{
  job_reads, job_writes, push, any_in_either, jobs_hazard, sync_from, sync_flags,
}

-- What a job touches, by the lists of the source.
abbrev touched : MatmulOp → Access
touched op = record { reads = job_reads op; writes = job_writes op }

either-finds :
    (ws rs bs : List ℕ) (h : ℕ) → (h ∈ ws) ⊎ (h ∈ rs) → h ∈ bs → any_in_either ws rs bs ≡ true
unfolding any_in_either
either-finds ws rs [] h m b = elim b [ ]
either-finds ws rs (x ∷ bs) h (inl w) (inl e) = ground (arith, contains-mem ws h w)
either-finds ws rs (x ∷ bs) h (inr r) (inl e) = ground (arith, contains-mem rs h r)
either-finds ws rs (x ∷ bs) h m (inr b) = ground (arith, either-finds ws rs bs h m b)

head-finds :
    (x y : MatmulOp) (prior : List MatmulOp)
    → Conflicts (touched x) (touched y)
    → jobs_hazard (x ∷ prior) y ≡ true
unfolding jobs_hazard
head-finds x y prior (raw h w r) = ground (arith, any_in-mem (job_writes x) (job_reads y) h w r)
head-finds x y prior (waw h w v) =
    ground (arith, either-finds (job_writes x) (job_reads x) (job_writes y) h (inl w) v)
head-finds x y prior (war h r w) =
    ground (arith, either-finds (job_writes x) (job_reads x) (job_writes y) h (inr r) w)

abbrev Among : MatmulOp → List MatmulOp → Type 0
Among x [] = ⊥
Among x (y ∷ ys) = (y ≡ x) ⊎ Among x ys

later-finds :
    (z : MatmulOp) (prior : List MatmulOp) (y : MatmulOp)
    → jobs_hazard prior y ≡ true
    → jobs_hazard (z ∷ prior) y ≡ true
unfolding jobs_hazard
later-finds z prior y e = ground (arith, e)

hazard-finds :
    (prior : List MatmulOp) (x y : MatmulOp)
    → Among x prior
    → Conflicts (touched x) (touched y)
    → jobs_hazard prior y ≡ true
hazard-finds [] x y m k = elim m [ ]
hazard-finds (z ∷ prior) x y (inl e) k =
    subst (λ w. jobs_hazard (w ∷ prior) y ≡ true) (sym e) (head-finds x y prior k)
hazard-finds (z ∷ prior) x y (inr m) k = later-finds z prior y (hazard-finds prior x y m k)

Among-left : (x : MatmulOp) (xs ys : List MatmulOp) → Among x xs → Among x (xs ++ ys)
Among-left x [] ys m = elim m [ ]
Among-left x (z ∷ xs) ys (inl e) = inl e
Among-left x (z ∷ xs) ys (inr m) = inr (Among-left x xs ys m)

Among-last : (x : MatmulOp) (xs : List MatmulOp) → Among x (xs ++ x ∷ [])
Among-last x [] = inl refl
Among-last x (z ∷ xs) = inr (Among-last x xs)

-- A job that conflicts with one of the prior ones has the flag set before it.
caught :
    (prior jobs : List MatmulOp) (j : ℕ) (x y : MatmulOp)
    → Among x prior
    → get_elem? jobs (suc j) ≡ some y
    → Conflicts (touched x) (touched y)
    → get_elem? (sync_from prior jobs) j ≡ some true
unfolding sync_from
caught prior [] j x y m at k = absurd (ground (arith, at))
caught prior (job ∷ []) j x y m at k = absurd (ground (arith, at))
caught prior (job ∷ next ∷ rest) zero x y m at k = ap some (
    hazard-finds (prior ++ job ∷ []) x next (Among-left x prior (job ∷ []) m)
      (subst (λ w. Conflicts (touched x) (touched w)) (sym (some-eq at)) k))
caught prior (job ∷ next ∷ rest) (suc j) x y m at k =
    caught (prior ++ job ∷ []) (next ∷ rest) j x y (Among-left x prior (job ∷ []) m) at k

from-synced :
    (prior jobs : List MatmulOp) (i j : ℕ) (x y : MatmulOp)
    → i ≤ j
    → get_elem? jobs i ≡ some x
    → get_elem? jobs (suc j) ≡ some y
    → Conflicts (touched x) (touched y)
    → get_elem? (sync_from prior jobs) j ≡ some true
unfolding sync_from
from-synced prior [] i j x y le at_i at_j k = absurd (ground (arith, at_j))
from-synced prior (job ∷ []) i j x y le at_i at_j k = absurd (ground (arith, at_j))
from-synced prior (job ∷ next ∷ rest) zero zero x y le at_i at_j k = ap some (
    hazard-finds (prior ++ job ∷ []) job next (Among-last job prior) (
      subst (λ w. Conflicts (touched job) (touched w)) (sym (some-eq at_j))
        (subst (λ w. Conflicts (touched w) (touched y)) (sym (some-eq at_i)) k)))
from-synced prior (job ∷ next ∷ rest) zero (suc j) x y le at_i at_j k =
    caught (prior ++ job ∷ []) (next ∷ rest) j job y (Among-last job prior) at_j
      (subst (λ w. Conflicts (touched w) (touched y)) (sym (some-eq at_i)) k)
from-synced prior (job ∷ next ∷ rest) (suc i) zero x y le at_i at_j k = absurd (omega arith)
from-synced prior (job ∷ next ∷ rest) (suc i) (suc j) x y le at_i at_j k =
    from-synced (prior ++ job ∷ []) (next ∷ rest) i j x y (omega arith) at_i at_j k

-- The buffers that the kernel reads for a job: A, B, the norm weight, D, and C to accumulate.
pub data Reads (op : MatmulOp) (h : ℕ) : Type 0 where
  reads_a : raw_buffer op.call.a ≡ h → Reads op h
  reads_b : raw_buffer op.call.b ≡ h → Reads op h
  reads_norm : (w : Tensor) (eps : ℕ) → op.normed_a ≡ some (w, eps) → raw_buffer w ≡ h → Reads op h
  reads_addend :
      (d : Tensor) (beta : ℕ)
      → op.epilogue.binary ≡ add_scaled d beta
      → raw_buffer d ≡ h
      → Reads op h
  reads_factor : (d : Tensor) → op.epilogue.binary ≡ mul d → raw_buffer d ≡ h → Reads op h
  reads_c : op.call.accumulate ≡ true → raw_buffer op.call.c ≡ h → Reads op h

-- It writes C.
abbrev pub Writes : MatmulOp → ℕ → Type 0
Writes op h = raw_buffer op.call.c ≡ h

-- The jobs touch a buffer that at least one of them writes.
pub data Dependent (x y : MatmulOp) (h : ℕ) : Type 0 where
  read_after : Writes x h → Reads y h → Dependent x y h
  write_after : Writes x h → Writes y h → Dependent x y h
  write_over : Reads x h → Writes y h → Dependent x y h

pushed-before : (o : Option Tensor) (xs : List ℕ) (h : ℕ) → h ∈ xs → h ∈ push o xs
pushed-before none xs h m = m
pushed-before (some t) xs h m = mem-append_left xs (raw_buffer t ∷ []) h m

pushed-last : (o : Option Tensor) (t : Tensor) (xs : List ℕ) → o ≡ some t → raw_buffer t ∈ push o xs
pushed-last o t xs e =
    subst (λ z. raw_buffer t ∈ push z xs) (sym e)
      (mem-append_right xs (raw_buffer t ∷ []) (raw_buffer t) (inl refl))

kept-before : (b : Bool) (c h : ℕ) (xs : List ℕ) → h ∈ xs → h ∈ (if b then xs ++ c ∷ [] else xs)
kept-before true c h xs m = mem-append_left xs (c ∷ []) h m
kept-before false c h xs m = m

kept-last : (b : Bool) (c : ℕ) (xs : List ℕ) → b ≡ true → c ∈ (if b then xs ++ c ∷ [] else xs)
kept-last true c xs e = mem-append_right xs (c ∷ []) c (inl refl)
kept-last false c xs e = cc

norm-is :
    (op : MatmulOp) (w : Tensor) (eps : ℕ) → op.normed_a ≡ some (w, eps) → norm_weight op ≡ some w
norm-is op w eps e =
    ap
      (λ (o : Option (Tensor × ℕ)). elim o as (λ x. Option Tensor) [
        | none ↦ none
        | some p ↦ some p.0
      ])
      e

-- The list of the source has every buffer that the kernel reads.
Reads-listed : (op : MatmulOp) (h : ℕ) → Reads op h → h ∈ job_reads op
unfolding job_reads
Reads-listed op h r = listed r
  where
    c : ℕ
    c = raw_buffer op.call.c

    operands : List ℕ
    operands = raw_buffer op.call.a ∷ raw_buffer op.call.b ∷ []

    with_d : List ℕ
    with_d = push (d_of op.epilogue.binary) operands

    among : (t : ℕ) → t ≡ h → t ∈ push (norm_weight op) with_d → h ∈ job_reads op
    among t k m =
        subst (λ z. z ∈ job_reads op) k
          (kept-before op.call.accumulate c t (push (norm_weight op) with_d) m)

    addend : (d : Tensor) → d_of op.epilogue.binary ≡ some d → raw_buffer d ≡ h → h ∈ job_reads op
    addend d e k = among (raw_buffer d) k (
        pushed-before (norm_weight op) with_d (raw_buffer d)
          (pushed-last (d_of op.epilogue.binary) d operands e))

    operand : (t : ℕ) → t ≡ h → t ∈ operands → h ∈ job_reads op
    operand t k m = among t k (
        pushed-before (norm_weight op) with_d t
          (pushed-before (d_of op.epilogue.binary) operands t m))

    listed : Reads op h → h ∈ job_reads op
    listed (reads_a k) = operand (raw_buffer op.call.a) k (inl refl)
    listed (reads_b k) = operand (raw_buffer op.call.b) k (inr (inl refl))
    listed (reads_norm w eps e k) =
        among (raw_buffer w) k (pushed-last (norm_weight op) w with_d (norm-is op w eps e))
    listed (reads_addend d beta e k) = addend d (ap d_of e) k
    listed (reads_factor d e k) = addend d (ap d_of e) k
    listed (reads_c e k) =
        subst (λ z. z ∈ job_reads op) k
          (kept-last op.call.accumulate c (push (norm_weight op) with_d) e)

shared_buffer : (x y : MatmulOp) (h : ℕ) → Dependent x y h → Conflicts (touched x) (touched y)
unfolding job_writes
shared_buffer x y h (read_after w r) = raw h (inl (sym w)) (Reads-listed y h r)
shared_buffer x y h (write_after w v) = waw h (inl (sym w)) (inl (sym v))
shared_buffer x y h (write_over r w) = war h (Reads-listed x h r) (inl (sym w))

-- A job of a chain that shares a buffer with any earlier job, where one of the two writes it as its
-- C and the other writes it or reads it (as A, B, the norm weight, D, or C to accumulate), has the
-- flag to wait set on the job directly before it.
pub sync_flags-separate :
    (jobs : List MatmulOp) (i j h : ℕ) (x y : MatmulOp)
    → i ≤ j
    → get_elem? jobs i ≡ some x
    → get_elem? jobs (suc j) ≡ some y
    → Dependent x y h
    → get_elem? (sync_flags jobs) j ≡ some true
sync_flags-separate jobs i j h x y le at_i at_j k =
    from-synced [] jobs i j x y le at_i at_j (shared_buffer x y h k)
