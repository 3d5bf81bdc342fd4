-- ===== src/MatmulGraph/Operands.antt =====
-- src/executor/graph_ops.rs: the accesses of a matmul without a fused store, operand by operand.
use tensor_ash.Prelude.{
  ℕ, ◌≡◌, refl, inl, inr, Bool, false, ◌&&◌, ◌||◌, List, [], ◌∷◌, ◌++◌, Option, some, none,
  contains, if◌then◌else◌, arith, Bool-cases, ◌==◌,
}
use tensor_ash.Tensor.{Tensor, raw_buffer}
use tensor_ash.Matmul.{MatmulOp}
use tensor_ash.Matmul.Epilogues.{d_of}
use tensor_ash.Matmul.Stores.{no_store}
use tensor_ash.Hazard.{Access, any_in, hazard_with}
use tensor_ash.ExecGraph.{matmul_access, norm_weight, reads_optional, reads}
use tensor_ash.MatmulGraph.{Tracked, needs_barrier, optional_in, extend_optional}

pub contains-append :
    (xs ys : List ℕ) (h : ℕ) → contains (xs ++ ys) h ≡ (contains xs h || contains ys h)
unfolding contains
contains-append [] ys h = refl
contains-append (x ∷ xs) ys h = grind (arith, contains-append xs ys h)

pub any_in-append : (p xs ys : List ℕ) → any_in p (xs ++ ys) ≡ (any_in p xs || any_in p ys)
unfolding any_in
any_in-append p [] ys = refl
any_in-append p (x ∷ xs) ys = grind (arith, any_in-append p xs ys)

-- `h` is the handle of an operand.
abbrev pub optional_is : ℕ → Option Tensor → Bool
optional_is h none = false
optional_is h (some t) = h == raw_buffer t

pub optional-any :
    (p : List ℕ) (o : Option Tensor) (a : Access)
    → any_in p (reads_optional o a).reads ≡ (any_in p a.reads || optional_in p o)
unfolding any_in
optional-any p none a = grind arith
optional-any p (some t) a = grind (arith, any_in-append p a.reads (raw_buffer t ∷ []))

pub optional-contains :
    (o : Option Tensor) (a : Access) (h : ℕ)
    → contains (reads_optional o a).reads h ≡ (contains a.reads h || optional_is h o)
unfolding contains
optional-contains none a h = grind arith
optional-contains (some t) a h = grind (arith, contains-append a.reads (raw_buffer t ∷ []) h)

pub extend-contains :
    (xs : List ℕ) (o : Option Tensor) (h : ℕ)
    → contains (extend_optional xs o) h ≡ (contains xs h || optional_is h o)
unfolding contains
extend-contains xs none h = grind arith
extend-contains xs (some t) h = grind (arith, contains-append xs (raw_buffer t ∷ []) h)

pub optional_writes : (o : Option Tensor) (a : Access) → (reads_optional o a).writes ≡ a.writes
optional_writes none a = refl
optional_writes (some t) a = refl

abbrev pub base : MatmulOp → Access
base op = record {
  reads = raw_buffer op.call.a ∷ raw_buffer op.call.b ∷ [];
  writes = raw_buffer op.call.c ∷ [];
}

abbrev pub accumulated : MatmulOp → Access
accumulated op = if op.call.accumulate then reads op.call.c (base op) else base op

-- The accesses of a matmul without a fused store.
abbrev pub plain_access : MatmulOp → Access
plain_access op =
    reads_optional (norm_weight op)
      (reads_optional (d_of op.epilogue.binary) (reads_optional op.epilogue.bias (accumulated op)))

pub plain-access : (op : MatmulOp) → op.store ≡ no_store → matmul_access op ≡ plain_access op
unfolding matmul_access
plain-access op e = rw e

pub accumulated-any :
    (op : MatmulOp) (p : List ℕ)
    → any_in p (accumulated op).reads ≡ (
        contains p (raw_buffer op.call.a)
        || contains p (raw_buffer op.call.b)
        || (op.call.accumulate && contains p (raw_buffer op.call.c)))
unfolding any_in
accumulated-any op p = elim (Bool-cases op.call.accumulate) [
  | inl e ↦ rw e (grind arith)
  | inr e ↦ rw e (grind arith)
]

pub accumulated-contains :
    (op : MatmulOp) (h : ℕ)
    → contains (accumulated op).reads h ≡ (
        h == raw_buffer op.call.a
        || h == raw_buffer op.call.b
        || (op.call.accumulate && h == raw_buffer op.call.c))
unfolding contains
accumulated-contains op h = elim (Bool-cases op.call.accumulate) [
  | inl e ↦ rw e (grind arith)
  | inr e ↦ rw e (grind arith)
]

pub plain-writes : (op : MatmulOp) → (plain_access op).writes ≡ raw_buffer op.call.c ∷ []
plain-writes op =
    rw
      (
        optional_writes (norm_weight op) _,
        optional_writes (d_of op.epilogue.binary) _,
        optional_writes op.epilogue.bias _,
      )
      (elim (Bool-cases op.call.accumulate) [ inl e ↦ rw e refl | inr e ↦ rw e refl ])

pub plain-hazard :
    (op : MatmulOp) (p r : List ℕ) (s : Tracked)
    → p ≡ s.written
    → ((h : ℕ) → (contains p h || contains r h) ≡ (contains s.written h || contains s.read h))
    → hazard_with (plain_access op) p r ≡ needs_barrier s op
unfolding hazard_with needs_barrier any_in
plain-hazard op p r s same agree =
    let c = raw_buffer op.call.c in
    rw (plain-writes op) (
      grind (
        arith,
        agree c,
        same,
        any_in-append p (plain_access op).reads (c ∷ []),
        optional-any p (norm_weight op) (
            reads_optional (d_of op.epilogue.binary)
              (reads_optional op.epilogue.bias (accumulated op))),
        optional-any p (d_of op.epilogue.binary) (reads_optional op.epilogue.bias (accumulated op)),
        optional-any p op.epilogue.bias (accumulated op),
        accumulated-any op p,
      ))
