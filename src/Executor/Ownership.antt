-- ===== src/Executor/Ownership.antt =====
-- src/executor/validation.rs: what holds of an op whose buffers pass the checks.
use tensor_ash.Prelude.{
  then-ok, ℕ, ◌≡◌, ◌↔◌, true, false, Option, none, some, ok, ◌==◌, arith, refl, contains, Bool,
  if◌then◌else◌, ◌∙◌, [], ◌∷◌,
}
use mathlib.Core.Path.{subst}
use tensor_ash.Tensor.{Tensor, raw_buffer}
use tensor_ash.Matmul.{MatmulCall, MatmulOp}
use tensor_ash.Matmul.Epilogues.{d_of}
use tensor_ash.Matmul.Stores
use tensor_ash.MatmulGraph.Operands.{optional_writes}
use tensor_ash.ExecGraph.{writes, norm_weight, matmul_access, reads}
use tensor_ash.Hazard.{Access, nothing}
use tensor_ash.Executor.Validation.{
  validate_tensor_context, validate_optional, validate_call_context, validate_destination,
  validate_op_context,
}

-- The operand, if there is one, was allocated by the context.
abbrev pub OwnedOption : ℕ → Option Tensor → Type 0
OwnedOption ctx none = Unit
OwnedOption ctx (some t) = t.buffer.context ≡ ctx

-- Neither A nor B lives in the buffer `h`.
abbrev pub ApartFromInputs : MatmulCall → ℕ → Type 0
ApartFromInputs call h = (h == raw_buffer call.a ≡ false) × (h == raw_buffer call.b ≡ false)

abbrev pub ApartOption : MatmulCall → Option Tensor → Type 0
ApartOption call none = Unit
ApartOption call (some d) = ApartFromInputs call (raw_buffer d)

pub record Owned (ctx : ℕ) (op : MatmulOp) : Type 0 where
  pub a : op.call.a.buffer.context ≡ ctx
  pub b : op.call.b.buffer.context ≡ ctx
  pub c : op.call.c.buffer.context ≡ ctx
  pub bias : OwnedOption ctx op.epilogue.bias
  pub d : OwnedOption ctx (d_of op.epilogue.binary)
  pub norm : OwnedOption ctx (norm_weight op)
  pub table : OwnedOption ctx (Stores.table op.store)
  pub dst : OwnedOption ctx (Stores.dst op.store)
  pub output_apart : ApartFromInputs op.call (raw_buffer op.call.c)
  pub dst_apart : ApartOption op.call (Stores.dst op.store)

optional_iff : (ctx : ℕ) (o : Option Tensor) → (validate_optional ctx o ≡ ok tt) ↔ OwnedOption ctx o
unfolding validate_optional validate_tensor_context
optional_iff ctx none = (λ _. tt, λ _. refl)
optional_iff ctx (some t) = (λ e. ground arith, λ e. ground arith)

destination_iff :
    (call : MatmulCall) (o : Option Tensor)
    → (validate_destination call o ≡ ok tt) ↔ ApartOption call o
unfolding validate_destination
destination_iff call none = (λ _. tt, λ _. refl)
destination_iff call (some t) = (λ e. ground arith, λ e. ground arith)

call_iff :
    (ctx : ℕ) (call : MatmulCall)
    → (validate_call_context ctx call ≡ ok tt) ↔ (
        (call.a.buffer.context ≡ ctx)
        × (call.b.buffer.context ≡ ctx)
        × (call.c.buffer.context ≡ ctx)
        × ApartFromInputs call (raw_buffer call.c))
unfolding validate_call_context validate_tensor_context
call_iff ctx call = (λ e. ground arith, λ e. ground arith)

-- The checks of an op pass exactly when every tensor that it names was allocated by the executor's
-- context, C shares no buffer with A or B, and the destination of its fused store, if there is
-- one, shares none with A or B either.
pub validate_op_context_iff :
    (ctx : ℕ) (op : MatmulOp) → (validate_op_context ctx op ≡ ok tt) ↔ Owned ctx op
unfolding validate_op_context
validate_op_context_iff ctx op = (
  λ e.
      let (called, e1) = then-ok _ _ e in
      let (bias, e2) = then-ok _ _ e1 in
      let (d, e3) = then-ok _ _ e2 in
      let (norm, e4) = then-ok _ _ e3 in
      let (table, e5) = then-ok _ _ e4 in
      let (dst, apart) = then-ok _ _ e5 in
      let (a, b, c, output) = (call_iff ctx op.call).0 called in
      record {
        a = a;
        b = b;
        c = c;
        bias = (optional_iff ctx op.epilogue.bias).0 bias;
        d = (optional_iff ctx (d_of op.epilogue.binary)).0 d;
        norm = (optional_iff ctx (norm_weight op)).0 norm;
        table = (optional_iff ctx (Stores.table op.store)).0 table;
        dst = (optional_iff ctx (Stores.dst op.store)).0 dst;
        output_apart = output;
        dst_apart = (destination_iff op.call (Stores.dst op.store)).0 apart;
      },
  λ o.
      rw
        (
          (call_iff ctx op.call).1 (o.a, o.b, o.c, o.output_apart),
          (optional_iff ctx op.epilogue.bias).1 o.bias,
          (optional_iff ctx (d_of op.epilogue.binary)).1 o.d,
          (optional_iff ctx (norm_weight op)).1 o.norm,
          (optional_iff ctx (Stores.table op.store)).1 o.table,
          (optional_iff ctx (Stores.dst op.store)).1 o.dst,
          (destination_iff op.call (Stores.dst op.store)).1 o.dst_apart,
        )
        refl,
)

-- The buffer that a product with this destination writes: the destination, or else C.
abbrev pub target : Option Tensor → Tensor → ℕ
target o c = elim o [ some t ↦ raw_buffer t | none ↦ raw_buffer c ]

result-writes :
    (o : Option Tensor) (c : Tensor) (a : Access)
    → a.writes ≡ []
    → (elim o as (λ _. Access) [ some t ↦ writes t a | none ↦ writes c a ]).writes ≡ target o c ∷ []
result-writes none c a e = rw e refl
result-writes (some t) c a e = rw e refl

accumulated-writes :
    (x : Bool) (t : Tensor) (a : Access) → (if x then reads t a else a).writes ≡ a.writes
accumulated-writes true t a = refl
accumulated-writes false t a = refl

access_writes :
    (op : MatmulOp) → (matmul_access op).writes ≡ target (Stores.dst op.store) op.call.c ∷ []
unfolding matmul_access
access_writes op =
    optional_writes (norm_weight op) _
    ∙ optional_writes (d_of op.epilogue.binary) _
    ∙ optional_writes op.epilogue.bias _
    ∙ accumulated-writes op.call.accumulate op.call.c _
    ∙ optional_writes (Stores.table op.store) _
    ∙ result-writes (Stores.dst op.store) op.call.c (reads op.call.b (reads op.call.a nothing)) refl

contains-single : (x h : ℕ) → contains (x ∷ []) h ≡ true → h == x ≡ true
unfolding contains
contains-single x h e = ground arith

target-apart :
    (call : MatmulCall) (o : Option Tensor) (h : ℕ)
    → h == target o call.c ≡ true
    → ApartFromInputs call (raw_buffer call.c)
    → ApartOption call o
    → ApartFromInputs call h
target-apart call none h e c d = ground arith
target-apart call (some t) h e c d = ground arith

-- What an op that passes the checks writes is apart from what it multiplies: its one written
-- buffer, by the accesses that order the dispatches, is neither A's nor B's.
pub validate_op_context-writes_apart :
    (ctx : ℕ) (op : MatmulOp) (h : ℕ)
    → validate_op_context ctx op ≡ ok tt
    → contains (matmul_access op).writes h ≡ true
    → ApartFromInputs op.call h
validate_op_context-writes_apart ctx op h e written =
    let o = (validate_op_context_iff ctx op).0 e in
    target-apart op.call (Stores.dst op.store) h
      (contains-single _ h (subst (λ w. contains w h ≡ true) (access_writes op) written))
      o.output_apart o.dst_apart
