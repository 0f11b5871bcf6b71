-- ===== src/Mir/Types.antt =====
-- compiler/mir/mir.go, w15_ops.go and w16_ops.go: instructions, blocks and functions.
use fuse.Prelude.{ℕ, Bool, true, false, List, Bytes, Option, String}
use fuse.Prelude.Int.{ℤ}

-- `Op`. A number that no constant names is `other`.
pub data Op : Type 0 where
  invalid const_int add sub mul div mod_op param call drop cast borrow fn_ptr : Op
  call_indirect slice_new field_read struct_new struct_copy field_write method_call : Op
  eq_scalar eq_call wrapping_add wrapping_sub wrapping_mul checked_add checked_sub : Op
  checked_mul saturating_add saturating_sub saturating_mul spawn thread_join chan_new : Op
  chan_send chan_recv chan_close panic : Op
  other : ℕ → Op

-- `String` of `Op`.
pub op_name : Op → String
op_name invalid = "invalid"
op_name const_int = "const_int"
op_name add = "add"
op_name sub = "sub"
op_name mul = "mul"
op_name div = "div"
op_name mod_op = "mod"
op_name param = "param"
op_name call = "call"
op_name drop = "drop"
op_name cast = "cast"
op_name borrow = "borrow"
op_name fn_ptr = "fn_ptr"
op_name call_indirect = "call_indirect"
op_name slice_new = "slice_new"
op_name field_read = "field_read"
op_name struct_new = "struct_new"
op_name struct_copy = "struct_copy"
op_name field_write = "field_write"
op_name method_call = "method_call"
op_name eq_scalar = "eq_scalar"
op_name eq_call = "eq_call"
op_name wrapping_add = "wrapping_add"
op_name wrapping_sub = "wrapping_sub"
op_name wrapping_mul = "wrapping_mul"
op_name checked_add = "checked_add"
op_name checked_sub = "checked_sub"
op_name checked_mul = "checked_mul"
op_name saturating_add = "saturating_add"
op_name saturating_sub = "saturating_sub"
op_name saturating_mul = "saturating_mul"
op_name spawn = "spawn"
op_name thread_join = "thread_join"
op_name chan_new = "chan_new"
op_name chan_send = "chan_send"
op_name chan_recv = "chan_recv"
op_name chan_close = "chan_close"
op_name panic = "panic"
op_name (other n) = "unknown"

-- `StructField`. A register is a number, and 0 is `NoReg`.
pub record StructField : Type 0 where
  pub name : Bytes
  pub value : ℕ

-- `CastMode`. A number past the last constant is `unknown`.
pub data CastMode : Type 0 where
  invalid widen narrow reinterpret float_to_int int_to_float ptr_to_int int_to_ptr : CastMode
  unknown : ℕ → CastMode

-- `Inst`.
pub record Inst : Type 0 where
  pub op : Op
  pub dst : ℕ
  pub lhs : ℕ
  pub rhs : ℕ
  pub int_value : ℤ
  pub param_index : ℤ
  pub call_name : Bytes
  pub call_args : List ℕ
  pub mode : CastMode
  pub flag : Bool
  pub extra : ℕ
  pub field_name : Bytes
  pub fields : List StructField
  pub line : ℕ

-- `Terminator`. A number that no constant names is `other`.
pub data Terminator : Type 0 where
  term_invalid term_return term_jump term_if_eq term_unreachable : Terminator
  other_term : ℕ → Terminator

-- `Block`. A block id is a number, and 0 is `NoBlock`.
pub record Block : Type 0 where
  pub id : ℕ
  pub insts : List Inst
  pub term : Terminator
  pub return_reg : ℕ
  pub jump_target : ℕ
  pub branch_reg : ℕ
  pub branch_const : ℤ
  pub true_target : ℕ
  pub false_target : ℕ

-- `Function`.
pub record Function : Type 0 where
  pub name : Bytes
  pub module_name : Bytes
  pub num_regs : ℕ
  pub num_params : ℕ
  pub blocks : List Block

-- What a check of the MIR finds wrong. The texts name the instruction's kind too, which its place
-- in the function tells.
pub data Reason : Type 0 where
  no_destination missing_register negative_param empty_name no_receiver wrong_arity : Reason
  invalid_cast unknown_cast unknown_op no_value no_target observable_return bad_terminator : Reason
  undefined : ℕ → Reason
  consumed : ℕ → ℕ → Reason

-- The block's id, the index of the instruction (none for the terminator) and the reason.
pub record Fault : Type 0 where
  pub block : ℕ
  pub inst : Option ℕ
  pub why : Reason

pub data Result {ℓ} (E : Type 0) (A : Type ℓ) : Type ℓ where
  err : E → Result E A
  ok : A → Result E A

module _ {ℓ} {E : Type 0} {B : Type ℓ} where
  infixl 5 ◌>>=◌ ◌>>◌
  abbrev pub ◌>>=◌ {κ} : {A : Type κ} → Result E A → (A → Result E B) → Result E B
  err fault >>= next = err fault
  ok result >>= next = next result

  -- The rest, behind a check that returns nothing.
  abbrev pub ◌>>◌ : Result E (Unit {0}) → Result E B → Result E B
  check >> next = check >>= λ _. next

-- `if bad { return error }`.
abbrev pub reject : Bool → Reason → Result Reason (Unit {0})
reject true why = err why
reject false why = ok tt

abbrev pub at_place {ℓ} : {A : Type ℓ} → ℕ → Option ℕ → Result Reason A → Result Fault A
at_place block inst (ok a) = ok a
at_place block inst (err why) = err (record { block = block; inst = inst; why = why })
