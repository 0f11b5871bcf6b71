-- ===== src/Mir/Validate.antt =====
-- `Validate` of compiler/mir/mir.go, with `validateW15Inst` and `validateW16Inst`.
use fuse.Prelude.{
  ℕ, ◌+◌, Bool, true, false, not, ◌==◌, if◌then◌else◌, List, [], ◌∷◌, length, none, some, Bytes,
}
use fuse.Prelude.Int.{is_negative}
use fuse.Mir.Types.{
  Op, const_int, add, sub, mul, div, mod_op, param, call, drop, cast, borrow, fn_ptr, call_indirect,
  slice_new, field_read, struct_new, struct_copy, field_write, method_call, eq_scalar, eq_call,
  wrapping_add, wrapping_sub, wrapping_mul, checked_add, checked_sub, checked_mul, saturating_add,
  saturating_sub, saturating_mul, spawn, thread_join, chan_new, chan_send, chan_recv, chan_close,
  panic, StructField, CastMode, unknown, Inst, Terminator, term_return, term_jump, term_if_eq,
  term_unreachable, Block, Function, Reason, no_destination, missing_register, negative_param,
  empty_name, no_receiver, wrong_arity, invalid_cast, unknown_cast, unknown_op, no_value, no_target,
  observable_return, bad_terminator, undefined, Fault, Result, ok, err, ◌>>=◌, ◌>>◌, reject,
  at_place,
}

-- The map `defined`, as the list of the registers whose value is true.
abbrev pub Regs : Type 0
Regs = List ℕ

unfoldable pub is_defined : Regs → ℕ → Bool
is_defined [] r = false
is_defined (x ∷ xs) r = if x == r then true else is_defined xs r

abbrev pub is_empty : Bytes → Bool
is_empty [] = true
is_empty (_ ∷ _) = false

-- `!defined[r]`.
abbrev pub need_defined : Regs → ℕ → Result Reason (Unit {0})
need_defined d r = reject (not (is_defined d r)) (undefined r)

-- `r == NoReg || !defined[r]`.
abbrev pub need_reg : Regs → ℕ → Result Reason (Unit {0})
need_reg d r = reject (if r == 0 then true else not (is_defined d r)) (undefined r)

-- `r != NoReg && !defined[r]`.
abbrev pub need_optional : Regs → ℕ → Result Reason (Unit {0})
need_optional d r = reject (if r == 0 then false else not (is_defined d r)) (undefined r)

unfoldable pub need_args : Regs → List ℕ → Result Reason (Unit {0})
need_args d [] = ok tt
need_args d (a ∷ args) = do need_defined d a; need_args d args

unfoldable pub need_fields : Regs → List StructField → Result Reason (Unit {0})
need_fields d [] = ok tt
need_fields d (f ∷ fields) = do need_optional d f.value; need_fields d fields

abbrev need_dst : Inst → Result Reason (Unit {0})
need_dst i = reject (i.dst == 0) no_destination

abbrev need_name : Bytes → Result Reason (Unit {0})
need_name name = reject (is_empty name) empty_name

-- `defined[in.Dst] = true`.
abbrev define : Regs → Inst → Result Reason Regs
define d i = ok (i.dst ∷ d)

-- Arithmetic on two registers, all three present.
binary : Regs → Inst → Result Reason Regs
binary d i = do
  reject (if i.dst == 0 then true else if i.lhs == 0 then true else i.rhs == 0) missing_register
  need_defined d i.lhs
  need_defined d i.rhs
  define d i

need_cast_mode : CastMode → Result Reason (Unit {0})
need_cast_mode CastMode.invalid = err invalid_cast
need_cast_mode (unknown n) = err unknown_cast
need_cast_mode _ = ok tt

need_receiver : List ℕ → Result Reason (Unit {0})
need_receiver [] = err no_receiver
need_receiver (_ ∷ _) = ok tt

-- One register read, one written.
unary : Regs → Inst → Result Reason Regs
unary d i = do need_dst i; need_reg d i.lhs; define d i

-- Two registers read, one written.
pair : Regs → Inst → Result Reason Regs
pair d i = do need_dst i; need_reg d i.lhs; need_reg d i.rhs; define d i

-- A name and arguments, the result written.
named_call : Regs → Inst → Result Reason Regs
named_call d i = do need_dst i; need_name i.call_name; need_args d i.call_args; define d i

-- The switch over the opcode. The list of defined registers comes back with the destination.
unfoldable pub check_op : Op → Regs → Inst → Result Reason Regs
unfolding binary unary pair named_call need_cast_mode need_receiver need_args need_fields is_defined
check_op const_int d i = do need_dst i; define d i
check_op add d i = binary d i
check_op sub d i = binary d i
check_op mul d i = binary d i
check_op div d i = binary d i
check_op mod_op d i = binary d i
check_op param d i = do need_dst i; reject (is_negative i.param_index) negative_param; define d i
check_op call d i = named_call d i
check_op drop d i = do need_name i.call_name; need_optional d i.lhs; ok d
check_op cast d i = do need_dst i; need_reg d i.lhs; need_cast_mode i.mode; define d i
check_op borrow d i = unary d i
check_op fn_ptr d i = do need_dst i; need_name i.call_name; define d i
check_op call_indirect d i = do need_dst i; need_reg d i.lhs; need_args d i.call_args; define d i
check_op slice_new d i = do
  need_dst i
  need_reg d i.lhs
  need_optional d i.rhs
  need_optional d i.extra
  define d i
check_op field_read d i = do need_dst i; need_reg d i.lhs; need_name i.field_name; define d i
check_op struct_new d i = do need_dst i; need_name i.call_name; need_fields d i.fields; define d i
check_op struct_copy d i = unary d i
check_op field_write d i = do need_reg d i.lhs; need_reg d i.rhs; need_name i.field_name; ok d
check_op method_call d i = do
  need_dst i
  need_name i.call_name
  need_receiver i.call_args
  need_args d i.call_args
  define d i
check_op eq_scalar d i = pair d i
check_op eq_call d i = do
  need_dst i
  need_name i.call_name
  reject (not (length i.call_args == 2)) wrong_arity
  need_args d i.call_args
  define d i
check_op wrapping_add d i = binary d i
check_op wrapping_sub d i = binary d i
check_op wrapping_mul d i = binary d i
check_op checked_add d i = binary d i
check_op checked_sub d i = binary d i
check_op checked_mul d i = binary d i
check_op saturating_add d i = binary d i
check_op saturating_sub d i = binary d i
check_op saturating_mul d i = binary d i
check_op spawn d i = named_call d i
check_op thread_join d i = unary d i
check_op chan_new d i = pair d i
check_op chan_send d i = pair d i
check_op chan_recv d i = pair d i
check_op chan_close d i = do need_reg d i.lhs; ok d
check_op panic d i = do need_name i.call_name; ok d
check_op _ d i = err unknown_op

-- The switch over the terminator.
unfoldable pub check_term : Terminator → Regs → Block → Result Reason (Unit {0})
unfolding is_defined
check_term term_return d b = do reject (b.return_reg == 0) no_value; need_defined d b.return_reg
check_term term_jump d b = reject (b.jump_target == 0) no_target
check_term term_if_eq d b = do
  need_defined d b.branch_reg
  reject (if b.true_target == 0 then true else b.false_target == 0) no_target
check_term term_unreachable d b = reject (not (b.return_reg == 0)) observable_return
check_term _ d b = err bad_terminator

-- The loop over the instructions of a block, from the one at index `n` on.
unfoldable pub check_insts : ℕ → ℕ → Regs → List Inst → Result Fault Regs
unfolding check_op
check_insts block n d [] = ok d
check_insts block n d (i ∷ insts) = do
  e ← at_place block (some n) (check_op i.op d i)
  check_insts block (n + 1) e insts

-- The loop over the blocks. The registers of earlier blocks stay defined.
unfoldable pub check_blocks : Regs → List Block → Result Fault Regs
unfolding check_insts check_term
check_blocks d [] = ok d
check_blocks d (b ∷ blocks) = do
  e ← check_insts b.id 0 d b.insts
  at_place b.id none (check_term b.term e b)
  check_blocks e blocks

-- `Validate`.
unfoldable pub validate : Function → Result Fault (Unit {0})
unfolding check_blocks
validate f = do _ ← check_blocks [] f.blocks; ok tt
