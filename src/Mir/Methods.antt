-- ===== src/Mir/Methods.antt =====
-- The methods of the Builder that emit one instruction: compiler/mir/mir.go, w15_builder.go and
-- w16_builder.go.
use fuse.Prelude.{
  ℕ, suc, Bool, true, false, ltb, ◌==◌, if◌then◌else◌, List, [], ◌∷◌, Option, none, some, Bytes,
}
use fuse.Prelude.Int.{ℤ, pos, negsuc}
use fuse.Mir.Types.{Op, StructField, CastMode}
use fuse.Mir.Validate.{is_empty}
use fuse.Mir.Builder.{Builder, Done, Made, bare, emit, append_inst}

-- `if bad { panic(...) }`.
abbrev pub unless {ℓ} : {A : Type ℓ} → Bool → Option A → Option A
unless true x = none
unless false x = x

-- `ConstInt`.
abbrev pub const_int : ℤ → Builder → Made
const_int value b = emit (record (bare Op.const_int) { int_value = value }) b

abbrev pub is_binary : Op → Bool
is_binary Op.add = true
is_binary Op.sub = true
is_binary Op.mul = true
is_binary Op.div = true
is_binary Op.mod_op = true
is_binary _ = false

-- `Binary`.
abbrev pub binary : Op → ℕ → ℕ → Builder → Made
binary o lhs rhs b = if is_binary o then emit (record (bare o) { lhs = lhs; rhs = rhs }) b else none

-- `if index+1 > b.fn.NumParams { b.fn.NumParams = index + 1 }`.
unfoldable pub count_param : ℤ → Builder → Builder
count_param (negsuc n) b = b
count_param (pos n) b =
    if ltb b.fn.num_params (suc n) then record b { fn = record b.fn { num_params = suc n } } else b

abbrev pub counting : ℤ → Made → Made
counting index none = none
counting index (some (r, b)) = some (r, count_param index b)

-- `Param`.
abbrev pub param : ℤ → Builder → Made
param index b = counting index (emit (record (bare Op.param) { param_index = index }) b)

-- `Call`.
abbrev pub call : Bytes → List ℕ → Builder → Made
call name args b = emit (record (bare Op.call) { call_name = name; call_args = args }) b

-- `Drop`.
abbrev pub drop : Bytes → ℕ → Builder → Done
drop name target b = append_inst (record (bare Op.drop) { lhs = target; call_name = name }) b

abbrev pub is_invalid_mode : CastMode → Bool
is_invalid_mode CastMode.invalid = true
is_invalid_mode _ = false

-- `Cast`.
abbrev pub cast : ℕ → CastMode → Builder → Made
cast src mode b =
    unless (is_invalid_mode mode) (emit (record (bare Op.cast) { lhs = src; mode = mode }) b)

-- `Borrow`.
abbrev pub borrow : ℕ → Bool → Builder → Made
borrow target mutable b = emit (record (bare Op.borrow) { lhs = target; flag = mutable }) b

-- `FnPtr`.
abbrev pub fn_ptr : Bytes → Builder → Made
fn_ptr name b = unless (is_empty name) (emit (record (bare Op.fn_ptr) { call_name = name }) b)

-- `CallIndirect`.
abbrev pub call_indirect : ℕ → List ℕ → Builder → Made
call_indirect fn_reg args b =
    emit (record (bare Op.call_indirect) { lhs = fn_reg; call_args = args }) b

-- `SliceNew`.
abbrev pub slice_new : ℕ → ℕ → ℕ → Bool → Builder → Made
slice_new base low high inclusive b =
    emit (record (bare Op.slice_new) { lhs = base; rhs = low; extra = high; flag = inclusive }) b

-- `FieldRead`.
abbrev pub field_read : ℕ → Bytes → Builder → Made
field_read base name b =
    unless (is_empty name) (emit (record (bare Op.field_read) { lhs = base; field_name = name }) b)

-- `StructNew`.
abbrev pub struct_new : Bytes → List StructField → Builder → Made
struct_new type_name fields b =
    unless (is_empty type_name)
      (emit (record (bare Op.struct_new) { call_name = type_name; fields = fields }) b)

-- `StructCopy`.
abbrev pub struct_copy : ℕ → Builder → Made
struct_copy base b = emit (record (bare Op.struct_copy) { lhs = base }) b

-- `FieldWrite`.
abbrev pub field_write : ℕ → Bytes → ℕ → Builder → Done
field_write target name value b =
    unless (is_empty name) (
      append_inst (record (bare Op.field_write) { lhs = target; rhs = value; field_name = name }) b)

-- `MethodCall`.
abbrev pub method_call : Bytes → ℕ → List ℕ → Builder → Made
method_call name receiver args b =
    unless (is_empty name)
      (emit (record (bare Op.method_call) { call_name = name; call_args = receiver ∷ args }) b)

-- `EqScalar`.
abbrev pub eq_scalar : ℕ → ℕ → Builder → Made
eq_scalar lhs rhs b = emit (record (bare Op.eq_scalar) { lhs = lhs; rhs = rhs }) b

-- `EqCall`.
abbrev pub eq_call : Bytes → ℕ → ℕ → Builder → Made
eq_call name lhs rhs b =
    unless (is_empty name)
      (emit (record (bare Op.eq_call) { call_name = name; call_args = lhs ∷ rhs ∷ [] }) b)

abbrev pub is_overflow : Op → Bool
is_overflow Op.wrapping_add = true
is_overflow Op.wrapping_sub = true
is_overflow Op.wrapping_mul = true
is_overflow Op.checked_add = true
is_overflow Op.checked_sub = true
is_overflow Op.checked_mul = true
is_overflow Op.saturating_add = true
is_overflow Op.saturating_sub = true
is_overflow Op.saturating_mul = true
is_overflow _ = false

-- `OverflowArith`.
abbrev pub overflow_arith : Op → ℕ → ℕ → Builder → Made
overflow_arith o lhs rhs b =
    if is_overflow o then emit (record (bare o) { lhs = lhs; rhs = rhs }) b else none

-- `Spawn`.
abbrev pub spawn : Bytes → ℕ → Builder → Made
spawn entry arg b = unless (is_empty entry) (
    emit
      (record (bare Op.spawn) { call_name = entry; call_args = if arg == 0 then [] else arg ∷ [] })
      b)

-- `ThreadJoin`.
abbrev pub thread_join : ℕ → Builder → Made
thread_join handle b = emit (record (bare Op.thread_join) { lhs = handle }) b

-- `ChanNew`.
abbrev pub chan_new : ℕ → ℕ → Builder → Made
chan_new capacity elem_bytes b =
    emit (record (bare Op.chan_new) { lhs = capacity; rhs = elem_bytes }) b

-- `ChanSend`.
abbrev pub chan_send : ℕ → ℕ → Builder → Made
chan_send chan value b = emit (record (bare Op.chan_send) { lhs = chan; rhs = value }) b

-- `ChanRecv`.
abbrev pub chan_recv : ℕ → ℕ → Builder → Made
chan_recv chan out b = emit (record (bare Op.chan_recv) { lhs = chan; rhs = out }) b

-- `ChanClose`.
abbrev pub chan_close : ℕ → Builder → Done
chan_close chan b = append_inst (record (bare Op.chan_close) { lhs = chan }) b

-- `Panic`.
abbrev pub panic : Bytes → Builder → Done
panic message b = append_inst (record (bare Op.panic) { call_name = message }) b
