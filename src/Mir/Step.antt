-- ===== src/Mir/Step.antt =====
-- The calls of a Builder of compiler/mir, one after the other.
use fuse.Prelude.{ℕ, Bool, List, some, Bytes, ◌≡◌}
use fuse.Prelude.Int.{ℤ}
use fuse.Mir.Types.{Op, StructField, CastMode}
use fuse.Mir.Builder
use fuse.Mir.Builder.{Builder}
use fuse.Mir.Methods as Methods

-- A call that does not panic takes the builder `b` to `c`, and returns the register `r` if it returns
-- one.
pub data Step : Builder → Builder → Type 0 where
  set_line : {b : Builder} (line : ℤ) → Step b (Builder.set_line line b)
  begin_block : {b : Builder} → Step b (Builder.begin_block b).1
  new_reg : {b : Builder} → Step b (Builder.new_reg b)
  use_block : {b : Builder} (id : ℕ) → Step b (Builder.use_block id b)
  return : {b c : Builder} (r : ℕ) → Builder.return r b ≡ some c → Step b c
  jump : {b c : Builder} (target : ℕ) → Builder.jump target b ≡ some c → Step b c
  if_eq :
      {b c : Builder} (reg : ℕ) (constant : ℤ) (on_true : ℕ) (on_false : ℕ)
      → Builder.if_eq reg constant on_true on_false b ≡ some c
      → Step b c
  unreachable : {b c : Builder} → Builder.unreachable b ≡ some c → Step b c
  const_int :
      {b c : Builder} {r : ℕ} (value : ℤ) → Methods.const_int value b ≡ some (r, c) → Step b c
  binary :
      {b c : Builder} {r : ℕ} (op : Op) (lhs : ℕ) (rhs : ℕ)
      → Methods.binary op lhs rhs b ≡ some (r, c)
      → Step b c
  param : {b c : Builder} {r : ℕ} (index : ℤ) → Methods.param index b ≡ some (r, c) → Step b c
  call :
      {b c : Builder} {r : ℕ} (name : Bytes) (args : List ℕ)
      → Methods.call name args b ≡ some (r, c)
      → Step b c
  drop :
      {b c : Builder} (name : Bytes) (target : ℕ) → Methods.drop name target b ≡ some c → Step b c
  cast :
      {b c : Builder} {r : ℕ} (src : ℕ) (mode : CastMode)
      → Methods.cast src mode b ≡ some (r, c)
      → Step b c
  borrow :
      {b c : Builder} {r : ℕ} (target : ℕ) (mutable : Bool)
      → Methods.borrow target mutable b ≡ some (r, c)
      → Step b c
  fn_ptr : {b c : Builder} {r : ℕ} (name : Bytes) → Methods.fn_ptr name b ≡ some (r, c) → Step b c
  call_indirect :
      {b c : Builder} {r : ℕ} (fn_reg : ℕ) (args : List ℕ)
      → Methods.call_indirect fn_reg args b ≡ some (r, c)
      → Step b c
  slice_new :
      {b c : Builder} {r : ℕ} (base : ℕ) (low : ℕ) (high : ℕ) (inclusive : Bool)
      → Methods.slice_new base low high inclusive b ≡ some (r, c)
      → Step b c
  field_read :
      {b c : Builder} {r : ℕ} (base : ℕ) (name : Bytes)
      → Methods.field_read base name b ≡ some (r, c)
      → Step b c
  struct_new :
      {b c : Builder} {r : ℕ} (type_name : Bytes) (fields : List StructField)
      → Methods.struct_new type_name fields b ≡ some (r, c)
      → Step b c
  struct_copy :
      {b c : Builder} {r : ℕ} (base : ℕ) → Methods.struct_copy base b ≡ some (r, c) → Step b c
  field_write :
      {b c : Builder} (target : ℕ) (name : Bytes) (value : ℕ)
      → Methods.field_write target name value b ≡ some c
      → Step b c
  method_call :
      {b c : Builder} {r : ℕ} (name : Bytes) (receiver : ℕ) (args : List ℕ)
      → Methods.method_call name receiver args b ≡ some (r, c)
      → Step b c
  eq_scalar :
      {b c : Builder} {r : ℕ} (lhs : ℕ) (rhs : ℕ)
      → Methods.eq_scalar lhs rhs b ≡ some (r, c)
      → Step b c
  eq_call :
      {b c : Builder} {r : ℕ} (name : Bytes) (lhs : ℕ) (rhs : ℕ)
      → Methods.eq_call name lhs rhs b ≡ some (r, c)
      → Step b c
  overflow_arith :
      {b c : Builder} {r : ℕ} (op : Op) (lhs : ℕ) (rhs : ℕ)
      → Methods.overflow_arith op lhs rhs b ≡ some (r, c)
      → Step b c
  spawn :
      {b c : Builder} {r : ℕ} (entry : Bytes) (arg : ℕ)
      → Methods.spawn entry arg b ≡ some (r, c)
      → Step b c
  thread_join :
      {b c : Builder} {r : ℕ} (handle : ℕ) → Methods.thread_join handle b ≡ some (r, c) → Step b c
  chan_new :
      {b c : Builder} {r : ℕ} (capacity : ℕ) (elem_bytes : ℕ)
      → Methods.chan_new capacity elem_bytes b ≡ some (r, c)
      → Step b c
  chan_send :
      {b c : Builder} {r : ℕ} (chan : ℕ) (value : ℕ)
      → Methods.chan_send chan value b ≡ some (r, c)
      → Step b c
  chan_recv :
      {b c : Builder} {r : ℕ} (chan : ℕ) (out : ℕ)
      → Methods.chan_recv chan out b ≡ some (r, c)
      → Step b c
  chan_close : {b c : Builder} (chan : ℕ) → Methods.chan_close chan b ≡ some c → Step b c
  panic : {b c : Builder} (message : Bytes) → Methods.panic message b ≡ some c → Step b c

-- Several calls.
pub data Steps : Builder → Builder → Type 0 where
  done : {b : Builder} → Steps b b
  next : {b c d : Builder} → Steps b c → Step c d → Steps b d
