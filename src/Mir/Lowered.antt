-- ===== src/Mir/Lowered.antt =====
-- Lowering block by block: calls of the Builder of compiler/mir on registers that are defined.
use fuse.Prelude.{ℕ, Bool, true, false, List, [], ◌∷◌, some, Bytes, ◌≡◌, ◌≢◌}
use fuse.Prelude.Int.{ℤ, is_negative}
use fuse.Mir.Types.{Op, StructField, CastMode}
use fuse.Mir.Validate.{Regs, is_defined, is_empty}
use fuse.Mir.Scoped.{Defined, present, field_values}
use fuse.Mir.Builder
use fuse.Mir.Builder.{Builder}
use fuse.Mir.Methods as Methods

-- A register that is not `NoReg` and has been defined.
abbrev pub Has : Regs → ℕ → Type 0
Has d r = (r ≢ 0) × (is_defined d r ≡ true)

-- `NoReg`, or a register that has been defined.
abbrev pub Optional : Regs → ℕ → Type 0
Optional d r = Defined d (present r)

abbrev pub is_known_mode : CastMode → Bool
is_known_mode (CastMode.unknown n) = false
is_known_mode _ = true

-- `Lowered b d is_open`: the builder `b` comes from a new function by calls whose operands are among
-- the registers defined at that point, whose names are not empty, whose targets are not `NoBlock`,
-- whose parameter indices are not negative and whose cast modes are known.
-- Behind them the registers `d` are defined, and the last block is open, or else it is sealed and
-- nothing has been added since.
pub data Lowered : Builder → Regs → Bool → Type 0 where
  new_function :
      (module_name name : Bytes) → Lowered (Builder.new_function module_name name) [] true
  begin_block :
      {b : Builder} {d : Regs} → Lowered b d false → Lowered (Builder.begin_block b).1 d true
  set_line :
      {b : Builder} {d : Regs} (line : ℤ)
      → Lowered b d true
      → Lowered (Builder.set_line line b) d true
  return :
      {b c : Builder} {d : Regs} (reg : ℕ)
      → Lowered b d true
      → Has d reg
      → Builder.return reg b ≡ some c
      → Lowered c d false
  jump :
      {b c : Builder} {d : Regs} (target : ℕ)
      → Lowered b d true
      → target ≢ 0
      → Builder.jump target b ≡ some c
      → Lowered c d false
  if_eq :
      {b c : Builder} {d : Regs} (reg : ℕ) (constant : ℤ) (on_true : ℕ) (on_false : ℕ)
      → Lowered b d true
      → is_defined d reg ≡ true
      → on_true ≢ 0
      → on_false ≢ 0
      → Builder.if_eq reg constant on_true on_false b ≡ some c
      → Lowered c d false
  unreachable :
      {b c : Builder} {d : Regs}
      → Lowered b d true
      → Builder.unreachable b ≡ some c
      → Lowered c d false
  const_int :
      {b c : Builder} {r : ℕ} {d : Regs} (value : ℤ)
      → Lowered b d true
      → Methods.const_int value b ≡ some (r, c)
      → Lowered c (r ∷ d) true
  binary :
      {b c : Builder} {r : ℕ} {d : Regs} (op : Op) (lhs : ℕ) (rhs : ℕ)
      → Lowered b d true
      → Has d lhs
      → Has d rhs
      → Methods.binary op lhs rhs b ≡ some (r, c)
      → Lowered c (r ∷ d) true
  param :
      {b c : Builder} {r : ℕ} {d : Regs} (index : ℤ)
      → Lowered b d true
      → is_negative index ≡ false
      → Methods.param index b ≡ some (r, c)
      → Lowered c (r ∷ d) true
  call :
      {b c : Builder} {r : ℕ} {d : Regs} (name : Bytes) (args : List ℕ)
      → Lowered b d true
      → is_empty name ≡ false
      → Defined d args
      → Methods.call name args b ≡ some (r, c)
      → Lowered c (r ∷ d) true
  drop :
      {b c : Builder} {d : Regs} (name : Bytes) (target : ℕ)
      → Lowered b d true
      → is_empty name ≡ false
      → Optional d target
      → Methods.drop name target b ≡ some c
      → Lowered c d true
  cast :
      {b c : Builder} {r : ℕ} {d : Regs} (src : ℕ) (mode : CastMode)
      → Lowered b d true
      → Has d src
      → is_known_mode mode ≡ true
      → Methods.cast src mode b ≡ some (r, c)
      → Lowered c (r ∷ d) true
  borrow :
      {b c : Builder} {r : ℕ} {d : Regs} (target : ℕ) (mutable : Bool)
      → Lowered b d true
      → Has d target
      → Methods.borrow target mutable b ≡ some (r, c)
      → Lowered c (r ∷ d) true
  fn_ptr :
      {b c : Builder} {r : ℕ} {d : Regs} (name : Bytes)
      → Lowered b d true
      → Methods.fn_ptr name b ≡ some (r, c)
      → Lowered c (r ∷ d) true
  call_indirect :
      {b c : Builder} {r : ℕ} {d : Regs} (fn_reg : ℕ) (args : List ℕ)
      → Lowered b d true
      → Has d fn_reg
      → Defined d args
      → Methods.call_indirect fn_reg args b ≡ some (r, c)
      → Lowered c (r ∷ d) true
  slice_new :
      {b c : Builder} {r : ℕ} {d : Regs} (base : ℕ) (low : ℕ) (high : ℕ) (inclusive : Bool)
      → Lowered b d true
      → Has d base
      → Optional d low
      → Optional d high
      → Methods.slice_new base low high inclusive b ≡ some (r, c)
      → Lowered c (r ∷ d) true
  field_read :
      {b c : Builder} {r : ℕ} {d : Regs} (base : ℕ) (name : Bytes)
      → Lowered b d true
      → Has d base
      → Methods.field_read base name b ≡ some (r, c)
      → Lowered c (r ∷ d) true
  struct_new :
      {b c : Builder} {r : ℕ} {d : Regs} (type_name : Bytes) (fields : List StructField)
      → Lowered b d true
      → Defined d (field_values fields)
      → Methods.struct_new type_name fields b ≡ some (r, c)
      → Lowered c (r ∷ d) true
  struct_copy :
      {b c : Builder} {r : ℕ} {d : Regs} (base : ℕ)
      → Lowered b d true
      → Has d base
      → Methods.struct_copy base b ≡ some (r, c)
      → Lowered c (r ∷ d) true
  field_write :
      {b c : Builder} {d : Regs} (target : ℕ) (name : Bytes) (value : ℕ)
      → Lowered b d true
      → Has d target
      → Has d value
      → Methods.field_write target name value b ≡ some c
      → Lowered c d true
  method_call :
      {b c : Builder} {r : ℕ} {d : Regs} (name : Bytes) (receiver : ℕ) (args : List ℕ)
      → Lowered b d true
      → is_defined d receiver ≡ true
      → Defined d args
      → Methods.method_call name receiver args b ≡ some (r, c)
      → Lowered c (r ∷ d) true
  eq_scalar :
      {b c : Builder} {r : ℕ} {d : Regs} (lhs : ℕ) (rhs : ℕ)
      → Lowered b d true
      → Has d lhs
      → Has d rhs
      → Methods.eq_scalar lhs rhs b ≡ some (r, c)
      → Lowered c (r ∷ d) true
  eq_call :
      {b c : Builder} {r : ℕ} {d : Regs} (name : Bytes) (lhs : ℕ) (rhs : ℕ)
      → Lowered b d true
      → is_defined d lhs ≡ true
      → is_defined d rhs ≡ true
      → Methods.eq_call name lhs rhs b ≡ some (r, c)
      → Lowered c (r ∷ d) true
  overflow_arith :
      {b c : Builder} {r : ℕ} {d : Regs} (op : Op) (lhs : ℕ) (rhs : ℕ)
      → Lowered b d true
      → Has d lhs
      → Has d rhs
      → Methods.overflow_arith op lhs rhs b ≡ some (r, c)
      → Lowered c (r ∷ d) true
  spawn :
      {b c : Builder} {r : ℕ} {d : Regs} (entry : Bytes) (arg : ℕ)
      → Lowered b d true
      → Optional d arg
      → Methods.spawn entry arg b ≡ some (r, c)
      → Lowered c (r ∷ d) true
  thread_join :
      {b c : Builder} {r : ℕ} {d : Regs} (handle : ℕ)
      → Lowered b d true
      → Has d handle
      → Methods.thread_join handle b ≡ some (r, c)
      → Lowered c (r ∷ d) true
  chan_new :
      {b c : Builder} {r : ℕ} {d : Regs} (capacity : ℕ) (elem_bytes : ℕ)
      → Lowered b d true
      → Has d capacity
      → Has d elem_bytes
      → Methods.chan_new capacity elem_bytes b ≡ some (r, c)
      → Lowered c (r ∷ d) true
  chan_send :
      {b c : Builder} {r : ℕ} {d : Regs} (chan : ℕ) (value : ℕ)
      → Lowered b d true
      → Has d chan
      → Has d value
      → Methods.chan_send chan value b ≡ some (r, c)
      → Lowered c (r ∷ d) true
  chan_recv :
      {b c : Builder} {r : ℕ} {d : Regs} (chan : ℕ) (out : ℕ)
      → Lowered b d true
      → Has d chan
      → Has d out
      → Methods.chan_recv chan out b ≡ some (r, c)
      → Lowered c (r ∷ d) true
  chan_close :
      {b c : Builder} {d : Regs} (chan : ℕ)
      → Lowered b d true
      → Has d chan
      → Methods.chan_close chan b ≡ some c
      → Lowered c d true
  panic :
      {b c : Builder} {d : Regs} (message : Bytes)
      → Lowered b d true
      → is_empty message ≡ false
      → Methods.panic message b ≡ some c
      → Lowered c d true
