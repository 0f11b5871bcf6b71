-- ===== src/Mir/Scoped.antt =====
-- Which registers an instruction of compiler/mir reads and writes, beside `Validate`.
use fuse.Prelude.{
  ℕ, true, Bool-cases, ◌==◌, if◌then◌else◌, List, [], ◌∷◌, ◌++◌, All, All-append, ◌≡◌, ◌≢◌, inl,
  inr, arith,
}
use fuse.Mir.Types.{
  Op, add, sub, mul, div, mod_op, call, drop, cast, borrow, call_indirect, slice_new, field_read,
  struct_new, struct_copy, field_write, method_call, eq_scalar, eq_call, wrapping_add, wrapping_sub,
  wrapping_mul, checked_add, checked_sub, checked_mul, saturating_add, saturating_sub,
  saturating_mul, spawn, thread_join, chan_new, chan_send, chan_recv, chan_close, panic,
  StructField, Inst, ok,
}
use fuse.Mir.Validate.{Regs, is_defined, need_optional, need_args, need_fields, check_op}

-- A register that may be left out.
abbrev pub present : ℕ → List ℕ
present r = if r == 0 then [] else r ∷ []

abbrev pub field_values : List StructField → List ℕ
field_values [] = []
field_values (f ∷ fields) = present f.value ++ field_values fields

-- The registers that an instruction reads, by its opcode.
abbrev pub reads : Op → Inst → List ℕ
reads add i = i.lhs ∷ i.rhs ∷ []
reads sub i = i.lhs ∷ i.rhs ∷ []
reads mul i = i.lhs ∷ i.rhs ∷ []
reads div i = i.lhs ∷ i.rhs ∷ []
reads mod_op i = i.lhs ∷ i.rhs ∷ []
reads wrapping_add i = i.lhs ∷ i.rhs ∷ []
reads wrapping_sub i = i.lhs ∷ i.rhs ∷ []
reads wrapping_mul i = i.lhs ∷ i.rhs ∷ []
reads checked_add i = i.lhs ∷ i.rhs ∷ []
reads checked_sub i = i.lhs ∷ i.rhs ∷ []
reads checked_mul i = i.lhs ∷ i.rhs ∷ []
reads saturating_add i = i.lhs ∷ i.rhs ∷ []
reads saturating_sub i = i.lhs ∷ i.rhs ∷ []
reads saturating_mul i = i.lhs ∷ i.rhs ∷ []
reads eq_scalar i = i.lhs ∷ i.rhs ∷ []
reads chan_new i = i.lhs ∷ i.rhs ∷ []
reads chan_send i = i.lhs ∷ i.rhs ∷ []
reads chan_recv i = i.lhs ∷ i.rhs ∷ []
reads field_write i = i.lhs ∷ i.rhs ∷ []
reads cast i = i.lhs ∷ []
reads borrow i = i.lhs ∷ []
reads field_read i = i.lhs ∷ []
reads struct_copy i = i.lhs ∷ []
reads thread_join i = i.lhs ∷ []
reads chan_close i = i.lhs ∷ []
reads call i = i.call_args
reads method_call i = i.call_args
reads eq_call i = i.call_args
reads spawn i = i.call_args
reads drop i = present i.lhs
reads call_indirect i = i.lhs ∷ i.call_args
reads slice_new i = i.lhs ∷ (present i.rhs ++ present i.extra)
reads struct_new i = field_values i.fields
reads _ i = []

-- The registers that it writes: its destination, unless it has no result.
abbrev pub writes : Op → Inst → List ℕ
writes drop i = []
writes field_write i = []
writes chan_close i = []
writes panic i = []
writes _ i = i.dst ∷ []

abbrev pub Defined : Regs → List ℕ → Type 0
Defined d rs = All (λ r. is_defined d r ≡ true) rs

need_args-Defined : (d : Regs) (args : List ℕ) → need_args d args ≡ ok tt → Defined d args
unfolding need_args
need_args-Defined d [] h = tt
need_args-Defined d (a ∷ args) h = elim (Bool-cases (is_defined d a)) [
  | inl e ↦ (e, need_args-Defined d args (rw (e, need_args) at h))
  | inr e ↦ cc (rw (e, need_args) at h)
]

present-Defined : (d : Regs) (r : ℕ) → need_optional d r ≡ ok tt → Defined d (present r)
present-Defined d r h = elim (Bool-cases (r == 0)) [
  | inl e ↦ rw e tt
  | inr e ↦ rw e (ground arith, tt)
]

need_fields-Defined :
    (d : Regs) (fields : List StructField)
    → need_fields d fields ≡ ok tt
    → Defined d (field_values fields)
unfolding need_fields
need_fields-Defined d [] h = tt
need_fields-Defined d (f ∷ fields) h =
    All-append _ (present f.value) (field_values fields) (present-Defined d f.value (ground arith))
      (need_fields-Defined d fields (ground arith))

-- What an accepted instruction does to the defined registers.
pub record Accepted (d e : Regs) (rs ws : List ℕ) : Type 0 where
  pub sees : Defined d rs
  pub adds : e ≡ ws ++ d
  pub proper : All (λ r. r ≢ 0) ws

-- An accepted instruction reads only registers that are defined before it, defines exactly what it
-- writes, and writes no `NoReg`.
pub check_op-Accepted :
    (op : Op) (d e : Regs) (i : Inst)
    → check_op op d i ≡ ok e
    → Accepted d e (reads op i) (writes op i)
unfolding check_op
check_op-Accepted op d e i h = ground (
  arith,
  need_args-Defined d i.call_args,
  present-Defined d i.lhs,
  need_fields-Defined d i.fields,
)
