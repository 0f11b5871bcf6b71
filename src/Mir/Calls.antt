-- ===== src/Mir/Calls.antt =====
-- Single calls of the Builder of compiler/mir on an open block that is ready.
use fuse.Prelude.{
  ℕ, Bool, true, false, Bool-cases, List, [], ◌∷◌, Option, none, some, Bytes, ◌≡◌, ◌≢◌, ◌==◌, suc,
  ltb, inl, inr, refl, ◌∙◌, arith,
}
use mathlib.Core.Path.{subst}
use mathlib.Core.Option.{some-injective}
use fuse.Prelude.Int.{ℤ, pos, negsuc, is_negative}
use fuse.Mir.Types.{Op, StructField, ok}
use fuse.Mir.Validate.{Regs, need_args, need_fields, check_op, check_blocks, check_insts}
use fuse.Mir.Scoped.{Defined, field_values}
use fuse.Mir.Builder.{Builder, Made, bare, emit, new_function, new_block, set_line}
use fuse.Mir.Methods as Methods
use fuse.Mir.Methods.{is_binary, is_overflow, is_invalid_mode, count_param, unless}
use fuse.Mir.Lowered.{Has}
use fuse.Mir.Ready.{Ready, emit-Ready}

pub unless-false {ℓ} :
    {A : Type ℓ} (x : Bool) (o : Option A) (a : A) → unless x o ≡ some a → x ≡ false
unless-false true o a h = ground arith
unless-false false o a h = refl

pub Defined-need_args : (d : Regs) (args : List ℕ) → Defined d args → need_args d args ≡ ok tt
unfolding need_args
Defined-need_args d [] h = refl
Defined-need_args d (a ∷ args) h = rw (h.0, need_args, Defined-need_args d args h.1) refl

pub Defined-need_fields :
    (d : Regs) (fields : List StructField)
    → Defined d (field_values fields)
    → need_fields d fields ≡ ok tt
unfolding need_fields
Defined-need_fields d [] h = refl
Defined-need_fields d (f ∷ fields) h = elim (Bool-cases (f.value == 0)) [
  | inl e ↦ rw (e, need_fields, Defined-need_fields d fields (rw (e, need_fields) at h)) refl
  | inr e ↦
      let g : Defined d (f.value ∷ field_values fields) = rw e at h in
      rw (e, g.0, need_fields, Defined-need_fields d fields g.1) refl
]

-- Nothing that `Ready` speaks of has changed.
Ready-same :
    (b c : Builder) (d : Regs)
    → Ready b d
    → c.fn.blocks ≡ b.fn.blocks
    → c.current ≡ b.current
    → c.fn.num_regs ≡ b.fn.num_regs
    → Ready c d
Ready-same b c d w p q r = record {
  before = w.before;
  last = w.last;
  seen = w.seen;
  shape = p ∙ w.shape;
  points = q ∙ w.points;
  accepted = w.accepted;
  runs = w.runs;
  no_result = w.no_result;
  positive = omega (arith, w.positive);
}

pub new_function-Ready : (module_name name : Bytes) → Ready (new_function module_name name) []
unfolding new_function check_blocks check_insts
new_function-Ready module_name name = record {
  before = [];
  last = new_block 1;
  seen = [];
  shape = refl;
  points = refl;
  accepted = refl;
  runs = refl;
  no_result = refl;
  positive = omega arith;
}

pub set_line-Ready : (line : ℤ) (b : Builder) (d : Regs) → Ready b d → Ready (set_line line b) d
unfolding set_line
set_line-Ready (pos n) b d w = Ready-same b (record b { line = n }) d w refl refl refl
set_line-Ready (negsuc n) b d w = Ready-same b (record b { line = 0 }) d w refl refl refl

count_param-Ready : (index : ℤ) (b : Builder) (d : Regs) → Ready b d → Ready (count_param index b) d
unfolding count_param
count_param-Ready (negsuc n) b d w = w
count_param-Ready (pos n) b d w = elim (Bool-cases (ltb b.fn.num_params (suc n))) [
  | inl e ↦ rw e (Ready-same b _ d w refl refl refl)
  | inr e ↦ rw e w
]

pub param-Ready :
    (index : ℤ) (b c : Builder) (r : ℕ) (d : Regs)
    → Ready b d
    → is_negative index ≡ false
    → Methods.param index b ≡ some (r, c)
    → Ready c (r ∷ d)
unfolding check_op
param-Ready index b c r d w h q =
    of_emit (emit (record (bare Op.param) { param_index = index }) b) refl q
  where
    of_emit :
        (o : Made)
        → emit (record (bare Op.param) { param_index = index }) b ≡ o
        → Methods.counting index o ≡ some (r, c)
        → Ready c (r ∷ d)
    of_emit none e p = ground arith
    of_emit (some (s, a)) e p =
        subst (λ (x : ℕ × Builder). Ready x.1 (x.0 ∷ d))
          (some-injective (s, count_param index a) (r, c) p)
          (count_param-Ready index a (s ∷ d) (emit-Ready _ b a s d w (λ n z. ground arith) e))

is_binary-check_op :
    (o : Op) (d : Regs) (lhs rhs n line : ℕ)
    → is_binary o ≡ true
    → Has d lhs
    → Has d rhs
    → n ≢ 0
    → check_op o d (record (bare o) { dst = n; lhs = lhs; rhs = rhs; line = line }) ≡ ok (n ∷ d)
unfolding check_op
is_binary-check_op o d lhs rhs n line e h k z = ground arith

is_overflow-check_op :
    (o : Op) (d : Regs) (lhs rhs n line : ℕ)
    → is_overflow o ≡ true
    → Has d lhs
    → Has d rhs
    → n ≢ 0
    → check_op o d (record (bare o) { dst = n; lhs = lhs; rhs = rhs; line = line }) ≡ ok (n ∷ d)
unfolding check_op
is_overflow-check_op o d lhs rhs n line e h k z = ground arith

pub binary-Ready :
    (o : Op) (lhs rhs : ℕ) (b c : Builder) (r : ℕ) (d : Regs)
    → Ready b d
    → Has d lhs
    → Has d rhs
    → Methods.binary o lhs rhs b ≡ some (r, c)
    → Ready c (r ∷ d)
binary-Ready o lhs rhs b c r d w h k q = elim (Bool-cases (is_binary o)) [
  | inl e ↦
      emit-Ready (record (bare o) { lhs = lhs; rhs = rhs }) b c r d w
        (λ n z. is_binary-check_op o d lhs rhs n b.line e h k z) (rw e at q)
  | inr e ↦ let f = rw e at q in ground arith
]

pub overflow_arith-Ready :
    (o : Op) (lhs rhs : ℕ) (b c : Builder) (r : ℕ) (d : Regs)
    → Ready b d
    → Has d lhs
    → Has d rhs
    → Methods.overflow_arith o lhs rhs b ≡ some (r, c)
    → Ready c (r ∷ d)
overflow_arith-Ready o lhs rhs b c r d w h k q = elim (Bool-cases (is_overflow o)) [
  | inl e ↦
      emit-Ready (record (bare o) { lhs = lhs; rhs = rhs }) b c r d w
        (λ n z. is_overflow-check_op o d lhs rhs n b.line e h k z) (rw e at q)
  | inr e ↦ let f = rw e at q in ground arith
]
