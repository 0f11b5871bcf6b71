-- ===== src/Mir/SingleAssignment.antt =====
-- Each register of a function that a Builder of compiler/mir makes has one writer at most.
use fuse.Prelude.{
  ℕ, Bool, true, false, Bool-cases, Option, none, some, Bytes, ◌≡◌, inl, inr, refl, ap, arith,
}
use mathlib.Core.Path.{subst}
use mathlib.Core.Option.{some-injective}
use fuse.Prelude.Int.{ℤ}
use fuse.Mir.Types.{Op}
use fuse.Mir.Builder.{Builder, Made, bare, emit, new_function, new_reg}
use fuse.Mir.Methods.{is_binary, is_overflow, unless, count_param, is_invalid_mode}
use fuse.Mir.Methods as Methods
use fuse.Mir.Validate.{is_empty}
use fuse.Mir.Step.{Step, Steps, done, next}
use fuse.Mir.Fresh.{
  Fresh, Fresh-same, emit-Fresh, append_inst-Fresh, seal-Fresh, begin_block-Fresh, use_block-Fresh,
  set_line-Fresh, count_param-Fresh, is_binary-writes, is_overflow-writes,
}

-- A guard that did not panic.
pub unless-some {ℓ} :
    {A : Type ℓ} (x : Bool) (o : Option A) (a : A) → unless x o ≡ some a → o ≡ some a
unless-some true o a h = ground arith
unless-some false o a h = h

binary-Fresh :
    (o : Op) (lhs rhs : ℕ) (b c : Builder) (r : ℕ)
    → Fresh b
    → Methods.binary o lhs rhs b ≡ some (r, c)
    → Fresh c
binary-Fresh o lhs rhs b c r w h = elim (Bool-cases (is_binary o)) [
  | inl e ↦
      emit-Fresh (record (bare o) { lhs = lhs; rhs = rhs }) b c r w (is_binary-writes o _ e)
        (rw e at h)
  | inr e ↦ let f = rw e at h in ground arith
]

overflow_arith-Fresh :
    (o : Op) (lhs rhs : ℕ) (b c : Builder) (r : ℕ)
    → Fresh b
    → Methods.overflow_arith o lhs rhs b ≡ some (r, c)
    → Fresh c
overflow_arith-Fresh o lhs rhs b c r w h = elim (Bool-cases (is_overflow o)) [
  | inl e ↦
      emit-Fresh (record (bare o) { lhs = lhs; rhs = rhs }) b c r w (is_overflow-writes o _ e)
        (rw e at h)
  | inr e ↦ let f = rw e at h in ground arith
]

param-Fresh :
    (index : ℤ) (b c : Builder) (r : ℕ) → Fresh b → Methods.param index b ≡ some (r, c) → Fresh c
param-Fresh index b c r w h =
    of_emit (emit (record (bare Op.param) { param_index = index }) b) refl h
  where
    of_emit :
        (o : Made)
        → emit (record (bare Op.param) { param_index = index }) b ≡ o
        → Methods.counting index o ≡ some (r, c)
        → Fresh c
    of_emit none e h = ground arith
    of_emit (some (s, d)) e h =
        subst Fresh (ap (λ p. p.1) (some-injective (s, count_param index d) (r, c) h))
          (count_param-Fresh index d (emit-Fresh _ b d s w refl e))

-- Every call keeps it.
Step-Fresh : (b c : Builder) → Step b c → Fresh b → Fresh c
unfolding new_reg
Step-Fresh b c (Step.set_line line) w = set_line-Fresh line b w
Step-Fresh b c Step.begin_block w = begin_block-Fresh b w
Step-Fresh b c Step.new_reg w = Fresh-same b (new_reg b) w ((λ r. omega arith), omega arith)
Step-Fresh b c (Step.use_block id) w = use_block-Fresh id b w
Step-Fresh b c (Step.return r h) w = seal-Fresh _ b c w (λ blk. refl) h
Step-Fresh b c (Step.jump target h) w = seal-Fresh _ b c w (λ blk. refl) h
Step-Fresh b c (Step.if_eq reg constant on_true on_false h) w = seal-Fresh _ b c w (λ blk. refl) h
Step-Fresh b c (Step.unreachable h) w = seal-Fresh _ b c w (λ blk. refl) h
Step-Fresh b c (Step.const_int {r = r} value h) w = emit-Fresh _ b c r w refl h
Step-Fresh b c (Step.binary {r = r} op lhs rhs h) w = binary-Fresh op lhs rhs b c r w h
Step-Fresh b c (Step.param {r = r} index h) w = param-Fresh index b c r w h
Step-Fresh b c (Step.call {r = r} name args h) w = emit-Fresh _ b c r w refl h
Step-Fresh b c (Step.drop name target h) w = append_inst-Fresh _ b c w refl h
Step-Fresh b c (Step.cast {r = r} src mode h) w =
    emit-Fresh _ b c r w refl (unless-some (is_invalid_mode mode) _ _ h)
Step-Fresh b c (Step.borrow {r = r} target mutable h) w = emit-Fresh _ b c r w refl h
Step-Fresh b c (Step.fn_ptr {r = r} name h) w =
    emit-Fresh _ b c r w refl (unless-some (is_empty name) _ _ h)
Step-Fresh b c (Step.call_indirect {r = r} fn_reg args h) w = emit-Fresh _ b c r w refl h
Step-Fresh b c (Step.slice_new {r = r} base low high inclusive h) w = emit-Fresh _ b c r w refl h
Step-Fresh b c (Step.field_read {r = r} base name h) w =
    emit-Fresh _ b c r w refl (unless-some (is_empty name) _ _ h)
Step-Fresh b c (Step.struct_new {r = r} type_name fields h) w =
    emit-Fresh _ b c r w refl (unless-some (is_empty type_name) _ _ h)
Step-Fresh b c (Step.struct_copy {r = r} base h) w = emit-Fresh _ b c r w refl h
Step-Fresh b c (Step.field_write target name value h) w =
    append_inst-Fresh _ b c w refl (unless-some (is_empty name) _ _ h)
Step-Fresh b c (Step.method_call {r = r} name receiver args h) w =
    emit-Fresh _ b c r w refl (unless-some (is_empty name) _ _ h)
Step-Fresh b c (Step.eq_scalar {r = r} lhs rhs h) w = emit-Fresh _ b c r w refl h
Step-Fresh b c (Step.eq_call {r = r} name lhs rhs h) w =
    emit-Fresh _ b c r w refl (unless-some (is_empty name) _ _ h)
Step-Fresh b c (Step.overflow_arith {r = r} op lhs rhs h) w =
    overflow_arith-Fresh op lhs rhs b c r w h
Step-Fresh b c (Step.spawn {r = r} entry arg h) w =
    emit-Fresh _ b c r w refl (unless-some (is_empty entry) _ _ h)
Step-Fresh b c (Step.thread_join {r = r} handle h) w = emit-Fresh _ b c r w refl h
Step-Fresh b c (Step.chan_new {r = r} capacity elem_bytes h) w = emit-Fresh _ b c r w refl h
Step-Fresh b c (Step.chan_send {r = r} chan value h) w = emit-Fresh _ b c r w refl h
Step-Fresh b c (Step.chan_recv {r = r} chan out h) w = emit-Fresh _ b c r w refl h
Step-Fresh b c (Step.chan_close chan h) w = append_inst-Fresh _ b c w refl h
Step-Fresh b c (Step.panic message h) w = append_inst-Fresh _ b c w refl h

-- After any calls of the Builder's methods on a new function, each register is written by one
-- instruction of the function at most, a register that is written has been handed out, and `NoReg`
-- is never written.
pub Steps-Fresh :
    (module_name name : Bytes) (b : Builder) → Steps (new_function module_name name) b → Fresh b
unfolding new_function
Steps-Fresh module_name name b done = record {
  once = λ r. omega arith;
  handed = λ r h. omega arith;
  proper = omega arith;
  positive = omega arith;
}
Steps-Fresh module_name name d (next {c = c} ss s) =
    Step-Fresh c d s (Steps-Fresh module_name name c ss)
