-- ===== src/Mir/Lowering.antt =====
-- What lowering block by block makes, `Validate` of compiler/mir accepts.
use fuse.Prelude.{Bool, true, false, ◌≡◌, refl, arith}
use fuse.Mir.Types.{ok}
use fuse.Mir.Validate.{Regs, is_empty, check_op, check_term, validate}
use fuse.Mir.Builder.{Builder}
use fuse.Mir.Methods.{is_invalid_mode}
use fuse.Mir.Lowered.{Lowered}
use fuse.Mir.SingleAssignment.{unless-some}
use fuse.Mir.Ready.{Ready, Sealed, append_inst-Ready, emit-Ready, seal-Sealed, begin_block-Ready}
use fuse.Mir.Calls.{
  Defined-need_args, Defined-need_fields, new_function-Ready, set_line-Ready, param-Ready,
  binary-Ready, overflow_arith-Ready,
}

-- The state that a lowering is in.
abbrev State : Builder → Regs → Bool → Type 0
State b d true = Ready b d
State b d false = Sealed b d

Lowered-State : (b : Builder) (d : Regs) (is_open : Bool) → Lowered b d is_open → State b d is_open
unfolding check_op check_term
Lowered-State b d is_open (Lowered.new_function module_name name) =
    new_function-Ready module_name name
Lowered-State b d is_open (Lowered.begin_block {b = a} l) =
    begin_block-Ready a d (Lowered-State a d false l)
Lowered-State b d is_open (Lowered.set_line {b = a} line l) =
    set_line-Ready line a d (Lowered-State a d true l)
Lowered-State b d is_open (Lowered.return {b = a} reg l h q) =
    seal-Sealed _ a b d (Lowered-State a d true l) (λ x. refl) (λ x. refl) (ground arith) q
Lowered-State b d is_open (Lowered.jump {b = a} target l h q) =
    seal-Sealed _ a b d (Lowered-State a d true l) (λ x. refl) (λ x. refl) (ground arith) q
Lowered-State b d is_open (Lowered.if_eq {b = a} reg constant on_true on_false l h k m q) =
    seal-Sealed _ a b d (Lowered-State a d true l) (λ x. refl) (λ x. refl) (ground arith) q
Lowered-State b d is_open (Lowered.unreachable {b = a} l q) =
    seal-Sealed _ a b d (Lowered-State a d true l) (λ x. refl) (λ x. refl) (ground arith) q
Lowered-State b e is_open (Lowered.const_int {b = a} {r = r} {d = d} value l q) =
    emit-Ready _ a b r d (Lowered-State a d true l) (λ n z. ground arith) q
Lowered-State b e is_open (Lowered.binary {b = a} {r = r} {d = d} op lhs rhs l h k q) =
    binary-Ready op lhs rhs a b r d (Lowered-State a d true l) h k q
Lowered-State b e is_open (Lowered.param {b = a} {r = r} {d = d} index l h q) =
    param-Ready index a b r d (Lowered-State a d true l) h q
Lowered-State b e is_open (Lowered.call {b = a} {r = r} {d = d} name args l h k q) =
    emit-Ready _ a b r d (Lowered-State a d true l)
      (λ n z. ground (arith, Defined-need_args d args k)) q
Lowered-State b d is_open (Lowered.drop {b = a} name target l h k q) =
    append_inst-Ready _ a b d d (Lowered-State a d true l) (ground arith) q
Lowered-State b e is_open (Lowered.cast {b = a} {r = r} {d = d} src mode l h k q) =
    emit-Ready _ a b r d (Lowered-State a d true l) (λ n z. ground arith)
      (unless-some (is_invalid_mode mode) _ _ q)
Lowered-State b e is_open (Lowered.borrow {b = a} {r = r} {d = d} target mutable l h q) =
    emit-Ready _ a b r d (Lowered-State a d true l) (λ n z. ground arith) q
Lowered-State b e is_open (Lowered.fn_ptr {b = a} {r = r} {d = d} name l q) =
    emit-Ready _ a b r d (Lowered-State a d true l) (λ n z. ground arith)
      (unless-some (is_empty name) _ _ q)
Lowered-State b e is_open (Lowered.call_indirect {b = a} {r = r} {d = d} fn_reg args l h k q) =
    emit-Ready _ a b r d (Lowered-State a d true l)
      (λ n z. ground (arith, Defined-need_args d args k)) q
Lowered-State b e is_open
      (Lowered.slice_new {b = a} {r = r} {d = d} base low high inclusive l h k m q) =
    emit-Ready _ a b r d (Lowered-State a d true l) (λ n z. ground arith) q
Lowered-State b e is_open (Lowered.field_read {b = a} {r = r} {d = d} base name l h q) =
    emit-Ready _ a b r d (Lowered-State a d true l) (λ n z. ground arith)
      (unless-some (is_empty name) _ _ q)
Lowered-State b e is_open (Lowered.struct_new {b = a} {r = r} {d = d} type_name fields l h q) =
    emit-Ready _ a b r d (Lowered-State a d true l)
      (λ n z. ground (arith, Defined-need_fields d fields h))
      (unless-some (is_empty type_name) _ _ q)
Lowered-State b e is_open (Lowered.struct_copy {b = a} {r = r} {d = d} base l h q) =
    emit-Ready _ a b r d (Lowered-State a d true l) (λ n z. ground arith) q
Lowered-State b d is_open (Lowered.field_write {b = a} target name value l h k q) =
    append_inst-Ready _ a b d d (Lowered-State a d true l) (ground arith)
      (unless-some (is_empty name) _ _ q)
Lowered-State b e is_open (Lowered.method_call {b = a} {r = r} {d = d} name receiver args l h k q) =
    emit-Ready _ a b r d (Lowered-State a d true l)
      (λ n z. ground (arith, Defined-need_args d args k)) (unless-some (is_empty name) _ _ q)
Lowered-State b e is_open (Lowered.eq_scalar {b = a} {r = r} {d = d} lhs rhs l h k q) =
    emit-Ready _ a b r d (Lowered-State a d true l) (λ n z. ground arith) q
Lowered-State b e is_open (Lowered.eq_call {b = a} {r = r} {d = d} name lhs rhs l h k q) =
    emit-Ready _ a b r d (Lowered-State a d true l) (λ n z. ground arith)
      (unless-some (is_empty name) _ _ q)
Lowered-State b e is_open (Lowered.overflow_arith {b = a} {r = r} {d = d} op lhs rhs l h k q) =
    overflow_arith-Ready op lhs rhs a b r d (Lowered-State a d true l) h k q
Lowered-State b e is_open (Lowered.spawn {b = a} {r = r} {d = d} entry arg l h q) =
    emit-Ready _ a b r d (Lowered-State a d true l) (λ n z. ground arith)
      (unless-some (is_empty entry) _ _ q)
Lowered-State b e is_open (Lowered.thread_join {b = a} {r = r} {d = d} handle l h q) =
    emit-Ready _ a b r d (Lowered-State a d true l) (λ n z. ground arith) q
Lowered-State b e is_open (Lowered.chan_new {b = a} {r = r} {d = d} capacity elem_bytes l h k q) =
    emit-Ready _ a b r d (Lowered-State a d true l) (λ n z. ground arith) q
Lowered-State b e is_open (Lowered.chan_send {b = a} {r = r} {d = d} chan value l h k q) =
    emit-Ready _ a b r d (Lowered-State a d true l) (λ n z. ground arith) q
Lowered-State b e is_open (Lowered.chan_recv {b = a} {r = r} {d = d} chan out l h k q) =
    emit-Ready _ a b r d (Lowered-State a d true l) (λ n z. ground arith) q
Lowered-State b d is_open (Lowered.chan_close {b = a} chan l h q) =
    append_inst-Ready _ a b d d (Lowered-State a d true l) (ground arith) q
Lowered-State b d is_open (Lowered.panic {b = a} message l h q) =
    append_inst-Ready _ a b d d (Lowered-State a d true l) (ground arith) q

-- A function that is lowered block by block, whose calls take registers defined before them, names
-- that are not empty, block ids that are not `NoBlock`, parameter indices that are not negative and
-- cast modes that are known, is accepted by `Validate` once its last block is sealed.
pub Lowered-validate : (b : Builder) (d : Regs) → Lowered b d false → validate b.fn ≡ ok tt
unfolding validate
Lowered-validate b d l = rw (Lowered-State b d false l).accepted refl
