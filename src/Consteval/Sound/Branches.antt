-- ===== src/Consteval/Sound/Branches.antt =====
-- compiler/consteval/eval.go: the operators on expressions, branches and calls keep values sound.
use fuse.Prelude.{ℕ, Bool, true, false, Bytes, Option, none, some}
use fuse.Typetable.Table.{Table}
use fuse.Consteval.Value.{Value, vk_bool}
use fuse.Consteval.Words.{BinaryOp, bin_log_and, bin_log_or}
use fuse.Consteval.State.{Problem, State, Program, Out, fail, next, logical_operands}
use fuse.Consteval.Operators.{give_bool, apply_binary}
use fuse.Consteval.Eval.{logical_right, logical_left, eval_operands, branch, checked_call}
use fuse.Consteval.Words.{
  bin_add, bin_sub, bin_mul, bin_div, bin_mod, bin_shl, bin_shr, bin_and, bin_or, bin_xor, bin_eq,
  bin_ne, bin_lt, bin_le, bin_gt, bin_ge,
}
use fuse.Consteval.Sound.{IsSound, Ok, OutSound, failed, next-OutSound}
use fuse.Consteval.Sound.Operands.{apply_binary-OutSound}
use fuse.Consteval.Sound.Control.{OnState}

module _ (prog : Program) (tab : Table) (atoi : Bytes → Option ℕ) (d : ℕ) where
  give_bool-OutSound : (b : Bool) (s : State) → Ok tab d s → OutSound tab d (give_bool tab b s)
  unfolding IsSound
  give_bool-OutSound b s h = (tt, h)

  logical_right-OutSound :
      (out : Out) → OutSound tab d out → OutSound tab d (logical_right prog tab atoi out)
  logical_right-OutSound out h = next-OutSound tab d out _ h (λ v s w i.
      elim v
        as (λ k.
          OutSound tab d
            (elim k [ vk_bool ty b ↦ give_bool tab b s | _ ↦ fail logical_operands s ])) [
              | vk_bool ty b ↦ give_bool-OutSound b s i
              | _ ↦ failed tab d s i
            ])

  logical_left-OutSound :
      (is_and : Bool) (v : Value) (right : State → Out) (s : State)
      → OnState tab d right
      → Ok tab d s
      → OutSound tab d (logical_left prog tab atoi is_and v right s)
  logical_left-OutSound is_and v right s f h =
      elim v as (λ k. OutSound tab d (logical_left prog tab atoi is_and k right s)) [
        | vk_bool ty b ↦ with_bool b is_and ty
        | _ ↦ failed tab d s h
      ]
    where
      with_bool :
          (b a : Bool) (ty : ℕ)
          → OutSound tab d (logical_left prog tab atoi a (vk_bool ty b) right s)
      with_bool true true ty = logical_right-OutSound (right s) (f s h)
      with_bool true false ty = give_bool-OutSound true s h
      with_bool false true ty = give_bool-OutSound false s h
      with_bool false false ty = logical_right-OutSound (right s) (f s h)

  both_operands :
      (op : BinaryOp) (left right : State → Out) (s : State)
      → OnState tab d left
      → OnState tab d right
      → Ok tab d s
      → OutSound tab d (next (left s) (λ v t. next (right t) (λ w r. apply_binary tab op v w r)))
  both_operands op left right s f g h = next-OutSound tab d (left s) _ (f s h) (λ v t w i.
      next-OutSound tab d (right t) _ (g t i) (λ x r y j. apply_binary-OutSound tab d op v x r w j))

  pub eval_operands-OutSound :
      (op : BinaryOp) (left right : State → Out) (s : State)
      → OnState tab d left
      → OnState tab d right
      → Ok tab d s
      → OutSound tab d (eval_operands prog tab atoi op left right s)
  eval_operands-OutSound bin_log_and left right s f g h =
      next-OutSound tab d (left s) _ (f s h) (λ v t w i. logical_left-OutSound true v right t g i)
  eval_operands-OutSound bin_log_or left right s f g h =
      next-OutSound tab d (left s) _ (f s h) (λ v t w i. logical_left-OutSound false v right t g i)
  eval_operands-OutSound bin_add left right s f g h = both_operands bin_add left right s f g h
  eval_operands-OutSound bin_sub left right s f g h = both_operands bin_sub left right s f g h
  eval_operands-OutSound bin_mul left right s f g h = both_operands bin_mul left right s f g h
  eval_operands-OutSound bin_div left right s f g h = both_operands bin_div left right s f g h
  eval_operands-OutSound bin_mod left right s f g h = both_operands bin_mod left right s f g h
  eval_operands-OutSound bin_shl left right s f g h = both_operands bin_shl left right s f g h
  eval_operands-OutSound bin_shr left right s f g h = both_operands bin_shr left right s f g h
  eval_operands-OutSound bin_and left right s f g h = both_operands bin_and left right s f g h
  eval_operands-OutSound bin_or left right s f g h = both_operands bin_or left right s f g h
  eval_operands-OutSound bin_xor left right s f g h = both_operands bin_xor left right s f g h
  eval_operands-OutSound bin_eq left right s f g h = both_operands bin_eq left right s f g h
  eval_operands-OutSound bin_ne left right s f g h = both_operands bin_ne left right s f g h
  eval_operands-OutSound bin_lt left right s f g h = both_operands bin_lt left right s f g h
  eval_operands-OutSound bin_le left right s f g h = both_operands bin_le left right s f g h
  eval_operands-OutSound bin_gt left right s f g h = both_operands bin_gt left right s f g h
  eval_operands-OutSound bin_ge left right s f g h = both_operands bin_ge left right s f g h

  pub branch-OutSound :
      (v : Value) (chosen other : State → Out) (s : State)
      → OnState tab d chosen
      → OnState tab d other
      → Ok tab d s
      → OutSound tab d (branch prog tab atoi v chosen other s)
  branch-OutSound v chosen other s f g h =
      elim v as (λ k. OutSound tab d (branch prog tab atoi k chosen other s)) [
        | vk_bool ty b ↦ with_bool b ty
        | _ ↦ failed tab d s h
      ]
    where
      with_bool :
          (b : Bool) (ty : ℕ) → OutSound tab d (branch prog tab atoi (vk_bool ty b) chosen other s)
      with_bool true ty = f s h
      with_bool false ty = g s h

  pub checked_call-OutSound :
      (o : Option Problem) (arguments : State → Out) (s : State)
      → OnState tab d arguments
      → Ok tab d s
      → OutSound tab d (checked_call prog tab atoi o arguments s)
  checked_call-OutSound (some p) arguments s f h = failed tab d s h
  checked_call-OutSound none arguments s f h = f s h
