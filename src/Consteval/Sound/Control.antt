-- ===== src/Consteval/Sound/Control.antt =====
-- compiler/consteval/eval.go: what goes on after a sound outcome is sound.
use fuse.Prelude.{arith, ℕ, zero, suc, true, false, Option, none, some}
use fuse.Typetable.Table.{Table}
use fuse.Consteval.Value.{Value, vk_bool}
use fuse.Consteval.State.{
  flow_normal, flow_return, flow_break, flow_continue, flow_error, flow_panic, State, Scopes, Out,
  After,
}
use fuse.Consteval.Control.{
  while_turn, matched, unmatched, broken, crashed, Matched, or_recursed, or_next, with_bound,
  arm_chosen, guarded, literal_matches, stmt_next, leaving, loop_turns, while_turns,
}
use fuse.Consteval.Sound.{
  IsSound, ScopesSound, Ok, OutSound, AfterSound, failed, turn-OutSound, next-OutSound,
}

module _ (tab : Table) (d : ℕ) where
  abbrev pub MatchedSound : Matched → Type 0
  MatchedSound m = ScopesSound tab m.1 × Ok tab d m.2

  abbrev pub OnMatched : (Scopes → State → Matched) → Type 0
  OnMatched k =
      (env : Scopes) (s : State) → ScopesSound tab env → Ok tab d s → MatchedSound (k env s)

  abbrev pub OnState : (State → Out) → Type 0
  OnState k = (s : State) → Ok tab d s → OutSound tab d (k s)

  pub or_recursed-MatchedSound :
      (m : Matched) (k : Scopes → State → Matched)
      → MatchedSound m
      → OnMatched k
      → MatchedSound (or_recursed m k)
  or_recursed-MatchedSound (matched, env, s) k h f = f env s h.0 h.1
  or_recursed-MatchedSound (unmatched, env, s) k h f = h
  or_recursed-MatchedSound (broken, env, s) k h f = h
  or_recursed-MatchedSound (crashed, env, s) k h f = h

  pub or_next-MatchedSound :
      (m : Matched) (k : Scopes → State → Matched)
      → MatchedSound m
      → OnMatched k
      → MatchedSound (or_next m k)
  or_next-MatchedSound (matched, env, s) k h f = h
  or_next-MatchedSound (unmatched, env, s) k h f = f env s h.0 h.1
  or_next-MatchedSound (broken, env, s) k h f = h
  or_next-MatchedSound (crashed, env, s) k h f = h

  pub with_bound-MatchedSound :
      (out : Out) (env : Scopes) (k : Value → State → Matched)
      → ScopesSound tab env
      → OutSound tab d out
      → ((v : Value) (s : State) → Ok tab d s → MatchedSound (k v s))
      → MatchedSound (with_bound out env k)
  with_bound-MatchedSound (v, flow_normal, s) env k e h f = f v s h.1
  with_bound-MatchedSound (v, flow_return, s) env k e h f = (e, h.1)
  with_bound-MatchedSound (v, flow_break, s) env k e h f = (e, h.1)
  with_bound-MatchedSound (v, flow_continue, s) env k e h f = (e, h.1)
  with_bound-MatchedSound (v, flow_error, s) env k e h f = (e, h.1)
  with_bound-MatchedSound (v, flow_panic, s) env k e h f = (e, h.1)

  pub arm_chosen-OutSound :
      (m : Matched) (body : Scopes → State → Out) (others : State → Out)
      → MatchedSound m
      → ((env : Scopes) (s : State)
          → ScopesSound tab env
          → Ok tab d s
          → OutSound tab d (body env s))
      → OnState others
      → OutSound tab d (arm_chosen m body others)
  arm_chosen-OutSound (matched, env, s) body others h f g = f env s h.0 h.1
  arm_chosen-OutSound (unmatched, env, s) body others h f g = g s h.1
  arm_chosen-OutSound (broken, env, s) body others h f g = (tt, h.1)
  arm_chosen-OutSound (crashed, env, s) body others h f g = (tt, h.1)

  pub guarded-OutSound :
      (v : Value) (body others : Out)
      → OutSound tab d body
      → OutSound tab d others
      → OutSound tab d (guarded v body others)
  guarded-OutSound v body others h k = elim v as (λ w. OutSound tab d (guarded w body others)) [
    | vk_bool ty b ↦ elim b as (λ c. OutSound tab d (guarded (vk_bool ty c) body others)) [
      | true ↦ h
      | false ↦ k
    ]
    | _ ↦ k
  ]

  pub literal_matches-MatchedSound :
      (ty n : ℕ) (o : Option ℕ) (env : Scopes) (s : State)
      → ScopesSound tab env
      → Ok tab d s
      → MatchedSound (literal_matches tab ty n o env s)
  literal_matches-MatchedSound ty n none env s e h = (e, (h.0, omega (arith, h.1)))
  literal_matches-MatchedSound ty n (some u) env s e h = (e, h)

  pub stmt_next-AfterSound :
      (out : Out) (env : Scopes) (k : Value → State → After)
      → ScopesSound tab env
      → OutSound tab d out
      → ((v : Value) (s : State) → IsSound tab v → Ok tab d s → AfterSound tab d (k v s))
      → AfterSound tab d (stmt_next out env k)
  stmt_next-AfterSound (v, flow_normal, s) env k e h f = f v s h.0 h.1
  stmt_next-AfterSound (v, flow_return, s) env k e h f = (h.0, e, h.1)
  stmt_next-AfterSound (v, flow_break, s) env k e h f = (h.0, e, h.1)
  stmt_next-AfterSound (v, flow_continue, s) env k e h f = (h.0, e, h.1)
  stmt_next-AfterSound (v, flow_error, s) env k e h f = (h.0, e, h.1)
  stmt_next-AfterSound (v, flow_panic, s) env k e h f = (h.0, e, h.1)

  pub return-AfterSound :
      (out : Out) (env : Scopes)
      → ScopesSound tab env
      → OutSound tab d out
      → AfterSound tab d (leaving flow_return out env)
  return-AfterSound (v, flow_normal, s) env e h = (h.0, e, h.1)
  return-AfterSound (v, flow_return, s) env e h = (h.0, e, h.1)
  return-AfterSound (v, flow_break, s) env e h = (h.0, e, h.1)
  return-AfterSound (v, flow_continue, s) env e h = (h.0, e, h.1)
  return-AfterSound (v, flow_error, s) env e h = (h.0, e, h.1)
  return-AfterSound (v, flow_panic, s) env e h = (h.0, e, h.1)

  pub break-AfterSound :
      (out : Out) (env : Scopes)
      → ScopesSound tab env
      → OutSound tab d out
      → AfterSound tab d (leaving flow_break out env)
  break-AfterSound (v, flow_normal, s) env e h = (h.0, e, h.1)
  break-AfterSound (v, flow_return, s) env e h = (h.0, e, h.1)
  break-AfterSound (v, flow_break, s) env e h = (h.0, e, h.1)
  break-AfterSound (v, flow_continue, s) env e h = (h.0, e, h.1)
  break-AfterSound (v, flow_error, s) env e h = (h.0, e, h.1)
  break-AfterSound (v, flow_panic, s) env e h = (h.0, e, h.1)

  pub loop_turns-OutSound :
      (k : ℕ) (body : State → Out) → OnState body → OnState (λ s. loop_turns k body s)
  unfolding loop_turns
  loop_turns-OutSound zero body f s h = failed tab d s h
  loop_turns-OutSound (suc k) body f s h =
      turn-OutSound tab d (body s) (λ t. loop_turns k body t) (f s h) (loop_turns-OutSound k body f)

  while_turn-OutSound :
      (v : Value) (body again : State → Out) (u : ℕ) (s : State)
      → OnState body
      → OnState again
      → Ok tab d s
      → OutSound tab d (while_turn v body again u s)
  unfolding IsSound
  while_turn-OutSound v body again u s f g h =
      elim v as (λ w. OutSound tab d (while_turn w body again u s)) [
        | vk_bool ty b ↦
            elim b as (λ c. OutSound tab d (while_turn (vk_bool ty c) body again u s)) [
              | true ↦ turn-OutSound tab d (body s) again (f s h) g
              | false ↦ (tt, h)
            ]
        | _ ↦ failed tab d s h
      ]

  pub while_turns-OutSound :
      (k : ℕ) (cond body : State → Out) (u : ℕ)
      → OnState cond
      → OnState body
      → OnState (λ s. while_turns k cond body u s)
  unfolding while_turns
  while_turns-OutSound zero cond body u f g s h = failed tab d s h
  while_turns-OutSound (suc k) cond body u f g s h =
      let again = while_turns-OutSound k cond body u f g in
      next-OutSound tab d (cond s) _ (f s h)
        (λ v t w i. while_turn-OutSound v body (λ r. while_turns k cond body u r) u t g again i)
