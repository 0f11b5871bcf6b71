-- ===== src/Consteval/Sound/Parts.antt =====
-- compiler/consteval/eval.go: fields, elements, bindings and paths keep values sound.

use fuse.Prelude.{ℕ, suc, ◌≤◌, ◌==◌, true, false, Bytes, length, All, Option, none, some, arith}
use fuse.Typetable.Table.{Table}
use fuse.Consteval.Value.{Value, Values, FieldValues, vk_int, vk_tuple, vk_struct, empty, elem}
use fuse.Consteval.Syntax.{
  Pat, Pats, FieldPats, literal_pat, bind_pat, constructor_pat, wildcard_pat, or_pat, range_pat,
  other_pat, no_pats, pat, no_field_pats, field_pat,
}
use fuse.Consteval.State.{State, Scopes, emit, missing_field_pattern, tuple_arity}
use fuse.Consteval.Binding.{
  bound, refused, panicked, Binding, bind_pattern, bind_elems, bind_fields, and_then, find_field,
  values_length, pats_length,
}
use fuse.Consteval.Control.{let_bound}
use fuse.Consteval.Operators.{elem_at, eval_field, eval_index, index_elem, as_int}
use fuse.Consteval.Sound.Operands.{give_or-OutSound}
use fuse.Consteval.Sound.{
  IsSound, AllSound, FieldsSound, OptionSound, ScopesSound, Ok, OutSound, AfterSound, failed,
  find_field-OptionSound, value_at-OptionSound, bind_name-ScopesSound,
}

module _ (tab : Table) (d : ℕ) where
  pub eval_field-OutSound :
      (atoi : Bytes → Option ℕ) (name : Bytes) (v : Value) (s : State)
      → IsSound tab v
      → Ok tab d s
      → OutSound tab d (eval_field atoi name v s)
  unfolding eval_field IsSound
  eval_field-OutSound atoi name v s w h =
      elim v as (λ k. IsSound tab k → OutSound tab d (eval_field atoi name k s)) [
        | vk_struct ty order fs ↦
            λ v. give_or-OutSound tab d _ _ s (find_field-OptionSound tab name fs v) h
        | vk_tuple ty vs ↦ λ v. at_index vs (atoi name) v
        | _ ↦ λ v. failed tab d s h
      ]
        w
    where
      at_index :
          (vs : Values) (o : Option ℕ) → AllSound tab vs → OutSound tab d (elem_at atoi name vs o s)
      at_index vs none v = failed tab d s h
      at_index vs (some i) v = give_or-OutSound tab d _ _ s (value_at-OptionSound tab vs i v) h

  pub eval_index-OutSound :
      (vs : Values) (i : Value) (s : State)
      → AllSound tab vs
      → Ok tab d s
      → OutSound tab d (eval_index vs i s)
  eval_index-OutSound vs i s w h = elim i as (λ k. OutSound tab d (eval_index vs k s)) [
    | vk_int ty n ↦ at_index n (as_int n)
    | _ ↦ failed tab d s h
  ]
    where
      at_index : (n : ℕ) (o : Option ℕ) → OutSound tab d (index_elem vs n o s)
      at_index n none = failed tab d s h
      at_index n (some i) = give_or-OutSound tab d _ _ s (value_at-OptionSound tab vs i w) h

  abbrev BindingSound : Binding → Type 0
  BindingSound b = ScopesSound tab b.1 × Ok tab d b.2

  -- A refusal, whatever it reports.
  refused-IsSound :
      (env : Scopes) (s : State)
      → ScopesSound tab env
      → Ok tab d s
      → ScopesSound tab env × (All (λ e. IsSound tab e.1) s.cache × (d ≤ suc (length s.diags)))
  refused-IsSound env s e h = (e, (h.0, omega (arith, h.1)))

  and_then-BindingSound :
      (b : Binding) (k : Scopes → State → Binding)
      → BindingSound b
      → ((env : Scopes) (s : State) → ScopesSound tab env → Ok tab d s → BindingSound (k env s))
      → BindingSound (and_then b k)
  and_then-BindingSound (bound, env, s) k h f = f env s h.0 h.1
  and_then-BindingSound (refused, env, s) k h f = h
  and_then-BindingSound (panicked, env, s) k h f = h

  mutual
    unfolding bind_pattern IsSound

    pub bind_pattern-BindingSound :
        (p : Pat) (v : Value) (env : Scopes) (s : State)
        → IsSound tab v
        → ScopesSound tab env
        → Ok tab d s
        → BindingSound (bind_pattern p v env s)
    bind_pattern-BindingSound (bind_pat name) v env s w e h =
        (bind_name-ScopesSound tab name v env w e, h)
    bind_pattern-BindingSound wildcard_pat v env s w e h = (e, h)
    bind_pattern-BindingSound (constructor_pat path variant no_pats no_field_pats) v env s w e h =
        (e, h)
    bind_pattern-BindingSound (constructor_pat path variant no_pats (field_pat name p fs)) v env s w
          e h =
        elim v
            as (λ k.
              IsSound tab k
              → BindingSound (
                  bind_pattern (constructor_pat path variant no_pats (field_pat name p fs)) k env
                    s)) [
                      | vk_struct ty order values ↦
                          λ w. bind_fields-BindingSound (field_pat name p fs) values env s w e h
                      | _ ↦ λ w. refused-IsSound env s e h
                    ]
          w
    bind_pattern-BindingSound (constructor_pat path variant (pat p ps) fs) v env s w e h =
        elim v
            as (λ k.
              IsSound tab k
              → BindingSound (bind_pattern (constructor_pat path variant (pat p ps) fs) k env s)) [
                | vk_tuple ty values ↦ λ w.
                    elim (suc (pats_length ps) == values_length values)
                      as (λ b. BindingSound (elim b [
                        | true ↦ bind_elems (pat p ps) values env s
                        | false ↦ (
                          refused,
                          env,
                          emit (tuple_arity (suc (pats_length ps)) (values_length values)) s,
                        )
                      ])) [
                        | true ↦ bind_elems-BindingSound (pat p ps) values env s w e h
                        | false ↦ refused-IsSound env s e h
                      ]
                | vk_struct ty order values ↦
                    λ w. bind_elems-BindingSound (pat p ps) empty env s tt e h
                | _ ↦ λ w. refused-IsSound env s e h
              ]
          w
    bind_pattern-BindingSound (literal_pat kind text truth) v env s w e h =
        refused-IsSound env s e h
    bind_pattern-BindingSound (or_pat ps) v env s w e h = refused-IsSound env s e h
    bind_pattern-BindingSound (range_pat inclusive lo hi) v env s w e h = refused-IsSound env s e h
    bind_pattern-BindingSound other_pat v env s w e h = refused-IsSound env s e h

    bind_elems-BindingSound :
        (ps : Pats) (vs : Values) (env : Scopes) (s : State)
        → AllSound tab vs
        → ScopesSound tab env
        → Ok tab d s
        → BindingSound (bind_elems ps vs env s)
    bind_elems-BindingSound no_pats vs env s w e h = (e, h)
    bind_elems-BindingSound (pat p ps) empty env s w e h = (e, h)
    bind_elems-BindingSound (pat p ps) (elem v vs) env s w e h =
        and_then-BindingSound (bind_pattern p v env s) (λ inner t. bind_elems ps vs inner t)
          (bind_pattern-BindingSound p v env s w.0 e h)
          (λ inner t i k. bind_elems-BindingSound ps vs inner t w.1 i k)

    bind_fields-BindingSound :
        (fs : FieldPats) (values : FieldValues) (env : Scopes) (s : State)
        → FieldsSound tab values
        → ScopesSound tab env
        → Ok tab d s
        → BindingSound (bind_fields fs values env s)
    bind_fields-BindingSound no_field_pats values env s w e h = (e, h)
    bind_fields-BindingSound (field_pat name p fs) values env s w e h =
        elim (find_field name values)
            as (λ o.
              OptionSound tab o
              → BindingSound (elim o [
                | none ↦ (refused, env, emit (missing_field_pattern name) s)
                | some v ↦
                    and_then (bind_pattern p v env s) (λ inner t. bind_fields fs values inner t)
              ])) [
                | none ↦ λ q. refused-IsSound env s e h
                | some v ↦ λ q.
                    and_then-BindingSound (bind_pattern p v env s)
                      (λ inner t. bind_fields fs values inner t)
                      (bind_pattern-BindingSound p v env s q e h)
                      (λ inner t i k. bind_fields-BindingSound fs values inner t w i k)
              ]
          (find_field-OptionSound tab name values w)

  pub let_bound-AfterSound :
      (ty : ℕ) (b : Binding) → BindingSound b → AfterSound tab d (let_bound ty b)
  unfolding IsSound
  let_bound-AfterSound ty (bound, env, s) h = (tt, h.0, h.1)
  let_bound-AfterSound ty (refused, env, s) h = (tt, h.0, h.1)
  let_bound-AfterSound ty (panicked, env, s) h = (tt, h.0, h.1)
