-- ===== src/Consteval/Binding.antt =====
-- compiler/consteval/eval.go: bindPattern, the binding of a value to the names of a pattern.
use fuse.Prelude.{ℕ, suc, ◌==◌, true, false, Bytes, if◌then◌else◌, Option, none, some, equal}
use fuse.Consteval.Value.{
  Value, Values, FieldValues, vk_tuple, vk_struct, empty, elem, no_fields, field_value,
}
use fuse.Consteval.Syntax.{
  Pat, Pats, FieldPats, literal_pat, bind_pat, constructor_pat, wildcard_pat, or_pat, range_pat,
  other_pat, no_pats, pat, no_field_pats, field_pat,
}
use fuse.Consteval.State.{
  Problem, State, Scopes, emit, bind_name, tuple_pattern, tuple_arity, struct_pattern,
  missing_field_pattern, literal_binding, binding_form,
}

-- Whether a pattern was bound; `panicked` where Go panics.
pub data Bound : Type 0 where
  bound refused panicked : Bound

abbrev pub values_length : Values → ℕ
values_length empty = 0
values_length (elem v vs) = suc (values_length vs)

abbrev pub pats_length : Pats → ℕ
pats_length no_pats = 0
pats_length (pat p ps) = suc (pats_length ps)

unfoldable pub find_field : Bytes → FieldValues → Option Value
find_field name no_fields = none
find_field name (field_value other v fs) = if equal name other then some v else find_field name fs

abbrev pub Binding : Type 0
Binding = Bound × Scopes × State

abbrev pub refuse : Problem → Scopes → State → Binding
refuse p env s = (refused, env, emit p s)

abbrev pub and_then : Binding → (Scopes → State → Binding) → Binding
and_then (bound, env, s) k = k env s
and_then (refused, env, s) k = (refused, env, s)
and_then (panicked, env, s) k = (panicked, env, s)

-- A pattern with positional or named parts, and the other patterns.
unfoldable mutual
  -- `bindPattern`.
  pub bind_pattern : Pat → Value → Scopes → State → Binding
  bind_pattern (bind_pat name) v env s = (bound, bind_name name v env, s)
  bind_pattern wildcard_pat v env s = (bound, env, s)
  bind_pattern (constructor_pat path variant no_pats no_field_pats) v env s = (bound, env, s)
  bind_pattern (constructor_pat path variant no_pats (field_pat name p fs)) v env s = elim v [
    | vk_struct ty order values ↦ bind_fields (field_pat name p fs) values env s
    | _ ↦ refuse struct_pattern env s
  ]
  bind_pattern (constructor_pat path variant (pat p ps) fs) v env s = elim v [
    | vk_tuple ty values ↦ elim (suc (pats_length ps) == values_length values) [
      | true ↦ bind_elems (pat p ps) values env s
      | false ↦ refuse (tuple_arity (suc (pats_length ps)) (values_length values)) env s
    ]
    -- A struct has no elements.
    | vk_struct ty order values ↦ bind_elems (pat p ps) empty env s
    | _ ↦ refuse tuple_pattern env s
  ]
  bind_pattern (literal_pat kind text truth) v env s = refuse literal_binding env s
  bind_pattern (or_pat ps) v env s = refuse binding_form env s
  bind_pattern (range_pat inclusive lo hi) v env s = refuse binding_form env s
  bind_pattern other_pat v env s = refuse binding_form env s

  pub bind_elems : Pats → Values → Scopes → State → Binding
  bind_elems no_pats vs env s = (bound, env, s)
  bind_elems (pat p ps) empty env s = (panicked, env, s)
  bind_elems (pat p ps) (elem v vs) env s =
      and_then (bind_pattern p v env s) (λ env t. bind_elems ps vs env t)

  pub bind_fields : FieldPats → FieldValues → Scopes → State → Binding
  bind_fields no_field_pats values env s = (bound, env, s)
  bind_fields (field_pat name p fs) values env s = elim (find_field name values) [
    | none ↦ refuse (missing_field_pattern name) env s
    | some v ↦ and_then (bind_pattern p v env s) (λ env t. bind_fields fs values env t)
  ]
