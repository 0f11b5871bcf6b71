-- ===== src/Consteval/Sound.antt =====
-- compiler/consteval: values whose words fit into their types, and the outcomes of evaluation.
pub mod LiteralWords
pub mod Operands
pub mod Parts
pub mod Paths
pub mod Control
pub mod Branches
pub mod Eval
use fuse.Prelude.{
  ℕ, zero, suc, ◌^◌, ◌<◌, ◌≤◌, Bool, true, false, [], ◌∷◌, Bytes, length, All, if◌then◌else◌,
  Option, none, some, arith, equal,
}
use fuse.Prelude.Maps.{Map, lookup}
use fuse.Typetable.Table.{Table}
use fuse.Consteval.Value.{
  Value, Values, FieldValues, vk_invalid, vk_int, vk_bool, vk_unit, vk_tuple, vk_array, vk_struct,
  vk_char, empty, elem, no_fields, field_value, integer_bits,
}
use fuse.Consteval.State.{
  Problem, Flow, flow_normal, flow_return, flow_break, flow_continue, flow_error, flow_panic, State,
  emit, Scopes, bind_name, lookup_name, found_or, Out, fail, next, After, then_next, turn, returned,
}
use fuse.Consteval.Binding.{find_field}
use fuse.Consteval.Operators.{value_at}

module _ (tab : Table) where
  unfoldable mutual
    -- A value that is valid, each of whose words fits into its type.
    pub IsSound : Value → Type 0
    IsSound vk_invalid = 1 ≤ 0
    IsSound (vk_int ty n) = n < 2 ^ integer_bits tab ty
    IsSound (vk_bool ty b) = Unit
    IsSound (vk_unit ty) = Unit
    IsSound (vk_tuple ty vs) = AllSound vs
    IsSound (vk_array ty vs) = AllSound vs
    IsSound (vk_struct ty order fs) = FieldsSound fs
    IsSound (vk_char ty n) = n < 2 ^ integer_bits tab ty

    pub AllSound : Values → Type 0
    AllSound empty = Unit
    AllSound (elem v vs) = IsSound v × AllSound vs

    pub FieldsSound : FieldValues → Type 0
    FieldsSound no_fields = Unit
    FieldsSound (field_value name v fs) = IsSound v × FieldsSound fs

  abbrev pub MapSound : Map Value → Type 0
  MapSound m = All (λ e. IsSound e.1) m

  abbrev pub ScopesSound : Scopes → Type 0
  ScopesSound env = All MapSound env

  abbrev pub OptionSound : Option Value → Type 0
  OptionSound none = Unit
  OptionSound (some v) = IsSound v

  pub find_field-OptionSound :
      (name : Bytes) (fs : FieldValues) → FieldsSound fs → OptionSound (find_field name fs)
  unfolding find_field IsSound
  find_field-OptionSound name no_fields h = tt
  find_field-OptionSound name (field_value other v fs) h =
      ground (arith, h, find_field-OptionSound name fs h.1)

  pub value_at-OptionSound : (vs : Values) (i : ℕ) → AllSound vs → OptionSound (value_at vs i)
  unfolding IsSound
  value_at-OptionSound empty i h = tt
  value_at-OptionSound (elem v vs) zero h = h.0
  value_at-OptionSound (elem v vs) (suc i) h = value_at-OptionSound vs i h.1

  lookup-OptionSound : (name : Bytes) (m : Map Value) → MapSound m → OptionSound (lookup name m)
  unfolding lookup
  lookup-OptionSound name [] h = tt
  lookup-OptionSound name (e ∷ m) h =
      by_test (equal name e.0) _ _ h.0 (lookup-OptionSound name m h.1)
    where
      by_test :
          (b : Bool) (o : Option Value) (v : Value)
          → IsSound v
          → OptionSound o
          → OptionSound (if b then some v else o)
      by_test true o v h k = h
      by_test false o v h k = k

  pub lookup_name-OptionSound :
      (name : Bytes) (env : Scopes) → ScopesSound env → OptionSound (lookup_name name env)
  unfolding lookup_name
  lookup_name-OptionSound name [] h = tt
  lookup_name-OptionSound name (m ∷ env) h =
      either_found (lookup name m) _ (lookup-OptionSound name m h.0)
        (lookup_name-OptionSound name env h.1)
    where
      either_found :
          (o p : Option Value) → OptionSound o → OptionSound p → OptionSound (found_or o p)
      either_found none p h k = k
      either_found (some v) p h k = h

  pub bind_name-ScopesSound :
      (name : Bytes) (v : Value) (env : Scopes)
      → IsSound v
      → ScopesSound env
      → ScopesSound (bind_name name v env)
  bind_name-ScopesSound name v [] h k = ((h, tt), tt)
  bind_name-ScopesSound name v (m ∷ env) h k = ((h, k.0), k.1)

  -- The states that evaluation may come to from one with `d` reports.
  module _ (d : ℕ) where
    abbrev pub Ok : State → Type 0
    Ok s = All (λ e. IsSound e.1) s.cache × (d ≤ length s.diags)

    pub emit-Ok : (p : Problem) (s : State) → Ok s → Ok (emit p s)
    emit-Ok p s h = (h.0, omega (arith, h.1))

    -- The value of an outcome counts, unless it is an error.
    abbrev pub FlowSound : Flow → Value → Type 0
    FlowSound flow_error v = Unit
    FlowSound flow_panic v = Unit
    FlowSound _ v = IsSound v

    abbrev pub OutSound : Out → Type 0
    OutSound out = FlowSound out.1 out.0 × Ok out.2

    abbrev pub AfterSound : After → Type 0
    AfterSound out = FlowSound out.1 out.0 × ScopesSound out.2 × Ok out.3

    -- A failure, whatever it reports.
    pub failed :
        (s : State)
        → Ok s
        → Unit {0} × (All (λ e. IsSound e.1) s.cache × (d ≤ suc (length s.diags)))
    failed s h = (tt, (h.0, omega (arith, h.1)))

    pub fail-OutSound : (p : Problem) (s : State) → Ok s → OutSound (fail p s)
    fail-OutSound p s h = (tt, emit-Ok p s h)

    pub next-OutSound :
        (out : Out) (k : Value → State → Out)
        → OutSound out
        → ((v : Value) (s : State) → IsSound v → Ok s → OutSound (k v s))
        → OutSound (next out k)
    next-OutSound (v, flow_normal, s) k h f = f v s h.0 h.1
    next-OutSound (v, flow_return, s) k h f = h
    next-OutSound (v, flow_break, s) k h f = h
    next-OutSound (v, flow_continue, s) k h f = h
    next-OutSound (v, flow_error, s) k h f = h
    next-OutSound (v, flow_panic, s) k h f = h

    pub then_next-OutSound :
        (out : After) (k : Scopes → State → Out)
        → AfterSound out
        → ((env : Scopes) (s : State) → ScopesSound env → Ok s → OutSound (k env s))
        → OutSound (then_next out k)
    then_next-OutSound (v, flow_normal, env, s) k h f = f env s h.1 h.2
    then_next-OutSound (v, flow_return, env, s) k h f = (h.0, h.2)
    then_next-OutSound (v, flow_break, env, s) k h f = (h.0, h.2)
    then_next-OutSound (v, flow_continue, env, s) k h f = (h.0, h.2)
    then_next-OutSound (v, flow_error, env, s) k h f = (h.0, h.2)
    then_next-OutSound (v, flow_panic, env, s) k h f = (h.0, h.2)

    pub turn-OutSound :
        (out : Out) (again : State → Out)
        → OutSound out
        → ((s : State) → Ok s → OutSound (again s))
        → OutSound (turn out again)
    turn-OutSound (v, flow_normal, s) again h f = f s h.1
    turn-OutSound (v, flow_continue, s) again h f = f s h.1
    turn-OutSound (v, flow_break, s) again h f = h
    turn-OutSound (v, flow_return, s) again h f = h
    turn-OutSound (v, flow_error, s) again h f = h
    turn-OutSound (v, flow_panic, s) again h f = h

    pub returned-OutSound : (out : Out) → OutSound out → OutSound (returned out)
    returned-OutSound (v, flow_normal, s) h = h
    returned-OutSound (v, flow_return, s) h = h
    returned-OutSound (v, flow_break, s) h = h
    returned-OutSound (v, flow_continue, s) h = h
    returned-OutSound (v, flow_error, s) h = h
    returned-OutSound (v, flow_panic, s) h = h
