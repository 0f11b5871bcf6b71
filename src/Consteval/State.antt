-- ===== src/Consteval/State.antt =====
-- compiler/consteval/eval.go: the evaluator's state, its flows, scopes and reports.
use fuse.Prelude.{ℕ, suc, ◌^◌, ◌==◌, List, [], ◌∷◌, Bytes, if◌then◌else◌, Option, none, some, equal}
use fuse.Prelude.Maps.{Map, lookup, put}
use fuse.Consteval.Value.{Value, vk_invalid}
use fuse.Consteval.Words.{BinaryOp}
use fuse.Consteval.Syntax.{ConstDecl, FnDecl, EnumDecl}

-- The reports of the evaluator, one constructor for each message.
pub data Problem : Type 0 where
  depth_exceeded not_evaluable invalid_integer invalid_char literal_kind : Problem
  not_a_constant : List Bytes → Problem
  neg_operand not_operand unary_operator logical_operands mixed_types : Problem
  division_by_zero modulo_by_zero mixed_kinds comparison_operands : Problem
  integer_operands binary_operator : BinaryOp → Problem
  if_condition statement_form tuple_pattern struct_pattern literal_binding : Problem
  tuple_arity : ℕ → ℕ → Problem
  missing_field_pattern : Bytes → Problem
  binding_form call_target : Problem
  unresolved_fn : List Bytes → Problem
  non_const_fn extern_fn no_body no_initializer : Bytes → Problem
  call_arity : Bytes → ℕ → ℕ → Problem
  cast_target cast_source field_receiver index_receiver index_type : Problem
  missing_field : Bytes → Problem
  tuple_index : Bytes → ℕ → Problem
  index_bounds : ℕ → ℕ → Problem
  no_arm invalid_pattern pattern_form : Problem
  loop_limit while_condition while_limit const_early_return static_early_return : Problem

-- `flow`. A Go panic, which ends the compiler, is `flow_panic`.
pub data Flow : Type 0 where
  flow_normal flow_return flow_break flow_continue flow_error flow_panic : Flow

-- What evaluation changes of an `Evaluator`: the cache of constants and the reports, of which
-- the last comes first.
pub record State : Type 0 where
  pub cache : List (ℕ × Value)
  pub diags : List Problem

-- What evaluation reads of an `Evaluator`: the declarations by their symbols, and the enums in
-- the order of the program.
pub record Program : Type 0 where
  pub const_decls : List (ℕ × ConstDecl)
  pub static_decls : List (ℕ × ConstDecl)
  pub fn_by_sym : List (ℕ × FnDecl)
  pub enums : List EnumDecl

unfoldable pub find {ℓ} : {A : Type ℓ} → ℕ → List (ℕ × A) → Option A
find k [] = none
find k (e ∷ es) = if k == e.0 then some e.1 else find k es

-- `emit`.
abbrev pub emit : Problem → State → State
emit p s = record s { diags = p ∷ s.diags }

-- A chain of scopes, the innermost first.
abbrev pub Scopes : Type 0
Scopes = List (Map Value)

-- `scope.bind`.
abbrev pub bind_name : Bytes → Value → Scopes → Scopes
bind_name name v [] = put name v [] ∷ []
bind_name name v (m ∷ ms) = put name v m ∷ ms

-- `scope.lookup`.
abbrev pub found_or : Option Value → Option Value → Option Value
found_or (some v) later = some v
found_or none later = later

unfoldable pub lookup_name : Bytes → Scopes → Option Value
lookup_name name [] = none
lookup_name name (m ∷ ms) = found_or (lookup name m) (lookup_name name ms)

-- A value with a flow, and the state after it.
abbrev pub Out : Type 0
Out = Value × Flow × State

abbrev pub fail : Problem → State → Out
fail p s = (vk_invalid, flow_error, emit p s)

-- Evaluation goes on where the flow is normal.
abbrev pub next : Out → (Value → State → Out) → Out
next (v, flow_normal, s) k = k v s
next (v, flow_return, s) k = (v, flow_return, s)
next (v, flow_break, s) k = (v, flow_break, s)
next (v, flow_continue, s) k = (v, flow_continue, s)
next (v, flow_error, s) k = (v, flow_error, s)
next (v, flow_panic, s) k = (v, flow_panic, s)

-- The outcome of a statement has the scopes after it.
abbrev pub After : Type 0
After = Value × Flow × Scopes × State

abbrev pub then_next : After → (Scopes → State → Out) → Out
then_next (v, flow_normal, env, s) k = k env s
then_next (v, flow_return, env, s) k = (v, flow_return, s)
then_next (v, flow_break, env, s) k = (v, flow_break, s)
then_next (v, flow_continue, env, s) k = (v, flow_continue, s)
then_next (v, flow_error, env, s) k = (v, flow_error, s)
then_next (v, flow_panic, env, s) k = (v, flow_panic, s)

-- The body of a loop has run.
abbrev pub turn : Out → (State → Out) → Out
turn (v, flow_normal, s) again = again s
turn (v, flow_continue, s) again = again s
turn (v, flow_break, s) again = (v, flow_normal, s)
turn (v, flow_return, s) again = (v, flow_return, s)
turn (v, flow_error, s) again = (v, flow_error, s)
turn (v, flow_panic, s) again = (v, flow_panic, s)

-- The end of a call.
abbrev pub returned : Out → Out
returned (v, flow_error, s) = (v, flow_error, s)
returned (v, flow_panic, s) = (v, flow_panic, s)
returned (v, _, s) = (v, flow_normal, s)

-- `maxRecursionDepth` and `maxLoopIterations`.
abbrev pub max_recursion_depth : ℕ
max_recursion_depth = 256

abbrev pub max_loop_iterations : ℕ
max_loop_iterations = 2 ^ 20

-- `lookupEnumVariantIndex`.
abbrev pub index_of : ℕ → Bytes → List Bytes → Option ℕ
index_of i name [] = none
index_of i name (v ∷ vs) = if equal v name then some i else index_of (suc i) name vs

abbrev pub or_else : Option ℕ → Option ℕ → Option ℕ
or_else (some i) later = some i
or_else none later = later

unfoldable pub lookup_variant : List EnumDecl → Bytes → Bytes → Option ℕ
lookup_variant [] enum variant = none
lookup_variant (e ∷ es) enum variant =
    if equal e.name enum
    then or_else (index_of 0 variant e.variants) (lookup_variant es enum variant)
    else lookup_variant es enum variant
