-- ===== src/Consteval/Paths.antt =====
-- compiler/consteval/eval.go: paths, declarations and the callee of a call.
use fuse.Prelude.{ℕ, suc, ◌==◌, List, [], ◌∷◌, Bytes, length, if◌then◌else◌, Option, none, some}
use fuse.Prelude.Maps.{Map, put}
use fuse.Consteval.Value.{Value, Values, vk_invalid, vk_int, empty, elem}
use fuse.Consteval.Words.{wrap}
use fuse.Consteval.Syntax.{Expr, Exprs, no_exprs, expr, Block, ConstDecl, FnDecl}
use fuse.Consteval.State.{
  Problem, flow_normal, flow_error, flow_panic, State, Program, find, emit, Scopes, lookup_name,
  Out, fail, returned, lookup_variant, not_a_constant, unresolved_fn, non_const_fn, extern_fn,
  no_body, no_initializer, call_arity, const_early_return, static_early_return,
}
use fuse.Consteval.Operators.{give}

-- The evaluation one level of calls further down: of an initializer in a scope of its own, and
-- of the body of a function in the scope of its parameters.
pub record Deeper : Type 0 where
  pub initializer : Expr → State → Out
  pub body_of : Block → Map Value → State → Out

abbrev pub remember : ConstDecl → Value → State → State
remember c v s = if c.sym_id == 0 then s else record s { cache = (c.sym_id, v) ∷ s.cache }

abbrev pub cached : ConstDecl → State → Option Value
cached c s = if c.sym_id == 0 then none else find c.sym_id s.cache

-- The value of an initializer, if it is one.
abbrev pub keep_valid : (Value → State → State) → Value → State → Out
keep_valid keep vk_invalid s = (vk_invalid, flow_error, s)
keep_valid keep v s = (v, flow_normal, keep v s)

abbrev pub finish : Problem → (Value → State → State) → Out → Out
finish p keep (v, flow_normal, s) = keep_valid keep v s
finish p keep (v, flow_panic, s) = (v, flow_panic, s)
finish p keep (v, _, s) = (vk_invalid, flow_error, emit p s)

-- `evalConstDecl`. A flow that is not normal stands for its `false`.
abbrev pub initialized : Deeper → ConstDecl → Option Expr → State → Out
initialized deeper c none s = fail (no_initializer c.name) s
initialized deeper c (some e) s =
    finish const_early_return (λ v t. remember c v t) (deeper.initializer e s)

abbrev pub const_or : Deeper → ConstDecl → Option Value → State → Out
const_or deeper c (some v) s = give v s
const_or deeper c none s = initialized deeper c c.value s

unfoldable pub eval_const_decl : Deeper → ConstDecl → State → Out
eval_const_decl deeper c s = const_or deeper c (cached c s) s

-- `evalStaticDecl`.
abbrev pub static_value : Deeper → Option Expr → State → Out
static_value deeper none s = (vk_invalid, flow_error, s)
static_value deeper (some e) s = finish static_early_return (λ v t. t) (deeper.initializer e s)

unfoldable pub eval_static_decl : Deeper → ConstDecl → State → Out
eval_static_decl deeper c s = static_value deeper c.value s

abbrev pub with_symbol {ℓ} : {A : Type ℓ} → ℕ → List (ℕ × A) → Option A
with_symbol sym ds = if sym == 0 then none else find sym ds

module _ (prog : Program) (deeper : Deeper) where
  -- A path of two segments may name a variant.
  abbrev pub variant_or : ℕ → List Bytes → Option ℕ → State → Out
  variant_or ty segments (some i) s = give (vk_int ty (wrap i)) s
  variant_or ty segments none s = fail (not_a_constant segments) s

  abbrev pub variant_path : ℕ → List Bytes → State → Out
  variant_path ty [] s = fail (not_a_constant []) s
  variant_path ty (a ∷ []) s = fail (not_a_constant (a ∷ [])) s
  variant_path ty (a ∷ b ∷ []) s = variant_or ty (a ∷ b ∷ []) (lookup_variant prog.enums a b) s
  variant_path ty (a ∷ b ∷ c ∷ more) s = fail (not_a_constant (a ∷ b ∷ c ∷ more)) s

  abbrev pub static_or : ℕ → List Bytes → Option ConstDecl → State → Out
  static_or ty segments (some d) s = eval_static_decl deeper d s
  static_or ty segments none s = variant_path ty segments s

  abbrev pub global_path : ℕ → List Bytes → ℕ → Option ConstDecl → State → Out
  global_path ty segments sym (some c) s = eval_const_decl deeper c s
  global_path ty segments sym none s = static_or ty segments (with_symbol sym prog.static_decls) s

  abbrev pub local_or : ℕ → List Bytes → ℕ → Option Value → State → Out
  local_or ty segments sym (some v) s = give v s
  local_or ty segments sym none s = global_path ty segments sym (with_symbol sym prog.const_decls) s

  abbrev pub local_value : List Bytes → Scopes → Option Value
  local_value [] env = none
  local_value (name ∷ []) env = lookup_name name env
  local_value (name ∷ x ∷ xs) env = none

  -- `evalPath`.
  unfoldable pub eval_path : List Bytes → ℕ → ℕ → Scopes → State → Out
  eval_path segments sym ty env s = local_or ty segments sym (local_value segments env) s

abbrev pub exprs_length : Exprs → ℕ
exprs_length no_exprs = 0
exprs_length (expr e es) = suc (exprs_length es)

-- The scope of a call: the parameters, each with its argument.
abbrev pub bind_params : List Bytes → Values → Map Value → Map Value
bind_params [] vs m = m
bind_params (p ∷ ps) empty m = m
bind_params (p ∷ ps) (elem v vs) m = bind_params ps vs (put p v m)

-- The body of a function in the scope of its parameters.
abbrev pub run_body : Deeper → FnDecl → Option Block → Values → State → Out
run_body deeper f none vs s = fail (no_body f.name) s
run_body deeper f (some b) vs s = returned (deeper.body_of b (bind_params f.params vs []) s)

-- The checks of `evalCall` before the arguments are evaluated.
abbrev pub callee_problem : List Bytes → ℕ → Option FnDecl → Option Problem
callee_problem segments n none = some (unresolved_fn segments)
callee_problem segments n (some f) =
    if f.is_const
    then (if f.is_extern
        then some (extern_fn f.name)
        else if length f.params == n
        then none
        else some (call_arity f.name (length f.params) n))
    else some (non_const_fn f.name)

abbrev pub call_fn : Deeper → Option FnDecl → Values → State → Out
call_fn deeper none vs s = fail (unresolved_fn []) s
call_fn deeper (some f) vs s = run_body deeper f f.body vs s
