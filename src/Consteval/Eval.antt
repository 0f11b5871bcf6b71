-- ===== src/Consteval/Eval.antt =====
-- compiler/consteval/eval.go: the evaluator, over the declarations of a program.
use fuse.Prelude.{
  ℕ, zero, suc, ◌==◌, Bool, true, false, List, [], ◌∷◌, Bytes, ◌++◌, Option, none, some,
}
use fuse.Check.Patterns.{lit_int, lit_bool}
use fuse.Typetable.Kind.{unit}
use fuse.Typetable.Table.{Table, look_up}
use fuse.Consteval.Value.{
  Value, Values, FieldValues, vk_invalid, vk_int, vk_bool, vk_unit, vk_tuple, vk_array, vk_struct,
  empty, elem, no_fields, field_value,
}
use fuse.Consteval.Words.{BinaryOp, bin_log_and, bin_log_or}
use fuse.Consteval.Literals.{parse_integer_literal}
use fuse.Consteval.Syntax.{
  Expr, literal, path, unary, binary, if_then, if_else, block, call, call_other, cast, tuple,
  struct_lit, field, index, match_expr, loop, while, other_expr, Exprs, no_exprs, expr, FieldExprs,
  no_field_exprs, field_expr, Block, done, trailing, then_stmt, Stmt, let_unset, let_stmt, var_stmt,
  return_unit, return_stmt, break_unit, break_stmt, continue_stmt, expr_stmt, other_stmt, Pat,
  literal_pat, bind_pat, constructor_pat, wildcard_pat, or_pat, range_pat, other_pat, Pats, no_pats,
  pat, FieldPats, no_field_pats, field_pat, Arms, no_arms, arm, guarded_arm,
}
use fuse.Consteval.State.{
  Problem, flow_normal, flow_return, flow_break, flow_continue, flow_error, State, Program, find,
  emit, Scopes, bind_name, Out, fail, next, After, then_next, max_recursion_depth,
  max_loop_iterations, lookup_variant, depth_exceeded, not_evaluable, logical_operands,
  if_condition, statement_form, call_target, index_receiver, no_arm, pattern_form,
}
use fuse.Consteval.Binding.{bind_pattern, find_field, values_length, pats_length}
use fuse.Consteval.Control.{
  matched, unmatched, broken, Matched, when, same_bool, or_recursed, or_next, with_bound,
  arm_chosen, guarded, literal_matches, in_range, first_path_seg, variant_matches, let_bound,
  stmt_next, leaving, loop_turns, while_turns,
}
use fuse.Consteval.Paths.{Deeper, eval_path, exprs_length, callee_problem, call_fn}
use fuse.Consteval.Operators.{
  give, eval_literal, apply_unary, give_bool, apply_binary, eval_cast, eval_field, eval_index,
}

module _ (prog : Program) (tab : Table) (atoi : Bytes → Option ℕ) where
  abbrev pub unit_type : ℕ
  unit_type = look_up tab unit

  abbrev pub unit_value : Value
  unit_value = vk_unit unit_type

  -- `&&` and `||` on the value of the left operand: its result, or the right operand is needed.
  abbrev pub logical_right : Out → Out
  logical_right out =
      next out (λ v s. elim v [ vk_bool ty b ↦ give_bool tab b s | _ ↦ fail logical_operands s ])

  abbrev pub logical_left : Bool → Value → (State → Out) → State → Out
  logical_left is_and (vk_bool ty true) right s = elim is_and [
    | true ↦ logical_right (right s)
    | false ↦ give_bool tab true s
  ]
  logical_left is_and (vk_bool ty false) right s = elim is_and [
    | true ↦ give_bool tab false s
    | false ↦ logical_right (right s)
  ]
  logical_left is_and _ right s = fail logical_operands s

  -- `evalBinary`, with the evaluation of each operand.
  abbrev pub eval_operands : BinaryOp → (State → Out) → (State → Out) → State → Out
  eval_operands bin_log_and left right s = next (left s) (λ v t. logical_left true v right t)
  eval_operands bin_log_or left right s = next (left s) (λ v t. logical_left false v right t)
  eval_operands op left right s =
      next (left s) (λ v t. next (right t) (λ w r. apply_binary tab op v w r))

  -- `evalIf`, with the evaluation of each branch.
  abbrev pub branch : Value → (State → Out) → (State → Out) → State → Out
  branch (vk_bool ty true) chosen other s = chosen s
  branch (vk_bool ty false) chosen other s = other s
  branch _ chosen other s = fail if_condition s

  -- `evalCall`, with the evaluation of the arguments.
  abbrev pub checked_call : Option Problem → (State → Out) → State → Out
  checked_call (some p) arguments s = fail p s
  checked_call none arguments s = arguments s

  module _ (deeper : Deeper) where
    unfoldable mutual
      -- `evalExpr`. The number is that of the levels of calls that are left, with this one.
      pub eval_expr : ℕ → Expr → Scopes → State → Out
      eval_expr zero e env s = fail depth_exceeded s
      eval_expr (suc n) (literal kind text b ty) env s = eval_literal tab kind text b ty s
      eval_expr (suc n) (path segments sym ty) env s = eval_path prog deeper segments sym ty env s
      eval_expr (suc n) (unary op e) env s =
          next (eval_expr (suc n) e env s) (λ v t. apply_unary tab op v t)
      eval_expr (suc n) (binary op l r) env s =
          eval_operands op (λ t. eval_expr (suc n) l env t) (λ t. eval_expr (suc n) r env t) s
      eval_expr (suc n) (if_then c b) env s =
          next (eval_expr (suc n) c env s)
            (λ v t. branch v (λ r. eval_block (suc n) b ([] ∷ env) r) (λ r. give unit_value r) t)
      eval_expr (suc n) (if_else c b e) env s = next (eval_expr (suc n) c env s) (λ v t.
          branch v (λ r. eval_block (suc n) b ([] ∷ env) r) (λ r. eval_expr (suc n) e env r) t)
      eval_expr (suc n) (block b) env s = eval_block (suc n) b ([] ∷ env) s
      eval_expr (suc n) (call segments sym es) env s =
          checked_call (callee_problem segments (exprs_length es) (find sym prog.fn_by_sym))
            (λ t.
              eval_exprs (suc n) es env t (λ vs r. call_fn deeper (find sym prog.fn_by_sym) vs r))
            s
      eval_expr (suc n) call_other env s = fail call_target s
      eval_expr (suc n) (cast e ty) env s =
          next (eval_expr (suc n) e env s) (λ v t. eval_cast tab ty v t)
      eval_expr (suc n) (tuple ty es) env s =
          eval_exprs (suc n) es env s (λ vs t. give (vk_tuple ty vs) t)
      eval_expr (suc n) (struct_lit ty fs) env s =
          eval_fields (suc n) fs [] no_fields env s
            (λ order values t. give (vk_struct ty order values) t)
      eval_expr (suc n) (field e name) env s =
          next (eval_expr (suc n) e env s) (λ v t. eval_field atoi name v t)
      eval_expr (suc n) (index e i) env s = next (eval_expr (suc n) e env s) (λ v t. elim v [
        | vk_array ty vs ↦ next (eval_expr (suc n) i env t) (λ w r. eval_index vs w r)
        | _ ↦ fail index_receiver t
      ])
      eval_expr (suc n) (match_expr e arms) env s =
          next (eval_expr (suc n) e env s) (λ v t. eval_arms (suc n) arms v env t)
      eval_expr (suc n) (loop b) env s =
          loop_turns max_loop_iterations (λ t. eval_block (suc n) b ([] ∷ env) t) s
      eval_expr (suc n) (while c b) env s =
          while_turns max_loop_iterations (λ t. eval_expr (suc n) c env t)
            (λ t. eval_block (suc n) b ([] ∷ env) t) unit_type s
      eval_expr (suc n) other_expr env s = fail not_evaluable s

      pub eval_exprs : ℕ → Exprs → Scopes → State → (Values → State → Out) → Out
      eval_exprs n no_exprs env s k = k empty s
      eval_exprs n (expr e es) env s k =
          next (eval_expr n e env s) (λ v t. eval_exprs n es env t (λ vs r. k (elem v vs) r))

      -- `evalStructLit`: the order of the fields, and the map, in which a later field comes first.
      pub eval_fields :
          ℕ
          → FieldExprs
          → List Bytes
          → FieldValues
          → Scopes
          → State
          → (List Bytes → FieldValues → State → Out)
          → Out
      eval_fields n no_field_exprs order values env s k = k order values s
      eval_fields n (field_expr name e fs) order values env s k =
          next (eval_expr n e env s)
            (λ v t. eval_fields n fs (order ++ (name ∷ [])) (field_value name v values) env t k)

      -- `evalBlock`, in the scope made for it.
      pub eval_block : ℕ → Block → Scopes → State → Out
      eval_block n done env s = give unit_value s
      eval_block n (trailing e) env s = eval_expr n e env s
      eval_block n (then_stmt st b) env s =
          then_next (eval_stmt n st env s) (λ inner t. eval_block n b inner t)

      pub eval_stmt : ℕ → Stmt → Scopes → State → After
      eval_stmt n (let_unset p) env s = (unit_value, flow_normal, env, s)
      eval_stmt n (let_stmt p e) env s =
          stmt_next (eval_expr n e env s) env (λ v t. let_bound unit_type (bind_pattern p v env t))
      eval_stmt n (var_stmt name e) env s =
          stmt_next (eval_expr n e env s) env
            (λ v t. (unit_value, flow_normal, bind_name name v env, t))
      eval_stmt n return_unit env s = (unit_value, flow_return, env, s)
      eval_stmt n (return_stmt e) env s = leaving flow_return (eval_expr n e env s) env
      eval_stmt n break_unit env s = (unit_value, flow_break, env, s)
      eval_stmt n (break_stmt e) env s = leaving flow_break (eval_expr n e env s) env
      eval_stmt n continue_stmt env s = (unit_value, flow_continue, env, s)
      eval_stmt n (expr_stmt e) env s =
          stmt_next (eval_expr n e env s) env (λ v t. (v, flow_normal, env, t))
      eval_stmt n other_stmt env s = (vk_invalid, flow_error, env, emit statement_form s)

      -- `evalMatch`: each arm in a scope of its own, and its body in another.
      pub eval_arms : ℕ → Arms → Value → Scopes → State → Out
      eval_arms n no_arms v env s = fail no_arm s
      eval_arms n (arm p b arms) v env s =
          arm_chosen (match_pattern n p v ([] ∷ env) s) (λ inner t. eval_block n b ([] ∷ inner) t)
            (λ t. eval_arms n arms v env t)
      eval_arms n (guarded_arm p g b arms) v env s =
          arm_chosen (match_pattern n p v ([] ∷ env) s)
            (λ inner t.
              next (eval_expr n g inner t)
                (λ w r. guarded w (eval_block n b ([] ∷ inner) r) (eval_arms n arms v env r)))
            (λ t. eval_arms n arms v env t)

      -- `matchPattern`.
      pub match_pattern : ℕ → Pat → Value → Scopes → State → Matched
      match_pattern n wildcard_pat v env s = (matched, env, s)
      match_pattern n (bind_pat name) v env s = (matched, bind_name name v env, s)
      match_pattern n (literal_pat lit_int text b) v env s = elim v [
        | vk_int ty m ↦ literal_matches tab ty m (parse_integer_literal text) env s
        | _ ↦ (unmatched, env, s)
      ]
      match_pattern n (literal_pat lit_bool text b) v env s = elim v [
        | vk_bool ty c ↦ (when (same_bool b c), env, s)
        | _ ↦ (unmatched, env, s)
      ]
      match_pattern n (literal_pat _ text b) v env s = (unmatched, env, s)
      match_pattern n (constructor_pat segments variant no_pats no_field_pats) v env s = elim v [
        | vk_int ty m ↦ (
          variant_matches (lookup_variant prog.enums (first_path_seg segments) variant) m,
          env,
          s,
        )
        | _ ↦ (unmatched, env, s)
      ]
      match_pattern n (constructor_pat segments variant no_pats (field_pat name p fs)) v env s =
          elim v [
            | vk_struct ty order values ↦ match_fields n (field_pat name p fs) values env s
            | _ ↦ (unmatched, env, s)
          ]
      match_pattern n (constructor_pat segments variant (pat p ps) fs) v env s = elim v [
        | vk_tuple ty values ↦ elim (suc (pats_length ps) == values_length values) [
          | true ↦ match_elems n (pat p ps) values env s
          | false ↦ (unmatched, env, s)
        ]
        | _ ↦ (unmatched, env, s)
      ]
      match_pattern n (or_pat ps) v env s = match_alternatives n ps v env s
      match_pattern n (range_pat inclusive lo hi) v env s =
          with_bound (eval_expr n lo env s) env (λ l t.
            with_bound (eval_expr n hi env t) env
              (λ h r. (when (in_range inclusive v l h), env, r)))
      match_pattern n other_pat v env s = (broken, env, emit pattern_form s)

      pub match_elems : ℕ → Pats → Values → Scopes → State → Matched
      match_elems n no_pats vs env s = (matched, env, s)
      match_elems n (pat p ps) empty env s = (unmatched, env, s)
      match_elems n (pat p ps) (elem v vs) env s =
          or_recursed (match_pattern n p v env s) (λ inner t. match_elems n ps vs inner t)

      pub match_fields : ℕ → FieldPats → FieldValues → Scopes → State → Matched
      match_fields n no_field_pats values env s = (matched, env, s)
      match_fields n (field_pat name p fs) values env s = elim (find_field name values) [
        | none ↦ (unmatched, env, s)
        | some v ↦
            or_recursed (match_pattern n p v env s) (λ inner t. match_fields n fs values inner t)
      ]

      pub match_alternatives : ℕ → Pats → Value → Scopes → State → Matched
      match_alternatives n no_pats v env s = (unmatched, env, s)
      match_alternatives n (pat p ps) v env s =
          or_next (match_pattern n p v env s) (λ inner t. match_alternatives n ps v inner t)

  -- The levels of calls below one another.
  abbrev pub no_deeper : Deeper
  no_deeper = record {
    initializer = λ e s. fail depth_exceeded s;
    body_of = λ b m s. fail depth_exceeded s;
  }

  unfoldable pub level : ℕ → Deeper
  level zero = record {
    initializer = λ e s. fail depth_exceeded s;
    body_of = λ b m s. eval_block no_deeper zero b ([] ∷ m ∷ []) s;
  }
  level (suc n) = record {
    initializer = λ e s. eval_expr (level n) (suc n) e ([] ∷ []) s;
    body_of = λ b m s. eval_block (level n) (suc n) b ([] ∷ m ∷ []) s;
  }

  -- Evaluation at depth zero.
  abbrev pub top_level : Deeper
  top_level = level (suc max_recursion_depth)
