-- ===== src/Consteval/Sound/Eval.antt =====
-- compiler/consteval/eval.go: evaluation keeps values sound.
use fuse.Prelude.{
  arith, ℕ, zero, suc, ◌==◌, true, false, List, [], ◌∷◌, Bytes, ◌++◌, Option, none, some,
}
use fuse.Check.Patterns.{
  lit_int, lit_float, lit_string, lit_raw_string, lit_cstring, lit_char, lit_bool, lit_none,
}
use fuse.Typetable.Table.{Table}
use fuse.Consteval.Value.{
  Value, Values, FieldValues, vk_int, vk_bool, vk_tuple, vk_array, vk_struct, empty, elem,
  no_fields, field_value,
}
use fuse.Consteval.Literals.{parse_integer_literal}
use fuse.Consteval.Syntax.{
  Expr, literal, path, unary, binary, if_then, if_else, block, call, call_other, cast, tuple,
  struct_lit, field, index, match_expr, loop, while, other_expr, Exprs, no_exprs, expr, FieldExprs,
  no_field_exprs, field_expr, Block, done, trailing, then_stmt, Stmt, let_unset, let_stmt, var_stmt,
  return_unit, return_stmt, break_unit, break_stmt, continue_stmt, expr_stmt, other_stmt, Pat,
  literal_pat, bind_pat, constructor_pat, wildcard_pat, or_pat, range_pat, other_pat, Pats, no_pats,
  pat, FieldPats, no_field_pats, field_pat, Arms, no_arms, arm, guarded_arm,
}
use fuse.Consteval.State.{
  State, Program, find, Scopes, Out, fail, next, max_loop_iterations, index_receiver,
}
use fuse.Consteval.Binding.{find_field, values_length, pats_length}
use fuse.Consteval.Control.{unmatched, or_recursed}
use fuse.Consteval.Paths.{Deeper, exprs_length, callee_problem}
use fuse.Consteval.Operators.{eval_index}
use fuse.Consteval.Eval.{
  unit_type, eval_expr, eval_exprs, eval_fields, eval_block, eval_stmt, eval_arms, match_pattern,
  match_elems, match_fields, match_alternatives,
}
use fuse.Consteval.Sound.{
  IsSound, AllSound, FieldsSound, OptionSound, ScopesSound, Ok, OutSound, AfterSound, failed,
  next-OutSound, then_next-OutSound, find_field-OptionSound, bind_name-ScopesSound,
}
use fuse.Consteval.Sound.Operands.{eval_literal-OutSound, apply_unary-OutSound, eval_cast-OutSound}
use fuse.Consteval.Sound.Parts.{
  eval_field-OutSound, eval_index-OutSound, bind_pattern-BindingSound, let_bound-AfterSound,
}
use fuse.Consteval.Sound.Paths.{IsSmall, DeeperSound, eval_path-OutSound, call_fn-OutSound}
use fuse.Consteval.Sound.Control.{
  MatchedSound, or_recursed-MatchedSound, or_next-MatchedSound, with_bound-MatchedSound,
  arm_chosen-OutSound, guarded-OutSound, literal_matches-MatchedSound, stmt_next-AfterSound,
  return-AfterSound, break-AfterSound, loop_turns-OutSound, while_turns-OutSound,
}
use fuse.Consteval.Sound.Branches.{eval_operands-OutSound, branch-OutSound, checked_call-OutSound}

module _ (prog : Program) (tab : Table) (atoi : Bytes → Option ℕ) (d : ℕ) (deeper : Deeper) where
  -- What is assumed of the program and of the evaluation further down.
  abbrev Assumed : Type 0
  Assumed = IsSmall prog × DeeperSound tab d deeper

  inner-ScopesSound : (env : Scopes) → ScopesSound tab env → ScopesSound tab ([] ∷ env)
  inner-ScopesSound env e = (tt, e)

  mutual
    unfolding eval_expr IsSound

    pub eval_expr-OutSound :
        (n : ℕ) (e : Expr) (env : Scopes) (s : State)
        → Assumed
        → ScopesSound tab env
        → Ok tab d s
        → OutSound tab d (eval_expr prog tab atoi deeper n e env s)
    eval_expr-OutSound zero e env s a v h = failed tab d s h
    eval_expr-OutSound (suc n) (literal kind text b ty) env s a v h =
        eval_literal-OutSound tab d kind text b ty s h
    eval_expr-OutSound (suc n) (path segments sym ty) env s a v h =
        eval_path-OutSound tab d prog deeper segments sym ty env s a.0 a.1 v h
    eval_expr-OutSound (suc n) (unary op e) env s a v h =
        next-OutSound tab d _ _ (eval_expr-OutSound (suc n) e env s a v h)
          (λ x t w i. apply_unary-OutSound tab d op x t w i)
    eval_expr-OutSound (suc n) (binary op l r) env s a v h =
        eval_operands-OutSound prog tab atoi d op _ _ s
          (λ t i. eval_expr-OutSound (suc n) l env t a v i)
          (λ t i. eval_expr-OutSound (suc n) r env t a v i) h
    eval_expr-OutSound (suc n) (if_then c b) env s a v h =
        next-OutSound tab d _ _ (eval_expr-OutSound (suc n) c env s a v h) (λ x t w i.
          branch-OutSound prog tab atoi d x _ _ t
            (λ r j. eval_block-OutSound (suc n) b ([] ∷ env) r a (tt, v) j) (λ r j. (tt, j)) i)
    eval_expr-OutSound (suc n) (if_else c b e) env s a v h =
        next-OutSound tab d _ _ (eval_expr-OutSound (suc n) c env s a v h) (λ x t w i.
          branch-OutSound prog tab atoi d x _ _ t
            (λ r j. eval_block-OutSound (suc n) b ([] ∷ env) r a (tt, v) j)
            (λ r j. eval_expr-OutSound (suc n) e env r a v j) i)
    eval_expr-OutSound (suc n) (block b) env s a v h =
        eval_block-OutSound (suc n) b ([] ∷ env) s a (tt, v) h
    eval_expr-OutSound (suc n) (call segments sym es) env s a v h =
        checked_call-OutSound prog tab atoi d
          (callee_problem segments (exprs_length es) (find sym prog.fn_by_sym)) _ s
          (λ t i.
            eval_exprs-OutSound (suc n) es env t _ a v i
              (λ vs r w j. call_fn-OutSound tab d deeper (find sym prog.fn_by_sym) vs r a.1 w j))
          h
    eval_expr-OutSound (suc n) call_other env s a v h = failed tab d s h
    eval_expr-OutSound (suc n) (cast e ty) env s a v h =
        next-OutSound tab d _ _ (eval_expr-OutSound (suc n) e env s a v h)
          (λ x t w i. eval_cast-OutSound tab d ty x t w i)
    eval_expr-OutSound (suc n) (tuple ty es) env s a v h =
        eval_exprs-OutSound (suc n) es env s _ a v h (λ vs t w i. (w, i))
    eval_expr-OutSound (suc n) (struct_lit ty fs) env s a v h =
        eval_fields-OutSound (suc n) fs [] no_fields env s _ a v tt h (λ order values t w i. (w, i))
    eval_expr-OutSound (suc n) (field e name) env s a v h =
        next-OutSound tab d _ _ (eval_expr-OutSound (suc n) e env s a v h)
          (λ x t w i. eval_field-OutSound tab d atoi name x t w i)
    eval_expr-OutSound (suc n) (index e i) env s a v h =
        next-OutSound tab d _ _ (eval_expr-OutSound (suc n) e env s a v h) (λ x t w j.
          elim x
              as (λ k.
                IsSound tab k
                → OutSound tab d (elim k [
                  | vk_array ty vs ↦
                      next (eval_expr prog tab atoi deeper (suc n) i env t)
                        (λ y r. eval_index vs y r)
                  | _ ↦ fail index_receiver t
                ])) [
                  | vk_array ty vs ↦ λ w.
                      next-OutSound tab d _ _ (eval_expr-OutSound (suc n) i env t a v j)
                        (λ y r z l. eval_index-OutSound tab d vs y r w l)
                  | _ ↦ λ w. failed tab d t j
                ]
            w)
    eval_expr-OutSound (suc n) (match_expr e arms) env s a v h =
        next-OutSound tab d _ _ (eval_expr-OutSound (suc n) e env s a v h)
          (λ x t w i. eval_arms-OutSound (suc n) arms x env t a w v i)
    eval_expr-OutSound (suc n) (loop b) env s a v h =
        loop_turns-OutSound tab d max_loop_iterations _
          (λ t i. eval_block-OutSound (suc n) b ([] ∷ env) t a (tt, v) i) s h
    eval_expr-OutSound (suc n) (while c b) env s a v h =
        while_turns-OutSound tab d max_loop_iterations _ _ (unit_type prog tab atoi)
          (λ t i. eval_expr-OutSound (suc n) c env t a v i)
          (λ t i. eval_block-OutSound (suc n) b ([] ∷ env) t a (tt, v) i) s h
    eval_expr-OutSound (suc n) other_expr env s a v h = failed tab d s h

    eval_exprs-OutSound :
        (n : ℕ) (es : Exprs) (env : Scopes) (s : State) (k : Values → State → Out)
        → Assumed
        → ScopesSound tab env
        → Ok tab d s
        → ((vs : Values) (t : State) → AllSound tab vs → Ok tab d t → OutSound tab d (k vs t))
        → OutSound tab d (eval_exprs prog tab atoi deeper n es env s k)
    eval_exprs-OutSound n no_exprs env s k a v h f = f empty s tt h
    eval_exprs-OutSound n (expr e es) env s k a v h f =
        next-OutSound tab d _ _ (eval_expr-OutSound n e env s a v h)
          (λ x t w i. eval_exprs-OutSound n es env t _ a v i (λ vs r z j. f (elem x vs) r (w, z) j))

    eval_fields-OutSound :
        (n : ℕ) (fs : FieldExprs) (order : List Bytes) (values : FieldValues) (env : Scopes)
        (s : State) (k : List Bytes → FieldValues → State → Out)
        → Assumed
        → ScopesSound tab env
        → FieldsSound tab values
        → Ok tab d s
        → ((o : List Bytes) (vs : FieldValues) (t : State)
            → FieldsSound tab vs
            → Ok tab d t
            → OutSound tab d (k o vs t))
        → OutSound tab d (eval_fields prog tab atoi deeper n fs order values env s k)
    eval_fields-OutSound n no_field_exprs order values env s k a v u h f = f order values s u h
    eval_fields-OutSound n (field_expr name e fs) order values env s k a v u h f =
        next-OutSound tab d _ _ (eval_expr-OutSound n e env s a v h) (λ x t w i.
          eval_fields-OutSound n fs (order ++ (name ∷ [])) (field_value name x values) env t k a v
            (w, u) i f)

    pub eval_block-OutSound :
        (n : ℕ) (b : Block) (env : Scopes) (s : State)
        → Assumed
        → ScopesSound tab env
        → Ok tab d s
        → OutSound tab d (eval_block prog tab atoi deeper n b env s)
    eval_block-OutSound n done env s a v h = (tt, h)
    eval_block-OutSound n (trailing e) env s a v h = eval_expr-OutSound n e env s a v h
    eval_block-OutSound n (then_stmt st b) env s a v h =
        then_next-OutSound tab d _ _ (eval_stmt-AfterSound n st env s a v h)
          (λ inner t i j. eval_block-OutSound n b inner t a i j)

    eval_stmt-AfterSound :
        (n : ℕ) (st : Stmt) (env : Scopes) (s : State)
        → Assumed
        → ScopesSound tab env
        → Ok tab d s
        → AfterSound tab d (eval_stmt prog tab atoi deeper n st env s)
    eval_stmt-AfterSound n (let_unset p) env s a v h = (tt, v, h)
    eval_stmt-AfterSound n (let_stmt p e) env s a v h =
        stmt_next-AfterSound tab d _ env _ v (eval_expr-OutSound n e env s a v h) (λ x t w i.
          let_bound-AfterSound tab d (unit_type prog tab atoi) _
            (bind_pattern-BindingSound tab d p x env t w v i))
    eval_stmt-AfterSound n (var_stmt name e) env s a v h =
        stmt_next-AfterSound tab d _ env _ v (eval_expr-OutSound n e env s a v h)
          (λ x t w i. (tt, bind_name-ScopesSound tab name x env w v, i))
    eval_stmt-AfterSound n return_unit env s a v h = (tt, v, h)
    eval_stmt-AfterSound n (return_stmt e) env s a v h =
        return-AfterSound tab d _ env v (eval_expr-OutSound n e env s a v h)
    eval_stmt-AfterSound n break_unit env s a v h = (tt, v, h)
    eval_stmt-AfterSound n (break_stmt e) env s a v h =
        break-AfterSound tab d _ env v (eval_expr-OutSound n e env s a v h)
    eval_stmt-AfterSound n continue_stmt env s a v h = (tt, v, h)
    eval_stmt-AfterSound n (expr_stmt e) env s a v h =
        stmt_next-AfterSound tab d _ env _ v (eval_expr-OutSound n e env s a v h)
          (λ x t w i. (w, v, i))
    eval_stmt-AfterSound n other_stmt env s a v h = (tt, v, (h.0, omega (arith, h.1)))

    eval_arms-OutSound :
        (n : ℕ) (arms : Arms) (x : Value) (env : Scopes) (s : State)
        → Assumed
        → IsSound tab x
        → ScopesSound tab env
        → Ok tab d s
        → OutSound tab d (eval_arms prog tab atoi deeper n arms x env s)
    eval_arms-OutSound n no_arms x env s a w v h = failed tab d s h
    eval_arms-OutSound n (arm p b arms) x env s a w v h =
        arm_chosen-OutSound tab d _ _ _
          (match_pattern-MatchedSound n p x ([] ∷ env) s a w (tt, v) h)
          (λ inner t i j. eval_block-OutSound n b ([] ∷ inner) t a (tt, i) j)
          (λ t j. eval_arms-OutSound n arms x env t a w v j)
    eval_arms-OutSound n (guarded_arm p g b arms) x env s a w v h =
        arm_chosen-OutSound tab d _ _ _
          (match_pattern-MatchedSound n p x ([] ∷ env) s a w (tt, v) h)
          (λ inner t i j. next-OutSound tab d _ _ (eval_expr-OutSound n g inner t a i j) (λ y r z l.
            guarded-OutSound tab d y _ _ (eval_block-OutSound n b ([] ∷ inner) r a (tt, i) l)
              (eval_arms-OutSound n arms x env r a w v l)))
          (λ t j. eval_arms-OutSound n arms x env t a w v j)

    match_pattern-MatchedSound :
        (n : ℕ) (p : Pat) (x : Value) (env : Scopes) (s : State)
        → Assumed
        → IsSound tab x
        → ScopesSound tab env
        → Ok tab d s
        → MatchedSound tab d (match_pattern prog tab atoi deeper n p x env s)
    match_pattern-MatchedSound n wildcard_pat x env s a w v h = (v, h)
    match_pattern-MatchedSound n (bind_pat name) x env s a w v h =
        (bind_name-ScopesSound tab name x env w v, h)
    match_pattern-MatchedSound n (literal_pat lit_int text b) x env s a w v h =
        elim x
          as (λ k.
            MatchedSound tab d
              (match_pattern prog tab atoi deeper n (literal_pat lit_int text b) k env s)) [
                | vk_int ty m ↦
                    literal_matches-MatchedSound tab d ty m (parse_integer_literal text) env s v h
                | _ ↦ (v, h)
              ]
    match_pattern-MatchedSound n (literal_pat lit_bool text b) x env s a w v h =
        elim x
          as (λ k.
            MatchedSound tab d
              (match_pattern prog tab atoi deeper n (literal_pat lit_bool text b) k env s)) [
                | vk_bool ty c ↦ (v, h)
                | _ ↦ (v, h)
              ]
    match_pattern-MatchedSound n (literal_pat lit_float text b) x env s a w v h = (v, h)
    match_pattern-MatchedSound n (literal_pat lit_string text b) x env s a w v h = (v, h)
    match_pattern-MatchedSound n (literal_pat lit_raw_string text b) x env s a w v h = (v, h)
    match_pattern-MatchedSound n (literal_pat lit_cstring text b) x env s a w v h = (v, h)
    match_pattern-MatchedSound n (literal_pat lit_char text b) x env s a w v h = (v, h)
    match_pattern-MatchedSound n (literal_pat lit_none text b) x env s a w v h = (v, h)
    match_pattern-MatchedSound n (constructor_pat segments variant no_pats no_field_pats) x env s a
          w v h =
        elim x
          as (λ k. MatchedSound tab d (
            match_pattern prog tab atoi deeper n
              (constructor_pat segments variant no_pats no_field_pats) k env s)) [
                | vk_int ty m ↦ (v, h)
                | _ ↦ (v, h)
              ]
    match_pattern-MatchedSound n (constructor_pat segments variant no_pats (field_pat name p fs)) x
          env s a w v h =
        elim x
            as (λ k.
              IsSound tab k
              → MatchedSound tab d (
                  match_pattern prog tab atoi deeper n
                    (constructor_pat segments variant no_pats (field_pat name p fs)) k env s)) [
                      | vk_struct ty order values ↦ λ w.
                          match_fields-MatchedSound n (field_pat name p fs) values env s a w v h
                      | _ ↦ λ w. (v, h)
                    ]
          w
    match_pattern-MatchedSound n (constructor_pat segments variant (pat p ps) fs) x env s a w v h =
        elim x
            as (λ k.
              IsSound tab k
              → MatchedSound tab d (
                  match_pattern prog tab atoi deeper n
                    (constructor_pat segments variant (pat p ps) fs) k env s)) [
                      | vk_tuple ty values ↦ λ w.
                          elim (suc (pats_length ps) == values_length values)
                            as (λ c. MatchedSound tab d (elim c [
                              | true ↦ match_elems prog tab atoi deeper n (pat p ps) values env s
                              | false ↦ (unmatched, env, s)
                            ])) [
                              | true ↦ match_elems-MatchedSound n (pat p ps) values env s a w v h
                              | false ↦ (v, h)
                            ]
                      | _ ↦ λ w. (v, h)
                    ]
          w
    match_pattern-MatchedSound n (or_pat ps) x env s a w v h =
        match_alternatives-MatchedSound n ps x env s a w v h
    match_pattern-MatchedSound n (range_pat inclusive lo hi) x env s a w v h =
        with_bound-MatchedSound tab d _ env _ v (eval_expr-OutSound n lo env s a v h) (λ y t i.
          with_bound-MatchedSound tab d _ env _ v (eval_expr-OutSound n hi env t a v i)
            (λ z r j. (v, j)))
    match_pattern-MatchedSound n other_pat x env s a w v h = (v, (h.0, omega (arith, h.1)))

    match_elems-MatchedSound :
        (n : ℕ) (ps : Pats) (xs : Values) (env : Scopes) (s : State)
        → Assumed
        → AllSound tab xs
        → ScopesSound tab env
        → Ok tab d s
        → MatchedSound tab d (match_elems prog tab atoi deeper n ps xs env s)
    match_elems-MatchedSound n no_pats xs env s a w v h = (v, h)
    match_elems-MatchedSound n (pat p ps) empty env s a w v h = (v, h)
    match_elems-MatchedSound n (pat p ps) (elem x xs) env s a w v h =
        or_recursed-MatchedSound tab d _ _ (match_pattern-MatchedSound n p x env s a w.0 v h)
          (λ inner t i j. match_elems-MatchedSound n ps xs inner t a w.1 i j)

    match_fields-MatchedSound :
        (n : ℕ) (fs : FieldPats) (values : FieldValues) (env : Scopes) (s : State)
        → Assumed
        → FieldsSound tab values
        → ScopesSound tab env
        → Ok tab d s
        → MatchedSound tab d (match_fields prog tab atoi deeper n fs values env s)
    match_fields-MatchedSound n no_field_pats values env s a w v h = (v, h)
    match_fields-MatchedSound n (field_pat name p fs) values env s a w v h =
        elim (find_field name values)
            as (λ o.
              OptionSound tab o
              → MatchedSound tab d (elim o [
                | none ↦ (unmatched, env, s)
                | some x ↦
                    or_recursed (match_pattern prog tab atoi deeper n p x env s)
                      (λ inner t. match_fields prog tab atoi deeper n fs values inner t)
              ])) [
                | none ↦ λ q. (v, h)
                | some x ↦ λ q.
                    or_recursed-MatchedSound tab d _ _
                      (match_pattern-MatchedSound n p x env s a q v h)
                      (λ inner t i j. match_fields-MatchedSound n fs values inner t a w i j)
              ]
          (find_field-OptionSound tab name values w)

    match_alternatives-MatchedSound :
        (n : ℕ) (ps : Pats) (x : Value) (env : Scopes) (s : State)
        → Assumed
        → IsSound tab x
        → ScopesSound tab env
        → Ok tab d s
        → MatchedSound tab d (match_alternatives prog tab atoi deeper n ps x env s)
    match_alternatives-MatchedSound n no_pats x env s a w v h = (v, h)
    match_alternatives-MatchedSound n (pat p ps) x env s a w v h =
        or_next-MatchedSound tab d _ _ (match_pattern-MatchedSound n p x env s a w v h)
          (λ inner t i j. match_alternatives-MatchedSound n ps x inner t a w i j)
