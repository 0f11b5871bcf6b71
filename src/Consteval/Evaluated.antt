-- ===== src/Consteval/Evaluated.antt =====
-- compiler/consteval/eval.go: the values and the reports of a whole evaluation.
use mathlib.Core.Path.{subst}
use fuse.Prelude.{
  ℕ, zero, suc, ◌<◌, ◌==◌, true, false, Bytes, length, All, Option, none, some, ◌≡◌, sym, arith,
}
use fuse.Typetable.Table.{Table}
use fuse.Consteval.Value.{Value, vk_invalid}
use fuse.Consteval.Syntax.{Expr, ConstDecl}
use fuse.Consteval.State.{
  Problem, State, Program, Out, flow_normal, flow_return, flow_break, flow_continue, flow_error,
  flow_panic, const_early_return,
}
use fuse.Consteval.Paths.{
  Deeper, finish, keep_valid, remember, cached, initialized, const_or, eval_const_decl,
  eval_static_decl,
}
use fuse.Consteval.Eval.{no_deeper, level, top_level}
use fuse.Consteval.Sound.{IsSound, OutSound, Ok, failed}
use fuse.Consteval.Sound.Paths.{
  IsSmall, DeeperSound, eval_const_decl-OutSound, eval_static_decl-OutSound,
}
use fuse.Consteval.Sound.Eval.{eval_expr-OutSound, eval_block-OutSound}
use fuse.Consteval.Evaluate.{
  Item, Items, const_item, static_item, fn_item, enum_item, impl_item, other_item, no_items, item,
  Result, Evaluation, keep_const, keep_static, evaluate_item, evaluate_items, evaluate,
  new_evaluator, put_discriminants,
}

module _ (prog : Program) (tab : Table) (atoi : Bytes → Option ℕ) (d : ℕ) where
  no_deeper-DeeperSound : DeeperSound tab d (no_deeper prog tab atoi)
  no_deeper-DeeperSound = (λ e s h. failed tab d s h, λ b m s w h. failed tab d s h)

  pub level-DeeperSound : (n : ℕ) → IsSmall prog → DeeperSound tab d (level prog tab atoi n)
  unfolding level
  level-DeeperSound zero m = (
    λ e s h. failed tab d s h,
    λ b p s w h.
        eval_block-OutSound prog tab atoi d _ zero b _ s (m, no_deeper-DeeperSound) (tt, (w, tt)) h,
  )
  level-DeeperSound (suc n) m = (
    λ e s h.
        eval_expr-OutSound prog tab atoi d _ (suc n) e _ s (m, level-DeeperSound n m) (tt, tt) h,
    λ b p s w h.
        eval_block-OutSound prog tab atoi d _ (suc n) b _ s (m, level-DeeperSound n m) (tt, (w, tt))
          h,
  )

-- An outcome that is an error has a report more than `d`.
abbrev Reported : ℕ → Out → Type 0
Reported d (v, flow_error, s) = d < length s.diags
Reported d _ = Unit

module _ (tab : Table) (d : ℕ) where
  finish-Reported :
      (p : Problem) (keep : Value → State → State) (out : Out)
      → OutSound tab d out
      → Reported d (finish p keep out)
  unfolding IsSound
  finish-Reported p keep (v, flow_normal, s) h =
      elim v as (λ k. IsSound tab k → Reported d (keep_valid keep k s)) [
        | vk_invalid ↦ λ w. absurd (omega (arith, w))
        | _ ↦ λ w. tt
      ]
        h.0
  finish-Reported p keep (v, flow_return, s) h = omega (arith, h.1.1)
  finish-Reported p keep (v, flow_break, s) h = omega (arith, h.1.1)
  finish-Reported p keep (v, flow_continue, s) h = omega (arith, h.1.1)
  finish-Reported p keep (v, flow_error, s) h = omega (arith, h.1.1)
  finish-Reported p keep (v, flow_panic, s) h = tt

  const_decl-Reported :
      (deeper : Deeper) (c : ConstDecl) (s : State)
      → DeeperSound tab d deeper
      → Ok tab d s
      → Reported d (eval_const_decl deeper c s)
  unfolding eval_const_decl
  const_decl-Reported deeper c s g h = from_cache (cached c s)
    where
      from_value : (o : Option Expr) → Reported d (initialized deeper c o s)
      from_value none = omega (arith, h.1)
      from_value (some e) =
          finish-Reported const_early_return (λ v t. remember c v t) (deeper.initializer e s)
            (g.0 e s h)

      from_cache : (o : Option Value) → Reported d (const_or deeper c o s)
      from_cache none = from_value c.value
      from_cache (some v) = tt

  Reported-lt : (out : Out) → Reported d out → out.1 ≡ flow_error → d < length out.2.diags
  Reported-lt (v, flow_error, s) h e = h
  Reported-lt (v, flow_normal, s) h e = absurd (ground (arith, e))
  Reported-lt (v, flow_return, s) h e = absurd (ground (arith, e))
  Reported-lt (v, flow_break, s) h e = absurd (ground (arith, e))
  Reported-lt (v, flow_continue, s) h e = absurd (ground (arith, e))
  Reported-lt (v, flow_panic, s) h e = absurd (ground (arith, e))

-- A constant that has no value is reported: where evalConstDecl fails at depth zero, from a
-- state whose cached values fit into their types, it has added a report, if no enum of the
-- program has more than 256 variants.
pub eval_const_decl-error :
    (prog : Program) (tab : Table) (atoi : Bytes → Option ℕ) (c : ConstDecl) (s : State)
    → IsSmall prog
    → All (λ e. IsSound tab e.1) s.cache
    → (eval_const_decl (top_level prog tab atoi) c s).1 ≡ flow_error
    → length s.diags < length (eval_const_decl (top_level prog tab atoi) c s).2.diags
eval_const_decl-error prog tab atoi c s m h e =
    let d = length s.diags in
    let g = level-DeeperSound prog tab atoi d 257 m in
    let q = const_decl-Reported tab d (top_level prog tab atoi) c s g (h, omega arith) in
    Reported-lt tab d (eval_const_decl (top_level prog tab atoi) c s) q e

module _ (tab : Table) where
  -- The values of a result fit into their types.
  abbrev pub ResultSound : Result → Type 0
  ResultSound r =
      All (λ e. IsSound tab e.1) r.const_values × All (λ e. IsSound tab e.1) r.static_values

  abbrev EvaluationSound : Evaluation → Type 0
  EvaluationSound none = Unit
  EvaluationSound (some e) = ResultSound e.0 × Ok tab 0 e.1

  abbrev Continues : (Result → State → Evaluation) → Type 0
  Continues k = (r : Result) (s : State) → ResultSound r → Ok tab 0 s → EvaluationSound (k r s)

  keep_const-EvaluationSound :
      (sym : ℕ) (out : Out) (r : Result) (k : Result → State → Evaluation)
      → OutSound tab 0 out
      → ResultSound r
      → Continues k
      → EvaluationSound (keep_const sym out r k)
  keep_const-EvaluationSound sym (v, flow_normal, s) r k h w f = f _ s ((h.0, w.0), w.1) h.1
  keep_const-EvaluationSound sym (v, flow_return, s) r k h w f = f r s w h.1
  keep_const-EvaluationSound sym (v, flow_break, s) r k h w f = f r s w h.1
  keep_const-EvaluationSound sym (v, flow_continue, s) r k h w f = f r s w h.1
  keep_const-EvaluationSound sym (v, flow_error, s) r k h w f = f r s w h.1
  keep_const-EvaluationSound sym (v, flow_panic, s) r k h w f = tt

  keep_static-EvaluationSound :
      (sym : ℕ) (out : Out) (r : Result) (k : Result → State → Evaluation)
      → OutSound tab 0 out
      → ResultSound r
      → Continues k
      → EvaluationSound (keep_static sym out r k)
  keep_static-EvaluationSound sym (v, flow_normal, s) r k h w f = f _ s (w.0, (h.0, w.1)) h.1
  keep_static-EvaluationSound sym (v, flow_return, s) r k h w f = f r s w h.1
  keep_static-EvaluationSound sym (v, flow_break, s) r k h w f = f r s w h.1
  keep_static-EvaluationSound sym (v, flow_continue, s) r k h w f = f r s w h.1
  keep_static-EvaluationSound sym (v, flow_error, s) r k h w f = f r s w h.1
  keep_static-EvaluationSound sym (v, flow_panic, s) r k h w f = tt

  evaluate_item-EvaluationSound :
      (deeper : Deeper) (i : Item) (r : Result) (s : State) (k : Result → State → Evaluation)
      → DeeperSound tab 0 deeper
      → ResultSound r
      → Ok tab 0 s
      → Continues k
      → EvaluationSound (evaluate_item deeper i r s k)
  unfolding evaluate_item
  evaluate_item-EvaluationSound deeper (const_item c) r s k g w h f =
      elim (c.sym_id == 0)
        as (λ b. EvaluationSound (elim b [
          | true ↦ k r s
          | false ↦ keep_const c.sym_id (eval_const_decl deeper c s) r k
        ])) [
          | true ↦ f r s w h
          | false ↦
              keep_const-EvaluationSound c.sym_id _ r k
                (eval_const_decl-OutSound tab 0 deeper c s g h) w f
        ]
  evaluate_item-EvaluationSound deeper (static_item true c) r s k g w h f = f r s w h
  evaluate_item-EvaluationSound deeper (static_item false c) r s k g w h f =
      elim c.value
        as (λ o. EvaluationSound (elim o [
          | none ↦ k r s
          | some e ↦ elim (c.sym_id == 0) [
            | true ↦ k r s
            | false ↦ keep_static c.sym_id (eval_static_decl deeper c s) r k
          ]
        ])) [
          | none ↦ f r s w h
          | some e ↦
              elim (c.sym_id == 0)
                as (λ b. EvaluationSound (elim b [
                  | true ↦ k r s
                  | false ↦ keep_static c.sym_id (eval_static_decl deeper c s) r k
                ])) [
                  | true ↦ f r s w h
                  | false ↦
                      keep_static-EvaluationSound c.sym_id _ r k
                        (eval_static_decl-OutSound tab 0 deeper c s g h) w f
                ]
        ]
  evaluate_item-EvaluationSound deeper (enum_item sym e) r s k g w h f =
      elim (sym == 0)
        as (λ b. EvaluationSound (elim b [
          | true ↦ k r s
          | false ↦
              k
                (record r {
                  discriminant_values = put_discriminants sym 0 e.variants r.discriminant_values;
                })
                s
        ])) [ true ↦ f r s w h | false ↦ f _ s w h ]
  evaluate_item-EvaluationSound deeper (fn_item sym e) r s k g w h f = f r s w h
  evaluate_item-EvaluationSound deeper (impl_item items) r s k g w h f = f r s w h
  evaluate_item-EvaluationSound deeper other_item r s k g w h f = f r s w h

  evaluate_items-EvaluationSound :
      (deeper : Deeper) (is : Items) (r : Result) (s : State)
      → DeeperSound tab 0 deeper
      → ResultSound r
      → Ok tab 0 s
      → EvaluationSound (evaluate_items deeper is r s)
  unfolding evaluate_items
  evaluate_items-EvaluationSound deeper no_items r s g w h = (w, h)
  evaluate_items-EvaluationSound deeper (item i is) r s g w h =
      evaluate_item-EvaluationSound deeper i r s _ g w h
        (λ q t v j. evaluate_items-EvaluationSound deeper is q t g v j)

-- Every constant and every static that Evaluate gives is a valid value, and each integer in it is below
-- 2 to the power of the width of its type, if no enum of the program has more than 256 variants.
pub evaluate-ResultSound :
    (tab : Table) (atoi : Bytes → Option ℕ) (is : Items) (r : Result) (s : State)
    → IsSmall (new_evaluator is)
    → evaluate tab atoi is ≡ some (r, s)
    → ResultSound tab r
unfolding evaluate
evaluate-ResultSound tab atoi is r s m e =
    let g = level-DeeperSound (new_evaluator is) tab atoi 0 257 m in
    let q =
      evaluate_items-EvaluationSound tab (top_level (new_evaluator is) tab atoi) is _ _ g (tt, tt)
        (tt, omega arith) in
    (subst (EvaluationSound tab) e q).0
