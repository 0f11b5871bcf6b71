-- ===== src/Resolve/Conditions.antt =====
-- The conditions of compiler/resolve/cfg.go as propositions.
use fuse.Prelude.{
  String, Bool, true, false, Bool-cases, not, ◌&&◌, [], ◌∷◌, Option, none, some, Bytes, codes,
  equal, ◌≡◌, inl, inr, refl, sym, arith,
}
use fuse.Resolve.Cfg.{
  Expr, path, call, assign, literal, other, Exprs, nil, cons, BuildConfig, Verdict, has_feature,
  path_to_ident, string_lit, eval_cfg_key_value, combine, negate, eval_key, compare_value,
  eval_cfg_pred, eval_not, eval_all, eval_any,
}

abbrev pub named : String → Option Bytes → Bool
named name none = false
named name (some n) = equal n (codes name)

unfoldable mutual
  unfolding equal

  -- No `not` stands anywhere in the predicate.
  pub positive : Expr → Bool
  positive (call callee args) = not (named "not" (path_to_ident callee)) && all_positive args
  positive (assign plain lhs rhs) = true
  positive (path names n) = true
  positive (literal k text) = true
  positive other = true

  pub all_positive : Exprs → Bool
  all_positive nil = true
  all_positive (cons e es) = positive e && all_positive es

-- The second configuration has the same variables, and every feature of the first.
pub record Extends (c d : BuildConfig) : Type 0 where
  pub same_vars : c.vars ≡ d.vars
  pub more_features : (f : Bytes) → has_feature c f ≡ true → has_feature d f ≡ true

compare_value-Extends :
    (c d : BuildConfig)
    → Extends c d
    → (key : Bytes) (o : Option Bytes) → (compare_value c key o).0 ≡ true
    → (compare_value d key o).0 ≡ true
compare_value-Extends c d x key none h = h
compare_value-Extends c d x key (some text) h = elim (Bool-cases (equal key (codes "feature"))) [
  | inl e ↦ rw e (x.more_features text (rw e at h))
  | inr e ↦ rw (e, sym x.same_vars) (rw e at h)
]

key-Extends :
    (c d : BuildConfig)
    → Extends c d
    → (o : Option Bytes) (value : Expr) → (eval_key c o value).0 ≡ true
    → (eval_key d o value).0 ≡ true
unfolding eval_cfg_key_value
key-Extends c d x none value h = h
key-Extends c d x (some key) value h = compare_value-Extends c d x key (string_lit value) h

combine-true :
    (o : Option Bytes) (n a b m p q : Verdict)
    → not (named "not" o) ≡ true
    → (a.0 ≡ true → p.0 ≡ true)
    → (b.0 ≡ true → q.0 ≡ true)
    → (combine o n a b).0 ≡ true
    → (combine o m p q).0 ≡ true
unfolding combine
combine-true none n a b m p q k f g h = ground arith
combine-true (some x) n a b m p q k f g h = ground arith

mutual
  unfolding eval_cfg_pred positive

  pred-Extends :
      (c d : BuildConfig)
      → Extends c d
      → (e : Expr) → positive e ≡ true
      → (eval_cfg_pred c e).0 ≡ true
      → (eval_cfg_pred d e).0 ≡ true
  pred-Extends c d x (call callee args) k h =
      combine-true (path_to_ident callee) (eval_not c args) (eval_all c args) (eval_any c args)
        (eval_not d args) (eval_all d args) (eval_any d args) (ground arith)
        (all-Extends c d x args (ground arith)) (any-Extends c d x args (ground arith)) h
  pred-Extends c d x (assign true lhs rhs) k h = key-Extends c d x (path_to_ident lhs) rhs h
  pred-Extends c d x (assign false lhs rhs) k h = h
  pred-Extends c d x (path names n) k h = h
  pred-Extends c d x (literal l text) k h = h
  pred-Extends c d x other k h = h

  all-Extends :
      (c d : BuildConfig)
      → Extends c d
      → (es : Exprs) → all_positive es ≡ true
      → (eval_all c es).0 ≡ true
      → (eval_all d es).0 ≡ true
  all-Extends c d x nil k h = refl
  all-Extends c d x (cons e es) k h = ground (arith, pred-Extends c d x e, all-Extends c d x es)

  any-Extends :
      (c d : BuildConfig)
      → Extends c d
      → (es : Exprs) → all_positive es ≡ true
      → (eval_any c es).0 ≡ true
      → (eval_any d es).0 ≡ true
  any-Extends c d x nil k h = h
  any-Extends c d x (cons e es) k h = ground (arith, pred-Extends c d x e, any-Extends c d x es)

-- A predicate without `not` that holds in a build holds in every build with the same variables and
-- more features.
pub eval_cfg_pred-Extends :
    (c d : BuildConfig) (e : Expr)
    → Extends c d
    → positive e ≡ true
    → (eval_cfg_pred c e).0 ≡ true
    → (eval_cfg_pred d e).0 ≡ true
eval_cfg_pred-Extends c d e x = pred-Extends c d x e

-- `not(e)`.
abbrev pub negation : Expr → Expr
negation e = call (path (codes "not" ∷ []) 0) (cons e nil)

-- `not(e)` for each predicate.
abbrev pub negations : Exprs → Exprs
negations nil = nil
negations (cons e es) = cons (negation e) (negations es)

negation-lem :
    (cfg : BuildConfig) (e : Expr) → eval_cfg_pred cfg (negation e) ≡ negate (eval_cfg_pred cfg e)
unfolding eval_cfg_pred
negation-lem cfg e = refl

-- `all` of negations is the negation of `any`, on every build configuration.
pub eval_all-negations :
    (cfg : BuildConfig) (es : Exprs) → (eval_all cfg (negations es)).0 ≡ not (eval_any cfg es).0
unfolding eval_cfg_pred
eval_all-negations cfg nil = refl
eval_all-negations cfg (cons e es) = ground (arith, eval_all-negations cfg es)
