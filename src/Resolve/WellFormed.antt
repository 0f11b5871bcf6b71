-- ===== src/Resolve/WellFormed.antt =====
-- Which conditions compiler/resolve/cfg.go evaluates without a diagnostic.
use fuse.Prelude.{
  Bool, true, false, Bool-cases, ◌&&◌, ◌||◌, [], Option, none, some, Bytes, codes, equal, equal→eq,
  ◌≡◌, inl, inr, refl, arith,
}
use mathlib.Core.Path.{subst}
use fuse.Resolve.Cfg.{
  Expr, path, call, assign, literal, other, Exprs, nil, cons, BuildConfig, Verdict, path_to_ident,
  string_lit, eval_cfg_key_value, combine, eval_key, compare_value, eval_cfg_pred, eval_not,
  eval_all, eval_any,
}
use fuse.Resolve.Conditions.{named}

abbrev is_some {ℓ} : {A : Type ℓ} → Option A → Bool
is_some none = false
is_some (some a) = true

abbrev one_only : Exprs → Bool
one_only (cons e nil) = true
one_only _ = false

unfoldable mutual
  unfolding equal string_lit

  -- A predicate by the grammar of conditions: a key and a string, or a combinator on predicates,
  -- `not` on one.
  pub well_formed : Expr → Bool
  well_formed (call callee args) =
      ((named "not" (path_to_ident callee) && one_only args)
        || (named "all" (path_to_ident callee) || named "any" (path_to_ident callee)))
      && all_well_formed args
  well_formed (assign plain lhs rhs) =
      plain && (is_some (path_to_ident lhs) && is_some (string_lit rhs))
  well_formed (path names n) = false
  well_formed (literal k text) = false
  well_formed other = false

  pub all_well_formed : Exprs → Bool
  all_well_formed nil = true
  all_well_formed (cons e es) = well_formed e && all_well_formed es

combine-quiet :
    (o : Option Bytes) (one : Bool) (n a b : Verdict)
    → ((named "not" o && one) || (named "all" o || named "any" o)) ≡ true
    → (one ≡ true → n.1 ≡ [])
    → a.1 ≡ []
    → b.1 ≡ []
    → (combine o n a b).1 ≡ []
unfolding combine equal
combine-quiet none one n a b k f g h = ground arith
combine-quiet (some x) one n a b k f g h = elim (Bool-cases (equal x (codes "not"))) [
  | inl e ↦
      let only : ((named "not" (some (codes "not")) && one) || false) ≡ true =
        subst
          (λ y.
            ((named "not" (some y) && one) || (named "all" (some y) || named "any" (some y)))
            ≡ true)
          (equal→eq x (codes "not") e) k in
      rw e (f (ground arith))
  | inr e ↦ ground arith
]

key-quiet :
    (cfg : BuildConfig) (o : Option Bytes) (rhs : Expr)
    → (is_some o && is_some (string_lit rhs)) ≡ true
    → (eval_key cfg o rhs).1 ≡ []
unfolding eval_cfg_key_value
key-quiet cfg none rhs k = ground arith
key-quiet cfg (some key) rhs k = of_text (string_lit rhs) k
  where
    of_text : (o : Option Bytes) → is_some o ≡ true → (compare_value cfg key o).1 ≡ []
    of_text none k = ground arith
    of_text (some text) k = refl

mutual
  unfolding eval_cfg_pred well_formed

  pred-quiet : (cfg : BuildConfig) (e : Expr) → well_formed e ≡ true → (eval_cfg_pred cfg e).1 ≡ []
  pred-quiet cfg (call callee args) k =
      combine-quiet (path_to_ident callee) (one_only args) (eval_not cfg args) (eval_all cfg args)
        (eval_any cfg args) (ground arith) (λ o. not-quiet cfg args o (ground arith))
        (all-quiet cfg args (ground arith)) (any-quiet cfg args (ground arith))
  pred-quiet cfg (assign true lhs rhs) k = key-quiet cfg (path_to_ident lhs) rhs k
  pred-quiet cfg (assign false lhs rhs) k = ground arith
  pred-quiet cfg (path names n) k = ground arith
  pred-quiet cfg (literal l text) k = ground arith
  pred-quiet cfg other k = ground arith

  not-quiet :
      (cfg : BuildConfig) (es : Exprs)
      → one_only es ≡ true
      → all_well_formed es ≡ true
      → (eval_not cfg es).1 ≡ []
  not-quiet cfg nil o k = ground arith
  not-quiet cfg (cons e nil) o k = pred-quiet cfg e (ground arith)
  not-quiet cfg (cons e (cons f es)) o k = ground arith

  all-quiet :
      (cfg : BuildConfig) (es : Exprs) → all_well_formed es ≡ true → (eval_all cfg es).1 ≡ []
  all-quiet cfg nil k = refl
  all-quiet cfg (cons e es) k = ground (arith, pred-quiet cfg e, all-quiet cfg es)

  any-quiet :
      (cfg : BuildConfig) (es : Exprs) → all_well_formed es ≡ true → (eval_any cfg es).1 ≡ []
  any-quiet cfg nil k = refl
  any-quiet cfg (cons e es) k =
      rw (pred-quiet cfg e (ground arith), any-quiet cfg es (ground arith)) refl

-- A predicate by the grammar is evaluated without a diagnostic, on every build configuration.
pub eval_cfg_pred_lem :
    (cfg : BuildConfig) (e : Expr) → well_formed e ≡ true → (eval_cfg_pred cfg e).1 ≡ []
eval_cfg_pred_lem cfg e k = pred-quiet cfg e k
