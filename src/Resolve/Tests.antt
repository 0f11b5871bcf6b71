-- ===== src/Resolve/Tests.antt =====
-- Small conditions of compiler/resolve, and the theorems at concrete inputs.
use fuse.Prelude.{String, true, not, [], ◌∷◌, ◌++◌, Bytes, codes, equal, ◌≡◌, refl, none, arith}
use fuse.Prelude.Maps.{lookup}
use fuse.Resolve.Cfg.{
  Expr, path, call, assign, literal, lit_string, Exprs, nil, cons, BuildConfig, CfgError,
  has_feature, eval_cfg_pred, eval_all, eval_any, eval_cfg_decorator,
}
use fuse.Resolve.Conditions.{
  Extends, positive, eval_cfg_pred-Extends, negations, eval_all-negations,
}
use fuse.Resolve.WellFormed.{well_formed, eval_cfg_pred_lem}

abbrev quoted : Bytes → Expr
quoted text = literal lit_string (b'"' ∷ (text ++ (b'"' ∷ [])))

-- `key = "text"`.
abbrev is : String → String → Expr
is key text = assign true (path (codes key ∷ []) 0) (quoted (codes text))

abbrev linux : BuildConfig
linux = record { vars = (codes "os", codes "linux") ∷ []; features = [] }

abbrev linux_fast : BuildConfig
linux_fast = record {
  vars = (codes "os", codes "linux") ∷ [];
  features = (codes "fast", true) ∷ [];
}

-- `any(os = "linux", feature = "fast")`.
abbrev either : Expr
either = call (path (codes "any" ∷ []) 0) (cons (is "os" "linux") (cons (is "feature" "fast") nil))

either_holds : eval_cfg_pred linux either ≡ (true, [])
unfolding eval_cfg_pred equal lookup
either_holds = refl

linux-Extends : Extends linux linux_fast
unfolding has_feature lookup
linux-Extends = record { same_vars = refl; more_features = λ f h. ground arith }

either_positive : positive either ≡ true
unfolding positive
either_positive = refl

either-true : (eval_cfg_pred linux either).0 ≡ true
unfolding eval_cfg_pred equal lookup
either-true = refl

eval_cfg_pred-Extends_example : (eval_cfg_pred linux_fast either).0 ≡ true
eval_cfg_pred-Extends_example =
    eval_cfg_pred-Extends linux linux_fast either linux-Extends either_positive either-true

abbrev both : Exprs
both = cons (is "os" "linux") (cons (is "feature" "fast") nil)

eval_all-negations_example : (eval_all linux (negations both)).0 ≡ not (eval_any linux both).0
eval_all-negations_example = eval_all-negations linux both

either-well_formed : well_formed either ≡ true
unfolding well_formed
either-well_formed = refl

eval_cfg_pred_lem_example : (eval_cfg_pred linux either).1 ≡ []
eval_cfg_pred_lem_example = eval_cfg_pred_lem linux either either-well_formed

-- `@cfg(not(os))`: reported, and the item is kept.
malformed_kept :
    eval_cfg_decorator linux (
      record {
        name = none;
        value = call (path (codes "not" ∷ []) 0) (cons (path (codes "os" ∷ []) 0) nil);
      }
      ∷ [])
    ≡ (true, CfgError.malformed ∷ [])
unfolding eval_cfg_decorator equal
malformed_kept = refl
