-- ===== src/Resolve/Cfg.antt =====
-- compiler/resolve/cfg.go: the evaluation of `@cfg`.
use fuse.Prelude.{
  ℕ, zero, suc, ◌-◌, ◌+◌, ◌*◌, ltb, leb, Bool, true, false, not, ◌&&◌, ◌||◌, ◌==◌, if◌then◌else◌,
  List, [], ◌∷◌, ◌++◌, length, take, drop, Option, none, some, Bytes, codes, equal,
}
use fuse.Prelude.Maps.{Map, lookup}

-- The literal kinds that `stringLit` tells apart.
pub data CfgLit : Type 0 where
  lit_string lit_raw_string lit_c_string lit_other : CfgLit

mutual
  -- The expressions, as far as conditions read them.
  pub data Expr : Type 0 where
    -- `PathExpr`: the names of the segments and the number of type arguments.
    path : List Bytes → ℕ → Expr
    -- `CallExpr`: the callee and the arguments.
    call : Expr → Exprs → Expr
    -- `AssignExpr`: whether the operator is `=`, and the two sides.
    assign : Bool → Expr → Expr → Expr
    -- `LiteralExpr`: the kind and the source text.
    literal : CfgLit → Bytes → Expr
    -- Any other expression.
    other : Expr

  pub data Exprs : Type 0 where
    nil : Exprs
    cons : Expr → Exprs → Exprs

-- `BuildConfig`. A nil map is an empty one.
pub record BuildConfig : Type 0 where
  pub vars : Map Bytes
  pub features : Map Bool

-- The diagnostics, without spans and file names.
pub data CfgError : Type 0 where
  malformed not_arity compound_assign key_not_identifier : CfgError
  unknown_combinator : Bytes → CfgError
  value_not_string : Bytes → CfgError

-- A verdict and the diagnostics.
abbrev pub Verdict : Type 0
Verdict = Bool × List CfgError

-- `hasFeature`.
unfoldable pub has_feature : BuildConfig → Bytes → Bool
unfolding lookup
has_feature cfg name = elim (lookup name cfg.features) [ none ↦ false | some b ↦ b ]

-- `pathToIdent`.
abbrev pub path_to_ident : Expr → Option Bytes
path_to_ident (path (x ∷ []) zero) = some x
path_to_ident _ = none

-- The byte at an index, 0 out of range. The callers stay in range.
abbrev pub byte_at : ℕ → Bytes → ℕ
byte_at n [] = 0
byte_at zero (x ∷ xs) = x
byte_at (suc n) (x ∷ xs) = byte_at n xs

-- `text[a:b]`.
abbrev pub between : ℕ → ℕ → Bytes → Bytes
between a b text = take (b - a) (drop a text)

-- The loop that counts `#`.
abbrev pub count_hashes : Bytes → ℕ
count_hashes [] = 0
count_hashes (x ∷ xs) = let n = count_hashes xs in if x == b'#' then suc n else 0

abbrev pub starts_and_ends : ℕ → Bytes → Bool
starts_and_ends b text = (byte_at 0 text == b) && (byte_at (length text - 1) text == b)

-- The raw-string part of `unquoteLiteral`, on the text behind the `r`; none where it goes on.
abbrev pub unquote_raw : Bytes → Option Bytes
unquote_raw rest =
    let n = count_hashes rest in
    if leb 2 (length rest) && starts_and_ends b'"' rest
    then some (between 1 (length rest - 1) rest)
    else if ltb 0 n
        && (ltb (n * 2) (length rest)
            && ((byte_at n rest == b'"') && (byte_at (length rest - n - 1) rest == b'"')))
    then some (between (n + 1) (length rest - n - 1) rest)
    else none

-- The C-string part.
abbrev pub unquote_c : Bytes → Bytes
unquote_c text =
    if leb 3 (length text)
      && ((byte_at 0 text == b'c')
          && ((byte_at 1 text == b'"') && (byte_at (length text - 1) text == b'"')))
    then between 2 (length text - 1) text
    else text

-- `unquoteLiteral`.
unfoldable pub unquote_literal : Bytes → Bytes
unquote_literal text =
    if leb 2 (length text) && (starts_and_ends b'"' text || starts_and_ends b'\'' text)
    then between 1 (length text - 1) text
    else if leb 3 (length text) && (byte_at 0 text == b'r')
    then elim (unquote_raw (drop 1 text)) [ some s ↦ s | none ↦ unquote_c text ]
    else unquote_c text

-- `stringLit`.
unfoldable pub string_lit : Expr → Option Bytes
unfolding unquote_literal
string_lit (literal lit_string text) = some (unquote_literal text)
string_lit (literal lit_raw_string text) = some (unquote_literal text)
string_lit (literal lit_c_string text) = some (unquote_literal text)
string_lit _ = none

abbrev pub var_is : BuildConfig → Bytes → Bytes → Bool
var_is cfg key value = elim (lookup key cfg.vars) [ none ↦ false | some got ↦ equal got value ]

-- `evalCfgKeyValue`, at the text of the value, if it is a string literal.
abbrev pub compare_value : BuildConfig → Bytes → Option Bytes → Verdict
compare_value cfg key none = (false, value_not_string key ∷ [])
compare_value cfg key (some text) =
    ((if equal key (codes "feature") then has_feature cfg text else var_is cfg key text), [])

-- `evalCfgKeyValue`.
unfoldable pub eval_cfg_key_value : BuildConfig → Bytes → Expr → Verdict
unfolding string_lit has_feature equal
eval_cfg_key_value cfg key value = compare_value cfg key (string_lit value)

-- The switch over the callee's name, with the three combinators applied to the arguments.
unfoldable pub combine : Option Bytes → Verdict → Verdict → Verdict → Verdict
unfolding equal
combine none negated conjunction disjunction = (false, malformed ∷ [])
combine (some name) negated conjunction disjunction =
    if equal name (codes "not")
    then negated
    else if equal name (codes "all")
    then conjunction
    else if equal name (codes "any")
    then disjunction
    else (false, unknown_combinator name ∷ [])

abbrev pub negate : Verdict → Verdict
negate (v, ds) = (not v, ds)

abbrev pub and_then : Verdict → Verdict → Verdict
and_then (v, ds) (w, es) = if not v then (false, ds) else (w, ds ++ es)

abbrev pub or_also : Verdict → Verdict → Verdict
or_also (v, ds) (w, es) = (v || w, ds ++ es)

-- The `AssignExpr` branch, at the name of the key, if it is one.
abbrev pub eval_key : BuildConfig → Option Bytes → Expr → Verdict
eval_key cfg none rhs = (false, key_not_identifier ∷ [])
eval_key cfg (some key) rhs = eval_cfg_key_value cfg key rhs

abbrev pub eval_assign : BuildConfig → Bool → Expr → Expr → Verdict
eval_assign cfg false lhs rhs = (false, compound_assign ∷ [])
eval_assign cfg true lhs rhs = eval_key cfg (path_to_ident lhs) rhs

unfoldable mutual
  unfolding combine eval_cfg_key_value

  -- `evalCfgPred`.
  pub eval_cfg_pred : BuildConfig → Expr → Verdict
  eval_cfg_pred cfg (call callee args) =
      combine (path_to_ident callee) (eval_not cfg args) (eval_all cfg args) (eval_any cfg args)
  eval_cfg_pred cfg (assign plain lhs rhs) = eval_assign cfg plain lhs rhs
  eval_cfg_pred cfg (path names n) = (false, malformed ∷ [])
  eval_cfg_pred cfg (literal k text) = (false, malformed ∷ [])
  eval_cfg_pred cfg other = (false, malformed ∷ [])

  pub eval_not : BuildConfig → Exprs → Verdict
  eval_not cfg nil = (false, not_arity ∷ [])
  eval_not cfg (cons e nil) = negate (eval_cfg_pred cfg e)
  eval_not cfg (cons e (cons f es)) = (false, not_arity ∷ [])

  pub eval_all : BuildConfig → Exprs → Verdict
  eval_all cfg nil = (true, [])
  eval_all cfg (cons e es) = and_then (eval_cfg_pred cfg e) (eval_all cfg es)

  pub eval_any : BuildConfig → Exprs → Verdict
  eval_any cfg nil = (false, [])
  eval_any cfg (cons e es) = or_also (eval_cfg_pred cfg e) (eval_any cfg es)

-- `DecoratorArg`: a name, if there is one, and the value.
pub record DecoratorArg : Type 0 where
  pub name : Option Bytes
  pub value : Expr

-- `evalCfgArg`.
unfoldable pub eval_cfg_arg : BuildConfig → DecoratorArg → Verdict
unfolding eval_cfg_key_value eval_cfg_pred
eval_cfg_arg cfg arg = elim arg.name [
  | some key ↦ eval_cfg_key_value cfg key arg.value
  | none ↦ eval_cfg_pred cfg arg.value
]

-- The loop of `evalCfgDecorator`. Without arguments the item is kept.
unfoldable pub eval_cfg_decorator : BuildConfig → List DecoratorArg → Verdict
unfolding eval_cfg_arg
eval_cfg_decorator cfg [] = (true, [])
eval_cfg_decorator cfg (arg ∷ args) =
    let (v, ds) = eval_cfg_arg cfg arg in
    let (w, es) = eval_cfg_decorator cfg args in (v && w, ds ++ es)
