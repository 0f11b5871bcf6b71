-- ===== src/Consteval/Syntax.antt =====
-- compiler/hir: the expressions, statements and patterns that constants may contain, without spans.
use fuse.Prelude.{ℕ, Bool, List, Bytes, Option}
use fuse.Check.Patterns.{LitKind}
use fuse.Consteval.Words.{BinaryOp}

-- `UnaryOp`.
pub data UnaryOp : Type 0 where
  un_not un_neg un_deref un_addr : UnaryOp

mutual
  -- `Expr`: the forms that `evalExpr` handles. A type is its identifier.
  pub data Expr : Type 0 where
    -- `LiteralExpr`: the kind, the text, the truth value and the type.
    literal : LitKind → Bytes → Bool → ℕ → Expr
    -- `PathExpr`: the segments, the symbol and the type.
    path : List Bytes → ℕ → ℕ → Expr
    unary : UnaryOp → Expr → Expr
    binary : BinaryOp → Expr → Expr → Expr
    -- `IfExpr`, without and with an else branch.
    if_then : Expr → Block → Expr
    if_else : Expr → Block → Expr → Expr
    block : Block → Expr
    -- `CallExpr` of a path, by its segments and its symbol, and of another expression. A call of
    -- `size_of` or `align_of` is not among them.
    call : List Bytes → ℕ → Exprs → Expr
    call_other : Expr
    -- `CastExpr` with the target type.
    cast : Expr → ℕ → Expr
    tuple : ℕ → Exprs → Expr
    struct_lit : ℕ → FieldExprs → Expr
    field : Expr → Bytes → Expr
    index : Expr → Expr → Expr
    match_expr : Expr → Arms → Expr
    loop : Block → Expr
    while : Expr → Block → Expr
    -- Any other expression.
    other_expr : Expr

  pub data Exprs : Type 0 where
    no_exprs : Exprs
    expr : Expr → Exprs → Exprs

  -- `StructLitField`.
  pub data FieldExprs : Type 0 where
    no_field_exprs : FieldExprs
    field_expr : Bytes → Expr → FieldExprs → FieldExprs

  -- `Block`: statements, then nothing or the trailing expression.
  pub data Block : Type 0 where
    done : Block
    trailing : Expr → Block
    then_stmt : Stmt → Block → Block

  pub data Stmt : Type 0 where
    -- `LetStmt`, without and with a value.
    let_unset : Pat → Stmt
    let_stmt : Pat → Expr → Stmt
    var_stmt : Bytes → Expr → Stmt
    return_unit : Stmt
    return_stmt : Expr → Stmt
    break_unit : Stmt
    break_stmt : Expr → Stmt
    continue_stmt : Stmt
    expr_stmt : Expr → Stmt
    -- `ItemStmt`.
    other_stmt : Stmt

  -- `Pat`.
  pub data Pat : Type 0 where
    literal_pat : LitKind → Bytes → Bool → Pat
    bind_pat : Bytes → Pat
    -- `ConstructorPat`: the path, the variant's name, the positional patterns and the named ones.
    constructor_pat : List Bytes → Bytes → Pats → FieldPats → Pat
    wildcard_pat : Pat
    or_pat : Pats → Pat
    -- `RangePat`: whether it is inclusive, and the bounds.
    range_pat : Bool → Expr → Expr → Pat
    -- `AtBindPat`.
    other_pat : Pat

  pub data Pats : Type 0 where
    no_pats : Pats
    pat : Pat → Pats → Pats

  pub data FieldPats : Type 0 where
    no_field_pats : FieldPats
    field_pat : Bytes → Pat → FieldPats → FieldPats

  -- `MatchArm`: the pattern and the body, without and with a guard.
  pub data Arms : Type 0 where
    no_arms : Arms
    arm : Pat → Block → Arms → Arms
    guarded_arm : Pat → Expr → Block → Arms → Arms

-- The parts of `ConstDecl`, `StaticDecl`, `FnDecl` and `EnumDecl` that the evaluator reads.
pub record ConstDecl : Type 0 where
  pub name : Bytes
  pub sym_id : ℕ
  pub value : Option Expr

pub record FnDecl : Type 0 where
  pub name : Bytes
  pub is_const : Bool
  pub is_extern : Bool
  pub params : List Bytes
  pub body : Option Block

pub record EnumDecl : Type 0 where
  pub name : Bytes
  pub variants : List Bytes
