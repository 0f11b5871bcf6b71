-- ===== src/Check/Patterns.antt =====
-- The patterns of compiler/hir/pat.go, without spans and types.
use fuse.Prelude.{ℕ, Bool, List, Bytes}

-- `LitKind`.
pub data LitKind : Type 0 where
  lit_int lit_float lit_string lit_raw_string lit_cstring lit_char lit_bool lit_none : LitKind

mutual
  -- `Pat`, with a constructor for each of the node types.
  pub data Pat : Type 0 where
    -- `LiteralPat`: the kind, the source text and the truth value.
    literal : LitKind → Bytes → Bool → Pat
    -- `BindPat`.
    bind : Bytes → Pat
    -- `ConstructorPat`: the type, the variant's name, the path, the positional sub-patterns, the
    -- named ones and whether it ends in `..`.
    constructor : ℕ → Bytes → List Bytes → Pats → FieldPats → Bool → Pat
    -- `WildcardPat`.
    wildcard : Pat
    -- `OrPat`.
    alternatives : Pats → Pat
    -- `RangePat`. The bounds are expressions, which no check of patterns reads.
    range : Bool → Pat
    -- `AtBindPat`.
    at_bind : Bytes → Pat → Pat

  pub data Pats : Type 0 where
    nil : Pats
    cons : Pat → Pats → Pats

  -- `FieldPat`: the name and the pattern.
  pub data FieldPats : Type 0 where
    end : FieldPats
    field : Bytes → Pat → FieldPats → FieldPats

-- `MatchArm`: the pattern, and whether there is a guard. The body is not read.
pub record Arm : Type 0 where
  pub pattern_of : Pat
  pub guarded : Bool
