-- ===== src/Lex/Longest.antt =====
-- The operators of compiler/lex/scanner.go as a table, beside the two switches of `scanPunct`.
use mathlib.Core.Path.{subst}
use fuse.Prelude.{
  ℕ, ◌≤◌, Option, none, some, Option-cases, [], ◌∷◌, ◌++◌, length, take, Bytes, codes, ◌≡◌, inl,
  inr, arith,
}
use fuse.Lex.Token.{
  TokenKind, l_paren, r_paren, l_bracket, r_bracket, l_brace, r_brace, comma, semi, at, hash, tilde,
  colon_colon, colon, dot_dot_eq, dot_dot, dot, question_dot, question, arrow, minus_eq, minus,
  eq_eq, fat_arrow, eq, bang_eq, bang, shl_eq, shl, le, lt, shr_eq, shr, ge, gt, plus_eq, plus,
  star_eq, star, slash_eq, slash, percent_eq, percent, amp_amp, amp_eq, amp, pipe_pipe, pipe_eq,
  pipe, caret_eq, caret,
}
use fuse.Lex.Cursor.{peek_byte}
use fuse.Lex.Punct.{Punct, punct_at, single_punct, multi_punct}

-- The spelling of an operator or punctuation mark.
abbrev pub spelling : TokenKind → Option Bytes
spelling l_paren = some (codes "(")
spelling r_paren = some (codes ")")
spelling l_bracket = some (codes "[")
spelling r_bracket = some (codes "]")
spelling l_brace = some (codes "{")
spelling r_brace = some (codes "}")
spelling comma = some (codes ",")
spelling semi = some (codes ";")
spelling at = some (codes "@")
spelling hash = some (codes "#")
spelling tilde = some (codes "~")
spelling colon_colon = some (codes "::")
spelling colon = some (codes ":")
spelling dot_dot_eq = some (codes "..=")
spelling dot_dot = some (codes "..")
spelling dot = some (codes ".")
spelling question_dot = some (codes "?.")
spelling question = some (codes "?")
spelling arrow = some (codes "->")
spelling minus_eq = some (codes "-=")
spelling minus = some (codes "-")
spelling eq_eq = some (codes "==")
spelling fat_arrow = some (codes "=>")
spelling eq = some (codes "=")
spelling bang_eq = some (codes "!=")
spelling bang = some (codes "!")
spelling shl_eq = some (codes "<<=")
spelling shl = some (codes "<<")
spelling le = some (codes "<=")
spelling lt = some (codes "<")
spelling shr_eq = some (codes ">>=")
spelling shr = some (codes ">>")
spelling ge = some (codes ">=")
spelling gt = some (codes ">")
spelling plus_eq = some (codes "+=")
spelling plus = some (codes "+")
spelling star_eq = some (codes "*=")
spelling star = some (codes "*")
spelling slash_eq = some (codes "/=")
spelling slash = some (codes "/")
spelling percent_eq = some (codes "%=")
spelling percent = some (codes "%")
spelling amp_amp = some (codes "&&")
spelling amp_eq = some (codes "&=")
spelling amp = some (codes "&")
spelling pipe_pipe = some (codes "||")
spelling pipe_eq = some (codes "|=")
spelling pipe = some (codes "|")
spelling caret_eq = some (codes "^=")
spelling caret = some (codes "^")
spelling _ = none

-- At least `n` bytes are taken.
abbrev Covers : ℕ → Option Punct → Type 0
Covers n none = ⊥
Covers n (some p) = n ≤ p.size

abbrev Longest : Option Bytes → Bytes → Type 0
Longest none r = Unit
Longest (some w) r = Covers (length w) (punct_at (w ++ r))

longest : (k : TokenKind) (r : Bytes) → Longest (spelling k) r
unfolding punct_at
longest k r = ground arith

-- What is taken is spelled out in the source.
abbrev pub Spells : Bytes → Punct → Type 0
Spells rest p = (spelling p.kind ≡ some (take p.size rest)) × (p.size ≤ length rest)

-- Whatever is found is spelled out.
abbrev Spelled : Bytes → Option Punct → Type 0
Spelled rest none = Unit
Spelled rest (some p) = Spells rest p

single_punct-Spelled : (rest : Bytes) → Spelled rest (single_punct (peek_byte 0 rest))
unfolding single_punct peek_byte
single_punct-Spelled [] = ground arith
single_punct-Spelled (a ∷ rest) = ground arith

multi_punct-Spelled :
    (rest : Bytes)
    → Spelled rest (multi_punct (peek_byte 0 rest) (peek_byte 1 rest) (peek_byte 2 rest))
unfolding multi_punct peek_byte
multi_punct-Spelled [] = ground arith
multi_punct-Spelled (a ∷ []) = ground arith
multi_punct-Spelled (a ∷ b ∷ []) = ground arith
multi_punct-Spelled (a ∷ b ∷ c ∷ rest) = ground arith

punct_at-Spelled : (rest : Bytes) → Spelled rest (punct_at rest)
unfolding punct_at
punct_at-Spelled rest = elim (Option-cases (single_punct (peek_byte 0 rest))) [
  | inl e ↦ rw (e, punct_at) (multi_punct-Spelled rest)
  | inr (p, e) ↦ rw (e, punct_at) (rw e at (single_punct-Spelled rest))
]

-- What `scanPunct` takes is an operator of the table, spelled out at the cursor.
pub punct_at-Spells : (rest : Bytes) (p : Punct) → punct_at rest ≡ some p → Spells rest p
punct_at-Spells rest p e = rw e at (punct_at-Spelled rest)

-- Where an operator of the table stands at the cursor, `scanPunct` takes it or a longer one. With
-- `punct_at-Spells`, what it takes is the longest operator of the table that stands there.
pub punct_at_longest :
    (k : TokenKind) (w r : Bytes)
    → spelling k ≡ some w
    → (p : Punct) × (punct_at (w ++ r) ≡ some p) × (length w ≤ p.size) × Spells (w ++ r) p
punct_at_longest k w r e = elim (Option-cases (punct_at (w ++ r))) [
  | inl n ↦ absurd (subst (Covers (length w)) n (subst (λ o. Longest o r) e (longest k r)))
  | inr (p, h) ↦ (
    p,
    h,
    subst (Covers (length w)) h (subst (λ o. Longest o r) e (longest k r)),
    punct_at-Spells (w ++ r) p h,
  )
]
