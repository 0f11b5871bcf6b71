-- ===== src/Lex/TokenNames.antt =====
-- compiler/lex/token.go: the token kinds by their names in golden output.
use text.Mathlib.Text.{◌==◌ as str_eq}
use fuse.Prelude.{List, [], ◌∷◌, Option, none, some, String, if◌then◌else◌, ◌≡◌, refl, ap, arith}
use fuse.Lex.Token.{
  TokenKind, kind_name, invalid, eof, int, float, string, raw_string, c_string, char, lit_true,
  lit_false, ident, kw_fn, kw_pub, kw_struct, kw_enum, kw_trait, kw_impl, kw_for, kw_in, kw_while,
  kw_loop, kw_if, kw_else, kw_match, kw_return, kw_let, kw_var, kw_move, kw_ref, kw_mutref,
  kw_owned, kw_unsafe, kw_spawn, kw_chan, kw_import, kw_as, kw_mod, kw_use, kw_type, kw_const,
  kw_static, kw_extern, kw_break, kw_continue, kw_where, kw_self_type, kw_self_val, kw_none,
  kw_some, l_paren, r_paren, l_bracket, r_bracket, l_brace, r_brace, comma, semi, colon,
  colon_colon, arrow, fat_arrow, dot, dot_dot, dot_dot_eq, question, question_dot, at, hash, eq,
  eq_eq, bang_eq, lt, le, gt, ge, plus, minus, star, slash, percent, bang, amp, amp_amp, pipe,
  pipe_pipe, caret, tilde, shl, shr, plus_eq, minus_eq, star_eq, slash_eq, percent_eq, amp_eq,
  pipe_eq, caret_eq, shl_eq, shr_eq,
}

-- The kinds in the order of their constants.
abbrev all_kinds : List TokenKind
all_kinds =
    invalid ∷ eof ∷ int ∷ float ∷ string ∷ raw_string ∷ c_string ∷ char ∷ lit_true ∷ lit_false
    ∷ ident ∷ kw_fn ∷ kw_pub ∷ kw_struct ∷ kw_enum ∷ kw_trait ∷ kw_impl ∷ kw_for ∷ kw_in ∷ kw_while
    ∷ kw_loop ∷ kw_if ∷ kw_else ∷ kw_match ∷ kw_return ∷ kw_let ∷ kw_var ∷ kw_move ∷ kw_ref
    ∷ kw_mutref ∷ kw_owned ∷ kw_unsafe ∷ kw_spawn ∷ kw_chan ∷ kw_import ∷ kw_as ∷ kw_mod ∷ kw_use
    ∷ kw_type ∷ kw_const ∷ kw_static ∷ kw_extern ∷ kw_break ∷ kw_continue ∷ kw_where ∷ kw_self_type
    ∷ kw_self_val ∷ kw_none ∷ kw_some ∷ l_paren ∷ r_paren ∷ l_bracket ∷ r_bracket ∷ l_brace
    ∷ r_brace ∷ comma ∷ semi ∷ colon ∷ colon_colon ∷ arrow ∷ fat_arrow ∷ dot ∷ dot_dot ∷ dot_dot_eq
    ∷ question ∷ question_dot ∷ at ∷ hash ∷ eq ∷ eq_eq ∷ bang_eq ∷ lt ∷ le ∷ gt ∷ ge ∷ plus ∷ minus
    ∷ star ∷ slash ∷ percent ∷ bang ∷ amp ∷ amp_amp ∷ pipe ∷ pipe_pipe ∷ caret ∷ tilde ∷ shl ∷ shr
    ∷ plus_eq ∷ minus_eq ∷ star_eq ∷ slash_eq ∷ percent_eq ∷ amp_eq ∷ pipe_eq ∷ caret_eq ∷ shl_eq
    ∷ shr_eq ∷ []

-- The kind that a name in golden output stands for.
find_kind : List TokenKind → String → Option TokenKind
find_kind [] name = none
find_kind (kind ∷ kinds) name =
    if str_eq (kind_name kind) name then some kind else find_kind kinds name

find_kind-kind_name : (k : TokenKind) → find_kind all_kinds (kind_name k) ≡ some k
unfolding find_kind kind_name
find_kind-kind_name invalid = refl
find_kind-kind_name eof = refl
find_kind-kind_name int = refl
find_kind-kind_name float = refl
find_kind-kind_name string = refl
find_kind-kind_name raw_string = refl
find_kind-kind_name c_string = refl
find_kind-kind_name char = refl
find_kind-kind_name lit_true = refl
find_kind-kind_name lit_false = refl
find_kind-kind_name ident = refl
find_kind-kind_name kw_fn = refl
find_kind-kind_name kw_pub = refl
find_kind-kind_name kw_struct = refl
find_kind-kind_name kw_enum = refl
find_kind-kind_name kw_trait = refl
find_kind-kind_name kw_impl = refl
find_kind-kind_name kw_for = refl
find_kind-kind_name kw_in = refl
find_kind-kind_name kw_while = refl
find_kind-kind_name kw_loop = refl
find_kind-kind_name kw_if = refl
find_kind-kind_name kw_else = refl
find_kind-kind_name kw_match = refl
find_kind-kind_name kw_return = refl
find_kind-kind_name kw_let = refl
find_kind-kind_name kw_var = refl
find_kind-kind_name kw_move = refl
find_kind-kind_name kw_ref = refl
find_kind-kind_name kw_mutref = refl
find_kind-kind_name kw_owned = refl
find_kind-kind_name kw_unsafe = refl
find_kind-kind_name kw_spawn = refl
find_kind-kind_name kw_chan = refl
find_kind-kind_name kw_import = refl
find_kind-kind_name kw_as = refl
find_kind-kind_name kw_mod = refl
find_kind-kind_name kw_use = refl
find_kind-kind_name kw_type = refl
find_kind-kind_name kw_const = refl
find_kind-kind_name kw_static = refl
find_kind-kind_name kw_extern = refl
find_kind-kind_name kw_break = refl
find_kind-kind_name kw_continue = refl
find_kind-kind_name kw_where = refl
find_kind-kind_name kw_self_type = refl
find_kind-kind_name kw_self_val = refl
find_kind-kind_name kw_none = refl
find_kind-kind_name kw_some = refl
find_kind-kind_name l_paren = refl
find_kind-kind_name r_paren = refl
find_kind-kind_name l_bracket = refl
find_kind-kind_name r_bracket = refl
find_kind-kind_name l_brace = refl
find_kind-kind_name r_brace = refl
find_kind-kind_name comma = refl
find_kind-kind_name semi = refl
find_kind-kind_name colon = refl
find_kind-kind_name colon_colon = refl
find_kind-kind_name arrow = refl
find_kind-kind_name fat_arrow = refl
find_kind-kind_name dot = refl
find_kind-kind_name dot_dot = refl
find_kind-kind_name dot_dot_eq = refl
find_kind-kind_name question = refl
find_kind-kind_name question_dot = refl
find_kind-kind_name at = refl
find_kind-kind_name hash = refl
find_kind-kind_name eq = refl
find_kind-kind_name eq_eq = refl
find_kind-kind_name bang_eq = refl
find_kind-kind_name lt = refl
find_kind-kind_name le = refl
find_kind-kind_name gt = refl
find_kind-kind_name ge = refl
find_kind-kind_name plus = refl
find_kind-kind_name minus = refl
find_kind-kind_name star = refl
find_kind-kind_name slash = refl
find_kind-kind_name percent = refl
find_kind-kind_name bang = refl
find_kind-kind_name amp = refl
find_kind-kind_name amp_amp = refl
find_kind-kind_name pipe = refl
find_kind-kind_name pipe_pipe = refl
find_kind-kind_name caret = refl
find_kind-kind_name tilde = refl
find_kind-kind_name shl = refl
find_kind-kind_name shr = refl
find_kind-kind_name plus_eq = refl
find_kind-kind_name minus_eq = refl
find_kind-kind_name star_eq = refl
find_kind-kind_name slash_eq = refl
find_kind-kind_name percent_eq = refl
find_kind-kind_name amp_eq = refl
find_kind-kind_name pipe_eq = refl
find_kind-kind_name caret_eq = refl
find_kind-kind_name shl_eq = refl
find_kind-kind_name shr_eq = refl

-- Two token kinds with the same name in golden output are the same kind.
pub kind_name-injective : (j k : TokenKind) → kind_name j ≡ kind_name k → j ≡ k
kind_name-injective j k h =
    ground (arith, find_kind-kind_name j, find_kind-kind_name k, ap (find_kind all_kinds) h)
