-- ===== src/Lex/Token.antt =====
-- compiler/lex/token.go: the token kinds, their stable names and the reserved words.

use fuse.Prelude.{List, [], ◌∷◌, Option, none, some, String, codes, Bytes, equal, if◌then◌else◌}

-- `TokenKind`, in the order of its constants. `true` and `false` are spelled `lit_true` and
-- `lit_false`.
pub data TokenKind : Type 0 where
  invalid eof int float string raw_string c_string char lit_true lit_false ident kw_fn : TokenKind
  kw_pub kw_struct kw_enum kw_trait kw_impl kw_for kw_in kw_while kw_loop kw_if kw_else : TokenKind
  kw_match kw_return kw_let kw_var kw_move kw_ref kw_mutref kw_owned kw_unsafe kw_spawn : TokenKind
  kw_chan kw_import kw_as kw_mod kw_use kw_type kw_const kw_static kw_extern kw_break : TokenKind
  kw_continue kw_where kw_self_type kw_self_val kw_none kw_some l_paren r_paren l_bracket :
      TokenKind
  r_bracket l_brace r_brace comma semi colon colon_colon arrow fat_arrow dot dot_dot : TokenKind
  dot_dot_eq question question_dot at hash eq eq_eq bang_eq lt le gt ge plus minus star : TokenKind
  slash percent bang amp amp_amp pipe pipe_pipe caret tilde shl shr plus_eq minus_eq : TokenKind
  star_eq slash_eq percent_eq amp_eq pipe_eq caret_eq shl_eq shr_eq : TokenKind

-- The map `keywords`.
abbrev pub keywords : List (String × TokenKind)
keywords =
    ("fn", kw_fn)
    ∷ ("pub", kw_pub)
    ∷ ("struct", kw_struct)
    ∷ ("enum", kw_enum)
    ∷ ("trait", kw_trait)
    ∷ ("impl", kw_impl)
    ∷ ("for", kw_for)
    ∷ ("in", kw_in)
    ∷ ("while", kw_while)
    ∷ ("loop", kw_loop)
    ∷ ("if", kw_if)
    ∷ ("else", kw_else)
    ∷ ("match", kw_match)
    ∷ ("return", kw_return)
    ∷ ("let", kw_let)
    ∷ ("var", kw_var)
    ∷ ("move", kw_move)
    ∷ ("ref", kw_ref)
    ∷ ("mutref", kw_mutref)
    ∷ ("owned", kw_owned)
    ∷ ("unsafe", kw_unsafe)
    ∷ ("spawn", kw_spawn)
    ∷ ("chan", kw_chan)
    ∷ ("import", kw_import)
    ∷ ("as", kw_as)
    ∷ ("mod", kw_mod)
    ∷ ("use", kw_use)
    ∷ ("type", kw_type)
    ∷ ("const", kw_const)
    ∷ ("static", kw_static)
    ∷ ("extern", kw_extern)
    ∷ ("break", kw_break)
    ∷ ("continue", kw_continue)
    ∷ ("where", kw_where)
    ∷ ("Self", kw_self_type)
    ∷ ("self", kw_self_val)
    ∷ ("true", lit_true)
    ∷ ("false", lit_false)
    ∷ ("None", kw_none)
    ∷ ("Some", kw_some)
    ∷ []

lookup_keyword : List (String × TokenKind) → Bytes → Option TokenKind
lookup_keyword [] text = none
lookup_keyword ((word, kind) ∷ table) text =
    if equal (codes word) text then some kind else lookup_keyword table text

-- `IsKeyword`: the kind of a reserved word.
unfoldable pub is_keyword : Bytes → Option TokenKind
unfolding lookup_keyword equal
is_keyword text = lookup_keyword keywords text

-- `String`: the map `kindNames`.
unfoldable pub kind_name : TokenKind → String
kind_name invalid = "INVALID"
kind_name eof = "EOF"
kind_name int = "INT"
kind_name float = "FLOAT"
kind_name string = "STRING"
kind_name raw_string = "RAWSTRING"
kind_name c_string = "CSTRING"
kind_name char = "CHAR"
kind_name lit_true = "TRUE"
kind_name lit_false = "FALSE"
kind_name ident = "IDENT"
kind_name kw_fn = "KW_FN"
kind_name kw_pub = "KW_PUB"
kind_name kw_struct = "KW_STRUCT"
kind_name kw_enum = "KW_ENUM"
kind_name kw_trait = "KW_TRAIT"
kind_name kw_impl = "KW_IMPL"
kind_name kw_for = "KW_FOR"
kind_name kw_in = "KW_IN"
kind_name kw_while = "KW_WHILE"
kind_name kw_loop = "KW_LOOP"
kind_name kw_if = "KW_IF"
kind_name kw_else = "KW_ELSE"
kind_name kw_match = "KW_MATCH"
kind_name kw_return = "KW_RETURN"
kind_name kw_let = "KW_LET"
kind_name kw_var = "KW_VAR"
kind_name kw_move = "KW_MOVE"
kind_name kw_ref = "KW_REF"
kind_name kw_mutref = "KW_MUTREF"
kind_name kw_owned = "KW_OWNED"
kind_name kw_unsafe = "KW_UNSAFE"
kind_name kw_spawn = "KW_SPAWN"
kind_name kw_chan = "KW_CHAN"
kind_name kw_import = "KW_IMPORT"
kind_name kw_as = "KW_AS"
kind_name kw_mod = "KW_MOD"
kind_name kw_use = "KW_USE"
kind_name kw_type = "KW_TYPE"
kind_name kw_const = "KW_CONST"
kind_name kw_static = "KW_STATIC"
kind_name kw_extern = "KW_EXTERN"
kind_name kw_break = "KW_BREAK"
kind_name kw_continue = "KW_CONTINUE"
kind_name kw_where = "KW_WHERE"
kind_name kw_self_type = "KW_SELFTYPE"
kind_name kw_self_val = "KW_SELFVAL"
kind_name kw_none = "KW_NONE"
kind_name kw_some = "KW_SOME"
kind_name l_paren = "LPAREN"
kind_name r_paren = "RPAREN"
kind_name l_bracket = "LBRACKET"
kind_name r_bracket = "RBRACKET"
kind_name l_brace = "LBRACE"
kind_name r_brace = "RBRACE"
kind_name comma = "COMMA"
kind_name semi = "SEMI"
kind_name colon = "COLON"
kind_name colon_colon = "COLONCOLON"
kind_name arrow = "ARROW"
kind_name fat_arrow = "FATARROW"
kind_name dot = "DOT"
kind_name dot_dot = "DOTDOT"
kind_name dot_dot_eq = "DOTDOTEQ"
kind_name question = "QUESTION"
kind_name question_dot = "QUESTIONDOT"
kind_name at = "AT"
kind_name hash = "HASH"
kind_name eq = "EQ"
kind_name eq_eq = "EQEQ"
kind_name bang_eq = "BANGEQ"
kind_name lt = "LT"
kind_name le = "LE"
kind_name gt = "GT"
kind_name ge = "GE"
kind_name plus = "PLUS"
kind_name minus = "MINUS"
kind_name star = "STAR"
kind_name slash = "SLASH"
kind_name percent = "PERCENT"
kind_name bang = "BANG"
kind_name amp = "AMP"
kind_name amp_amp = "AMPAMP"
kind_name pipe = "PIPE"
kind_name pipe_pipe = "PIPEPIPE"
kind_name caret = "CARET"
kind_name tilde = "TILDE"
kind_name shl = "SHL"
kind_name shr = "SHR"
kind_name plus_eq = "PLUSEQ"
kind_name minus_eq = "MINUSEQ"
kind_name star_eq = "STAREQ"
kind_name slash_eq = "SLASHEQ"
kind_name percent_eq = "PERCENTEQ"
kind_name amp_eq = "AMPEQ"
kind_name pipe_eq = "PIPEEQ"
kind_name caret_eq = "CARETEQ"
kind_name shl_eq = "SHLEQ"
kind_name shr_eq = "SHREQ"
