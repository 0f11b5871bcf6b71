-- ===== src/Consteval/Tests.antt =====
-- Small constants of compiler/consteval, and the theorems at concrete inputs.
use fuse.Prelude.{
  ℕ, ◌^◌, ◌<◌, true, false, List, [], ◌∷◌, Bytes, codes, none, some, ◌≡◌, refl, arith, inl, inr,
  equal, length,
}
use fuse.Prelude.Int.{negsuc}
use fuse.Prelude.Maps.{lookup}
use fuse.Check.Patterns.{lit_int}
use fuse.Typetable.Kind.{u32, ordinal}
use fuse.Typetable.Keys.{key}
use fuse.Typetable.Table.{
  Table, get, new, look_up, intern_core, intern_primitive, intern_primitives, find_primitive,
}
use fuse.Consteval.Value.{vk_int, integer_bits, is_signed}
use fuse.Consteval.Words.{bin_sub, bin_le, bin_mul, bin_div, word_op, word_cast}
use fuse.Consteval.Literals.{parse_integer_literal, parse_digits}
use fuse.Consteval.Syntax.{
  Expr, literal, path, binary, if_else, call, trailing, expr, no_exprs, FnDecl, ConstDecl, Block,
}
use fuse.Consteval.State.{
  State, Program, find, lookup_name, flow_normal, flow_error, Out, lookup_variant,
  const_early_return, division_by_zero,
}
use fuse.Consteval.Operators.{eval_literal, apply_integer, eval_compare}
use fuse.Consteval.Paths.{eval_const_decl, eval_path}
use fuse.Consteval.Bounds.{word_op_lem}
use fuse.Consteval.Exact.{word_op-exact}
use fuse.Consteval.Readings.{reading}
use fuse.Consteval.Casts.{word_cast-exact}
use fuse.Consteval.Sound.Paths.{IsSmall}
use fuse.Consteval.Evaluate.{
  Items, const_item, fn_item, no_items, item, Result, evaluate, evaluate_item, evaluate_items,
  new_evaluator, index_items, enums_of,
}
use fuse.Consteval.Evaluated.{ResultSound, eval_const_decl-error, evaluate-ResultSound}
use fuse.Consteval.Eval.{eval_expr, level, top_level}

abbrev table : Table
table = new (λ s. s)

abbrev u32_type : ℕ
u32_type = 9

u32_type_lem : look_up table u32 ≡ u32_type
unfolding new get intern_primitives intern_primitive intern_core find_primitive key lookup equal
    ordinal
u32_type_lem = refl

abbrev local : List Bytes → Expr
local segments = path segments 0 u32_type

abbrev number : Bytes → Expr
number text = literal lit_int text false u32_type

-- `const fn fact(n: U32) -> U32 { if n <= 1 { 1 } else { n * fact(n - 1) } }`.
abbrev fact_body : Block
fact_body =
    let n = local (codes "n" ∷ []) in
    let less = binary bin_sub n (number (codes "1")) in
    let rest = call (codes "fact" ∷ []) 5 (expr less no_exprs) in
    trailing (
      if_else (binary bin_le n (number (codes "1"))) (trailing (number (codes "1")))
        (binary bin_mul n rest))

abbrev fact : FnDecl
fact = record {
  name = codes "fact";
  is_const = true;
  is_extern = false;
  params = codes "n" ∷ [];
  body = some fact_body;
}

abbrev program : Program
program = record { const_decls = []; static_decls = []; fn_by_sym = (5, fact) ∷ []; enums = [] }

abbrev start : State
start = record { cache = []; diags = [] }

-- `const C: U32 = fact(5);`.
abbrev c_decl : ConstDecl
c_decl = record {
  name = codes "C";
  sym_id = 7;
  value = some (call (codes "fact" ∷ []) 5 (expr (number (codes "5")) no_exprs));
}

abbrev run : ConstDecl → Out
run c = eval_const_decl (top_level program table (λ s. none)) c start

fact_5 : run c_decl ≡ (
  vk_int u32_type 120,
  flow_normal,
  record { cache = (7, vk_int u32_type 120) ∷ []; diags = [] },
)
unfolding eval_const_decl level eval_expr eval_literal eval_path find apply_integer eval_compare
    lookup_name lookup equal word_op integer_bits is_signed get new intern_primitives
    intern_primitive intern_core find_primitive key ordinal parse_integer_literal parse_digits
fact_5 = refl

-- A hexadecimal literal that ends in the letters of a suffix loses them.
hex_suffix : parse_integer_literal (codes "0x1f32") ≡ some 1
unfolding parse_integer_literal parse_digits equal
hex_suffix = refl

hex_whole : parse_integer_literal (codes "0x1f_3a") ≡ some 7994
unfolding parse_integer_literal parse_digits equal
hex_whole = refl

-- -3 / 2 on I8 cuts towards zero.
abbrev minus_three : ℕ
minus_three = 253

word_op-exact_example :
    (n : ℕ) × (word_op bin_div true 8 minus_three 2 ≡ some n) × (reading true 8 n ≡ negsuc 0)
word_op-exact_example =
    word_op-exact bin_div true 8 minus_three 2 (negsuc 0) (inl refl) (omega arith) (omega arith)
      refl (omega arith)

product : word_op bin_mul true 8 minus_three 50 ≡ some 106
unfolding word_op
product = refl

word_op_lem_example : 106 < 2 ^ 8
word_op_lem_example = word_op_lem bin_mul true 8 minus_three 50 106 (inl refl) (omega arith) product

-- -3 of I8 as an I64.
word_cast-exact_example :
    reading true 64 (word_cast true 8 64 minus_three) ≡ reading true 8 minus_three
word_cast-exact_example =
    word_cast-exact true true 8 64 minus_three (inl refl) (inr (inr (inr refl))) (omega arith)
      (omega arith)

-- `const C: U32 = fact(5);` and `const BAD: U32 = 1 / 0;`.
abbrev bad_decl : ConstDecl
bad_decl = record {
  name = codes "BAD";
  sym_id = 8;
  value = some (binary bin_div (number (codes "1")) (number (codes "0")));
}

program-IsSmall : IsSmall program
unfolding lookup_variant
program-IsSmall enum variant i h = absurd (ground arith)

bad_fails : (eval_const_decl (top_level program table (λ s. none)) bad_decl start).1 ≡ flow_error
unfolding eval_const_decl level eval_expr eval_literal find apply_integer word_op integer_bits
    is_signed get new intern_primitives intern_primitive intern_core find_primitive key lookup equal
    ordinal parse_integer_literal parse_digits
bad_fails = refl

eval_const_decl-error_example :
    0 < length (eval_const_decl (top_level program table (λ s. none)) bad_decl start).2.diags
eval_const_decl-error_example =
    eval_const_decl-error program table (λ s. none) bad_decl start program-IsSmall tt bad_fails

abbrev items : Items
items = item (fn_item 5 fact) (item (const_item c_decl) (item (const_item bad_decl) no_items))

abbrev outcome : Result
outcome = record {
  const_values = (7, vk_int u32_type 120) ∷ [];
  static_values = [];
  discriminant_values = [];
}

abbrev final : State
final = record {
  cache = (7, vk_int u32_type 120) ∷ [];
  diags = const_early_return ∷ division_by_zero ∷ [];
}

items_evaluated : evaluate table (λ s. none) items ≡ some (outcome, final)
unfolding evaluate evaluate_items evaluate_item new_evaluator index_items enums_of eval_const_decl
    level eval_expr eval_literal eval_path find apply_integer eval_compare lookup_name lookup equal
    word_op integer_bits is_signed get new intern_primitives intern_primitive intern_core
    find_primitive key ordinal parse_integer_literal parse_digits
items_evaluated = refl

items-IsSmall : IsSmall (new_evaluator items)
unfolding lookup_variant new_evaluator index_items enums_of
items-IsSmall enum variant i h = absurd (ground arith)

evaluate-ResultSound_example : ResultSound table outcome
evaluate-ResultSound_example =
    evaluate-ResultSound table (λ s. none) items outcome final items-IsSmall items_evaluated
