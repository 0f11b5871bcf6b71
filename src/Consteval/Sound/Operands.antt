-- ===== src/Consteval/Sound/Operands.antt =====
-- compiler/consteval/eval.go: the operators keep values sound.

use fuse.Prelude.{
  ℕ, ◌^◌, ◌<◌, ◌==◌, Bool, true, false, ◌||◌, Bytes, if◌then◌else◌, Option, none, some, ◌≡◌, refl,
  arith,
}
use fuse.Check.Patterns.{
  LitKind, lit_int, lit_float, lit_string, lit_raw_string, lit_cstring, lit_char, lit_bool,
  lit_none,
}
use fuse.Typetable.Table.{Table}
use fuse.Consteval.Value.{Value, vk_int, vk_bool, vk_char, integer_bits, is_signed, is_integer_type}
use fuse.Consteval.Words.{BinaryOp, word_op, is_comparison_op}
use fuse.Consteval.Syntax.{UnaryOp, un_not, un_neg, un_deref, un_addr}
use fuse.Consteval.State.{Problem, State, Out}
use fuse.Consteval.Operators.{
  bit, give_or, integer_literal, char_literal, eval_literal, apply_unary, give_word, eval_compare,
  apply_integer, apply_binary, cast_inner, is_char, eval_cast,
}
use fuse.Consteval.Bounds.{
  IsWidth, integer_bits-IsWidth, mask_lt, word_op_lem, word_neg_lt, word_not_lt,
}
use fuse.Consteval.Readings.{by_width}
use fuse.Consteval.Casts.{word_cast_lt}
use fuse.Consteval.Sound.{IsSound, OptionSound, Ok, OutSound, failed}
use fuse.Consteval.Sound.LiteralWords.{
  IsWord, IsByte, parse_integer_literal-IsWord, parse_char_literal-IsByte,
}

module _ (tab : Table) (d : ℕ) where
  give_word-OutSound :
      (op : BinaryOp) (ty : ℕ) (o : Option ℕ) (s : State)
      → ((n : ℕ) → o ≡ some n → n < 2 ^ integer_bits tab ty)
      → Ok tab d s
      → OutSound tab d (give_word tab op ty o s)
  unfolding IsSound
  give_word-OutSound op ty none s f h = failed tab d s h
  give_word-OutSound op ty (some n) s f h = (f n refl, h)

  pub give_or-OutSound :
      (p : Problem) (o : Option Value) (s : State)
      → OptionSound tab o
      → Ok tab d s
      → OutSound tab d (give_or p o s)
  give_or-OutSound p none s v h = failed tab d s h
  give_or-OutSound p (some v) s w h = (w, h)

  integer_literal-OutSound :
      (ty : ℕ) (o : Option ℕ) (s : State)
      → IsWord o
      → Ok tab d s
      → OutSound tab d (integer_literal tab ty o s)
  unfolding IsSound
  integer_literal-OutSound ty none s w h = failed tab d s h
  integer_literal-OutSound ty (some n) s w h =
      (mask_lt (integer_bits tab ty) n (integer_bits-IsWidth tab ty) w, h)

  byte_lt : (bits n : ℕ) → IsWidth bits → n < 2 ^ 8 → n < 2 ^ bits
  byte_lt bits n w h =
      by_width (λ x. n < 2 ^ x) bits w h (omega (arith, h)) (omega (arith, h)) (omega (arith, h))

  char_literal-OutSound :
      (o : Option ℕ) (s : State) → IsByte o → Ok tab d s → OutSound tab d (char_literal tab o s)
  unfolding IsSound
  char_literal-OutSound none s w h = failed tab d s h
  char_literal-OutSound (some n) s w h = (byte_lt _ n (integer_bits-IsWidth tab _) w, h)

  pub eval_literal-OutSound :
      (k : LitKind) (text : Bytes) (b : Bool) (ty : ℕ) (s : State)
      → Ok tab d s
      → OutSound tab d (eval_literal tab k text b ty s)
  unfolding eval_literal IsSound
  eval_literal-OutSound lit_int text b ty s h =
      integer_literal-OutSound ty _ s (parse_integer_literal-IsWord text) h
  eval_literal-OutSound lit_bool text b ty s h = (tt, h)
  eval_literal-OutSound lit_char text b ty s h =
      char_literal-OutSound _ s (parse_char_literal-IsByte text) h
  eval_literal-OutSound lit_float text b ty s h = failed tab d s h
  eval_literal-OutSound lit_string text b ty s h = failed tab d s h
  eval_literal-OutSound lit_raw_string text b ty s h = failed tab d s h
  eval_literal-OutSound lit_cstring text b ty s h = failed tab d s h
  eval_literal-OutSound lit_none text b ty s h = failed tab d s h

  pub apply_unary-OutSound :
      (op : UnaryOp) (v : Value) (s : State)
      → IsSound tab v
      → Ok tab d s
      → OutSound tab d (apply_unary tab op v s)
  unfolding apply_unary IsSound
  apply_unary-OutSound un_neg v s w h =
      elim v as (λ k. OutSound tab d (apply_unary tab un_neg k s)) [
        | vk_int ty n ↦ (word_neg_lt (integer_bits tab ty) n (integer_bits-IsWidth tab ty), h)
        | _ ↦ failed tab d s h
      ]
  apply_unary-OutSound un_not v s w h =
      elim v as (λ k. OutSound tab d (apply_unary tab un_not k s)) [
        | vk_int ty n ↦ (word_not_lt (integer_bits tab ty) n (integer_bits-IsWidth tab ty), h)
        | vk_bool ty b ↦ (tt, h)
        | _ ↦ failed tab d s h
      ]
  apply_unary-OutSound un_deref v s w h = failed tab d s h
  apply_unary-OutSound un_addr v s w h = failed tab d s h

  either_OutSound :
      (b : Bool) (o p : Out)
      → OutSound tab d o
      → OutSound tab d p
      → OutSound tab d (if b then o else p)
  either_OutSound true o p h k = h
  either_OutSound false o p h k = k

  eval_compare-OutSound :
      (op : BinaryOp) (l r : Value) (s : State)
      → Ok tab d s
      → OutSound tab d (eval_compare tab op l r s)
  unfolding eval_compare IsSound
  eval_compare-OutSound op l r s h = elim l as (λ k. OutSound tab d (eval_compare tab op k r s)) [
    | vk_int lt a ↦ elim r as (λ k. OutSound tab d (eval_compare tab op (vk_int lt a) k s)) [
      | vk_int rt b ↦ (tt, h)
      | _ ↦ failed tab d s h
    ]
    | vk_bool lt a ↦ elim r as (λ k. OutSound tab d (eval_compare tab op (vk_bool lt a) k s)) [
      | vk_bool rt b ↦ (tt, h)
      | _ ↦ failed tab d s h
    ]
    | vk_char lt a ↦ elim r as (λ k. OutSound tab d (eval_compare tab op (vk_char lt a) k s)) [
      | vk_char rt b ↦ (tt, h)
      | _ ↦ failed tab d s h
    ]
    | _ ↦ failed tab d s h
  ]

  apply_integer-OutSound :
      (op : BinaryOp) (l r : Value) (s : State)
      → IsSound tab l
      → Ok tab d s
      → OutSound tab d (apply_integer tab op l r s)
  unfolding apply_integer IsSound
  apply_integer-OutSound op l r s w h =
      elim l as (λ k. IsSound tab k → OutSound tab d (apply_integer tab op k r s)) [
        | vk_int lt a ↦ λ v.
            elim r as (λ k. OutSound tab d (apply_integer tab op (vk_int lt a) k s)) [
              | vk_int rt b ↦
                  let bits = integer_bits tab lt in
                  let signed = is_signed tab lt in
                  let f = λ (n : ℕ) (e : word_op op signed bits a b ≡ some n).
                    word_op_lem op signed bits a b n (integer_bits-IsWidth tab lt) v e in
                  either_OutSound (lt == rt) _ _
                    (give_word-OutSound op lt (word_op op signed bits a b) s f h) (failed tab d s h)
              | _ ↦ failed tab d s h
            ]
        | _ ↦ λ v. failed tab d s h
      ]
        w

  pub apply_binary-OutSound :
      (op : BinaryOp) (l r : Value) (s : State)
      → IsSound tab l
      → Ok tab d s
      → OutSound tab d (apply_binary tab op l r s)
  apply_binary-OutSound op l r s w h =
      either_OutSound (is_comparison_op op) _ _ (eval_compare-OutSound op l r s h)
        (apply_integer-OutSound op l r s w h)

  bit_lt : (bits : ℕ) (b : Bool) → IsWidth bits → bit b < 2 ^ bits
  bit_lt bits b w =
      by_width (λ x. bit b < 2 ^ x) bits w (ground arith) (ground arith) (ground arith)
        (ground arith)

  cast_inner-OutSound :
      (ty : ℕ) (v : Value) (s : State)
      → IsSound tab v
      → Ok tab d s
      → OutSound tab d (cast_inner tab ty v s)
  unfolding IsSound
  cast_inner-OutSound ty v s w h =
      elim v as (λ k. IsSound tab k → OutSound tab d (cast_inner tab ty k s)) [
        | vk_int from n ↦ λ v. (
          word_cast_lt (is_signed tab from) (integer_bits tab from) (integer_bits tab ty) n
              (integer_bits-IsWidth tab from) (integer_bits-IsWidth tab ty) v,
          h,
        )
        | vk_char from n ↦ λ v. (
          word_cast_lt (is_signed tab from) (integer_bits tab from) (integer_bits tab ty) n
              (integer_bits-IsWidth tab from) (integer_bits-IsWidth tab ty) v,
          h,
        )
        | vk_bool from b ↦ λ v. (bit_lt (integer_bits tab ty) b (integer_bits-IsWidth tab ty), h)
        | _ ↦ λ v. failed tab d s h
      ]
        w

  pub eval_cast-OutSound :
      (ty : ℕ) (v : Value) (s : State)
      → IsSound tab v
      → Ok tab d s
      → OutSound tab d (eval_cast tab ty v s)
  unfolding eval_cast
  eval_cast-OutSound ty v s w h =
      either_OutSound (is_integer_type tab ty || is_char tab ty) _ _
        (cast_inner-OutSound ty v s w h) (failed tab d s h)
