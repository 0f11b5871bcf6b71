-- ===== src/Consteval/Operators.antt =====
-- compiler/consteval/eval.go: the operators on evaluated operands.
use fuse.Prelude.{
  ℕ, zero, suc, ◌^◌, ltb, ◌==◌, Bool, true, false, ◌||◌, not, Bytes, if◌then◌else◌, Option, none,
  some,
}
use fuse.Prelude.Int.{pos}
use fuse.Check.Patterns.{LitKind, lit_int, lit_char, lit_bool}
use fuse.Typetable.Kind.{bool, char}
use fuse.Typetable.Table.{Table, look_up}
use fuse.Consteval.Value.{
  Value, Values, vk_invalid, vk_int, vk_bool, vk_unit, vk_tuple, vk_array, vk_struct, vk_char,
  empty, elem, type_kind, integer_bits, is_signed, is_integer_type, mask_to_width, signed_int,
}
use fuse.Consteval.Words.{
  BinaryOp, is_comparison_op, word_op, word_neg, word_not, word_cast, compare_i64, compare_u64,
  bin_mod, bin_div,
}
use fuse.Consteval.Literals.{parse_integer_literal, parse_char_literal}
use fuse.Consteval.Syntax.{UnaryOp, un_not, un_neg, un_deref, un_addr}
use fuse.Consteval.State.{
  Problem, State, Out, flow_normal, fail, invalid_integer, invalid_char, literal_kind, neg_operand,
  not_operand, unary_operator, mixed_types, division_by_zero, modulo_by_zero, mixed_kinds,
  comparison_operands, integer_operands, binary_operator, cast_target, cast_source, missing_field,
  tuple_index, field_receiver, index_type, index_bounds,
}
use fuse.Consteval.Binding.{find_field, values_length}

abbrev pub give : Value → State → Out
give v s = (v, flow_normal, s)

-- `Kind` of a value, by its number.
abbrev pub value_kind : Value → ℕ
value_kind vk_invalid = 0
value_kind (vk_int ty n) = 1
value_kind (vk_bool ty b) = 2
value_kind (vk_unit ty) = 3
value_kind (vk_tuple ty vs) = 4
value_kind (vk_array ty vs) = 5
value_kind (vk_struct ty order fs) = 6
value_kind (vk_char ty n) = 7

abbrev pub bit : Bool → ℕ
bit true = 1
bit false = 0

-- `strconv.Atoi` of a text of digits that fits; nothing otherwise.
abbrev pub value_at : Values → ℕ → Option Value
value_at empty i = none
value_at (elem v vs) zero = some v
value_at (elem v vs) (suc i) = value_at vs i

abbrev pub give_or : Problem → Option Value → State → Out
give_or p none s = fail p s
give_or p (some v) s = give v s

module _ (tab : Table) where
  -- `evalLiteral`.
  abbrev pub integer_literal : ℕ → Option ℕ → State → Out
  integer_literal ty none s = fail invalid_integer s
  integer_literal ty (some n) s = give (vk_int ty (mask_to_width n (integer_bits tab ty))) s

  abbrev pub char_literal : Option ℕ → State → Out
  char_literal none s = fail invalid_char s
  char_literal (some n) s = give (vk_char (look_up tab char) n) s

  unfoldable pub eval_literal : LitKind → Bytes → Bool → ℕ → State → Out
  eval_literal lit_int text b ty s = integer_literal ty (parse_integer_literal text) s
  eval_literal lit_bool text b ty s = give (vk_bool (look_up tab bool) b) s
  eval_literal lit_char text b ty s = char_literal (parse_char_literal text) s
  eval_literal _ text b ty s = fail literal_kind s

  -- `evalUnary`, of the operand's value.
  unfoldable pub apply_unary : UnaryOp → Value → State → Out
  apply_unary un_neg (vk_int ty n) s = give (vk_int ty (word_neg (integer_bits tab ty) n)) s
  apply_unary un_neg _ s = fail neg_operand s
  apply_unary un_not (vk_bool ty b) s = give (vk_bool ty (not b)) s
  apply_unary un_not (vk_int ty n) s = give (vk_int ty (word_not (integer_bits tab ty) n)) s
  apply_unary un_not _ s = fail not_operand s
  apply_unary un_deref _ s = fail unary_operator s
  apply_unary un_addr _ s = fail unary_operator s

  -- The report of an operation that gives no word.
  abbrev pub no_word : BinaryOp → Problem
  no_word bin_div = division_by_zero
  no_word bin_mod = modulo_by_zero
  no_word op = binary_operator op

  abbrev pub give_word : BinaryOp → ℕ → Option ℕ → State → Out
  give_word op ty none s = fail (no_word op) s
  give_word op ty (some n) s = give (vk_int ty n) s

  abbrev pub compare_ints : BinaryOp → ℕ → ℕ → ℕ → ℕ → Bool
  compare_ints op lt l rt r =
      if is_signed tab lt
      then compare_i64 op (signed_int (integer_bits tab lt) l) (signed_int (integer_bits tab rt) r)
      else compare_u64 op l r

  abbrev pub give_bool : Bool → State → Out
  give_bool b s = give (vk_bool (look_up tab bool) b) s

  -- Operands of different kinds, or of a kind that has no order.
  abbrev pub kinds_problem : Value → Value → Problem
  kinds_problem lhs rhs =
      if value_kind lhs == value_kind rhs then comparison_operands else mixed_kinds

  -- `evalCompare`.
  unfoldable pub eval_compare : BinaryOp → Value → Value → State → Out
  eval_compare op (vk_int lt l) (vk_int rt r) s = give_bool (compare_ints op lt l rt r) s
  eval_compare op (vk_bool lt a) (vk_bool rt b) s =
      give_bool (compare_i64 op (pos (bit a)) (pos (bit b))) s
  eval_compare op (vk_char lt l) (vk_char rt r) s = give_bool (compare_u64 op l r) s
  eval_compare op lhs rhs s = fail (kinds_problem lhs rhs) s

  -- The integer operators of `evalBinary`.
  unfoldable pub apply_integer : BinaryOp → Value → Value → State → Out
  apply_integer op (vk_int lt l) (vk_int rt r) s =
      if lt == rt
      then give_word op lt (word_op op (is_signed tab lt) (integer_bits tab lt) l r) s
      else fail mixed_types s
  apply_integer op _ _ s = fail (integer_operands op) s

  -- `evalBinary`, of the operands' values, but for `&&` and `||`.
  abbrev pub apply_binary : BinaryOp → Value → Value → State → Out
  apply_binary op lhs rhs s =
      if is_comparison_op op then eval_compare op lhs rhs s else apply_integer op lhs rhs s

  -- `evalCast`, of the operand's value.
  abbrev pub cast_inner : ℕ → Value → State → Out
  cast_inner target (vk_bool ty b) s = give (vk_int target (bit b)) s
  cast_inner target (vk_int ty n) s =
      give
        (vk_int target
          (word_cast (is_signed tab ty) (integer_bits tab ty) (integer_bits tab target) n))
        s
  cast_inner target (vk_char ty n) s =
      give
        (vk_int target
          (word_cast (is_signed tab ty) (integer_bits tab ty) (integer_bits tab target) n))
        s
  cast_inner target _ s = fail cast_source s

  abbrev pub is_char : ℕ → Bool
  is_char ty = elim (type_kind tab ty) [ char ↦ true | _ ↦ false ]

  unfoldable pub eval_cast : ℕ → Value → State → Out
  eval_cast target v s =
      if is_integer_type tab target || is_char target
      then cast_inner target v s
      else fail cast_target s

-- `strconv.Atoi` is a parameter, with what it returns for a number that is not negative.
module _ (atoi : Bytes → Option ℕ) where
  abbrev pub elem_at : Bytes → Values → Option ℕ → State → Out
  elem_at name vs none s = fail (tuple_index name (values_length vs)) s
  elem_at name vs (some i) s = give_or (tuple_index name (values_length vs)) (value_at vs i) s

  -- `evalField`, of the receiver's value.
  unfoldable pub eval_field : Bytes → Value → State → Out
  eval_field name (vk_struct ty order fs) s = give_or (missing_field name) (find_field name fs) s
  eval_field name (vk_tuple ty vs) s = elem_at name vs (atoi name) s
  eval_field name _ s = fail field_receiver s

-- `evalIndex`: an index from 2^63 is negative as an int.
abbrev pub as_int : ℕ → Option ℕ
as_int n = if ltb n (2 ^ 63) then some n else none

abbrev pub index_elem : Values → ℕ → Option ℕ → State → Out
index_elem vs n none s = fail (index_bounds n (values_length vs)) s
index_elem vs n (some i) s = give_or (index_bounds n (values_length vs)) (value_at vs i) s

abbrev pub eval_index : Values → Value → State → Out
eval_index vs (vk_int ty n) s = index_elem vs n (as_int n) s
eval_index vs _ s = fail index_type s
