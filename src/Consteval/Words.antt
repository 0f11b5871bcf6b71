-- ===== src/Consteval/Words.antt =====
-- compiler/consteval/eval.go: the integer operations on uint64 words.
use Prim.Native.Nat.{bit_and, bit_or, bit_xor}
use fuse.Prelude.{
  ℕ, zero, suc, ◌+◌, ◌-◌, ◌*◌, ◌/◌, ◌%◌, ◌^◌, ltb, leb, ◌==◌, Bool, true, false, not, if◌then◌else◌,
  Option, none, some,
}
use fuse.Prelude.Int.{ℤ, pos, negsuc, is_negative, pos_part, neg_part, ltb_ℤ, eqb_ℤ}
use fuse.Consteval.Value.{mask_to_width, signed_int}

-- `BinaryOp` of compiler/hir/expr.go.
pub data BinaryOp : Type 0 where
  bin_add bin_sub bin_mul bin_div bin_mod bin_shl bin_shr bin_and bin_or bin_xor : BinaryOp
  bin_log_and bin_log_or bin_eq bin_ne bin_lt bin_le bin_gt bin_ge : BinaryOp

-- `isComparisonOp`.
abbrev pub is_comparison_op : BinaryOp → Bool
is_comparison_op bin_eq = true
is_comparison_op bin_ne = true
is_comparison_op bin_lt = true
is_comparison_op bin_le = true
is_comparison_op bin_gt = true
is_comparison_op bin_ge = true
is_comparison_op _ = false

-- A uint64 wraps around.
abbrev pub wrap : ℕ → ℕ
wrap n = n % 2 ^ 64

-- `uint64` of an int64.
abbrev pub to_word : ℤ → ℕ
to_word (pos n) = wrap n
to_word (negsuc n) = 2 ^ 64 - 1 - wrap n

abbrev pub negate : ℕ → ℤ
negate zero = pos 0
negate (suc n) = negsuc n

abbrev pub magnitude : ℤ → ℕ
magnitude a = pos_part a + neg_part a

abbrev pub same_sign : ℤ → ℤ → Bool
same_sign a b = if is_negative a then is_negative b else not (is_negative b)

-- `/` and `%` of Go on signed integers cut towards zero.
abbrev pub quotient : ℤ → ℤ → ℤ
quotient a b =
    if same_sign a b then pos (magnitude a / magnitude b) else negate (magnitude a / magnitude b)

abbrev pub remainder : ℤ → ℤ → ℤ
remainder a b =
    if is_negative a then negate (magnitude a % magnitude b) else pos (magnitude a % magnitude b)

-- `>>` of Go on signed integers keeps the sign.
abbrev pub shift_right : ℤ → ℕ → ℤ
shift_right (pos n) k = pos (n / 2 ^ k)
shift_right (negsuc n) k = negsuc (n / 2 ^ k)

-- The shift by at least the width.
abbrev pub shifted_out : Bool → ℕ → ℕ → ℕ
shifted_out signed bits l =
    if signed
    then (if is_negative (signed_int bits l) then mask_to_width (2 ^ 64 - 1) bits else 0)
    else 0

-- The words that `evalBinary` computes from two operands of one integer type; nothing where it
-- reports a division by zero, or an operator that is no operation on integers.
unfoldable pub word_op : BinaryOp → Bool → ℕ → ℕ → ℕ → Option ℕ
word_op bin_add signed bits l r = some (mask_to_width (wrap (l + r)) bits)
word_op bin_sub signed bits l r = some (mask_to_width (wrap (l + 2 ^ 64 - wrap r)) bits)
word_op bin_mul signed bits l r = some (mask_to_width (wrap (l * r)) bits)
word_op bin_div signed bits l r =
    if r == 0
    then none
    else if signed
    then some (mask_to_width (to_word (quotient (signed_int bits l) (signed_int bits r))) bits)
    else some (mask_to_width (l / r) bits)
word_op bin_mod signed bits l r =
    if r == 0
    then none
    else if signed
    then some (mask_to_width (to_word (remainder (signed_int bits l) (signed_int bits r))) bits)
    else some (mask_to_width (l % r) bits)
word_op bin_and signed bits l r = some (mask_to_width (wrap (bit_and l r)) bits)
word_op bin_or signed bits l r = some (mask_to_width (wrap (bit_or l r)) bits)
word_op bin_xor signed bits l r = some (mask_to_width (wrap (bit_xor l r)) bits)
word_op bin_shl signed bits l r =
    if leb bits r then some 0 else some (mask_to_width (wrap (l * 2 ^ r)) bits)
word_op bin_shr signed bits l r =
    if leb bits r
    then some (shifted_out signed bits l)
    else if signed
    then some (mask_to_width (to_word (shift_right (signed_int bits l) r)) bits)
    else some (mask_to_width (l / 2 ^ r) bits)
word_op _ signed bits l r = none

-- `-` and `^` of Go on a uint64.
abbrev pub word_neg : ℕ → ℕ → ℕ
word_neg bits n = mask_to_width (wrap (2 ^ 64 - wrap n)) bits

abbrev pub word_not : ℕ → ℕ → ℕ
word_not bits n = mask_to_width (2 ^ 64 - 1 - wrap n) bits

-- `compareI64`.
abbrev pub compare_i64 : BinaryOp → ℤ → ℤ → Bool
compare_i64 bin_eq l r = eqb_ℤ l r
compare_i64 bin_ne l r = not (eqb_ℤ l r)
compare_i64 bin_lt l r = ltb_ℤ l r
compare_i64 bin_le l r = not (ltb_ℤ r l)
compare_i64 bin_gt l r = ltb_ℤ r l
compare_i64 bin_ge l r = not (ltb_ℤ l r)
compare_i64 _ l r = false

-- `compareU64`.
abbrev pub compare_u64 : BinaryOp → ℕ → ℕ → Bool
compare_u64 bin_eq l r = l == r
compare_u64 bin_ne l r = not (l == r)
compare_u64 bin_lt l r = ltb l r
compare_u64 bin_le l r = leb l r
compare_u64 bin_gt l r = ltb r l
compare_u64 bin_ge l r = leb r l
compare_u64 _ l r = false

-- The word of a cast: the sign of a narrower signed source is extended.
abbrev pub word_cast : Bool → ℕ → ℕ → ℕ → ℕ
word_cast signed source target n =
    if signed
    then (if ltb source target
        then (if (n / 2 ^ (source - 1)) % 2 == 1
            then mask_to_width (bit_or n (2 ^ 64 - 2 ^ source)) target
            else mask_to_width n target)
        else mask_to_width n target)
    else mask_to_width n target
