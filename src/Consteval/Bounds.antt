-- ===== src/Consteval/Bounds.antt =====
-- compiler/consteval: the words that operations give fit into the width of their type.
use mathlib.Core.Path.{subst}
use fuse.Prelude.{
  ℕ, ◌-◌, ◌/◌, ◌%◌, ◌^◌, ◌≤◌, ◌<◌, leb, ◌==◌, Bool, true, false, if◌then◌else◌, Option, none, some,
  ◌≡◌, sym, ◌⊎◌, inl, inr, arith,
}
use fuse.Prelude.Int.{ℤ}
use fuse.Typetable.Kind.{Kind}
use fuse.Typetable.Table.{Table}
use fuse.Consteval.Value.{bits_of, integer_bits, mask_to_width, signed_int, type_kind}
use fuse.Consteval.Words.{
  BinaryOp, wrap, to_word, quotient, remainder, shift_right, shifted_out, word_op, word_neg,
  word_not, bin_add, bin_sub, bin_mul, bin_div, bin_mod, bin_shl, bin_shr, bin_and, bin_or, bin_xor,
  bin_log_and, bin_log_or, bin_eq, bin_ne, bin_lt, bin_le, bin_gt, bin_ge,
}

-- The widths of integer types.
abbrev pub IsWidth : ℕ → Type 0
IsWidth w = (w ≡ 8) ⊎ ((w ≡ 16) ⊎ ((w ≡ 32) ⊎ (w ≡ 64)))

bits_of-IsWidth : (k : Kind) → IsWidth (bits_of k)
bits_of-IsWidth k = ground arith

pub integer_bits-IsWidth : (tab : Table) (id : ℕ) → IsWidth (integer_bits tab id)
unfolding integer_bits
integer_bits-IsWidth tab id = bits_of-IsWidth (type_kind tab id)

pub mask_lt : (bits v : ℕ) → IsWidth bits → v < 2 ^ 64 → mask_to_width v bits < 2 ^ bits
mask_lt bits v (inl e) h = subst (λ b. mask_to_width v b < 2 ^ b) (sym e) (omega arith)
mask_lt bits v (inr (inl e)) h = subst (λ b. mask_to_width v b < 2 ^ b) (sym e) (omega arith)
mask_lt bits v (inr (inr (inl e))) h = subst (λ b. mask_to_width v b < 2 ^ b) (sym e) (omega arith)
mask_lt bits v (inr (inr (inr e))) h = subst (λ b. mask_to_width v b < 2 ^ b) (sym e) h

pub power_le : (bits : ℕ) → IsWidth bits → 2 ^ bits ≤ 2 ^ 64
power_le bits (inl e) = subst (λ b. 2 ^ b ≤ 2 ^ 64) (sym e) (omega arith)
power_le bits (inr (inl e)) = subst (λ b. 2 ^ b ≤ 2 ^ 64) (sym e) (omega arith)
power_le bits (inr (inr (inl e))) = subst (λ b. 2 ^ b ≤ 2 ^ 64) (sym e) (omega arith)
power_le bits (inr (inr (inr e))) = subst (λ b. 2 ^ b ≤ 2 ^ 64) (sym e) (omega arith)

wrap_lt : (n : ℕ) → wrap n < 2 ^ 64
wrap_lt n = omega arith

to_word_lt : (z : ℤ) → to_word z < 2 ^ 64
to_word_lt z = ground arith

pub quotient_le : (m n : ℕ) → m / n ≤ m
quotient_le m n = grind arith

pub remainder_le : (m n : ℕ) → m % n ≤ m
remainder_le m n = grind arith

-- A masked word is below the power of the width.
masked :
    (bits v n : ℕ) → IsWidth bits → v < 2 ^ 64 → some (mask_to_width v bits) ≡ some n → n < 2 ^ bits
masked bits v n w h e = subst (λ x. x < 2 ^ bits) (ground (arith, e)) (mask_lt bits v w h)

pub power_pos : (bits : ℕ) → IsWidth bits → 0 < 2 ^ bits
power_pos bits (inl e) = subst (λ b. 0 < 2 ^ b) (sym e) (omega arith)
power_pos bits (inr (inl e)) = subst (λ b. 0 < 2 ^ b) (sym e) (omega arith)
power_pos bits (inr (inr (inl e))) = subst (λ b. 0 < 2 ^ b) (sym e) (omega arith)
power_pos bits (inr (inr (inr e))) = subst (λ b. 0 < 2 ^ b) (sym e) (omega arith)

shifted_out_lt : (signed : Bool) (bits l : ℕ) → IsWidth bits → shifted_out signed bits l < 2 ^ bits
shifted_out_lt signed bits l w =
    let p = mask_lt bits (2 ^ 64 - 1) w (omega arith) in
    let q = power_pos bits w in ground (arith, p, q)

exactly : (v n m : ℕ) → v < m → some v ≡ some n → n < m
exactly v n m h e = ground (arith, h, e)

-- The results of two branches have a bound, if each has.
chosen :
    (c : Bool) (o p : Option ℕ) (n m : ℕ)
    → (o ≡ some n → n < m)
    → (p ≡ some n → n < m)
    → (if c then o else p) ≡ some n
    → n < m
chosen true o p n m f g e = f e
chosen false o p n m f g e = g e

divided :
    (zero_divisor signed : Bool) (o p : Option ℕ) (n m : ℕ)
    → (o ≡ some n → n < m)
    → (p ≡ some n → n < m)
    → (if zero_divisor then none else if signed then o else p) ≡ some n
    → n < m
divided true signed o p n m f g e = absurd (ground arith)
divided false signed o p n m f g e = chosen signed o p n m f g e

-- A word that an integer operation gives fits into the width of its operands, if they do.
pub word_op_lem :
    (op : BinaryOp) (signed : Bool) (bits l r n : ℕ)
    → IsWidth bits
    → l < 2 ^ bits
    → word_op op signed bits l r ≡ some n
    → n < 2 ^ bits
unfolding word_op
word_op_lem bin_add signed bits l r n w h e = masked bits _ n w (wrap_lt _) e
word_op_lem bin_sub signed bits l r n w h e = masked bits _ n w (wrap_lt _) e
word_op_lem bin_mul signed bits l r n w h e = masked bits _ n w (wrap_lt _) e
word_op_lem bin_and signed bits l r n w h e = masked bits _ n w (wrap_lt _) e
word_op_lem bin_or signed bits l r n w h e = masked bits _ n w (wrap_lt _) e
word_op_lem bin_xor signed bits l r n w h e = masked bits _ n w (wrap_lt _) e
word_op_lem bin_div signed bits l r n w h e =
    let signed_word =
      masked bits (to_word (quotient (signed_int bits l) (signed_int bits r))) n w (to_word_lt _) in
    let plain_word = masked bits (l / r) n w (omega (arith, quotient_le l r, power_le bits w)) in
    divided (r == 0) signed _ _ n (2 ^ bits) signed_word plain_word e
word_op_lem bin_mod signed bits l r n w h e =
    let signed_word =
      masked bits (to_word (remainder (signed_int bits l) (signed_int bits r))) n w
        (to_word_lt _) in
    let plain_word = masked bits (l % r) n w (omega (arith, remainder_le l r, power_le bits w)) in
    divided (r == 0) signed _ _ n (2 ^ bits) signed_word plain_word e
word_op_lem bin_shl signed bits l r n w h e =
    let zero_word = exactly 0 n (2 ^ bits) (power_pos bits w) in
    chosen (leb bits r) _ _ n (2 ^ bits) zero_word (masked bits _ n w (wrap_lt _)) e
word_op_lem bin_shr signed bits l r n w h e =
    let out_word =
      exactly (shifted_out signed bits l) n (2 ^ bits) (shifted_out_lt signed bits l w) in
    let signed_word =
      masked bits (to_word (shift_right (signed_int bits l) r)) n w (to_word_lt _) in
    let plain_word =
      masked bits (l / 2 ^ r) n w (omega (arith, quotient_le l (2 ^ r), power_le bits w)) in
    chosen (leb bits r) _ _ n (2 ^ bits) out_word
      (chosen signed _ _ n (2 ^ bits) signed_word plain_word) e
word_op_lem bin_log_and signed bits l r n w h e = absurd (ground arith)
word_op_lem bin_log_or signed bits l r n w h e = absurd (ground arith)
word_op_lem bin_eq signed bits l r n w h e = absurd (ground arith)
word_op_lem bin_ne signed bits l r n w h e = absurd (ground arith)
word_op_lem bin_lt signed bits l r n w h e = absurd (ground arith)
word_op_lem bin_le signed bits l r n w h e = absurd (ground arith)
word_op_lem bin_gt signed bits l r n w h e = absurd (ground arith)
word_op_lem bin_ge signed bits l r n w h e = absurd (ground arith)

pub word_neg_lt : (bits n : ℕ) → IsWidth bits → word_neg bits n < 2 ^ bits
word_neg_lt bits n w = mask_lt bits _ w (wrap_lt _)

pub word_not_lt : (bits n : ℕ) → IsWidth bits → word_not bits n < 2 ^ bits
word_not_lt bits n w = mask_lt bits _ w (omega arith)
