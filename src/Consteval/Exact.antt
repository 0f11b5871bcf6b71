-- ===== src/Consteval/Exact.antt =====
-- compiler/consteval: integer operations give the exact result where their type can hold it.
use mathlib.Core.Path.{subst}
use fuse.Prelude.{
  ℕ, ◌+◌, ◌/◌, ◌%◌, ◌^◌, ◌≤◌, ◌<◌, ◌==◌, Bool, true, false, if◌then◌else◌, Option, none, some, ◌≡◌,
  refl, sym, ap, inl, inr, arith, Bool-cases, ◌∙◌,
}
use fuse.Prelude.Int.{ℤ, pos, ◌+ℤ◌, ◌-ℤ◌, ◌*ℤ◌}
use fuse.Consteval.Value.{mask_to_width}
use fuse.Consteval.Words.{
  BinaryOp, wrap, to_word, magnitude, quotient, remainder, word_op, bin_add, bin_sub, bin_mul,
  bin_div, bin_mod, bin_shl, bin_shr, bin_and, bin_or, bin_xor, bin_log_and, bin_log_or, bin_eq,
  bin_ne, bin_lt, bin_le, bin_gt, bin_ge,
}
use mathlib.Core.Option.{some-injective}
use fuse.Consteval.Bounds.{IsWidth, power_le, quotient_le, remainder_le}
use fuse.Consteval.Readings.{
  reading, InType, by_width, reading-to_word, reading-Stands, mul_word, AddWord, SubWord, add_word,
  sub_word,
}

-- The exact result of an arithmetic operation, where there is one.
abbrev pub exact : BinaryOp → ℤ → ℤ → Option ℤ
exact bin_add a b = some (a +ℤ b)
exact bin_sub a b = some (a -ℤ b)
exact bin_mul a b = some (a *ℤ b)
exact bin_div a b = if magnitude b == 0 then none else some (quotient a b)
exact bin_mod a b = if magnitude b == 0 then none else some (remainder a b)
exact _ a b = none

-- A word is zero exactly where the number that it stands for is.
zero_word :
    (signed : Bool) (bits r : ℕ)
    → IsWidth bits
    → r < 2 ^ bits
    → (r == 0) ≡ (magnitude (reading signed bits r) == 0)
zero_word signed bits r w =
    by_width (λ b. r < 2 ^ b → (r == 0) ≡ (magnitude (reading signed b r) == 0)) bits w
      (λ h. ground arith) (λ h. ground arith) (λ h. ground arith) (λ h. ground arith)

-- A word of the exact result reads as that result.
reads :
    (signed : Bool) (bits n : ℕ) (e z : ℤ)
    → IsWidth bits
    → n ≡ mask_to_width (to_word e) bits
    → some e ≡ some z
    → InType signed bits z
    → reading signed bits n ≡ z
reads signed bits n e z w h p i =
    let q = some-injective e z p in
    let k = subst (λ x. n ≡ mask_to_width (to_word x) bits) q h in
    ap (reading signed bits) k ∙ reading-to_word signed bits z w i

wrap_small : (bits n : ℕ) → IsWidth bits → n < 2 ^ bits → n ≡ wrap n
wrap_small bits n w h = omega (arith, power_le bits w)

Reads : BinaryOp → Bool → ℕ → ℕ → ℕ → ℤ → Type 0
Reads op signed bits l r z =
    (n : ℕ) × (word_op op signed bits l r ≡ some n) × (reading signed bits n ≡ z)

plus_zero : (n : ℕ) → n + 0 ≡ n
plus_zero n = omega arith

unsigned_quotient : (l r : ℕ) → quotient (pos l) (pos r) ≡ pos (l / r)
unsigned_quotient l r = rw (plus_zero l) (rw (plus_zero r) refl)

unsigned_remainder : (l r : ℕ) → remainder (pos l) (pos r) ≡ pos (l % r)
unsigned_remainder l r = rw (plus_zero l) (rw (plus_zero r) refl)

div-Reads :
    (signed : Bool) (bits l r : ℕ) (z : ℤ)
    → IsWidth bits
    → l < 2 ^ bits
    → (r == 0) ≡ false
    → some (quotient (reading signed bits l) (reading signed bits r)) ≡ some z
    → InType signed bits z
    → Reads bin_div signed bits l r z
unfolding word_op Reads
div-Reads true bits l r z w hl h e i = rw h (_, refl, reads true bits _ _ z w refl e i)
div-Reads false bits l r z w hl h e i =
    let p = wrap_small bits (l / r) w (omega (arith, quotient_le l r)) in
    let q = ap some (sym (unsigned_quotient l r)) ∙ e in
    rw h (_, refl, reads false bits _ (pos (l / r)) z w (ap (λ x. mask_to_width x bits) p) q i)

mod-Reads :
    (signed : Bool) (bits l r : ℕ) (z : ℤ)
    → IsWidth bits
    → l < 2 ^ bits
    → (r == 0) ≡ false
    → some (remainder (reading signed bits l) (reading signed bits r)) ≡ some z
    → InType signed bits z
    → Reads bin_mod signed bits l r z
unfolding word_op Reads
mod-Reads true bits l r z w hl h e i = rw h (_, refl, reads true bits _ _ z w refl e i)
mod-Reads false bits l r z w hl h e i =
    let p = wrap_small bits (l % r) w (omega (arith, remainder_le l r)) in
    let q = ap some (sym (unsigned_remainder l r)) ∙ e in
    rw h (_, refl, reads false bits _ (pos (l % r)) z w (ap (λ x. mask_to_width x bits) p) q i)

divided_by_zero : (x z : ℤ) (b : Bool) → b ≡ true → ((if b then none else some x) ≡ some z) → 1 ≤ 0
divided_by_zero x z b h e = absurd (ground (arith, h, e))

nonzero : (x z : ℤ) (b : Bool) → b ≡ false → (if b then none else some x) ≡ some z → some x ≡ some z
nonzero x z b h e = subst (λ c. (if c then none else some x) ≡ some z) h e

-- On operands of one integer type, where `+`, `-`, `*`, `/` or `%` has an exact result that the type
-- can hold, the operation gives a word, and the word stands for that result.
pub word_op-exact :
    (op : BinaryOp) (signed : Bool) (bits l r : ℕ) (z : ℤ)
    → IsWidth bits
    → l < 2 ^ bits
    → r < 2 ^ bits
    → exact op (reading signed bits l) (reading signed bits r) ≡ some z
    → InType signed bits z
    → (n : ℕ) × (word_op op signed bits l r ≡ some n) × (reading signed bits n ≡ z)
unfolding word_op AddWord SubWord Reads
word_op-exact bin_add signed bits l r z w hl hr e i =
    (_, refl, reads signed bits _ _ z w (add_word signed bits l r w hl hr) e i)
word_op-exact bin_sub signed bits l r z w hl hr e i =
    (_, refl, reads signed bits _ _ z w (sub_word signed bits l r w hl hr) e i)
word_op-exact bin_mul signed bits l r z w hl hr e i =
    let m =
      mul_word bits l r _ _ w (reading-Stands signed bits l w hl)
        (reading-Stands signed bits r w hr) in
    (_, refl, reads signed bits _ _ z w m e i)
word_op-exact bin_div signed bits l r z w hl hr e i = elim (Bool-cases (r == 0)) [
  | inl h ↦ absurd (
      omega (
        arith,
        divided_by_zero _ z (magnitude (reading signed bits r) == 0)
            (sym (zero_word signed bits r w hr) ∙ h) e,
      ))
  | inr h ↦
      div-Reads signed bits l r z w hl h
        (nonzero _ z (magnitude (reading signed bits r) == 0)
          (sym (zero_word signed bits r w hr) ∙ h) e)
        i
]
word_op-exact bin_mod signed bits l r z w hl hr e i = elim (Bool-cases (r == 0)) [
  | inl h ↦ absurd (
      omega (
        arith,
        divided_by_zero _ z (magnitude (reading signed bits r) == 0)
            (sym (zero_word signed bits r w hr) ∙ h) e,
      ))
  | inr h ↦
      mod-Reads signed bits l r z w hl h
        (nonzero _ z (magnitude (reading signed bits r) == 0)
          (sym (zero_word signed bits r w hr) ∙ h) e)
        i
]
word_op-exact bin_shl signed bits l r z w hl hr e i = absurd (ground (arith, e))
word_op-exact bin_shr signed bits l r z w hl hr e i = absurd (ground (arith, e))
word_op-exact bin_and signed bits l r z w hl hr e i = absurd (ground (arith, e))
word_op-exact bin_or signed bits l r z w hl hr e i = absurd (ground (arith, e))
word_op-exact bin_xor signed bits l r z w hl hr e i = absurd (ground (arith, e))
word_op-exact bin_log_and signed bits l r z w hl hr e i = absurd (ground (arith, e))
word_op-exact bin_log_or signed bits l r z w hl hr e i = absurd (ground (arith, e))
word_op-exact bin_eq signed bits l r z w hl hr e i = absurd (ground (arith, e))
word_op-exact bin_ne signed bits l r z w hl hr e i = absurd (ground (arith, e))
word_op-exact bin_lt signed bits l r z w hl hr e i = absurd (ground (arith, e))
word_op-exact bin_le signed bits l r z w hl hr e i = absurd (ground (arith, e))
word_op-exact bin_gt signed bits l r z w hl hr e i = absurd (ground (arith, e))
word_op-exact bin_ge signed bits l r z w hl hr e i = absurd (ground (arith, e))
