-- ===== src/Consteval/Padding.antt =====
-- compiler/consteval/intrinsic.go: padding, and multiples of an alignment.
use Prim.Native.Nat.{digits, min, bit_and-bitwise}
use mathlib.Core.Path.{subst}
use native.Mathlib.Nat.{mul-mod_right, mod-add-div}
use fuse.Prelude.{
  ℕ, zero, suc, ◌+◌, ◌-◌, ◌*◌, ◌/◌, ◌%◌, ◌^◌, ltb, if◌then◌else◌, true, false, ◌≡◌, refl, sym, ◌⊎◌,
  inl, inr, arith,
}
use fuse.Consteval.Words.{wrap}
use fuse.Consteval.Layout.{align_up, wider}

-- The alignments of the types.
abbrev pub IsAlignment : ℕ → Type 0
IsAlignment a = (a ≡ 1) ⊎ ((a ≡ 2) ⊎ ((a ≡ 4) ⊎ (a ≡ 8)))

-- Where the lowest digits of one number are zero, so are those of its conjunction with another.
no_carry : (m b : ℕ) → b % 2 ≡ 0 → min m (b % 2) ≡ 0
no_carry m b h = omega arith

both_even : (n a b : ℕ) → b % 2 ≡ 0 → digits (λ y. 0) min n a b % 2 ≡ 0
both_even zero a b h = refl
both_even (suc n) zero b h = refl
both_even (suc n) (suc a) b h = let e = no_carry (suc a % 2) b h in omega (arith, e)

both_fours : (n a b : ℕ) → b % 4 ≡ 0 → digits (λ y. 0) min n a b % 4 ≡ 0
both_fours zero a b h = refl
both_fours (suc n) zero b h = refl
both_fours (suc n) (suc a) b h =
    let e = no_carry (suc a % 2) b (omega arith) in
    let f = both_even n (suc a / 2) (b / 2) (omega arith) in omega (arith, e, f)

both_eights : (n a b : ℕ) → b % 8 ≡ 0 → digits (λ y. 0) min n a b % 8 ≡ 0
both_eights zero a b h = refl
both_eights (suc n) zero b h = refl
both_eights (suc n) (suc a) b h =
    let e = no_carry (suc a % 2) b (omega arith) in
    let f = both_fours n (suc a / 2) (b / 2) (omega arith) in omega (arith, e, f)

pub align_up_divides : (n a : ℕ) → IsAlignment a → align_up n a % a ≡ 0
unfolding align_up
align_up_divides n a (inl e) = subst (λ b. align_up n b % b ≡ 0) (sym e) (omega arith)
align_up_divides n a (inr (inl e)) =
    subst (λ b. align_up n b % b ≡ 0) (sym e)
      (simp bit_and-bitwise (both_even (wrap (n + 1)) (wrap (n + 1)) (2 ^ 64 - 1 - 1) refl))
align_up_divides n a (inr (inr (inl e))) =
    subst (λ b. align_up n b % b ≡ 0) (sym e)
      (simp bit_and-bitwise (both_fours (wrap (n + 3)) (wrap (n + 3)) (2 ^ 64 - 1 - 3) refl))
align_up_divides n a (inr (inr (inr e))) =
    subst (λ b. align_up n b % b ≡ 0) (sym e)
      (simp bit_and-bitwise (both_eights (wrap (n + 7)) (wrap (n + 7)) (2 ^ 64 - 1 - 7) refl))

pub wider-IsAlignment : (m a : ℕ) → IsAlignment m → IsAlignment a → IsAlignment (wider m a)
wider-IsAlignment m a h k = elim (ltb m a) as (λ c. IsAlignment (if c then a else m)) [
  | true ↦ k
  | false ↦ h
]

multiple_divides : (a q n : ℕ) → ((a * q) * n) % a ≡ 0
multiple_divides a q n = let e = mul-mod_right a (q * n) in grind (arith, e)

-- Multiples of an alignment stay multiples when they are multiplied and wrapped.
pub product_divides : (s n a : ℕ) → IsAlignment a → s % a ≡ 0 → wrap (s * n) % a ≡ 0
product_divides s n a h d =
    let e : s ≡ a * (s / a) = grind (arith, mod-add-div s a) in
    let f = subst (λ x. (x * n) % a ≡ 0) (sym e) (multiple_divides a (s / a) n) in ground (arith, f)
