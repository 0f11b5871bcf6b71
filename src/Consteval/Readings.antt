-- ===== src/Consteval/Readings.antt =====
-- compiler/consteval: the numbers that words stand for, and the words of sums and products.
use mathlib.Core.Path.{subst}
use fuse.Prelude.{
  ℕ, suc, ◌+◌, ◌-◌, ◌*◌, ◌^◌, ◌≤◌, ◌<◌, Bool, true, false, if◌then◌else◌, ◌≡◌, refl, sym, ◌⊎◌, inl,
  inr, arith,
}
use fuse.Prelude.Int.{ℤ, pos, negsuc, difference, ◌+ℤ◌, ◌-ℤ◌, ◌*ℤ◌}
use fuse.Consteval.Value.{mask_to_width, signed_int}
use fuse.Consteval.Words.{wrap, to_word}
use fuse.Consteval.Bounds.{IsWidth}

-- The number that a word of an integer type stands for.
abbrev pub reading : Bool → ℕ → ℕ → ℤ
reading signed bits n = if signed then signed_int bits n else pos n

-- The numbers that a type has.
abbrev pub InType : Bool → ℕ → ℤ → Type 0
InType true bits (pos n) = n < 2 ^ (bits - 1)
InType true bits (negsuc n) = n < 2 ^ (bits - 1)
InType false bits (pos n) = n < 2 ^ bits
InType false bits (negsuc n) = 1 ≤ 0

pub by_width {κ} : (P : ℕ → Type κ) (bits : ℕ) → IsWidth bits → P 8 → P 16 → P 32 → P 64 → P bits
by_width P bits (inl e) a b c d = subst P (sym e) a
by_width P bits (inr (inl e)) a b c d = subst P (sym e) b
by_width P bits (inr (inr (inl e))) a b c d = subst P (sym e) c
by_width P bits (inr (inr (inr e))) a b c d = subst P (sym e) d

pub reading-to_word :
    (signed : Bool) (bits : ℕ) (z : ℤ)
    → IsWidth bits
    → InType signed bits z
    → reading signed bits (mask_to_width (to_word z) bits) ≡ z
reading-to_word signed bits z w =
    by_width (λ b. InType signed b z → reading signed b (mask_to_width (to_word z) b) ≡ z) bits w
      (λ h. ground arith) (λ h. ground arith) (λ h. ground arith) (λ h. ground arith)

-- Words that differ from a difference by a multiple of the power are its word.
pub congruent :
    (bits a p q j k : ℕ)
    → IsWidth bits
    → a + q + j * 2 ^ bits ≡ p + k * 2 ^ bits
    → mask_to_width (wrap a) bits ≡ mask_to_width (to_word (difference p q)) bits
congruent bits a p q j k w =
    by_width
      (λ b.
        a + q + j * 2 ^ b ≡ p + k * 2 ^ b
        → mask_to_width (wrap a) b ≡ mask_to_width (to_word (difference p q)) b)
      bits w (λ h. ground arith) (λ h. ground arith) (λ h. ground arith) (λ h. ground arith)

-- The magnitude of a negative word, less one.
abbrev pub below : ℕ → ℕ → ℕ
below bits n = 2 ^ bits - 1 - n

-- A word stands for itself, or for itself less the power.
abbrev pub Stands : ℤ → ℕ → ℕ → Type 0
Stands z bits n = (z ≡ pos n) ⊎ ((z ≡ negsuc (below bits n)) × (n + suc (below bits n) ≡ 2 ^ bits))

pub signed_int-Stands :
    (bits n : ℕ) → IsWidth bits → n < 2 ^ bits → Stands (signed_int bits n) bits n
signed_int-Stands bits n w =
    by_width (λ b. n < 2 ^ b → Stands (signed_int b n) b n) bits w (λ h. ground arith)
      (λ h. ground arith) (λ h. ground arith) (λ h. ground arith)

pub reading-Stands :
    (signed : Bool) (bits n : ℕ)
    → IsWidth bits
    → n < 2 ^ bits
    → Stands (reading signed bits n) bits n
reading-Stands true bits n w h = signed_int-Stands bits n w h
reading-Stands false bits n w h = inl refl

-- Products of words, read with the sign of each.
pub product_negative : (l m r p : ℕ) → l + m ≡ p → l * r + m * r ≡ p * r
product_negative l m r p h = grind arith

pub expanded : (l m r n : ℕ) → l * r + (m * (r + n) + n * (l + m)) ≡ m * n + (l + m) * (r + n)
expanded l m r n = grind arith

pub distributed : (m n p : ℕ) → (m + n) * p ≡ m * p + n * p
distributed m n p = grind arith

pub product_negatives :
    (l m r n p : ℕ) → l + m ≡ p → r + n ≡ p → l * r + (m + n) * p ≡ m * n + p * p
product_negatives l m r n p h k =
    grind (arith, rw k at (rw h at (expanded l m r n)), distributed m n p)

pub mul_word :
    (bits l r : ℕ) (a b : ℤ)
    → IsWidth bits
    → Stands a bits l
    → Stands b bits r
    → mask_to_width (wrap (l * r)) bits ≡ mask_to_width (to_word (a *ℤ b)) bits
mul_word bits l r a b w (inl p) (inl q) = rw (p, q) (congruent bits (l * r) _ _ 0 0 w (omega arith))
mul_word bits l r a b w (inl p) (inr q) = rw p (
    rw q.0 (
      congruent bits (l * r) _ _ 0 l w
        (grind (arith, product_negative r (suc (below bits r)) l (2 ^ bits) q.1))))
mul_word bits l r a b w (inr p) (inl q) = rw p.0 (
    rw q (
      congruent bits (l * r) _ _ 0 r w
        (grind (arith, product_negative l (suc (below bits l)) r (2 ^ bits) p.1))))
mul_word bits l r a b w (inr p) (inr q) = rw p.0 (
    rw q.0 (
      congruent bits (l * r) _ _ (suc (below bits l) + suc (below bits r)) (2 ^ bits) w (
        grind (
          arith,
          product_negatives l (suc (below bits l)) r (suc (below bits r)) (2 ^ bits) p.1 q.1,
        ))))

unfoldable pub AddWord : Bool → ℕ → ℕ → ℕ → Type 0
AddWord signed l r b =
    l < 2 ^ b
    → r < 2 ^ b
    → mask_to_width (wrap (l + r)) b
      ≡ mask_to_width (to_word (reading signed b l +ℤ reading signed b r)) b

unfoldable pub SubWord : Bool → ℕ → ℕ → ℕ → Type 0
SubWord signed l r b =
    l < 2 ^ b
    → r < 2 ^ b
    → mask_to_width (wrap (l + 2 ^ 64 - wrap r)) b
      ≡ mask_to_width (to_word (reading signed b l -ℤ reading signed b r)) b

pub add_word : (signed : Bool) (bits l r : ℕ) → IsWidth bits → AddWord signed l r bits
unfolding AddWord
add_word signed bits l r w =
    by_width (AddWord signed l r) bits w (λ h k. ground arith) (λ h k. ground arith)
      (λ h k. ground arith) (λ h k. ground arith)

pub sub_word : (signed : Bool) (bits l r : ℕ) → IsWidth bits → SubWord signed l r bits
unfolding SubWord
sub_word signed bits l r w =
    by_width (SubWord signed l r) bits w (λ h k. ground arith) (λ h k. ground arith)
      (λ h k. ground arith) (λ h k. ground arith)
