-- ===== src/Consteval/Casts.antt =====
-- compiler/consteval/eval.go: casts keep the numbers that the target type has.

use Prim.Native.Nat.{bit_or, digits, bit_or-bitwise, max}
use fuse.Prelude.{ℕ, zero, suc, ◌+◌, ◌-◌, ◌*◌, ◌/◌, ◌%◌, ◌^◌, ◌≤◌, ◌<◌, Bool, ◌≡◌, refl, ap, arith}
use fuse.Consteval.Words.{word_cast}
use fuse.Consteval.Bounds.{IsWidth}
use fuse.Consteval.Readings.{reading, InType, by_width}

-- The lowest digit of `|`.
abbrev or_digits : ℕ → ℕ → ℕ → ℕ
or_digits n a b = digits (λ c. c) max n a b

or_digits_fuel : (n m a b : ℕ) → a ≤ n → a ≤ m → or_digits n a b ≡ or_digits m a b
or_digits_fuel zero zero a b p q = refl
or_digits_fuel zero (suc m) zero b p q = refl
or_digits_fuel zero (suc m) (suc a) b p q = absurd (omega arith)
or_digits_fuel (suc n) zero zero b p q = refl
or_digits_fuel (suc n) zero (suc a) b p q = absurd (omega arith)
or_digits_fuel (suc n) (suc m) zero b p q = refl
or_digits_fuel (suc n) (suc m) (suc a) b p q =
    let e = or_digits_fuel n m (suc a / 2) (b / 2) (omega arith) (omega arith) in
    ap (λ x. x * 2 + max (suc a % 2) (b % 2)) e

zero-bit_or : (b : ℕ) → bit_or 0 b ≡ b
zero-bit_or b = bit_or-bitwise 0 b

bit_or_even : (a b : ℕ) → b % 2 ≡ 0 → bit_or a b ≡ bit_or (a / 2) (b / 2) * 2 + a % 2
bit_or_even zero b h = omega (arith, h, zero-bit_or b, zero-bit_or (b / 2))
bit_or_even (suc a) b h = omega (
  arith,
  h,
  bit_or-bitwise (suc a) b,
  bit_or-bitwise (suc a / 2) (b / 2),
  or_digits_fuel a (suc a / 2) (suc a / 2) (b / 2) (omega arith) (omega arith),
)

power_suc : (k : ℕ) → 2 ^ suc k ≡ 2 * 2 ^ k
power_suc k = grind arith

doubled : (m k : ℕ) → m * 2 ^ suc k ≡ m * 2 ^ k * 2
doubled m k = grind (arith, power_suc k)

halved : (x y : ℕ) → x ≡ y * 2 → x / 2 ≡ y
halved x y h = omega (arith, h)

-- Bits above a word are added to it.
bit_or_above : (k n m : ℕ) → n < 2 ^ k → bit_or n (m * 2 ^ k) ≡ n + m * 2 ^ k
bit_or_above zero zero m h = omega (arith, zero-bit_or (m * 2 ^ 0))
bit_or_above zero (suc n) m h = absurd (omega arith)
bit_or_above (suc k) n m h =
    let d = doubled m k in
    let q = bit_or_above k (n / 2) m (omega (arith, h, power_suc k)) in
    let e = bit_or_even n (m * 2 ^ suc k) (omega (arith, d)) in
    let f = ap (λ x. bit_or (n / 2) x) (halved (m * 2 ^ suc k) (m * 2 ^ k) d) in
    omega (arith, d, q, e, f)

Cast : Bool → Bool → ℕ → ℕ → ℕ → Type 0
Cast a b n source target =
    n < 2 ^ source
    → InType b target (reading a source n)
    → reading b target (word_cast a source target n) ≡ reading a source n

from8 : (a b : Bool) (n target : ℕ) → IsWidth target → Cast a b n 8 target
unfolding Cast
from8 a b n target w =
    by_width (Cast a b n 8) target w (λ h i. ground arith)
      (λ h i. ground (arith, bit_or_above 8 n (2 ^ 56 - 1) h))
      (λ h i. ground (arith, bit_or_above 8 n (2 ^ 56 - 1) h))
      (λ h i. ground (arith, bit_or_above 8 n (2 ^ 56 - 1) h))

from16 : (a b : Bool) (n target : ℕ) → IsWidth target → Cast a b n 16 target
unfolding Cast
from16 a b n target w =
    by_width (Cast a b n 16) target w (λ h i. ground arith) (λ h i. ground arith)
      (λ h i. ground (arith, bit_or_above 16 n (2 ^ 48 - 1) h))
      (λ h i. ground (arith, bit_or_above 16 n (2 ^ 48 - 1) h))

from32 : (a b : Bool) (n target : ℕ) → IsWidth target → Cast a b n 32 target
unfolding Cast
from32 a b n target w =
    by_width (Cast a b n 32) target w (λ h i. ground arith) (λ h i. ground arith)
      (λ h i. ground arith) (λ h i. ground (arith, bit_or_above 32 n (2 ^ 32 - 1) h))

from64 : (a b : Bool) (n target : ℕ) → IsWidth target → Cast a b n 64 target
unfolding Cast
from64 a b n target w =
    by_width (Cast a b n 64) target w (λ h i. ground arith) (λ h i. ground arith)
      (λ h i. ground arith) (λ h i. ground arith)

-- A cast between integer types gives the same number, where the target type has it.
pub word_cast-exact :
    (source_signed target_signed : Bool) (source target n : ℕ)
    → IsWidth source
    → IsWidth target
    → n < 2 ^ source
    → InType target_signed target (reading source_signed source n)
    → reading target_signed target (word_cast source_signed source target n)
      ≡ reading source_signed source n
unfolding Cast
word_cast-exact a b source target n v w =
    by_width (λ s. Cast a b n s target) source v (from8 a b n target w) (from16 a b n target w)
      (from32 a b n target w) (from64 a b n target w)

-- A cast gives a word of the target type.
CastWord : Bool → ℕ → ℕ → ℕ → Type 0
CastWord a n source target = n < 2 ^ source → word_cast a source target n < 2 ^ target

pub word_cast_lt :
    (a : Bool) (source target n : ℕ)
    → IsWidth source
    → IsWidth target
    → n < 2 ^ source
    → word_cast a source target n < 2 ^ target
unfolding CastWord
word_cast_lt a source target n v w =
    by_width (λ s. CastWord a n s target) source v
      (by_width (CastWord a n 8) target w (λ h. ground arith) (λ h. ground arith)
        (λ h. ground arith) (λ h. ground (arith, bit_or_above 8 n (2 ^ 56 - 1) h)))
      (by_width (CastWord a n 16) target w (λ h. ground arith) (λ h. ground arith)
        (λ h. ground arith) (λ h. ground (arith, bit_or_above 16 n (2 ^ 48 - 1) h)))
      (by_width (CastWord a n 32) target w (λ h. ground arith) (λ h. ground arith)
        (λ h. ground arith) (λ h. ground (arith, bit_or_above 32 n (2 ^ 32 - 1) h)))
      (by_width (CastWord a n 64) target w (λ h. ground arith) (λ h. ground arith)
        (λ h. ground arith) (λ h. ground arith))
