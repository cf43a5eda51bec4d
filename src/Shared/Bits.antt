-- ===== src/Shared/Bits.antt =====
-- The binary digits of words, and what `|`, `&` and `^` do to each digit.
use Prim.Native.Nat.{
  ℕ, zero, suc, ◌+◌, ◌-◌, ◌*◌, ◌/◌, ◌%◌, ◌^◌, ◌≤◌, ◌<◌, min, max, bit_and, bit_or, bit_xor, differ,
  digits, bitwise, bit_and-bitwise, bit_or-bitwise, bit_xor-bitwise,
}
use mathlib.Core.Path.{◌≡◌, refl, ap, ◌∙◌}
use native.Mathlib.Nat.{two-pow-succ, one-le-pow, mul-add}
use native.Mathlib.Omega.{arith}
use group.Shared.Tests.{◌==◌, if◌then◌else◌}

-- Digit `k` of a number.
abbrev pub digit : ℕ → ℕ → ℕ
digit a zero = a % 2
digit a (suc k) = digit (a / 2) k

-- The first digit of an operation and the operation on the others, with the fuel of `digits` dropped.
module _ (z : ℕ → ℕ) (f : ℕ → ℕ → ℕ) where
  fuel_free : (n m a b : ℕ) → a ≤ n → a ≤ m → digits z f n a b ≡ digits z f m a b
  fuel_free zero zero a b p q = refl
  fuel_free zero (suc m) zero b p q = refl
  fuel_free zero (suc m) (suc a) b p q = absurd (omega arith)
  fuel_free (suc n) zero zero b p q = refl
  fuel_free (suc n) zero (suc a) b p q = absurd (omega arith)
  fuel_free (suc n) (suc m) zero b p q = refl
  fuel_free (suc n) (suc m) (suc a) b p q =
      omega (arith, fuel_free n m (suc a / 2) (b / 2) (omega arith) (omega arith))

  first_digit :
      (a b : ℕ)
      → bitwise z f (suc a) b ≡ bitwise z f (suc a / 2) (b / 2) * 2 + f (suc a % 2) (b % 2)
  first_digit a b =
      omega (arith, fuel_free a (suc a / 2) (suc a / 2) (b / 2) (omega arith) (omega arith))

or_digits : (a b : ℕ) → bit_or a b ≡ bit_or (a / 2) (b / 2) * 2 + max (a % 2) (b % 2)
or_digits zero b = simp bit_or-bitwise (omega arith)
or_digits (suc a) b = simp bit_or-bitwise (first_digit (λ y. y) max a b)

and_digits : (a b : ℕ) → bit_and a b ≡ bit_and (a / 2) (b / 2) * 2 + min (a % 2) (b % 2)
and_digits zero b = simp bit_and-bitwise (omega arith)
and_digits (suc a) b = simp bit_and-bitwise (first_digit (λ y. zero) min a b)

xor_digits : (a b : ℕ) → bit_xor a b ≡ bit_xor (a / 2) (b / 2) * 2 + differ (a % 2) (b % 2)
xor_digits zero b = simp bit_xor-bitwise (omega arith)
xor_digits (suc a) b = simp bit_xor-bitwise (first_digit (λ y. y) differ a b)

differ_lem : (d e : ℕ) → d < 2 → e < 2 → differ d e ≡ (d + e) % 2
differ_lem zero e p q = omega arith
differ_lem (suc d) zero p q = omega arith
differ_lem (suc zero) (suc zero) p q = refl
differ_lem (suc zero) (suc (suc e)) p q = absurd (omega arith)
differ_lem (suc (suc d)) (suc e) p q = absurd (omega arith)

xor_sum : (a b : ℕ) → bit_xor a b ≡ bit_xor (a / 2) (b / 2) * 2 + (a + b) % 2
xor_sum a b = omega (arith, xor_digits a b, differ_lem (a % 2) (b % 2) (omega arith) (omega arith))

pub digit-bit_xor : (k a b : ℕ) → digit (bit_xor a b) k ≡ (digit a k + digit b k) % 2
digit-bit_xor zero a b = omega (arith, xor_sum a b)
digit-bit_xor (suc k) a b =
    ap (λ w. digit w k) (omega (arith, xor_sum a b)) ∙ digit-bit_xor k (a / 2) (b / 2)

pub digit-bit_or : (k a b : ℕ) → digit (bit_or a b) k ≡ max (digit a k) (digit b k)
digit-bit_or zero a b = omega (arith, or_digits a b)
digit-bit_or (suc k) a b =
    ap (λ w. digit w k) (omega (arith, or_digits a b)) ∙ digit-bit_or k (a / 2) (b / 2)

pub digit-bit_and : (k a b : ℕ) → digit (bit_and a b) k ≡ min (digit a k) (digit b k)
digit-bit_and zero a b = omega (arith, and_digits a b)
digit-bit_and (suc k) a b =
    ap (λ w. digit w k) (omega (arith, and_digits a b)) ∙ digit-bit_and k (a / 2) (b / 2)

pub digit-lt_two : (k a : ℕ) → digit a k < 2
digit-lt_two zero a = omega arith
digit-lt_two (suc k) a = digit-lt_two k (a / 2)

pub digit-zero : (k : ℕ) → digit 0 k ≡ 0
digit-zero zero = refl
digit-zero (suc k) = digit-zero k

-- A power of two has one digit.
pub digit-pow : (j k : ℕ) → digit (2 ^ j) k ≡ (if k == j then 1 else 0)
digit-pow zero zero = refl
digit-pow zero (suc k) = ground (arith, digit-zero k)
digit-pow (suc j) zero = ground (arith, two-pow-succ j)
digit-pow (suc j) (suc k) =
    ap (λ w. digit w k) (omega (arith, two-pow-succ j)) ∙ digit-pow j k ∙ ground arith

-- The digits of `~a` in a word of `n` digits.
pub digit-complement : (n a k : ℕ) → a < 2 ^ n → k < n → digit (2 ^ n - 1 - a) k ≡ 1 - digit a k
digit-complement zero a k h l = absurd (omega arith)
digit-complement (suc n) a zero h l = omega (arith, two-pow-succ n, one-le-pow n 2)
digit-complement (suc n) a (suc k) h l =
    ap (λ w. digit w k) (omega (arith, two-pow-succ n, one-le-pow n 2))
    ∙ digit-complement n (a / 2) k (omega (arith, two-pow-succ n)) (omega arith)

-- A mask of one digit.
and-zero : (n a : ℕ) → a ≤ n → bit_and a 0 ≡ 0
and-zero n zero h = refl
and-zero zero (suc a) h = absurd (omega arith)
and-zero (suc n) (suc a) h =
    omega (arith, and_digits (suc a) 0, and-zero n (suc a / 2) (omega arith))

half_pow : (k : ℕ) → 2 ^ suc k / 2 ≡ 2 ^ k
half_pow k = omega (arith, two-pow-succ k)

mul_double : (d k : ℕ) → d * 2 ^ suc k ≡ d * 2 ^ k + d * 2 ^ k
mul_double d k = ap (λ (t : ℕ). d * t) (two-pow-succ k) ∙ mul-add d (2 ^ k) (2 ^ k)

pub bit_and-pow : (k a : ℕ) → bit_and a (2 ^ k) ≡ digit a k * 2 ^ k
bit_and-pow zero a = omega (arith, and_digits a 1, and-zero (a / 2) (a / 2) (omega arith))
bit_and-pow (suc k) a = omega (
  arith,
  and_digits a (2 ^ suc k),
  two-pow-succ k,
  ap (bit_and (a / 2)) (half_pow k),
  bit_and-pow k (a / 2),
  mul_double (digit (a / 2) k) k,
)
