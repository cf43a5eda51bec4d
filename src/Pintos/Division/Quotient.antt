-- ===== src/Pintos/Division/Quotient.antt =====
-- Division by a divisor of 32 bits.
use group.Shared.{
  ℕ, ◌+◌, ◌-◌, ◌*◌, ◌/◌, ◌%◌, ◌<◌, ◌≡◌, sym, ap, ◌∙◌, true, false, some, ltb, ◌==◌, arith,
}
use native.Mathlib.Nat.{
  div-add-mod, mod-lt, div-lt_iff_lt-mul, add-mul-div_left, div-le_self, mul_comm, mul_assoc,
}
use group.Pintos.Division.{b32, b64, udiv64, umod64}

-- The dividend of the instruction is below the divisor times 2 ^ 32, so that it does not trap.
fits : (n d r : ℕ) → r < d → b32 * r + n % b32 < b32 * d
fits n d r h = omega arith

swap_product : (d t : ℕ) → d * (b32 * t) ≡ b32 * (d * t)
swap_product d t = sym (mul_assoc d b32 t) ∙ ap (λ x. x * t) (mul_comm d b32) ∙ mul_assoc b32 d t

quotient : (n d : ℕ) → 0 < d → (b32 * (n / b32 % d) + n % b32) / d + b32 * (n / b32 / d) ≡ n / d
quotient n d h =
    let t = n / b32 / d in
    let r = n / b32 % d in
    let whole : b32 * r + n % b32 + d * (b32 * t) ≡ n =
      omega (arith, swap_product d t, div-add-mod (n / b32) d) in
    sym (add-mul-div_left (b32 * r + n % b32) (b32 * t) h) ∙ ap (λ x. x / d) whole

below_word : (q : ℕ) → q < b32 → ltb q b32 ≡ true
below_word q h = ground (arith, h)

-- For a divisor of 32 bits that is not 0, udiv64 does not trap and returns the quotient.
pub udiv64-quotient : (n d : ℕ) → n < b64 → 0 < d → d < b32 → udiv64 n d ≡ some (n / d)
unfolding udiv64
udiv64-quotient n d l h s =
    let x = b32 * (n / b32 % d) + n % b32 in
    let narrow : (d / b32 == 0) ≡ true = ground arith in
    let same : d % b32 ≡ d = omega arith in
    let nonzero : (d == 0) ≡ false = ground arith in
    let bound =
      (div-lt_iff_lt-mul {k = d} {x = x} {y = b32} h).1
        (fits n d (n / b32 % d) (mod-lt (n / b32) h)) in
    let short : ltb (x / d) b32 ≡ true = below_word (x / d) bound in
    let small : n / d % b64 ≡ n / d = omega (arith, div-le_self n d) in
    rw (udiv64, narrow, same, nonzero, short)
      (rw same (ap some (ap (λ q. q % b64) (quotient n d h) ∙ small)))

-- For a divisor of 32 bits that is not 0, umod64 does not trap and returns the remainder.
pub umod64-remainder : (n d : ℕ) → n < b64 → 0 < d → d < b32 → umod64 n d ≡ some (n % d)
unfolding umod64
umod64-remainder n d l h s =
    let whole = div-add-mod n d in
    let low = mod-lt n h in
    let left : (n + b64 - d * (n / d) % b64) % b64 % b32 ≡ n % d = omega (arith, whole, low) in
    rw (umod64, udiv64-quotient n d l h s) (ap some left)
