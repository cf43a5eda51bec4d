-- ===== src/Pintos/Division.antt =====
-- lib/arithmetic.c: the division of 64-bit numbers, which are below 2 ^ 64. `none` is a trap.
pub mod Quotient
use group.Shared.{
  ℕ, zero, suc, ◌+◌, ◌-◌, ◌*◌, ◌/◌, ◌%◌, ◌^◌, Bool, true, false, Option, none, some, ltb, leb, ◌==◌,
  if◌then◌else◌,
}

abbrev pub b32 : ℕ
b32 = 4294967296

abbrev pub b64 : ℕ
b64 = 18446744073709551616

-- The instruction traps if the divisor is 0 or the quotient has more than 32 bits.
unfoldable pub divl : ℕ → ℕ → Option ℕ
divl n d = if d == 0 then none else if ltb (n / d) b32 then some (n / d) else none

-- A test of `nlz`: the count and the word after it.
abbrev nlz_step : ℕ → ℕ → ℕ × ℕ → ℕ × ℕ
nlz_step limit k (n, x) = if leb x limit then (n + k, x * 2 ^ k % b32) else (n, x)

unfoldable pub nlz : ℕ → ℕ
nlz x =
    let a = nlz_step 0x0000FFFF 16 (0, x) in
    let b = nlz_step 0x00FFFFFF 8 a in
    let c = nlz_step 0x0FFFFFFF 4 b in
    let d = nlz_step 0x3FFFFFFF 2 c in if leb d.1 0x7FFFFFFF then d.0 + 1 else d.0

unfoldable pub udiv64 : ℕ → ℕ → Option ℕ
unfolding divl nlz
udiv64 n d =
    if d / b32 == 0
    then (let n1 = n / b32 in
        let n0 = n % b32 in
        let d0 = d % b32 in
        if d0 == 0 then none else elim (divl (b32 * (n1 % d0) + n0) d0) [
          | none ↦ none
          | some q ↦ some ((q + b32 * (n1 / d0)) % b64)
        ])
    else if ltb n d
    then some 0
    else (let s = nlz (d / b32) in
        elim (divl (n / 2) (d * 2 ^ s % b64 / b32)) [
          | none ↦ none
          | some t ↦
              let q = t / 2 ^ (31 - s) in
              let less = (q + b64 - 1) % b64 in
              let left = (n + b64 - less * d % b64) % b64 in some (if ltb left d then less else q)
        ])

-- The result has 32 bits.
unfoldable pub umod64 : ℕ → ℕ → Option ℕ
unfolding udiv64
umod64 n d = elim (udiv64 n d) [ none ↦ none | some q ↦ some ((n + b64 - d * q % b64) % b64 % b32) ]
