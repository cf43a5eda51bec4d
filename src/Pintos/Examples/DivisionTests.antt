-- ===== src/Pintos/Examples/DivisionTests.antt =====
-- Divisions of 64-bit numbers.
use group.Shared.{◌≡◌, refl, none, some}
use group.Pintos.Division.{nlz, udiv64, umod64}

by_zero : udiv64 5 0 ≡ none
unfolding udiv64
by_zero = refl

leading : nlz 0x00012345 ≡ 15
unfolding nlz
leading = refl

long_divisor : udiv64 18446744073709551615 4294967297 ≡ some 4294967295
unfolding udiv64
long_divisor = refl

-- The remainder of 2 ^ 33 + 5 by 2 ^ 34 has more than 32 bits.
cut_remainder : umod64 8589934597 17179869184 ≡ some 5
unfolding umod64
cut_remainder = refl
