-- ===== src/Pintos/Examples/CstringTests.antt =====
-- Strings at concrete addresses.
use group.Shared.{ℕ, ◌+◌, ◌<◌, ◌≡◌, ◌≢◌, inr, refl, some, ltb, ◌==◌, if◌then◌else◌, arith}
use group.Pintos.Cstring.{Memory, minus, memmove, strcmp, strchr, strcspn, strlen, strlcpy}
use group.Pintos.Cstring.Blocks.{IsCopied, memmove-IsCopied}
use group.Pintos.Cstring.Text.{IsText}
use group.Pintos.Cstring.Copies.{fitting, IsTextCopy, strlcpy-IsTextCopy}

-- "ab" at 10, and no NUL from 20 to 29.
abbrev memory : Memory
memory a =
    if a == 10
    then 97
    else if a == 11
    then 98
    else if ltb a 20
    then 0
    else if ltb a 30
    then 1
    else 0

memory-IsText : IsText memory 10 2
memory-IsText = record { letters = λ i l q. letter i l q; end = refl }
  where
    letter : (i : ℕ) → i < 2 → memory (10 + i) ≢ 0
    letter i l = λ q. ground (arith, q)

length_10 : strlen 5 memory 10 ≡ some 2
unfolding strlen
length_10 = refl

find_b : strchr 5 memory 10 98 ≡ some (some 11)
unfolding strchr
find_b = refl

span_a : strcspn 5 memory 10 11 ≡ some 1
unfolding strcspn
span_a = refl

before_b : strcmp 5 memory 10 11 ≡ some minus
unfolding strcmp
before_b = refl

-- An overlap: the pointer that comes back is not the destination.
memmove-IsCopied_example :
    (m : Memory) × (memmove memory 10 11 4 ≡ some (14, m)) × IsCopied memory m 10 11 4
memmove-IsCopied_example = memmove-IsCopied memory 10 11 4 (omega arith) (omega arith)

strlcpy-IsTextCopy_example :
    (m : Memory) × (strlcpy 3 memory 20 10 2 ≡ some (2, m))
    × IsTextCopy memory m 20 10 (fitting 2 1) 20 2
strlcpy-IsTextCopy_example =
    strlcpy-IsTextCopy 3 memory 20 10 2 2 memory-IsText (omega arith) (omega arith) (omega arith)
      (omega arith) (inr (omega arith))
