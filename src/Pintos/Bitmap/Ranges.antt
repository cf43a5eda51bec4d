-- ===== src/Pintos/Bitmap/Ranges.antt =====
-- The operations on ranges of bits.
use group.Shared.{
  ℕ, zero, suc, ◌+◌, ◌≤◌, ◌<◌, ◌≡◌, ◌⊎◌, inl, inr, refl, sym, ap, ◌∙◌, Bool, true, false, not, ◌&&◌,
  some, List, ltb, leb, ◌==◌, if◌then◌else◌, arith, Bool-cases, length,
}
use group.Pintos.Bitmap.{
  Bitmap, set_loop, set_multiple, set_all, same_bit, count_loop, count_bits, contains_loop,
  contains, create, elem_cnt,
}
use group.Pintos.Bitmap.Bit.{bit, IsBitmap, Makes, assign-Makes, test-bit}

-- The index is one of `cnt` from `start` on.
abbrev pub within : ℕ → ℕ → ℕ → Bool
within start cnt j = leb start j && ltb j (start + cnt)

set_loop-Makes :
    (b : Bitmap) (i cnt : ℕ) (v : Bool)
    → IsBitmap b
    → i + cnt ≤ b.bit_cnt
    → Makes b (set_loop b i cnt v) (λ j. if within i cnt j then v else bit b j)
unfolding set_loop
set_loop-Makes b i zero v z h = (b, refl, z, refl, λ j. ground arith)
set_loop-Makes b i (suc cnt) v z h =
    let (b', e, z', n, f) = assign-Makes b i v z (omega arith) in
    let (b'', e', z'', n', f') = set_loop-Makes b' (suc i) cnt v z' (omega (arith, n)) in
    (b'', rw (set_loop, e) e', z'', n' ∙ n, λ j. f' j ∙ split i cnt j v (bit b' j) (bit b j) (f j))
  where
    split :
        (i cnt j : ℕ) (v x y : Bool)
        → x ≡ (if j == i then v else y)
        → (if within (suc i) cnt j then v else x) ≡ (if within i (suc cnt) j then v else y)
    split i cnt j v x y e = ground arith

pub set_multiple-Makes :
    (b : Bitmap) (start cnt : ℕ) (v : Bool)
    → IsBitmap b
    → start + cnt ≤ b.bit_cnt
    → Makes b (set_multiple b start cnt v) (λ j. if within start cnt j then v else bit b j)
unfolding set_multiple
set_multiple-Makes b start cnt v z h =
    let ok : leb (start + cnt) b.bit_cnt ≡ true = ground arith in
    rw ok (set_loop-Makes b start cnt v z h)

-- All bits of the range have the value.
abbrev pub Uniform : Bitmap → ℕ → ℕ → Bool → Type 0
Uniform b start cnt v = (j : ℕ) → start ≤ j → j < start + cnt → bit b j ≡ v

-- Some bit of the range has the value.
abbrev pub Meets : Bitmap → ℕ → ℕ → Bool → Type 0
Meets b start cnt v = (j : ℕ) × (start ≤ j) × (j < start + cnt) × (bit b j ≡ v)

same_bit-true : (x v : Bool) → same_bit x v ≡ true → x ≡ v
same_bit-true true v h = sym h
same_bit-true false true h = cc
same_bit-true false false h = refl

same_bit-false : (x v : Bool) → same_bit x v ≡ false → x ≡ not v
same_bit-false true true h = cc
same_bit-false true false h = refl
same_bit-false false true h = refl
same_bit-false false false h = cc

contains_loop-cases :
    (b : Bitmap) (i cnt : ℕ) (v : Bool)
    → IsBitmap b
    → i + cnt ≤ b.bit_cnt
    → ((contains_loop b i cnt v ≡ some true) × Meets b i cnt v)
      ⊎ ((contains_loop b i cnt v ≡ some false) × Uniform b i cnt (not v))
unfolding contains_loop
contains_loop-cases b i zero v z h = inr (refl, λ j p q. absurd (omega arith))
contains_loop-cases b i (suc cnt) v z h =
    let t = test-bit b i z (omega arith) in
    elim (Bool-cases (same_bit (bit b i) v)) [
      | inl e ↦ inl (
        rw (contains_loop, t, e) refl,
        (i, omega arith, omega arith, same_bit-true (bit b i) v e),
      )
      | inr e ↦ elim (contains_loop-cases b (suc i) cnt v z (omega arith)) [
        | inl (r, (j, p, q, x)) ↦ inl (rw (contains_loop, t, e) r, (j, omega arith, omega arith, x))
        | inr (r, u) ↦ inr (
          rw (contains_loop, t, e) r,
          λ j p q. elim (Bool-cases (j == i)) [
            | inl x ↦ ap (bit b) (equal j i x) ∙ same_bit-false (bit b i) v e
            | inr x ↦ u j (ground arith) (omega arith)
          ],
        )
      ]
    ]
  where
    equal : (j i : ℕ) → (j == i) ≡ true → j ≡ i
    equal j i e = ground arith

pub contains-cases :
    (b : Bitmap) (start cnt : ℕ) (v : Bool)
    → IsBitmap b
    → start + cnt ≤ b.bit_cnt
    → ((contains b start cnt v ≡ some true) × Meets b start cnt v)
      ⊎ ((contains b start cnt v ≡ some false) × Uniform b start cnt (not v))
unfolding contains
contains-cases b start cnt v z h =
    let ok : leb (start + cnt) b.bit_cnt ≡ true = ground arith in
    rw ok (contains_loop-cases b start cnt v z h)

-- How many of `cnt` bits from `i` on have the value.
abbrev pub tally : Bitmap → ℕ → ℕ → Bool → ℕ
tally b i zero v = 0
tally b i (suc cnt) v = (if same_bit (bit b i) v then 1 else 0) + tally b (suc i) cnt v

count_loop_lem :
    (b : Bitmap) (i cnt : ℕ) (v : Bool) (n : ℕ)
    → IsBitmap b
    → i + cnt ≤ b.bit_cnt
    → count_loop b i cnt v n ≡ some (n + tally b i cnt v)
unfolding count_loop
count_loop_lem b i zero v n z h = ap some (omega arith)
count_loop_lem b i (suc cnt) v n z h =
    rw (count_loop, test-bit b i z (omega arith))
      (count_loop_lem b (suc i) cnt v (if same_bit (bit b i) v then n + 1 else n) z (omega arith)
        ∙ ap some (move (same_bit (bit b i) v) (tally b (suc i) cnt v)))
  where
    move : (c : Bool) (m : ℕ) → (if c then n + 1 else n) + m ≡ n + ((if c then 1 else 0) + m)
    move c m = ground arith

pub count_bits-tally :
    (b : Bitmap) (start cnt : ℕ) (v : Bool)
    → IsBitmap b
    → start + cnt ≤ b.bit_cnt
    → count_bits b start cnt v ≡ some (tally b start cnt v)
unfolding count_bits
count_bits-tally b start cnt v z h =
    let ok : leb (start + cnt) b.bit_cnt ≡ true = ground arith in
    rw ok (count_loop_lem b start cnt v 0 z h ∙ ap some (omega arith))

-- A new bitmap has no bit set.
pub create-Makes :
    (contents : List ℕ) (bit_cnt : ℕ)
    → length contents ≡ elem_cnt bit_cnt
    → (b : Bitmap) × (create true (some contents) bit_cnt ≡ some b)
      × IsBitmap b
      × (b.bit_cnt ≡ bit_cnt)
      × Uniform b 0 bit_cnt false
unfolding create set_all
create-Makes contents bit_cnt h =
    let (b, e, z, n, f) =
      set_multiple-Makes (record { bit_cnt = bit_cnt; bits = contents }) 0 bit_cnt false h
        (omega arith) in
    (b, e, z, n, λ j p q. f j ∙ ground arith)
