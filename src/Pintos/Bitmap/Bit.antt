-- ===== src/Pintos/Bitmap/Bit.antt =====
-- The operations on one bit change that bit and no other.
use group.Shared.{
  ℕ, zero, suc, ◌-◌, ◌*◌, ◌/◌, ◌%◌, ◌^◌, ◌≤◌, ◌<◌, ◌≡◌, ◌≢◌, refl, sym, ap, ◌∙◌, Bool, true, false,
  not, Option, none, some, List, length, set, get_elem?, get_elem?-lt, get_elem?-set_self,
  get_elem?-set_ne, length-set, ltb, ◌==◌, if◌then◌else◌, arith, ℕ_discrete, bit_and, bit_or,
  bit_xor, digit, digit-bit_and, digit-bit_or, digit-bit_xor, digit-pow, digit-lt_two,
  digit-complement, bit_and-pow,
}
use native.Mathlib.Nat.{one-le-pow, pow-le-pow_right, two-pow-succ}
use group.Pintos.Bitmap.{
  Bitmap, elem_cnt, elem_idx, bit_mask, modify, mark, reset, flip, assign, test,
}

abbrev pub or_zero : Option ℕ → ℕ
or_zero none = 0
or_zero (some w) = w

abbrev pub word : List ℕ → ℕ → ℕ
word l i = or_zero (get_elem? l i)

-- What a bit is.
abbrev pub bit : Bitmap → ℕ → Bool
bit b i = digit (word b.bits (i / 32)) (i % 32) == 1

-- There are words for all bits.
abbrev pub IsBitmap : Bitmap → Type 0
IsBitmap b = length b.bits ≡ elem_cnt b.bit_cnt

-- The result is a bitmap of the same size in which the bits are as given.
abbrev pub Makes : Bitmap → Option Bitmap → (ℕ → Bool) → Type 0
Makes b o f =
    (b' : Bitmap) × (o ≡ some b')
    × IsBitmap b'
    × (b'.bit_cnt ≡ b.bit_cnt)
    × ((j : ℕ) → bit b' j ≡ f j)

word_lt : (b : Bitmap) (i : ℕ) → IsBitmap b → i < b.bit_cnt → i / 32 < length b.bits
unfolding elem_cnt
word_lt b i w h = omega (arith, w)

word-set_self : (l : List ℕ) (i v : ℕ) → i < length l → word (set l i v) i ≡ v
word-set_self l i v h = ap or_zero (get_elem?-set_self l i v h)

word-set_ne : (l : List ℕ) (i j v : ℕ) → i ≢ j → word (set l i v) j ≡ word l j
word-set_ne l i j v h = ap or_zero (get_elem?-set_ne l i j v h)

-- Indices with the same word and the same digit are the same.
index_test : (i j : ℕ) → i / 32 ≡ j / 32 → (j % 32 == i % 32) ≡ (j == i)
index_test i j p = ground arith

index_ne : (i j : ℕ) → i / 32 ≢ j / 32 → (j == i) ≡ false
index_ne i j p = ground arith

modify-Makes :
    (b : Bitmap) (i : ℕ) (op : ℕ → ℕ) (g : Bool → Bool)
    → IsBitmap b
    → i < b.bit_cnt
    → ((w k : ℕ)
        → k < 32
        → (digit (op w) k == 1) ≡ (if k == i % 32 then g (digit w k == 1) else digit w k == 1))
    → Makes b (modify b i op) (λ j. if j == i then g (bit b j) else bit b j)
unfolding modify elem_idx
modify-Makes b i op g z h law =
    let (w, e) = get_elem?-lt b.bits (i / 32) (word_lt b i z h) in
    (
      record b { bits = set b.bits (i / 32) (op w) },
      rw (modify, e) refl,
      length-set b.bits (i / 32) (op w) ∙ z,
      refl,
      λ j. elim (ℕ_discrete (i / 32) (j / 32)) [
        | yes q ↦
            let there : word (set b.bits (i / 32) (op w)) (j / 32) ≡ op w =
              ap (word (set b.bits (i / 32) (op w))) (sym q)
              ∙ word-set_self b.bits (i / 32) (op w) (word_lt b i z h) in
            let was : w ≡ word b.bits (j / 32) = ap or_zero (sym e) ∙ ap (word b.bits) q in
            ap (λ x. digit x (j % 32) == 1) there
            ∙ law w (j % 32) (omega arith)
            ∙ ap (λ c. if c then g (digit w (j % 32) == 1) else digit w (j % 32) == 1)
                (index_test i j q)
            ∙ ap (λ x. if j == i then g (digit x (j % 32) == 1) else digit x (j % 32) == 1) was
        | no q ↦
            ap (λ x. digit x (j % 32) == 1) (word-set_ne b.bits (i / 32) (j / 32) (op w) q)
            ∙ ap (λ c. if c then g (bit b j) else bit b j) (sym (index_ne i j q))
      ],
    )

mask_lt : (k : ℕ) → k < 32 → 2 ^ k < 2 ^ 32
mask_lt k h =
    let up : suc k ≤ 32 = omega arith in
    omega (arith, two-pow-succ k, pow-le-pow_right {n = 2} (omega arith) up, one-le-pow k 2)

mark_digit :
    (i w k : ℕ) → (digit (bit_or w (2 ^ i)) k == 1) ≡ (if k == i then true else digit w k == 1)
mark_digit i w k = ground (arith, digit-bit_or k w (2 ^ i), digit-pow i k, digit-lt_two k w)

reset_digit :
    (i w k : ℕ)
    → i < 32
    → k < 32
    → (digit (bit_and w (2 ^ 32 - 1 - 2 ^ i)) k == 1) ≡ (if k == i then false else digit w k == 1)
reset_digit i w k h l = ground (
  arith,
  digit-bit_and k w (2 ^ 32 - 1 - 2 ^ i),
  digit-complement 32 (2 ^ i) k (mask_lt i h) l,
  digit-pow i k,
  digit-lt_two k w,
)

flip_digit :
    (i w k : ℕ)
    → (digit (bit_xor w (2 ^ i)) k == 1) ≡ (if k == i then not (digit w k == 1) else digit w k == 1)
flip_digit i w k = ground (arith, digit-bit_xor k w (2 ^ i), digit-pow i k, digit-lt_two k w)

pub mark-Makes :
    (b : Bitmap) (i : ℕ)
    → IsBitmap b
    → i < b.bit_cnt
    → Makes b (mark b i) (λ j. if j == i then true else bit b j)
unfolding mark bit_mask
mark-Makes b i z h =
    modify-Makes b i (λ w. bit_or w (2 ^ (i % 32))) (λ x. true) z h
      (λ w k l. mark_digit (i % 32) w k)

pub reset-Makes :
    (b : Bitmap) (i : ℕ)
    → IsBitmap b
    → i < b.bit_cnt
    → Makes b (reset b i) (λ j. if j == i then false else bit b j)
unfolding reset bit_mask
reset-Makes b i z h =
    modify-Makes b i (λ w. bit_and w (2 ^ 32 - 1 - 2 ^ (i % 32))) (λ x. false) z h
      (λ w k l. reset_digit (i % 32) w k (omega arith) l)

pub flip-Makes :
    (b : Bitmap) (i : ℕ)
    → IsBitmap b
    → i < b.bit_cnt
    → Makes b (flip b i) (λ j. if j == i then not (bit b j) else bit b j)
unfolding flip bit_mask
flip-Makes b i z h =
    modify-Makes b i (λ w. bit_xor w (2 ^ (i % 32))) not z h (λ w k l. flip_digit (i % 32) w k)

pub assign-Makes :
    (b : Bitmap) (i : ℕ) (v : Bool)
    → IsBitmap b
    → i < b.bit_cnt
    → Makes b (assign b i v) (λ j. if j == i then v else bit b j)
unfolding assign
assign-Makes b i true z h =
    let inside : ltb i b.bit_cnt ≡ true = ground arith in rw inside (mark-Makes b i z h)
assign-Makes b i false z h =
    let inside : ltb i b.bit_cnt ≡ true = ground arith in rw inside (reset-Makes b i z h)

scaled_test : (d p x : ℕ) → d < 2 → 1 ≤ p → x ≡ d * p → not (x == 0) ≡ (d == 1)
scaled_test zero p x h l e = ground arith
scaled_test (suc zero) p x h l e = ground arith
scaled_test (suc (suc d)) p x h l e = absurd (omega arith)

masked : (w k : ℕ) → not (bit_and w (2 ^ k) == 0) ≡ (digit w k == 1)
masked w k =
    scaled_test (digit w k) (2 ^ k) (bit_and w (2 ^ k)) (digit-lt_two k w)
      (one-le-pow k 2 (omega arith)) (bit_and-pow k w)

pub test-bit : (b : Bitmap) (i : ℕ) → IsBitmap b → i < b.bit_cnt → test b i ≡ some (bit b i)
unfolding test elem_idx bit_mask
test-bit b i z h =
    let (w, e) = get_elem?-lt b.bits (i / 32) (word_lt b i z h) in
    let inside : ltb i b.bit_cnt ≡ true = ground arith in
    rw (test, inside, e) (ap some (masked w (i % 32)))
