-- ===== src/Pintos/Bitmap/Scan.antt =====
-- `bitmap_scan` finds the first group of bits, and `bitmap_scan_and_flip` takes it.
use group.Shared.{
  ℕ, zero, suc, ◌+◌, ◌-◌, ◌≤◌, ◌<◌, ◌≡◌, ◌⊎◌, inl, inr, refl, ◌∙◌, Bool, true, false, not, none,
  some, leb, if◌then◌else◌, arith, dec_le,
}
use mathlib.Core.Path.{subst}
use group.Pintos.Bitmap.{Bitmap, scan_loop, scan, scan_and_flip}
use group.Pintos.Bitmap.Bit.{bit, IsBitmap}
use group.Pintos.Bitmap.Ranges.{within, Uniform, Meets, contains-cases, set_multiple-Makes}

not-not : (v : Bool) → not (not v) ≡ v
not-not true = refl
not-not false = refl

-- `i` is the first place from `start` on where `cnt` bits have the value.
pub record IsFirst (b : Bitmap) (start cnt : ℕ) (v : Bool) (i : ℕ) : Type 0 where
  pub after : start ≤ i
  pub inside : i + cnt ≤ b.bit_cnt
  pub group : Uniform b i cnt v
  pub first : (j : ℕ) → start ≤ j → j < i → Meets b j cnt (not v)

-- There is no such place.
abbrev pub Nowhere : Bitmap → ℕ → ℕ → Bool → Type 0
Nowhere b start cnt v = (j : ℕ) → start ≤ j → j + cnt ≤ b.bit_cnt → Meets b j cnt (not v)

Uniform-not :
    (b : Bitmap) (i cnt : ℕ) (v : Bool) → Uniform b i cnt (not (not v)) → Uniform b i cnt v
Uniform-not b i cnt v u j p q = u j p q ∙ not-not v

module _ (b : Bitmap) (cnt : ℕ) (v : Bool) where
  from_start : (i j : ℕ) → Meets b i cnt v → i ≤ j → (suc i ≤ j → Meets b j cnt v) → Meets b j cnt v
  from_start i j m p later = elim (dec_le (suc i) j) [
    | yes l ↦ later l
    | no l ↦ subst (λ k. Meets b k cnt v) (omega arith) m
  ]

scan_loop-cases :
    (b : Bitmap) (cnt : ℕ) (v : Bool) (i n : ℕ)
    → IsBitmap b
    → i + n + cnt ≤ b.bit_cnt + 1
    → ((scan_loop b cnt v i n ≡ some none) × ((j : ℕ) → i ≤ j → j < i + n → Meets b j cnt (not v)))
      ⊎ ((k : ℕ) × (scan_loop b cnt v i n ≡ some (some k)) × IsFirst b i cnt v k)
unfolding scan_loop
scan_loop-cases b cnt v i zero z h = inl (refl, λ j p q. absurd (omega arith))
scan_loop-cases b cnt v i (suc n) z h = elim (contains-cases b i cnt (not v) z (omega arith)) [
  | inr (e, u) ↦ inr (
    i,
    rw (scan_loop, e) refl,
    record {
      after = omega arith;
      inside = omega arith;
      group = Uniform-not b i cnt v u;
      first = λ j p q. absurd (omega arith);
    },
  )
  | inl (e, m) ↦ elim (scan_loop-cases b cnt v (suc i) n z (omega arith)) [
    | inl (r, none_there) ↦ inl (
      rw (scan_loop, e) r,
      λ j p q. from_start b cnt (not v) i j m p (λ l. none_there j l (omega arith)),
    )
    | inr (k, r, f) ↦ inr (
      k,
      rw (scan_loop, e) r,
      record {
        after = omega (arith, f.after);
        inside = f.inside;
        group = f.group;
        first = λ j p q. from_start b cnt (not v) i j m p (λ l. f.first j l q);
      },
    )
  ]
]

pub scan-cases :
    (b : Bitmap) (start cnt : ℕ) (v : Bool)
    → IsBitmap b
    → start ≤ b.bit_cnt
    → ((scan b start cnt v ≡ some none) × Nowhere b start cnt v)
      ⊎ ((i : ℕ) × (scan b start cnt v ≡ some (some i)) × IsFirst b start cnt v i)
unfolding scan
scan-cases b start cnt v z h =
    let ok : leb start b.bit_cnt ≡ true = ground arith in
    elim (dec_le cnt b.bit_cnt) [
      | no l ↦
          let beyond : leb cnt b.bit_cnt ≡ false = ground arith in
          inl (rw (scan, ok, beyond) refl, λ j p q. absurd (omega arith))
      | yes l ↦
          let few : leb cnt b.bit_cnt ≡ true = ground arith in
          elim (dec_le start (b.bit_cnt - cnt + 1)) [
            | yes near ↦
                elim (scan_loop-cases b cnt v start (b.bit_cnt - cnt + 1 - start) z (omega arith)) [
                  | inl (e, m) ↦ inl (rw (scan, ok, few) e, λ j p q. m j p (omega arith))
                  | inr (i, e, f) ↦ inr (i, rw (scan, ok, few) e, f)
                ]
            | no far ↦
                let never : b.bit_cnt - cnt + 1 - start ≡ 0 = omega arith in
                inl (rw (scan, ok, few, never) refl, λ j p q. absurd (omega arith))
          ]
    ]

-- On a bitmap with as many words as its size needs and a start within it, bitmap_scan_and_flip
-- either changes nothing because no run of so many bits of the value begins at or after the
-- start, or returns the index of the first such run and flips exactly the bits of that run.
pub scan_and_flip-cases :
    (b : Bitmap) (start cnt : ℕ) (v : Bool)
    → IsBitmap b
    → start ≤ b.bit_cnt
    → ((scan_and_flip b start cnt v ≡ some (none, b)) × Nowhere b start cnt v)
      ⊎ ((i : ℕ) × (b' : Bitmap) × (scan_and_flip b start cnt v ≡ some (some i, b'))
          × IsFirst b start cnt v i
          × IsBitmap b'
          × (b'.bit_cnt ≡ b.bit_cnt)
          × ((j : ℕ) → bit b' j ≡ (if within i cnt j then not v else bit b j)))
unfolding scan_and_flip
scan_and_flip-cases b start cnt v z h = elim (scan-cases b start cnt v z h) [
  | inl (e, m) ↦ inl (rw (scan_and_flip, e) refl, m)
  | inr (i, e, f) ↦
      let (b', s, z', n, g) = set_multiple-Makes b i cnt (not v) z f.inside in
      inr (i, b', rw (scan_and_flip, e, s) refl, f, z', n, g)
]
