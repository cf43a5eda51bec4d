-- ===== src/Pintos/Bitmap.antt =====
-- lib/kernel/bitmap.c: bits in 32-bit words. `none` is a failed ASSERT or an access beyond the words.
-- Sums of sizes are taken not to wrap.
pub mod Bit
pub mod Ranges
pub mod Scan
use group.Shared.{
  ℕ, zero, suc, ◌+◌, ◌-◌, ◌*◌, ◌/◌, ◌%◌, ◌^◌, Bool, true, false, not, Option, none, some, List, [],
  set, get_elem?, ltb, leb, ◌==◌, if◌then◌else◌, bit_and, bit_or, bit_xor,
}

-- `struct bitmap`
pub record Bitmap : Type 0 where
  pub bit_cnt : ℕ
  pub bits : List ℕ

unfoldable pub elem_idx : ℕ → ℕ
elem_idx bit_idx = bit_idx / 32

unfoldable pub bit_mask : ℕ → ℕ
bit_mask bit_idx = 2 ^ (bit_idx % 32)

unfoldable pub elem_cnt : ℕ → ℕ
elem_cnt bit_cnt = (bit_cnt + 31) / 32

unfoldable pub byte_cnt : ℕ → ℕ
unfolding elem_cnt
byte_cnt bit_cnt = 4 * elem_cnt bit_cnt

-- A `struct bitmap` has two words of 4 bytes.
unfoldable pub buf_size : ℕ → ℕ
unfolding byte_cnt
buf_size bit_cnt = 8 + byte_cnt bit_cnt

-- An instruction on the word of a bit, `op` of its contents.
unfoldable pub modify : Bitmap → ℕ → (ℕ → ℕ) → Option Bitmap
unfolding elem_idx
modify b bit_idx op = elim (get_elem? b.bits (elem_idx bit_idx)) [
  | none ↦ none
  | some w ↦ some (record b { bits = set b.bits (elem_idx bit_idx) (op w) })
]

unfoldable pub mark : Bitmap → ℕ → Option Bitmap
unfolding modify bit_mask
mark b bit_idx = modify b bit_idx (λ w. bit_or w (bit_mask bit_idx))

unfoldable pub reset : Bitmap → ℕ → Option Bitmap
unfolding modify bit_mask
reset b bit_idx = modify b bit_idx (λ w. bit_and w (2 ^ 32 - 1 - bit_mask bit_idx))

unfoldable pub flip : Bitmap → ℕ → Option Bitmap
unfolding modify bit_mask
flip b bit_idx = modify b bit_idx (λ w. bit_xor w (bit_mask bit_idx))

-- `bitmap_set`
unfoldable pub assign : Bitmap → ℕ → Bool → Option Bitmap
unfolding mark reset
assign b idx value = if ltb idx b.bit_cnt then (if value then mark b idx else reset b idx) else none

unfoldable pub test : Bitmap → ℕ → Option Bool
unfolding elem_idx bit_mask
test b idx =
    if ltb idx b.bit_cnt
    then elim (get_elem? b.bits (elem_idx idx)) [
      | none ↦ none
      | some w ↦ some (not (bit_and w (bit_mask idx) == 0))
    ]
    else none

-- The loops from bit `i` on, with the number of bits left.
unfoldable pub set_loop : Bitmap → ℕ → ℕ → Bool → Option Bitmap
unfolding assign
set_loop b i zero value = some b
set_loop b i (suc cnt) value = elim (assign b i value) [
  | none ↦ none
  | some b' ↦ set_loop b' (suc i) cnt value
]

unfoldable pub set_multiple : Bitmap → ℕ → ℕ → Bool → Option Bitmap
unfolding set_loop
set_multiple b start cnt value =
    if leb (start + cnt) b.bit_cnt then set_loop b start cnt value else none

unfoldable pub set_all : Bitmap → Bool → Option Bitmap
unfolding set_multiple
set_all b value = set_multiple b 0 b.bit_cnt value

abbrev pub same_bit : Bool → Bool → Bool
same_bit true v = v
same_bit false v = not v

unfoldable pub count_loop : Bitmap → ℕ → ℕ → Bool → ℕ → Option ℕ
unfolding test
count_loop b i zero value value_cnt = some value_cnt
count_loop b i (suc cnt) value value_cnt = elim (test b i) [
  | none ↦ none
  | some v ↦ count_loop b (suc i) cnt value (if same_bit v value then value_cnt + 1 else value_cnt)
]

-- `bitmap_count`
unfoldable pub count_bits : Bitmap → ℕ → ℕ → Bool → Option ℕ
unfolding count_loop
count_bits b start cnt value =
    if leb (start + cnt) b.bit_cnt then count_loop b start cnt value 0 else none

unfoldable pub contains_loop : Bitmap → ℕ → ℕ → Bool → Option Bool
unfolding test
contains_loop b i zero value = some false
contains_loop b i (suc cnt) value =
    let rest = contains_loop b (suc i) cnt value in
    elim (test b i) [ none ↦ none | some v ↦ if same_bit v value then some true else rest ]

unfoldable pub contains : Bitmap → ℕ → ℕ → Bool → Option Bool
unfolding contains_loop
contains b start cnt value =
    if leb (start + cnt) b.bit_cnt then contains_loop b start cnt value else none

abbrev pub negated : Option Bool → Option Bool
negated none = none
negated (some v) = some (not v)

unfoldable pub any_bit : Bitmap → ℕ → ℕ → Option Bool
unfolding contains
any_bit b start cnt = contains b start cnt true

unfoldable pub no_bit : Bitmap → ℕ → ℕ → Option Bool
unfolding contains
no_bit b start cnt = negated (contains b start cnt true)

unfoldable pub all_bits : Bitmap → ℕ → ℕ → Option Bool
unfolding contains
all_bits b start cnt = negated (contains b start cnt false)

-- The loop of `bitmap_scan` from `i` on, with the number of places left. The inner `none` is
-- BITMAP_ERROR.
unfoldable pub scan_loop : Bitmap → ℕ → Bool → ℕ → ℕ → Option (Option ℕ)
unfolding contains
scan_loop b cnt value i zero = some none
scan_loop b cnt value i (suc n) =
    let rest = scan_loop b cnt value (suc i) n in
    elim (contains b i cnt (not value)) [
      | none ↦ none
      | some found ↦ if found then rest else some (some i)
    ]

unfoldable pub scan : Bitmap → ℕ → ℕ → Bool → Option (Option ℕ)
unfolding scan_loop
scan b start cnt value =
    if leb start b.bit_cnt
    then (if leb cnt b.bit_cnt
        then scan_loop b cnt value start (b.bit_cnt - cnt + 1 - start)
        else some none)
    else none

unfoldable pub scan_and_flip : Bitmap → ℕ → ℕ → Bool → Option (Option ℕ × Bitmap)
unfolding scan set_multiple
scan_and_flip b start cnt value = elim (scan b start cnt value) [
  | none ↦ none
  | some none ↦ some (none, b)
  | some (some idx) ↦ elim (set_multiple b idx cnt (not value)) [
    | none ↦ none
    | some b' ↦ some (some idx, b')
  ]
]

-- `memory` tells whether there is memory for the struct, and `contents` is what `malloc` finds in that for
-- the words, if there is any. Here `none` is a null pointer.
unfoldable pub create : Bool → Option (List ℕ) → ℕ → Option Bitmap
unfolding set_all
create memory contents bit_cnt =
    if memory
    then elim contents [
      | none ↦
          if bit_cnt == 0 then set_all (record { bit_cnt = bit_cnt; bits = [] }) false else none
      | some words ↦ set_all (record { bit_cnt = bit_cnt; bits = words }) false
    ]
    else none
