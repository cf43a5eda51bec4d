-- ===== src/Pintos/Directory/Slots.antt =====
-- The entries of a directory as slots, and the search through them.
use group.Shared.{
  ℕ, zero, suc, ◌+◌, ◌*◌, ◌/◌, ◌≤◌, ◌<◌, ◌≡◌, inl, inr, refl, sym, ap, ◌∙◌, Bool, true, false,
  Option, none, some, List, ◌==◌, if◌then◌else◌, length, overwrite, length-overwrite, values,
  length-values, Bool-cases, arith,
}
use group.Pintos.Inode.{Disk, Inode, read_at}
use group.Pintos.Inode.Bytes.{IsDisk, byte_at, address, extent}
use group.Pintos.Inode.Reads.{read_at-values}
use group.Pintos.Directory.{is_entry_of, in_use, lookup_loop, lookup, same_name, free_loop}

-- How many entries the file has, and the bytes of one.
abbrev pub slots : Inode → ℕ
slots i = i.info.length / 20

unfoldable pub slot : Disk → Inode → ℕ → List ℕ
slot disk i k = values (byte_at disk) (address i.info (k * 20)) 20

pub length-slot : (disk : Disk) (i : Inode) (k : ℕ) → (length (slot disk i k) == 20) ≡ true
unfolding slot
length-slot disk i k = refl

pub slot_size : (disk : Disk) (i : Inode) (k : ℕ) → length (slot disk i k) ≡ 20
unfolding slot
slot_size disk i k = refl

not_full : (n : ℕ) → n < 20 → (n == 20) ≡ false
not_full n h = ground (arith, h)

-- A read of an entry gives it, and at the end of the file it gives less.
pub read_slot :
    (disk : Disk) (i : Inode) (k : ℕ)
    → IsDisk disk
    → k < slots i
    → read_at true disk i 20 (k * 20) ≡ some (slot disk i k)
unfolding slot
read_slot disk i k w h =
    let all : extent i.info 20 (k * 20) ≡ 20 = ground arith in
    read_at-values disk i 20 (k * 20) w
    ∙ ap (λ n. some (values (byte_at disk) (address i.info (k * 20)) n)) all

pub read_end :
    (disk : Disk) (i : Inode) (k : ℕ)
    → IsDisk disk
    → slots i ≤ k
    → (l : List ℕ) × (read_at true disk i 20 (k * 20) ≡ some l) × (length l < 20)
read_end disk i k w h =
    let n = extent i.info 20 (k * 20) in
    let l = values (byte_at disk) (address i.info (k * 20)) n in
    let short : n < 20 = ground arith in
    (
      l,
      read_at-values disk i 20 (k * 20) w,
      omega (arith, length-values (byte_at disk) (address i.info (k * 20)) n),
    )

-- The first of `n` slots from `k` on that passes.
abbrev pub first_slot : (List ℕ → Bool) → Disk → Inode → ℕ → ℕ → Option (ℕ × List ℕ)
first_slot p disk i k zero = none
first_slot p disk i k (suc n) =
    let rest = first_slot p disk i (suc k) n in
    if p (slot disk i k) then some (k * 20, slot disk i k) else rest

lookup_loop_lem :
    (fuel : ℕ) (disk : Disk) (i : Inode) (name : List ℕ) (k n : ℕ)
    → IsDisk disk
    → k + n ≡ slots i
    → n < fuel
    → lookup_loop fuel true disk i name (k * 20) ≡ some (first_slot (is_entry_of name) disk i k n)
unfolding lookup_loop same_name
lookup_loop_lem zero disk i name k n w e f = absurd (omega arith)
lookup_loop_lem (suc fuel) disk i name k zero w e f =
    let (l, r, s) = read_end disk i k w (omega (arith, e)) in
    let short = not_full (length l) s in rw (lookup_loop, r, short) refl
lookup_loop_lem (suc fuel) disk i name k (suc n) w e f =
    let next : suc k * 20 ≡ k * 20 + 20 = omega arith in
    let rest = lookup_loop_lem fuel disk i name (suc k) n w (omega (arith, e)) (omega arith) in
    rw (lookup_loop, read_slot disk i k w (omega (arith, e)), length-slot disk i k)
      (elim (Bool-cases (is_entry_of name (slot disk i k))) [
        | inl p ↦ rw p refl
        | inr p ↦ rw p (ap (lookup_loop fuel true disk i name) (sym next) ∙ rest)
      ])

-- `lookup` finds the first entry of the name.
pub lookup-first_slot :
    (disk : Disk) (i : Inode) (name : List ℕ)
    → IsDisk disk
    → lookup true disk i name ≡ some (first_slot (is_entry_of name) disk i 0 (slots i))
unfolding lookup
lookup-first_slot disk i name w =
    lookup_loop_lem (suc i.info.length) disk i name 0 (slots i) w (omega arith) (omega arith)

-- The first slot that is not in use, or the number of slots.
abbrev pub free_slot : Disk → Inode → ℕ → ℕ → ℕ
free_slot disk i k zero = k
free_slot disk i k (suc n) =
    let rest = free_slot disk i (suc k) n in if in_use (slot disk i k) then rest else k

pub free_slot-le : (disk : Disk) (i : Inode) (k n : ℕ) → free_slot disk i k n ≤ k + n
free_slot-le disk i k zero = omega arith
free_slot-le disk i k (suc n) = elim (Bool-cases (in_use (slot disk i k))) [
  | inl p ↦ rw p (omega (arith, free_slot-le disk i (suc k) n))
  | inr p ↦ rw p (omega arith)
]

-- It is not in use, unless it is the end.
pub free_slot-free :
    (disk : Disk) (i : Inode) (k n : ℕ)
    → free_slot disk i k n < k + n
    → in_use (slot disk i (free_slot disk i k n)) ≡ false
free_slot-free disk i k zero h = absurd (omega arith)
free_slot-free disk i k (suc n) h = elim (Bool-cases (in_use (slot disk i k))) [
  | inl p ↦
      let here : free_slot disk i k (suc n) ≡ free_slot disk i (suc k) n = rw p refl in
      ap (λ m. in_use (slot disk i m)) here
      ∙ free_slot-free disk i (suc k) n (omega (arith, here, h))
  | inr p ↦
      let here : free_slot disk i k (suc n) ≡ k = rw p refl in
      ap (λ m. in_use (slot disk i m)) here ∙ p
]

pub free_loop_lem :
    (fuel : ℕ) (disk : Disk) (i : Inode) (e : List ℕ) (k n : ℕ)
    → IsDisk disk
    → k + n ≡ slots i
    → n < fuel
    → length e ≡ 20
    → (e' : List ℕ) × (free_loop fuel true disk i e (k * 20) ≡ some (free_slot disk i k n * 20, e'))
      × (length e' ≡ 20)
unfolding free_loop
free_loop_lem zero disk i e k n w q f h = absurd (omega arith)
free_loop_lem (suc fuel) disk i e k zero w q f h =
    let (l, r, s) = read_end disk i k w (omega (arith, q)) in
    (overwrite e 0 l, rw (free_loop, r, not_full (length l) s) refl, length-overwrite e 0 l ∙ h)
free_loop_lem (suc fuel) disk i e k (suc n) w q f h =
    let next : suc k * 20 ≡ k * 20 + 20 = omega arith in
    let l = slot disk i k in
    let whole : length l ≡ 20 = slot_size disk i k in
    let read = read_slot disk i k w (omega (arith, q)) in
    elim (Bool-cases (in_use l)) [
      | inr p ↦ (l, rw (free_loop, read, length-slot disk i k, p) refl, whole)
      | inl p ↦
          let (e', r, t) =
            free_loop_lem fuel disk i l (suc k) n w (omega (arith, q)) (omega arith) whole in
          (
            e',
            rw (free_loop, read, length-slot disk i k, p)
                (ap (free_loop fuel true disk i l) (sym next) ∙ r),
            t,
          )
    ]
