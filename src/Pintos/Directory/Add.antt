-- ===== src/Pintos/Directory/Add.antt =====
-- A file that is added to a directory is found in it.
use group.Shared.{
  ℕ, zero, suc, ◌+◌, ◌-◌, ◌*◌, ◌≤◌, ◌<◌, ◌≡◌, ◌≢◌, inl, inr, refl, sym, ap, ◌∙◌, Bool, true, false,
  ◌&&◌, ◌||◌, Option, none, some, List, ltb, leb, ◌==◌, at, length, take-drop, values, values-eq,
  Bool-cases, ℕ_discrete, arith,
}
use mathlib.Core.Path.{subst}
use group.Pintos.Inode.{Disk, Inode}
use group.Pintos.Inode.Bytes.{IsDisk, byte_at, address, extent, take_all}
use group.Pintos.Inode.Chunks.{IsWritten}
use group.Pintos.Inode.Writes.{write_at-IsWritten}
use group.Pintos.Directory.{Dir, is_entry_of, in_use, inode_sector, lookup, filled_entry, add}
use group.Pintos.Directory.Slots.{
  slots, slot, first_slot, lookup-first_slot, free_slot, free_slot-free, free_loop_lem,
}
use group.Pintos.Directory.Entry.{length-filled_entry, filled_sector, filled_is_entry}

values_self : (l : List ℕ) → length l ≡ 20 → values (at l) 0 20 ≡ l
values_self l h = sym (take-drop 20 0 l (omega (arith, h))) ∙ take_all l 20 h

-- A slot that was written, and the others.
written_slot :
    (disk disk' : Disk) (i : Inode) (k : ℕ) (e : List ℕ)
    → IsWritten disk disk' (address i.info (k * 20)) 20 e
    → length e ≡ 20
    → slot disk' i k ≡ e
unfolding slot
written_slot disk disk' i k e w h =
    let a = address i.info (k * 20) in
    values-eq (byte_at disk') (at e) a 0 20 (λ j l.
      let inside : (leb a (a + j) && ltb (a + j) (a + 20)) ≡ true = ground arith in
      let place : a + j - a ≡ 0 + j = omega arith in w.bytes (a + j) ∙ rw inside (ap (at e) place))
    ∙ values_self e h

other_slot :
    (disk disk' : Disk) (i : Inode) (k j : ℕ) (e : List ℕ)
    → IsWritten disk disk' (address i.info (k * 20)) 20 e
    → j ≢ k
    → slot disk' i j ≡ slot disk i j
unfolding slot
other_slot disk disk' i k j e w n =
    let a = address i.info (k * 20) in
    let b = address i.info (j * 20) in
    values-eq (byte_at disk') (byte_at disk) b b 20 (λ o l.
      let outside : (leb a (b + o) && ltb (b + o) (a + 20)) ≡ false = ground (arith, n) in
      w.bytes (b + o) ∙ rw outside refl)

-- The search reaches a slot that no slot before it stops.
first_slot_lem :
    (p : List ℕ → Bool) (disk disk' : Disk) (i : Inode) (k n j : ℕ)
    → first_slot p disk i k n ≡ none
    → k ≤ j
    → j < k + n
    → ((c : ℕ) → c ≢ j → slot disk' i c ≡ slot disk i c)
    → p (slot disk' i j) ≡ true
    → first_slot p disk' i k n ≡ some (j * 20, slot disk' i j)
first_slot_lem p disk disk' i k zero j e l h f t = absurd (omega arith)
first_slot_lem p disk disk' i k (suc n) j e l h f t = elim (ℕ_discrete k j) [
  | yes q ↦
      subst (λ c. first_slot p disk' i c (suc n) ≡ some (j * 20, slot disk' i j)) (sym q)
        (rw t refl)
  | no q ↦ elim (Bool-cases (p (slot disk i k))) [
    | inl x ↦ absurd (found (k * 20, slot disk i k) (sym (rw x refl) ∙ e))
    | inr x ↦
        let same : p (slot disk' i k) ≡ false = ap p (f k q) ∙ x in
        rw same (
          first_slot_lem p disk disk' i (suc k) n j (sym (rw x refl) ∙ e) (omega (arith, q))
            (omega arith) f t)
  ]
]
  where
    found : (v : ℕ × List ℕ) → some v ≡ none → ⊥
    found v e = cc

valid_name : (n : ℕ) → 0 < n → n ≤ 14 → (n == 0 || ltb 14 n) ≡ false
valid_name n p q = ground arith

whole_entry : (i : Inode) (k : ℕ) → k < slots i → extent i.info 20 (k * 20) ≡ 20
whole_entry i k h = ground arith

-- In a directory whose inode may be written, on a device whose sectors have 512 bytes, with
-- memory and a variable of 20 bytes: for a name of 1 to 14 characters that lookup does not find,
-- a sector below 2^32 and a slot that is not in use, dir_add succeeds, lookup then finds the name
-- at the offset of a slot of the directory that was not in use before, in an entry with the
-- sector, and every other slot is as before.
pub add-lookup :
    (e : List ℕ) (disk : Disk) (dir : Dir) (name : List ℕ) (sector : ℕ)
    → IsDisk disk
    → dir.inode.deny_write_cnt ≡ 0
    → length e ≡ 20
    → 0 < length name
    → length name ≤ 14
    → sector < 4294967296
    → free_slot disk dir.inode 0 (slots dir.inode) < slots dir.inode
    → lookup true disk dir.inode name ≡ some none
    → (disk' : Disk) × (entry : List ℕ) × (k : ℕ) × (add true e disk dir name sector
        ≡ some (true, disk'))
      × (lookup true disk' dir.inode name ≡ some (some (k * 20, entry)))
      × (inode_sector entry ≡ sector)
      × (k < slots dir.inode)
      × (in_use (slot disk dir.inode k) ≡ false)
      × ((j : ℕ) → j ≢ k → slot disk' dir.inode j ≡ slot disk dir.inode j)
unfolding add
add-lookup e disk dir name sector w d h p q b f x =
    let i = dir.inode in
    let k = free_slot disk i 0 (slots i) in
    let valid = valid_name (length name) p q in
    let (e', r, t) =
      free_loop_lem (suc i.info.length) disk i e 0 (slots i) w (omega arith) (omega arith) h in
    let entry = filled_entry e' name sector in
    let size = length-filled_entry e' name sector t q in
    let (disk', y, z) = write_at-IsWritten disk i entry 20 (k * 20) w d (omega (arith, size)) in
    let all = whole_entry i k f in
    let z' = subst (λ n. IsWritten disk disk' (address i.info (k * 20)) n entry) all z in
    let here = written_slot disk disk' i k entry z' size in
    let others = λ (j : ℕ) (n : j ≢ k). other_slot disk disk' i k j entry z' n in
    let empty =
      injected (first_slot (is_entry_of name) disk i 0 (slots i))
        (sym (lookup-first_slot disk i name w) ∙ x) in
    (
      disk',
      entry,
      k,
      rw (add, valid, x, r, y) (ap (λ n. some (n == 20, disk')) all),
      lookup-first_slot disk' i name z.valid
          ∙ ap some (
              first_slot_lem (is_entry_of name) disk disk' i 0 (slots i) k empty (omega arith)
                (omega (arith, f)) others
                (ap (is_entry_of name) here ∙ filled_is_entry e' name sector t q)
              ∙ ap (λ l. some (k * 20, l)) here),
      filled_sector e' name sector t q b,
      f,
      free_slot-free disk i 0 (slots i) (omega (arith, f)),
      others,
    )
  where
    injected : (o : Option (ℕ × List ℕ)) → some o ≡ some none → o ≡ none
    injected o e = cc
