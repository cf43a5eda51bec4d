-- ===== src/Pintos/Directory/Entry.antt =====
-- The bytes of the entry that `dir_add` writes.
use group.Shared.{
  ℕ, zero, suc, ◌+◌, ◌-◌, ◌≤◌, ◌<◌, ◌≡◌, refl, ap, ◌∙◌, true, ◌&&◌, List, [], ◌∷◌, ◌++◌, ltb, leb,
  ◌==◌, if◌then◌else◌, at, length, length-append, overwrite, length-overwrite, at-overwrite,
  ℕ_discrete, arith,
}
use group.Pintos.Inode.{encode_word, decode_word}
use group.Pintos.Directory.{is_entry_of, in_use, inode_sector, same_name, filled_entry}

at_end : (name : List ℕ) (i : ℕ) → at (name ++ 0 ∷ []) i ≡ at name i
at_end [] zero = refl
at_end [] (suc i) = refl
at_end (c ∷ name) zero = refl
at_end (c ∷ name) (suc i) = at_end name i

same_name-at :
    (name e : List ℕ) (o : ℕ)
    → ((i : ℕ) → i ≤ length name → at e (o + i) ≡ at name i)
    → same_name name e o ≡ true
unfolding same_name
same_name-at [] e o h =
    let here : o + 0 ≡ o = omega arith in ground (arith, ap (at e) here, h 0 (omega arith))
same_name-at (c ∷ name) e o h =
    let here : o + 0 ≡ o = omega arith in
    let first : (at e o == c) ≡ true = ground (arith, ap (at e) here, h 0 (omega arith)) in
    let rest = same_name-at name e (suc o) (λ i l.
      let next : suc o + i ≡ o + suc i = omega arith in ap (at e) next ∙ h (suc i) (omega arith)) in
    rw (same_name, first) rest

combine :
    (i n n' a b c d e f x : ℕ)
    → n' ≡ n + 1
    → x ≡ (if leb 0 i && ltb i (0 + 4) then a else b)
    → b ≡ (if leb 4 i && ltb i (4 + n') then c else d)
    → d ≡ (if leb 19 i && ltb i (19 + 1) then f else e)
    → (i ≡ 19 → f ≡ 1)
    → x ≡ (if ltb i 4 then a else if ltb i (5 + n) then c else if i == 19 then 1 else e)
combine i n n' a b c d e f x p q r s t = elim (ℕ_discrete i 19) [
  | yes z ↦ ground (arith, p, q, r, s, t z, z)
  | no z ↦ ground (arith, p, q, r, s, z)
]

-- The bytes that `dir_add` writes.
module _ (e name : List ℕ) (sector : ℕ) (w : length e ≡ 20) (h : length name ≤ 14) where
  length-named : length (overwrite (overwrite e 19 (1 ∷ [])) 4 (name ++ 0 ∷ [])) ≡ 20
  length-named =
      length-overwrite (overwrite e 19 (1 ∷ [])) 4 (name ++ 0 ∷ [])
      ∙ length-overwrite e 19 (1 ∷ [])
      ∙ w

  size_name : length (name ++ 0 ∷ []) ≡ length name + 1
  size_name = length-append name (0 ∷ [])

  filled_at :
      (i : ℕ)
      → at (filled_entry e name sector) i ≡ (
          if ltb i 4
          then at (encode_word sector) i
          else if ltb i (5 + length name)
          then at name (i - 4)
          else if i == 19
          then 1
          else at e i)
  unfolding filled_entry encode_word
  filled_at i =
      let one = overwrite e 19 (1 ∷ []) in
      let two = overwrite one 4 (name ++ 0 ∷ []) in
      let zero_less : i - 0 ≡ i = omega arith in
      combine i (length name) (length (name ++ 0 ∷ [])) (at (encode_word sector) i) (at two i)
        (at name (i - 4)) (at one i) (at e i) (at (1 ∷ []) (i - 19))
        (at (overwrite two 0 (encode_word sector)) i) size_name
        (at-overwrite two 0 (encode_word sector) i (omega (arith, length-named))
          ∙ ap (λ j. if leb 0 i && ltb i (0 + 4) then at (encode_word sector) j else at two i)
              zero_less)
        (at-overwrite one 4 (name ++ 0 ∷ []) i
            (omega (arith, size_name, length-overwrite e 19 (1 ∷ [])))
          ∙ ap (λ c. if leb 4 i && ltb i (4 + length (name ++ 0 ∷ [])) then c else at one i)
              (at_end name (i - 4)))
        (at-overwrite e 19 (1 ∷ []) i (omega arith))
        (λ z. let here : i - 19 ≡ 0 = omega arith in ap (at (1 ∷ [])) here)

  pub length-filled_entry : length (filled_entry e name sector) ≡ 20
  unfolding filled_entry
  length-filled_entry =
      length-overwrite (overwrite (overwrite e 19 (1 ∷ [])) 4 (name ++ 0 ∷ [])) 0
        (encode_word sector)
      ∙ length-named

  pub filled_sector : sector < 4294967296 → inode_sector (filled_entry e name sector) ≡ sector
  unfolding decode_word encode_word
  filled_sector l = omega (arith, filled_at 0, filled_at 1, filled_at 2, filled_at 3)

  filled_name : same_name name (filled_entry e name sector) 4 ≡ true
  filled_name = same_name-at name (filled_entry e name sector) 4 (λ i l.
      let there : 4 + i - 4 ≡ i = omega arith in
      filled_at (4 + i) ∙ ground (arith, ap (at name) there))

  filled_used : in_use (filled_entry e name sector) ≡ true
  filled_used = ground (arith, filled_at 19)

  pub filled_is_entry : is_entry_of name (filled_entry e name sector) ≡ true
  filled_is_entry = ground (arith, filled_name, filled_used)
