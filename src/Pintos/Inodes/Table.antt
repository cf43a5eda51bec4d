-- ===== src/Pintos/Inodes/Table.antt =====
-- The list of open inodes: no sector is twice in it, and every inode in it has an opener.
use group.Shared.{
  ℕ, ◌≤◌, ◌<◌, ◌≡◌, ◌≢◌, inl, inr, refl, sym, ◌∙◌, true, false, Option, none, some, List, [], ◌∷◌,
  ◌==◌, Bool-cases, arith,
}
use mathlib.Core.Path.{subst}
use group.Pintos.Inode.{Inode}
use group.Pintos.Inodes.{find, update, remove_elem}

-- The sector is that of no inode of the list.
abbrev pub Absent : ℕ → List Inode → Type 0
Absent sector [] = Unit
Absent sector (i ∷ l) = (i.sector ≢ sector) × Absent sector l

-- There is an opener, and no opener has denied writes twice.
abbrev pub IsCounted : Inode → Type 0
IsCounted i = (0 < i.open_cnt) × (i.deny_write_cnt ≤ i.open_cnt)

abbrev pub IsTable : List Inode → Type 0
IsTable [] = Unit
IsTable (i ∷ l) = Absent i.sector l × IsCounted i × IsTable l

pub find_here :
    (sector : ℕ) (x : Inode) (l : List Inode)
    → (x.sector == sector) ≡ true
    → find sector (x ∷ l) ≡ some x
unfolding find
find_here sector x l p = rw (find, p) refl

pub find_later :
    (sector : ℕ) (x : Inode) (l : List Inode)
    → (x.sector == sector) ≡ false
    → find sector (x ∷ l) ≡ find sector l
unfolding find
find_later sector x l p = rw (find, p) refl

same_inode : (x i : Inode) → ◌≡◌ {A = Option Inode} (some x) (some i) → x ≡ i
same_inode x i e = cc

pub found-IsCounted :
    (sector : ℕ) (l : List Inode) (i : Inode) → find sector l ≡ some i → IsTable l → IsCounted i
unfolding find
found-IsCounted sector [] i e t = absurd (nothing i e)
  where
    nothing : (i : Inode) → ◌≡◌ {A = Option Inode} none (some i) → ⊥
    nothing i e = cc
found-IsCounted sector (x ∷ l) i e (a, b, t) = elim (Bool-cases (x.sector == sector)) [
  | inl p ↦ subst IsCounted (same_inode x i (sym (find_here sector x l p) ∙ e)) b
  | inr p ↦ found-IsCounted sector l i (sym (find_later sector x l p) ∙ e) t
]

pub found_none-Absent : (sector : ℕ) (l : List Inode) → find sector l ≡ none → Absent sector l
unfolding find
found_none-Absent sector [] e = tt
found_none-Absent sector (x ∷ l) e = elim (Bool-cases (x.sector == sector)) [
  | inl p ↦ absurd (something x (sym (find_here sector x l p) ∙ e))
  | inr p ↦ (
    λ q. different x.sector sector p q,
    found_none-Absent sector l (sym (find_later sector x l p) ∙ e),
  )
]
  where
    something : (i : Inode) → ◌≡◌ {A = Option Inode} (some i) none → ⊥
    something i e = cc

    different : (a b : ℕ) → (a == b) ≡ false → a ≡ b → ⊥
    different a b p q = ground (arith, p, q)

update-Absent :
    (f : Inode → Inode) (sector other : ℕ) (l : List Inode)
    → ((i : Inode) → (f i).sector ≡ i.sector)
    → Absent other l
    → Absent other (update f sector l)
unfolding update
update-Absent f sector other [] k a = a
update-Absent f sector other (i ∷ l) k (p, q) = elim (Bool-cases (i.sector == sector)) [
  | inl e ↦ rw (update, e) (λ z. p (sym (k i) ∙ z), q)
  | inr e ↦ rw (update, e) (p, update-Absent f sector other l k q)
]

pub update-IsTable :
    (f : Inode → Inode) (sector : ℕ) (l : List Inode) (i : Inode)
    → ((i : Inode) → (f i).sector ≡ i.sector)
    → find sector l ≡ some i
    → IsCounted (f i)
    → IsTable l
    → IsTable (update f sector l)
unfolding update
update-IsTable f sector [] i k e c t = t
update-IsTable f sector (x ∷ l) i k e c (a, b, t) = elim (Bool-cases (x.sector == sector)) [
  | inl p ↦
      let same = same_inode x i (sym (find_here sector x l p) ∙ e) in
      rw (update, p)
        (subst (λ s. Absent s l) (sym (k x)) a, subst (λ y. IsCounted (f y)) (sym same) c, t)
  | inr p ↦
      let rest = update-IsTable f sector l i k (sym (find_later sector x l p) ∙ e) c t in
      rw (update, p) (update-Absent f sector x.sector l k a, b, rest)
]

remove_elem_other-Absent :
    (sector other : ℕ) (l : List Inode) → Absent other l → Absent other (remove_elem sector l)
unfolding remove_elem
remove_elem_other-Absent sector other [] a = a
remove_elem_other-Absent sector other (i ∷ l) (p, q) = elim (Bool-cases (i.sector == sector)) [
  | inl e ↦ rw (remove_elem, e) q
  | inr e ↦ rw (remove_elem, e) (p, remove_elem_other-Absent sector other l q)
]

pub remove_elem-IsTable : (sector : ℕ) (l : List Inode) → IsTable l → IsTable (remove_elem sector l)
unfolding remove_elem
remove_elem-IsTable sector [] t = t
remove_elem-IsTable sector (i ∷ l) (a, b, t) = elim (Bool-cases (i.sector == sector)) [
  | inl e ↦ rw (remove_elem, e) t
  | inr e ↦
      rw (remove_elem, e)
        (remove_elem_other-Absent sector i.sector l a, b, remove_elem-IsTable sector l t)
]

-- The inode at the sector is no more in the list.
pub remove_elem-Absent :
    (sector : ℕ) (l : List Inode) → IsTable l → Absent sector (remove_elem sector l)
unfolding remove_elem
remove_elem-Absent sector [] t = tt
remove_elem-Absent sector (i ∷ l) (a, b, t) = elim (Bool-cases (i.sector == sector)) [
  | inl e ↦
      let here : i.sector ≡ sector = ground arith in
      rw (remove_elem, e) (subst (λ s. Absent s l) here a)
  | inr e ↦ rw (remove_elem, e) ((λ q. ground arith), remove_elem-Absent sector l t)
]
