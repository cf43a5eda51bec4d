-- ===== src/Kvstore/Master/Ring.antt =====
-- What `tpcmaster_get_primary` and `tpcmaster_get_successor` find on a sorted ring.
use group.Shared.{
  ℕ, zero, suc, ◌+◌, ◌≤◌, ◌<◌, ◌≡◌, ◌≢◌, ◌⊎◌, inl, inr, refl, none, some, List, [], ◌∷◌, length,
  All, get_elem?, get_elem?-lt, ltb, leb, arith, Bool-cases,
}
use group.Kvstore.Text.{CString}
use group.Kvstore.Outcome.{ok}
use group.Kvstore.Master.{Slave, hash_64_bit, primary_loop, get_primary, get_successor}

-- Ids increase along the list.
abbrev pub IsSorted : List Slave → Type 0
IsSorted [] = Unit
IsSorted (c ∷ l) = All (λ d. c.id < d.id) l × IsSorted l

-- The slave is one of the list.
abbrev pub IsIn : Slave → List Slave → Type 0
IsIn s [] = ⊥
IsIn s (c ∷ l) = (c ≡ s) ⊎ IsIn s l

-- The first id above a key on the ring: the least id above it, or the least of all if none is above.
abbrev pub Owns : ℕ → List Slave → Slave → Type 0
Owns k l s =
    ((k < s.id) × All (λ d. k < d.id → s.id ≤ d.id) l)
    ⊎ (All (λ d. d.id ≤ k) l × All (λ d. s.id ≤ d.id) l)

All-weaken :
    (P Q : Slave → Type 0) (f : (d : Slave) → P d → Q d) (l : List Slave) → All P l → All Q l
All-weaken P Q f [] h = tt
All-weaken P Q f (c ∷ l) h = (f c h.0, All-weaken P Q f l h.1)

-- Where the loop of `tpcmaster_get_primary` stops.
primary_loop_lem :
    (k : ℕ) (c : Slave) (l : List Slave)
    → IsSorted (c ∷ l)
    → ((s : Slave) × (primary_loop k (c ∷ l) ≡ some s)
        × IsIn s (c ∷ l)
        × (k < s.id)
        × All (λ d. k < d.id → s.id ≤ d.id) (c ∷ l))
      ⊎ ((primary_loop k (c ∷ l) ≡ none) × All (λ d. d.id ≤ k) (c ∷ l))
unfolding primary_loop
primary_loop_lem k c [] h = elim (Bool-cases (leb c.id k)) [
  | inl low ↦ inr (rw low, (ground arith, tt))
  | inr high ↦ inl (c, rw high, inl refl, ground arith, ((λ x. omega arith), tt))
]
primary_loop_lem k c (d ∷ l) h = elim (Bool-cases (leb c.id k)) [
  | inr high ↦ inl (
    c,
    rw high,
    inl refl,
    ground arith,
    (
      (λ x. omega arith),
      All-weaken (λ e. c.id < e.id) (λ e. k < e.id → c.id ≤ e.id) (λ e p x. omega arith) (d ∷ l)
          h.0,
    ),
  )
  | inl low ↦ elim (primary_loop_lem k d l h.1) [
    | inl (s, e, m, above, least) ↦ inl (s, rw (low, e), inr m, above, ((λ x. ground arith), least))
    | inr (e, all) ↦ inr (rw (low, e), (ground arith, all))
  ]
]

-- On a sorted ring that is not empty, tpcmaster_get_primary returns one of the slaves: the one
-- with the least id above the hash of the key, or, if no id is above it, the one with the least
-- id.
pub get_primary-Owns :
    (c : Slave) (l : List Slave) (key : CString)
    → IsSorted (c ∷ l)
    → (s : Slave) × (get_primary (c ∷ l) key ≡ ok s)
      × IsIn s (c ∷ l)
      × Owns (hash_64_bit key) (c ∷ l) s
unfolding get_primary
get_primary-Owns c l key h = elim (primary_loop_lem (hash_64_bit key) c l h) [
  | inl (s, e, m, above, least) ↦ (s, ground arith, m, inl (above, least))
  | inr (e, all) ↦ (
    c,
    ground arith,
    inl refl,
    inr (
      all,
      (omega arith, All-weaken (λ d. c.id < d.id) (λ d. c.id ≤ d.id) (λ d p. omega arith) l h.0),
    ),
  )
]

-- The n-th successor of the slave at a position.
unfoldable pub successors : ℕ → List Slave → ℕ → ℕ
unfolding get_successor
successors zero l i = i
successors (suc n) l i = get_successor l (successors n l i)

get_elem?-beyond : (l : List Slave) (i : ℕ) → length l ≤ i → get_elem? l i ≡ none
get_elem?-beyond [] i h = refl
get_elem?-beyond (c ∷ l) zero h = absurd (omega arith)
get_elem?-beyond (c ∷ l) (suc i) h = get_elem?-beyond l i (omega arith)

get_successor_cases :
    (l : List Slave) (i : ℕ)
    → i < length l
    → ((i + 1 < length l) × (get_successor l i ≡ i + 1))
      ⊎ ((i + 1 ≡ length l) × (get_successor l i ≡ 0))
unfolding get_successor
get_successor_cases l i h = elim (Bool-cases (ltb (i + 1) (length l))) [
  | inl more ↦
      let (s, e) = get_elem?-lt l (i + 1) (ground arith) in inl (ground arith, ground arith)
  | inr last ↦ let e = get_elem?-beyond l (i + 1) (ground arith) in inr (ground arith, ground arith)
]

successors_cases :
    (n : ℕ) (l : List Slave) (i : ℕ)
    → i < length l
    → n ≤ length l
    → ((i + n < length l) × (successors n l i ≡ i + n))
      ⊎ ((length l ≤ i + n) × (successors n l i + length l ≡ i + n))
unfolding successors
successors_cases zero l i h k = inl (omega arith, omega arith)
successors_cases (suc n) l i h k =
    ground (arith, successors_cases n l i h, get_successor_cases l (successors n l i))

-- From any slave of a ring of n slaves, following tpcmaster_get_successor less than n times meets
-- distinct slaves, and n times leads back to the start.
pub successors-distinct :
    (l : List Slave) (i : ℕ)
    → i < length l
    → ((a b : ℕ) → a < b → b < length l → successors a l i ≢ successors b l i)
      × (successors (length l) l i ≡ i)
successors-distinct l i h = (
  λ a b p q e. ground (arith, successors_cases a l i h, successors_cases b l i h),
  ground (arith, successors_cases (length l) l i h),
)
