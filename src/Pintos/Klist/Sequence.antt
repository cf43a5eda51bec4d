-- ===== src/Pintos/Klist/Sequence.antt =====
-- A list holds the sequence of its elements, between its two sentinels.
use group.Shared.{ℕ, ◌≡◌, ◌≢◌, inl, inr, refl, sym, ap, ◌∙◌, true, ◌||◌, List, [], ◌∷◌, ◌++◌, arith}
use mathlib.Core.Path.{subst}
use group.Pintos.Threads.Scheduled.{In, IsDistinct}
use group.Pintos.Klist.{Links, ListRef, is_interior, is_tail}
use group.Pintos.Klist.Chain.{Chain, frame, In-left, In-middle, before_place, next_prev}

-- The elements with the tail, and with the head too.
abbrev pub with_tail : ListRef → List ℕ → List ℕ
with_tail l [] = l.tail ∷ []
with_tail l (x ∷ xs) = x ∷ with_tail l xs

abbrev pub nodes : ListRef → List ℕ → List ℕ
nodes l xs = l.head ∷ with_tail l xs

pub record Holds (s : Links) (l : ListRef) (xs : List ℕ) : Type 0 where
  pub chain : Chain s l.head (with_tail l xs)
  pub distinct : IsDistinct (nodes l xs)
  pub start : s.prev l.head ≡ 0
  pub finish : s.next l.tail ≡ 0
  pub nonzero : In 0 (nodes l xs) → ⊥

-- The element that a sequence starts with, or the tail.
abbrev pub place : ListRef → List ℕ → ℕ
place l [] = l.tail
place l (y ∷ ys) = y

abbrev pub rest : ListRef → List ℕ → List ℕ
rest l [] = []
rest l (y ∷ ys) = with_tail l ys

pub split : (l : ListRef) (xs ys : List ℕ) → with_tail l (xs ++ ys) ≡ xs ++ place l ys ∷ rest l ys
split l [] [] = refl
split l [] (y ∷ ys) = refl
split l (x ∷ xs) ys = ap (λ t. x ∷ t) (split l xs ys)

pub has_before :
    (s : Links) (y : ℕ) → y ≢ 0 → s.prev y ≢ 0 → (is_interior s y || is_tail s y) ≡ true
unfolding is_interior is_tail
has_before s y p q = ground (arith, p, q)

pub interior : (s : Links) (y : ℕ) → y ≢ 0 → s.prev y ≢ 0 → s.next y ≢ 0 → is_interior s y ≡ true
unfolding is_interior
interior s y p q r = ground (arith, p, q, r)

pub tail-In : (l : ListRef) (xs : List ℕ) → In l.tail (with_tail l xs)
tail-In l [] = inl refl
tail-In l (x ∷ xs) = inr (tail-In l xs)

-- No element of the one list is one of the other, or the new one.
abbrev pub Apart : ListRef → List ℕ → List ℕ → Type 0
Apart l zs others = (c : ℕ) → In c (nodes l zs) → In c others → ⊥

-- Lists that are apart from what changes stay.
pub frame-Holds :
    (s s' : Links) (l : ListRef) (zs others : List ℕ)
    → ((c : ℕ) → (In c others → ⊥) → (s'.next c ≡ s.next c) × (s'.prev c ≡ s.prev c))
    → Holds s l zs
    → Apart l zs others
    → Holds s' l zs
frame-Holds s s' l zs others f h a = record {
  chain =
      frame s s' l.head (with_tail l zs) (λ c n. (f c (a c n)).0) (λ c n. (f c (a c (inr n))).1)
        h.chain;
  distinct = h.distinct;
  start = (f l.head (a l.head (inl refl))).1 ∙ h.start;
  finish = (f l.tail (a l.tail (inr (tail-In l zs)))).0 ∙ h.finish;
  nonzero = h.nonzero;
}

-- A place of a list: the element before it is in the list, and so it is no sentinel's NULL.
module _ (s : Links) (l : ListRef) (xs ys : List ℕ) (h : Holds s l (xs ++ ys)) where
  pub chain_at : Chain s l.head (xs ++ place l ys ∷ rest l ys)
  chain_at = subst (Chain s l.head) (split l xs ys) h.chain

  pub IsDistinct-at : IsDistinct (l.head ∷ xs ++ place l ys ∷ rest l ys)
  IsDistinct-at = subst (λ t. IsDistinct (l.head ∷ t)) (split l xs ys) h.distinct

  pub In-nodes : (c : ℕ) → In c (l.head ∷ xs ++ place l ys ∷ rest l ys) → In c (nodes l (xs ++ ys))
  In-nodes c n = subst (λ t. In c (l.head ∷ t)) (sym (split l xs ys)) n

  pub place-In : In (place l ys) (nodes l (xs ++ ys))
  place-In = In-nodes (place l ys) (inr (In-middle xs (place l ys) (rest l ys)))

  pub prev-In : In (s.prev (place l ys)) (nodes l (xs ++ ys))
  prev-In = elim (before_place s l.head xs (place l ys) (rest l ys) chain_at) [
    | inl q ↦ inl (sym q)
    | inr n ↦
        In-nodes (s.prev (place l ys))
          (inr (In-left (s.prev (place l ys)) xs (place l ys ∷ rest l ys) n))
  ]

  pub place_nonzero : place l ys ≢ 0
  place_nonzero z = h.nonzero (subst (λ c. In c (nodes l (xs ++ ys))) z place-In)

  pub prev_nonzero : s.prev (place l ys) ≢ 0
  prev_nonzero z = h.nonzero (subst (λ c. In c (nodes l (xs ++ ys))) z prev-In)

  pub head_apart : l.head ≢ place l ys
  head_apart z = IsDistinct-at.0 (
      subst (λ c. In c (xs ++ place l ys ∷ rest l ys)) (sym z)
        (In-middle xs (place l ys) (rest l ys)))

  pub tail_apart : l.tail ≢ s.prev (place l ys)
  tail_apart z =
      place_nonzero (
        sym (next_prev s l.head xs (place l ys) (rest l ys) chain_at)
        ∙ ap s.next (sym z)
        ∙ h.finish)
