-- ===== src/Pintos/Klist/Chain.antt =====
-- Elements that are linked one after the other.
use group.Shared.{
  ℕ, ◌≡◌, ◌≢◌, ◌⊎◌, inl, inr, refl, sym, ap, ◌∙◌, List, [], ◌∷◌, ◌++◌, ◌==◌, if◌then◌else◌, arith,
}
use mathlib.Core.Path.{subst}
use group.Pintos.Threads.Scheduled.{In, IsDistinct}
use group.Pintos.Klist.{Links, link_before, unlink}

-- From an element on, each is linked to the next one and back.
abbrev pub Chain : Links → ℕ → List ℕ → Type 0
Chain s a [] = Unit
Chain s a (b ∷ l) = (s.next a ≡ b) × (s.prev b ≡ a) × Chain s b l

pub frame :
    (s s' : Links) (a : ℕ) (l : List ℕ)
    → ((c : ℕ) → In c (a ∷ l) → s'.next c ≡ s.next c)
    → ((c : ℕ) → In c l → s'.prev c ≡ s.prev c)
    → Chain s a l
    → Chain s' a l
frame s s' a [] f g c = tt
frame s s' a (b ∷ l) f g (p, q, r) = (
  f a (inl refl) ∙ p,
  g b (inl refl) ∙ q,
  frame s s' b l (λ c n. f c (inr n)) (λ c n. g c (inr n)) r,
)

pub In-left : (c : ℕ) (p r : List ℕ) → In c p → In c (p ++ r)
In-left c [] r n = elim n [ ]
In-left c (x ∷ p) r (inl q) = inl q
In-left c (x ∷ p) r (inr n) = inr (In-left c p r n)

pub In-middle : (p : List ℕ) (y : ℕ) (r : List ℕ) → In y (p ++ y ∷ r)
In-middle [] y r = inl refl
In-middle (x ∷ p) y r = inr (In-middle p y r)

pub In-right : (c : ℕ) (p r : List ℕ) → In c r → In c (p ++ r)
In-right c [] r n = n
In-right c (x ∷ p) r n = inr (In-right c p r n)

-- The element before a place.
pub before_place :
    (s : Links) (a : ℕ) (p : List ℕ) (y : ℕ) (r : List ℕ)
    → Chain s a (p ++ y ∷ r)
    → (s.prev y ≡ a) ⊎ In (s.prev y) p
before_place s a [] y r (h, q, t) = inl q
before_place s a (x ∷ p) y r (h, q, t) = elim (before_place s x p y r t) [
  | inl e ↦ inr (inl (sym e))
  | inr n ↦ inr (inr n)
]

pub after_place :
    (s : Links) (a : ℕ) (p : List ℕ) (e y : ℕ) (r : List ℕ)
    → Chain s a (p ++ e ∷ y ∷ r)
    → s.next e ≡ y
after_place s a [] e y r (h, q, (t, _, _)) = t
after_place s a (x ∷ p) e y r (h, q, t) = after_place s x p e y r t

pub back_place :
    (s : Links) (a : ℕ) (p : List ℕ) (e y : ℕ) (r : List ℕ)
    → Chain s a (p ++ e ∷ y ∷ r)
    → s.prev y ≡ e
back_place s a [] e y r (h, q, (t, u, _)) = u
back_place s a (x ∷ p) e y r (h, q, t) = back_place s x p e y r t

pub next_prev :
    (s : Links) (a : ℕ) (p : List ℕ) (y : ℕ) (r : List ℕ)
    → Chain s a (p ++ y ∷ r)
    → s.next (s.prev y) ≡ y
next_prev s a [] y r (h, q, t) = ap s.next q ∙ h
next_prev s a (x ∷ p) y r (h, q, t) = next_prev s x p y r t

pub In-insert :
    (c : ℕ) (p : List ℕ) (e : ℕ) (t : List ℕ) → In c (p ++ e ∷ t) → (e ≡ c) ⊎ In c (p ++ t)
In-insert c [] e t n = n
In-insert c (x ∷ p) e t (inl q) = inr (inl q)
In-insert c (x ∷ p) e t (inr n) = elim (In-insert c p e t n) [ inl q ↦ inl q | inr m ↦ inr (inr m) ]

pub In-widen : (c : ℕ) (p : List ℕ) (e : ℕ) (t : List ℕ) → In c (p ++ t) → In c (p ++ e ∷ t)
In-widen c [] e t n = inr n
In-widen c (x ∷ p) e t (inl q) = inl q
In-widen c (x ∷ p) e t (inr n) = inr (In-widen c p e t n)

pub insert-IsDistinct :
    (p : List ℕ) (e : ℕ) (t : List ℕ)
    → IsDistinct (p ++ t)
    → (In e (p ++ t) → ⊥)
    → IsDistinct (p ++ e ∷ t)
insert-IsDistinct [] e t d n = (n, d)
insert-IsDistinct (x ∷ p) e t (d, d') n = (
  λ m. elim (In-insert x p e t m) [ inl q ↦ n (inl (sym q)) | inr k ↦ d k ],
  insert-IsDistinct p e t d' (λ m. n (inr m)),
)

pub delete-IsDistinct :
    (p : List ℕ) (e : ℕ) (t : List ℕ) → IsDistinct (p ++ e ∷ t) → IsDistinct (p ++ t)
delete-IsDistinct [] e t (d, d') = d'
delete-IsDistinct (x ∷ p) e t (d, d') = (λ m. d (In-widen x p e t m), delete-IsDistinct p e t d')

-- The first of two or more elements is not the one before a later place.
pub first_apart :
    (s : Links) (a x : ℕ) (p : List ℕ) (y : ℕ) (r : List ℕ)
    → Chain s x (p ++ y ∷ r)
    → (In a (x ∷ p ++ y ∷ r) → ⊥)
    → a ≢ s.prev y
first_apart s a x p y r t d e = elim (before_place s x p y r t) [
  | inl q ↦ d (inl (sym (e ∙ q)))
  | inr n ↦ d (inr (In-left a p (y ∷ r) (subst (λ c. In c p) (sym e) n)))
]

pub link_next :
    (s : Links) (y e c : ℕ)
    → (link_before s y e).next c ≡ (if c == s.prev y then e else if c == e then y else s.next c)
unfolding link_before
link_next s y e c = ground arith

pub link_prev :
    (s : Links) (y e c : ℕ)
    → (link_before s y e).prev c ≡ (if c == y then e else if c == e then s.prev y else s.prev c)
unfolding link_before
link_prev s y e c = ground arith

pub unlink_next :
    (s : Links) (e c : ℕ) → (unlink s e).next c ≡ (if c == s.prev e then s.next e else s.next c)
unfolding unlink
unlink_next s e c = ground arith

pub unlink_prev :
    (s : Links) (e c : ℕ) → (unlink s e).prev c ≡ (if c == s.next e then s.prev e else s.prev c)
unfolding unlink
unlink_prev s e c = ground arith
