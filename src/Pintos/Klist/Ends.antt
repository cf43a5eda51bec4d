-- ===== src/Pintos/Klist/Ends.antt =====
-- The ends of a list: what `list_init`, the pushes and the pops do to the sequence of the elements.
use group.Shared.{
  ℕ, ◌≡◌, ◌≢◌, inl, inr, refl, sym, ap, ◌∙◌, false, some, List, [], ◌∷◌, ◌++◌, ◌==◌, arith,
}
use mathlib.Core.Path.{subst}
use group.Pintos.Threads.Scheduled.{In}
use group.Pintos.Klist.{
  Links, ListRef, insert, push_back, push_front, first, init, set_next, set_prev, front, is_empty,
  pop_front, pop_back, back,
}
use group.Pintos.Klist.Chain.{Chain, back_place}
use group.Pintos.Klist.Sequence.{nodes, Holds, place}
use group.Pintos.Klist.Refines.{Others, insert-Holds, remove-Holds, follower_nonzero, whole_at}

pub push_back-Holds :
    (s : Links) (l : ListRef) (xs : List ℕ) (e : ℕ)
    → Holds s l xs
    → e ≢ 0
    → (In e (nodes l xs) → ⊥)
    → (s' : Links) × (push_back s l e ≡ some s')
      × Holds s' l (xs ++ e ∷ [])
      × Others s s' (e ∷ nodes l xs)
unfolding push_back
push_back-Holds s l xs e h z n =
    let none_after : xs ++ [] ≡ xs = append_nil xs in
    let (s', q, h', o) =
      insert-Holds s l xs [] e (subst (Holds s l) (sym none_after) h) z
        (subst (λ t. In e (nodes l t) → ⊥) (sym none_after) n) in
    (s', q, h', subst (λ t. Others s s' (e ∷ nodes l t)) none_after o)
  where
    append_nil : (xs : List ℕ) → xs ++ [] ≡ xs
    append_nil [] = refl
    append_nil (x ∷ xs) = ap (λ t. x ∷ t) (append_nil xs)

pub first_place : (s : Links) (l : ListRef) (xs : List ℕ) → Holds s l xs → first s l ≡ place l xs
unfolding first
first_place s l [] h = h.chain.0
first_place s l (x ∷ xs) h = h.chain.0

pub push_front-Holds :
    (s : Links) (l : ListRef) (xs : List ℕ) (e : ℕ)
    → Holds s l xs
    → e ≢ 0
    → (In e (nodes l xs) → ⊥)
    → (s' : Links) × (push_front s l e ≡ some s')
      × Holds s' l (e ∷ xs)
      × Others s s' (e ∷ nodes l xs)
unfolding push_front
push_front-Holds s l xs e h z n =
    let (s', q, h', o) = insert-Holds s l [] xs e h z n in
    (s', ap (λ c. insert s c e) (first_place s l xs h) ∙ q, h', o)

pub init-Holds :
    (s : Links) (l : ListRef) → l.head ≢ 0 → l.tail ≢ 0 → l.tail ≢ l.head → Holds (init s l) l []
unfolding init set_next set_prev
init-Holds s l p q r = record {
  chain = (ground (arith, r), ground (arith, r), tt);
  distinct = (λ n. elim n [ inl e ↦ r e | inr b ↦ elim b [ ] ], ((λ n. elim n [ ]), tt));
  start = ground (arith, r);
  finish = ground (arith, r);
  nonzero = λ n. elim n [ inl e ↦ p e | inr (inl e) ↦ q e | inr (inr b) ↦ elim b [ ] ];
}

-- The first element of a list that is not empty is not the tail.
pub not_tail :
    (s : Links) (l : ListRef) (xs : List ℕ) (y : ℕ) (ys : List ℕ)
    → Holds s l (xs ++ y ∷ ys)
    → (y == l.tail) ≡ false
not_tail s l xs y ys h = differ (λ q. follower (ap s.next q ∙ h.finish))
  where
    differ : (y ≡ l.tail → ⊥) → (y == l.tail) ≡ false
    differ f = ground (arith, f)

    follower : s.next y ≡ 0 → ⊥
    follower = follower_nonzero s l xs ys y h

front_lem :
    (s : Links) (l : ListRef) (e : ℕ) (xs : List ℕ) → Holds s l (e ∷ xs) → front s l ≡ some e
unfolding front is_empty first
front_lem s l e xs h =
    let full : (s.next l.head == l.tail) ≡ false =
      ap (λ c. c == l.tail) h.chain.0 ∙ not_tail s l [] e xs h in
    rw (front, full) (ap some h.chain.0)

pub pop_front-Holds :
    (s : Links) (l : ListRef) (e : ℕ) (xs : List ℕ)
    → Holds s l (e ∷ xs)
    → (s' : Links) × (pop_front s l ≡ some (e, s')) × Holds s' l xs × Others s s' (nodes l (e ∷ xs))
unfolding pop_front
pop_front-Holds s l e xs h =
    let (s', q, h', o) = remove-Holds s l [] xs e h in
    (s', rw (pop_front, front_lem s l e xs h, q) refl, h', o)

-- The element before the tail.
back_lem :
    (s : Links) (l : ListRef) (xs : List ℕ) (e : ℕ) → Holds s l (xs ++ e ∷ []) → back s l ≡ some e
unfolding back is_empty first
back_lem s l xs e h =
    let full : (s.next l.head == l.tail) ≡ false =
      ap (λ c. c == l.tail) (first_place s l (xs ++ e ∷ []) h) ∙ some_left xs h in
    let prior : s.prev l.tail ≡ e =
      back_place s l.head xs e l.tail [] (subst (Chain s l.head) (whole_at l xs [] e) h.chain) in
    rw (back, full) (ap some prior)
  where
    some_left :
        (xs : List ℕ) → Holds s l (xs ++ e ∷ []) → (place l (xs ++ e ∷ []) == l.tail) ≡ false
    some_left [] h = not_tail s l [] e [] h
    some_left (x ∷ xs) h = not_tail s l [] x (xs ++ e ∷ []) h

pub pop_back-Holds :
    (s : Links) (l : ListRef) (xs : List ℕ) (e : ℕ)
    → Holds s l (xs ++ e ∷ [])
    → (s' : Links) × (pop_back s l ≡ some (e, s'))
      × Holds s' l (xs ++ [])
      × Others s s' (nodes l (xs ++ e ∷ []))
unfolding pop_back
pop_back-Holds s l xs e h =
    let (s', q, h', o) = remove-Holds s l xs [] e h in
    (s', rw (pop_back, back_lem s l xs e h, q) refl, h', o)
