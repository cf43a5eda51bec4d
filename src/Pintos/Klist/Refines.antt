-- ===== src/Pintos/Klist/Refines.antt =====
-- `list_insert` and `list_remove` on the sequence of the elements.
use group.Shared.{
  ℕ, ◌≡◌, ◌≢◌, ◌⊎◌, inl, inr, refl, sym, ap, ◌∙◌, true, false, some, List, [], ◌∷◌, ◌++◌, ◌==◌,
  arith,
}
use mathlib.Core.Path.{subst}
use group.Pintos.Threads.Scheduled.{In, IsDistinct}
use group.Pintos.Klist.{Links, ListRef, link_before, unlink, is_interior, insert, remove}
use group.Pintos.Klist.Chain.{
  Chain, In-right, after_place, In-insert, In-widen, insert-IsDistinct, delete-IsDistinct,
}
use group.Pintos.Klist.Edit.{
  link_before-Chain, unlink-Chain, next_kept, prev_kept, next_stays, prev_stays, next_self,
}
use group.Pintos.Klist.Sequence.{
  with_tail, nodes, Holds, place, rest, split, has_before, interior, tail-In, Apart, frame-Holds,
  chain_at, IsDistinct-at, In-nodes, place-In, prev-In, place_nonzero, prev_nonzero, head_apart,
  tail_apart,
}

-- Every list that is apart from the elements stays as it is.
abbrev pub Others : Links → Links → List ℕ → Type 0
Others s s' changed =
    (l : ListRef) (zs : List ℕ) → Holds s l zs → Apart l zs changed → Holds s' l zs

-- On a list whose elements between the two sentinels are a sequence of two parts (all linked both
-- ways, distinct and not NULL), list_insert of an element that is not NULL and not in the list,
-- before the first element of the second part or before the tail if that part is empty, fails no
-- ASSERT, and the list then has the new element between the two parts; every other list that has
-- no element in common with this one and the new element stays as it is.
pub insert-Holds :
    (s : Links) (l : ListRef) (xs ys : List ℕ) (e : ℕ)
    → Holds s l (xs ++ ys)
    → e ≢ 0
    → (In e (nodes l (xs ++ ys)) → ⊥)
    → (s' : Links) × (insert s (place l ys) e ≡ some s')
      × Holds s' l (xs ++ e ∷ ys)
      × Others s s' (e ∷ nodes l (xs ++ ys))
unfolding insert
insert-Holds s l xs ys e h z n =
    let y = place l ys in
    let r = rest l ys in
    let s' = link_before s y e in
    let fresh : In e (l.head ∷ xs ++ y ∷ r) → ⊥ = λ m. n (In-nodes s l xs ys h e m) in
    let is_place = has_before s y (place_nonzero s l xs ys h) (prev_nonzero s l xs ys h) in
    let all = split l xs (e ∷ ys) ∙ ap (λ t. xs ++ e ∷ t) (split l [] ys) in
    (
      s',
      rw (insert, is_place, nonzero_test e z) refl,
      record {
        chain = subst (Chain s' l.head) (sym all) (
            link_before-Chain s l.head xs y r e (chain_at s l xs ys h) (IsDistinct-at s l xs ys h)
              fresh);
        distinct =
            subst (λ t. IsDistinct (l.head ∷ t)) (sym all)
              (insert-IsDistinct (l.head ∷ xs) e (y ∷ r) (IsDistinct-at s l xs ys h) fresh);
        start = prev_kept s y e l.head (head_apart s l xs ys h) (λ q. n (inl q)) ∙ h.start;
        finish =
            next_kept s y e l.tail (tail_apart s l xs ys h)
              (λ q. n (inr (subst (λ c. In c (with_tail l (xs ++ ys))) q (tail-In l (xs ++ ys)))))
            ∙ h.finish;
        nonzero = λ m.
            nil e z (xs ++ ys) h.nonzero
              (In-insert 0 (l.head ∷ xs) e (y ∷ r) (subst (λ t. In 0 (l.head ∷ t)) all m))
              (In-nodes s l xs ys h 0);
      },
      λ l2 zs h2 a.
          frame-Holds s s' l2 zs (e ∷ nodes l (xs ++ ys))
            (λ c out. (
              next_kept s y e c
                  (λ q.
                    out
                      (inr (subst (λ x. In x (nodes l (xs ++ ys))) (sym q) (prev-In s l xs ys h))))
                  (λ q. out (inl (sym q))),
              prev_kept s y e c
                  (λ q.
                    out
                      (inr (subst (λ x. In x (nodes l (xs ++ ys))) (sym q) (place-In s l xs ys h))))
                  (λ q. out (inl (sym q))),
            ))
            h2 a,
    )
  where
    nonzero_test : (e : ℕ) → e ≢ 0 → (e == 0) ≡ false
    nonzero_test e z = ground (arith, z)

    nil :
        (e : ℕ)
        → e ≢ 0
        → (zs : List ℕ) → (In 0 (nodes l zs) → ⊥)
        → (e ≡ 0) ⊎ In 0 (l.head ∷ xs ++ place l ys ∷ rest l ys)
        → (In 0 (l.head ∷ xs ++ place l ys ∷ rest l ys) → In 0 (nodes l zs))
        → ⊥
    nil e z zs k (inl q) f = z q
    nil e z zs k (inr m) f = k (f m)

pub whole_at :
    (l : ListRef) (xs ys : List ℕ) (e : ℕ)
    → with_tail l (xs ++ e ∷ ys) ≡ xs ++ e ∷ place l ys ∷ rest l ys
whole_at l xs ys e = split l xs (e ∷ ys) ∙ ap (λ t. xs ++ e ∷ t) (split l [] ys)

-- An element is followed by the next one of the sequence, or the tail.
pub follower :
    (s : Links) (l : ListRef) (xs ys : List ℕ) (e : ℕ)
    → Holds s l (xs ++ e ∷ ys)
    → s.next e ≡ place l ys
follower s l xs ys e h =
    after_place s l.head xs e (place l ys) (rest l ys)
      (subst (Chain s l.head) (whole_at l xs ys e) h.chain)

follower-In : (l : ListRef) (xs ys : List ℕ) (e : ℕ) → In (place l ys) (nodes l (xs ++ e ∷ ys))
follower-In l xs ys e =
    subst (λ t. In (place l ys) (l.head ∷ t)) (sym (whole_at l xs ys e))
      (inr (In-right (place l ys) xs (e ∷ place l ys ∷ rest l ys) (inr (inl refl))))

pub follower_nonzero :
    (s : Links) (l : ListRef) (xs ys : List ℕ) (e : ℕ) → Holds s l (xs ++ e ∷ ys) → s.next e ≢ 0
follower_nonzero s l xs ys e h q = h.nonzero (
    subst (λ c. In c (nodes l (xs ++ e ∷ ys))) (sym (follower s l xs ys e h) ∙ q)
      (follower-In l xs ys e))

pub element-interior :
    (s : Links) (l : ListRef) (xs ys : List ℕ) (e : ℕ)
    → Holds s l (xs ++ e ∷ ys)
    → is_interior s e ≡ true
element-interior s l xs ys e h =
    interior s e (place_nonzero s l xs (e ∷ ys) h) (prev_nonzero s l xs (e ∷ ys) h)
      (follower_nonzero s l xs ys e h)

-- On a list whose elements between the two sentinels are a sequence, list_remove of one of them
-- fails no ASSERT and returns the one behind it, or the tail; the list then has the others in
-- their order, and every other list that has no element in common with this one stays as it is.
pub remove-Holds :
    (s : Links) (l : ListRef) (xs ys : List ℕ) (e : ℕ)
    → Holds s l (xs ++ e ∷ ys)
    → (s' : Links) × (remove s e ≡ some (place l ys, s'))
      × Holds s' l (xs ++ ys)
      × Others s s' (nodes l (xs ++ e ∷ ys))
unfolding remove
remove-Holds s l xs ys e h =
    let y = place l ys in
    let r = rest l ys in
    let s' = unlink s e in
    let whole = whole_at l xs ys e in
    let chain = subst (Chain s l.head) whole h.chain in
    let distinct = subst (λ t. IsDistinct (l.head ∷ t)) whole h.distinct in
    let follows = follower s l xs ys e h in
    let y_in = follower-In l xs ys e in
    let test = element-interior s l xs ys e h in
    let after : s'.next e ≡ y = next_self s e ∙ follows in
    (
      s',
      rw (remove, test) (ap (λ c. some (c, s')) after),
      record {
        chain =
            subst (Chain s' l.head) (sym (split l xs ys))
              (unlink-Chain s l.head xs e y r chain distinct);
        distinct =
            subst (λ t. IsDistinct (l.head ∷ t)) (sym (split l xs ys))
              (delete-IsDistinct (l.head ∷ xs) e (y ∷ r) distinct);
        start =
            prev_stays s e l.head (λ q. distinct.0 (
              subst (λ c. In c (xs ++ e ∷ y ∷ r)) (sym (q ∙ follows))
                (In-right y xs (e ∷ y ∷ r) (inr (inl refl)))))
            ∙ h.start;
        finish = next_stays s e l.tail (tail_apart s l xs (e ∷ ys) h) ∙ h.finish;
        nonzero = λ m. h.nonzero (
            subst (λ t. In 0 (l.head ∷ t)) (sym whole)
              (In-widen 0 (l.head ∷ xs) e (y ∷ r)
                (subst (λ t. In 0 (l.head ∷ t)) (split l xs ys) m)));
      },
      λ l2 zs h2 a.
          frame-Holds s s' l2 zs (nodes l (xs ++ e ∷ ys))
            (λ c out. (
              next_stays s e c (λ q.
                  out (
                    subst (λ x. In x (nodes l (xs ++ e ∷ ys))) (sym q)
                      (prev-In s l xs (e ∷ ys) h))),
              prev_stays s e c
                  (λ q. out (subst (λ x. In x (nodes l (xs ++ e ∷ ys))) (sym (q ∙ follows)) y_in)),
            ))
            h2 a,
    )
