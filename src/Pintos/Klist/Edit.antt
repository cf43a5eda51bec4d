-- ===== src/Pintos/Klist/Edit.antt =====
-- An element comes in before another one, and an element leaves.
use group.Shared.{ℕ, ◌≡◌, ◌≢◌, inl, inr, refl, sym, ap, ◌∙◌, List, [], ◌∷◌, ◌++◌, arith}
use mathlib.Core.Path.{subst}
use group.Pintos.Threads.Scheduled.{In, IsDistinct}
use group.Pintos.Klist.{Links, link_before, unlink}
use group.Pintos.Klist.Chain.{
  Chain, frame, In-middle, In-right, after_place, first_apart, link_next, link_prev, unlink_next,
  unlink_prev,
}

-- What the assignments of `list_insert` leave.
module _ (s : Links) (y e : ℕ) where
  pub next_kept : (c : ℕ) → c ≢ s.prev y → c ≢ e → (link_before s y e).next c ≡ s.next c
  next_kept c p q = link_next s y e c ∙ ground (arith, p, q)

  pub prev_kept : (c : ℕ) → c ≢ y → c ≢ e → (link_before s y e).prev c ≡ s.prev c
  prev_kept c p q = link_prev s y e c ∙ ground (arith, p, q)

  next_before : (link_before s y e).next (s.prev y) ≡ e
  next_before = link_next s y e (s.prev y) ∙ ground arith

  next_new : e ≢ s.prev y → (link_before s y e).next e ≡ y
  next_new p = link_next s y e e ∙ ground (arith, p)

  prev_new : e ≢ y → (link_before s y e).prev e ≡ s.prev y
  prev_new p = link_prev s y e e ∙ ground (arith, p)

  prev_after : (link_before s y e).prev y ≡ e
  prev_after = link_prev s y e y ∙ ground arith

pub link_before-Chain :
    (s : Links) (a : ℕ) (p : List ℕ) (y : ℕ) (r : List ℕ) (e : ℕ)
    → Chain s a (p ++ y ∷ r)
    → IsDistinct (a ∷ p ++ y ∷ r)
    → (In e (a ∷ p ++ y ∷ r) → ⊥)
    → Chain (link_before s y e) a (p ++ e ∷ y ∷ r)
link_before-Chain s a [] y r e (h, q, t) (d, (d', d'')) n =
    let fresh : e ≢ s.prev y = λ z. n (inl (sym (z ∙ q))) in
    (
      ap (link_before s y e).next (sym q) ∙ next_before s y e,
      prev_new s y e (λ z. n (inr (inl (sym z)))) ∙ q,
      (
        next_new s y e fresh,
        prev_after s y e,
        frame s (link_before s y e) y r
            (λ c m.
              next_kept s y e c (λ z. d (subst (λ x. In x (y ∷ r)) (z ∙ q) m))
                (λ z. n (inr (subst (λ x. In x (y ∷ r)) z m))))
            (λ c m.
              prev_kept s y e c (λ z. d' (subst (λ x. In x r) z m))
                (λ z. n (inr (inr (subst (λ x. In x r) z m)))))
            t,
      ),
    )
link_before-Chain s a (x ∷ p) y r e (h, q, t) (d, (d', d'')) n = (
  next_kept s y e a (first_apart s a x p y r t d) (λ z. n (inl z)) ∙ h,
  prev_kept s y e x (λ z. d' (subst (λ c. In c (p ++ y ∷ r)) (sym z) (In-middle p y r)))
        (λ z. n (inr (inl z)))
      ∙ q,
  link_before-Chain s x p y r e t (d', d'') (λ m. n (inr m)),
)

module _ (s : Links) (e : ℕ) where
  pub next_stays : (c : ℕ) → c ≢ s.prev e → (unlink s e).next c ≡ s.next c
  next_stays c p = unlink_next s e c ∙ ground (arith, p)

  pub prev_stays : (c : ℕ) → c ≢ s.next e → (unlink s e).prev c ≡ s.prev c
  prev_stays c p = unlink_prev s e c ∙ ground (arith, p)

  pub next_self : (unlink s e).next e ≡ s.next e
  next_self = unlink_next s e e ∙ ground arith

  next_over : (unlink s e).next (s.prev e) ≡ s.next e
  next_over = unlink_next s e (s.prev e) ∙ ground arith

  prev_over : (unlink s e).prev (s.next e) ≡ s.prev e
  prev_over = unlink_prev s e (s.next e) ∙ ground arith

pub unlink-Chain :
    (s : Links) (a : ℕ) (p : List ℕ) (e y : ℕ) (r : List ℕ)
    → Chain s a (p ++ e ∷ y ∷ r)
    → IsDistinct (a ∷ p ++ e ∷ y ∷ r)
    → Chain (unlink s e) a (p ++ y ∷ r)
unlink-Chain s a [] e y r (h, q, (f, g, t)) (d, (d', (d'', d'''))) = (
  ap (unlink s e).next (sym q) ∙ next_over s e ∙ f,
  ap (unlink s e).prev (sym f) ∙ prev_over s e ∙ q,
  frame s (unlink s e) y r
      (λ c m. next_stays s e c (λ z. d (inr (subst (λ x. In x (y ∷ r)) (z ∙ q) m))))
      (λ c m. prev_stays s e c (λ z. d'' (subst (λ x. In x r) (z ∙ f) m))) t,
)
unlink-Chain s a (x ∷ p) e y r (h, q, t) (d, (d', d'')) =
    let f = after_place s x p e y r t in
    (
      next_stays s e a (first_apart s a x p e (y ∷ r) t d) ∙ h,
      prev_stays s e x (λ z. d' (
            subst (λ c. In c (p ++ e ∷ y ∷ r)) (sym (z ∙ f))
              (In-right y p (e ∷ y ∷ r) (inr (inl refl)))))
          ∙ q,
      unlink-Chain s x p e y r t (d', d''),
    )
