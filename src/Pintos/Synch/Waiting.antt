-- ===== src/Pintos/Synch/Waiting.antt =====
-- Semaphores keep the kernel valid and their waiters blocked, in the order in which they came.
use group.Shared.{
  ℕ, ◌+◌, ◌-◌, ◌^◌, ◌<◌, ◌≡◌, ◌≢◌, ◌⊎◌, inl, inr, refl, sym, ◌∙◌, true, false, some, List, [], ◌∷◌,
  ◌++◌, ◌==◌, arith,
}
use mathlib.Core.Path.{subst}
use native.Mathlib.Nat.{mod-eq_of_lt}
use group.Pintos.Threads.{blocked, Kernel, unblock}
use group.Pintos.Threads.Scheduled.{In, IsDistinct, status, IsScheduled}
use group.Pintos.Threads.Leave.{In-append, append-IsDistinct, block-Switches, block-blocked}
use group.Pintos.Threads.Wake.{running-blocked, unblock-IsScheduled, unblock-blocked}
use group.Pintos.Synch.{Semaphore, sema_down_round, sema_up}

-- The waiters are blocked, each is one once, and none is the idle thread.
pub record IsWaiting (i : ℕ) (k : Kernel) (l : List ℕ) : Type 0 where
  pub asleep : (t : ℕ) → In t l → (status k t ≡ some blocked) × (t ≢ i)
  pub distinct : IsDistinct l

-- On a valid kernel whose running thread is not the idle one, for a semaphore whose waiters are
-- blocked, distinct and not idle, a test of the loop of sema_down takes one from a positive value
-- and leaves the loop; on 0 it fails no ASSERT, the running thread becomes the last waiter and
-- blocks, and the kernel stays valid and all waiters are blocked.
pub sema_down_round-IsWaiting :
    (i : ℕ) (k : Kernel) (s : Semaphore)
    → IsScheduled i k
    → IsWaiting i k s.waiters
    → k.current ≢ i
    → (0 < s.value → sema_down_round k s ≡ (true, some k, record s { value = s.value - 1 }))
      × (s.value ≡ 0
          → (k' : Kernel) × (sema_down_round k s
              ≡ (false, some k', record s { waiters = s.waiters ++ k.current ∷ [] }))
            × IsScheduled i k'
            × IsWaiting i k' (s.waiters ++ k.current ∷ []))
unfolding sema_down_round
sema_down_round-IsWaiting i k s v w h = (
  λ p. ground arith,
  λ z.
      let (k', e, v', m) = block-Switches i k v in
      let test : (s.value == 0) ≡ true = ground arith in
      (
        k',
        rw (sema_down_round, test, e) refl,
        v',
        record {
          asleep = λ t n. elim (In-append t s.waiters (k.current ∷ []) n) [
            | inl y ↦ (
              block-blocked i k v t k' e (w.asleep t y).1 (inl (w.asleep t y).0),
              (w.asleep t y).1,
            )
            | inr (inl y) ↦
                let other : t ≢ i = λ q. h (y ∙ q) in
                (block-blocked i k v t k' e other (inr (sym y)), other)
            | inr (inr y) ↦ absurd y
          ];
          distinct =
              append-IsDistinct k.current s.waiters
                (λ n. running-blocked (sym v.current ∙ (w.asleep k.current n).0)) w.distinct;
        },
      ),
)

sema_up_from :
    (i : ℕ) (k : Kernel) (s : Semaphore) (t : ℕ) (l : List ℕ)
    → IsScheduled i k
    → IsWaiting i k (t ∷ l)
    → (k' : Kernel) × (unblock k t ≡ some k')
      × IsScheduled i k'
      × IsWaiting i k' l
      × (k'.ready_list ≡ k.ready_list ++ t ∷ [])
      × (k'.current ≡ k.current)
sema_up_from i k s t l v w =
    let (b, h) = w.asleep t (inl refl) in
    let (k', e, v', r, c) = unblock-IsScheduled i k v t b h in
    (
      k',
      e,
      v',
      record {
        asleep = λ u n.
            let apart : u ≢ t = λ q. w.distinct.0 (subst (λ x. In x l) q n) in
            let (c', h') = w.asleep u (inr n) in (unblock-blocked i k v t u k' b e apart c', h');
        distinct = w.distinct.1;
      },
      r,
      c,
    )

-- On a valid kernel, for a semaphore whose waiters are blocked, distinct and not idle, sema_up of
-- a value below the greatest unsigned one fails no ASSERT, raises the value by one, keeps the
-- kernel valid and the other waiters blocked; without a waiter the kernel is unchanged, and else
-- the first waiter leaves the waiters and goes to the end of the ready list.
pub sema_up-IsWaiting :
    (i : ℕ) (k : Kernel) (value : ℕ) (l : List ℕ)
    → IsScheduled i k
    → IsWaiting i k l
    → value + 1 < 2 ^ 32
    → (k' : Kernel) × (m : List ℕ) × (sema_up k (record { value = value; waiters = l })
        ≡ (some k', record { value = value + 1; waiters = m }))
      × IsScheduled i k'
      × IsWaiting i k' m
      × (((l ≡ []) × (m ≡ []) × (k' ≡ k))
          ⊎ ((t : ℕ) × (l ≡ t ∷ m) × (k'.ready_list ≡ k.ready_list ++ t ∷ [])))
unfolding sema_up
sema_up-IsWaiting i k value [] v w h =
    (k, [], rw (mod-eq_of_lt h) refl, v, w, inl (refl, refl, refl))
sema_up-IsWaiting i k value (t ∷ l) v w h =
    let (k', e, v', w', r, c) =
      sema_up_from i k (record { value = value; waiters = t ∷ l }) t l v w in
    (k', l, rw (sema_up, e, mod-eq_of_lt h) refl, v', w', inr (t, refl, r))
