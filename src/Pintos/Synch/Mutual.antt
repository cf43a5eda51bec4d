-- ===== src/Pintos/Synch/Mutual.antt =====
-- Every run of threads on one lock: mutual exclusion, and the ASSERTs on the holder.
use group.Shared.{ℕ, ◌≡◌, refl, sym, ◌∙◌, ap, true, false, Option, none, some, arith}
use group.Pintos.Threads.{Kernel}
use group.Pintos.Synch.{Lock, lock_init, sema_init, lock_held_by_current_thread}
use group.Pintos.Synch.Exclusive.{
  Place, out, waiting, entered, holding, leaving, System, LockStep, is_inside, IsExclusive,
  is_owner, holder_of, holder_at, inside_cases, step-IsExclusive,
}

-- Sequences of steps.
pub data LockSteps : System → System → Type 0 where
  start : {y : System} → LockSteps y y
  next : {y z w : System} → LockStep y z → LockSteps z w → LockSteps y w

-- The lock is as `lock_init` makes it, and no thread uses it.
pub record IsFresh (y : System) : Type 0 where
  pub lock : y.lock ≡ lock_init
  pub place : (t : ℕ) → y.place t ≡ out

fresh-IsExclusive : (y : System) → IsFresh y → IsExclusive y
unfolding lock_init sema_init
fresh-IsExclusive y f = record {
  owner = none;
  value = ap (λ l. l.semaphore.value) f.lock;
  inside = λ t. ap is_inside (f.place t);
  holder = ap (λ l. l.holder) f.lock;
}

steps-IsExclusive : (y z : System) → LockSteps y z → IsExclusive y → IsExclusive z
steps-IsExclusive y z start x = x
steps-IsExclusive y z (next {z = w} s r) x = steps-IsExclusive w z r (step-IsExclusive y w s x)

some_inj : (t u : ℕ) → some t ≡ some u → t ≡ u
some_inj t u e = cc

holds_by :
    (k : Kernel) (l : Lock) → l.holder ≡ some k.current → lock_held_by_current_thread k l ≡ true
unfolding lock_held_by_current_thread
holds_by k l h = rw h (ground arith)

holds_not :
    (k : Kernel) (l : Lock) (p : ℕ → Place) (o : Option ℕ)
    → is_owner o k.current ≡ false
    → l.holder ≡ holder_of p o
    → lock_held_by_current_thread k l ≡ false
unfolding lock_held_by_current_thread
holds_not k l p none f h = rw h refl
holds_not k l p (some o) f h =
    elim (p o) as (λ d. l.holder ≡ holder_at o d → lock_held_by_current_thread k l ≡ false) [
      | holding ↦ λ e. rw e (ground arith)
      | out ↦ λ e. rw e refl
      | waiting ↦ λ e. rw e refl
      | entered ↦ λ e. rw e refl
      | leaving ↦ λ e. rw e refl
    ]
      h

-- From a lock as lock_init makes it that no thread uses, in every sequence of steps of threads
-- that call lock_acquire and lock_release, with other threads running between the steps: at most
-- one thread is between the end of sema_down in lock_acquire and sema_up in lock_release, the
-- holder test of lock_release succeeds for a running thread that has the lock, and the test of
-- lock_acquire that the thread is not the holder succeeds for a running thread that is out of
-- both.
pub steps-exclusive :
    (y z : System)
    → LockSteps y z
    → IsFresh y
    → ((t u : ℕ) → is_inside (z.place t) ≡ true → is_inside (z.place u) ≡ true → t ≡ u)
      × (z.place z.kernel.current ≡ holding → lock_held_by_current_thread z.kernel z.lock ≡ true)
      × (z.place z.kernel.current ≡ out → lock_held_by_current_thread z.kernel z.lock ≡ false)
steps-exclusive y z s f =
    let x = steps-IsExclusive y z s (fresh-IsExclusive y f) in
    let c = z.kernel.current in
    (
      λ t u a b. some_inj t u (sym (inside_cases z x t a) ∙ inside_cases z x u b),
      λ h.
          let mine = inside_cases z x c (ap is_inside h) in
          holds_by z.kernel z.lock (x.holder ∙ ap (holder_of z.place) mine ∙ ap (holder_at c) h),
      λ h. holds_not z.kernel z.lock z.place x.owner (sym (x.inside c) ∙ ap is_inside h) x.holder,
    )
