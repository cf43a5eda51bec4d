-- ===== src/Pintos/Examples/SynchTests.antt =====
-- Semaphores at concrete inputs.
use group.Shared.{ℕ, ◌-◌, ◌<◌, ◌≡◌, ◌⊎◌, refl, true, false, some, List, [], ◌∷◌, ◌++◌, arith}
use group.Pintos.Threads.{Kernel}
use group.Pintos.Threads.Scheduled.{IsScheduled}
use group.Pintos.Synch.{
  Semaphore, sema_init, sema_down_round, sema_up, lock_init, lock_acquire_check,
  lock_held_by_current_thread,
}
use group.Pintos.Synch.Exclusive.{
  Place, out, waiting, entered, holding, System, move, acquire, pass, is_inside,
}
use group.Pintos.Synch.Mutual.{LockSteps, start, next, IsFresh, steps-exclusive}
use group.Pintos.Synch.Waiting.{IsWaiting, sema_down_round-IsWaiting, sema_up-IsWaiting}
use group.Pintos.Examples.ThreadTests.{kernel, kernel-IsScheduled}

abbrev taken : Semaphore
taken = sema_init 0

taken-IsWaiting : IsWaiting 0 kernel []
taken-IsWaiting = record { asleep = λ t m. absurd m; distinct = tt }

sema_down_round-IsWaiting_example :
    (0 < taken.value
      → sema_down_round kernel taken
        ≡ (true, some kernel, record taken { value = taken.value - 1 }))
    × (taken.value ≡ 0
        → (k : Kernel) × (sema_down_round kernel taken
            ≡ (false, some k, record taken { waiters = taken.waiters ++ 1 ∷ [] }))
          × IsScheduled 0 k
          × IsWaiting 0 k (taken.waiters ++ 1 ∷ []))
unfolding sema_init
sema_down_round-IsWaiting_example =
    sema_down_round-IsWaiting 0 kernel taken kernel-IsScheduled taken-IsWaiting (omega arith)

blocks :
    (k : Kernel) × (sema_down_round kernel taken
      ≡ (false, some k, record taken { waiters = taken.waiters ++ 1 ∷ [] }))
    × IsScheduled 0 k
    × IsWaiting 0 k (taken.waiters ++ 1 ∷ [])
unfolding sema_init
blocks =
    (sema_down_round-IsWaiting 0 kernel taken kernel-IsScheduled taken-IsWaiting (omega arith)).1
      refl

abbrev sleeping : Kernel
sleeping = blocks.0

abbrev one : List ℕ
one = 1 ∷ []

one_waits : IsWaiting 0 sleeping one
unfolding sema_init
one_waits = blocks.3

sema_up-IsWaiting_example :
    (k : Kernel) × (m : List ℕ) × (sema_up sleeping (record { value = 0; waiters = one })
      ≡ (some k, record { value = 1; waiters = m }))
    × IsScheduled 0 k
    × IsWaiting 0 k m
    × (((one ≡ []) × (m ≡ []) × (k ≡ sleeping))
        ⊎ ((t : ℕ) × (one ≡ t ∷ m) × (k.ready_list ≡ sleeping.ready_list ++ t ∷ [])))
sema_up-IsWaiting_example = sema_up-IsWaiting 0 sleeping 0 one blocks.2 one_waits (omega arith)

abbrev idle_lock : System
idle_lock = record { kernel = kernel; lock = lock_init; place = λ t. out }

idle_lock-IsFresh : IsFresh idle_lock
idle_lock-IsFresh = record { lock = refl; place = λ t. refl }

free_check : lock_acquire_check kernel lock_init ≡ some lock_init
unfolding lock_acquire_check lock_init lock_held_by_current_thread
free_check = refl

free_pass :
    sema_down_round kernel lock_init.semaphore
    ≡ (true, some kernel, record { value = 0; waiters = [] })
unfolding sema_down_round lock_init sema_init
free_pass = refl

abbrev at_place : Place → ℕ → Place
at_place d = move (λ t. out) 1 d

abbrev acquired : System
acquired = record {
  kernel = kernel;
  lock = record lock_init { semaphore = record { value = 0; waiters = [] } };
  place = move (at_place waiting) 1 entered;
}

acquires : LockSteps idle_lock acquired
acquires = next (acquire refl free_check) (next (pass refl free_pass) start)

steps-exclusive_example :
    ((t u : ℕ) → is_inside (acquired.place t) ≡ true → is_inside (acquired.place u) ≡ true → t ≡ u)
    × (acquired.place 1 ≡ holding → lock_held_by_current_thread kernel acquired.lock ≡ true)
    × (acquired.place 1 ≡ out → lock_held_by_current_thread kernel acquired.lock ≡ false)
steps-exclusive_example = steps-exclusive idle_lock acquired acquires idle_lock-IsFresh
