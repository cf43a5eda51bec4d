-- ===== src/Pintos/Synch.antt =====
-- threads/synch.c: semaphores and locks over the scheduler. `none` is a failed ASSERT.
pub mod Waiting
pub mod Exclusive
pub mod Mutual
use group.Shared.{
  ℕ, ◌+◌, ◌-◌, ◌%◌, ◌^◌, Bool, true, false, Option, none, some, List, [], ◌∷◌, ◌++◌, ◌==◌,
  if◌then◌else◌,
}
use group.Pintos.Threads.{Kernel, block, unblock}

-- `struct semaphore`, with an `unsigned` value
pub record Semaphore : Type 0 where
  pub value : ℕ
  pub waiters : List ℕ

unfoldable pub sema_init : ℕ → Semaphore
sema_init value = record { value = value; waiters = [] }

-- One test of the loop of `sema_down`. When it blocks, the loop goes on once the thread runs again; the
-- flag tells whether the loop is left, with the value decremented.
unfoldable pub sema_down_round : Kernel → Semaphore → Bool × Option Kernel × Semaphore
unfolding block
sema_down_round k s =
    if s.value == 0
    then (false, block k, record s { waiters = s.waiters ++ k.current ∷ [] })
    else (true, some k, record s { value = s.value - 1 })

unfoldable pub sema_try_down : Semaphore → Bool × Semaphore
sema_try_down s = if s.value == 0 then (false, s) else (true, record s { value = s.value - 1 })

-- The first waiter is unblocked.
unfoldable pub sema_up : Kernel → Semaphore → Option Kernel × Semaphore
unfolding unblock
sema_up k s =
    let value = (s.value + 1) % 2 ^ 32 in
    elim s.waiters [
      | [] ↦ (some k, record s { value = value })
      | t ∷ l ↦ (unblock k t, record { value = value; waiters = l })
    ]

-- `struct lock`
pub record Lock : Type 0 where
  pub holder : Option ℕ
  pub semaphore : Semaphore

unfoldable pub lock_init : Lock
unfolding sema_init
lock_init = record { holder = none; semaphore = sema_init 1 }

unfoldable pub lock_held_by_current_thread : Kernel → Lock → Bool
lock_held_by_current_thread k l = elim l.holder [ none ↦ false | some t ↦ t == k.current ]

unfoldable pub lock_try_acquire : Kernel → Lock → Option (Bool × Lock)
unfolding lock_held_by_current_thread sema_try_down
lock_try_acquire k l =
    if lock_held_by_current_thread k l
    then none
    else (let (success, s) = sema_try_down l.semaphore in
        some (
          success,
          record { holder = if success then some k.current else l.holder; semaphore = s },
        ))

-- The calls up to the semaphore and after it, between which other threads may run: the check of
-- `lock_acquire`, its last statement, and the statements of `lock_release` before `sema_up`.
unfoldable pub lock_acquire_check : Kernel → Lock → Option Lock
unfolding lock_held_by_current_thread
lock_acquire_check k l = if lock_held_by_current_thread k l then none else some l

unfoldable pub lock_acquire_set : Kernel → Lock → Lock
lock_acquire_set k l = record l { holder = some k.current }

unfoldable pub lock_release_clear : Kernel → Lock → Option Lock
unfolding lock_held_by_current_thread
lock_release_clear k l =
    if lock_held_by_current_thread k l then some (record l { holder = none }) else none
