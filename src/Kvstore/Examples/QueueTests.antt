-- ===== src/Kvstore/Examples/QueueTests.antt =====
-- The work queue in a run of two threads.
use group.Shared.{ℕ, ◌≡◌, refl, none, some, [], ◌∷◌}
use group.Kvstore.Queue.{
  outside, push_call, push_locked, push_write, push_signal, push_unlock, pop_call, pop_test,
  pop_asleep, pop_item, pop_delete, pop_write, pop_unlock, System, init, set, lock, state,
  statement, advance, wakes, Run, runs, pushes, pops, signals, stop, step,
}
use group.Kvstore.Queue.Runs.{Delivers, run-Delivers}

-- Thread 1 waits for a job, and thread 0 pushes one.
abbrev start : System ℕ
start = init (λ _. outside)

abbrev asks : System ℕ
asks = state start 1 pop_call [] none

abbrev tests : System ℕ
tests = state asks 1 pop_test [] (some 1)

abbrev sleeps : System ℕ
sleeps = state tests 1 pop_asleep [] none

abbrev calls : System ℕ
calls = state sleeps 0 (push_call 7) [] none

abbrev locked : System ℕ
locked = state calls 0 (push_locked 7) [] (some 0)

abbrev reads : System ℕ
reads = state locked 0 (push_write 7 []) [] (some 0)

abbrev writes : System ℕ
writes = state reads 0 push_signal (7 ∷ []) (some 0)

abbrev signalled : System ℕ
signalled = state (wakes writes 1) 0 push_unlock (7 ∷ []) (some 0)

abbrev unlocked : System ℕ
unlocked = state signalled 0 outside (7 ∷ []) none

abbrev tests_again : System ℕ
tests_again = state unlocked 1 pop_test (7 ∷ []) (some 1)

abbrev leaves : System ℕ
leaves = state tests_again 1 pop_item (7 ∷ []) (some 1)

abbrev has_job : System ℕ
has_job = state leaves 1 (pop_delete 7) (7 ∷ []) (some 1)

abbrev deletes : System ℕ
deletes = state has_job 1 (pop_write 7 []) (7 ∷ []) (some 1)

abbrev deleted : System ℕ
deleted = state deletes 1 (pop_unlock 7) [] (some 1)

abbrev ends : System ℕ
ends = state deleted 1 outside [] none

one_job : Run start (7 ∷ []) (7 ∷ []) ends
unfolding init set lock statement advance
one_job = step {s' = asks} (pops 1 refl) (
    step {s' = tests} (runs 1 refl) (
      step {s' = sleeps} (runs 1 refl) (
        step {s' = calls} (pushes 0 7 refl) (
          step {s' = locked} (runs 0 refl) (
            step {s' = reads} (runs 0 refl) (
              step {s' = writes} (runs 0 refl) (
                step {s' = signalled} (signals 0 1 refl refl) (
                  step {s' = unlocked} (runs 0 refl) (
                    step {s' = tests_again} (runs 1 refl) (
                      step {s' = leaves} (runs 1 refl) (
                        step {s' = has_job} (runs 1 refl) (
                          step {s' = deletes} (runs 1 refl) (
                            step {s' = deleted} (runs 1 refl)
                              (step {s' = ends} (runs 1 refl) stop))))))))))))))

-- A second lock has to wait.
locked_twice : advance (state locked 1 pop_call [] (some 0)) 1 ≡ none
unfolding init set lock statement advance
locked_twice = refl

run-Delivers_example : Delivers start (7 ∷ []) (7 ∷ []) ends
unfolding init
run-Delivers_example = run-Delivers start ends (7 ∷ []) (7 ∷ []) (refl, λ t. refl) one_job
