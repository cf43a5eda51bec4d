-- ===== src/Pintos/Examples/ThreadTests.antt =====
-- The scheduler with the idle thread, a running one and a ready one.
use group.Shared.{
  ℕ, ◌≡◌, inl, refl, Option, none, some, [], ◌∷◌, ◌++◌, ◌==◌, if◌then◌else◌, arith, ℕ_discrete,
}
use group.Pintos.Threads.{Status, running, ready, blocked, Thread, Kernel, create}
use group.Pintos.Threads.Scheduled.{IsScheduled}
use group.Pintos.Threads.Wake.{create-IsScheduled}
use group.Pintos.Threads.Steps.{
  Op, yield_op, step, is_switch, Moves, step-IsScheduled, Steps, stop, switch, reached-IsScheduled,
  after_switch, reached-current,
}

abbrev pub thread : Status → Option Thread
thread s = some (record { tid = 1; status = s; priority = 31 })

-- Page 0 is the idle thread's, page 1 runs, page 2 is ready.
abbrev pub pages : ℕ → Option Thread
pages t =
    if t == 0
    then thread blocked
    else if t == 1
    then thread running
    else if t == 2
    then thread ready
    else none

abbrev pub kernel : Kernel
kernel = record {
  threads = pages;
  ready_list = 2 ∷ [];
  all_list = 1 ∷ 0 ∷ 2 ∷ [];
  current = 1;
  idle_thread = some 0;
  initial_thread = 1;
  next_tid = 4;
  thread_ticks = 0;
  idle_ticks = 0;
  kernel_ticks = 0;
}

pub kernel-IsScheduled : IsScheduled 0 kernel
kernel-IsScheduled = record {
  idle = refl;
  alive = λ e. cc;
  current = refl;
  alone = λ t e. ground arith;
  listed = λ t m. ground (arith, m);
  distinct = (λ m. m, tt);
  absent = λ m. ground (arith, m);
  waiting = λ t e. elim (ℕ_discrete t 2) [
    | yes q ↦ inl (inl (omega arith))
    | no q ↦ absurd (ground (arith, q))
  ];
}

abbrev Valid : Option Kernel → Op → Type 0
Valid o op = (k : Kernel) × (o ≡ some k) × IsScheduled 0 k × Moves 0 (is_switch op) kernel k

step-IsScheduled_example : Valid (step kernel yield_op) yield_op
step-IsScheduled_example = step-IsScheduled 0 kernel yield_op kernel-IsScheduled tt

abbrev yielded : Valid (step kernel yield_op) yield_op
yielded = step-IsScheduled 0 kernel yield_op kernel-IsScheduled tt

abbrev after_yield : Kernel
after_yield = yielded.0

yields : Steps 0 kernel 1 after_yield
yields = switch yield_op refl tt yielded.1 stop

reached-IsScheduled_example : IsScheduled 0 after_yield
reached-IsScheduled_example = reached-IsScheduled 0 1 kernel after_yield yields kernel-IsScheduled

reached-current_example : (after_switch 0 yields).current ≡ 2
reached-current_example =
    reached-current 0 1 0 2 kernel after_yield yields kernel-IsScheduled refl (omega arith)

create-IsScheduled_example :
    (k : Kernel) × (create kernel (some 7) 31 ≡ some (some 4, k))
    × IsScheduled 0 k
    × (k.ready_list ≡ (2 ∷ []) ++ 7 ∷ [])
    × (k.current ≡ 1)
create-IsScheduled_example = create-IsScheduled 0 kernel 7 31 kernel-IsScheduled refl (omega arith)
