-- ===== src/Pintos/Threads.antt =====
-- threads/thread.c: the threads, the ready list and the switch from one thread to another. A step between
-- two switches is atomic, since interrupts are off. `none` is a failed ASSERT. Not modelled are the ASSERTs of
-- thread_current, that the current thread is a thread and runs, and `prev != cur` of thread_schedule_tail, which
-- schedule only calls where the two differ.
pub mod Scheduled
pub mod Switch
pub mod Leave
pub mod Wake
pub mod Steps
use group.Shared.{
  ℕ, ◌+◌, Bool, true, false, ◌&&◌, not, Option, none, some, List, [], ◌∷◌, ◌++◌, leb, ◌==◌,
  if◌then◌else◌,
}

-- `enum thread_status`
pub data Status : Type 0 where
  running ready blocked dying : Status

-- `struct thread`, without its name, stack and links.
pub record Thread : Type 0 where
  pub tid : ℕ
  pub status : Status
  pub priority : ℕ

-- The variables of thread.c. A thread is its page, and a page that is `none` holds none. The initial
-- thread's page is not from the allocator.
pub record Kernel : Type 0 where
  pub threads : ℕ → Option Thread
  pub ready_list : List ℕ
  pub all_list : List ℕ
  pub current : ℕ
  pub idle_thread : Option ℕ
  pub initial_thread : ℕ
  pub next_tid : ℕ
  pub thread_ticks : ℕ
  pub idle_ticks : ℕ
  pub kernel_ticks : ℕ

abbrev pub time_slice : ℕ
time_slice = 4

abbrev pub pri_max : ℕ
pri_max = 63

unfoldable pub is_running : Option Thread → Bool
is_running none = false
is_running (some t) = elim t.status [ running ↦ true | _ ↦ false ]

unfoldable pub is_blocked : Option Thread → Bool
is_blocked none = false
is_blocked (some t) = elim t.status [ blocked ↦ true | _ ↦ false ]

unfoldable pub is_dying : Option Thread → Bool
is_dying none = false
is_dying (some t) = elim t.status [ dying ↦ true | _ ↦ false ]

unfoldable pub is_thread : Option Thread → Bool
is_thread none = false
is_thread (some t) = true

unfoldable pub with_status : Status → Option Thread → Option Thread
with_status s none = none
with_status s (some t) = some (record t { status = s })

unfoldable pub assign : (ℕ → Option Thread) → ℕ → Option Thread → ℕ → Option Thread
assign threads t o u = if u == t then o else threads u

unfoldable pub set_status : (ℕ → Option Thread) → ℕ → Status → ℕ → Option Thread
unfolding assign with_status
set_status threads t s = assign threads t (with_status s (threads t))

-- The next thread, and the ready list without it.
unfoldable pub next_thread_to_run : List ℕ → Option ℕ → Option ℕ × List ℕ
next_thread_to_run [] idle = (idle, [])
next_thread_to_run (t ∷ l) idle = (some t, l)

unfoldable pub schedule_tail : Kernel → Option ℕ → Kernel
unfolding set_status assign is_dying
schedule_tail k prev =
    let threads = set_status k.threads k.current running in
    record k {
      threads = elim prev [
        | none ↦ threads
        | some p ↦
            if is_dying (threads p) && not (p == k.initial_thread)
            then assign threads p none
            else threads
      ];
      thread_ticks = 0;
    }

-- `switch_threads` makes `next` the running thread, which goes on in `thread_schedule_tail`.
unfoldable pub schedule : Kernel → Option Kernel
unfolding next_thread_to_run schedule_tail is_running is_thread
schedule k =
    let (next, l) = next_thread_to_run k.ready_list k.idle_thread in
    if is_running (k.threads k.current) then none else elim next [
      | none ↦ none
      | some n ↦
          if is_thread (k.threads n)
          then some (
              schedule_tail (record k { current = n; ready_list = l })
                (if k.current == n then none else some k.current))
          else none
    ]

unfoldable pub block : Kernel → Option Kernel
unfolding schedule set_status
block k = schedule (record k { threads = set_status k.threads k.current blocked })

unfoldable pub unblock : Kernel → ℕ → Option Kernel
unfolding set_status is_blocked
unblock k t =
    if is_blocked (k.threads t)
    then some
        (record k { threads = set_status k.threads t ready; ready_list = k.ready_list ++ t ∷ [] })
    else none

unfoldable pub is_idle : Option ℕ → ℕ → Bool
is_idle none t = false
is_idle (some i) t = t == i

unfoldable pub yield : Kernel → Option Kernel
unfolding schedule set_status is_idle
yield k = schedule (record k {
  threads = set_status k.threads k.current ready;
  ready_list =
      if is_idle k.idle_thread k.current then k.ready_list else k.ready_list ++ k.current ∷ [];
})

-- The list without the first element that is the thread.
unfoldable pub remove : ℕ → List ℕ → List ℕ
remove t [] = []
remove t (u ∷ l) = let rest = remove t l in if u == t then l else u ∷ rest

unfoldable pub exit : Kernel → Option Kernel
unfolding schedule set_status remove
exit k = schedule (record k {
  threads = set_status k.threads k.current dying;
  all_list = remove k.current k.all_list;
})

-- A blocked thread at the page, last of all threads.
unfoldable pub init_thread : Kernel → ℕ → ℕ → Option Kernel
unfolding assign
init_thread k page priority =
    if leb priority pri_max
    then some (record k {
      threads =
          assign k.threads page (some (record { tid = 0; status = blocked; priority = priority }));
      all_list = k.all_list ++ page ∷ [];
    })
    else none

unfoldable pub with_tid : ℕ → Option Thread → Option Thread
with_tid n none = none
with_tid n (some t) = some (record t { tid = n })

-- `page` is what `palloc_get_page` returns. The tid is `none` for TID_ERROR.
unfoldable pub create : Kernel → Option ℕ → ℕ → Option (Option ℕ × Kernel)
unfolding init_thread unblock with_tid assign
create k none priority = some (none, k)
create k (some page) priority = elim (init_thread k page priority) [
  | none ↦ none
  | some k' ↦
      elim (unblock
        (record k' {
          threads = assign k'.threads page (with_tid k'.next_tid (k'.threads page));
          next_tid = k'.next_tid + 1;
        })
        page) [ none ↦ none | some k'' ↦ some (some k'.next_tid, k'') ]
]

-- Whether the time slice is over, and the thread yields when the interrupt returns.
unfoldable pub tick : Kernel → Bool × Kernel
unfolding is_idle
tick k =
    let idle = is_idle k.idle_thread k.current in
    (
      leb time_slice (k.thread_ticks + 1),
      record k {
        idle_ticks = if idle then k.idle_ticks + 1 else k.idle_ticks;
        kernel_ticks = if idle then k.kernel_ticks else k.kernel_ticks + 1;
        thread_ticks = k.thread_ticks + 1;
      },
    )
