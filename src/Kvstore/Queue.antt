-- ===== src/Kvstore/Queue.antt =====
-- wq.c: the work queue. Threads run wq_push and wq_pop one statement at a time, in any order; the mutex and the
-- condition variable are those of POSIX. The utlist.h list is the sequence of its items, DL_APPEND and DL_DELETE
-- read it in one step and write it in the next. `none` is a thread that cannot go on, or a fault.
pub mod Order
pub mod Steps
pub mod Runs
use group.Shared.{ℕ, Option, none, some, List, [], ◌∷◌, ◌++◌, ◌==◌, if◌then◌else◌, ◌≡◌, ◌≢◌}

-- Where a thread is, with the values of its variables.
pub data Pc (Job : Type 0) : Type 0 where
  outside : Pc Job
  push_call : Job → Pc Job
  push_locked : Job → Pc Job
  push_write : Job → List Job → Pc Job
  push_signal : Pc Job
  push_unlock : Pc Job
  pop_call : Pc Job
  pop_test : Pc Job
  pop_asleep : Pc Job
  pop_woken : Pc Job
  pop_item : Pc Job
  pop_delete : Job → Pc Job
  pop_write : Job → List Job → Pc Job
  pop_unlock : Job → Pc Job

-- `wq_t`, with the holder of its mutex, and the threads.
pub record System (Job : Type 0) : Type 0 where
  pub items : List Job
  pub holder : Option ℕ
  pub threads : ℕ → Pc Job

-- What a step has done to the queue.
pub data Event (Job : Type 0) : Type 0 where
  quiet : Event Job
  appends : Job → Event Job
  returns : Job → Event Job

unfoldable pub init : {Job : Type 0} → (ℕ → Pc Job) → System Job
init threads = record { items = []; holder = none; threads = threads }

unfoldable pub set : {Job : Type 0} → (ℕ → Pc Job) → ℕ → Pc Job → ℕ → Pc Job
set threads t pc u = if u == t then pc else threads u

abbrev pub state : {Job : Type 0} → System Job → ℕ → Pc Job → List Job → Option ℕ → System Job
state s t pc items holder = record { items = items; holder = holder; threads = set s.threads t pc }

-- `pthread_mutex_lock`, which a thread leaves only with the mutex.
unfoldable pub lock : {Job : Type 0} → System Job → ℕ → Pc Job → Option (Event Job × System Job)
lock s t pc = elim s.holder [ none ↦ some (quiet, state s t pc s.items (some t)) | some _ ↦ none ]

-- The next statement of a thread. The signal is in `Step`.
unfoldable pub statement :
    {Job : Type 0} → System Job → ℕ → Pc Job → Option (Event Job × System Job)
unfolding lock
statement s t outside = none
statement s t (push_call job) = lock s t (push_locked job)
statement s t (push_locked job) = some (quiet, state s t (push_write job s.items) s.items s.holder)
statement s t (push_write job l) =
    some (appends job, state s t push_signal (l ++ job ∷ []) s.holder)
statement s t push_signal = none
statement s t push_unlock = some (quiet, state s t outside s.items none)
statement s t pop_call = lock s t pop_test
statement s t pop_test = elim s.items [
  | [] ↦ some (quiet, state s t pop_asleep s.items none)
  | _ ∷ _ ↦ some (quiet, state s t pop_item s.items s.holder)
]
statement s t pop_asleep = none
statement s t pop_woken = lock s t pop_test
statement s t pop_item = elim s.items [
  | [] ↦ none
  | job ∷ _ ↦ some (quiet, state s t (pop_delete job) s.items s.holder)
]
statement s t (pop_delete job) = elim s.items [
  | [] ↦ none
  | _ ∷ l ↦ some (quiet, state s t (pop_write job l) s.items s.holder)
]
statement s t (pop_write job l) = some (quiet, state s t (pop_unlock job) l s.holder)
statement s t (pop_unlock job) = some (returns job, state s t outside s.items none)

unfoldable pub advance : {Job : Type 0} → System Job → ℕ → Option (Event Job × System Job)
unfolding statement
advance s t = statement s t (s.threads t)

abbrev pub wakes : {Job : Type 0} → System Job → ℕ → System Job
wakes s w = state s w pop_woken s.items s.holder

-- A step of some thread: a statement, a call, a signal, which wakes one of the threads that sleep, or
-- a thread that wakes without one, as POSIX allows.
pub data Step {Job : Type 0} : System Job → Event Job → System Job → Type 0 where
  runs : {s s' : System Job} {e : Event Job} (t : ℕ) → advance s t ≡ some (e, s') → Step s e s'
  pushes :
      {s : System Job} (t : ℕ) (job : Job)
      → s.threads t ≡ outside
      → Step s quiet (state s t (push_call job) s.items s.holder)
  pops :
      {s : System Job} (t : ℕ)
      → s.threads t ≡ outside
      → Step s quiet (state s t pop_call s.items s.holder)
  signals :
      {s : System Job} (t w : ℕ)
      → s.threads t ≡ push_signal
      → s.threads w ≡ pop_asleep
      → Step s quiet (state (wakes s w) t push_unlock s.items s.holder)
  signals_nobody :
      {s : System Job} (t : ℕ)
      → s.threads t ≡ push_signal
      → ((w : ℕ) → s.threads w ≢ pop_asleep)
      → Step s quiet (state s t push_unlock s.items s.holder)
  wakes_up : {s : System Job} (w : ℕ) → s.threads w ≡ pop_asleep → Step s quiet (wakes s w)

abbrev pub appended : {Job : Type 0} → Event Job → List Job
appended (appends job) = job ∷ []
appended _ = []

abbrev pub returned : {Job : Type 0} → Event Job → List Job
returned (returns job) = job ∷ []
returned _ = []

-- Steps, with the jobs that were appended and the ones that wq_pop returned.
pub data Run {Job : Type 0} : System Job → List Job → List Job → System Job → Type 0 where
  stop : {s : System Job} → Run s [] [] s
  step :
      {s s' s'' : System Job} {e : Event Job} {pushed popped : List Job}
      → Step s e s'
      → Run s' pushed popped s''
      → Run s (appended e ++ pushed) (returned e ++ popped) s''
