-- ===== src/Pintos/Threads/Scheduled.antt =====
-- The invariant of the scheduler.
use group.Shared.{ℕ, ◌≡◌, ◌≢◌, ◌⊎◌, refl, true, false, Option, none, some, List, [], ◌∷◌, arith}
use group.Pintos.Threads.{
  Status, running, ready, blocked, dying, Thread, Kernel, is_running, is_thread, is_dying,
  with_status, assign, set_status,
}

abbrev pub In : ℕ → List ℕ → Type 0
In t [] = ⊥
In t (u ∷ l) = (u ≡ t) ⊎ In t l

abbrev pub IsDistinct : List ℕ → Type 0
IsDistinct [] = Unit
IsDistinct (u ∷ l) = (¬ In u l) × IsDistinct l

abbrev pub status_of : Option Thread → Option Status
status_of none = none
status_of (some t) = some t.status

abbrev pub status : Kernel → ℕ → Option Status
status k t = status_of (k.threads t)

-- One thread runs; the ready list has the ready threads except the idle one, each once, and the idle thread
-- is there.
pub record IsScheduled (i : ℕ) (k : Kernel) : Type 0 where
  pub idle : k.idle_thread ≡ some i
  pub alive : status k i ≢ none
  pub current : status k k.current ≡ some running
  pub alone : (t : ℕ) → status k t ≡ some running → t ≡ k.current
  pub listed : (t : ℕ) → In t k.ready_list → status k t ≡ some ready
  pub distinct : IsDistinct k.ready_list
  pub absent : ¬ In i k.ready_list
  pub waiting : (t : ℕ) → status k t ≡ some ready → In t k.ready_list ⊎ (t ≡ i)

-- The same after the current thread's status was changed, before `schedule`.
pub record IsSwitching (i : ℕ) (k : Kernel) : Type 0 where
  pub idle : k.idle_thread ≡ some i
  pub alive : status k i ≢ none
  pub alone : (t : ℕ) → status k t ≢ some running
  pub listed : (t : ℕ) → In t k.ready_list → status k t ≡ some ready
  pub distinct : IsDistinct k.ready_list
  pub absent : ¬ In i k.ready_list
  pub waiting : (t : ℕ) → status k t ≡ some ready → In t k.ready_list ⊎ (t ≡ i)
  pub leaves : status k k.current ≡ some dying → k.current ≢ i

pub ready-dying : some ready ≢ some dying
ready-dying e = cc

pub ready-none : some ready ≢ none
ready-none e = cc

pub running-ready : some running ≢ some ready
running-ready e = cc

pub is_running-status : (o : Option Thread) → status_of o ≢ some running → is_running o ≡ false
unfolding is_running
is_running-status none h = refl
is_running-status (some t) h =
    elim t.status
        as (λ s. (some s ≢ some running) → (elim s [ running ↦ true | _ ↦ false ]) ≡ false) [
          | running ↦ λ n. absurd (n refl)
          | ready ↦ λ n. refl
          | blocked ↦ λ n. refl
          | dying ↦ λ n. refl
        ]
      h

pub is_thread-status : (o : Option Thread) → status_of o ≢ none → is_thread o ≡ true
unfolding is_thread
is_thread-status none h = absurd (h refl)
is_thread-status (some t) h = refl

pub is_dying-status : (o : Option Thread) → is_dying o ≡ true → status_of o ≡ some dying
unfolding is_dying
is_dying-status none h = absurd (cc)
is_dying-status (some t) h =
    elim t.status as (λ s. (elim s [ dying ↦ true | _ ↦ false ]) ≡ true → some s ≡ some dying) [
      | running ↦ λ n. absurd (cc)
      | ready ↦ λ n. absurd (cc)
      | blocked ↦ λ n. absurd (cc)
      | dying ↦ λ n. refl
    ]
      h

with_status_lem :
    (o : Option Thread) (s : Status) → status_of o ≢ none → status_of (with_status s o) ≡ some s
unfolding with_status
with_status_lem none s h = absurd (h refl)
with_status_lem (some t) s h = refl

pub set_status_self :
    (threads : ℕ → Option Thread) (t : ℕ) (s : Status)
    → status_of (threads t) ≢ none
    → status_of (set_status threads t s t) ≡ some s
unfolding set_status assign
set_status_self threads t s h = ground (arith, with_status_lem (threads t) s h)

pub set_status_ne :
    (threads : ℕ → Option Thread) (t u : ℕ) (s : Status)
    → u ≢ t
    → set_status threads t s u ≡ threads u
unfolding set_status assign
set_status_ne threads t u s h = ground arith
