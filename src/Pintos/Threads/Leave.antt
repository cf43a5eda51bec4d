-- ===== src/Pintos/Threads/Leave.antt =====
-- The operations that give the processor away keep the invariant of the scheduler.
use group.Shared.{
  ℕ, ◌≡◌, ◌≢◌, ◌⊎◌, inl, inr, refl, sym, ◌∙◌, ap, Bool, true, false, Option, none, some, List, [],
  ◌∷◌, ◌++◌, ◌==◌, if◌then◌else◌, arith, ℕ_discrete,
}
use mathlib.Core.Path.{subst}
use group.Pintos.Threads.{
  Status, running, ready, blocked, dying, Thread, Kernel, is_idle, set_status, schedule, block,
  yield, remove, exit,
}
use group.Pintos.Threads.Scheduled.{
  In, IsDistinct, status_of, status, IsScheduled, IsSwitching, ready-dying, running-ready,
  set_status_self, set_status_ne,
}
use group.Pintos.Threads.Switch.{Switches, schedule-Switches, schedule-blocked}

pub In-append : (t : ℕ) (l m : List ℕ) → In t (l ++ m) → In t l ⊎ In t m
In-append t [] m h = inr h
In-append t (u ∷ l) m (inl e) = inl (inl e)
In-append t (u ∷ l) m (inr h) = elim (In-append t l m h) [ inl x ↦ inl (inr x) | inr x ↦ inr x ]

pub In-left : (t : ℕ) (l m : List ℕ) → In t l → In t (l ++ m)
In-left t [] m h = absurd h
In-left t (u ∷ l) m (inl e) = inl e
In-left t (u ∷ l) m (inr h) = inr (In-left t l m h)

pub In-last : (t : ℕ) (l : List ℕ) → In t (l ++ t ∷ [])
In-last t [] = inl refl
In-last t (u ∷ l) = inr (In-last t l)

pub append-IsDistinct : (t : ℕ) (l : List ℕ) → ¬ In t l → IsDistinct l → IsDistinct (l ++ t ∷ [])
append-IsDistinct t [] n d = (λ m. m, tt)
append-IsDistinct t (u ∷ l) n d = (
  λ m. elim (In-append u l (t ∷ []) m) [
    | inl x ↦ d.0 x
    | inr (inl e) ↦ n (inl (sym e))
    | inr (inr x) ↦ x
  ],
  append-IsDistinct t l (λ m. n (inr m)) d.1,
)

-- The statuses after the one of a thread is set.
pub set_status_cases :
    (threads : ℕ → Option Thread) (c : ℕ) (s : Status) (t : ℕ)
    → status_of (threads c) ≢ none
    → ((t ≡ c) × (status_of (set_status threads c s t) ≡ some s))
      ⊎ ((t ≢ c) × (status_of (set_status threads c s t) ≡ status_of (threads t)))
set_status_cases threads c s t h = elim (ℕ_discrete t c) [
  | yes q ↦
      inl (q, ap (λ u. status_of (set_status threads c s u)) q ∙ set_status_self threads c s h)
  | no q ↦ inr (q, ap status_of (set_status_ne threads c t s q))
]

pub some-none : {A : Type 0} (o : Option A) (a : A) → o ≡ some a → o ≢ none
some-none o a e n = cc

pub some_eq : {a b : Status} → some a ≡ some b → a ≡ b
some_eq e = cc

if_case :
    {A : Type 0} (P : A → Type 0) (b : Bool) {x y : A}
    → (b ≡ true → P x)
    → (b ≡ false → P y)
    → P (if b then x else y)
if_case P true p q = p refl
if_case P false p q = q refl

module _ (i : ℕ) (k : Kernel) (v : IsScheduled i k) where
  there : status k k.current ≢ none
  there = some-none (status k k.current) running v.current

  not_listed : ¬ In k.current k.ready_list
  not_listed m = running-ready (sym v.current ∙ v.listed k.current m)

  -- The running thread gets another status, and the ready list and the list of all threads change.
  leaving :
      (s : Status) (r all : List ℕ)
      → s ≢ running
      → ((t : ℕ) → In t r → In t k.ready_list ⊎ ((t ≡ k.current) × (s ≡ ready)))
      → IsDistinct r
      → ¬ In i r
      → ((t : ℕ) → In t k.ready_list → In t r)
      → (s ≡ ready → In k.current r ⊎ (k.current ≡ i))
      → (s ≡ dying → k.current ≢ i)
      → IsSwitching i
          (record k { threads = set_status k.threads k.current s; ready_list = r; all_list = all })
  leaving s r all n from d a to me out = record {
    idle = v.idle;
    alive = λ e. elim (set_status_cases k.threads k.current s i there) [
      | inl (q, x) ↦ some-none _ s x e
      | inr (q, x) ↦ v.alive (sym x ∙ e)
    ];
    alone = λ t e. elim (set_status_cases k.threads k.current s t there) [
      | inl (q, x) ↦ n (some_eq (sym x ∙ e))
      | inr (q, x) ↦ q (v.alone t (sym x ∙ e))
    ];
    listed = λ t m. elim (set_status_cases k.threads k.current s t there) [
      | inl (q, x) ↦ elim (from t m) [
        | inl y ↦ absurd (not_listed (subst (λ u. In u k.ready_list) q y))
        | inr (y, z) ↦ x ∙ ap some z
      ]
      | inr (q, x) ↦ elim (from t m) [ inl y ↦ x ∙ v.listed t y | inr (y, z) ↦ absurd (q y) ]
    ];
    distinct = d;
    absent = a;
    waiting = λ t e. elim (set_status_cases k.threads k.current s t there) [
      | inl (q, x) ↦ elim (me (some_eq (sym x ∙ e))) [
        | inl y ↦ inl (subst (λ u. In u r) (sym q) y)
        | inr y ↦ inr (q ∙ y)
      ]
      | inr (q, x) ↦ elim (v.waiting t (sym x ∙ e)) [ inl y ↦ inl (to t y) | inr y ↦ inr y ]
    ];
    leaves = λ e. out (some_eq (sym (set_status_self k.threads k.current s there) ∙ e));
  }

  blocking : IsSwitching i (record k { threads = set_status k.threads k.current blocked })
  blocking =
      leaving blocked k.ready_list k.all_list (λ e. cc) (λ t m. inl m) v.distinct v.absent
        (λ t m. m) (λ e. absurd (cc)) (λ e. absurd (cc))

  -- The head of the ready list runs next, or the idle thread.
  pub block-Switches : Switches i k (block k)
  unfolding block
  block-Switches = schedule-Switches i _ blocking

  -- The blocked threads and the one that blocks are blocked afterwards.
  pub block-blocked :
      (u : ℕ) (k' : Kernel)
      → block k ≡ some k'
      → u ≢ i
      → (status k u ≡ some blocked) ⊎ (u ≡ k.current)
      → status k' u ≡ some blocked
  unfolding block
  block-blocked u k' e h b =
      schedule-blocked i u (record k { threads = set_status k.threads k.current blocked }) k'
        blocking e h
        (elim (set_status_cases k.threads k.current blocked u there) [
          | inl (q, x) ↦ x
          | inr (q, x) ↦ elim b [ inl y ↦ x ∙ y | inr y ↦ absurd (q y) ]
        ])

  pub exit-Switches : k.current ≢ i → Switches i k (exit k)
  unfolding exit
  exit-Switches h = schedule-Switches i _ (
      leaving dying k.ready_list (remove k.current k.all_list) (λ e. cc) (λ t m. inl m) v.distinct
        v.absent (λ t m. m) (λ e. absurd (cc)) (λ e. h))

  -- The ready list after the running thread is put at its end, unless it is the idle one.
  abbrev pub requeue : List ℕ
  requeue = if k.current == i then k.ready_list else k.ready_list ++ k.current ∷ []

  -- What holds of the list with and without the running thread holds of it.
  pub requeue_both :
      (P : List ℕ → Type 0)
      → (k.current ≡ i → P k.ready_list)
      → (k.current ≢ i → P (k.ready_list ++ k.current ∷ []))
      → P requeue
  requeue_both P idle other = elim (ℕ_discrete k.current i) [
    | yes q ↦ if_case P (k.current == i) (λ e. idle q) (λ e. absurd (ground (arith, q)))
    | no q ↦ if_case P (k.current == i) (λ e. absurd (ground (arith, q))) (λ e. other q)
  ]

  requeue-from : (t : ℕ) → In t requeue → In t k.ready_list ⊎ ((t ≡ k.current) × (ready ≡ ready))
  requeue-from t =
      requeue_both (λ l. In t l → In t k.ready_list ⊎ ((t ≡ k.current) × (ready ≡ ready)))
        (λ q m. inl m)
        (λ q m. elim (In-append t k.ready_list (k.current ∷ []) m) [
          | inl x ↦ inl x
          | inr (inl e) ↦ inr (sym e, refl)
          | inr (inr x) ↦ absurd x
        ])

  requeue-absent : ¬ In i requeue
  requeue-absent m = elim (requeue-from i m) [
    | inl x ↦ v.absent x
    | inr (q, x) ↦ requeue_both (λ l. ¬ In i l) (λ e. v.absent) (λ e. absurd (e (sym q))) m
  ]

  pub yield-Switches : Switches i (record k { ready_list = requeue }) (yield k)
  unfolding yield is_idle
  yield-Switches =
      let idle : is_idle k.idle_thread k.current ≡ (k.current == i) =
        ap (λ o. is_idle o k.current) v.idle in
      let same =
        ap
          (λ b. schedule (record k {
            threads = set_status k.threads k.current ready;
            ready_list = if b then k.ready_list else k.ready_list ++ k.current ∷ [];
          }))
          idle in
      subst (Switches i (record k { ready_list = requeue })) (sym same) (
        schedule-Switches i
          (record k { threads = set_status k.threads k.current ready; ready_list = requeue })
          (leaving ready requeue k.all_list (λ e. running-ready (ap some (sym e))) requeue-from
            (requeue_both IsDistinct (λ q. v.distinct)
              (λ q. append-IsDistinct k.current k.ready_list not_listed v.distinct))
            requeue-absent
            (λ t m. requeue_both (In t) (λ q. m) (λ q. In-left t k.ready_list (k.current ∷ []) m))
            (λ e.
              requeue_both (λ l. In k.current l ⊎ (k.current ≡ i)) (λ q. inr q)
                (λ q. inl (In-last k.current k.ready_list)))
            (λ e. absurd (ready-dying (ap some e)))))
