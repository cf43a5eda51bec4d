-- ===== src/Pintos/Threads/Switch.antt =====
-- `schedule` restores the invariant, and the head of the ready list runs.
use group.Shared.{
  ℕ, ◌≡◌, ◌≢◌, ◌⊎◌, inl, inr, refl, sym, ◌∙◌, ap, Bool, true, false, ◌&&◌, not, Option, none, some,
  List, [], ◌∷◌, ◌==◌, if◌then◌else◌, arith, Bool-cases, ℕ_discrete,
}
use mathlib.Core.Path.{subst}
use group.Pintos.Threads.{
  running, ready, blocked, dying, Kernel, is_dying, assign, set_status, next_thread_to_run,
  schedule_tail, schedule,
}
use group.Pintos.Threads.Scheduled.{
  In, IsDistinct, status_of, status, IsScheduled, IsSwitching, ready-dying, running-ready,
  ready-none, is_running-status, is_thread-status, is_dying-status, set_status_self, set_status_ne,
}

-- The chosen thread runs, and no other status changes but that of a dying thread, which is freed.
schedule_tail_self :
    (k : Kernel) (prev : Option ℕ)
    → status k k.current ≢ none
    → prev ≢ some k.current
    → status (schedule_tail k prev) k.current ≡ some running
unfolding schedule_tail assign
schedule_tail_self k none a h = set_status_self k.threads k.current running a
schedule_tail_self k (some p) a h =
    let ne : p ≢ k.current = λ e. h (ap some e) in
    elim (Bool-cases
      (is_dying (set_status k.threads k.current running p) && not (p == k.initial_thread))) [
        | inl e ↦ rw e (ground (arith, set_status_self k.threads k.current running a, ne))
        | inr e ↦ rw e (set_status_self k.threads k.current running a)
      ]

and_true : (a b : Bool) → (a && b) ≡ true → a ≡ true
and_true true b h = refl
and_true false b h = h

schedule_tail_ne :
    (k : Kernel) (prev : Option ℕ) (u : ℕ)
    → u ≢ k.current
    → (status (schedule_tail k prev) u ≡ status k u)
      ⊎ ((status (schedule_tail k prev) u ≡ none) × (prev ≡ some u) × (status k u ≡ some dying))
unfolding schedule_tail assign
schedule_tail_ne k none u h = inl (ap status_of (set_status_ne k.threads k.current u running h))
schedule_tail_ne k (some p) u h =
    let same = set_status_ne k.threads k.current u running h in
    elim (Bool-cases
      (is_dying (set_status k.threads k.current running p) && not (p == k.initial_thread))) [
        | inr e ↦ inl (rw e (ap status_of same))
        | inl e ↦ elim (ℕ_discrete u p) [
          | yes q ↦
              let d : is_dying (set_status k.threads k.current running p) ≡ true = and_true _ _ e in
              inr (
                rw e (ground (arith, q)),
                ap some (sym q),
                is_dying-status (k.threads u) (ap is_dying (sym same) ∙ rw q d),
              )
          | no q ↦ inl (rw e (ground (arith, q, same)))
        ]
      ]

-- `n` is a thread that does not stand in the rest of the list, and only it is missing there.
record IsChosen (i n : ℕ) (l : List ℕ) (k : Kernel) : Type 0 where
  there : status k n ≢ none
  idle : k.idle_thread ≡ some i
  alive : status k i ≢ none
  alone : (t : ℕ) → status k t ≢ some running
  listed : (t : ℕ) → In t l → status k t ≡ some ready
  distinct : IsDistinct l
  new : ¬ In n l
  absent : ¬ In i l
  waiting : (t : ℕ) → status k t ≡ some ready → In t l ⊎ (t ≡ i) ⊎ (t ≡ n)
  leaves : status k k.current ≡ some dying → k.current ≢ i

-- The thread that `thread_schedule_tail` is given.
abbrev prev_of : Kernel → ℕ → Option ℕ
prev_of k n = if k.current == n then none else some k.current

abbrev switched : Kernel → ℕ → List ℕ → Kernel
switched k n l = schedule_tail (record k { current = n; ready_list = l }) (prev_of k n)

prev_of-other : (k : Kernel) (n : ℕ) → prev_of k n ≢ some n
prev_of-other k n e = ground arith

prev_of-some : (k : Kernel) (n u : ℕ) → prev_of k n ≡ some u → k.current ≡ u
prev_of-some k n u e = ground arith

-- The statuses after the switch.
switched_cases :
    (i n : ℕ) (l : List ℕ) (k : Kernel)
    → IsChosen i n l k
    → (u : ℕ)
    → ((u ≡ n) × (status (switched k n l) u ≡ some running))
      ⊎ ((u ≢ n) × (status (switched k n l) u ≡ status k u))
      ⊎ ((u ≢ n) × (status (switched k n l) u ≡ none) × (k.current ≡ u) × (status k u ≡ some dying))
switched_cases i n l k c u = elim (ℕ_discrete u n) [
  | yes q ↦ inl (
    q,
    ap (status (switched k n l)) q
        ∙ schedule_tail_self (record k { current = n; ready_list = l }) (prev_of k n) c.there
            (prev_of-other k n),
  )
  | no q ↦ elim (schedule_tail_ne (record k { current = n; ready_list = l }) (prev_of k n) u q) [
    | inl e ↦ inr (inl (q, e))
    | inr (e, p, d) ↦ inr (inr (q, e, prev_of-some k n u p, d))
  ]
]

switched-IsScheduled :
    (i n : ℕ) (l : List ℕ) (k : Kernel) → IsChosen i n l k → IsScheduled i (switched k n l)
unfolding schedule_tail
switched-IsScheduled i n l k c = record {
  idle = c.idle;
  alive = λ e. elim (switched_cases i n l k c i) [
    | inl (q, r) ↦ cc
    | inr (inl (q, r)) ↦ c.alive (sym r ∙ e)
    | inr (inr (q, r, p, d)) ↦ c.leaves (ap (status k) p ∙ d) p
  ];
  current =
      schedule_tail_self (record k { current = n; ready_list = l }) (prev_of k n) c.there
        (prev_of-other k n);
  alone = λ t e. elim (switched_cases i n l k c t) [
    | inl (q, r) ↦ q
    | inr (inl (q, r)) ↦ absurd (c.alone t (sym r ∙ e))
    | inr (inr (q, r, p, d)) ↦ absurd (cc)
  ];
  listed = λ t m. elim (switched_cases i n l k c t) [
    | inl (q, r) ↦ absurd (c.new (subst (λ x. In x l) q m))
    | inr (inl (q, r)) ↦ r ∙ c.listed t m
    | inr (inr (q, r, p, d)) ↦ absurd (ready-dying (sym (c.listed t m) ∙ d))
  ];
  distinct = c.distinct;
  absent = c.absent;
  waiting = λ t e. elim (switched_cases i n l k c t) [
    | inl (q, r) ↦ absurd (running-ready (sym r ∙ e))
    | inr (inl (q, r)) ↦ elim (c.waiting t (sym r ∙ e)) [
      | inl m ↦ inl m
      | inr (inl x) ↦ inr x
      | inr (inr x) ↦ absurd (q x)
    ]
    | inr (inr (q, r, p, d)) ↦ absurd (cc)
  ];
}

switched_lem :
    (k : Kernel) (n : ℕ) (l : List ℕ)
    → status k k.current ≢ some running
    → status k n ≢ none
    → next_thread_to_run k.ready_list k.idle_thread ≡ (some n, l)
    → schedule k ≡ some (switched k n l)
unfolding schedule
switched_lem k n l h t e =
    rw (schedule, e, is_running-status (k.threads k.current) h, is_thread-status (k.threads n) t)
      (rw e refl)

head-IsChosen :
    (i n : ℕ) (l : List ℕ) (k : Kernel) → k.ready_list ≡ n ∷ l → IsSwitching i k → IsChosen i n l k
head-IsChosen i n l k q s =
    let listed : (t : ℕ) → In t (n ∷ l) → status k t ≡ some ready =
      λ t m. s.listed t (subst (In t) (sym q) m) in
    let distinct : IsDistinct (n ∷ l) = subst IsDistinct q s.distinct in
    record {
      there = λ e. ready-none (sym (listed n (inl refl)) ∙ e);
      idle = s.idle;
      alive = s.alive;
      alone = s.alone;
      listed = λ t m. listed t (inr m);
      distinct = distinct.1;
      new = distinct.0;
      absent = λ m. s.absent (subst (In i) (sym q) (inr m));
      waiting = λ t e. elim (s.waiting t e) [
        | inr x ↦ inr (inl x)
        | inl m ↦ elim (subst (In t) q m) [ inl x ↦ inr (inr (sym x)) | inr m' ↦ inl m' ]
      ];
      leaves = s.leaves;
    }

idle-IsChosen : (i : ℕ) (k : Kernel) → k.ready_list ≡ [] → IsSwitching i k → IsChosen i i [] k
idle-IsChosen i k q s = record {
  there = s.alive;
  idle = s.idle;
  alive = s.alive;
  alone = s.alone;
  listed = λ t m. absurd m;
  distinct = tt;
  new = λ m. m;
  absent = λ m. m;
  waiting = λ t e. elim (s.waiting t e) [ inr x ↦ inr (inl x) | inl m ↦ absurd (subst (In t) q m) ];
  leaves = s.leaves;
}

-- The kernel after `schedule`: it is valid, and the head of the ready list runs, or the idle thread.
abbrev pub Switches : ℕ → Kernel → Option Kernel → Type 0
Switches i k o =
    (k' : Kernel) × (o ≡ some k')
    × IsScheduled i k'
    × ((some k'.current, k'.ready_list) ≡ next_thread_to_run k.ready_list (some i))

switch_to :
    (i n : ℕ) (l : List ℕ) (k : Kernel)
    → IsChosen i n l k
    → next_thread_to_run k.ready_list k.idle_thread ≡ (some n, l)
    → Switches i k (schedule k)
unfolding schedule_tail
switch_to i n l k c e = (
  switched k n l,
  switched_lem k n l (c.alone k.current) c.there e,
  switched-IsScheduled i n l k c,
  sym e ∙ ap (next_thread_to_run k.ready_list) c.idle,
)

schedule_from :
    (i : ℕ) (k : Kernel) (r : List ℕ)
    → k.ready_list ≡ r
    → IsSwitching i k
    → Switches i k (schedule k)
unfolding next_thread_to_run
schedule_from i k [] q s =
    switch_to i i [] k (idle-IsChosen i k q s)
      (ap (λ l. next_thread_to_run l k.idle_thread) q ∙ rw s.idle refl)
schedule_from i k (n ∷ l) q s =
    switch_to i n l k (head-IsChosen i n l k q s) (ap (λ l. next_thread_to_run l k.idle_thread) q)

pub schedule-Switches : (i : ℕ) (k : Kernel) → IsSwitching i k → Switches i k (schedule k)
schedule-Switches i k s = schedule_from i k k.ready_list refl s

pub unique : (k k' : Kernel) (o : Option Kernel) → o ≡ some k → o ≡ some k' → k ≡ k'
unique k k' o e f = cc

blocked-dying : some blocked ≢ some dying
blocked-dying e = cc

ready-blocked : some ready ≢ some blocked
ready-blocked e = cc

blocked_switched :
    (i n u : ℕ) (l : List ℕ) (k k' : Kernel)
    → IsChosen i n l k
    → next_thread_to_run k.ready_list k.idle_thread ≡ (some n, l)
    → schedule k ≡ some k'
    → u ≢ n
    → status k u ≡ some blocked
    → status k' u ≡ some blocked
blocked_switched i n u l k k' c e f h b =
    let same : switched k n l ≡ k' =
      unique _ _ _ (switched_lem k n l (c.alone k.current) c.there e) f in
    ap (λ x. status x u) (sym same) ∙ elim (switched_cases i n l k c u) [
      | inl (q, r) ↦ absurd (h q)
      | inr (inl (q, r)) ↦ r ∙ b
      | inr (inr (q, r, p, d)) ↦ absurd (blocked-dying (sym b ∙ d))
    ]

blocked_from :
    (i u : ℕ) (r : List ℕ) (k k' : Kernel)
    → k.ready_list ≡ r
    → IsSwitching i k
    → schedule k ≡ some k'
    → u ≢ i
    → status k u ≡ some blocked
    → status k' u ≡ some blocked
unfolding next_thread_to_run
blocked_from i u [] k k' q s f h b =
    blocked_switched i i u [] k k' (idle-IsChosen i k q s)
      (ap (λ l. next_thread_to_run l k.idle_thread) q ∙ rw s.idle refl) f h b
blocked_from i u (n ∷ l) k k' q s f h b =
    blocked_switched i n u l k k' (head-IsChosen i n l k q s)
      (ap (λ l. next_thread_to_run l k.idle_thread) q) f
      (λ e.
        ready-blocked
          (sym (s.listed n (subst (In n) (sym q) (inl refl))) ∙ ap (status k) (sym e) ∙ b))
      b

-- Blocked threads stay blocked in a switch, but for the idle one.
pub schedule-blocked :
    (i u : ℕ) (k k' : Kernel)
    → IsSwitching i k
    → schedule k ≡ some k'
    → u ≢ i
    → status k u ≡ some blocked
    → status k' u ≡ some blocked
schedule-blocked i u k k' s f h b = blocked_from i u k.ready_list k k' refl s f h b
