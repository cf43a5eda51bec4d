-- ===== src/Pintos/Threads/Wake.antt =====
-- Waking and creating a thread keep the invariant of the scheduler.
use group.Shared.{
  ℕ, ◌+◌, ◌≤◌, ◌≡◌, ◌≢◌, ◌⊎◌, inl, inr, refl, sym, ◌∙◌, ap, true, Option, none, some, [], ◌∷◌, ◌++◌,
  leb, arith, ℕ_discrete,
}
use mathlib.Core.Path.{subst}
use group.Pintos.Threads.{
  running, ready, blocked, Thread, Kernel, pri_max, is_blocked, with_tid, assign, set_status,
  unblock, init_thread, create,
}
use group.Pintos.Threads.Scheduled.{
  In, status_of, status, IsScheduled, running-ready, ready-none, set_status_ne,
}
use group.Pintos.Threads.Switch.{unique}
use group.Pintos.Threads.Leave.{
  In-append, In-left, In-last, append-IsDistinct, set_status_cases, some-none, some_eq,
}

ready-blocked : some ready ≢ some blocked
ready-blocked e = cc

pub running-blocked : some running ≢ some blocked
running-blocked e = cc

is_blocked-status : (o : Option Thread) → status_of o ≡ some blocked → is_blocked o ≡ true
unfolding is_blocked
is_blocked-status none e = absurd (cc)
is_blocked-status (some t) e = rw (some_eq e) refl

module _ (i : ℕ) (k : Kernel) (v : IsScheduled i k) where
  -- A blocked thread gets ready, at the end of the ready list.
  pub unblock-IsScheduled :
      (t : ℕ)
      → status k t ≡ some blocked
      → t ≢ i
      → (k' : Kernel) × (unblock k t ≡ some k')
        × IsScheduled i k'
        × (k'.ready_list ≡ k.ready_list ++ t ∷ [])
        × (k'.current ≡ k.current)
  unfolding unblock
  unblock-IsScheduled t b n =
      let was : status k t ≢ none = some-none _ blocked b in
      let apart : t ≢ k.current =
        λ q. running-blocked (sym v.current ∙ ap (status k) (sym q) ∙ b) in
      (
        record k { threads = set_status k.threads t ready; ready_list = k.ready_list ++ t ∷ [] },
        rw (is_blocked-status (k.threads t) b) refl,
        record {
          idle = v.idle;
          alive = λ e. elim (set_status_cases k.threads t ready i was) [
            | inl (q, x) ↦ some-none _ ready x e
            | inr (q, x) ↦ v.alive (sym x ∙ e)
          ];
          current =
              ap status_of (set_status_ne k.threads t k.current ready (λ q. apart (sym q)))
              ∙ v.current;
          alone = λ u e. elim (set_status_cases k.threads t ready u was) [
            | inl (q, x) ↦ absurd (running-ready (sym e ∙ x))
            | inr (q, x) ↦ v.alone u (sym x ∙ e)
          ];
          listed = λ u m. elim (set_status_cases k.threads t ready u was) [
            | inl (q, x) ↦ x
            | inr (q, x) ↦ elim (In-append u k.ready_list (t ∷ []) m) [
              | inl y ↦ x ∙ v.listed u y
              | inr (inl y) ↦ absurd (q (sym y))
              | inr (inr y) ↦ absurd y
            ]
          ];
          distinct =
              append-IsDistinct t k.ready_list (λ m. ready-blocked (sym (v.listed t m) ∙ b))
                v.distinct;
          absent = λ m. elim (In-append i k.ready_list (t ∷ []) m) [
            | inl y ↦ v.absent y
            | inr (inl y) ↦ n y
            | inr (inr y) ↦ y
          ];
          waiting = λ u e. elim (set_status_cases k.threads t ready u was) [
            | inl (q, x) ↦
                inl (subst (λ w. In w (k.ready_list ++ t ∷ [])) (sym q) (In-last t k.ready_list))
            | inr (q, x) ↦ elim (v.waiting u (sym x ∙ e)) [
              | inl y ↦ inl (In-left u k.ready_list (t ∷ []) y)
              | inr y ↦ inr y
            ]
          ];
        },
        refl,
        refl,
      )

  pub unblock-blocked :
      (t u : ℕ) (k' : Kernel)
      → status k t ≡ some blocked
      → unblock k t ≡ some k'
      → u ≢ t
      → status k u ≡ some blocked
      → status k' u ≡ some blocked
  unfolding unblock
  unblock-blocked t u k' b e h c =
      let same : unblock k t
          ≡ some (record k {
            threads = set_status k.threads t ready;
            ready_list = k.ready_list ++ t ∷ [];
          }) =
        rw (is_blocked-status (k.threads t) b) refl in
      ap (λ x. status x u) (unique _ _ _ e same)
      ∙ ap status_of (set_status_ne k.threads t u ready h)
      ∙ c

  -- A page that holds no thread gets a blocked one.
  abbrev added : ℕ → ℕ → Kernel
  added page priority = record k {
    threads =
        assign
          (assign k.threads page (some (record { tid = 0; status = blocked; priority = priority })))
          page
          (with_tid k.next_tid (
            assign k.threads page (some (record { tid = 0; status = blocked; priority = priority }))
              page));
    all_list = k.all_list ++ page ∷ [];
    next_tid = k.next_tid + 1;
  }

  added_cases :
      (page priority u : ℕ)
      → ((u ≡ page) × (status (added page priority) u ≡ some blocked))
        ⊎ ((u ≢ page) × (status (added page priority) u ≡ status k u))
  unfolding assign with_tid
  added_cases page priority u = elim (ℕ_discrete u page) [
    | yes q ↦ inl (q, ground (arith, q))
    | no q ↦ inr (q, ground (arith, q))
  ]

  added-IsScheduled :
      (page priority : ℕ) → k.threads page ≡ none → IsScheduled i (added page priority)
  added-IsScheduled page priority free =
      let alive : page ≢ i = λ q. v.alive (ap (status k) (sym q) ∙ ap status_of free) in
      let apart : k.current ≢ page =
        λ q. some-none _ running v.current (ap (status k) q ∙ ap status_of free) in
      record {
        idle = v.idle;
        alive = λ e. elim (added_cases page priority i) [
          | inl (q, x) ↦ alive (sym q)
          | inr (q, x) ↦ v.alive (sym x ∙ e)
        ];
        current = elim (added_cases page priority k.current) [
          | inl (q, x) ↦ absurd (apart q)
          | inr (q, x) ↦ x ∙ v.current
        ];
        alone = λ u e. elim (added_cases page priority u) [
          | inl (q, x) ↦ absurd (running-blocked (sym e ∙ x))
          | inr (q, x) ↦ v.alone u (sym x ∙ e)
        ];
        listed = λ u m. elim (added_cases page priority u) [
          | inl (q, x) ↦
              absurd (ready-none (sym (v.listed u m) ∙ ap (status k) q ∙ ap status_of free))
          | inr (q, x) ↦ x ∙ v.listed u m
        ];
        distinct = v.distinct;
        absent = v.absent;
        waiting = λ u e. elim (added_cases page priority u) [
          | inl (q, x) ↦ absurd (ready-blocked (sym e ∙ x))
          | inr (q, x) ↦ v.waiting u (sym x ∙ e)
        ];
      }

-- On a valid kernel, thread_create with a free page and a priority in range returns next_tid; the
-- kernel stays valid, the new thread is the last of the ready list, and the current thread stays.
pub create-IsScheduled :
    (i : ℕ) (k : Kernel) (page priority : ℕ)
    → IsScheduled i k
    → k.threads page ≡ none
    → priority ≤ pri_max
    → (k' : Kernel) × (create k (some page) priority ≡ some (some k.next_tid, k'))
      × IsScheduled i k'
      × (k'.ready_list ≡ k.ready_list ++ page ∷ [])
      × (k'.current ≡ k.current)
unfolding create init_thread
create-IsScheduled i k page priority v free p =
    let apart : page ≢ i = λ q. v.alive (ap (status k) (sym q) ∙ ap status_of free) in
    let blocked_there : status (added i k v page priority) page ≡ some blocked =
      elim (added_cases i k v page priority page) [
        | inl (q, x) ↦ x
        | inr (q, x) ↦ absurd (q refl)
      ] in
    let (k', e, s, l, c) =
      unblock-IsScheduled i (added i k v page priority) (added-IsScheduled i k v page priority free)
        page blocked_there apart in
    let low : leb priority pri_max ≡ true = ground arith in (k', rw (create, low, e) refl, s, l, c)
