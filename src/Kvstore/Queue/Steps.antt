-- ===== src/Kvstore/Queue/Steps.antt =====
-- What every step of the threads, and every run, does to the jobs.
use group.Shared.{
  ℕ, true, false, Option, none, some, List, [], ◌∷◌, ◌++◌, ◌≡◌, ◌≢◌, ◌⊎◌, refl, sym, ap, ◌∙◌, inl,
  inr, Option-cases, Bool-cases, arith, ◌==◌,
}
use mathlib.Core.Path.{subst}
use mathlib.Core.List.{append-nil, append_assoc}
use group.Kvstore.Queue.{
  Pc, outside, push_call, push_locked, push_write, push_signal, push_unlock, pop_call, pop_test,
  pop_asleep, pop_woken, pop_item, pop_delete, pop_write, pop_unlock, System, Event, quiet, appends,
  returns, set, state, lock, statement, advance, wakes, appended, returned, Step, runs, pushes,
  pops, signals, signals_nobody, wakes_up, Run, stop, step,
}
use group.Kvstore.Queue.Order.{
  critical, Fits, carried, held, in_hand, IsOrderly, set_here, set_other, inside-IsOrderly,
  lock-IsOrderly, beside-IsOrderly, beside-held,
}

-- The order is kept, and so are the jobs.
abbrev Moves : {Job : Type 0} → System Job → Event Job → System Job → Type 0
Moves s e s' =
    IsOrderly s' × (in_hand s ++ (s.items ++ appended e) ≡ returned e ++ (in_hand s' ++ s'.items))

abbrev Outcome : {Job : Type 0} → System Job → Option (Event Job × System Job) → Type 0
Outcome s none = Unit
Outcome s (some (e, s')) = Moves s e s'

pub List-cases : {A : Type 0} (l : List A) → (l ≡ []) ⊎ ((a : A) × (m : List A) × (l ≡ a ∷ m))
List-cases [] = inl refl
List-cases (a ∷ m) = inr (a, m, refl)

nonempty : {A : Type 0} (l m : List A) (a : A) → l ≡ a ∷ m → l ≢ []
nonempty l m a p q = cc

pub never : {A : Type 0} → false ≡ true → A
never e = absurd cc

module _ {Job : Type 0} where
  -- The jobs in hand are those of the holder.
  holder_carries :
      (holder : Option ℕ) (threads : ℕ → Pc Job) (t : ℕ) (pc : Pc Job)
      → holder ≡ some t
      → threads t ≡ pc
      → held holder threads ≡ carried pc
  holder_carries holder threads t pc h p = ap (λ o. held o threads) h ∙ ap carried p

  inside_lem :
      (s : System Job) (t : ℕ) (pc pc' : Pc Job) (items : List Job) (e : Event Job)
      → IsOrderly s
      → s.threads t ≡ pc
      → critical pc ≡ true
      → Fits items pc'
      → carried pc ++ (s.items ++ appended e) ≡ returned e ++ (carried pc' ++ items)
      → Moves s e (state s t pc' items s.holder)
  inside_lem s t pc pc' items e i p c f q =
      let h = i.holds t (ap critical p ∙ c) in
      let before = holder_carries s.holder s.threads t pc h p in
      let after =
        holder_carries s.holder (set s.threads t pc') t pc' h (set_here s.threads t pc') in
      (
        inside-IsOrderly s t pc' items s.holder i (ap critical p ∙ c) (λ _. h) f,
        ap (λ l. l ++ (s.items ++ appended e)) before
            ∙ q
            ∙ ap (λ l. returned e ++ (l ++ items)) (sym after),
      )

  unlock_lem :
      (s : System Job) (t : ℕ) (pc pc' : Pc Job) (e : Event Job)
      → IsOrderly s
      → s.threads t ≡ pc
      → critical pc ≡ true
      → (critical pc' ≡ true → none ≡ some t)
      → Fits s.items pc'
      → carried pc ++ (s.items ++ appended e) ≡ returned e ++ s.items
      → Moves s e (state s t pc' s.items none)
  unlock_lem s t pc pc' e i p c n f q =
      let h = i.holds t (ap critical p ∙ c) in
      (
        inside-IsOrderly s t pc' s.items none i (ap critical p ∙ c) n f,
        ap (λ l. l ++ (s.items ++ appended e)) (holder_carries s.holder s.threads t pc h p) ∙ q,
      )

  lock_lem :
      (s : System Job) (t : ℕ) (pc : Pc Job)
      → IsOrderly s
      → Fits s.items pc
      → carried pc ≡ []
      → Outcome s (lock s t pc)
  unfolding lock
  lock_lem s t pc i f c = elim (Option-cases s.holder) [
    | inr (u, e) ↦
        let stuck : lock s t pc ≡ none =
          ap (λ o. elim o [ none ↦ some (quiet, state s t pc s.items (some t)) | some _ ↦ none ])
            e in
        subst (Outcome s) (sym stuck) tt
    | inl e ↦
        let goes : lock s t pc ≡ some (quiet, state s t pc s.items (some t)) =
          ap (λ o. elim o [ none ↦ some (quiet, state s t pc s.items (some t)) | some _ ↦ none ])
            e in
        subst (Outcome s) (sym goes) (
          lock-IsOrderly s t pc i e f,
          ap (λ o. held o s.threads ++ (s.items ++ [])) e
              ∙ append-nil s.items
              ∙ ap (λ l. l ++ s.items) (sym (ap carried (set_here s.threads t pc) ∙ c)),
        )
  ]

  beside_lem :
      (s : System Job) (t : ℕ) (pc pc' : Pc Job)
      → IsOrderly s
      → s.threads t ≡ pc
      → critical pc ≡ false
      → critical pc' ≡ false
      → Moves s quiet (state s t pc' s.items s.holder)
  beside_lem s t pc pc' i p c d = (
    beside-IsOrderly s t pc' i d,
    ap (λ l. in_hand s ++ l) (append-nil s.items)
        ∙ ap (λ l. l ++ s.items) (sym (beside-held s t pc' s.holder (ap critical p ∙ c) d)),
  )

  pub fit :
      (s : System Job) (t : ℕ) (pc : Pc Job) → IsOrderly s → s.threads t ≡ pc → Fits s.items pc
  fit s t pc i p = subst (Fits s.items) p (i.fits t)

  statement_lem :
      (s : System Job) (t : ℕ) (pc : Pc Job)
      → IsOrderly s
      → s.threads t ≡ pc
      → Outcome s (statement s t pc)
  unfolding statement
  statement_lem s t outside i p = tt
  statement_lem s t (push_call job) i p = lock_lem s t (push_locked job) i tt refl
  statement_lem s t (push_locked job) i p =
      inside_lem s t (push_locked job) (push_write job s.items) s.items quiet i p refl refl
        (append-nil s.items)
  statement_lem s t (push_write job l) i p =
      inside_lem s t (push_write job l) push_signal (l ++ job ∷ []) (appends job) i p refl tt
        (ap (λ m. m ++ job ∷ []) (fit s t (push_write job l) i p))
  statement_lem s t push_signal i p = tt
  statement_lem s t push_unlock i p =
      unlock_lem s t push_unlock outside quiet i p refl (λ e. absurd (never e)) tt
        (append-nil s.items)
  statement_lem s t pop_call i p = lock_lem s t pop_test i tt refl
  statement_lem s t pop_test i p = elim (List-cases s.items) [
    | inl e ↦
        let sleeps : statement s t pop_test ≡ some (quiet, state s t pop_asleep s.items none) =
          ap
            (λ l. elim l [
              | [] ↦ some (quiet, state s t pop_asleep s.items none)
              | _ ∷ _ ↦ some (quiet, state s t pop_item s.items s.holder)
            ])
            e in
        subst (Outcome s) (sym sleeps) (
          unlock_lem s t pop_test pop_asleep quiet i p refl (λ e. absurd (never e)) tt
            (append-nil s.items))
    | inr (job, l, e) ↦
        let leaves : statement s t pop_test ≡ some (quiet, state s t pop_item s.items s.holder) =
          ap
            (λ l. elim l [
              | [] ↦ some (quiet, state s t pop_asleep s.items none)
              | _ ∷ _ ↦ some (quiet, state s t pop_item s.items s.holder)
            ])
            e in
        subst (Outcome s) (sym leaves) (
          inside_lem s t pop_test pop_item s.items quiet i p refl (nonempty s.items l job e)
            (append-nil s.items))
  ]
  statement_lem s t pop_asleep i p = tt
  statement_lem s t pop_woken i p = lock_lem s t pop_test i tt refl
  statement_lem s t pop_item i p = elim (List-cases s.items) [
    | inl e ↦ absurd (fit s t pop_item i p e)
    | inr (job, l, e) ↦
        let reads : statement s t pop_item
            ≡ some (quiet, state s t (pop_delete job) s.items s.holder) =
          ap
            (λ l. elim l [
              | [] ↦ none
              | job ∷ _ ↦ some (quiet, state s t (pop_delete job) s.items s.holder)
            ])
            e in
        subst (Outcome s) (sym reads) (
          inside_lem s t pop_item (pop_delete job) s.items quiet i p refl (l, e)
            (append-nil s.items))
  ]
  statement_lem s t (pop_delete job) i p =
      let (l, e) = fit s t (pop_delete job) i p in
      let reads : statement s t (pop_delete job)
          ≡ some (quiet, state s t (pop_write job l) s.items s.holder) =
        ap
          (λ l. elim l [
            | [] ↦ none
            | _ ∷ l ↦ some (quiet, state s t (pop_write job l) s.items s.holder)
          ])
          e in
      subst (Outcome s) (sym reads) (
        inside_lem s t (pop_delete job) (pop_write job l) s.items quiet i p refl e
          (append-nil s.items))
  statement_lem s t (pop_write job l) i p =
      inside_lem s t (pop_write job l) (pop_unlock job) l quiet i p refl tt
        (append-nil s.items ∙ fit s t (pop_write job l) i p)
  statement_lem s t (pop_unlock job) i p =
      unlock_lem s t (pop_unlock job) outside (returns job) i p refl (λ e. absurd (never e)) tt
        (ap (λ l. job ∷ l) (append-nil s.items))

  Step-Moves : (s s' : System Job) (e : Event Job) → IsOrderly s → Step s e s' → Moves s e s'
  unfolding advance
  Step-Moves s s' e i (runs t q) = subst (Outcome s) q (statement_lem s t (s.threads t) i refl)
  Step-Moves s s' e i (pushes t job p) = beside_lem s t outside (push_call job) i p refl refl
  Step-Moves s s' e i (pops t p) = beside_lem s t outside pop_call i p refl refl
  Step-Moves s s' e i (signals_nobody t p n) =
      inside_lem s t push_signal push_unlock s.items quiet i p refl tt (append-nil s.items)
  Step-Moves s s' e i (wakes_up w p) = beside_lem s w pop_asleep pop_woken i p refl refl
  Step-Moves s s' e i (signals t w p q) =
      let (o, a) = beside_lem s w pop_asleep pop_woken i q refl refl in
      let still : (wakes s w).threads t ≡ push_signal =
        set_other s.threads w pop_woken t (apart t w p q) ∙ p in
      let (o', b) =
        inside_lem (wakes s w) t push_signal push_unlock s.items quiet o still refl tt
          (append-nil s.items) in
      (o', a ∙ ap (λ l. in_hand (wakes s w) ++ l) (sym (append-nil s.items)) ∙ b)
    where
      differ : (pc : Pc Job) → pc ≡ push_signal → pc ≡ pop_asleep → ⊥
      differ pc p q = cc

      apart : (t w : ℕ) → s.threads t ≡ push_signal → s.threads w ≡ pop_asleep → (t == w) ≡ false
      apart t w p q = elim (Bool-cases (t == w)) [
        | inr e ↦ e
        | inl e ↦
            let same : w ≡ t = ground (arith, e) in
            absurd (differ (s.threads t) p (subst (λ x. s.threads x ≡ pop_asleep) same q))
      ]

  pub run_lem :
      (s s' : System Job) (pushed popped : List Job)
      → IsOrderly s
      → Run s pushed popped s'
      → IsOrderly s' × (in_hand s ++ (s.items ++ pushed) ≡ popped ++ (in_hand s' ++ s'.items))
  run_lem s s' pushed popped i stop = (i, ap (λ l. in_hand s ++ l) (append-nil s.items))
  run_lem s s' pushed popped i (step {s' = s1} {e = e} {pushed = l} {popped = m} q r) =
      let (i1, a) = Step-Moves s s1 e i q in
      let (i2, b) = run_lem s1 s' l m i1 r in
      (
        i2,
        joined (in_hand s) s.items (appended e) l (returned e) (in_hand s1) s1.items m
            (in_hand s' ++ s'.items) a b,
      )
    where
      joined :
          (h i a l r h1 i1 m x : List Job)
          → h ++ (i ++ a) ≡ r ++ (h1 ++ i1)
          → h1 ++ (i1 ++ l) ≡ m ++ x
          → h ++ (i ++ (a ++ l)) ≡ (r ++ m) ++ x
      joined h i a l r h1 i1 m x p q =
          ap (λ y. h ++ y) (sym (append_assoc i a l))
          ∙ sym (append_assoc h (i ++ a) l)
          ∙ ap (λ y. y ++ l) p
          ∙ append_assoc r (h1 ++ i1) l
          ∙ ap (λ y. r ++ y) (append_assoc h1 i1 l ∙ q)
          ∙ sym (append_assoc r m x)
