-- ===== src/Kvstore/Queue/Order.antt =====
-- Who is between lock and unlock, and what the others may do meanwhile.
use group.Shared.{
  ℕ, Bool, true, false, Option, none, some, List, [], ◌∷◌, ◌==◌, ◌≡◌, ◌≢◌, refl, sym, ap, ◌∙◌, inl,
  inr, Bool-cases, arith,
}
use mathlib.Core.Path.{subst}
use group.Kvstore.Queue.{
  Pc, outside, push_call, push_locked, push_write, push_signal, push_unlock, pop_call, pop_test,
  pop_asleep, pop_woken, pop_item, pop_delete, pop_write, pop_unlock, System, set, state,
}

-- Between lock and unlock, but not asleep.
abbrev pub critical : {Job : Type 0} → Pc Job → Bool
critical outside = false
critical (push_call _) = false
critical (push_locked _) = true
critical (push_write _ _) = true
critical push_signal = true
critical push_unlock = true
critical pop_call = false
critical pop_test = true
critical pop_asleep = false
critical pop_woken = false
critical pop_item = true
critical (pop_delete _) = true
critical (pop_write _ _) = true
critical (pop_unlock _) = true

-- What a thread has read of the list is there.
abbrev pub Fits : {Job : Type 0} → List Job → Pc Job → Type 0
Fits items (push_write _ l) = items ≡ l
Fits items pop_item = items ≢ []
Fits {Job = Job} items (pop_delete job) = (l : List Job) × (items ≡ job ∷ l)
Fits items (pop_write job l) = items ≡ job ∷ l
Fits _ _ = Unit

-- The job that a thread has taken out, and not yet returned.
abbrev pub carried : {Job : Type 0} → Pc Job → List Job
carried (pop_unlock job) = job ∷ []
carried _ = []

abbrev pub held : {Job : Type 0} → Option ℕ → (ℕ → Pc Job) → List Job
held none threads = []
held (some t) threads = carried (threads t)

abbrev pub in_hand : {Job : Type 0} → System Job → List Job
in_hand s = held s.holder s.threads

pub record IsOrderly {Job : Type 0} (s : System Job) : Type 0 where
  pub holds : (t : ℕ) → critical (s.threads t) ≡ true → s.holder ≡ some t
  pub fits : (t : ℕ) → Fits s.items (s.threads t)

clash : (b : Bool) → b ≡ true → b ≡ false → ⊥
clash b p q = cc

one_holder : (o : Option ℕ) (t u : ℕ) → o ≡ some t → o ≡ some u → u ≡ t
one_holder o t u p q = cc

module _ {Job : Type 0} where
  outside-Fits : (items : List Job) (pc : Pc Job) → critical pc ≡ false → Fits items pc
  outside-Fits items (push_write _ _) e = absurd (clash true refl e)
  outside-Fits items pop_item e = absurd (clash true refl e)
  outside-Fits items (pop_delete _) e = absurd (clash true refl e)
  outside-Fits items (pop_write _ _) e = absurd (clash true refl e)
  outside-Fits items outside e = tt
  outside-Fits items (push_call _) e = tt
  outside-Fits items (push_locked _) e = tt
  outside-Fits items push_signal e = tt
  outside-Fits items push_unlock e = tt
  outside-Fits items pop_call e = tt
  outside-Fits items pop_test e = tt
  outside-Fits items pop_asleep e = tt
  outside-Fits items pop_woken e = tt
  outside-Fits items (pop_unlock _) e = tt

  outside-carried : (pc : Pc Job) → critical pc ≡ false → carried pc ≡ []
  outside-carried (pop_unlock _) e = absurd (clash true refl e)
  outside-carried outside e = refl
  outside-carried (push_call _) e = refl
  outside-carried (push_locked _) e = refl
  outside-carried (push_write _ _) e = refl
  outside-carried push_signal e = refl
  outside-carried push_unlock e = refl
  outside-carried pop_call e = refl
  outside-carried pop_test e = refl
  outside-carried pop_asleep e = refl
  outside-carried pop_woken e = refl
  outside-carried pop_item e = refl
  outside-carried (pop_delete _) e = refl
  outside-carried (pop_write _ _) e = refl

  pub set_here : (threads : ℕ → Pc Job) (t : ℕ) (pc : Pc Job) → set threads t pc t ≡ pc
  unfolding set
  set_here threads t pc = let same : (t == t) ≡ true = ground arith in rw same refl

  pub set_other :
      (threads : ℕ → Pc Job) (t : ℕ) (pc : Pc Job) (u : ℕ)
      → (u == t) ≡ false
      → set threads t pc u ≡ threads u
  unfolding set
  set_other threads t pc u e = rw e refl

  -- A property of every thread, after one has moved.
  everywhere :
      (P : ℕ → Pc Job → Type 0) (threads : ℕ → Pc Job) (t : ℕ) (pc : Pc Job)
      → P t pc
      → ((u : ℕ) → u ≢ t → P u (threads u))
      → (u : ℕ) → P u (set threads t pc u)
  everywhere P threads t pc here there u = elim (Bool-cases (u == t)) [
    | inl e ↦
        let same : t ≡ u = ground (arith, e) in
        subst (λ x. P x (set threads t pc x)) same (subst (P t) (sym (set_here threads t pc)) here)
    | inr e ↦
        let apart : u ≢ t = λ q. ground (arith, e, q) in
        subst (P u) (sym (set_other threads t pc u e)) (there u apart)
  ]

  -- While a thread is between lock and unlock, no other one is.
  alone :
      (s : System Job) (t u : ℕ)
      → IsOrderly s
      → critical (s.threads t) ≡ true
      → u ≢ t
      → critical (s.threads u) ≡ false
  alone s t u i c d = elim (Bool-cases (critical (s.threads u))) [
    | inr e ↦ e
    | inl e ↦ absurd (d (one_holder s.holder t u (i.holds t c) (i.holds u e)))
  ]

  -- A statement between lock and unlock, or an unlock.
  pub inside-IsOrderly :
      (s : System Job) (t : ℕ) (pc : Pc Job) (items : List Job) (holder : Option ℕ)
      → IsOrderly s
      → critical (s.threads t) ≡ true
      → (critical pc ≡ true → holder ≡ some t)
      → Fits items pc
      → IsOrderly (state s t pc items holder)
  inside-IsOrderly s t pc items holder i c h f = record {
    holds =
        everywhere (λ u x. critical x ≡ true → holder ≡ some u) s.threads t pc h
          (λ u d e. absurd (clash (critical (s.threads u)) e (alone s t u i c d)));
    fits =
        everywhere (λ u x. Fits items x) s.threads t pc f
          (λ u d. outside-Fits items (s.threads u) (alone s t u i c d));
  }

  -- A lock.
  pub lock-IsOrderly :
      (s : System Job) (t : ℕ) (pc : Pc Job)
      → IsOrderly s
      → s.holder ≡ none
      → Fits s.items pc
      → IsOrderly (state s t pc s.items (some t))
  lock-IsOrderly s t pc i n f = record {
    holds =
        everywhere (λ u x. critical x ≡ true → some t ≡ some u) s.threads t pc (λ _. refl)
          (λ u d e. absurd (free s.holder u n (i.holds u e)));
    fits = everywhere (λ u x. Fits s.items x) s.threads t pc f (λ u d. i.fits u);
  }
    where
      free : (o : Option ℕ) (u : ℕ) → o ≡ none → o ≡ some u → ⊥
      free o u p q = cc

  -- A statement elsewhere.
  pub beside-IsOrderly :
      (s : System Job) (t : ℕ) (pc : Pc Job)
      → IsOrderly s
      → critical pc ≡ false
      → IsOrderly (state s t pc s.items s.holder)
  beside-IsOrderly s t pc i c = record {
    holds =
        everywhere (λ u x. critical x ≡ true → s.holder ≡ some u) s.threads t pc
          (λ e. absurd (clash (critical pc) e c)) (λ u d e. i.holds u e);
    fits =
        everywhere (λ u x. Fits s.items x) s.threads t pc (outside-Fits s.items pc c)
          (λ u d. i.fits u);
  }

  pub beside-held :
      (s : System Job) (t : ℕ) (pc : Pc Job) (holder : Option ℕ)
      → critical (s.threads t) ≡ false
      → critical pc ≡ false
      → held holder (set s.threads t pc) ≡ held holder s.threads
  beside-held s t pc none c d = refl
  beside-held s t pc (some u) c d = elim (Bool-cases (u == t)) [
    | inr e ↦ ap carried (set_other s.threads t pc u e)
    | inl e ↦
        let same : t ≡ u = ground (arith, e) in
        subst (λ x. carried (set s.threads t pc x) ≡ carried (s.threads x)) same
          (ap carried (set_here s.threads t pc)
            ∙ outside-carried pc d
            ∙ sym (outside-carried (s.threads t) c))
  ]
