-- ===== src/Kvstore/Queue/Runs.antt =====
-- What the runs of the threads deliver.
use group.Shared.{
  ℕ, true, Option, none, some, List, [], ◌∷◌, ◌++◌, ◌≡◌, ◌≢◌, ◌⊎◌, sym, ap, ◌∙◌, inl, inr,
}
use mathlib.Core.Path.{subst}
use group.Kvstore.Queue.{
  outside, pop_item, pop_delete, pop_write, System, quiet, state, statement, advance, Run,
}
use group.Kvstore.Queue.Order.{critical, Fits, held, in_hand, IsOrderly}
use group.Kvstore.Queue.Steps.{List-cases, never, fit, run_lem}

-- No thread is in a call, and the mutex is free.
abbrev pub IsIdle : {Job : Type 0} → System Job → Type 0
IsIdle s = (s.holder ≡ none) × ((t : ℕ) → s.threads t ≡ outside)

-- Jobs come out in the order in which they came in, two threads are not both between lock and unlock, and
-- a thread that reads the head of the list goes on.
abbrev pub Delivers : {Job : Type 0} → System Job → List Job → List Job → System Job → Type 0
Delivers {Job = Job} s pushed popped s' =
    (s.items ++ pushed ≡ popped ++ (in_hand s' ++ s'.items))
    × ((t u : ℕ) → critical (s'.threads t) ≡ true → critical (s'.threads u) ≡ true → t ≡ u)
    × ((t : ℕ)
        → (s'.threads t ≡ pop_item) ⊎ ((job : Job) × (s'.threads t ≡ pop_delete job))
        → advance s' t ≢ none)

idle-IsOrderly : {Job : Type 0} (s : System Job) → IsIdle s → IsOrderly s
idle-IsOrderly s (h, o) = record {
  holds = λ t e. never (sym (ap critical (o t)) ∙ e);
  fits = λ t. subst (Fits s.items) (sym (o t)) tt;
}

one_thread : (o : Option ℕ) (t u : ℕ) → o ≡ some t → o ≡ some u → t ≡ u
one_thread o t u p q = cc

something : {A : Type 0} {a : A} → some a ≡ none → ⊥
something q = cc

goes_on :
    {Job : Type 0} (s : System Job)
    → IsOrderly s
    → (t : ℕ) → (s.threads t ≡ pop_item) ⊎ ((job : Job) × (s.threads t ≡ pop_delete job))
    → advance s t ≢ none
unfolding advance statement
goes_on s i t (inl p) n = elim (List-cases s.items) [
  | inl e ↦ fit s t pop_item i p e
  | inr (job, l, e) ↦ something (
      sym (
        ap
          (λ l. elim l [
            | [] ↦ none
            | job ∷ _ ↦ some (quiet, state s t (pop_delete job) s.items s.holder)
          ])
          e)
      ∙ sym (ap (statement s t) p)
      ∙ n)
]
goes_on s i t (inr (job, p)) n =
    let (l, e) = fit s t (pop_delete job) i p in
    something (
      sym (
        ap
          (λ l. elim l [
            | [] ↦ none
            | _ ∷ l ↦ some (quiet, state s t (pop_write job l) s.items s.holder)
          ])
          e)
      ∙ sym (ap (statement s t) p)
      ∙ n)

-- From a queue whose mutex is free and that no thread uses, after any sequence of steps of
-- threads that call wq_push and wq_pop, one statement at a time, with signals and spurious wake-
-- ups: the items at the start followed by the jobs that were appended are the jobs that wq_pop
-- returned, then the one that a thread has taken out and not yet returned, if there is one, then
-- the items at the end, so no job is lost, doubled or out of order; two different threads are
-- never both between lock and unlock; and a thread that reads wq->head->item or deletes the head
-- does not find NULL.
pub run-Delivers :
    {Job : Type 0} (s s' : System Job) (pushed popped : List Job)
    → IsIdle s
    → Run s pushed popped s'
    → Delivers s pushed popped s'
run-Delivers s s' pushed popped (h, o) r =
    let (i, q) = run_lem s s' pushed popped (idle-IsOrderly s (h, o)) r in
    (
      sym (ap (λ x. held x s.threads ++ (s.items ++ pushed)) h) ∙ q,
      λ t u a b. one_thread s'.holder t u (i.holds t a) (i.holds u b),
      goes_on s' i,
    )
