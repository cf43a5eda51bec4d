-- ===== src/Pintos/Threads/Steps.antt =====
-- The operations of thread.c as steps: none fails an ASSERT, every reachable state is valid, and a ready
-- thread runs after as many switches as threads are in front of it.
use group.Shared.{
  ℕ, zero, suc, ◌≤◌, ◌<◌, ◌≡◌, ◌≢◌, refl, sym, ◌∙◌, ap, Bool, true, false, Option, none, some, List,
  [], ◌∷◌, ◌++◌, get_elem?, arith,
}
use mathlib.Core.Path.{subst}
use mathlib.Core.List.{append-nil}
use group.Pintos.Threads.{
  blocked, Kernel, pri_max, block, unblock, yield, exit, create, tick, next_thread_to_run,
}
use group.Pintos.Threads.Scheduled.{status, IsScheduled}
use group.Pintos.Threads.Switch.{Switches}
use group.Pintos.Threads.Leave.{requeue_both, block-Switches, exit-Switches, yield-Switches}
use group.Pintos.Threads.Wake.{unblock-IsScheduled, create-IsScheduled}

-- A call of an operation.
pub data Op : Type 0 where
  block_op yield_op exit_op tick_op : Op
  unblock_op : ℕ → Op
  create_op : Option ℕ → ℕ → Op

unfoldable pub step : Kernel → Op → Option Kernel
unfolding block yield exit tick unblock create
step k block_op = block k
step k yield_op = yield k
step k exit_op = exit k
step k tick_op = some (tick k).1
step k (unblock_op t) = unblock k t
step k (create_op page priority) = elim (create k page priority) [ none ↦ none | some r ↦ some r.1 ]

-- The calls that switch to another thread.
abbrev pub is_switch : Op → Bool
is_switch block_op = true
is_switch yield_op = true
is_switch exit_op = true
is_switch _ = false

-- What the callers see to: the idle thread does not exit and is not unblocked, only blocked threads are
-- unblocked, and the allocator returns a page that holds no thread.
abbrev pub Allowed : ℕ → Kernel → Op → Type 0
Allowed i k block_op = Unit
Allowed i k yield_op = Unit
Allowed i k exit_op = k.current ≢ i
Allowed i k tick_op = Unit
Allowed i k (unblock_op t) = (status k t ≡ some blocked) × (t ≢ i)
Allowed i k (create_op none priority) = Unit
Allowed i k (create_op (some page) priority) = (k.threads page ≡ none) × (priority ≤ pri_max)

-- How a step moves the ready list: threads come in at its end, and a switch takes the next thread from its
-- head.
abbrev pub Moves : ℕ → Bool → Kernel → Kernel → Type 0
Moves i true k k' =
    (l : List ℕ) × ((some k'.current, k'.ready_list)
      ≡ next_thread_to_run (k.ready_list ++ l) (some i))
Moves i false k k' = (l : List ℕ) × (k'.ready_list ≡ k.ready_list ++ l) × (k'.current ≡ k.current)

tick-IsScheduled : (i : ℕ) (k : Kernel) → IsScheduled i k → IsScheduled i (tick k).1
unfolding tick
tick-IsScheduled i k v = record {
  idle = v.idle;
  alive = v.alive;
  current = v.current;
  alone = v.alone;
  listed = v.listed;
  distinct = v.distinct;
  absent = v.absent;
  waiting = v.waiting;
}

Switches-Moves :
    (i : ℕ) (k : Kernel) (o : Option Kernel)
    → Switches i k o
    → (k' : Kernel) × (o ≡ some k') × IsScheduled i k' × Moves i true k k'
Switches-Moves i k o s =
    let (k', e, v, m) = s in
    (k', e, v, ([], m ∙ ap (λ l. next_thread_to_run l (some i)) (sym (append-nil k.ready_list))))

-- From a valid kernel (the current thread runs and no other, the ready list has the ready threads
-- but the idle one, each once, the idle thread exists), thread_block, thread_yield, thread_exit,
-- thread_unblock, thread_create and thread_tick, allowed as their callers see to it (the idle
-- thread does not exit and is not unblocked, only a blocked thread is unblocked, the page of a
-- new thread is free and its priority in range), fail no ASSERT and lead to a valid kernel;
-- threads come in at the end of the ready list, and a switch takes the head of it, or the idle
-- thread if it is empty.
pub step-IsScheduled :
    (i : ℕ) (k : Kernel) (op : Op)
    → IsScheduled i k
    → Allowed i k op
    → (k' : Kernel) × (step k op ≡ some k') × IsScheduled i k' × Moves i (is_switch op) k k'
unfolding step tick create
step-IsScheduled i k block_op v a = Switches-Moves i k (block k) (block-Switches i k v)
step-IsScheduled i k exit_op v a = Switches-Moves i k (exit k) (exit-Switches i k v a)
step-IsScheduled i k yield_op v a =
    let (k', e, v', m) = yield-Switches i k v in
    (
      k',
      e,
      v',
      requeue_both i k v
          (λ r.
            (some k'.current, k'.ready_list) ≡ next_thread_to_run r (some i) → Moves i true k k')
          (λ q n. ([], n ∙ ap (λ l. next_thread_to_run l (some i)) (sym (append-nil k.ready_list))))
          (λ q n. (k.current ∷ [], n)) m,
    )
step-IsScheduled i k tick_op v a =
    ((tick k).1, refl, tick-IsScheduled i k v, ([], sym (append-nil k.ready_list), refl))
step-IsScheduled i k (unblock_op t) v a =
    let (k', e, v', l, c) = unblock-IsScheduled i k v t a.0 a.1 in (k', e, v', (t ∷ [], l, c))
step-IsScheduled i k (create_op none priority) v a =
    (k, refl, v, ([], sym (append-nil k.ready_list), refl))
step-IsScheduled i k (create_op (some page) priority) v a =
    let (k', e, v', l, c) = create-IsScheduled i k page priority v a.0 a.1 in
    (k', rw (step, e) refl, v', (page ∷ [], l, c))

-- Sequences of allowed steps, with the number of switches in them.
pub data Steps (i : ℕ) : Kernel → ℕ → Kernel → Type 0 where
  stop : {k : Kernel} → Steps i k 0 k
  switch :
      {k k' l : Kernel} {n : ℕ} (op : Op)
      → is_switch op ≡ true
      → Allowed i k op
      → step k op ≡ some k'
      → Steps i k' n l
      → Steps i k (suc n) l
  keep :
      {k k' l : Kernel} {n : ℕ} (op : Op)
      → is_switch op ≡ false
      → Allowed i k op
      → step k op ≡ some k'
      → Steps i k' n l
      → Steps i k n l

same_some : (k k' : Kernel) (o : Option Kernel) → o ≡ some k → o ≡ some k' → k ≡ k'
same_some k k' o e f = cc

step_lem :
    (i : ℕ) (k k' : Kernel) (op : Op)
    → IsScheduled i k
    → Allowed i k op
    → step k op ≡ some k'
    → IsScheduled i k' × Moves i (is_switch op) k k'
step_lem i k k' op v a e =
    let (k'', e', v', m) = step-IsScheduled i k op v a in
    subst (λ x. IsScheduled i x × Moves i (is_switch op) k x) (same_some k'' k' (step k op) e' e)
      (v', m)

-- Every state that is reached is valid.
pub reached-IsScheduled :
    (i n : ℕ) (k k' : Kernel) → Steps i k n k' → IsScheduled i k → IsScheduled i k'
reached-IsScheduled i n k k' stop v = v
reached-IsScheduled i n k k' (switch {k' = m} op b a e s) v =
    reached-IsScheduled i _ m k' s (step_lem i k m op v a e).0
reached-IsScheduled i n k k' (keep {k' = m} op b a e s) v =
    reached-IsScheduled i _ m k' s (step_lem i k m op v a e).0

get_elem?-left : (l m : List ℕ) (p t : ℕ) → get_elem? l p ≡ some t → get_elem? (l ++ m) p ≡ some t
get_elem?-left [] m p t e = absurd (cc)
get_elem?-left (u ∷ l) m zero t e = e
get_elem?-left (u ∷ l) m (suc p) t e = get_elem?-left l m p t e

next_head :
    (r l : List ℕ) (i c t : ℕ)
    → get_elem? r 0 ≡ some t
    → (some c, l) ≡ next_thread_to_run r (some i)
    → c ≡ t
unfolding next_thread_to_run
next_head [] l i c t e m = absurd (cc)
next_head (u ∷ r) l i c t e m = cc

next_tail :
    (r l : List ℕ) (i c p t : ℕ)
    → get_elem? r (suc p) ≡ some t
    → (some c, l) ≡ next_thread_to_run r (some i)
    → get_elem? l p ≡ some t
unfolding next_thread_to_run
next_tail [] l i c p t e m = absurd (cc)
next_tail (u ∷ r) l i c p t e m = ap (λ x. get_elem? x.1 p) m ∙ e

-- The state of a run right after its switch number p + 1, or its last state if it has no such switch.
unfoldable pub after_switch : {i n : ℕ} {k k' : Kernel} → ℕ → Steps i k n k' → Kernel
after_switch {k = k} p stop = k
after_switch p (keep op b a x s) = after_switch p s
after_switch zero (switch {k' = k1} op b a x s) = k1
after_switch (suc p) (switch op b a x s) = after_switch p s

-- From a valid kernel, in any sequence of allowed steps with more than p switches, a thread that
-- has p others in front of it in the ready list is the current thread right after switch number p
-- + 1.
pub reached-current :
    (i n p t : ℕ) (k k' : Kernel) (s : Steps i k n k')
    → IsScheduled i k
    → get_elem? k.ready_list p ≡ some t
    → p < n
    → (after_switch p s).current ≡ t
unfolding after_switch
reached-current i n p t k k' stop v e h = absurd (omega arith)
reached-current i n p t k k' (keep {k' = k1} op b a x s) v e h =
    let (v', m) = step_lem i k k1 op v a x in
    let (l, r, c) : Moves i false k k1 = subst (λ q. Moves i q k k1) b m in
    let e' = ap (λ q. get_elem? q p) r ∙ get_elem?-left k.ready_list l p t e in
    reached-current i _ p t k1 k' s v' e' h
reached-current i n zero t k k' (switch {k' = k1} op b a x s) v e h =
    let (v', m) = step_lem i k k1 op v a x in
    let (l, r) : Moves i true k k1 = subst (λ q. Moves i q k k1) b m in
    next_head (k.ready_list ++ l) k1.ready_list i k1.current t (get_elem?-left k.ready_list l 0 t e)
      r
reached-current i n (suc p) t k k' (switch {k' = k1} op b a x s) v e h =
    let (v', m) = step_lem i k k1 op v a x in
    let (l, r) : Moves i true k k1 = subst (λ q. Moves i q k k1) b m in
    let e' =
      next_tail (k.ready_list ++ l) k1.ready_list i k1.current p t
        (get_elem?-left k.ready_list l (suc p) t e) r in
    reached-current i _ p t k1 k' s v' e' (omega arith)
