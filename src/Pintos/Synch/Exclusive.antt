-- ===== src/Pintos/Synch/Exclusive.antt =====
-- Threads that acquire and release one lock: at most one is between `lock_acquire` and `lock_release`, and no
-- ASSERT on the holder fails.
use group.Shared.{
  ℕ, ◌+◌, ◌%◌, ◌^◌, ◌<◌, ◌≡◌, ◌≢◌, refl, sym, ◌∙◌, ap, Bool, true, false, Option, none, some, ◌==◌,
  if◌then◌else◌, arith, ℕ_discrete,
}
use group.Pintos.Threads.{Kernel}
use group.Pintos.Synch.{
  Semaphore, sema_down_round, sema_up, Lock, lock_acquire_check, lock_acquire_set,
  lock_release_clear,
}

-- Where a thread is: out of both functions and without the lock, in the loop of `sema_down`, after it and
-- before the holder is set, with the lock, and in `lock_release` before `sema_up`.
pub data Place : Type 0 where
  out waiting entered holding leaving : Place

pub record System : Type 0 where
  pub kernel : Kernel
  pub lock : Lock
  pub place : ℕ → Place

abbrev pub move : (ℕ → Place) → ℕ → Place → ℕ → Place
move place t p u = if u == t then p else place u

-- A step of the running thread. Anything else that the kernel does leaves the lock alone.
pub data LockStep : System → System → Type 0 where
  acquire :
      {k : Kernel} {l l' : Lock} {p : ℕ → Place}
      → p k.current ≡ out
      → lock_acquire_check k l ≡ some l'
      → LockStep
          (record { kernel = k; lock = l; place = p })
          (record { kernel = k; lock = l'; place = move p k.current waiting })
  pass :
      {k k' : Kernel} {l : Lock} {s : Semaphore} {p : ℕ → Place}
      → p k.current ≡ waiting
      → sema_down_round k l.semaphore ≡ (true, some k', s)
      → LockStep
          (record { kernel = k; lock = l; place = p })
          (record {
            kernel = k';
            lock = record l { semaphore = s };
            place = move p k.current entered;
          })
  sleep :
      {k k' : Kernel} {l : Lock} {s : Semaphore} {p : ℕ → Place}
      → p k.current ≡ waiting
      → sema_down_round k l.semaphore ≡ (false, some k', s)
      → LockStep
          (record { kernel = k; lock = l; place = p })
          (record { kernel = k'; lock = record l { semaphore = s }; place = p })
  set :
      {k : Kernel} {l : Lock} {p : ℕ → Place}
      → p k.current ≡ entered
      → LockStep
          (record { kernel = k; lock = l; place = p })
          (record { kernel = k; lock = lock_acquire_set k l; place = move p k.current holding })
  clear :
      {k : Kernel} {l l' : Lock} {p : ℕ → Place}
      → p k.current ≡ holding
      → lock_release_clear k l ≡ some l'
      → LockStep
          (record { kernel = k; lock = l; place = p })
          (record { kernel = k; lock = l'; place = move p k.current leaving })
  up :
      {k k' : Kernel} {l : Lock} {s : Semaphore} {p : ℕ → Place}
      → p k.current ≡ leaving
      → sema_up k l.semaphore ≡ (some k', s)
      → LockStep
          (record { kernel = k; lock = l; place = p })
          (record { kernel = k'; lock = record l { semaphore = s }; place = move p k.current out })
  other :
      {k k' : Kernel} {l : Lock} {p : ℕ → Place}
      → LockStep
          (record { kernel = k; lock = l; place = p })
          (record { kernel = k'; lock = l; place = p })

abbrev pub is_inside : Place → Bool
is_inside entered = true
is_inside holding = true
is_inside leaving = true
is_inside _ = false

abbrev pub value_of : Option ℕ → ℕ
value_of none = 1
value_of (some o) = 0

abbrev pub is_owner : Option ℕ → ℕ → Bool
is_owner none t = false
is_owner (some o) t = t == o

abbrev pub holder_at : ℕ → Place → Option ℕ
holder_at o holding = some o
holder_at o _ = none

abbrev pub holder_of : (ℕ → Place) → Option ℕ → Option ℕ
holder_of p none = none
holder_of p (some o) = holder_at o (p o)

-- The semaphore is 1 and no thread is inside, or it is 0 and one thread is; that thread is the holder once
-- it has set it.
pub record IsExclusive (y : System) : Type 0 where
  pub owner : Option ℕ
  pub value : y.lock.semaphore.value ≡ value_of owner
  pub inside : (t : ℕ) → is_inside (y.place t) ≡ is_owner owner t
  pub holder : y.lock.holder ≡ holder_of y.place owner

down_value :
    (k k' : Kernel) (s s' : Semaphore)
    → sema_down_round k s ≡ (true, some k', s')
    → (0 < s.value) × (s'.value + 1 ≡ s.value)
unfolding sema_down_round
down_value k k' s s' e = ground arith

sleep_value :
    (k k' : Kernel) (s s' : Semaphore)
    → sema_down_round k s ≡ (false, some k', s')
    → s'.value ≡ s.value
unfolding sema_down_round
sleep_value k k' s s' e = ground arith

up_value :
    (k k' : Kernel) (s s' : Semaphore)
    → sema_up k s ≡ (some k', s')
    → s'.value ≡ (s.value + 1) % 2 ^ 32
unfolding sema_up
up_value k k' s s' e = ground arith

owner_eq : (o : Option ℕ) (t : ℕ) → is_owner o t ≡ true → o ≡ some t
owner_eq none t e = absurd (cc)
owner_eq (some o) t e = ap some (ground arith)

-- No thread but the owner is inside.
pub inside_cases :
    (y : System) (x : IsExclusive y) (t : ℕ) → is_inside (y.place t) ≡ true → x.owner ≡ some t
inside_cases y x t e = owner_eq x.owner t (sym (x.inside t) ∙ e)

move_self : (p : ℕ → Place) (c : ℕ) (d : Place) → move p c d c ≡ d
move_self p c d = ground arith

move_ne : (p : ℕ → Place) (c t : ℕ) (d : Place) → t ≢ c → move p c d t ≡ p t
move_ne p c t d h = ground arith

-- A move that stays inside or stays outside.
inside_move :
    (p : ℕ → Place) (c t : ℕ) (d : Place)
    → is_inside d ≡ is_inside (p c)
    → is_inside (move p c d t) ≡ is_inside (p t)
inside_move p c t d h = elim (ℕ_discrete t c) [
  | yes q ↦
      ap (λ u. is_inside (move p c d u)) q
      ∙ ap is_inside (move_self p c d)
      ∙ h
      ∙ ap (λ u. is_inside (p u)) (sym q)
  | no q ↦ ap is_inside (move_ne p c t d q)
]

holder_move :
    (p : ℕ → Place) (c : ℕ) (d : Place) (owner : Option ℕ)
    → is_owner owner c ≡ false
    → holder_of (move p c d) owner ≡ holder_of p owner
holder_move p c d none h = refl
holder_move p c d (some o) h = ap (holder_at o) (move_ne p c o d (λ q. ground arith))

free_owner : (o : Option ℕ) (v : ℕ) → v ≡ value_of o → 0 < v → o ≡ none
free_owner none v e h = refl
free_owner (some o) v e h = absurd (omega arith)

check_same : (k : Kernel) (l l' : Lock) → lock_acquire_check k l ≡ some l' → l ≡ l'
unfolding lock_acquire_check
check_same k l l' e = ground arith

clear_same :
    (k : Kernel) (l l' : Lock)
    → lock_release_clear k l ≡ some l'
    → (l'.semaphore.value ≡ l.semaphore.value) × (l'.holder ≡ none)
unfolding lock_release_clear
clear_same k l l' e = ground arith

pub step-IsExclusive : (y z : System) → LockStep y z → IsExclusive y → IsExclusive z
unfolding lock_acquire_set
step-IsExclusive y z (acquire {k = k} {l = l} {l' = l'} {p = p} o e) x =
    let same = check_same k l l' e in
    let outside : is_owner x.owner k.current ≡ false = sym (x.inside k.current) ∙ ap is_inside o in
    record {
      owner = x.owner;
      value = ap (λ m. m.semaphore.value) (sym same) ∙ x.value;
      inside = λ t. inside_move p k.current t waiting (ap is_inside (sym o)) ∙ x.inside t;
      holder =
          ap (λ m. m.holder) (sym same)
          ∙ x.holder
          ∙ sym (holder_move p k.current waiting x.owner outside);
    }
step-IsExclusive y z (pass {k = k} {k' = k'} {l = l} {s = s} {p = p} o e) x =
    let (positive, down) = down_value k k' l.semaphore s e in
    let free = free_owner x.owner l.semaphore.value x.value positive in
    let one : l.semaphore.value ≡ 1 = x.value ∙ ap value_of free in
    record {
      owner = some k.current;
      value = omega arith;
      inside = λ t. elim (ℕ_discrete t k.current) [
        | yes q ↦ ground (arith, q)
        | no q ↦
            ap is_inside (move_ne p k.current t entered q)
            ∙ x.inside t
            ∙ ap (λ w. is_owner w t) free
            ∙ ground (arith, q)
      ];
      holder =
          x.holder
          ∙ ap (holder_of p) free
          ∙ ap (holder_at k.current) (sym (move_self p k.current entered));
    }
step-IsExclusive y z (sleep {k = k} {k' = k'} {l = l} {s = s} {p = p} o e) x = record {
  owner = x.owner;
  value = sleep_value k k' l.semaphore s e ∙ x.value;
  inside = x.inside;
  holder = x.holder;
}
step-IsExclusive y z (set {k = k} {l = l} {p = p} o) x =
    let mine = inside_cases y x k.current (ap is_inside o) in
    record {
      owner = x.owner;
      value = x.value;
      inside = λ t. inside_move p k.current t holding (ap is_inside (sym o)) ∙ x.inside t;
      holder =
          ap (holder_at k.current) (sym (move_self p k.current holding))
          ∙ ap (holder_of (move p k.current holding)) (sym mine);
    }
step-IsExclusive y z (clear {k = k} {l = l} {l' = l'} {p = p} o e) x =
    let mine = inside_cases y x k.current (ap is_inside o) in
    let (same, cleared) = clear_same k l l' e in
    record {
      owner = x.owner;
      value = same ∙ x.value;
      inside = λ t. inside_move p k.current t leaving (ap is_inside (sym o)) ∙ x.inside t;
      holder =
          cleared
          ∙ ap (holder_at k.current) (sym (move_self p k.current leaving))
          ∙ ap (holder_of (move p k.current leaving)) (sym mine);
    }
step-IsExclusive y z (up {k = k} {k' = k'} {l = l} {s = s} {p = p} o e) x =
    let mine = inside_cases y x k.current (ap is_inside o) in
    let zero : l.semaphore.value ≡ 0 = x.value ∙ ap value_of mine in
    record {
      owner = none;
      value = up_value k k' l.semaphore s e ∙ ap (λ n. (n + 1) % 2 ^ 32) zero;
      inside = λ t. elim (ℕ_discrete t k.current) [
        | yes q ↦ ground (arith, q)
        | no q ↦
            ap is_inside (move_ne p k.current t out q)
            ∙ x.inside t
            ∙ ap (λ w. is_owner w t) mine
            ∙ ground (arith, q)
      ];
      holder = x.holder ∙ ap (holder_of p) mine ∙ ap (holder_at k.current) o;
    }
step-IsExclusive y z other x = record {
  owner = x.owner;
  value = x.value;
  inside = x.inside;
  holder = x.holder;
}
