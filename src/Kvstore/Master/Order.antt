-- ===== src/Kvstore/Master/Order.antt =====
-- What the registration of a slave makes of a sorted ring.
use group.Shared.{
  ℕ, ◌+◌, ◌≤◌, ◌<◌, ◌≡◌, ◌≢◌, ◌⊎◌, inl, inr, refl, Bool, true, false, some, List, [], ◌∷◌, ◌++◌,
  length, All, All-append, ltb, ◌==◌, ◌||◌, arith, if◌then◌else◌, Bool-cases,
}
use group.Kvstore.Text.{CString}
use group.Kvstore.Message.{Message, generic_error, success}
use group.Kvstore.Master.{Slave, Master, walk, insert, register_slave, hash_64_bit}
use group.Kvstore.Master.Ring.{IsSorted}

-- An element of the list has the id.
abbrev pub HasId : ℕ → List Slave → Type 0
HasId i [] = ⊥
HasId i (c ∷ l) = (c.id ≡ i) ⊎ HasId i l

-- Some element has a greater id.
abbrev pub HasAbove : ℕ → List Slave → Type 0
HasAbove i [] = ⊥
HasAbove i (c ∷ l) = (i < c.id) ⊎ HasAbove i l

HasId-bound : (i b : ℕ) (l : List Slave) → All (λ d. b < d.id) l → HasId i l → b < i
HasId-bound i b [] a h = absurd h
HasId-bound i b (c ∷ l) a (inl e) = omega arith
HasId-bound i b (c ∷ l) a (inr m) = HasId-bound i b l a.1 m

or_true : (a b : Bool) → b ≡ true → (a || b) ≡ true
or_true true b h = refl
or_true false b h = h

or_false : (a b : Bool) → a ≡ false → b ≡ false → (a || b) ≡ false
or_false true b h k = h
or_false false b h k = k

walk-known :
    (new c : Slave) (l : List Slave) (exists : Bool)
    → IsSorted (c ∷ l)
    → ((c.id ≡ new.id) × (exists ≡ true)) ⊎ HasId new.id l
    → walk new (c ∷ l) exists ≡ (c ∷ l, true)
unfolding walk
walk-known new c [] exists s (inl h) = ground arith
walk-known new c [] exists s (inr m) = absurd m
walk-known new c (d ∷ l) exists s (inl h) = ground arith
walk-known new c (d ∷ l) exists s (inr (inl e)) = ground (
  arith,
  walk-known new d l (exists || (d.id == new.id)) s.1
      (inl (e, or_true exists (d.id == new.id) (ground arith))),
)
walk-known new c (d ∷ l) exists s (inr (inr m)) =
    let lt = HasId-bound new.id d.id l s.1.0 m in
    ground (arith, walk-known new d l (exists || (d.id == new.id)) s.1 (inr m))

-- Behind every id that is there a new one keeps the order.
walk-last :
    (new c : Slave) (l : List Slave) (exists : Bool)
    → exists ≡ false
    → All (λ d. d.id < new.id) (c ∷ l)
    → walk new (c ∷ l) exists ≡ ((c ∷ l) ++ new ∷ [], false)
unfolding walk
walk-last new c [] exists h a = ground arith
walk-last new c (d ∷ l) exists h a = ground (
  arith,
  walk-last new d l (exists || (d.id == new.id)) (or_false exists (d.id == new.id) h (ground arith))
      a.1,
)

append-IsSorted :
    (new : Slave) (l : List Slave)
    → IsSorted l
    → All (λ d. d.id < new.id) l
    → IsSorted (l ++ new ∷ [])
append-IsSorted new [] s a = (tt, tt)
append-IsSorted new (c ∷ l) s a =
    (All-append (λ d. c.id < d.id) l (new ∷ []) s.0 (a.0, tt), append-IsSorted new l s.1 a.1)

-- On a sorted ring, tpcmaster_register leaves the ring as it is for an id that is in it, and puts
-- a new id in order if it is below all others or above all others.
pub insert-IsSorted :
    (new : Slave) (l : List Slave)
    → IsSorted l
    → (HasId new.id l → insert new l ≡ (l, true))
      × (All (λ d. new.id < d.id) l → (insert new l ≡ (new ∷ l, false)) × IsSorted (new ∷ l))
      × (All (λ d. d.id < new.id) l
          → (insert new l ≡ (l ++ new ∷ [], false)) × IsSorted (l ++ new ∷ []))
unfolding insert
insert-IsSorted new [] s = (λ m. absurd m, λ a. (refl, (tt, tt)), λ a. (refl, (tt, tt)))
insert-IsSorted new (c ∷ l) s = (
  λ m. elim m [
    | inl e ↦ ground (arith, walk-known new c l true s (inl (e, refl)))
    | inr m' ↦
        let lt = HasId-bound new.id c.id l s.0 m' in
        ground (arith, walk-known new c l (c.id == new.id) s (inr m'))
  ],
  λ a. (ground arith, (a, s)),
  λ a. (
    ground (arith, walk-last new c l (c.id == new.id) (ground arith) a),
    append-IsSorted new (c ∷ l) s a,
  ),
)

-- The loop stops behind the first greater id, and puts the new one there.
walk-between :
    (new c : Slave) (l : List Slave) (exists : Bool)
    → exists ≡ false
    → (HasId new.id (c ∷ l) → ⊥)
    → HasAbove new.id (c ∷ l)
    → (IsSorted (walk new (c ∷ l) exists).0 → ⊥) × ((walk new (c ∷ l) exists).1 ≡ false)
unfolding walk
walk-between new c [] exists h n (inl up) = (λ s. ground arith, ground arith)
walk-between new c [] exists h n (inr no_more) = absurd no_more
walk-between new c (d ∷ l) exists h n up = elim (Bool-cases (ltb c.id new.id)) [
  | inr stop ↦ let ne : c.id ≢ new.id = λ e. n (inl e) in (λ s. ground (arith, ne), ground arith)
  | inl go ↦
      let later : HasAbove new.id (d ∷ l) = elim up [ inl x ↦ absurd (ground arith) | inr u ↦ u ] in
      let ne : d.id ≢ new.id = λ e. n (inr (inl e)) in
      let rest =
        walk-between new d l (exists || (d.id == new.id))
          (or_false exists (d.id == new.id) h (ground (arith, ne))) (λ m. n (inr m)) later in
      (λ s. rest.0 (ground arith), ground (arith, rest.1))
]

-- For an id that is not in the ring, is above the first one and below some other,
-- tpcmaster_register leaves a ring that is not sorted.
pub insert-between :
    (new c : Slave) (l : List Slave)
    → ¬ HasId new.id (c ∷ l)
    → c.id < new.id
    → HasAbove new.id l
    → ¬ IsSorted (insert new (c ∷ l)).0
unfolding insert
insert-between new c l n lt up s =
    let ne : c.id ≢ new.id = λ e. n (inl e) in
    (walk-between new c l (c.id == new.id) (ground (arith, ne)) n (inr up)).0 (ground arith)

walk-length :
    (new c : Slave) (l : List Slave) (exists : Bool)
    → length (walk new (c ∷ l) exists).0
      ≡ (if (walk new (c ∷ l) exists).1 then length (c ∷ l) else length (c ∷ l) + 1)
unfolding walk
walk-length new c [] true = refl
walk-length new c [] false = refl
walk-length new c (d ∷ l) exists = ground (arith, walk-length new d l (exists || (d.id == new.id)))

insert-length :
    (new : Slave) (l : List Slave)
    → length (insert new l).0 ≡ (if (insert new l).1 then length l else length l + 1)
unfolding insert
insert-length new [] = refl
insert-length new (c ∷ l) = ground (arith, walk-length new c l (c.id == new.id))

-- `slave_count` is the number of slaves, and within the capacity.
abbrev pub IsCounted : Master → Type 0
IsCounted m = (length m.slaves ≡ m.slave_count) × (m.slave_count ≤ m.slave_capacity)

-- If slave_count is the length of the list and within the capacity, it is so after
-- tpcmaster_register; the response is MSG_SUCCESS if there is a free place before it, and if the
-- master is full nothing changes and the response is an error.
pub register_slave-IsCounted :
    (atoi : CString → ℕ) (m : Master) (key value : CString) (response : Message)
    → IsCounted m
    → IsCounted (register_slave atoi m key value response).0
      × (m.slave_count < m.slave_capacity
          → (register_slave atoi m key value response).1.message ≡ some success)
      × (m.slave_count ≡ m.slave_capacity
          → register_slave atoi m key value response
            ≡ (m, record response { message = some generic_error }))
unfolding register_slave
register_slave-IsCounted atoi m key value response c =
    let new : Slave = record {
      id = hash_64_bit ((value ++ b':' ∷ []) ++ key);
      host = key;
      port = atoi value;
    } in
    let n = insert-length new m.slaves in
    elim (Bool-cases (ltb m.slave_count m.slave_capacity)) [
      | inl free ↦ (
        elim (Bool-cases (insert new m.slaves).1) [
          | inl known ↦ rw (free, known) (ground (arith, n))
          | inr fresh ↦ rw (free, fresh) (ground (arith, n))
        ],
        λ p. rw free refl,
        λ p. absurd (ground arith),
      )
      | inr full ↦ (rw full c, λ p. absurd (ground arith), λ p. rw full refl)
    ]
