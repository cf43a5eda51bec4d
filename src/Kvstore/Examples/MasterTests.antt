-- ===== src/Kvstore/Examples/MasterTests.antt =====
-- The ring of slaves at concrete inputs.
use group.Shared.{
  ℕ, ◌<◌, ◌≡◌, ◌≢◌, inl, inr, refl, true, false, none, some, List, [], ◌∷◌, ◌++◌, length, All,
  arith,
}
use group.Kvstore.Text.{CString}
use group.Kvstore.Outcome.{ok}
use group.Kvstore.Message.{resp, success, generic_error}
use group.Kvstore.Master.{Slave, Master, init, insert, register_slave, get_primary, hash_64_bit}
use group.Kvstore.Master.Ring.{
  IsSorted, IsIn, Owns, get_primary-Owns, successors, successors-distinct,
}
use group.Kvstore.Master.Order.{
  HasId, IsCounted, insert-IsSorted, insert-between, register_slave-IsCounted,
}

abbrev slave : ℕ → Slave
slave i = record { id = i; host = []; port = 0 }

abbrev ring : List Slave
ring = slave 10 ∷ slave 20 ∷ slave 40 ∷ []

abbrev key : CString
key = 107 ∷ []

abbrev port_of : CString → ℕ
port_of s = length s

ring-IsSorted : IsSorted ring
ring-IsSorted = ground arith

get_primary-Owns_example :
    (s : Slave) × (get_primary ring key ≡ ok s) × IsIn s ring × Owns (hash_64_bit key) ring s
get_primary-Owns_example = get_primary-Owns (slave 10) (slave 20 ∷ slave 40 ∷ []) key ring-IsSorted

successors-distinct_example :
    ((a b : ℕ) → a < b → b < length ring → successors a ring 1 ≢ successors b ring 1)
    × (successors (length ring) ring 1 ≡ 1)
successors-distinct_example = successors-distinct ring 1 (omega arith)

insert-IsSorted_example :
    (HasId 50 ring → insert (slave 50) ring ≡ (ring, true))
    × (All (λ d. 50 < d.id) ring
        → (insert (slave 50) ring ≡ (slave 50 ∷ ring, false)) × IsSorted (slave 50 ∷ ring))
    × (All (λ d. d.id < 50) ring
        → (insert (slave 50) ring ≡ (ring ++ slave 50 ∷ [], false))
          × IsSorted (ring ++ slave 50 ∷ []))
insert-IsSorted_example = insert-IsSorted (slave 50) ring ring-IsSorted

lacks_30 : ¬ HasId 30 ring
lacks_30 m = ground (arith, m)

insert-between_example : ¬ IsSorted (insert (slave 30) ring).0
insert-between_example =
    insert-between (slave 30) (slave 10) (slave 20 ∷ slave 40 ∷ []) lacks_30 (omega arith)
      (inr (inl (omega arith)))

-- The new slave 30 comes behind 40.
insert_30 : (insert (slave 30) ring).0 ≡ slave 10 ∷ slave 20 ∷ slave 40 ∷ slave 30 ∷ []
unfolding insert
insert_30 = refl

abbrev empty : Master
empty = init 2 1

empty-IsCounted : IsCounted empty
unfolding init
empty-IsCounted = ground arith

register_slave-IsCounted_example :
    IsCounted
      (register_slave port_of empty key key
        (record { type = resp; key = none; value = none; message = none })).0
    × (empty.slave_count < empty.slave_capacity
        → (register_slave port_of empty key key
            (record { type = resp; key = none; value = none; message = none })).1.message
          ≡ some success)
    × (empty.slave_count ≡ empty.slave_capacity
        → register_slave port_of empty key key
            (record { type = resp; key = none; value = none; message = none })
          ≡ (empty, record { type = resp; key = none; value = none; message = some generic_error }))
register_slave-IsCounted_example =
    register_slave-IsCounted port_of empty key key
      (record { type = resp; key = none; value = none; message = none }) empty-IsCounted
