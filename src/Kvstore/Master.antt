-- ===== src/Kvstore/Master.antt =====
-- tpcmaster.c: the ring of slaves, and the dispatch of requests.
pub mod Ring
pub mod Order
use group.Shared.{
  ℕ, zero, suc, ◌+◌, ◌*◌, ◌%◌, ◌^◌, Bool, true, false, Option, none, some, List, [], ◌∷◌, ◌++◌,
  get_elem?, ltb, leb, ◌==◌, ◌||◌, if◌then◌else◌,
}
use group.Kvstore.Text.{CString, char_mod}
use group.Kvstore.Outcome.{Outcome, ok, err, fault}
use group.Kvstore.Message.{
  MsgType, Message, Note, resp, register, getreq, info, success, generic_error, invalid_request,
  not_implemented,
}

-- The loop of `hash_64_bit` on the bits of an `int64_t`, whose overflow wraps.
unfoldable pub hash_64_from : ℕ → CString → ℕ
hash_64_from h [] = h
hash_64_from h (c ∷ cs) = hash_64_from ((31 * h + char_mod 64 c) % 2 ^ 64) cs

-- An `int64_t` is numbered from the least one, so that the order of the numbers is the signed order.
unfoldable pub hash_64_bit : CString → ℕ
unfolding hash_64_from
hash_64_bit s = (hash_64_from 1125899906842597 s + 2 ^ 63) % 2 ^ 64

-- `tpcslave_t`
pub record Slave : Type 0 where
  pub id : ℕ
  pub host : CString
  pub port : ℕ

-- The linked list of slaves is the sequence of its nodes.
pub record Master : Type 0 where
  pub slave_count : ℕ
  pub slave_capacity : ℕ
  pub redundancy : ℕ
  pub slaves : List Slave

unfoldable pub init : ℕ → ℕ → Master
init slave_capacity redundancy = record {
  slave_count = 0;
  slave_capacity = slave_capacity;
  redundancy = if ltb slave_capacity redundancy then slave_capacity else redundancy;
  slaves = [];
}

-- The loop from `current`, the head of the list given, and the insertion behind the last `current`.
-- The flag is `already_exists`.
unfoldable pub walk : Slave → List Slave → Bool → List Slave × Bool
walk new [] exists = ([], exists)
walk new (c ∷ []) exists = if exists then (c ∷ [], true) else (c ∷ new ∷ [], false)
walk new (c ∷ d ∷ l) exists =
    let rest = walk new (d ∷ l) (exists || (d.id == new.id)) in
    if ltb c.id new.id
    then (c ∷ rest.0, rest.1)
    else if exists
    then (c ∷ d ∷ l, true)
    else (c ∷ new ∷ d ∷ l, false)

-- The list with the new slave in, and whether its id was met.
unfoldable pub insert : Slave → List Slave → List Slave × Bool
unfolding walk
insert new [] = (new ∷ [], false)
insert new (c ∷ l) =
    if ltb new.id c.id then (new ∷ c ∷ l, false) else walk new (c ∷ l) (c.id == new.id)

-- `atoi` reads the port. A failure leaves the other fields of the response as they are.
unfoldable pub register_slave :
    (CString → ℕ) → Master → CString → CString → Message → Master × Message
unfolding insert hash_64_bit
register_slave atoi m key value response =
    if ltb m.slave_count m.slave_capacity
    then (let new : Slave = record {
      id = hash_64_bit ((value ++ b':' ∷ []) ++ key);
      host = key;
      port = atoi value;
    } in
        let (l, exists) = insert new m.slaves in
        (
          record m {
            slaves = l;
            slave_count = if exists then m.slave_count else m.slave_count + 1;
          },
          record { type = resp; key = none; value = none; message = some success },
        ))
    else (m, record response { message = some generic_error })

-- The loop of `tpcmaster_get_primary`: the slave at which it stops, `none` for the head.
unfoldable pub primary_loop : ℕ → List Slave → Option Slave
primary_loop k [] = none
primary_loop k (c ∷ []) = if leb c.id k then none else some c
primary_loop k (c ∷ d ∷ l) =
    let rest = primary_loop k (d ∷ l) in if leb c.id k then rest else some c

-- Without a slave a null head is read.
unfoldable pub get_primary : List Slave → CString → Outcome Slave
unfolding primary_loop hash_64_bit
get_primary [] key = fault
get_primary (c ∷ l) key = elim (primary_loop (hash_64_bit key) (c ∷ l)) [
  | none ↦ ok c
  | some s ↦ ok s
]

-- The position of the slave behind the one at a position.
unfoldable pub get_successor : List Slave → ℕ → ℕ
get_successor l i = elim (get_elem? l (i + 1)) [ some s ↦ i + 1 | none ↦ 0 ]

abbrev respond : Option CString → Note → Message
respond k n = record { type = resp; key = k; value = none; message = some n }

-- `tpcmaster_handle` on a message that can be parsed.
unfoldable pub handle : (CString → ℕ) → Master → Message → Outcome Message × Master
unfolding register_slave
handle atoi m req = elim req.type [
  | info ↦ (ok (respond req.key not_implemented), m)
  | t ↦ elim req.key [
    | none ↦ (ok (respond none invalid_request), m)
    | some k ↦ elim t [
      | register ↦ elim req.value [
        | none ↦ (fault, m)
        | some v ↦
            let (m', r) =
              register_slave atoi m k v
                (record { type = resp; key = some k; value = none; message = none }) in
            (ok r, m')
      ]
      | _ ↦ (ok (respond (some k) not_implemented), m)
    ]
  ]
]
