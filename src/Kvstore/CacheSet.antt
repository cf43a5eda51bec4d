-- ===== src/Kvstore/CacheSet.antt =====
-- kvcacheset.c: one set of the cache, with the second-chance eviction of `kvcacheset_put`.
pub mod Bindings
pub mod Eviction
pub mod Invariant
pub mod Room
pub mod Put
pub mod Count
use group.Shared.{
  ℕ, zero, suc, ◌+◌, ◌≡◌, refl, Bool, true, false, Option, none, some, List, [], ◌∷◌, ◌++◌, ite,
  length, ltb, if◌then◌else◌, ℕ_discrete,
}
use group.Kvstore.Text.{CString, strcmp_dec}
use group.Kvstore.Outcome.{Errno, Outcome, ok, err, fault, no_key, file_create, failed}
use group.Kvstore.Uthash.{Uthash}

-- `struct kvcacheentry` at its address. `none` is a null `value`.
pub record Cell : Type 0 where
  pub address : ℕ
  pub key : CString
  pub value : Option CString
  pub refbit : Bool

-- `entries` is the doubly linked list, from its head.
pub record CacheSet (U : Uthash) : Type 0 where
  pub elem_per_set : ℕ
  pub num_entries : ℕ
  pub entries : List Cell
  pub hash : Uthash.Table U

-- Reading and writing through a pointer to an element of the list.
unfoldable pub deref : ℕ → List Cell → Option Cell
unfolding ℕ_discrete
deref p [] = none
deref p (c ∷ l) = ite (ℕ_discrete c.address p) (some c) (deref p l)

unfoldable pub store : ℕ → Option CString → Bool → List Cell → List Cell
unfolding ℕ_discrete
store p v r [] = []
store p v r (c ∷ l) =
    let rest = store p v r l in
    ite (ℕ_discrete c.address p) (record c { value = v; refbit = r } ∷ l) (c ∷ rest)

-- DL_DELETE
unfoldable pub unlink : ℕ → List Cell → List Cell
unfolding ℕ_discrete
unlink p [] = []
unlink p (c ∷ l) = let rest = unlink p l in ite (ℕ_discrete c.address p) l (c ∷ rest)

-- `head`, and `elt->next`
abbrev pub head_address : List Cell → Option ℕ
head_address [] = none
head_address (c ∷ l) = some c.address

unfoldable pub next_address : ℕ → List Cell → Option ℕ
unfolding ℕ_discrete
next_address p [] = none
next_address p (c ∷ l) = ite (ℕ_discrete c.address p) (head_address l) (next_address p l)

module _ (U : Uthash) where
  open U use {Table, empty, find, add, del}

  unfoldable pub init : ℕ → Outcome (CacheSet U)
  init elem_per_set =
      if ltb elem_per_set 2
      then err failed
      else ok (record { elem_per_set = elem_per_set; num_entries = 0; entries = []; hash = empty })

  unfoldable pub get : CacheSet U → CString → Outcome CString × CacheSet U
  unfolding deref store
  get s key = elim (find s.hash key) [
    | none ↦ (err no_key, s)
    | some p ↦ elim (deref p s.entries) [
      | none ↦ (fault, s)
      | some c ↦
          let s' : CacheSet U = record s { entries = store p c.value true s.entries } in
          elim c.value [ none ↦ (fault, s') | some v ↦ (ok v, s') ]
    ]
  ]

  -- The DL_FOREACH_SAFE loop: `elt` is the element at hand, `none` at the end of the list.
  unfoldable pub evict_loop : ℕ → List Cell → Table → Option ℕ → Option (List Cell × Table)
  unfolding deref unlink next_address
  evict_loop zero l t elt = none
  evict_loop (suc fuel) l t none = some (l, t)
  evict_loop (suc fuel) l t (some p) = elim (deref p l) [
    | none ↦ none
    | some c ↦
        let tmp = next_address p l in
        let l' = unlink p l in
        let rest = evict_loop fuel (l' ++ record c { refbit = false } ∷ []) t tmp in
        if c.refbit then rest else some (l', del t c.key p)
  ]

  -- DL_APPEND and HASH_ADD_KEYPTR of the new element
  abbrev pub link : Cell → ℕ → List Cell × Table → CacheSet U → CacheSet U
  link c n (l, t) s = record s {
    num_entries = n;
    entries = l ++ c ∷ [];
    hash = add t c.key c.address;
  }

  -- `if (!selected->refbit)`: a new element is counted, or another makes room for it.
  unfoldable pub insert : Cell → CacheSet U → Outcome (Unit {0}) × CacheSet U
  unfolding evict_loop
  insert c s =
      if ltb s.num_entries s.elem_per_set
      then (ok tt, link c (s.num_entries + 1) (s.entries, s.hash) s)
      else elim (evict_loop (length s.entries + 2) s.entries s.hash (head_address s.entries)) [
        | none ↦ (fault, s)
        | some (l, t) ↦ (ok tt, link c s.num_entries (l, t) s)
      ]

  -- `p` is the address of a new element, `key_memory` and `value_memory` tell whether `malloc`
  -- finds memory for its key and for the value.
  unfoldable pub put :
      ℕ → Bool → Bool → CacheSet U → CString → CString → Outcome (Unit {0}) × CacheSet U
  unfolding store insert
  put p key_memory value_memory s key value = elim (find s.hash key) [
    | some q ↦
        if value_memory
        then (ok tt, record s { entries = store q (some value) true s.entries })
        else (err file_create, record s { entries = store q none true s.entries })
    | none ↦
        if key_memory
        then if value_memory
          then insert (record { address = p; key = key; value = some value; refbit = false }) s
          else (err file_create, s)
        else (err file_create, s)
  ]

  unfoldable pub delete : CacheSet U → CString → Outcome (Unit {0}) × CacheSet U
  unfolding unlink
  delete s key = elim (find s.hash key) [
    | none ↦ (err no_key, s)
    | some p ↦ (ok tt, record s { entries = unlink p s.entries; hash = del s.hash key p })
  ]

  -- `kvcacheset_refbit`; `none` is -1.
  unfoldable pub refbit : CacheSet U → CString → Option Bool
  unfolding deref
  refbit s key = elim (find s.hash key) [
    | none ↦ none
    | some p ↦ elim (deref p s.entries) [ none ↦ none | some c ↦ some c.refbit ]
  ]

  -- The HASH_ITER loop of `kvcacheset_clear` over the elements that are left.
  unfoldable pub clear_loop : List ℕ → CacheSet U → Outcome (Unit {0}) × CacheSet U
  unfolding deref unlink
  clear_loop [] s = (ok tt, s)
  clear_loop (p ∷ ps) s = elim (deref p s.entries) [
    | none ↦ (fault, s)
    | some c ↦ clear_loop ps (record s { entries = unlink p s.entries; hash = del s.hash c.key p })
  ]

  unfoldable pub clear : CacheSet U → Outcome (Unit {0}) × CacheSet U
  unfolding clear_loop
  clear s = clear_loop (U.items s.hash) s
