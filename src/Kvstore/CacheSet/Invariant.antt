-- ===== src/Kvstore/CacheSet/Invariant.antt =====
-- A cache set keeps its invariant and answers as a bounded map: init, get, put and delete.
use group.Shared.{
  ℕ, ◌+◌, ◌≤◌, ◌≡◌, inl, inr, refl, Bool, true, false, Option, none, some, List, [], ◌∷◌, ◌++◌,
  length, length-append, arith, Bool-cases, Option-cases, ltb,
}
use group.Kvstore.Text.{CString}
use group.Kvstore.Outcome.{ok, err, fault, no_key}
use group.Kvstore.Uthash.{Uthash}
use group.Kvstore.CacheSet.{CacheSet, Cell, store, init, get, put}
use group.Kvstore.CacheSet.Bindings.{
  binding, Distinct, IsNew, binding-append, binding-new, deref-binding, binding-store,
  store-Distinct, append-Distinct, length-store,
}

abbrev pub address_of : Option (ℕ × Option CString) → Option ℕ
address_of none = none
address_of (some (p, v)) = some p

-- The value that a key is bound to; `none` also stands for a null value.
abbrev pub value_of : Option (ℕ × Option CString) → Option CString
value_of none = none
value_of (some (p, v)) = v

module _ (U : Uthash) where
  -- The hash table and the list hold the same elements, each key once, within the bound.
  pub record IsValid (s : CacheSet U) : Type 0 where
    pub distinct : Distinct s.entries
    pub agrees : (k : CString) → U.find s.hash k ≡ address_of (binding k s.entries)
    pub counted : length s.entries ≤ s.num_entries
    pub bounded : s.num_entries ≤ s.elem_per_set
    pub room : 2 ≤ s.elem_per_set

  -- What the set answers for a key.
  unfoldable pub view : CacheSet U → CString → Option CString
  unfolding binding
  view s k = value_of (binding k s.entries)

  -- An `init` that succeeds gives a valid set that binds no key.
  pub init-IsValid :
      (n : ℕ) (s : CacheSet U) → init U n ≡ ok s → IsValid s × ((k : CString) → view s k ≡ none)
  unfolding init view
  init-IsValid n s h = elim (Bool-cases (ltb n 2)) [
    | inl low ↦ absurd (ground arith)
    | inr high ↦
        let e : record { elem_per_set = n; num_entries = 0; entries = []; hash = U.empty } ≡ s =
          ground arith in
        rw (← e) (
          record {
            distinct = tt;
            agrees = λ k. U.find-empty k;
            counted = omega arith;
            bounded = omega arith;
            room = ground arith;
          },
          λ k. refl,
        )
  ]

  module _ (s : CacheSet U) (valid : IsValid s) (key : CString) where
    -- A write of the element that the key is bound to.
    pub store-IsValid :
        (p : ℕ) (v w : Option CString) (r : Bool)
        → binding key s.entries ≡ some (p, v)
        → IsValid (record s { entries = store p w r s.entries })
    store-IsValid p v w r e = record {
      distinct = store-Distinct p w r s.entries valid.distinct;
      agrees = λ k. ground (
        arith,
        valid.agrees k,
        valid.agrees key,
        binding-store key k s.entries p v w r valid.distinct e,
      );
      counted = omega (arith, length-store p w r s.entries);
      bounded = valid.bounded;
      room = valid.room;
    }

    pub get_missing : binding key s.entries ≡ none → get U s key ≡ (err no_key, s)
    unfolding get
    get_missing e = ground (arith, valid.agrees key)

    pub get_bound :
        (p : ℕ) (v : Option CString)
        → binding key s.entries ≡ some (p, v)
        → get U s key ≡ (
          elim v [ none ↦ fault | some w ↦ ok w ],
          record s { entries = store p v true s.entries },
        )
    unfolding get
    get_bound p v e =
        let (c, found, same, named, placed) = deref-binding key s.entries p v valid.distinct e in
        let hit : U.find s.hash key ≡ some p = ground (arith, valid.agrees key) in ground arith

    -- On a valid cache set, kvcacheset_get keeps the set valid and what every key is bound to,
    -- returns the value of a key that is bound to one, and reports ERRNOKEY and changes nothing
    -- for a key that is not bound.
    pub get-binding :
        IsValid (get U s key).1
        × ((k : CString) → binding k (get U s key).1.entries ≡ binding k s.entries)
        × ((p : ℕ) (v : CString)
            → binding key s.entries ≡ some (p, some v)
            → (get U s key).0 ≡ ok v)
        × (binding key s.entries ≡ none → get U s key ≡ (err no_key, s))
    get-binding = elim (Option-cases (binding key s.entries)) [
      | inl e ↦
          (rw (get_missing e) valid, λ k. rw (get_missing e), λ p v h. absurd (cc), get_missing)
      | inr ((p, v), e) ↦ (
        rw (get_bound p v e) (store-IsValid p v v true e),
        λ k.
            rw (get_bound p v e)
              (ground (arith, binding-store key k s.entries p v v true valid.distinct e)),
        λ q w h. ground (arith, get_bound p v e),
        get_missing,
      )
    ]

    -- An update of a key that is bound, with and without memory for the value.
    pub put_bound :
        (q p : ℕ) (v : Option CString) (key_memory : Bool) (value : CString)
        → binding key s.entries ≡ some (p, v)
        → put U q key_memory true s key value
          ≡ (ok tt, record s { entries = store p (some value) true s.entries })
    unfolding put
    put_bound q p v m value e = ground (arith, valid.agrees key)

    -- The invariant of a set that a new element is linked into.
    pub link-IsValid :
        (p : ℕ) (value : CString) (n : ℕ) (l : List Cell) (t : Uthash.Table U)
        → Distinct l
        → ((k : CString) → U.find t k ≡ address_of (binding k l))
        → IsNew p key l
        → length l + 1 ≤ n
        → n ≤ s.elem_per_set
        → IsValid (record s {
          num_entries = n;
          entries = l ++ record { address = p; key = key; value = some value; refbit = false } ∷ [];
          hash = U.add t key p;
        })
    unfolding binding
    link-IsValid p value n l t d a new le bound = record {
      distinct = append-Distinct c l d new;
      agrees = λ k. ground (
        arith,
        binding-append k l [] c,
        binding-new p key l new,
        a k,
        a key,
        U.find-add t key k p,
      );
      counted = omega (arith, length-append l (c ∷ []));
      bounded = bound;
      room = valid.room;
    }
      where
        c : Cell
        c = record { address = p; key = key; value = some value; refbit = false }
