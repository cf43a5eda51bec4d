-- ===== src/Kvstore/CacheSet/Put.antt =====
-- `kvcacheset_put` and `kvcacheset_del` on a valid set: the invariant, the bindings and the evictions.
use group.Shared.{
  ℕ, ◌+◌, ◌≤◌, ◌<◌, ◌≡◌, ◌≢◌, inl, inr, refl, ap, Bool, true, false, Option, none, some, List, [],
  ◌∷◌, ◌++◌, ite, length, length-append, arith, Bool-cases, Option-cases, ltb,
}
use group.Kvstore.Text.{CString, strcmp_dec}
use group.Kvstore.Outcome.{ok, err, no_key, file_create}
use group.Kvstore.Uthash.{Uthash}
use group.Kvstore.CacheSet.{CacheSet, Cell, unlink, insert, put, delete}
use group.Kvstore.CacheSet.Bindings.{
  binding, IsFree, IsNew, IsFree-IsNew, binding-append, binding-new, binding-store, binding-unlink,
  unlink-Distinct, length-unlink,
}
use group.Kvstore.CacheSet.Eviction.{SecondChance, evict-SecondChance, SecondChance-Drops}
use group.Kvstore.CacheSet.Invariant.{IsValid, view, store-IsValid, put_bound, link-IsValid}
use group.Kvstore.CacheSet.Room.{HasRoom, without, evict-HasRoom}

module _ (U : Uthash) (s : CacheSet U) (valid : IsValid U s) (key : CString) where
  -- A set that a call of `put` leaves: valid, with the value bound, and at most one other key gone.
  pub record IsPut (s' : CacheSet U) (value : CString) (evicted : Option CString) : Type 0 where
    pub valid_after : IsValid U s'
    pub bound : (q : ℕ) × (binding key s'.entries ≡ some (q, some value))
    pub others :
        (k : CString) → k ≢ key → binding k s'.entries ≡ without evicted k (binding k s.entries)
    pub same_bound : s'.elem_per_set ≡ s.elem_per_set

  abbrev pub new_cell : ℕ → CString → Cell
  new_cell p value = record { address = p; key = key; value = some value; refbit = false }

  -- Linking a new element into what the eviction leaves.
  linked :
      (p : ℕ) (value : CString) (n : ℕ) (l : List Cell) (t : Uthash.Table U)
      (evicted : Option CString)
      → IsNew p key s.entries
      → n ≤ s.elem_per_set
      → HasRoom U s.entries s.hash n l t evicted
      → IsPut
          (record s { num_entries = n; entries = l ++ new_cell p value ∷ []; hash = U.add t key p })
          value
          evicted
  unfolding binding
  linked p value n l t evicted new le h = record {
    valid_after =
        link-IsValid U s valid key p value n l t h.distinct h.agrees (h.fresh p key new) h.room le;
    bound = (
      p,
      ground (
        arith,
        binding-append key l [] (new_cell p value),
        binding-new p key l (h.fresh p key new),
      ),
    );
    others = λ k ne. ground (arith, binding-append k l [] (new_cell p value), h.binds k);
    same_bound = refl;
  }

  -- A key that is not bound: the set has room, or the loop makes it.
  insert_new :
      (p : ℕ) (value : CString)
      → IsNew p key s.entries
      → (s' : CacheSet U) × (evicted : Option CString) × (insert U (new_cell p value) s
          ≡ (ok tt, s'))
        × IsPut s' value evicted
        × (s.num_entries < s.elem_per_set → evicted ≡ none)
  unfolding insert
  insert_new p value new = elim (Bool-cases (ltb s.num_entries s.elem_per_set)) [
    | inl free ↦ (
      _,
      none,
      rw free,
      linked p value (s.num_entries + 1) s.entries s.hash none new (ground arith) (record {
        distinct = valid.distinct;
        agrees = valid.agrees;
        binds = λ k. refl;
        fresh = λ q k h. h;
        room = omega (arith, valid.counted);
      }),
      λ h. refl,
    )
    | inr full ↦
        let (l, t, evicted, run, h) =
          evict-HasRoom U s.hash s.num_entries s.entries valid.distinct valid.agrees valid.counted
            (ground (arith, valid.room, valid.bounded)) in
        (
          _,
          evicted,
          rw (full, run),
          linked p value s.num_entries l t evicted new valid.bounded h,
          λ h. absurd (ground arith),
        )
  ]

  -- On a valid cache set, kvcacheset_put with memory at a free address always succeeds: the set
  -- stays valid (table and list agree, keys distinct, at most elem_per_set elements), the key is
  -- bound to the value, every other key is bound as before except at most one evicted key, and
  -- none is evicted if the count is below the bound or the key was bound to a value.
  pub put-IsPut :
      (p : ℕ) (value : CString)
      → IsFree p s.entries
      → (s' : CacheSet U) × (evicted : Option CString) × (put U p true true s key value
          ≡ (ok tt, s'))
        × IsPut s' value evicted
        × (s.num_entries < s.elem_per_set → evicted ≡ none)
        × ((v : CString) → view U s key ≡ some v → evicted ≡ none)
  put-IsPut p value free = elim (Option-cases (binding key s.entries)) [
    | inr ((q, v), e) ↦ (
      _,
      none,
      put_bound U s valid key p q v true value e,
      record {
        valid_after = store-IsValid U s valid key q v (some value) true e;
        bound = (
          q,
          ground (arith, binding-store key key s.entries q v (some value) true valid.distinct e),
        );
        others = λ k ne.
            ground (arith, binding-store key k s.entries q v (some value) true valid.distinct e);
        same_bound = refl;
      },
      λ h. refl,
      λ w h. refl,
    )
    | inl e ↦
        let new = IsFree-IsNew p key s.entries free e in
        let (s', evicted, run, post, spare) = insert_new p value new in
        (
          s',
          evicted,
          unfold put in ground (arith, valid.agrees key),
          post,
          spare,
          λ v h. absurd (unfold view in ground arith),
        )
  ]

  -- Without memory for the key, a key that is not bound is refused and the set is unchanged.
  pub put_no_memory :
      (p : ℕ) (value_memory : Bool) (value : CString)
      → binding key s.entries ≡ none
      → put U p false value_memory s key value ≡ (err file_create, s)
  unfolding put
  put_no_memory p m value e = ground (arith, valid.agrees key)

  -- On a valid cache set of two or more elements whose num_entries is at the bound,
  -- kvcacheset_put of a key that is not bound leaves the list that the second-chance policy
  -- makes, with the new element at its end.
  pub put-SecondChance :
      (p : ℕ) (value : CString)
      → binding key s.entries ≡ none
      → s.num_entries ≡ s.elem_per_set
      → 2 ≤ length s.entries
      → (l : List Cell) × (c : Cell) × ((put U p true true s key value).1.entries
          ≡ l ++ new_cell p value ∷ [])
        × SecondChance s.entries l c
  unfolding put insert
  put-SecondChance p value e full two =
      let (l, c, run, policy) = evict-SecondChance U s.hash s.entries two in
      (l, c, ground (arith, valid.agrees key), policy)

  -- So the number of elements does not grow.
  pub length-put :
      (p : ℕ) (value : CString)
      → binding key s.entries ≡ none
      → s.num_entries ≡ s.elem_per_set
      → 2 ≤ length s.entries
      → length (put U p true true s key value).1.entries ≡ length s.entries
  length-put p value e full two =
      let (l, c, after, policy) = put-SecondChance p value e full two in
      let d = SecondChance-Drops s.entries l c valid.distinct policy in
      omega (arith, ap (length {0}) after, length-append l (new_cell p value ∷ []), d.count)

  delete_missing : binding key s.entries ≡ none → delete U s key ≡ (err no_key, s)
  unfolding delete
  delete_missing e = ground (arith, valid.agrees key)

  abbrev removed : ℕ → CacheSet U
  removed p = record s { entries = unlink p s.entries; hash = U.del s.hash key p }

  pub delete_bound :
      (p : ℕ) (v : Option CString)
      → binding key s.entries ≡ some (p, v)
      → delete U s key ≡ (ok tt, removed p)
  unfolding delete
  delete_bound p v e = ground (arith, valid.agrees key)

  removed-IsValid :
      (p : ℕ) (v : Option CString) → binding key s.entries ≡ some (p, v) → IsValid U (removed p)
  removed-IsValid p v e = record {
    distinct = unlink-Distinct p s.entries valid.distinct;
    agrees = λ k. ground (
      arith,
      valid.agrees k,
      valid.agrees key,
      binding-unlink key k s.entries p v valid.distinct e,
      U.find-del s.hash key k p,
    );
    counted = omega (arith, length-unlink p s.entries, valid.counted);
    bounded = valid.bounded;
    room = valid.room;
  }

  -- On a valid cache set, kvcacheset_del succeeds if the key is bound and otherwise reports
  -- ERRNOKEY and changes nothing; the set stays valid, no key but the deleted one changes, and
  -- num_entries is not changed.
  pub delete-binding :
      ((p : ℕ) (v : Option CString)
        → binding key s.entries ≡ some (p, v)
        → (delete U s key).0 ≡ ok tt)
      × (binding key s.entries ≡ none → delete U s key ≡ (err no_key, s))
      × IsValid U (delete U s key).1
      × ((k : CString)
          → binding k (delete U s key).1.entries
            ≡ ite (strcmp_dec key k) none (binding k s.entries))
      × ((delete U s key).1.num_entries ≡ s.num_entries)
  delete-binding = elim (Option-cases (binding key s.entries)) [
    | inl e ↦ (
      λ p v h. absurd (cc),
      delete_missing,
      rw (delete_missing e) valid,
      λ k. rw (delete_missing e) (ground arith),
      ground (arith, delete_missing e),
    )
    | inr ((p, v), e) ↦ (
      λ q w h. ground (arith, delete_bound p v e),
      delete_missing,
      rw (delete_bound p v e) (removed-IsValid p v e),
      λ k. rw (delete_bound p v e) (binding-unlink key k s.entries p v valid.distinct e),
      ground (arith, delete_bound p v e),
    )
  ]
