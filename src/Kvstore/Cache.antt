-- ===== src/Kvstore/Cache.antt =====
-- kvcache.c: the set-associative cache, an array of cache sets indexed by the hash of the key.
pub mod Laws
use group.Shared.{
  ℕ, zero, suc, ◌+◌, ◌%◌, ◌^◌, Bool, true, false, Option, none, some, List, [], ◌∷◌, length,
  get_elem?, set, ltb, ◌==◌, ◌||◌, if◌then◌else◌,
}
use group.Kvstore.Text.{CString, hash, strlen}
use group.Kvstore.Outcome.{
  Outcome, ok, err, fault, key_len, val_len, failed, no_memory, max_keylen, max_vallen,
}
use group.Kvstore.Uthash.{Uthash}
use group.Kvstore.CacheSet
use group.Kvstore.CacheSet.{CacheSet}

pub record Cache (U : Uthash) : Type 0 where
  pub num_sets : ℕ
  pub elem_per_set : ℕ
  pub sets : List (CacheSet U)

-- `get_cache_set`: the hash is cut to an `int`, which is reduced as an `unsigned int`.
unfoldable pub set_index : ℕ → CString → ℕ
set_index num_sets key = (hash key % 2 ^ 32) % num_sets

module _ (U : Uthash) where
  -- The loop of `kvcache_init` over the sets that are left.
  unfoldable pub init_loop : ℕ → ℕ → Outcome (List (CacheSet U))
  init_loop zero n = ok []
  init_loop (suc i) n = elim (CacheSet.init U n) [
    | ok s ↦ elim (init_loop i n) [ ok l ↦ ok (s ∷ l) | err e ↦ err e | fault ↦ fault ]
    | err e ↦ err failed
    | fault ↦ fault
  ]

  -- `memory` tells whether `malloc` finds memory for the sets.
  unfoldable pub init : Bool → ℕ → ℕ → Outcome (Cache U)
  unfolding init_loop
  init memory num_sets elem_per_set =
      if (num_sets == 0) || (elem_per_set == 0)
      then err failed
      else if memory
      then elim (init_loop num_sets elem_per_set) [
        | ok l ↦ ok (record { num_sets = num_sets; elem_per_set = elem_per_set; sets = l })
        | err e ↦ err e
        | fault ↦ fault
      ]
      else err no_memory

  -- A call on the set at hand, whose new state takes its place in the array.
  abbrev pub on_set {ℓ} :
      {A : Type ℓ} → Cache U → CString → (CacheSet U → Outcome A × CacheSet U) → Outcome A × Cache U
  on_set c key call = elim (get_elem? c.sets (set_index c.num_sets key)) [
    | none ↦ (fault, c)
    | some s ↦
        let (r, s') = call s in (r, record c { sets = set c.sets (set_index c.num_sets key) s' })
  ]

  unfoldable pub get : Cache U → CString → Outcome CString × Cache U
  get c key =
      if ltb max_keylen (strlen key)
      then (err key_len, c)
      else on_set c key (λ s. CacheSet.get U s key)

  -- `p` is the address of a new element, if one is needed.
  unfoldable pub put : ℕ → Bool → Bool → Cache U → CString → CString → Outcome (Unit {0}) × Cache U
  put p key_memory value_memory c key value =
      if ltb max_keylen (strlen key)
      then (err key_len, c)
      else if ltb max_vallen (strlen value)
      then (err val_len, c)
      else on_set c key (λ s. CacheSet.put U p key_memory value_memory s key value)

  unfoldable pub delete : Cache U → CString → Outcome (Unit {0}) × Cache U
  delete c key =
      if ltb max_keylen (strlen key)
      then (err key_len, c)
      else on_set c key (λ s. CacheSet.delete U s key)

  -- `kvcache_getlock`: the lock of a set is named by the set's index, and `none` is NULL.
  unfoldable pub get_lock : Cache U → CString → Option ℕ
  get_lock c key = if ltb max_keylen (strlen key) then none else some (set_index c.num_sets key)

  -- The loop of `kvcache_clear`.
  unfoldable pub clear_loop : List (CacheSet U) → Outcome (Unit {0}) × List (CacheSet U)
  clear_loop [] = (ok tt, [])
  clear_loop (s ∷ l) =
      let (r, s') = CacheSet.clear U s in
      let (r', l') = clear_loop l in
      elim r [ ok u ↦ (r', s' ∷ l') | err e ↦ (err e, s' ∷ l) | fault ↦ (fault, s' ∷ l) ]
