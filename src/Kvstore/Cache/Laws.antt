-- ===== src/Kvstore/Cache/Laws.antt =====
-- A valid cache is a partial copy: what it answers, and how its operations change what it binds.
use group.Shared.{
  ℕ, ◌%◌, ◌^◌, ◌≤◌, ◌<◌, ◌≡◌, ◌≢◌, ◌⊎◌, inl, inr, refl, sym, ap, true, false, Option, none, some,
  length, All, arith, get_elem?, set, length-set, get_elem?-set_self, get_elem?-set_ne,
  All-get_elem?, All-set, get_elem?-lt, ltb, ite, if_neg, ◌∙◌, ℕ_discrete,
}
use native.Mathlib.Nat.{mod-lt}
use group.Kvstore.Text.{CString, strcmp_dec, strlen, hash}
use group.Kvstore.Outcome.{Outcome, ok, err, no_key, max_keylen, max_vallen}
use group.Kvstore.Uthash.{Uthash}
use group.Kvstore.CacheSet
use group.Kvstore.CacheSet.{CacheSet}
use group.Kvstore.CacheSet.Bindings
use group.Kvstore.CacheSet.Bindings.{binding}
use group.Kvstore.CacheSet.Invariant
use group.Kvstore.CacheSet.Put
use group.Kvstore.CacheSet.Room.{without, without_cases}
use group.Kvstore.Cache.{Cache, set_index, get, put, delete, on_set}

module _ (U : Uthash) where
  pub record IsValid (c : Cache U) : Type 0 where
    pub filled : length c.sets ≡ c.num_sets
    pub some_set : 0 < c.num_sets
    pub sets_valid : All (Invariant.IsValid U) c.sets

  -- What the cache binds a key to, in the set of the key.
  unfoldable pub lookup : Cache U → CString → Option (ℕ × Option CString)
  lookup c k = elim (get_elem? c.sets (set_index c.num_sets k)) [
    | none ↦ none
    | some s ↦ binding k s.entries
  ]

  -- The address is in no set: what `malloc` promises of new memory.
  abbrev pub IsFree : ℕ → Cache U → Type 0
  IsFree p c = All (λ s. Bindings.IsFree p (CacheSet.entries s)) c.sets

  module _ (c : Cache U) (valid : IsValid c) (key : CString) where
    abbrev index : ℕ
    index = set_index c.num_sets key

    -- Every key has its set.
    index-lt : index < length c.sets
    unfolding set_index
    index-lt = omega (
      arith,
      valid.filled,
      valid.some_set,
      mod-lt (hash key % 2 ^ 32) {m = c.num_sets} valid.some_set,
    )

    pub set_of : (s : CacheSet U) × (get_elem? c.sets index ≡ some s) × Invariant.IsValid U s
    set_of =
        let (s, e) = get_elem?-lt c.sets index index-lt in
        (s, e, All-get_elem? (Invariant.IsValid U) c.sets index s valid.sets_valid e)

    abbrev updated : CacheSet U → Cache U
    updated s' = record c { sets = set c.sets index s' }

    updated-IsValid : (s' : CacheSet U) → Invariant.IsValid U s' → IsValid (updated s')
    updated-IsValid s' v = record {
      filled = omega (arith, length-set c.sets index s', valid.filled);
      some_set = valid.some_set;
      sets_valid = All-set (Invariant.IsValid U) c.sets index s' valid.sets_valid v;
    }

    module _ (s : CacheSet U) (here : get_elem? c.sets index ≡ some s) where
      -- A set is replaced by one that binds its keys in another way.
      lookup-updated :
          (s' : CacheSet U) (k : CString) (b : Option (ℕ × Option CString))
          → (index ≡ set_index c.num_sets k → binding k s'.entries ≡ b)
          → (index ≢ set_index c.num_sets k → lookup c k ≡ b)
          → lookup (updated s') k ≡ b
      unfolding lookup
      lookup-updated s' k b same other = elim (ℕ_discrete index (set_index c.num_sets k)) [
        | yes p ↦ ground (arith, same p, get_elem?-set_self c.sets index s' index-lt)
        | no p ↦
            ground (arith, other p, get_elem?-set_ne c.sets index (set_index c.num_sets k) s' p)
      ]

      lookup-here :
          (k : CString) → index ≡ set_index c.num_sets k → lookup c k ≡ binding k s.entries
      unfolding lookup
      lookup-here k e = ground arith

      on_set_here :
          {A : Type 0} (call : CacheSet U → Outcome A × CacheSet U)
          → on_set U c key call ≡ ((call s).0, updated (call s).1)
      on_set_here call = rw (on_set, here)

    short_key : strlen key ≤ max_keylen → ltb max_keylen (strlen key) ≡ false
    short_key h = ground arith

    short_value :
        (value : CString) → strlen value ≤ max_vallen → ltb max_vallen (strlen value) ≡ false
    short_value value h = ground arith

    -- A set that binds a key as before, but for one key that it may have lost.
    lookup-put :
        (s : CacheSet U) (here : get_elem? c.sets index ≡ some s) (s' : CacheSet U) (k : CString)
        (evicted : Option CString)
        → binding k s'.entries ≡ without evicted k (binding k s.entries)
        → (lookup (updated s') k ≡ lookup c k) ⊎ (lookup (updated s') k ≡ none)
    lookup-put s here s' k evicted h = elim (ℕ_discrete index (set_index c.num_sets k)) [
      | no p ↦ inl (lookup-updated s here s' k (lookup c k) (λ e. absurd (p e)) (λ ne. refl))
      | yes p ↦ elim (without_cases evicted k (binding k s.entries)) [
        | inl same ↦ inl (
            lookup-updated s here s' k (lookup c k) (λ e. h ∙ same ∙ sym (lookup-here s here k e))
              (λ ne. absurd (ne p)))
        | inr gone ↦ inr (lookup-updated s here s' k none (λ e. h ∙ gone) (λ ne. absurd (ne p)))
      ]
    ]

    pub get-lookup :
        strlen key ≤ max_keylen
        → IsValid (get U c key).1
          × ((k : CString) → lookup (get U c key).1 k ≡ lookup c k)
          × ((p : ℕ) (v : CString) → lookup c key ≡ some (p, some v) → (get U c key).0 ≡ ok v)
          × (lookup c key ≡ none → (get U c key).0 ≡ err no_key)
    get-lookup short =
        let (s, here, v) = set_of in
        let (v', same, hit, miss) = Invariant.get-binding U s v key in
        let run : get U c key ≡ ((CacheSet.get U s key).0, updated (CacheSet.get U s key).1) =
          unfold get in rw (short_key short) (on_set_here s here (λ x. CacheSet.get U x key)) in
        let found = lookup-here s here key refl in
        (
          rw run (updated-IsValid (CacheSet.get U s key).1 v'),
          λ k. rw run (
              lookup-updated s here (CacheSet.get U s key).1 k (lookup c k)
                (λ e. same k ∙ sym (lookup-here s here k e)) (λ e. refl)),
          λ p w h. ground (arith, run, hit p w),
          λ h. ground (arith, run, miss),
        )

    -- `put` with memory at a free address: the key is bound to the value, and every other key is bound
    -- as before or not at all.
    pub put-lookup :
        (p : ℕ) (value : CString)
        → strlen key ≤ max_keylen
        → strlen value ≤ max_vallen
        → IsFree p c
        → ((put U p true true c key value).0 ≡ ok tt)
          × IsValid (put U p true true c key value).1
          × ((q : ℕ) × (lookup (put U p true true c key value).1 key ≡ some (q, some value)))
          × ((k : CString)
              → k ≢ key
              → (lookup (put U p true true c key value).1 k ≡ lookup c k)
                ⊎ (lookup (put U p true true c key value).1 k ≡ none))
    put-lookup p value short small free =
        let (s, here, v) = set_of in
        let f =
          All-get_elem? (λ s. Bindings.IsFree p (CacheSet.entries s)) c.sets index s free here in
        let (s', evicted, done, post, spare, keeps) = Put.put-IsPut U s v key p value f in
        let (q, bound) = post.bound in
        let call = λ (x : CacheSet U). CacheSet.put U p true true x key value in
        let run : put U p true true c key value ≡ (ok tt, updated s') =
          unfold put in
          rw (short_key short, short_value value small)
            (on_set_here s here call
              ∙ ap (λ (r : Outcome (Unit {0}) × CacheSet U). (r.0, updated r.1)) done) in
        (
          ap (λ (r : Outcome (Unit {0}) × Cache U). r.0) run,
          rw run (updated-IsValid s' post.valid_after),
          (
            q,
            rw run (
                lookup-updated s here s' key (some (q, some value)) (λ e. bound)
                  (λ ne. absurd (ne refl))),
          ),
          λ k ne. rw run (lookup-put s here s' k evicted (post.others k ne)),
        )

    pub delete-lookup :
        strlen key ≤ max_keylen
        → IsValid (delete U c key).1
          × ((k : CString) → lookup (delete U c key).1 k ≡ ite (strcmp_dec key k) none (lookup c k))
          × ((p : ℕ) (v : Option CString) → lookup c key ≡ some (p, v) → (delete U c key).0 ≡ ok tt)
          × (lookup c key ≡ none → (delete U c key).0 ≡ err no_key)
    delete-lookup short =
        let (s, here, v) = set_of in
        let (hit, miss, v', same, count) = Put.delete-binding U s v key in
        let run : delete U c key
            ≡ ((CacheSet.delete U s key).0, updated (CacheSet.delete U s key).1) =
          unfold delete in
          rw (short_key short) (on_set_here s here (λ x. CacheSet.delete U x key)) in
        let found = lookup-here s here key refl in
        (
          rw run (updated-IsValid (CacheSet.delete U s key).1 v'),
          λ k. rw run (
              lookup-updated s here (CacheSet.delete U s key).1 k
                (ite (strcmp_dec key k) none (lookup c k))
                (λ e. ground (arith, same k, lookup-here s here k e))
                (λ ne. elim (strcmp_dec key k) [
                  | yes q ↦ absurd (ne (ap (set_index c.num_sets) q))
                  | no q ↦ sym (if_neg (strcmp_dec key k) q none (lookup c k))
                ])),
          λ p w h. ground (arith, run, hit p w),
          λ h. ground (arith, run, miss),
        )
