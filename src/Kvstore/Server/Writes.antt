-- ===== src/Kvstore/Server/Writes.antt =====
-- Writes through the cache: put and delete change the store and the cache in step.
use group.Shared.{
  ℕ, ◌≤◌, ◌<◌, ◌≡◌, ◌≢◌, inl, inr, refl, sym, ap, ◌∙◌, Bool, true, none, some, length, arith, ite,
  if_pos, if_neg, Option-cases,
}
use group.Kvstore.Text.{CString, IsText, strcmp_dec, strlen, hash}
use group.Kvstore.Outcome.{Outcome, ok, err, fault, no_key, max_keylen, max_vallen}
use group.Kvstore.Uthash.{Uthash}
use group.Kvstore.Cache
use group.Kvstore.Cache.{Cache}
use group.Kvstore.Cache.Laws
use group.Kvstore.Store
use group.Kvstore.Store.{Access}
use group.Kvstore.Store.Chain.{Chain, locate}
use group.Kvstore.Store.Swap.{put_chain, swap_remove, length-swap_remove, lookup-locate}
use group.Kvstore.Store.Refines
use group.Kvstore.Store.Refines.{Represents, view, update, reply_of}
use group.Kvstore.Server.{Server, put, delete, put_check}
use group.Kvstore.Server.Spec.{Coherent}
use group.Kvstore.Server.Copies.{put-copies}

module _ (U : Uthash) (allows : Access → Bool) (all : (a : Access) → allows a ≡ true) (fuel : ℕ)
    (fresh : Cache U → ℕ) (fresh-IsFree : (c : Cache U) → Laws.IsFree U (fresh c) c) (s : Server U)
    (chains : ℕ → Chain) (coherent : Coherent s chains) (key : CString)
    (short : strlen key ≤ max_keylen) (enough : length (chains (hash key)) < fuel) where
  abbrev after_chains : CString → ℕ → Chain
  after_chains value = update chains (hash key) (put_chain key value (chains (hash key)))

  put_run :
      (value : CString)
      → Store.put_check allows s.store key value ≡ ok tt
      → (Store.put allows fuel s.store key value).0 ≡ ok tt
      → (Cache.put U (fresh s.cache) true true s.cache key value).0 ≡ ok tt
      → put U allows fuel fresh true s key value ≡ (
        ok tt,
        record s {
          cache = (Cache.put U (fresh s.cache) true true s.cache key value).1;
          store = (Store.put allows fuel s.store key value).1;
        },
      )
  unfolding put put_check
  put_run value c d e = ground arith

  check_passes :
      (value : CString)
      → strlen value ≤ max_vallen
      → Store.put_check allows s.store key value ≡ ok tt
  unfolding Store.put_check
  check_passes value fits = let e = Represents.exists coherent.stored in ground arith

  -- A put succeeds, and its key is bound to the value in the store and in the cache alike.
  pub put-Coherent :
      (value : CString)
      → strlen value ≤ max_vallen
      → IsText key
      → IsText value
      → ((put U allows fuel fresh true s key value).0 ≡ ok tt)
        × Coherent (put U allows fuel fresh true s key value).1 (after_chains value)
  put-Coherent value fits tk tv =
      let (done, r) =
        Refines.put-Represents allows all s.store chains coherent.stored fuel key enough short value
          fits tk tv in
      let seen = λ (k : CString). Refines.view-put chains key k value in
      let (kept, after) =
        put-copies U fresh fresh-IsFree s chains coherent key short value
          (Store.put allows fuel s.store key value).1 (after_chains value) fits r
          (λ k v h. ground (arith, seen k, coherent.small k v))
          (seen key ∙ if_pos (strcmp_dec key key) refl (some value) (view chains key))
          (λ k ne.
            seen k ∙ if_neg (strcmp_dec key k) (λ e. ne (sym e)) (some value) (view chains k)) in
      rw (put_run value (check_passes value fits) done kept) (refl, after)

  delete_run :
      (c : Outcome (Unit {0}))
      → (Cache.delete U s.cache key).0 ≡ c
      → c ≢ fault
      → delete U allows fuel fresh true s key ≡ (
        (Store.delete allows fuel s.store key).0,
        record s {
          cache = (Cache.delete U s.cache key).1;
          store = (Store.delete allows fuel s.store key).1;
        },
      )
  unfolding delete Cache.get_lock
  delete_run c e ne = ground arith

  -- The cache loses the key.
  delete-copies :
      (d : Store.Store) (chains' : ℕ → Chain)
      → Represents d chains'
      → ((j : CString) → view chains' j ≡ ite (strcmp_dec key j) none (view chains j))
      → Coherent (record s { cache = (Cache.delete U s.cache key).1; store = d }) chains'
  delete-copies d chains' r seen =
      let (v, same, hit, miss) = Laws.delete-lookup U s.cache coherent.cache_valid key short in
      record {
        cache_valid = v;
        stored = r;
        copies = λ k p w h. elim (strcmp_dec key k) [
          | yes e ↦ absurd (ground (arith, same k))
          | no ne ↦
              let (x, is, there) = coherent.copies k p w (ground (arith, same k)) in
              (x, is, ground (arith, seen k))
        ];
        small = λ k w h. ground (arith, seen k, coherent.small k w);
      }

  delete_outcome : (c : Outcome (Unit {0})) × ((Cache.delete U s.cache key).0 ≡ c) × (c ≢ fault)
  delete_outcome =
      let (v, same, hit, miss) = Laws.delete-lookup U s.cache coherent.cache_valid key short in
      elim (Option-cases (Laws.lookup U s.cache key)) [
        | inr ((p, w), e) ↦ (ok tt, hit p w e, λ f. cc)
        | inl e ↦ (err no_key, miss e, λ f. cc)
      ]

  unseen :
      (j : CString)
      → view chains key ≡ none
      → view chains j ≡ ite (strcmp_dec key j) none (view chains j)
  unseen j gone = elim (strcmp_dec key j) [
    | yes e ↦
        ap (view chains) (sym e) ∙ gone ∙ sym (if_pos (strcmp_dec key j) e none (view chains j))
    | no ne ↦ sym (if_neg (strcmp_dec key j) ne none (view chains j))
  ]

  view_located :
      view chains key ≡ elim (locate key (chains (hash key))) [ none ↦ none | some (i, v) ↦ some v ]
  unfolding view
  view_located = lookup-locate key (chains (hash key))

  -- A delete takes the key out of the store and the cache, or reports that it is missing.
  pub delete-Coherent :
      (chains' : ℕ → Chain) × ((delete U allows fuel fresh true s key).0
        ≡ elim (view chains key) [ none ↦ err no_key | some v ↦ ok tt ])
      × Coherent (delete U allows fuel fresh true s key).1 chains'
      × ((j : CString) → view chains' j ≡ ite (strcmp_dec key j) none (view chains j))
      × ((n : ℕ) → ((h : ℕ) → length (chains h) ≤ n) → (h : ℕ) → length (chains' h) ≤ n)
  delete-Coherent =
      let (c, e, ne) = delete_outcome in
      let run = delete_run c e ne in
      elim (Option-cases (locate key (chains (hash key)))) [
        | inl gone ↦
            let missing : view chains key ≡ none = cc (view_located, gone) in
            let refused =
              Refines.delete_missing allows all s.store chains coherent.stored fuel key enough short
                missing in
            let seen = λ (j : CString). unseen j missing in
            (
              chains,
              rw (run, refused, missing),
              rw (run, refused) (delete-copies s.store chains coherent.stored seen),
              seen,
              λ n b. b,
            )
        | inr ((i, v), found) ↦
            let (done, r) =
              Refines.delete-Represents allows all s.store chains coherent.stored fuel key enough
                short i v found in
            let seen = λ (j : CString).
              Refines.view-delete chains key j i v (Represents.distinct coherent.stored (hash key))
                found in
            (
              update chains (hash key) (swap_remove i (chains (hash key))),
              rw (run, done, view_located, found),
              rw run (delete-copies _ _ r seen),
              seen,
              λ n b.
                  Refines.update-bounded chains (hash key) _ n b
                    (omega (arith, b (hash key), length-swap_remove i (chains (hash key)))),
            )
      ]
