-- ===== src/Kvstore/Server/Refines.antt =====
-- The server refines the map: what get, put and delete return, and that the cache never disagrees with
-- the store.
use group.Shared.{ℕ, ◌≤◌, ◌<◌, ◌≡◌, inl, inr, refl, Bool, true, length, arith, Option-cases}
use group.Kvstore.Text.{CString, strlen, hash}
use group.Kvstore.Outcome.{Outcome, ok, err, no_key, max_keylen}
use group.Kvstore.Uthash.{Uthash}
use group.Kvstore.Cache
use group.Kvstore.Cache.{Cache}
use group.Kvstore.Cache.Laws
use group.Kvstore.Store
use group.Kvstore.Store.{Access}
use group.Kvstore.Store.Chain.{Chain}
use group.Kvstore.Store.Refines
use group.Kvstore.Store.Refines.{Represents, view, update, reply_of}
use group.Kvstore.Server.{Server, get}
use group.Kvstore.Server.Spec.{Coherent}
use group.Kvstore.Server.Copies.{fewer_copies, put-copies}

module _ (U : Uthash) (allows : Access → Bool) (all : (a : Access) → allows a ≡ true) (fuel : ℕ)
    (fresh : Cache U → ℕ) (fresh-IsFree : (c : Cache U) → Laws.IsFree U (fresh c) c) (s : Server U)
    (chains : ℕ → Chain) (coherent : Coherent s chains) (key : CString)
    (short : strlen key ≤ max_keylen) (enough : length (chains (hash key)) < fuel) where
  abbrev read : Outcome CString × Cache U
  read = Cache.get U s.cache key

  get_hit :
      (w : CString)
      → read.0 ≡ ok w
      → get U allows fuel fresh true s key ≡ (ok w, record s { cache = read.1 })
  unfolding get
  get_hit w h = ground arith

  get_absent :
      read.0 ≡ err no_key
      → Store.get allows fuel s.store key ≡ err no_key
      → get U allows fuel fresh true s key ≡ (err no_key, record s { cache = read.1 })
  unfolding get
  get_absent h g = ground arith

  get_stored :
      (w : CString)
      → read.0 ≡ err no_key
      → Store.get allows fuel s.store key ≡ ok w
      → (Cache.put U (fresh read.1) true true read.1 key w).0 ≡ ok tt
      → get U allows fuel fresh true s key
        ≡ (ok w, record s { cache = (Cache.put U (fresh read.1) true true read.1 key w).1 })
  unfolding get
  get_stored w h g p = ground arith

  -- Reading the cache keeps the copies.
  after_read : Coherent (record s { cache = read.1 }) chains
  after_read =
      let (v, same, hit, miss) = Laws.get-lookup U s.cache coherent.cache_valid key short in
      fewer_copies U fresh fresh-IsFree s chains coherent key short read.1 v (λ k. inl (same k))

  stored_reply : Store.get allows fuel s.store key ≡ reply_of (view chains key)
  stored_reply = Refines.get-view allows all s.store chains coherent.stored fuel key enough short

  -- kvserver_get of a key of allowed length returns what the store maps it to, whether the cache
  -- or the store is read, and afterwards the cache still holds nothing but copies of what the
  -- store holds; for a coherent server, on a file system that refuses nothing, with memory, an
  -- allocator of free addresses, and fuel above the chain length.
  pub get-Coherent :
      ((get U allows fuel fresh true s key).0 ≡ reply_of (view chains key))
      × Coherent (get U allows fuel fresh true s key).1 chains
  get-Coherent =
      let (v, same, hit, miss) = Laws.get-lookup U s.cache coherent.cache_valid key short in
      elim (Option-cases (Laws.lookup U s.cache key)) [
        | inr ((p, v), e) ↦
            let (w, is, there) = coherent.copies key p v e in
            rw (get_hit w (hit p w (cc (e, is))), there) (refl, after_read)
        | inl e ↦ elim (Option-cases (view chains key)) [
          | inl gone ↦ rw (get_absent (miss e) (cc (stored_reply, gone)), gone) (refl, after_read)
          | inr (w, there) ↦
              let (done, after) =
                put-copies U fresh fresh-IsFree (record s { cache = read.1 }) chains after_read key
                  short w s.store chains (coherent.small key w there) coherent.stored coherent.small
                  there (λ k ne. refl) in
              rw (get_stored w (miss e) (cc (stored_reply, there)) done, there) (refl, after)
        ]
      ]
