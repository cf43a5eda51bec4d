-- ===== src/Kvstore/Server/Copies.antt =====
-- The cache of a server holds copies of what the store maps keys to, whatever goes into it.
use group.Shared.{ℕ, ◌≤◌, ◌≡◌, ◌≢◌, ◌⊎◌, inl, inr, sym, ◌∙◌, true, none, some}
use group.Kvstore.Text.{CString, strcmp_dec, strlen}
use group.Kvstore.Outcome.{ok, max_keylen, max_vallen}
use group.Kvstore.Uthash.{Uthash}
use group.Kvstore.Cache
use group.Kvstore.Cache.{Cache}
use group.Kvstore.Cache.Laws
use group.Kvstore.Store
use group.Kvstore.Store.{Access}
use group.Kvstore.Store.Chain.{Chain}
use group.Kvstore.Store.Refines.{Represents, view}
use group.Kvstore.Server.{Server}
use group.Kvstore.Server.Spec.{Coherent}

module _ (U : Uthash) (fresh : Cache U → ℕ)
    (fresh-IsFree : (c : Cache U) → Laws.IsFree U (fresh c) c) (s : Server U) (chains : ℕ → Chain)
    (coherent : Coherent s chains) (key : CString) (short : strlen key ≤ max_keylen) where
  -- A cache that binds nothing but what another cache of copies binds.
  pub fewer_copies :
      (c : Cache U)
      → Laws.IsValid U c
      → ((k : CString) → (Laws.lookup U c k ≡ Laws.lookup U s.cache k) ⊎ (Laws.lookup U c k ≡ none))
      → Coherent (record s { cache = c }) chains
  fewer_copies c v less = record {
    cache_valid = v;
    stored = coherent.stored;
    copies = λ k p w h. elim (less k) [
      | inl same ↦ coherent.copies k p w (sym same ∙ h)
      | inr gone ↦ absurd (cc)
    ];
    small = coherent.small;
  }

  -- A value that the store binds goes into the cache, and the store may have changed at its key.
  pub put-copies :
      (value : CString) (d : Store.Store) (chains' : ℕ → Chain)
      → strlen value ≤ max_vallen
      → Represents d chains'
      → ((k v : CString) → view chains' k ≡ some v → strlen v ≤ max_vallen)
      → view chains' key ≡ some value
      → ((k : CString) → k ≢ key → view chains' k ≡ view chains k)
      → ((Cache.put U (fresh s.cache) true true s.cache key value).0 ≡ ok tt)
        × Coherent
            (record s {
              cache = (Cache.put U (fresh s.cache) true true s.cache key value).1;
              store = d;
            })
            chains'
  put-copies value d chains' fits r small here rest =
      let (done, v, (q, bound), others) =
        Laws.put-lookup U s.cache coherent.cache_valid key (fresh s.cache) value short fits
          (fresh-IsFree s.cache) in
      (
        done,
        record {
          cache_valid = v;
          stored = r;
          copies = λ k p w h. elim (strcmp_dec k key) [
            | yes e ↦ (value, cc (bound, h, e), cc (e, here))
            | no e ↦ elim (others k e) [
              | inl same ↦
                  let (x, is, there) = coherent.copies k p w (sym same ∙ h) in
                  (x, is, rest k e ∙ there)
              | inr gone ↦ absurd (cc)
            ]
          ];
          small = small;
        },
      )
