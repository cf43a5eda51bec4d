-- ===== src/Kvstore/Server/Spec.antt =====
-- What a key-value server promises: the map that clients see, and when a server's cache and store
-- hold it.
use group.Shared.{ℕ, ◌≤◌, ◌≡◌, Option, none, some, ite, length}
use group.Kvstore.Text.{CString, strcmp_dec, strlen}
use group.Kvstore.Outcome.{max_vallen}
use group.Kvstore.Uthash.{Uthash}
use group.Kvstore.Cache.Laws
use group.Kvstore.Store.Chain.{Chain}
use group.Kvstore.Store.Refines.{Represents, view}
use group.Kvstore.Server.{Server}

abbrev pub Map : Type 0
Map = CString → Option CString

abbrev pub insert : CString → CString → Map → Map
insert key value m j = ite (strcmp_dec key j) (some value) (m j)

abbrev pub remove : CString → Map → Map
remove key m j = ite (strcmp_dec key j) none (m j)

module _ {U : Uthash} where
  -- The store is complete, and the cache holds copies of what is in the store.
  pub record Coherent (s : Server U) (chains : ℕ → Chain) : Type 0 where
    pub cache_valid : Laws.IsValid U s.cache
    pub stored : Represents s.store chains
    pub copies :
        (k : CString) (p : ℕ) (v : Option CString)
        → Laws.lookup U s.cache k ≡ some (p, v)
        → (w : CString) × (v ≡ some w) × (view chains k ≡ some w)
    pub small : (k v : CString) → view chains k ≡ some v → strlen v ≤ max_vallen

  -- The server holds the map, in chains of at most `n` entries.
  pub record Models (s : Server U) (m : Map) (n : ℕ) : Type 0 where
    pub chains : ℕ → Chain
    pub coherent : Coherent s chains
    pub content : (k : CString) → view chains k ≡ m k
    pub bounded : (h : ℕ) → length (chains h) ≤ n
