-- ===== src/Kvstore/Examples/ServerTests.antt =====
-- The server at concrete inputs.
use group.Shared.{ℕ, ◌≡◌, refl, Bool, true, false, none, List, [], ◌∷◌, arith, All}
use group.Kvstore.Text.{CString, strlen}
use group.Kvstore.CacheSet.Bindings.{binding}
use group.Kvstore.Cache.{set_index}
use group.Kvstore.Cache.Laws
use group.Kvstore.Store.{Access}
use group.Kvstore.Store.Chain.{Chain, lookup}
use group.Kvstore.Store.Refines.{view, reply_of}
use group.Kvstore.Server.{Server, get}
use group.Kvstore.Server.Spec.{Coherent, Models}
use group.Kvstore.Server.Refines
use group.Kvstore.Server.Runs.{
  Request, ask, store_pair, discard, IsFit, serve, answers, after_all, serve-answers,
}
use group.Kvstore.Examples.Memory.{table, find-empty, fresh, fresh-IsFree}

abbrev grant : Access → Bool
grant a = true

granted : (a : Access) → grant a ≡ true
granted a = refl

abbrev key : CString
key = 107 ∷ []

abbrev value : CString
value = 118 ∷ 119 ∷ []

abbrev start : Server table
start = record {
  cache = record {
    num_sets = 1;
    elem_per_set = 2;
    sets = record { elem_per_set = 2; num_entries = 0; entries = []; hash = [] } ∷ [];
  };
  store = record { exists = true; files = λ h i. none };
  use_tpc = false;
}

abbrev no_chains : ℕ → Chain
no_chains h = []

one_set : (k : CString) → set_index 1 k ≡ 0
unfolding set_index
one_set k = omega arith

start_binds : (k : CString) → Laws.lookup table start.cache k ≡ none
unfolding Laws.lookup binding
start_binds k = ground (arith, one_set k)

start-Coherent : Coherent start no_chains
unfolding view lookup
start-Coherent = record {
  cache_valid = record {
    filled = refl;
    some_set = omega arith;
    sets_valid = (
      record {
        distinct = tt;
        agrees = λ k. unfold binding in find-empty k;
        counted = omega arith;
        bounded = omega arith;
        room = omega arith;
      },
      tt,
    );
  };
  stored = record { exists = refl; held = λ h i. refl; texts = λ h. tt; distinct = λ h. tt };
  copies = λ k p v h. absurd (ground (arith, start_binds k));
  small = λ k v h. absurd (cc);
}

start-Models : Models start (λ k. none) 0
unfolding view lookup
start-Models = record {
  chains = no_chains;
  coherent = start-Coherent;
  content = λ k. refl;
  bounded = λ h. omega arith;
}

abbrev requests : List Request
requests = store_pair key value ∷ ask key ∷ discard key ∷ ask key ∷ []

requests-IsFit : All IsFit requests
unfolding strlen
requests-IsFit = omega arith

get-Coherent_example :
    ((get table grant 3 fresh true start key).0 ≡ reply_of (view no_chains key))
    × Coherent (get table grant 3 fresh true start key).1 no_chains
get-Coherent_example =
    Refines.get-Coherent table grant granted 3 fresh fresh-IsFree start no_chains start-Coherent key
      (requests-IsFit.0.0) (omega arith)

serve-answers_example :
    ((serve table grant 9 fresh none start requests).0 ≡ answers (λ k. none) requests)
    × Models (serve table grant 9 fresh none start requests).1 (after_all (λ k. none) requests) 4
serve-answers_example =
    serve-answers table grant 9 fresh none granted fresh-IsFree requests start (λ k. none) 0 refl
      start-Models (omega arith) requests-IsFit
