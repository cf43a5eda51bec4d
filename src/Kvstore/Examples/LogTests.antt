-- ===== src/Kvstore/Examples/LogTests.antt =====
-- The log at concrete inputs.
use group.Shared.{ℕ, ◌≡◌, refl, Bool, true, none, some, List, [], ◌∷◌, ◌==◌, not, arith}
use group.Kvstore.Outcome.{ok, err, file_access}
use group.Kvstore.Message.{putreq, commit}
use group.Kvstore.Log.{
  Log, LogAccess, write, data_of, is_logged, init, log, clear_log, iterate_begin, iterate_has_next,
  load_entry,
}
use group.Kvstore.Log.Holds.{Holds, clear_log-Holds}
use group.Kvstore.Log.Recover.{Call, AllMake, entries, log_all, read_all, recover, log-lost}

abbrev grant : LogAccess → Bool
grant a = true

granted : (a : LogAccess) → grant a ≡ true
granted a = refl

-- The write to the first file fails.
abbrev full_disk : LogAccess → Bool
full_disk (write i) = not (i == 0)
full_disk _ = true

abbrev fresh : Log
fresh = record { exists = true; files = λ i. none; nextid = 0; iterpos = 7 }

fresh-Holds : Holds fresh []
fresh-Holds = record { exists = refl; held = λ i. refl; next = refl; whole = tt }

abbrev put_call : Call
put_call = record { type = putreq; key = some (107 ∷ []); value = some (118 ∷ []) }

abbrev commit_call : Call
commit_call = record { type = commit; key = none; value = none }

abbrev calls : List Call
calls = put_call ∷ commit_call ∷ []

abbrev put_data : List ℕ
put_data = 107 ∷ 0 ∷ 118 ∷ 0 ∷ []

put_data-data_of : data_of putreq (some (107 ∷ [])) (some (118 ∷ [])) ≡ some put_data
unfolding data_of
put_data-data_of = refl

calls-AllMake : AllMake calls (put_data ∷ [] ∷ [])
unfolding data_of is_logged
calls-AllMake = ((refl, refl), ((refl, refl), tt))

abbrev crashed : Log
crashed = record (log_all grant calls fresh) { nextid = 99; iterpos = 99 }

recover_example :
    ((init grant true 5 crashed).0 ≡ ok tt)
    × (read_all grant 5 (iterate_begin (init grant true 5 crashed).1)
        ≡ entries calls (put_data ∷ [] ∷ []))
recover_example =
    recover grant granted 5 calls (put_data ∷ [] ∷ []) fresh crashed fresh-Holds calls-AllMake
      (omega arith) (λ i. refl)

putreq-is_logged : is_logged putreq ≡ true
unfolding is_logged
putreq-is_logged = refl

log-lost_example :
    ((log full_disk true fresh putreq (some (107 ∷ [])) (some (118 ∷ []))).0 ≡ ok tt)
    × (iterate_has_next
          (record (log full_disk true fresh putreq (some (107 ∷ [])) (some (118 ∷ []))).1 {
            iterpos = 0;
          })
        ≡ true)
    × (load_entry full_disk true
          (log full_disk true fresh putreq (some (107 ∷ [])) (some (118 ∷ []))).1.files
          0
        ≡ err file_access)
log-lost_example =
    log-lost full_disk fresh [] putreq (some (107 ∷ [])) (some (118 ∷ [])) put_data fresh-Holds
      putreq-is_logged put_data-data_of refl refl refl

clear_log-Holds_example :
    ((clear_log grant true 3 fresh).0 ≡ ok tt) × Holds (clear_log grant true 3 fresh).1 []
clear_log-Holds_example = clear_log-Holds grant granted 3 fresh [] fresh-Holds (omega arith)
