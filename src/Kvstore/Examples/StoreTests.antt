-- ===== src/Kvstore/Examples/StoreTests.antt =====
-- The store at concrete inputs.
use group.Shared.{ℕ, ◌+◌, ◌<◌, ◌≡◌, refl, Bool, true, none, some, [], ◌∷◌, length, arith, ite}
use group.Kvstore.Text.{CString, hash, strcmp_dec, strlen}
use group.Kvstore.Outcome.{ok}
use group.Kvstore.Store.{
  Store, Access, encode, entry_key, entry_value, value_size, get, put, delete,
}
use group.Kvstore.Store.Chain.{Chain, locate}
use group.Kvstore.Store.Entry.{entry-encode}
use group.Kvstore.Store.Swap.{put_chain, swap_remove}
use group.Kvstore.Store.Refines.{
  Represents, view, update, reply_of, get-view, put-Represents, delete-Represents, view-delete,
}

abbrev grant : Access → Bool
grant a = true

granted : (a : Access) → grant a ≡ true
granted a = refl

abbrev key : CString
key = 107 ∷ []

abbrev value : CString
value = 118 ∷ 119 ∷ []

abbrev nothing : Store
nothing = record { exists = true; files = λ h i. none }

abbrev no_chains : ℕ → Chain
no_chains h = []

nothing-Represents : Represents nothing no_chains
nothing-Represents = record {
  exists = refl;
  held = λ h i. refl;
  texts = λ h. tt;
  distinct = λ h. tt;
}

key_short : strlen key < 1025
unfolding strlen
key_short = omega arith

value_short : strlen value < 1025
unfolding strlen
value_short = omega arith

entry-encode_example :
    (entry_key (encode key value) ≡ key)
    × (entry_value (encode key value) ≡ value)
    × (value_size (encode key value) ≡ strlen value + 1)
    × (length (encode key value).bytes ≡ (encode key value).length)
entry-encode_example = entry-encode key value (omega arith) (omega arith)

abbrev one : Store
one = (put grant 3 nothing key value).1

abbrev one_chain : ℕ → Chain
one_chain = update no_chains (hash key) (put_chain key value [])

put-Represents_example : ((put grant 3 nothing key value).0 ≡ ok tt) × Represents one one_chain
put-Represents_example =
    put-Represents grant granted nothing no_chains nothing-Represents 3 key (omega arith)
      (omega (arith, key_short)) value (omega (arith, value_short)) (omega arith) (omega arith)

one_located : locate key (one_chain (hash key)) ≡ some (0, value)
unfolding locate update put_chain strcmp_dec
one_located = ground arith

one_length : length (one_chain (hash key)) < 3
unfolding update put_chain
one_length = ground arith

get-view_example : get grant 3 one key ≡ reply_of (view one_chain key)
get-view_example =
    get-view grant granted one one_chain put-Represents_example.1 3 key one_length
      (omega (arith, key_short))

delete-Represents_example :
    ((delete grant 3 one key).0 ≡ ok tt)
    × Represents
        (delete grant 3 one key).1
        (update one_chain (hash key) (swap_remove 0 (one_chain (hash key))))
delete-Represents_example =
    delete-Represents grant granted one one_chain put-Represents_example.1 3 key one_length
      (omega (arith, key_short)) 0 value one_located

view-delete_example :
    view (update one_chain (hash key) (swap_remove 0 (one_chain (hash key)))) value
    ≡ ite (strcmp_dec key value) none (view one_chain value)
view-delete_example =
    view-delete one_chain key value 0 value (put-Represents_example.1.distinct (hash key))
      one_located
