-- ===== src/Kvstore/Examples/CacheTests.antt =====
-- The cache set at concrete inputs.
use group.Shared.{
  ℕ, ◌+◌, ◌<◌, ◌≡◌, refl, Bool, true, false, Option, none, some, List, [], ◌∷◌, ◌++◌, length, arith,
  ite,
}
use group.Kvstore.Text.{CString, strcmp_dec}
use group.Kvstore.Outcome.{ok, err, no_key}
use group.Kvstore.CacheSet.{CacheSet, Cell, get, put, delete, head_address, evict_loop}
use group.Kvstore.CacheSet.Bindings.{binding}
use group.Kvstore.CacheSet.Eviction.{SecondChance, evict-SecondChance}
use group.Kvstore.CacheSet.Invariant.{IsValid, view, get-binding}
use group.Kvstore.CacheSet.Put.{IsPut, put-IsPut, delete-binding, put-SecondChance, new_cell}
use group.Kvstore.CacheSet.Count.{length-put-delete}
use group.Kvstore.Examples.Memory.{table, find}

abbrev a : CString
a = 97 ∷ []

abbrev b : CString
b = 98 ∷ []

abbrev c : CString
c = 99 ∷ []

abbrev d : CString
d = 100 ∷ []

abbrev cell : ℕ → CString → Bool → Cell
cell p k r = record { address = p; key = k; value = some k; refbit = r }

-- `b` was used since it came in.
abbrev full : CacheSet table
full = record {
  elem_per_set = 3;
  num_entries = 3;
  entries = cell 2 b true ∷ cell 1 a false ∷ cell 3 c true ∷ [];
  hash = (c, 3) ∷ (b, 2) ∷ (a, 1) ∷ [];
}

full-IsValid : IsValid table full
unfolding find binding
full-IsValid = record {
  distinct = (
    ((λ e. ground arith, λ e. omega arith), ((λ e. ground arith, λ e. omega arith), tt)),
    (((λ e. ground arith, λ e. omega arith), tt), (tt, tt)),
  );
  agrees = λ k. ground arith;
  counted = omega arith;
  bounded = omega arith;
  room = omega arith;
}

full-bound : binding b full.entries ≡ some (2, some b)
unfolding binding strcmp_dec
full-bound = refl

full-unbound : binding d full.entries ≡ none
unfolding binding strcmp_dec
full-unbound = refl

get-binding_example :
    IsValid table (get table full b).1
    × ((k : CString) → binding k (get table full b).1.entries ≡ binding k full.entries)
    × ((p : ℕ) (v : CString)
        → binding b full.entries ≡ some (p, some v)
        → (get table full b).0 ≡ ok v)
    × (binding b full.entries ≡ none → get table full b ≡ (err no_key, full))
get-binding_example = get-binding table full full-IsValid b

put-IsPut_example :
    (s' : CacheSet table) × (evicted : Option CString) × (put table 4 true true full d d
      ≡ (ok tt, s'))
    × IsPut table full full-IsValid d s' d evicted
    × (full.num_entries < full.elem_per_set → evicted ≡ none)
    × ((v : CString) → view table full d ≡ some v → evicted ≡ none)
put-IsPut_example =
    put-IsPut table full full-IsValid d 4 d
      (λ e. omega arith, (λ e. omega arith, (λ e. omega arith, tt)))

delete-binding_example :
    ((p : ℕ) (v : Option CString)
      → binding b full.entries ≡ some (p, v)
      → (delete table full b).0 ≡ ok tt)
    × (binding b full.entries ≡ none → delete table full b ≡ (err no_key, full))
    × IsValid table (delete table full b).1
    × ((k : CString)
        → binding k (delete table full b).1.entries
          ≡ ite (strcmp_dec b k) none (binding k full.entries))
    × ((delete table full b).1.num_entries ≡ full.num_entries)
delete-binding_example = delete-binding table full full-IsValid b

evict-SecondChance_example :
    (l : List Cell) × (x : Cell) × (evict_loop table
        (length full.entries + 2)
        full.entries
        full.hash
        (head_address full.entries)
      ≡ some (l, table.del full.hash x.key x.address))
    × SecondChance full.entries l x
evict-SecondChance_example = evict-SecondChance table full.hash full.entries (omega arith)

put-SecondChance_example :
    (l : List Cell) × (x : Cell) × ((put table 4 true true full d d).1.entries
      ≡ l ++ new_cell table full full-IsValid d 4 d ∷ [])
    × SecondChance full.entries l x
put-SecondChance_example =
    put-SecondChance table full full-IsValid d 4 d full-unbound refl (omega arith)

length-put-delete_example :
    length (put table 4 true true (delete table full b).1 d d).1.entries + 1 ≡ length full.entries
length-put-delete_example =
    length-put-delete table full full-IsValid b 2 4 (some b) d d full-bound full-unbound refl
      (omega arith)

-- The set evicts `a`, the first that was not used, and not `b`.
evicts_unused :
    (put table 4 true true full d d).1.entries
    ≡ cell 3 c true ∷ cell 2 b false ∷ cell 4 d false ∷ []
unfolding put find strcmp_dec
evicts_unused = refl
