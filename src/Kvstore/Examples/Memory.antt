-- ===== src/Kvstore/Examples/Memory.antt =====
-- A hash table as an association list, and an allocator of addresses that are not in use.
use group.Shared.{ℕ, ◌+◌, ◌<◌, ◌≡◌, refl, Option, none, some, List, [], ◌∷◌, map, ite, All, arith}
use group.Kvstore.Text.{CString, strcmp_dec}
use group.Kvstore.Uthash.{Uthash}
use group.Kvstore.CacheSet.{CacheSet, Cell}
use group.Kvstore.CacheSet.Bindings
use group.Kvstore.Cache.{Cache}
use group.Kvstore.Cache.Laws

abbrev pub Table : Type 0
Table = List (CString × ℕ)

unfoldable pub find : Table → CString → Option ℕ
unfolding strcmp_dec
find [] k = none
find ((j, p) ∷ t) k = ite (strcmp_dec j k) (some p) (find t k)

unfoldable pub del : Table → CString → ℕ → Table
unfolding strcmp_dec
del [] k p = []
del ((j, q) ∷ t) k p = let rest = del t k p in ite (strcmp_dec j k) rest ((j, q) ∷ rest)

find-del-all :
    (t : Table) (k j : CString) (p : ℕ) → find (del t k p) j ≡ ite (strcmp_dec k j) none (find t j)
unfolding find del
find-del-all [] k j p = ground arith
find-del-all ((i, q) ∷ t) k j p = ground (arith, find-del-all t k j p)

pub find-add :
    (t : Table) (k j : CString) (p : ℕ)
    → find t k ≡ none
    → find ((k, p) ∷ t) j ≡ ite (strcmp_dec k j) (some p) (find t j)
unfolding find
find-add t k j p h = refl

pub find-empty : (k : CString) → find [] k ≡ none
unfolding find
find-empty k = refl

pub find-del :
    (t : Table) (k j : CString) (p : ℕ)
    → find t k ≡ some p
    → find (del t k p) j ≡ ite (strcmp_dec k j) none (find t j)
find-del t k j p h = find-del-all t k j p

abbrev pub table : Uthash
table = record {
  Table = Table;
  empty = [];
  find = find;
  add = λ t k p. (k, p) ∷ t;
  del = del;
  items = map (λ e. e.1);
  find-empty = find-empty;
  find-add = find-add;
  find-del = find-del;
}

-- An address above every one in use.
unfoldable pub above : List Cell → ℕ
above [] = 0
above (c ∷ l) = c.address + above l

above-IsFree : (l : List Cell) (p : ℕ) → above l < p → Bindings.IsFree p l
unfolding above
above-IsFree [] p h = tt
above-IsFree (c ∷ l) p h = (λ e. omega arith, above-IsFree l p (omega arith))

unfoldable pub total : List (CacheSet table) → ℕ
unfolding above
total [] = 0
total (s ∷ l) = above s.entries + total l

total-IsFree :
    (l : List (CacheSet table)) (p : ℕ)
    → total l < p
    → All (λ s. Bindings.IsFree p (CacheSet.entries s)) l
unfolding total
total-IsFree [] p h = tt
total-IsFree (s ∷ l) p h = (above-IsFree s.entries p (omega arith), total-IsFree l p (omega arith))

unfoldable pub fresh : Cache table → ℕ
unfolding total
fresh c = total c.sets + 1

pub fresh-IsFree : (c : Cache table) → Laws.IsFree table (fresh c) c
unfolding fresh
fresh-IsFree c = total-IsFree c.sets (total c.sets + 1) (omega arith)
