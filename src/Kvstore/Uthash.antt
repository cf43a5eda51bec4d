-- ===== src/Kvstore/Uthash.antt =====
-- What kvcacheset.c relies on of the vendored uthash.h: a table of elements, named by their
-- addresses, by unique string keys.
use group.Shared.{ℕ, ◌≡◌, Option, none, some, List, ite}
use group.Kvstore.Text.{CString, strcmp_dec}

pub record Uthash : Type 1 where
  pub Table : Type 0
  -- the null head pointer
  pub empty : Table
  -- HASH_FIND_STR
  pub find : Table → CString → Option ℕ
  -- HASH_ADD_KEYPTR
  pub add : Table → CString → ℕ → Table
  -- HASH_DEL of the element with the key and the address
  pub del : Table → CString → ℕ → Table
  -- the elements in the order of HASH_ITER
  pub items : Table → List ℕ
  pub find-empty : (k : CString) → find empty k ≡ none
  -- A key is added only where it is missing.
  pub find-add :
      (t : Table) (k j : CString) (p : ℕ)
      → find t k ≡ none
      → find (add t k p) j ≡ ite (strcmp_dec k j) (some p) (find t j)
  pub find-del :
      (t : Table) (k j : CString) (p : ℕ)
      → find t k ≡ some p
      → find (del t k p) j ≡ ite (strcmp_dec k j) none (find t j)
