-- ===== src/Kvstore/CacheSet/Count.antt =====
-- What follows from `kvcacheset_del` leaving `num_entries` as it was.
use group.Shared.{ℕ, ◌+◌, ◌≤◌, ◌≡◌, Option, some, none, true, length, arith}
use group.Kvstore.Text.{CString}
use group.Kvstore.Uthash.{Uthash}
use group.Kvstore.CacheSet.{CacheSet, put, delete}
use group.Kvstore.CacheSet.Bindings.{binding, length-unlink_bound}
use group.Kvstore.CacheSet.Invariant.{IsValid}
use group.Kvstore.CacheSet.Put.{length-put, delete-binding, delete_bound}

module _ (U : Uthash) (s : CacheSet U) (valid : IsValid U s) (key : CString) where
  -- On a valid cache set of three or more elements whose num_entries is at the bound, deleting a
  -- bound key and then putting a key that is not bound ends with one element less than before:
  -- since kvcacheset_del does not lower num_entries, the put evicts an element although there is
  -- a free place.
  pub length-put-delete :
      (p q : ℕ) (v : Option CString) (new : CString) (value : CString)
      → binding key s.entries ≡ some (p, v)
      → binding new s.entries ≡ none
      → s.num_entries ≡ s.elem_per_set
      → 3 ≤ length s.entries
      → length (put U q true true (delete U s key).1 new value).1.entries + 1 ≡ length s.entries
  length-put-delete p q v new value e missing full three =
      let (reply, absent, after, binds, count) = delete-binding U s valid key in
      let shorter : length (delete U s key).1.entries + 1 ≡ length s.entries =
        rw (delete_bound U s valid key p v e) (length-unlink_bound key s.entries p v e) in
      omega (
        arith,
        length-put U (delete U s key).1 after new q value (ground (arith, binds new))
            (rw (delete_bound U s valid key p v e) full) (omega arith),
        shorter,
      )
