-- ===== src/Kvstore/Store/Refines.antt =====
-- The directory of kvstore.c refines a map from keys to values, on a file system that refuses nothing.
use group.Shared.{
  ℕ, ◌+◌, ◌-◌, ◌≤◌, ◌<◌, ◌≡◌, ◌≢◌, refl, sym, ap, Bool, true, Option, none, some, All, length, drop,
  length-drop, get_elem?-drop, arith, ite, if_neg, get_elem?, if◌then◌else◌, ◌==◌, if_both,
  ℕ_discrete,
}
use native.Mathlib.Nat.{zero-add}
use group.Kvstore.Text.{CString, IsText, strlen, hash, strcmp_dec}
use group.Kvstore.Outcome.{Outcome, ok, err, no_key, max_keylen, max_vallen}
use group.Kvstore.Store.{
  KvEntry, Store, Access, open_read, encode, find_entry, get, put_check, put, delete, write,
}
use group.Kvstore.Store.Chain.{
  Chain, lookup, locate, stored, IsTextPair, found_at, find_loop-locate, end_loop-length,
}
use group.Kvstore.Store.Swap.{
  Distinct, put_chain, swap_remove, lookup-put_chain, All-put_chain, lookup-locate, locate-lt,
  get_elem?-put_chain, put_chain-Distinct, All-swap_remove, swap_remove-Distinct,
  lookup-swap_remove, get_elem?-swap_remove,
}

-- The files are complete chains of entries with distinct keys.
pub record Represents (s : Store) (chains : ℕ → Chain) : Type 0 where
  pub exists : s.exists ≡ true
  pub held : (h i : ℕ) → s.files h i ≡ stored (get_elem? (chains h) i)
  pub texts : (h : ℕ) → All IsTextPair (chains h)
  pub distinct : (h : ℕ) → Distinct (chains h)

-- What the store maps a key to.
unfoldable pub view : (ℕ → Chain) → CString → Option CString
view chains key = lookup key (chains (hash key))

-- One chain is replaced.
unfoldable pub update : (ℕ → Chain) → ℕ → Chain → ℕ → Chain
update chains h l h' = if h' == h then l else chains h'

abbrev pub reply_of : Option CString → Outcome CString
reply_of none = err no_key
reply_of (some v) = ok v

update-Represents :
    (s : Store) (chains : ℕ → Chain) (files : ℕ → ℕ → Option KvEntry) (h : ℕ) (l : Chain)
    → Represents s chains
    → ((i : ℕ) → files h i ≡ stored (get_elem? l i))
    → ((h' i : ℕ) → h' ≢ h → files h' i ≡ s.files h' i)
    → All IsTextPair l
    → Distinct l
    → Represents (record s { files = files }) (update chains h l)
unfolding update
update-Represents s chains files h l r here other t d = record {
  exists = r.exists;
  held = λ h' i. elim (ℕ_discrete h' h) [
    | yes p ↦ rw p (ground (arith, here i))
    | no p ↦ ground (arith, other h' i p, r.held h' i)
  ];
  texts = λ h'. if_both (All IsTextPair) (h' == h) l (chains h') t (r.texts h');
  distinct = λ h'. if_both Distinct (h' == h) l (chains h') d (r.distinct h');
}

module _ (allows : Access → Bool) (all : (a : Access) → allows a ≡ true) (s : Store)
    (chains : ℕ → Chain) (r : Represents s chains) (fuel : ℕ) (key : CString)
    (enough : length (chains (hash key)) < fuel) (short : strlen key ≤ max_keylen) where
  find_entry-locate : find_entry allows fuel s key ≡ found_at 0 (locate key (chains (hash key)))
  unfolding find_entry
  find_entry-locate =
      let e = r.exists in
      let loop =
        find_loop-locate allows (λ h i. all (open_read h i)) fuel s.files key (hash key) 0
          (chains (hash key)) enough (r.texts (hash key))
          (λ j. rw zero-add (r.held (hash key) j)) in
      ground arith

  -- On a store whose files are complete chains with distinct keys, kvstore_get of a key of
  -- allowed length returns the value that the chains map it to, or ERRNOKEY if there is none, on
  -- a file system that refuses nothing and with fuel above the length of the chain.
  pub get-view : get allows fuel s key ≡ reply_of (view chains key)
  unfolding get view
  get-view = ground (arith, find_entry-locate, lookup-locate key (chains (hash key)))

  -- Where the key is, or is to be appended.
  abbrev place : ℕ
  place = elim (locate key (chains (hash key))) [
    | none ↦ length (chains (hash key))
    | some (i, v) ↦ i
  ]

  put_at :
      (value : CString)
      → strlen value ≤ max_vallen
      → put allows fuel s key value
        ≡ (ok tt, record s { files = write s.files (hash key) place (some (encode key value)) })
  unfolding put put_check
  put_at value small =
      let e = r.exists in
      let end =
        end_loop-length allows fuel s.files (hash key) 0 (chains (hash key)) enough
          (λ j. rw zero-add (r.held (hash key) j)) in
      ground (
        arith,
        find_entry-locate,
        all (Access.open_write (hash key) place),
        zero-add (length (chains (hash key))),
      )

  -- On a store whose files are complete chains with distinct keys, kvstore_put of a key and value
  -- of allowed length without NUL succeeds, on a file system that refuses nothing and with fuel
  -- above the chain length, and the files are again complete chains, with the value put under its
  -- key in its chain and the other chains unchanged.
  pub put-Represents :
      (value : CString)
      → strlen value ≤ max_vallen
      → IsText key
      → IsText value
      → ((put allows fuel s key value).0 ≡ ok tt)
        × Represents
            (put allows fuel s key value).1
            (update chains (hash key) (put_chain key value (chains (hash key))))
  put-Represents value small tk tv = rw (put_at value small) (
    refl,
    update-Represents s chains _ (hash key) (put_chain key value (chains (hash key))) r
        (λ i.
          unfold write in
          ground (arith, get_elem?-put_chain key value (chains (hash key)) i, r.held (hash key) i))
        (λ h i ne. unfold write in ground arith)
        (All-put_chain IsTextPair key value (chains (hash key)) (r.texts (hash key)) (tk, tv))
        (put_chain-Distinct key value (chains (hash key)) (r.distinct (hash key))),
  )

  -- A key that is missing cannot be deleted.
  pub delete_missing : view chains key ≡ none → delete allows fuel s key ≡ (err no_key, s)
  unfolding delete view
  delete_missing h = ground (arith, find_entry-locate, lookup-locate key (chains (hash key)))

  -- The files after the entry at `i` is deleted.
  abbrev files_without : ℕ → ℕ → ℕ → Option KvEntry
  files_without i =
      let h = hash key in
      let last = length (chains h) - 1 in
      if last == i
      then write s.files h i none
      else write (write s.files h i (s.files h last)) h last none

  delete_at :
      (i : ℕ) (v : CString)
      → locate key (chains (hash key)) ≡ some (i, v)
      → delete allows fuel s key ≡ (ok tt, record s { files = files_without i })
  unfolding delete
  delete_at i v found =
      let l = chains (hash key) in
      let lt = locate-lt key l i v found in
      let end =
        end_loop-length allows fuel s.files (hash key) (i + 1) (drop (i + 1) l)
          (omega (arith, length-drop (i + 1) l))
          (λ j. rw (get_elem?-drop (i + 1) l j) (r.held (hash key) (i + 1 + j))) in
      let counter : i + 1 + length (drop (i + 1) l) ≡ length l =
        omega (arith, length-drop (i + 1) l) in
      ground (
        arith,
        find_entry-locate,
        zero-add i,
        all (Access.remove (hash key) i),
        all (Access.rename (hash key) (length l - 1)),
      )

  files_without-here :
      (i j : ℕ)
      → i < length (chains (hash key))
      → files_without i (hash key) j ≡ stored (get_elem? (swap_remove i (chains (hash key))) j)
  unfolding write
  files_without-here i j lt =
      let l = chains (hash key) in
      ground (
        arith,
        get_elem?-swap_remove i l j lt,
        r.held (hash key) j,
        r.held (hash key) (length l - 1),
      )

  -- On a store whose files are complete chains with distinct keys, kvstore_del of a key of
  -- allowed length that is located at position i of its chain succeeds, on a file system that
  -- refuses nothing and with fuel above the chain length, and the files are again complete
  -- chains: the last entry takes place i, and the other chains are unchanged.
  pub delete-Represents :
      (i : ℕ) (v : CString)
      → locate key (chains (hash key)) ≡ some (i, v)
      → ((delete allows fuel s key).0 ≡ ok tt)
        × Represents
            (delete allows fuel s key).1
            (update chains (hash key) (swap_remove i (chains (hash key))))
  delete-Represents i v found = rw (delete_at i v found) (
    refl,
    update-Represents s chains _ (hash key) (swap_remove i (chains (hash key))) r
        (λ j. files_without-here i j (locate-lt key (chains (hash key)) i v found))
        (λ h j ne. unfold write in ground arith)
        (All-swap_remove IsTextPair i (chains (hash key)) (r.texts (hash key)))
        (swap_remove-Distinct i (chains (hash key)) (r.distinct (hash key))),
  )

module _ (chains : ℕ → Chain) (key j : CString) where
  view-update :
      (l : Chain) (v : Option CString)
      → (hash j ≡ hash key → lookup j l ≡ v)
      → (hash j ≢ hash key → lookup j (chains (hash j)) ≡ v)
      → view (update chains (hash key) l) j ≡ v
  unfolding view update
  view-update l v same other = elim (ℕ_discrete (hash j) (hash key)) [
    | yes p ↦ ground (arith, same p)
    | no p ↦ ground (arith, other p)
  ]

  -- A put binds its key and no other.
  pub view-put :
      (value : CString)
      → view (update chains (hash key) (put_chain key value (chains (hash key)))) j
        ≡ ite (strcmp_dec key j) (some value) (view chains j)
  view-put value =
      view-update _ _ (λ e. unfold view in rw e (lookup-put_chain key j value (chains (hash key))))
        (λ ne.
          unfold view in
          elim (strcmp_dec key j) [
            | yes p ↦ absurd (ne (ap hash (sym p)))
            | no p ↦ sym (if_neg (strcmp_dec key j) p (some value) (lookup j (chains (hash j))))
          ])

  -- A deletion loses its key and no other.
  pub view-delete :
      (i : ℕ) (v : CString)
      → Distinct (chains (hash key))
      → locate key (chains (hash key)) ≡ some (i, v)
      → view (update chains (hash key) (swap_remove i (chains (hash key)))) j
        ≡ ite (strcmp_dec key j) none (view chains j)
  view-delete i v d found =
      view-update _ _
        (λ e. unfold view in rw e (lookup-swap_remove key j (chains (hash key)) i v d found))
        (λ ne.
          unfold view in
          elim (strcmp_dec key j) [
            | yes p ↦ absurd (ne (ap hash (sym p)))
            | no p ↦ sym (if_neg (strcmp_dec key j) p none (lookup j (chains (hash j))))
          ])

-- Chains are no longer than a bound, if the one that is replaced is not.
pub update-bounded :
    (chains : ℕ → Chain) (h : ℕ) (l : Chain) (n : ℕ)
    → ((h' : ℕ) → length (chains h') ≤ n)
    → length l ≤ n
    → (h' : ℕ) → length (update chains h l h') ≤ n
unfolding update
update-bounded chains h l n all here h' =
    if_both (λ (l' : Chain). length l' ≤ n) (h' == h) l (chains h') here (all h')
