-- ===== src/Kvstore/Store.antt =====
-- kvstore.c: one file for each entry, named by the hash of the key and the position in the hash chain.
pub mod Entry
pub mod Chain
pub mod Swap
pub mod Refines
use group.Shared.{
  ℕ, zero, suc, ◌+◌, ◌-◌, Bool, true, false, ◌&&◌, Option, none, some, List, [], ◌∷◌, ◌++◌, ite,
  ltb, ◌==◌, if◌then◌else◌,
}
use group.Kvstore.Text.{CString, hash, strlen, strcmp_dec}
use group.Kvstore.Outcome.{
  Outcome, ok, err, fault, key_len, val_len, no_key, file_access, os_error, max_keylen, max_vallen,
}

-- `kventry_t`
pub record KvEntry : Type 0 where
  pub length : ℕ
  pub bytes : List ℕ

-- The bytes from a position up to the next NUL, as a `char *` is read.
unfoldable pub c_string : List ℕ → CString
c_string [] = []
c_string (b ∷ bs) = let rest = c_string bs in if b == 0 then [] else b ∷ rest

unfoldable pub skip : ℕ → List ℕ → List ℕ
skip zero bs = bs
skip (suc n) [] = []
skip (suc n) (b ∷ bs) = skip n bs

-- The entry that `kvstore_put` writes.
unfoldable pub encode : CString → CString → KvEntry
unfolding strlen
encode key value = record {
  length = strlen key + strlen value + 2;
  bytes = (key ++ 0 ∷ []) ++ (value ++ 0 ∷ []);
}

-- What `find_entry` reads of an entry: `data`, and `data + strlen (data) + 1`.
unfoldable pub entry_key : KvEntry → CString
unfolding c_string
entry_key e = c_string e.bytes

unfoldable pub entry_value : KvEntry → CString
unfolding c_string skip strlen
entry_value e = c_string (skip (strlen (c_string e.bytes) + 1) e.bytes)

-- The size of the memory that `find_entry` allocates for the value.
unfoldable pub value_size : KvEntry → ℕ
unfolding c_string strlen
value_size e = e.length - strlen (c_string e.bytes) - 1

-- The directory, and the file at a hash and a chain position.
pub record Store : Type 0 where
  pub exists : Bool
  pub files : ℕ → ℕ → Option KvEntry

-- What the file system may refuse.
pub data Access : Type 0 where
  make_dir : Access
  open_read open_write remove rename : ℕ → ℕ → Access

unfoldable pub write : (ℕ → ℕ → Option KvEntry) → ℕ → ℕ → Option KvEntry → ℕ → ℕ → Option KvEntry
write files h i e h' i' = if (h' == h) && (i' == i) then e else files h' i'

module _ (allows : Access → Bool) where
  unfoldable pub init : Store → Outcome (Unit {0}) × Store
  init s =
      if s.exists
      then (ok tt, s)
      else if allows make_dir
      then (ok tt, record s { exists = true })
      else (err os_error, s)

  -- The loop of `find_entry`: the position and the value of the entry with the key.
  unfoldable pub find_loop : ℕ → (ℕ → ℕ → Option KvEntry) → CString → ℕ → ℕ → Outcome (ℕ × CString)
  unfolding entry_key entry_value strcmp_dec
  find_loop zero files key h i = fault
  find_loop (suc fuel) files key h i = elim (files h i) [
    | none ↦ err no_key
    | some e ↦
        let rest = find_loop fuel files key h (i + 1) in
        if allows (open_read h i)
        then ite (strcmp_dec key (entry_key e)) (ok (i, entry_value e)) rest
        else err file_access
  ]

  unfoldable pub find_entry : ℕ → Store → CString → Outcome (ℕ × CString)
  unfolding find_loop strlen
  find_entry fuel s key =
      if ltb max_keylen (strlen key)
      then err key_len
      else if s.exists
      then find_loop fuel s.files key (hash key) 0
      else err file_access

  unfoldable pub has_key : ℕ → Store → CString → Bool
  unfolding find_entry
  has_key fuel s key = elim (find_entry fuel s key) [ ok _ ↦ true | _ ↦ false ]

  unfoldable pub get : ℕ → Store → CString → Outcome CString
  unfolding find_entry
  get fuel s key = elim (find_entry fuel s key) [ ok (i, v) ↦ ok v | err e ↦ err e | fault ↦ fault ]

  unfoldable pub put_check : Store → CString → CString → Outcome (Unit {0})
  unfolding strlen
  put_check s key value =
      if ltb max_keylen (strlen key)
      then err key_len
      else if ltb max_vallen (strlen value)
      then err val_len
      else if s.exists
      then ok tt
      else err file_access

  -- The first free position of a chain, from a position on.
  unfoldable pub end_loop : ℕ → (ℕ → ℕ → Option KvEntry) → ℕ → ℕ → Outcome ℕ
  end_loop zero files h i = fault
  end_loop (suc fuel) files h i = elim (files h i) [
    | none ↦ ok i
    | some e ↦ end_loop fuel files h (i + 1)
  ]

  abbrev pub write_entry : Store → CString → CString → ℕ → Outcome (Unit {0}) × Store
  write_entry s key value i =
      if allows (open_write (hash key) i)
      then (ok tt, record s { files = write s.files (hash key) i (some (encode key value)) })
      else (err file_access, s)

  unfoldable pub put : ℕ → Store → CString → CString → Outcome (Unit {0}) × Store
  unfolding put_check find_entry end_loop write
  put fuel s key value = elim (put_check s key value) [
    | err e ↦ (err e, s)
    | fault ↦ (fault, s)
    | ok _ ↦ elim (find_entry fuel s key) [
      | ok (i, v) ↦ write_entry s key value i
      | fault ↦ (fault, s)
      | err e ↦ elim (end_loop fuel s.files (hash key) 0) [
        | ok i ↦ write_entry s key value i
        | err e' ↦ (err e', s)
        | fault ↦ (fault, s)
      ]
    ]
  ]

  unfoldable pub del_check : ℕ → Store → CString → Outcome (Unit {0})
  unfolding has_key strlen
  del_check fuel s key =
      if ltb max_keylen (strlen key)
      then err key_len
      else if s.exists
      then if has_key fuel s key then ok tt else err no_key
      else err file_access

  -- The last entry of the chain, at `last`, takes the place of the entry at `i`.
  abbrev pub unchain : Store → ℕ → ℕ → ℕ → Outcome (Unit {0}) × Store
  unchain s h i last =
      if last == i
      then if allows (remove h i)
        then (ok tt, record s { files = write s.files h i none })
        else (err os_error, s)
      else if allows (rename h last)
      then (ok tt, record s { files = write (write s.files h i (s.files h last)) h last none })
      else (err os_error, s)

  unfoldable pub delete : ℕ → Store → CString → Outcome (Unit {0}) × Store
  unfolding find_entry end_loop write
  delete fuel s key = elim (find_entry fuel s key) [
    | err e ↦ (err e, s)
    | fault ↦ (fault, s)
    | ok (i, v) ↦ elim (end_loop fuel s.files (hash key) (i + 1)) [
      | ok counter ↦ unchain s (hash key) i (counter - 1)
      | err e ↦ (err e, s)
      | fault ↦ (fault, s)
    ]
  ]
