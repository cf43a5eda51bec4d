-- ===== src/Kvstore/Log.antt =====
-- tpclog.c: the log of a server, one file for each entry, numbered from 0.
pub mod Holds
pub mod Recover
use group.Shared.{
  ℕ, zero, suc, ◌+◌, Bool, true, false, Option, none, some, List, [], ◌∷◌, ◌++◌, length, drop, leb,
  ◌==◌, if◌then◌else◌,
}
use group.Kvstore.Text.{CString, strlen}
use group.Kvstore.Outcome.{
  Errno, Outcome, ok, err, fault, invalid_message, file_access, no_memory, os_error, is_negative,
}
use group.Kvstore.Message.{MsgType, putreq, delreq, abort, commit}

-- `logentry_t`
pub record LogEntry : Type 0 where
  pub type : MsgType
  pub length : ℕ
  pub bytes : List ℕ

-- A file that was created and not written, or one with a header and what follows it.
pub data LogFile : Type 0 where
  empty_file : LogFile
  entry_file : LogEntry → LogFile

-- `tpclog_t`, with the directory it names.
pub record Log : Type 0 where
  pub exists : Bool
  pub files : ℕ → Option LogFile
  pub nextid : ℕ
  pub iterpos : ℕ

-- What the file system may refuse. A write is complete or fails.
pub data LogAccess : Type 0 where
  make_dir : LogAccess
  open_read open_write write remove : ℕ → LogAccess

unfoldable pub store : (ℕ → Option LogFile) → ℕ → Option LogFile → ℕ → Option LogFile
store files i f j = if j == i then f else files j

unfoldable pub take_bytes : ℕ → List ℕ → List ℕ
take_bytes zero bs = []
take_bytes (suc n) [] = []
take_bytes (suc n) (b ∷ bs) = b ∷ take_bytes n bs

-- The bytes behind the header of an entry: `none` where a null key or value is read.
unfoldable pub data_of : MsgType → Option CString → Option CString → Option (List ℕ)
data_of putreq (some k) (some v) = some ((k ++ 0 ∷ []) ++ (v ++ 0 ∷ []))
data_of putreq (some k) none = none
data_of putreq none v = none
data_of delreq (some k) v = some (k ++ 0 ∷ [])
data_of delreq none v = none
data_of _ k v = some []

-- The types that a log takes.
unfoldable pub is_logged : MsgType → Bool
is_logged putreq = true
is_logged delreq = true
is_logged abort = true
is_logged commit = true
is_logged _ = false

-- A write at the start of a file that is there leaves what lies behind it.
unfoldable pub overlay : LogEntry → Option LogFile → LogFile
overlay e (some (entry_file old)) =
    entry_file (record e { bytes = e.bytes ++ drop (length e.bytes) old.bytes })
overlay e _ = entry_file e

-- A file is created empty if there is none.
unfoldable pub create : Option LogFile → LogFile
create none = empty_file
create (some f) = f

unfoldable pub iterate_begin : Log → Log
iterate_begin s = record s { iterpos = 0 }

unfoldable pub iterate_has_next : Log → Bool
iterate_has_next s = elim (s.files s.iterpos) [ none ↦ false | some f ↦ true ]

module _ (allows : LogAccess → Bool) (memory : Bool) where
  -- The loops that look for the first number without a file.
  unfoldable pub next_loop : ℕ → (ℕ → Option LogFile) → ℕ → Option ℕ
  next_loop zero files i = none
  next_loop (suc fuel) files i =
      let rest = next_loop fuel files (i + 1) in elim (files i) [ none ↦ some i | some f ↦ rest ]

  unfoldable pub init : ℕ → Log → Outcome (Unit {0}) × Log
  unfolding next_loop
  init fuel s =
      if s.exists
      then (if memory
          then elim (next_loop fuel s.files 0) [
            | none ↦ (fault, s)
            | some i ↦ (ok tt, record s { nextid = i })
          ]
          else (err no_memory, s))
      else if allows make_dir
      then (if memory
          then elim (next_loop fuel s.files 0) [
            | none ↦ (fault, record s { exists = true })
            | some i ↦ (ok tt, record s { exists = true; nextid = i })
          ]
          else (err no_memory, record s { exists = true }))
      else (err os_error, s)

  -- A `write` that fails returns -1, which is compared as the greatest `size_t`.
  unfoldable pub log : Log → MsgType → Option CString → Option CString → Outcome (Unit {0}) × Log
  unfolding is_logged data_of overlay create store
  log s type key value =
      if is_logged type
      then (let i = s.nextid in
          if s.exists
          then (if allows (open_write i)
              then (let opened : Log = record s {
                files = store s.files i (some (create (s.files i)));
                nextid = i + 1;
              } in
                  elim (data_of type key value) [
                    | none ↦ (fault, opened)
                    | some d ↦
                        if memory
                        then (let e : LogEntry = record {
                          type = type;
                          length = length d;
                          bytes = d;
                        } in
                            if allows (write i)
                            then (
                              ok tt,
                              record opened {
                                files = store s.files i (some (overlay e (s.files i)));
                              },
                            )
                            else (ok tt, opened))
                        else (err no_memory, opened)
                  ])
              else (err file_access, s))
          else (err file_access, s))
      else (err invalid_message, s)

  unfoldable pub load_entry : (ℕ → Option LogFile) → ℕ → Outcome LogEntry
  unfolding take_bytes
  load_entry files i = elim (files i) [
    | none ↦ err file_access
    | some f ↦
        if allows (open_read i)
        then elim f [
          | empty_file ↦ err file_access
          | entry_file e ↦
              if memory
              then (if leb e.length (length e.bytes)
                  then ok (record e { bytes = take_bytes e.length e.bytes })
                  else err file_access)
              else err no_memory
        ]
        else err file_access
  ]

  -- After ENOMEM, which is positive, the entry is null too.
  unfoldable pub iterate_next : Log → Option LogEntry × Log
  unfolding iterate_has_next load_entry
  iterate_next s =
      if iterate_has_next s
      then (let s' : Log = record s { iterpos = s.iterpos + 1 } in
          elim (load_entry s.files s.iterpos) [
            | ok e ↦ (some e, s')
            | err e ↦ (none, s')
            | fault ↦ (none, s')
          ])
      else (none, s)

  unfoldable pub clear_loop :
      ℕ → (ℕ → Option LogFile) → ℕ → Outcome (Unit {0}) × (ℕ → Option LogFile)
  unfolding store
  clear_loop zero files i = (fault, files)
  clear_loop (suc fuel) files i =
      let rest = clear_loop fuel (store files i none) (i + 1) in
      elim (files i) [
        | none ↦ (ok tt, files)
        | some f ↦ if allows (remove i) then rest else (err os_error, files)
      ]

  unfoldable pub clear_log : ℕ → Log → Outcome (Unit {0}) × Log
  unfolding clear_loop
  clear_log fuel s =
      let (r, files) = clear_loop fuel s.files 0 in
      elim r [
        | ok _ ↦ (ok tt, record s { files = files; nextid = 0 })
        | err e ↦ (err e, record s { files = files })
        | fault ↦ (fault, record s { files = files })
      ]
