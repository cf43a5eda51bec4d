-- ===== src/Kvstore/Server.antt =====
-- kvserver.c without TPC: a write-through cache in front of the store, and the handler of requests.
pub mod Spec
pub mod Copies
pub mod Refines
pub mod Writes
pub mod Runs
use group.Shared.{ℕ, Bool, true, false, Option, none, some, if◌then◌else◌}
use group.Kvstore.Text.{CString, strlen}
use group.Kvstore.Outcome.{Errno, Outcome, ok, err, fault, key_len, max_keylen}
use group.Kvstore.Uthash.{Uthash}
use group.Kvstore.Cache
use group.Kvstore.Cache.{Cache}
use group.Kvstore.Store
use group.Kvstore.Store.{Store, Access}
use group.Kvstore.Message.{
  MsgType, Message, Note, getreq, putreq, delreq, getresp, resp, success, invalid_request,
  not_implemented, getmsg,
}
use group.Shared.{ltb}

pub record Server (U : Uthash) : Type 0 where
  pub cache : Cache U
  pub store : Store
  pub use_tpc : Bool

-- `allows` is the file system, `fuel` bounds the loops over hash chains, `fresh` is the address at which
-- `malloc` places a new cache entry, and `memory` tells whether it finds memory for its strings.
module _ (U : Uthash) (allows : Access → Bool) (fuel : ℕ) (fresh : Cache U → ℕ)
    (memory : Bool) where
  -- A key that is not in the cache is looked up in the store, and goes into the cache.
  abbrev fill : Server U → CString → CString → Outcome CString × Server U
  fill s key value =
      let (r, c) = Cache.put U (fresh s.cache) memory memory s.cache key value in
      (elim r [ fault ↦ fault | _ ↦ ok value ], record s { cache = c })

  unfoldable pub get : Server U → CString → Outcome CString × Server U
  get s key =
      if ltb max_keylen (strlen key)
      then (err key_len, s)
      else let (r, c) = Cache.get U s.cache key in
        let s' : Server U = record s { cache = c } in
        elim r [
          | ok v ↦ (ok v, s')
          | fault ↦ (fault, s')
          | err _ ↦ elim (Store.get allows fuel s.store key) [
            | ok v ↦ fill s' key v
            | err e ↦ (err e, s')
            | fault ↦ (fault, s')
          ]
        ]

  unfoldable pub put_check : Server U → CString → CString → Outcome (Unit {0})
  put_check s key value = Store.put_check allows s.store key value

  unfoldable pub put : Server U → CString → CString → Outcome (Unit {0}) × Server U
  put s key value = elim (put_check s key value) [
    | err e ↦ (err e, s)
    | fault ↦ (fault, s)
    | ok _ ↦
        let (r, d) = Store.put allows fuel s.store key value in
        let s' : Server U = record s { store = d } in
        elim r [
          | err e ↦ (err e, s')
          | fault ↦ (fault, s')
          | ok _ ↦
              let (r', c) = Cache.put U (fresh s.cache) memory memory s.cache key value in
              (r', record s' { cache = c })
        ]
  ]

  unfoldable pub del_check : Server U → CString → Outcome (Unit {0})
  del_check s key = Store.del_check allows fuel s.store key

  -- A key that is too long has no lock, and locking a null pointer is a fault.
  unfoldable pub delete : Server U → CString → Outcome (Unit {0}) × Server U
  delete s key = elim (Cache.get_lock U s.cache key) [
    | none ↦ (fault, s)
    | some _ ↦
        let (r, c) = Cache.delete U s.cache key in
        let (r', d) = Store.delete allows fuel s.store key in
        (elim r [ fault ↦ fault | _ ↦ r' ], record s { cache = c; store = d })
  ]

  -- The message of a return code.
  abbrev pub note_of {ℓ} : {A : Type ℓ} → Outcome A → Outcome Note
  note_of (ok _) = ok success
  note_of (err e) = ok (getmsg e)
  note_of fault = fault

  abbrev pub respond : MsgType → Option CString → Option CString → Outcome Note → Outcome Message
  respond t k v (ok n) = ok (record { type = t; key = k; value = v; message = some n })
  respond t k v (err e) = err e
  respond t k v fault = fault

  abbrev answer_get : CString → Outcome CString → Outcome Message
  answer_get k (ok v) = respond getresp (some k) (some v) (ok success)
  answer_get k r = respond resp none none (note_of r)

  -- A null key or value is passed to `strlen`. For a message of another type `error` has no value:
  -- `garbage` is what it is found to hold, `none` for zero.
  unfoldable pub handle_no_tpc : Option Errno → Server U → Message → Outcome Message × Server U
  handle_no_tpc garbage s m = elim m.type [
    | getreq ↦ elim m.key [
      | none ↦ (fault, s)
      | some k ↦ let (r, s') = get s k in (answer_get k r, s')
    ]
    | putreq ↦ elim m.key [
      | none ↦ (fault, s)
      | some k ↦ elim m.value [
        | none ↦ (fault, s)
        | some v ↦ let (r, s') = put s k v in (respond resp none none (note_of r), s')
      ]
    ]
    | delreq ↦ elim m.key [
      | none ↦ (fault, s)
      | some k ↦ let (r, s') = delete s k in (respond resp none none (note_of r), s')
    ]
    | _ ↦ (respond resp none none (ok (elim garbage [ none ↦ success | some e ↦ getmsg e ])), s)
  ]

  abbrev pub handle_tpc : Server U → Message → Outcome Message × Server U
  handle_tpc s m = (respond resp none none (ok not_implemented), s)

  -- `none` is a message that cannot be parsed.
  unfoldable pub handle : Option Errno → Server U → Option Message → Outcome Message × Server U
  handle garbage s none = (respond resp none none (ok invalid_request), s)
  handle garbage s (some m) = if s.use_tpc then handle_tpc s m else handle_no_tpc garbage s m
