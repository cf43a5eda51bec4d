-- ===== src/Kvstore/Log/Holds.antt =====
-- What each operation of the log does to the sequence of entries that the files hold.
use group.Shared.{
  ℕ, zero, suc, ◌+◌, ◌≤◌, ◌<◌, ◌≡◌, inl, inr, refl, ap, Bool, true, Option, none, some, List, [],
  ◌∷◌, ◌++◌, length, get_elem?, All, All-append, All-get_elem?, ltb, ◌==◌, arith, if◌then◌else◌,
  Bool-cases, ◌∙◌, dec_lt,
}
use group.Kvstore.Text.{CString}
use group.Kvstore.Outcome.{ok}
use group.Kvstore.Message.{MsgType}
use group.Kvstore.Log.{
  LogEntry, LogFile, entry_file, Log, LogAccess, store, take_bytes, data_of, is_logged, overlay,
  create, next_loop, init, log, make_dir, open_read, open_write, write, remove, load_entry,
  iterate_has_next, iterate_next, clear_loop, clear_log,
}

-- The length of an entry is that of its bytes.
abbrev pub IsWhole : LogEntry → Type 0
IsWhole e = e.length ≡ length e.bytes

abbrev pub file_at : List LogEntry → ℕ → Option LogFile
file_at [] i = none
file_at (e ∷ es) zero = some (entry_file e)
file_at (e ∷ es) (suc i) = file_at es i

-- The files from 0 on hold the entries, no other file is there, and `nextid` is the first free number.
pub record Holds (s : Log) (es : List LogEntry) : Type 0 where
  pub exists : s.exists ≡ true
  pub held : (i : ℕ) → s.files i ≡ file_at es i
  pub next : s.nextid ≡ length es
  pub whole : All IsWhole es

pub file_at-beyond : (es : List LogEntry) (i : ℕ) → length es ≤ i → file_at es i ≡ none
file_at-beyond [] i h = refl
file_at-beyond (e ∷ es) zero h = absurd (omega arith)
file_at-beyond (e ∷ es) (suc i) h = file_at-beyond es i (omega arith)

file_at-within :
    (es : List LogEntry) (i : ℕ)
    → i < length es
    → (e : LogEntry) × (file_at es i ≡ some (entry_file e)) × (get_elem? es i ≡ some e)
file_at-within [] i h = absurd (omega arith)
file_at-within (e ∷ es) zero h = (e, refl, refl)
file_at-within (e ∷ es) (suc i) h = file_at-within es i (omega arith)

file_at-append :
    (es : List LogEntry) (e : LogEntry) (i : ℕ)
    → (if i == length es then some (entry_file e) else file_at es i) ≡ file_at (es ++ e ∷ []) i
file_at-append [] e zero = refl
file_at-append [] e (suc i) = ground arith
file_at-append (d ∷ es) e zero = ground arith
file_at-append (d ∷ es) e (suc i) = ground (arith, file_at-append es e i)

get_elem?-beyond : (es : List LogEntry) (i : ℕ) → length es ≤ i → get_elem? es i ≡ none
get_elem?-beyond [] i h = refl
get_elem?-beyond (e ∷ es) zero h = absurd (omega arith)
get_elem?-beyond (e ∷ es) (suc i) h = get_elem?-beyond es i (omega arith)

length-snoc : (es : List LogEntry) (e : LogEntry) → length es + 1 ≡ length (es ++ e ∷ [])
length-snoc [] e = refl
length-snoc (d ∷ es) e = omega (arith, length-snoc es e)

take_bytes-all : (bs : List ℕ) → take_bytes (length bs) bs ≡ bs
unfolding take_bytes
take_bytes-all [] = refl
take_bytes-all (b ∷ bs) = ap (λ l. b ∷ l) (take_bytes-all bs)

module _ (allows : LogAccess → Bool) (granted : (a : LogAccess) → allows a ≡ true) where
  next_loop_lem :
      (fuel : ℕ) (files : ℕ → Option LogFile) (es : List LogEntry) (i : ℕ)
      → ((j : ℕ) → files j ≡ file_at es j)
      → i ≤ length es
      → length es < fuel + i
      → next_loop allows true fuel files i ≡ some (length es)
  unfolding next_loop
  next_loop_lem zero files es i h k f = absurd (omega arith)
  next_loop_lem (suc fuel) files es i h k f = elim (dec_lt i (length es)) [
    | yes lt ↦
        let (e, w, g) = file_at-within es i lt in
        rw (next_loop, h i, w) (next_loop_lem fuel files es (i + 1) h (omega arith) (omega arith))
    | no ge ↦
        let w = file_at-beyond es i (omega arith) in rw (next_loop, h i, w) (ap some (omega arith))
  ]

  -- On a directory that holds a sequence of entries, whatever was in memory, the log is as it was.
  pub init-Holds :
      (fuel : ℕ) (s : Log) (es : List LogEntry)
      → ((j : ℕ) → s.files j ≡ file_at es j)
      → All IsWhole es
      → length es < fuel
      → ((init allows true fuel s).0 ≡ ok tt) × Holds (init allows true fuel s).1 es
  unfolding init
  init-Holds fuel s es h w f =
      let n = next_loop_lem fuel s.files es 0 h (omega arith) (omega arith) in
      elim (Bool-cases s.exists) [
        | inl here ↦ rw (here, n) (refl, record { exists = here; held = h; next = refl; whole = w })
        | inr absent ↦
            rw (absent, granted make_dir, n)
              (refl, record { exists = refl; held = h; next = refl; whole = w })
      ]

  pub log-Holds :
      (s : Log) (es : List LogEntry) (type : MsgType) (key value : Option CString) (d : List ℕ)
      → Holds s es
      → is_logged type ≡ true
      → data_of type key value ≡ some d
      → ((log allows true s type key value).0 ≡ ok tt)
        × Holds
            (log allows true s type key value).1
            (es ++ record { type = type; length = length d; bytes = d } ∷ [])
  unfolding log overlay create store
  log-Holds s es type key value d h l k =
      let i = s.nextid in
      let e : LogEntry = record { type = type; length = length d; bytes = d } in
      let free : s.files i ≡ none = h.held i ∙ file_at-beyond es i (omega (arith, h.next)) in
      rw (l, h.exists, granted (open_write i), k, granted (write i), free)
        (
          refl,
          record {
            exists = h.exists;
            held = λ j. ground (arith, h.held j, file_at-append es e j, h.next);
            next = omega (arith, h.next, length-snoc es e);
            whole = All-append IsWhole es (e ∷ []) h.whole (refl, tt);
          },
        )

  load_entry_lem :
      (files : ℕ → Option LogFile) (i : ℕ) (e : LogEntry)
      → files i ≡ some (entry_file e)
      → IsWhole e
      → load_entry allows true files i ≡ ok e
  unfolding load_entry
  load_entry_lem files i e h w =
      rw (load_entry, h, granted (open_read i)) (ground (arith, w, take_bytes-all e.bytes))

  pub iterate_next-Holds :
      (s : Log) (es : List LogEntry)
      → Holds s es
      → iterate_next allows true s ≡ elim (get_elem? es s.iterpos) [
        | none ↦ (none, s)
        | some e ↦ (some e, record s { iterpos = s.iterpos + 1 })
      ]
  unfolding iterate_next iterate_has_next
  iterate_next-Holds s es h = elim (dec_lt s.iterpos (length es)) [
    | yes lt ↦
        let (e, w, g) = file_at-within es s.iterpos lt in
        let f = h.held s.iterpos ∙ w in
        let l =
          load_entry_lem s.files s.iterpos e f (All-get_elem? IsWhole es s.iterpos e h.whole g) in
        rw (iterate_next, l, iterate_has_next, f, g) refl
    | no ge ↦
        let f = h.held s.iterpos ∙ file_at-beyond es s.iterpos (omega arith) in
        rw (iterate_next, iterate_has_next, f, get_elem?-beyond es s.iterpos (omega arith)) refl
  ]

  clear_loop_lem :
      (fuel : ℕ) (files : ℕ → Option LogFile) (es : List LogEntry) (i : ℕ)
      → ((j : ℕ) → files j ≡ (if ltb j i then none else file_at es j))
      → i ≤ length es
      → length es < fuel + i
      → ((clear_loop allows true fuel files i).0 ≡ ok tt)
        × ((j : ℕ) → (clear_loop allows true fuel files i).1 j ≡ none)
  unfolding clear_loop store
  clear_loop_lem zero files es i h k f = absurd (omega arith)
  clear_loop_lem (suc fuel) files es i h k f = elim (dec_lt i (length es)) [
    | yes lt ↦
        let (e, w, g) = file_at-within es i lt in
        let here : files i ≡ some (entry_file e) = ground (arith, h i) in
        rw (clear_loop, here, granted (remove i))
          (clear_loop_lem fuel (store files i none) es (i + 1) (λ j. ground (arith, h j))
            (omega arith) (omega arith))
    | no ge ↦
        let w = file_at-beyond es i (omega arith) in
        let here : files i ≡ none = ground (arith, h i) in
        rw (clear_loop, here)
          (
            refl,
            λ j. elim (dec_lt j i) [
              | yes lt ↦ ground (arith, h j)
              | no ge' ↦ ground (arith, h j, file_at-beyond es j (omega arith))
            ],
          )
  ]

  -- On a log that holds a sequence of entries, tpclog_clear_log with fuel above their number
  -- succeeds and leaves an empty log, on a file system that refuses nothing.
  pub clear_log-Holds :
      (fuel : ℕ) (s : Log) (es : List LogEntry)
      → Holds s es
      → length es < fuel
      → ((clear_log allows true fuel s).0 ≡ ok tt) × Holds (clear_log allows true fuel s).1 []
  unfolding clear_log
  clear_log-Holds fuel s es h f =
      let (r, c) =
        clear_loop_lem fuel s.files es 0 (λ j. ground (arith, h.held j)) (omega arith)
          (omega arith) in
      rw (clear_log, r) (refl, record { exists = h.exists; held = c; next = refl; whole = tt })
