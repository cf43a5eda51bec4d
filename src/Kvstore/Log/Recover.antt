-- ===== src/Kvstore/Log/Recover.antt =====
-- Runs of the log: what is logged before a crash is what is read after it.
use group.Shared.{
  ℕ, zero, suc, ◌+◌, ◌<◌, ◌≡◌, refl, ap, sym, ◌∙◌, Bool, true, false, Option, none, some, List, [],
  ◌∷◌, ◌++◌, length, length-append, get_elem?, arith,
}
use mathlib.Core.Path.{subst}
use mathlib.Core.List.{append_assoc, append-nil}
use group.Kvstore.Text.{CString}
use group.Kvstore.Outcome.{ok, err, file_access}
use group.Kvstore.Message.{MsgType}
use group.Kvstore.Log.{
  LogEntry, Log, LogAccess, open_read, open_write, write, create, store, log, init, data_of,
  is_logged, iterate_begin, iterate_next, iterate_has_next, load_entry,
}
use group.Kvstore.Log.Holds.{Holds, file_at-beyond, init-Holds, log-Holds, iterate_next-Holds}

-- The arguments of a call of `tpclog_log`.
pub record Call : Type 0 where
  pub type : MsgType
  pub key : Option CString
  pub value : Option CString

-- The call has a type that is logged, and the key and the value that the type needs, which make the data.
abbrev pub Makes : Call → List ℕ → Type 0
Makes c d = (is_logged c.type ≡ true) × (data_of c.type c.key c.value ≡ some d)

abbrev pub AllMake : List Call → List (List ℕ) → Type 0
AllMake [] [] = Unit
AllMake [] (d ∷ ds) = ⊥
AllMake (c ∷ cs) [] = ⊥
AllMake (c ∷ cs) (d ∷ ds) = Makes c d × AllMake cs ds

-- The entries with the types of the calls and the data.
abbrev pub entries : List Call → List (List ℕ) → List LogEntry
entries [] ds = []
entries (c ∷ cs) [] = []
entries (c ∷ cs) (d ∷ ds) = record { type = c.type; length = length d; bytes = d } ∷ entries cs ds

module _ (allows : LogAccess → Bool) where
  -- The log after a sequence of calls.
  unfoldable pub log_all : List Call → Log → Log
  unfolding log
  log_all [] s = s
  log_all (c ∷ cs) s = log_all cs (log allows true s c.type c.key c.value).1

  -- The entries that at most `n` calls of `tpclog_iterate_next` return, up to the first null.
  unfoldable pub read_all : ℕ → Log → List LogEntry
  unfolding iterate_next
  read_all zero s = []
  read_all (suc n) s =
      let (r, s') = iterate_next allows true s in
      let rest = read_all n s' in elim r [ none ↦ [] | some e ↦ e ∷ rest ]

get_elem?-middle : (old es : List LogEntry) → get_elem? (old ++ es) (length old) ≡ get_elem? es 0
get_elem?-middle [] es = refl
get_elem?-middle (d ∷ old) es = get_elem?-middle old es

length-entries :
    (cs : List Call) (ds : List (List ℕ)) → AllMake cs ds → length (entries cs ds) ≡ length ds
length-entries [] [] m = refl
length-entries [] (d ∷ ds) m = absurd m
length-entries (c ∷ cs) [] m = absurd m
length-entries (c ∷ cs) (d ∷ ds) m = ap suc (length-entries cs ds m.1)

module _ (allows : LogAccess → Bool) (granted : (a : LogAccess) → allows a ≡ true) where
  log_all-Holds :
      (cs : List Call) (ds : List (List ℕ)) (es : List LogEntry) (s : Log)
      → Holds s es
      → AllMake cs ds
      → Holds (log_all allows cs s) (es ++ entries cs ds)
  unfolding log_all
  log_all-Holds [] [] es s h m = rw (append-nil es) h
  log_all-Holds [] (d ∷ ds) es s h m = absurd m
  log_all-Holds (c ∷ cs) [] es s h m = absurd m
  log_all-Holds (c ∷ cs) (d ∷ ds) es s h m =
      let e : LogEntry = record { type = c.type; length = length d; bytes = d } in
      let (r, h') = log-Holds allows granted s es c.type c.key c.value d h m.0.0 m.0.1 in
      let rest =
        log_all-Holds cs ds (es ++ e ∷ []) (log allows true s c.type c.key c.value).1 h' m.1 in
      subst (λ l. Holds (log_all allows cs (log allows true s c.type c.key c.value).1) l)
        (append_assoc es (e ∷ []) (entries cs ds)) rest

  read_all-Holds :
      (n : ℕ) (s : Log) (es old : List LogEntry)
      → Holds s (old ++ es)
      → s.iterpos ≡ length old
      → length es < n
      → read_all allows n s ≡ es
  unfolding read_all
  read_all-Holds zero s es old h p f = absurd (omega arith)
  read_all-Holds (suc n) s [] old h p f =
      rw (read_all, iterate_next-Holds allows granted s (old ++ []) h, p, get_elem?-middle old [])
        refl
  read_all-Holds (suc n) s (e ∷ es) old h p f =
      let s' : Log = record s { iterpos = s.iterpos + 1 } in
      let h' : Holds s' ((old ++ e ∷ []) ++ es) =
        subst (Holds s') (sym (append_assoc old (e ∷ []) es))
          (record { exists = h.exists; held = h.held; next = h.next; whole = h.whole }) in
      let rest =
        read_all-Holds n s' es (old ++ e ∷ []) h' (ground (arith, p, length-append old (e ∷ [])))
          (omega arith) in
      let here : get_elem? (old ++ e ∷ es) s.iterpos ≡ some e =
        ap (get_elem? (old ++ e ∷ es)) p ∙ get_elem?-middle old (e ∷ es) in
      let step : iterate_next allows true s ≡ (some e, s') =
        iterate_next-Holds allows granted s (old ++ e ∷ es) h ∙ rw here refl in
      rw (read_all, step) (rw step (ap (λ l. e ∷ l) rest))

  -- After any calls of tpclog_log of the logged types with the key and value they need, on an
  -- empty log, and after a crash that keeps the files, tpclog_init with fuel above the number of
  -- entries succeeds, and iterating from tpclog_iterate_begin returns the entries of the calls in
  -- their order and then null; on a file system that refuses nothing, with memory.
  pub recover :
      (fuel : ℕ) (cs : List Call) (ds : List (List ℕ)) (s lost : Log)
      → Holds s []
      → AllMake cs ds
      → length ds < fuel
      → ((i : ℕ) → lost.files i ≡ (log_all allows cs s).files i)
      → ((init allows true fuel lost).0 ≡ ok tt)
        × (read_all allows fuel (iterate_begin (init allows true fuel lost).1) ≡ entries cs ds)
  unfolding iterate_begin
  recover fuel cs ds s lost h m f same =
      let done = log_all-Holds cs ds [] s h m in
      let n = length-entries cs ds m in
      let (r, h') =
        init-Holds allows granted fuel lost (entries cs ds) (λ j. same j ∙ done.held j) done.whole
          (omega arith) in
      let back = (init allows true fuel lost).1 in
      (
        r,
        read_all-Holds fuel (record back { iterpos = 0 }) (entries cs ds) []
            (record { exists = h'.exists; held = h'.held; next = h'.next; whole = h'.whole }) refl
            (omega arith),
      )

-- On a log that holds a sequence of entries, when open succeeds and only the write is refused,
-- tpclog_log returns 0, tpclog_iterate_has_next says that the entry is there, and
-- tpclog_load_entry cannot read it.
pub log-lost :
    (allows : LogAccess → Bool) (s : Log) (es : List LogEntry) (type : MsgType)
    (key value : Option CString) (d : List ℕ)
    → Holds s es
    → is_logged type ≡ true
    → data_of type key value ≡ some d
    → allows (open_write s.nextid) ≡ true
    → allows (open_read s.nextid) ≡ true
    → allows (write s.nextid) ≡ false
    → let s' = (log allows true s type key value).1 in
      ((log allows true s type key value).0 ≡ ok tt)
      × (iterate_has_next (record s' { iterpos = s.nextid }) ≡ true)
      × (load_entry allows true s'.files s.nextid ≡ err file_access)
unfolding log create store iterate_has_next load_entry
log-lost allows s es type key value d h l k w r u =
    let free : s.files s.nextid ≡ none =
      h.held s.nextid ∙ file_at-beyond es s.nextid (omega (arith, h.next)) in
    rw (log, l, h.exists, w, k, u, free) (ground arith)
