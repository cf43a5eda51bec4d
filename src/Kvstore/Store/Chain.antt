-- ===== src/Kvstore/Store/Chain.antt =====
-- Hash chains as lists of keys and values, and the loops of kvstore.c over the files that hold them.
use group.Shared.{
  ℕ, zero, suc, ◌+◌, ◌<◌, ◌≡◌, Bool, true, Option, none, some, List, [], ◌∷◌, All, length, arith,
  ite, get_elem?,
}
use group.Kvstore.Text.{CString, IsText, strcmp_dec}
use group.Kvstore.Outcome.{Outcome, ok, err, no_key}
use group.Kvstore.Store.{KvEntry, Access, open_read, encode, find_loop, end_loop}
use group.Kvstore.Store.Entry.{entry-encode}

abbrev pub Chain : Type 0
Chain = List (CString × CString)

-- The value of a key in its chain, and its position.
unfoldable pub lookup : CString → Chain → Option CString
unfolding strcmp_dec
lookup key [] = none
lookup key ((k, v) ∷ l) = ite (strcmp_dec key k) (some v) (lookup key l)

unfoldable pub locate : CString → Chain → Option (ℕ × CString)
unfolding strcmp_dec
locate key [] = none
locate key ((k, v) ∷ l) =
    ite (strcmp_dec key k) (some (0, v))
      (elim (locate key l) [ none ↦ none | some (i, w) ↦ some (suc i, w) ])

abbrev pub stored : Option (CString × CString) → Option KvEntry
stored none = none
stored (some (k, v)) = some (encode k v)

abbrev pub IsTextPair : CString × CString → Type 0
IsTextPair e = IsText e.0 × IsText e.1

-- The files from position `i` hold the chain, and no file follows.
abbrev pub Holds : (ℕ → ℕ → Option KvEntry) → ℕ → ℕ → Chain → Type 0
Holds files h i l = (j : ℕ) → files h (i + j) ≡ stored (get_elem? l j)

module _ (files : ℕ → ℕ → Option KvEntry) (h i : ℕ) where
  Holds-head : (l : Chain) → Holds files h i l → files h i ≡ stored (get_elem? l 0)
  Holds-head l d = let e : i + 0 ≡ i = omega arith in rw e at (d 0)

  Holds-tail :
      (e : CString × CString) (l : Chain) → Holds files h i (e ∷ l) → Holds files h (i + 1) l
  Holds-tail e l d j = let p : i + suc j ≡ i + 1 + j = omega arith in rw p at (d (suc j))

-- What the search loop makes of a located entry.
abbrev pub found_at : ℕ → Option (ℕ × CString) → Outcome (ℕ × CString)
found_at i none = err no_key
found_at i (some (j, v)) = ok (i + j, v)

module _ (allows : Access → Bool) (opens : (h i : ℕ) → allows (open_read h i) ≡ true) where
  pub find_loop-locate :
      (fuel : ℕ) (files : ℕ → ℕ → Option KvEntry) (key : CString) (h i : ℕ) (l : Chain)
      → length l < fuel
      → All IsTextPair l
      → Holds files h i l
      → find_loop allows fuel files key h i ≡ found_at i (locate key l)
  unfolding find_loop locate
  find_loop-locate zero files key h i l n t d = absurd (omega arith)
  find_loop-locate (suc fuel) files key h i [] n t d = ground (arith, Holds-head files h i [] d)
  find_loop-locate (suc fuel) files key h i ((k, v) ∷ l) n t d =
      let (named, valued, size, bytes) = entry-encode k v t.0.0 t.0.1 in
      ground (
        arith,
        opens h i,
        Holds-head files h i ((k, v) ∷ l) d,
        find_loop-locate fuel files key h (i + 1) l (omega arith) t.1
            (Holds-tail files h i (k, v) l d),
      )

pub end_loop-length :
    (allows : Access → Bool) (fuel : ℕ) (files : ℕ → ℕ → Option KvEntry) (h i : ℕ) (l : Chain)
    → length l < fuel
    → Holds files h i l
    → end_loop allows fuel files h i ≡ ok (i + length l)
unfolding end_loop
end_loop-length allows zero files h i l n d = absurd (omega arith)
end_loop-length allows (suc fuel) files h i [] n d = ground (arith, Holds-head files h i [] d)
end_loop-length allows (suc fuel) files h i ((k, v) ∷ l) n d = ground (
  arith,
  Holds-head files h i ((k, v) ∷ l) d,
  end_loop-length allows fuel files h (i + 1) l (omega arith) (Holds-tail files h i (k, v) l d),
)
