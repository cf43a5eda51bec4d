-- ===== src/Kvstore/CacheSet/Eviction.antt =====
-- The eviction loop of `kvcacheset_put` against the second-chance policy that kvcache.h describes.
use group.Shared.{
  ℕ, zero, suc, ◌+◌, ◌≤◌, ◌<◌, ◌≡◌, ◌⊎◌, inl, inr, refl, sym, ap, true, false, Option, none, some,
  List, [], ◌∷◌, ◌++◌, map, ite, length, length-append, All, All-append, arith, if◌then◌else◌,
  Bool-cases, ◌∙◌,
}
use mathlib.Core.List.{append_assoc, append-nil}
use group.Kvstore.Text.{CString, strcmp_dec}
use group.Kvstore.Uthash.{Uthash}
use group.Kvstore.CacheSet.{Cell, head_address, evict_loop}
use group.Kvstore.CacheSet.Bindings.{
  binding, Apart, Distinct, IsNew, binding-append, binding-missing, binding-Apart, append-Distinct,
  Apart-IsNew,
}

-- An element that gets its second chance.
abbrev pub forgive : Cell → Cell
forgive c = record c { refbit = false }

abbrev pub IsUsed : Cell → Type 0
IsUsed c = c.refbit ≡ true

-- The policy: `c` is the first element that was not used, and the elements before it go to the
-- back with their bits cleared. If all were used, `c` is the head and the others stay, all cleared.
abbrev pub SecondChance : List Cell → List Cell → Cell → Type 0
SecondChance l l' c =
    ((skipped : List Cell) × (rest : List Cell) × (l ≡ skipped ++ c ∷ rest)
      × All IsUsed skipped
      × (c.refbit ≡ false)
      × (l' ≡ rest ++ map forgive skipped))
    ⊎ ((b : Cell) × (rest : List Cell) × (l ≡ b ∷ rest)
        × All IsUsed l
        × (c ≡ forgive b)
        × (l' ≡ map forgive rest))

-- `l'` is `l` without `c`, as far as lookups see.
pub record Drops (c : Cell) (l l' : List Cell) : Type 0 where
  pub distinct : Distinct l'
  pub binds : (k : CString) → binding k l' ≡ ite (strcmp_dec c.key k) none (binding k l)
  pub count : length l' + 1 ≡ length l
  pub fresh : (p : ℕ) (k : CString) → IsNew p k l → IsNew p k l'

All-used :
    (l rest : List Cell) (c : Cell)
    → map forgive l ≡ c ∷ rest
    → All IsUsed l
    → SecondChance l rest c
All-used [] rest c e u = absurd (cc)
All-used (b ∷ l) rest c e u = inr (b, l, refl, u, cc, cc)

module _ (U : Uthash) (t : Uthash.Table U) where
  evict-step :
      (f : ℕ) (c : Cell) (l : List Cell)
      → evict_loop U (suc f) (c ∷ l) t (some c.address) ≡ (
          if c.refbit
          then evict_loop U f (l ++ forgive c ∷ []) t (head_address l)
          else some (l, U.del t c.key c.address))
  unfolding evict_loop
  evict-step f c l = ground arith

  -- What the loop returns once the elements of `ys` are skipped and those of `xs` are left.
  abbrev Scan : List Cell → List Cell → Option (List Cell × Uthash.Table U) → Type 0
  Scan xs ys r =
      ((skipped : List Cell) × (c : Cell) × (rest : List Cell) × (xs ≡ skipped ++ c ∷ rest)
        × All IsUsed skipped
        × (c.refbit ≡ false)
        × (r ≡ some (rest ++ (ys ++ map forgive skipped), U.del t c.key c.address)))
      ⊎ ((c : Cell) × (rest : List Cell) × All IsUsed xs
          × (ys ++ map forgive xs ≡ c ∷ rest)
          × (r ≡ some (rest, U.del t c.key c.address)))

  Scan-cons :
      (x : Cell) (xs ys : List Cell) (r : Option (List Cell × Uthash.Table U))
      → IsUsed x
      → Scan xs (ys ++ forgive x ∷ []) r
      → Scan (x ∷ xs) ys r
  Scan-cons x xs ys r used (inl (skipped, c, rest, e, u, idle, h)) = inl (
    x ∷ skipped,
    c,
    rest,
    ap (◌∷◌ x) e,
    (used, u),
    idle,
    h
        ∙ ap (λ l. some (rest ++ l, U.del t c.key c.address))
            (append_assoc ys (forgive x ∷ []) (map forgive skipped)),
  )
  Scan-cons x xs ys r used (inr (c, rest, u, e, h)) =
      inr (c, rest, (used, u), sym (append_assoc ys (forgive x ∷ []) (map forgive xs)) ∙ e, h)

  head_address-append :
      (xs ys : List Cell) (z : Cell)
      → 1 ≤ length xs + length ys
      → head_address (xs ++ ys) ≡ head_address (xs ++ (ys ++ z ∷ []))
  head_address-append [] [] z h = absurd (omega arith)
  head_address-append [] (y ∷ ys) z h = refl
  head_address-append (x ∷ xs) ys z h = refl

  -- The loop runs to its end on a list of two or more elements.
  evict-Scan :
      (f : ℕ) (xs ys : List Cell)
      → length xs < f
      → 2 ≤ length xs + length ys
      → All (λ d. d.refbit ≡ false) ys
      → Scan xs ys (evict_loop U f (xs ++ ys) t (head_address (xs ++ ys)))
  evict-Scan zero xs ys h n u = absurd (omega arith)
  evict-Scan (suc f) [] [] h n u = absurd (omega arith)
  evict-Scan (suc f) [] (y ∷ ys) h n u =
      inr (y, ys, tt, append-nil (y ∷ ys), rw (evict-step f y ys, u.0))
  evict-Scan (suc f) (x ∷ xs) ys h n u = elim (Bool-cases x.refbit) [
    | inl used ↦
        let ih =
          evict-Scan f xs (ys ++ forgive x ∷ []) (omega arith)
            (omega (arith, length-append ys (forgive x ∷ [])))
            (All-append (λ d. d.refbit ≡ false) ys (forgive x ∷ []) u (refl, tt)) in
        Scan-cons x xs ys _ used (
          rw
            (
              evict-step f x (xs ++ ys),
              used,
              head_address-append xs ys (forgive x) (omega arith),
              append_assoc xs ys (forgive x ∷ []),
            )
            ih)
    | inr idle ↦ inl ([], x, xs, refl, tt, idle, rw (evict-step f x (xs ++ ys), idle, append-nil))
  ]

  -- On a list of two or more elements the eviction loop of kvcacheset_put ends, and does what the
  -- second-chance policy says: it removes the first element whose reference bit is not set and
  -- sends the elements before it to the back with their bits cleared; if all bits are set it
  -- removes the head and clears the others.
  pub evict-SecondChance :
      (l : List Cell)
      → 2 ≤ length l
      → (l' : List Cell) × (c : Cell) × (evict_loop U (length l + 2) l t (head_address l)
          ≡ some (l', U.del t c.key c.address))
        × SecondChance l l' c
  evict-SecondChance l h = elim (evict-Scan (length l + 2) l [] (omega arith) (omega arith) tt) [
    | inl (skipped, c, rest, e, u, idle, r) ↦ (
      rest ++ map forgive skipped,
      c,
      rw (append-nil) at r,
      inl (skipped, rest, e, u, idle, refl),
    )
    | inr (c, rest, u, e, r) ↦ (rest, c, rw (append-nil) at r, All-used l rest c e u)
  ]

-- Lookups do not see the order of distinct elements, nor their bits.
binding-rotate :
    (k : CString) (b : Cell) (l : List Cell)
    → All (Apart b) l
    → binding k (l ++ forgive b ∷ []) ≡ binding k (b ∷ l)
unfolding binding
binding-rotate k b l h = ground (arith, binding-append k l [] (forgive b), binding-missing b l h)

IsNew-rotate :
    (p : ℕ) (k : CString) (b : Cell) (l : List Cell)
    → IsNew p k (b ∷ l)
    → IsNew p k (l ++ forgive b ∷ [])
IsNew-rotate p k b l h = All-append _ l (forgive b ∷ []) h.1 (h.0, tt)

rotate-Distinct : (b : Cell) (l : List Cell) → Distinct (b ∷ l) → Distinct (l ++ forgive b ∷ [])
rotate-Distinct b l d = append-Distinct (forgive b) l d.1 (Apart-IsNew b l d.0)

Drops-rotate :
    (c b : Cell) (l l' : List Cell)
    → All (Apart b) l
    → Drops c (l ++ forgive b ∷ []) l'
    → Drops c (b ∷ l) l'
Drops-rotate c b l l' a h = record {
  distinct = h.distinct;
  binds = λ k. rw (h.binds k, binding-rotate k b l a);
  count = omega (arith, h.count, length-append l (forgive b ∷ []));
  fresh = λ p k n. h.fresh p k (IsNew-rotate p k b l n);
}

pub Drops-head : (c : Cell) (l : List Cell) → Distinct (c ∷ l) → Drops c (c ∷ l) l
unfolding binding
Drops-head c l d = record {
  distinct = d.1;
  binds = λ k. ground (arith, binding-missing c l d.0);
  count = omega arith;
  fresh = λ p k n. n.1;
}

Drops-skip :
    (c : Cell) (skipped rest : List Cell)
    → Distinct (skipped ++ c ∷ rest)
    → Drops c (skipped ++ c ∷ rest) (rest ++ map forgive skipped)
Drops-skip c [] rest d = rw append-nil (Drops-head c rest d)
Drops-skip c (b ∷ skipped) rest d = Drops-rotate c b (skipped ++ c ∷ rest) _ d.0 (
    rw
      (
        append_assoc skipped (c ∷ rest) (forgive b ∷ []),
        ← append_assoc rest (forgive b ∷ []) (map forgive skipped),
      )
      (Drops-skip c skipped (rest ++ forgive b ∷ []) (
        rw (append_assoc skipped (c ∷ rest) (forgive b ∷ [])) at
          (rotate-Distinct b (skipped ++ c ∷ rest) d))))

binding-forgive : (k : CString) (l : List Cell) → binding k (map forgive l) ≡ binding k l
unfolding binding
binding-forgive k [] = refl
binding-forgive k (c ∷ l) = ground (arith, binding-forgive k l)

All-forgive :
    (P : Cell → Type 0) (keep : (d : Cell) → P d → P (forgive d)) (l : List Cell)
    → All P l
    → All P (map forgive l)
All-forgive P keep [] h = tt
All-forgive P keep (c ∷ l) h = (keep c h.0, All-forgive P keep l h.1)

forgive-Distinct : (l : List Cell) → Distinct l → Distinct (map forgive l)
forgive-Distinct [] d = tt
forgive-Distinct (c ∷ l) d =
    (All-forgive (Apart (forgive c)) (λ d h. h) l d.0, forgive-Distinct l d.1)

length-forgive : (l : List Cell) → length (map forgive l) ≡ length l
length-forgive [] = refl
length-forgive (c ∷ l) = ap suc (length-forgive l)

Drops-all :
    (b : Cell) (l : List Cell) → Distinct (b ∷ l) → Drops (forgive b) (b ∷ l) (map forgive l)
Drops-all b l d = record {
  distinct = forgive-Distinct l d.1;
  binds = λ k. rw (binding-forgive k l, (Drops-head b l d).binds k);
  count = omega (arith, length-forgive l);
  fresh = λ p k n. All-forgive _ (λ d h. h) l n.1;
}

-- What the policy evicts is the only binding that is lost.
pub SecondChance-Drops :
    (l l' : List Cell) (c : Cell) → Distinct l → SecondChance l l' c → Drops c l l'
SecondChance-Drops l l' c d (inl (skipped, rest, e, u, idle, e')) =
    rw (e, e') (Drops-skip c skipped rest (rw e at d))
SecondChance-Drops l l' c d (inr (b, rest, e, u, ec, e')) =
    rw (e, e', ec) (Drops-all b rest (rw e at d))

binding-middle :
    (skipped rest : List Cell) (c : Cell)
    → Distinct (skipped ++ c ∷ rest)
    → binding c.key (skipped ++ c ∷ rest) ≡ some (c.address, c.value)
unfolding binding
binding-middle [] rest c d = ground arith
binding-middle (b ∷ skipped) rest c d = ground (
  arith,
  binding-middle skipped rest c d.1,
  binding-Apart c.key b (skipped ++ c ∷ rest) c.address c.value d.0,
)

-- The element that is evicted was bound.
pub SecondChance-binding :
    (l l' : List Cell) (c : Cell)
    → Distinct l
    → SecondChance l l' c
    → binding c.key l ≡ some (c.address, c.value)
SecondChance-binding l l' c d (inl (skipped, rest, e, u, idle, e')) =
    rw e (binding-middle skipped rest c (rw e at d))
SecondChance-binding l l' c d (inr (b, rest, e, u, ec, e')) =
    rw (e, ec) (binding-middle [] rest b (rw e at d))
