-- ===== src/Kvstore/CacheSet/Room.antt =====
-- The eviction loop started on the list of a valid set always ends, and makes room for one element.
use group.Shared.{
  ℕ, ◌+◌, ◌≤◌, ◌≡◌, ◌⊎◌, inl, inr, refl, Option, none, some, List, [], ◌∷◌, ite, if_pos, if_neg,
  length, arith, Bool-cases,
}
use group.Kvstore.Text.{CString, strcmp_dec}
use group.Kvstore.Uthash.{Uthash}
use group.Kvstore.CacheSet.{Cell, head_address, evict_loop}
use group.Kvstore.CacheSet.Bindings.{binding, Distinct, IsNew}
use group.Kvstore.CacheSet.Eviction.{
  Drops, forgive, evict-SecondChance, SecondChance-Drops, SecondChance-binding, Drops-head,
}
use group.Kvstore.CacheSet.Invariant.{address_of}

-- A binding with the evicted key gone.
abbrev pub without {ℓ} : {A : Type ℓ} → Option CString → CString → Option A → Option A
without none k b = b
without (some e) k b = ite (strcmp_dec e k) none b

pub without_cases {ℓ} :
    {A : Type ℓ} (e : Option CString) (k : CString) (b : Option A)
    → (without e k b ≡ b) ⊎ (without e k b ≡ none)
without_cases none k b = inl refl
without_cases (some e) k b = elim (strcmp_dec e k) [
  | yes p ↦ inr (if_pos (strcmp_dec e k) p none b)
  | no p ↦ inl (if_neg (strcmp_dec e k) p none b)
]

module _ (U : Uthash) (l : List Cell) (t : Uthash.Table U) where
  -- `l'` and `t'` hold the elements of `l` but one, `evicted`, and have room for one more within `n`.
  pub record HasRoom (n : ℕ) (l' : List Cell) (t' : Uthash.Table U) (evicted : Option CString)
      : Type 0 where
    pub distinct : Distinct l'
    pub agrees : (k : CString) → U.find t' k ≡ address_of (binding k l')
    pub binds : (k : CString) → binding k l' ≡ without evicted k (binding k l)
    pub fresh : (p : ℕ) (k : CString) → IsNew p k l → IsNew p k l'
    pub room : length l' + 1 ≤ n

  -- What dropping an element leaves.
  Drops-HasRoom :
      (n : ℕ) (c : Cell) (l' : List Cell)
      → ((k : CString) → U.find t k ≡ address_of (binding k l))
      → length l ≤ n
      → binding c.key l ≡ some (c.address, c.value)
      → Drops c l l'
      → HasRoom n l' (U.del t c.key c.address) (some c.key)
  Drops-HasRoom n c l' a le held d = record {
    distinct = d.distinct;
    agrees = λ k. ground (arith, a k, a c.key, d.binds k, U.find-del t c.key k c.address);
    binds = d.binds;
    fresh = d.fresh;
    room = omega (arith, d.count);
  }

module _ (U : Uthash) (t : Uthash.Table U) where
  -- The loop ends by itself, on lists of any length.
  pub evict-HasRoom :
      (n : ℕ) (l : List Cell)
      → Distinct l
      → ((k : CString) → U.find t k ≡ address_of (binding k l))
      → length l ≤ n
      → 2 ≤ n
      → (l' : List Cell) × (t' : Uthash.Table U) × (evicted : Option CString) × (evict_loop U
            (length l + 2)
            l
            t
            (head_address l)
          ≡ some (l', t'))
        × HasRoom U l t n l' t' evicted
  unfolding evict_loop
  evict-HasRoom n [] d a le two = (
    [],
    t,
    none,
    ground arith,
    record {
      distinct = tt;
      agrees = a;
      binds = λ k. refl;
      fresh = λ p k h. tt;
      room = omega arith;
    },
  )
  evict-HasRoom n (c ∷ []) d a le two = elim (Bool-cases c.refbit) [
    | inl used ↦ (
      forgive c ∷ [],
      t,
      none,
      ground arith,
      record {
        distinct = (tt, tt);
        agrees = λ k. unfold binding in a k;
        binds = λ k. unfold binding in refl;
        fresh = λ p k h. h;
        room = omega arith;
      },
    )
    | inr idle ↦ (
      [],
      U.del t c.key c.address,
      some c.key,
      ground arith,
      Drops-HasRoom U (c ∷ []) t n c [] a le (unfold binding in ground arith) (Drops-head c [] d),
    )
  ]
  evict-HasRoom n (b ∷ c ∷ l) d a le two =
      let (l', e, run, policy) = evict-SecondChance U t (b ∷ c ∷ l) (omega arith) in
      (
        l',
        U.del t e.key e.address,
        some e.key,
        run,
        Drops-HasRoom U (b ∷ c ∷ l) t n e l' a le (SecondChance-binding (b ∷ c ∷ l) l' e d policy)
            (SecondChance-Drops (b ∷ c ∷ l) l' e d policy),
      )
