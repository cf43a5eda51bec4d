-- ===== src/Kvstore/CacheSet/Bindings.antt =====
-- What a list of cache entries binds its keys to, and how kvcacheset.c's list operations change it.
use group.Shared.{
  ℕ, ◌+◌, ◌≤◌, ◌≡◌, ◌≢◌, refl, Bool, Option, none, some, List, [], ◌∷◌, ◌++◌, ite, if_pos, if_neg,
  length, All, All-append, arith, ℕ_discrete,
}
use group.Kvstore.Text.{CString, strcmp_dec}
use group.Kvstore.CacheSet.{Cell, deref, store, unlink}

-- The address and the value of the first element with the key.
unfoldable pub binding : CString → List Cell → Option (ℕ × Option CString)
unfolding strcmp_dec
binding k [] = none
binding k (c ∷ l) = ite (strcmp_dec c.key k) (some (c.address, c.value)) (binding k l)

-- Two elements share neither key nor address.
abbrev pub Apart : Cell → Cell → Type 0
Apart c d = (c.key ≢ d.key) × (c.address ≢ d.address)

abbrev pub Distinct : List Cell → Type 0
Distinct [] = Unit
Distinct (c ∷ l) = All (Apart c) l × Distinct l

-- No element has the address, as `malloc` promises of new memory.
abbrev pub IsFree : ℕ → List Cell → Type 0
IsFree p = All (λ d. d.address ≢ p)

-- The element stands alone: its key and address are new.
abbrev pub IsNew : ℕ → CString → List Cell → Type 0
IsNew p k = All (λ d. (d.key ≢ k) × (d.address ≢ p))

pub binding-append :
    (k : CString) (l m : List Cell) (c : Cell)
    → binding k (l ++ c ∷ m) ≡ elim (binding k l) [ some b ↦ some b | none ↦ binding k (c ∷ m) ]
unfolding binding
binding-append k [] m c = refl
binding-append k (d ∷ l) m c = ground (arith, binding-append k l m c)

pub binding-new : (p : ℕ) (k : CString) (l : List Cell) → IsNew p k l → binding k l ≡ none
unfolding binding
binding-new p k [] h = refl
binding-new p k (d ∷ l) h = ground (arith, binding-new p k l h.1)

-- A key that is not bound and an address that is not in use are new.
pub IsFree-IsNew :
    (p : ℕ) (k : CString) (l : List Cell) → IsFree p l → binding k l ≡ none → IsNew p k l
unfolding binding
IsFree-IsNew p k [] h e = tt
IsFree-IsNew p k (c ∷ l) h e = elim (strcmp_dec c.key k) [
  | yes q ↦ absurd (ground arith)
  | no q ↦ ((q, h.0), IsFree-IsNew p k l h.1 (ground arith))
]

-- An element apart from the list has not the address that the list binds.
pub binding-Apart :
    (k : CString) (c : Cell) (l : List Cell) (p : ℕ) (v : Option CString)
    → All (Apart c) l
    → binding k l ≡ some (p, v)
    → (c.key ≢ k) × (c.address ≢ p)
unfolding binding
binding-Apart k c [] p v h e = absurd (cc)
binding-Apart k c (d ∷ l) p v h e = ground (arith, binding-Apart k c l p v h.1)

pub binding-missing : (c : Cell) (l : List Cell) → All (Apart c) l → binding c.key l ≡ none
unfolding binding
binding-missing c [] h = refl
binding-missing c (d ∷ l) h = ground (arith, binding-missing c l h.1)

pub deref-binding :
    (k : CString) (l : List Cell) (p : ℕ) (v : Option CString)
    → Distinct l
    → binding k l ≡ some (p, v)
    → (c : Cell) × (deref p l ≡ some c) × (c.value ≡ v) × (c.key ≡ k) × (c.address ≡ p)
unfolding binding deref
deref-binding k [] p v d h = absurd (cc)
deref-binding k (c ∷ l) p v d h = elim (strcmp_dec c.key k) [
  | yes e ↦ (c, ground arith, ground arith, e, ground arith)
  | no e ↦
      let h' : binding k l ≡ some (p, v) = ground arith in
      let (c', found, same, named, placed) = deref-binding k l p v d.1 h' in
      (c', ground (arith, binding-Apart k c l p v d.0), same, named, placed)
]

-- A write changes what its own key is bound to, and no other key.
pub binding-store :
    (k j : CString) (l : List Cell) (p : ℕ) (v w : Option CString) (r : Bool)
    → Distinct l
    → binding k l ≡ some (p, v)
    → binding j (store p w r l) ≡ ite (strcmp_dec k j) (some (p, w)) (binding j l)
unfolding binding store
binding-store k j [] p v w r d h = absurd (cc)
binding-store k j (c ∷ l) p v w r d h =
    ground (arith, binding-Apart k c l p v d.0, binding-store k j l p v w r d.1)

pub binding-unlink :
    (k j : CString) (l : List Cell) (p : ℕ) (v : Option CString)
    → Distinct l
    → binding k l ≡ some (p, v)
    → binding j (unlink p l) ≡ ite (strcmp_dec k j) none (binding j l)
unfolding binding unlink
binding-unlink k j [] p v d h = absurd (cc)
binding-unlink k j (c ∷ l) p v d h =
    ground
      (arith, binding-Apart k c l p v d.0, binding-unlink k j l p v d.1, binding-missing c l d.0)

-- The operations keep elements apart.
pub All-unlink {κ} : (P : Cell → Type κ) (p : ℕ) (l : List Cell) → All P l → All P (unlink p l)
unfolding unlink
All-unlink P p [] h = tt
All-unlink P p (c ∷ l) h = elim (ℕ_discrete c.address p) [
  | yes e ↦ rw (if_pos _ e) h.1
  | no e ↦ rw (if_neg _ e) (h.0, All-unlink P p l h.1)
]

pub Apart-store :
    (c : Cell) (p : ℕ) (v : Option CString) (r : Bool) (l : List Cell)
    → All (Apart c) l
    → All (Apart c) (store p v r l)
unfolding store
Apart-store c p v r [] h = tt
Apart-store c p v r (d ∷ l) h = elim (ℕ_discrete d.address p) [
  | yes e ↦ rw (if_pos _ e) (h.0, h.1)
  | no e ↦ rw (if_neg _ e) (h.0, Apart-store c p v r l h.1)
]

pub store-Distinct :
    (p : ℕ) (v : Option CString) (r : Bool) (l : List Cell) → Distinct l → Distinct (store p v r l)
unfolding store
store-Distinct p v r [] d = tt
store-Distinct p v r (c ∷ l) d = elim (ℕ_discrete c.address p) [
  | yes e ↦ rw (if_pos _ e) (d.0, d.1)
  | no e ↦ rw (if_neg _ e) (Apart-store c p v r l d.0, store-Distinct p v r l d.1)
]

pub unlink-Distinct : (p : ℕ) (l : List Cell) → Distinct l → Distinct (unlink p l)
unfolding unlink
unlink-Distinct p [] d = tt
unlink-Distinct p (c ∷ l) d = elim (ℕ_discrete c.address p) [
  | yes e ↦ rw (if_pos _ e) d.1
  | no e ↦ rw (if_neg _ e) (All-unlink (Apart c) p l d.0, unlink-Distinct p l d.1)
]

pub append-Distinct :
    (c : Cell) (l : List Cell) → Distinct l → IsNew c.address c.key l → Distinct (l ++ c ∷ [])
append-Distinct c [] d h = (tt, tt)
append-Distinct c (b ∷ l) d h =
    (All-append (Apart b) l (c ∷ []) d.0 (h.0, tt), append-Distinct c l d.1 h.1)

pub length-store :
    (p : ℕ) (v : Option CString) (r : Bool) (l : List Cell) → length (store p v r l) ≡ length l
unfolding store
length-store p v r [] = refl
length-store p v r (c ∷ l) = ground (arith, length-store p v r l)

pub length-unlink : (p : ℕ) (l : List Cell) → length (unlink p l) ≤ length l
unfolding unlink
length-unlink p [] = omega arith
length-unlink p (c ∷ l) = ground (arith, length-unlink p l)

pub length-unlink_bound :
    (k : CString) (l : List Cell) (p : ℕ) (v : Option CString)
    → binding k l ≡ some (p, v)
    → length (unlink p l) + 1 ≡ length l
unfolding binding unlink
length-unlink_bound k [] p v h = absurd (cc)
length-unlink_bound k (c ∷ l) p v h = ground (arith, length-unlink_bound k l p v)

pub Apart-IsNew : (c : Cell) (l : List Cell) → All (Apart c) l → IsNew c.address c.key l
Apart-IsNew c [] h = tt
Apart-IsNew c (d ∷ l) h = ((ground arith, ground arith), Apart-IsNew c l h.1)
