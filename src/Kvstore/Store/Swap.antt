-- ===== src/Kvstore/Store/Swap.antt =====
-- What a put and a deletion make of a hash chain: an element is replaced or appended, and the last
-- element takes the place of the one that is deleted.
use group.Shared.{
  ℕ, zero, suc, ◌+◌, ◌-◌, ◌≤◌, ◌<◌, ◌≡◌, ◌≢◌, refl, sym, ap, ◌∙◌, none, some, [], ◌∷◌, All, length,
  arith, ite, if_pos, if_neg, get_elem?, get_elem?-lt, if◌then◌else◌, ◌==◌,
}
use group.Kvstore.Text.{CString, strcmp_dec}
use group.Kvstore.Store.Chain.{Chain, lookup, locate}

abbrev pub IsAbsent : CString → Chain → Type 0
IsAbsent k = All (λ e. e.0 ≢ k)

-- Each key stands once.
abbrev pub Distinct : Chain → Type 0
Distinct [] = Unit
Distinct ((k, v) ∷ l) = IsAbsent k l × Distinct l

unfoldable pub put_chain : CString → CString → Chain → Chain
unfolding strcmp_dec
put_chain key value [] = (key, value) ∷ []
put_chain key value ((k, v) ∷ l) =
    let rest = put_chain key value l in ite (strcmp_dec key k) ((key, value) ∷ l) ((k, v) ∷ rest)

-- An element behind the first of a chain.
unfoldable pub second : CString × CString → Chain → Chain
second y [] = y ∷ []
second y (z ∷ r) = z ∷ y ∷ r

-- The last element in front of the others.
unfoldable pub rotate_right : Chain → Chain
unfolding second
rotate_right [] = []
rotate_right (y ∷ l) = second y (rotate_right l)

unfoldable pub swap_remove : ℕ → Chain → Chain
unfolding rotate_right
swap_remove i [] = []
swap_remove zero (x ∷ l) = rotate_right l
swap_remove (suc i) (x ∷ l) = x ∷ swap_remove i l

pub lookup-put_chain :
    (key j value : CString) (l : Chain)
    → lookup j (put_chain key value l) ≡ ite (strcmp_dec key j) (some value) (lookup j l)
unfolding lookup put_chain
lookup-put_chain key j value [] = ground arith
lookup-put_chain key j value ((k, v) ∷ l) = ground (arith, lookup-put_chain key j value l)

pub All-put_chain :
    (P : CString × CString → Type 0) (key value : CString) (l : Chain)
    → All P l
    → P (key, value)
    → All P (put_chain key value l)
unfolding put_chain
All-put_chain P key value [] h p = (p, tt)
All-put_chain P key value ((k, v) ∷ l) h p = elim (strcmp_dec key k) [
  | yes e ↦ rw (if_pos (strcmp_dec key k) e) (p, h.1)
  | no e ↦ rw (if_neg (strcmp_dec key k) e) (h.0, All-put_chain P key value l h.1 p)
]

pub lookup-locate :
    (key : CString) (l : Chain)
    → lookup key l ≡ elim (locate key l) [ none ↦ none | some (i, v) ↦ some v ]
unfolding lookup locate
lookup-locate key [] = refl
lookup-locate key ((k, v) ∷ l) = ground (arith, lookup-locate key l)

pub locate-lt :
    (key : CString) (l : Chain) (i : ℕ) (v : CString) → locate key l ≡ some (i, v) → i < length l
unfolding locate
locate-lt key [] i v h = absurd (cc)
locate-lt key ((k, w) ∷ l) zero v h = omega arith
locate-lt key ((k, w) ∷ l) (suc i) v h = ground (arith, locate-lt key l i v)

-- The chain after a put, position by position.
pub get_elem?-put_chain :
    (key value : CString) (l : Chain) (j : ℕ)
    → get_elem? (put_chain key value l) j ≡ (
        if j == elim (locate key l) [ none ↦ length l | some (i, v) ↦ i ]
        then some (key, value)
        else get_elem? l j)
unfolding put_chain locate
get_elem?-put_chain key value [] zero = refl
get_elem?-put_chain key value [] (suc j) = ground arith
get_elem?-put_chain key value ((k, v) ∷ l) zero = ground arith
get_elem?-put_chain key value ((k, v) ∷ l) (suc j) =
    ground (arith, get_elem?-put_chain key value l j)

pub put_chain-Distinct :
    (key value : CString) (l : Chain) → Distinct l → Distinct (put_chain key value l)
unfolding put_chain
put_chain-Distinct key value [] d = (tt, tt)
put_chain-Distinct key value ((k, v) ∷ l) d = elim (strcmp_dec key k) [
  | yes e ↦ rw (if_pos (strcmp_dec key k) e, e) d
  | no e ↦
      rw (if_neg (strcmp_dec key k) e)
        (All-put_chain (λ x. x.0 ≢ k) key value l d.0 e, put_chain-Distinct key value l d.1)
]

module _ (P : CString × CString → Type 0) where
  All-second : (y : CString × CString) (m : Chain) → P y → All P m → All P (second y m)
  unfolding second
  All-second y [] p h = (p, tt)
  All-second y (z ∷ r) p h = (h.0, (p, h.1))

  All-rotate_right : (l : Chain) → All P l → All P (rotate_right l)
  unfolding rotate_right
  All-rotate_right [] h = tt
  All-rotate_right (y ∷ l) h = All-second y (rotate_right l) h.0 (All-rotate_right l h.1)

  pub All-swap_remove : (i : ℕ) (l : Chain) → All P l → All P (swap_remove i l)
  unfolding swap_remove
  All-swap_remove zero [] h = tt
  All-swap_remove (suc i) [] h = tt
  All-swap_remove zero (x ∷ l) h = All-rotate_right l h.1
  All-swap_remove (suc i) (x ∷ l) h = (h.0, All-swap_remove i l h.1)

second-Distinct :
    (k v : CString) (m : Chain) → IsAbsent k m → Distinct m → Distinct (second (k, v) m)
unfolding second
second-Distinct k v [] a d = (tt, tt)
second-Distinct k v ((z, w) ∷ r) a d = ((λ e. a.0 (sym e), d.0), (a.1, d.1))

rotate_right-Distinct : (l : Chain) → Distinct l → Distinct (rotate_right l)
unfolding rotate_right
rotate_right-Distinct [] d = tt
rotate_right-Distinct ((k, v) ∷ l) d =
    second-Distinct k v (rotate_right l) (All-rotate_right (λ e. e.0 ≢ k) l d.0)
      (rotate_right-Distinct l d.1)

pub swap_remove-Distinct : (i : ℕ) (l : Chain) → Distinct l → Distinct (swap_remove i l)
unfolding swap_remove
swap_remove-Distinct zero [] d = tt
swap_remove-Distinct (suc i) [] d = tt
swap_remove-Distinct zero (x ∷ l) d = rotate_right-Distinct l d.1
swap_remove-Distinct (suc i) ((k, v) ∷ l) d =
    (All-swap_remove (λ e. e.0 ≢ k) i l d.0, swap_remove-Distinct i l d.1)

lookup-second :
    (j k v : CString) (m : Chain)
    → IsAbsent k m
    → lookup j (second (k, v) m) ≡ lookup j ((k, v) ∷ m)
unfolding lookup second
lookup-second j k v [] a = refl
lookup-second j k v ((z, w) ∷ r) a = ground arith

lookup-rotate_right :
    (j : CString) (l : Chain) → Distinct l → lookup j (rotate_right l) ≡ lookup j l
unfolding lookup rotate_right
lookup-rotate_right j [] d = refl
lookup-rotate_right j ((k, v) ∷ l) d = ground (
  arith,
  lookup-second j k v (rotate_right l) (All-rotate_right (λ e. e.0 ≢ k) l d.0),
  lookup-rotate_right j l d.1,
)

lookup-absent : (k : CString) (l : Chain) → IsAbsent k l → lookup k l ≡ none
unfolding lookup
lookup-absent k [] a = refl
lookup-absent k ((j, v) ∷ l) a = ground (arith, lookup-absent k l a.1)

-- A deletion loses the key that was located, and no other.
pub lookup-swap_remove :
    (key j : CString) (l : Chain) (i : ℕ) (v : CString)
    → Distinct l
    → locate key l ≡ some (i, v)
    → lookup j (swap_remove i l) ≡ ite (strcmp_dec key j) none (lookup j l)
unfolding lookup locate swap_remove
lookup-swap_remove key j [] i v d h = absurd (cc)
lookup-swap_remove key j ((k, w) ∷ l) zero v d h =
    ground (arith, lookup-rotate_right j l d.1, lookup-absent k l d.0)
lookup-swap_remove key j ((k, w) ∷ l) (suc i) v d h =
    ground (arith, lookup-swap_remove key j l i v d.1, lookup-absent k l d.0)

length-second : (y : CString × CString) (m : Chain) → length (second y m) ≡ suc (length m)
unfolding second
length-second y [] = refl
length-second y (z ∷ r) = refl

length-rotate_right : (l : Chain) → length (rotate_right l) ≡ length l
unfolding rotate_right
length-rotate_right [] = refl
length-rotate_right (y ∷ l) = length-second y (rotate_right l) ∙ ap suc (length-rotate_right l)

pub length-swap_remove : (i : ℕ) (l : Chain) → length (swap_remove i l) ≤ length l
unfolding swap_remove
length-swap_remove zero [] = omega arith
length-swap_remove (suc i) [] = omega arith
length-swap_remove zero (x ∷ l) = omega (arith, length-rotate_right l)
length-swap_remove (suc i) (x ∷ l) = omega (arith, length-swap_remove i l)

pub length-put_chain :
    (key value : CString) (l : Chain) → length (put_chain key value l) ≤ length l + 1
unfolding put_chain
length-put_chain key value [] = omega arith
length-put_chain key value ((k, v) ∷ l) = ground (arith, length-put_chain key value l)

get_elem?-second :
    (y : CString × CString) (m : Chain)
    → (get_elem? (second y m) 0 ≡ elim (get_elem? m 0) [ none ↦ some y | some z ↦ some z ])
      × (get_elem? (second y m) 1 ≡ elim (get_elem? m 0) [ none ↦ none | some z ↦ some y ])
      × ((k : ℕ) → get_elem? (second y m) (suc (suc k)) ≡ get_elem? m (suc k))
unfolding second
get_elem?-second y [] = (refl, refl, λ k. refl)
get_elem?-second y (z ∷ r) = (refl, refl, λ k. refl)

get_elem?-rotate_right :
    (x : CString × CString) (l : Chain) (j : ℕ)
    → get_elem? (rotate_right l) j
      ≡ (if j == length l then none else get_elem? (x ∷ l) (if j == 0 then length l else j))
unfolding rotate_right
get_elem?-rotate_right x [] zero = refl
get_elem?-rotate_right x [] (suc j) = ground arith
get_elem?-rotate_right x (y ∷ []) zero = unfold second in refl
get_elem?-rotate_right x (y ∷ z ∷ l) zero =
    ground
      (arith, (get_elem?-second y (rotate_right (z ∷ l))).0, get_elem?-rotate_right y (z ∷ l) 0)
get_elem?-rotate_right x (y ∷ []) (suc zero) = unfold second in ground arith
get_elem?-rotate_right x (y ∷ z ∷ l) (suc zero) =
    let (w, last) = get_elem?-lt (y ∷ z ∷ l) (suc (length l)) (omega arith) in
    ground
      (arith, (get_elem?-second y (rotate_right (z ∷ l))).1, get_elem?-rotate_right y (z ∷ l) 0)
get_elem?-rotate_right x (y ∷ l) (suc (suc k)) =
    ground (arith, (get_elem?-second y (rotate_right l)).2 k, get_elem?-rotate_right y l (suc k))

-- The chain after a deletion, position by position.
pub get_elem?-swap_remove :
    (i : ℕ) (l : Chain) (j : ℕ)
    → i < length l
    → get_elem? (swap_remove i l) j
      ≡ (if j == length l - 1 then none else get_elem? l (if j == i then length l - 1 else j))
unfolding swap_remove
get_elem?-swap_remove i [] j h = absurd (omega arith)
get_elem?-swap_remove zero (x ∷ l) j h = ground (arith, get_elem?-rotate_right x l j)
get_elem?-swap_remove (suc i) (x ∷ l) zero h = ground arith
get_elem?-swap_remove (suc i) (x ∷ l) (suc j) h =
    let e : length l ≡ suc (length l - 1) = omega arith in
    ground (arith, get_elem?-swap_remove i l j (omega arith))
