-- ===== src/Kvstore/Text.antt =====
-- C strings as the bytes before the terminating NUL, with `strlen`, `strcmp` and the hash functions
-- of kvstore.c and tpcmaster.c.
use group.Shared.{
  ℕ, suc, ◌+◌, ◌-◌, ◌*◌, ◌%◌, ◌^◌, ◌<◌, ◌≡◌, ◌≢◌, refl, List, [], ◌∷◌, All, ltb, if◌then◌else◌,
  ℕ_discrete,
}

abbrev pub CString : Type 0
CString = List ℕ

pub cons_path : {x y : ℕ} {xs ys : CString} → x ≡ y → xs ≡ ys → x ∷ xs ≡ y ∷ ys
cons_path p q = cc

pub head_ne : {x y : ℕ} {xs ys : CString} → x ≢ y → x ∷ xs ≢ y ∷ ys
head_ne n e = n (cc)

pub tail_ne : {x y : ℕ} {xs ys : CString} → xs ≢ ys → x ∷ xs ≢ y ∷ ys
tail_ne n e = n (cc)

pub nil_ne : {y : ℕ} {ys : CString} → ◌≢◌ {A = CString} [] (y ∷ ys)
nil_ne e = cc

pub cons_ne : {x : ℕ} {xs : CString} → ◌≢◌ {A = CString} (x ∷ xs) []
cons_ne e = cc

-- `strcmp (a, b) == 0`, decided byte by byte.
unfoldable pub strcmp_dec : Discrete CString
unfolding ℕ_discrete
strcmp_dec [] [] = yes refl
strcmp_dec [] (y ∷ ys) = no nil_ne
strcmp_dec (x ∷ xs) [] = no cons_ne
strcmp_dec (x ∷ xs) (y ∷ ys) = elim (ℕ_discrete x y) [
  | yes p ↦ elim (strcmp_dec xs ys) [ yes q ↦ yes (cons_path p q) | no q ↦ no (tail_ne q) ]
  | no p ↦ no (head_ne p)
]

-- The bytes of a string: none is the terminator.
abbrev pub IsText : CString → Type 0
IsText = All (λ c. (0 < c) × (c < 256))

-- A signed `char` promoted to a w-bit unsigned sum.
abbrev pub char_mod : ℕ → ℕ → ℕ
char_mod w c = if ltb c 128 then c else 2 ^ w + c - 256

-- The loop of `hash`: `hash = ((hash << 5) + hash) + c` on 64-bit words.
unfoldable pub hash_from : ℕ → CString → ℕ
hash_from h [] = h
hash_from h (c ∷ cs) = hash_from ((h * 33 + char_mod 64 c) % 2 ^ 64) cs

unfoldable pub hash : CString → ℕ
unfolding hash_from
hash s = hash_from 5381 s

unfoldable pub strlen : CString → ℕ
strlen [] = 0
strlen (c ∷ cs) = suc (strlen cs)
