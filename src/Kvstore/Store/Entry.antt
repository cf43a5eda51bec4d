-- ===== src/Kvstore/Store/Entry.antt =====
-- An entry reads back as the key and the value that were written, within the memory allocated for it.
use group.Shared.{ℕ, suc, ◌+◌, ◌≡◌, refl, List, [], ◌∷◌, ◌++◌, length, arith, ap, length-append}
use mathlib.Core.List.{append_assoc}
use group.Kvstore.Text.{CString, IsText, strlen}
use group.Kvstore.Store.{c_string, skip, encode, entry_key, entry_value, value_size}

length-strlen : (s : CString) → length s ≡ strlen s
unfolding strlen
length-strlen [] = refl
length-strlen (c ∷ s) = ap suc (length-strlen s)

c_string-terminated : (s : CString) (rest : List ℕ) → IsText s → c_string (s ++ 0 ∷ rest) ≡ s
unfolding c_string
c_string-terminated [] rest h = refl
c_string-terminated (c ∷ s) rest h = ground (arith, c_string-terminated s rest h.1)

skip-terminated : (s : CString) (rest : List ℕ) → skip (strlen s + 1) (s ++ 0 ∷ rest) ≡ rest
unfolding skip strlen
skip-terminated [] rest = refl
skip-terminated (c ∷ s) rest = ground (arith, skip-terminated s rest)

pub entry_key-encode : (key value : CString) → IsText key → entry_key (encode key value) ≡ key
unfolding entry_key encode
entry_key-encode key value h = rw (append_assoc key) (c_string-terminated key (value ++ 0 ∷ []) h)

-- The entry that kvstore_put writes for a key and a value without NUL reads back in find_entry as
-- that key and that value, its length field is the number of its bytes, and the memory that
-- find_entry allocates for the value is its length plus one.
pub entry-encode :
    (key value : CString)
    → IsText key
    → IsText value
    → (entry_key (encode key value) ≡ key)
      × (entry_value (encode key value) ≡ value)
      × (value_size (encode key value) ≡ strlen value + 1)
      × (length (encode key value).bytes ≡ (encode key value).length)
unfolding entry_value value_size encode
entry-encode key value hk hv =
    let k : c_string ((key ++ 0 ∷ []) ++ (value ++ 0 ∷ [])) ≡ key =
      rw (append_assoc key) (c_string-terminated key (value ++ 0 ∷ []) hk) in
    (
      entry_key-encode key value hk,
      rw (k, append_assoc key, skip-terminated key (value ++ 0 ∷ []))
          (c_string-terminated value [] hv),
      rw k (omega arith),
      omega (
        arith,
        length-append (key ++ 0 ∷ []) (value ++ 0 ∷ []),
        length-append key (0 ∷ []),
        length-append value (0 ∷ []),
        length-strlen key,
        length-strlen value,
      ),
    )
