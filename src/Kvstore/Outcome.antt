-- ===== src/Kvstore/Outcome.antt =====
-- The return codes of kvconstants.h, -1 (`failed`), ENOMEM and another `errno` (`os_error`), and the result of a call: a value, a code, or a fault (a use of
-- a null or dangling pointer, or a loop that is cut off).
use group.Shared.{ℕ, Bool, true, false}

pub data Errno : Type 0 where
  key_len val_len no_key invalid_message file_len file_create file_access failed no_memory
        os_error :
      Errno

pub data Outcome {ℓ} (A : Type ℓ) : Type ℓ where
  ok : A → Outcome A
  err : Errno → Outcome A
  fault : Outcome A

abbrev pub max_keylen : ℕ
max_keylen = 1024

abbrev pub max_vallen : ℕ
max_vallen = 1024

-- `ret < 0`: the values of `errno` are positive.
unfoldable pub is_negative : Errno → Bool
is_negative no_memory = false
is_negative os_error = false
is_negative key_len = true
is_negative _ = true
