-- ===== src/Pintos/Cstring/Text.antt =====
-- Strings in memory and their length.
use group.Shared.{
  ℕ, zero, suc, ◌+◌, ◌-◌, ◌≤◌, ◌<◌, ◌≡◌, ◌≢◌, ap, true, false, some, ◌==◌, ℕ_discrete, arith,
}
use group.Pintos.Cstring.{Memory, strlen_loop, strlen}

-- `n` characters and the NUL after them.
pub record IsText (m : Memory) (s n : ℕ) : Type 0 where
  pub letters : (i : ℕ) → i < n → m (s + i) ≢ 0
  pub end : m (s + n) ≡ 0

strlen_loop_lem :
    (fuel : ℕ) (m : Memory) (s n k : ℕ)
    → IsText m s n
    → k ≤ n
    → n - k < fuel
    → strlen_loop fuel m s k ≡ some n
unfolding strlen_loop
strlen_loop_lem zero m s n k t h f = absurd (omega arith)
strlen_loop_lem (suc fuel) m s n k t h f = elim (ℕ_discrete k n) [
  | yes e ↦
      let last : (m (s + k) == 0) ≡ true = ground (arith, ap (λ i. m (s + i)) e, t.end) in
      rw (strlen_loop, last) (ap some e)
  | no e ↦
      let letter : (m (s + k) == 0) ≡ false = ground (arith, t.letters k (omega (arith, e))) in
      rw (strlen_loop, letter)
        (strlen_loop_lem fuel m s n (suc k) t (omega (arith, e)) (omega (arith, e)))
]

pub strlen-IsText :
    (fuel : ℕ) (m : Memory) (s n : ℕ) → IsText m s n → s ≢ 0 → n < fuel → strlen fuel m s ≡ some n
unfolding strlen
strlen-IsText fuel m s n t p f =
    let here : (s == 0) ≡ false = ground (arith, p) in
    rw (strlen, here) (strlen_loop_lem fuel m s n 0 t (omega arith) (omega arith))
