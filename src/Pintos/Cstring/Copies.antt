-- ===== src/Pintos/Cstring/Copies.antt =====
-- `strlcpy` keeps within the room that it is given, and leaves a string.
use group.Shared.{
  ℕ, ◌+◌, ◌-◌, ◌≤◌, ◌<◌, ◌≡◌, ◌≢◌, ◌⊎◌, inl, inr, refl, sym, ap, ◌∙◌, true, false, ◌&&◌, some, ltb,
  ◌==◌, if◌then◌else◌, Bool-cases, arith,
}
use group.Pintos.Cstring.{Memory, store, strlcpy, strlcat}
use group.Pintos.Cstring.Blocks.{inside, IsCopied, memcpy-IsCopied, store_same, store_other}
use group.Pintos.Cstring.Text.{IsText, strlen-IsText}

-- How many characters there is room for.
abbrev pub fitting : ℕ → ℕ → ℕ
fitting n room = if ltb n room then n else room

-- A string of `k` characters was copied to `p`, and nothing changed but the `size` bytes from `from` on.
pub record IsTextCopy (m m' : Memory) (p src k from size : ℕ) : Type 0 where
  pub text : IsText m' p k
  pub same : (i : ℕ) → i < k → m' (p + i) ≡ m (src + i)
  pub rest : (a : ℕ) → inside from size a ≡ false → m' a ≡ m a

copied :
    (m m' : Memory) (p src n k from size : ℕ)
    → IsText m src n
    → k ≤ n
    → from ≤ p
    → p + k < from + size
    → IsCopied m m' p src k
    → IsTextCopy m (store m' (p + k) 0) p src k from size
copied m m' p src n k from size t h a b c = record {
  text = record {
    letters = λ i l q. t.letters i (omega arith) (sym (byte i l) ∙ q);
    end = store_same m' (p + k) 0 (p + k) refl;
  };
  same = byte;
  rest = λ j o.
      let out : j ≢ p + k = λ q. ground (arith, o, q) in
      let away : inside p k j ≡ false = ground (arith, o) in
      store_other m' (p + k) 0 j out ∙ c j ∙ rw away refl;
}
  where
    byte : (i : ℕ) → i < k → store m' (p + k) 0 (p + i) ≡ m (src + i)
    byte i l =
        let here : inside p k (p + i) ≡ true = ground arith in
        let place : src + (p + i - p) ≡ src + i = omega arith in
        store_other m' (p + k) 0 (p + i) (λ q. omega arith) ∙ c (p + i) ∙ rw here (ap m place)

-- For a string of n characters, a size above 0, fuel above n, pointers that are not NULL, and a
-- destination of so many bytes that has no byte of the string: strlcpy returns n, the destination
-- then holds the string of the first characters, n of them or the size less one if that is less,
-- with a NUL after them, and no byte outside of the destination changes.
pub strlcpy-IsTextCopy :
    (fuel : ℕ) (m : Memory) (dst src size n : ℕ)
    → IsText m src n
    → n < fuel
    → dst ≢ 0
    → src ≢ 0
    → 0 < size
    → (dst + size ≤ src) ⊎ (src + n < dst)
    → (m' : Memory) × (strlcpy fuel m dst src size ≡ some (n, m'))
      × IsTextCopy m m' dst src (fitting n (size - 1)) dst size
unfolding strlcpy
strlcpy-IsTextCopy fuel m dst src size n t f p q r o =
    let k = fitting n (size - 1) in
    let here : (dst == 0) ≡ false = ground (arith, p) in
    let room : ltb 0 size ≡ true = ground arith in
    let (m', e, c) = memcpy-IsCopied m dst src k p q (ground (arith, o)) in
    (
      store m' (dst + k) 0,
      rw (strlcpy, here, strlen-IsText fuel m src n t q f, room, e) refl,
      copied m m' dst src n k dst size t (ground arith) (omega arith) (ground arith) c,
    )

pub strlcat-IsTextCopy :
    (fuel : ℕ) (m : Memory) (dst src size n k : ℕ)
    → IsText m src n
    → IsText m dst k
    → n < fuel
    → k < fuel
    → dst ≢ 0
    → src ≢ 0
    → k < size
    → (dst + size ≤ src) ⊎ (src + n < dst)
    → (m' : Memory) × (strlcat fuel m dst src size ≡ some (n + k, m'))
      × IsTextCopy m m' (dst + k) src (fitting n (size - k - 1)) (dst + k) (size - k)
      × IsText m' dst (k + fitting n (size - k - 1))
unfolding strlcat
strlcat-IsTextCopy fuel m dst src size n k t u f g p q r o =
    let c = fitting n (size - k - 1) in
    let here : (dst == 0) ≡ false = ground (arith, p) in
    let room : (ltb 0 size && ltb k size) ≡ true = ground arith in
    let (m', e, w) =
      memcpy-IsCopied m (dst + k) src c (λ z. omega (arith, p)) q (ground (arith, o)) in
    let z =
      copied m m' (dst + k) src n c (dst + k) (size - k) t (ground arith) (omega arith)
        (ground arith) w in
    (
      store m' (dst + k + c) 0,
      rw
          (
            strlcat,
            here,
            strlen-IsText fuel m src n t q f,
            strlen-IsText fuel m dst k u p g,
            room,
            e,
          )
          refl,
      z,
      whole z,
    )
  where
    whole :
        {m' : Memory} {c : ℕ}
        → IsTextCopy m m' (dst + k) src c (dst + k) (size - k)
        → IsText m' dst (k + c)
    whole {m'} {c} z =
        let next : dst + (k + c) ≡ dst + k + c = omega arith in
        record {
          letters = λ i l q. elim (Bool-cases (ltb i k)) [
            | inl e ↦
                let out : inside (dst + k) (size - k) (dst + i) ≡ false = ground (arith, e) in
                u.letters i (ground (arith, e)) (sym (z.rest (dst + i) out) ∙ q)
            | inr e ↦
                let place : dst + k + (i - k) ≡ dst + i = ground (arith, e) in
                z.text.letters (i - k) (ground (arith, e)) (ap m' place ∙ q)
          ];
          end = ap m' next ∙ z.text.end;
        }
