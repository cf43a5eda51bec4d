-- ===== src/Pintos/Cstring/Blocks.antt =====
-- What the functions on blocks of bytes leave in memory.
use group.Shared.{
  ℕ, zero, suc, ◌+◌, ◌-◌, ◌≤◌, ◌≡◌, ◌≢◌, ◌⊎◌, inl, inr, refl, ap, ◌∙◌, Bool, true, ◌&&◌, some, ltb,
  leb, if◌then◌else◌, Bool-cases, ℕ_discrete, arith,
}
use group.Pintos.Cstring.{Memory, store, copy_up, copy_down, memcpy, memmove, valid_block}

-- The address is one of `size` from `p` on.
abbrev pub inside : ℕ → ℕ → ℕ → Bool
inside p size a = leb p a && ltb a (p + size)

-- The block has what the other block had, and all else stays.
abbrev pub IsCopied : Memory → Memory → ℕ → ℕ → ℕ → Type 0
IsCopied m m' dst src size =
    (a : ℕ) → m' a ≡ (if inside dst size a then m (src + (a - dst)) else m a)

pub store_same : (m : Memory) (p v a : ℕ) → a ≡ p → store m p v a ≡ v
unfolding store
store_same m p v a e = ground (arith, e)

pub store_other : (m : Memory) (p v a : ℕ) → a ≢ p → store m p v a ≡ m a
unfolding store
store_other m p v a e = ground (arith, e)

copy_up_lem :
    (m : Memory) (dst src size : ℕ)
    → (dst ≤ src) ⊎ (src + size ≤ dst)
    → IsCopied m (copy_up m dst src size) dst src size
unfolding copy_up
copy_up_lem m dst src zero h a = ground arith
copy_up_lem m dst src (suc size) h a =
    let m1 = store m dst (m src) in
    copy_up_lem m1 (suc dst) (suc src) size (ground arith) a ∙ elim (ℕ_discrete a dst) [
      | yes e ↦
          let from : src ≡ src + (a - dst) = omega arith in
          ground (arith, store_same m dst (m src) a e, ap m from)
      | no e ↦ elim (Bool-cases (inside (suc dst) size a)) [
        | inl i ↦
            let place : suc src + (a - suc dst) ≡ src + (a - dst) = ground arith in
            let apart : src + (a - dst) ≢ dst = λ q. ground arith in
            let kept = store_other m dst (m src) (src + (a - dst)) apart in
            ground (arith, ap m1 place, kept)
        | inr i ↦ ground (arith, store_other m dst (m src) a e)
      ]
    ]

copy_down_lem :
    (m : Memory) (dst src size : ℕ) → src ≤ dst → IsCopied m (copy_down m dst src size) dst src size
unfolding copy_down
copy_down_lem m dst src zero h a = ground arith
copy_down_lem m dst src (suc size) h a =
    let v = m (src + size) in
    copy_down_lem (store m (dst + size) v) dst src size h a ∙ elim (ℕ_discrete a (dst + size)) [
      | yes e ↦
          let from : src + size ≡ src + (a - dst) = omega arith in
          ground (arith, store_same m (dst + size) v a e, ap m from)
      | no e ↦ elim (Bool-cases (inside dst size a)) [
        | inl i ↦
            let apart : src + (a - dst) ≢ dst + size = λ q. ground arith in
            let kept = store_other m (dst + size) v (src + (a - dst)) apart in ground (arith, kept)
        | inr i ↦ ground (arith, store_other m (dst + size) v a e)
      ]
    ]

pub memcpy-IsCopied :
    (m : Memory) (dst src size : ℕ)
    → dst ≢ 0
    → src ≢ 0
    → (dst ≤ src) ⊎ (src + size ≤ dst)
    → (m' : Memory) × (memcpy m dst src size ≡ some (dst, m')) × IsCopied m m' dst src size
unfolding memcpy
memcpy-IsCopied m dst src size p q h =
    let valid : (valid_block dst size && valid_block src size) ≡ true = ground (arith, p, q) in
    (copy_up m dst src size, rw (memcpy, valid) refl, copy_up_lem m dst src size h)

-- For pointers that are not NULL, memmove leaves in the destination the bytes that the source had
-- before, also if the two overlap, and changes no other byte; the pointer that it returns is the
-- end of the destination if the destination lies before the source, and else the destination.
pub memmove-IsCopied :
    (m : Memory) (dst src size : ℕ)
    → dst ≢ 0
    → src ≢ 0
    → (m' : Memory) × (memmove m dst src size
        ≡ some ((if ltb dst src then dst + size else dst), m'))
      × IsCopied m m' dst src size
unfolding memmove
memmove-IsCopied m dst src size p q =
    let valid : (valid_block dst size && valid_block src size) ≡ true = ground (arith, p, q) in
    elim (Bool-cases (ltb dst src)) [
      | inl e ↦ (
        copy_up m dst src size,
        rw (memmove, valid, e) refl,
        copy_up_lem m dst src size (inl (ground arith)),
      )
      | inr e ↦ (
        copy_down m dst src size,
        rw (memmove, valid, e) refl,
        copy_down_lem m dst src size (ground arith),
      )
    ]
