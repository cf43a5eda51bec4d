-- ===== src/Pintos/Cstring.antt =====
-- lib/string.c: bytes in memory, a function from addresses; NULL is 0, and addresses are taken not to wrap.
-- `none` is a failed ASSERT, or a string that is longer than the fuel.
pub mod Blocks
pub mod Text
pub mod Copies
use group.Shared.{
  ℕ, zero, suc, ◌+◌, ◌-◌, ◌%◌, Bool, true, false, not, ◌&&◌, ◌||◌, Option, none, some, ltb, leb,
  ◌==◌, if◌then◌else◌,
}

abbrev pub Memory : Type 0
Memory = ℕ → ℕ

unfoldable pub store : Memory → ℕ → ℕ → Memory
store m p v a = if a == p then v else m a

-- A negative, a zero or a positive result.
pub data Sign : Type 0 where
  minus : Sign
  equal : Sign
  plus : Sign

-- `p != NULL || size == 0`
abbrev pub valid_block : ℕ → ℕ → Bool
valid_block p size = not (p == 0) || size == 0

-- The loops of `memcpy` and `memmove`, upwards and downwards. The one downwards starts at the ends.
unfoldable pub copy_up : Memory → ℕ → ℕ → ℕ → Memory
unfolding store
copy_up m dst src zero = m
copy_up m dst src (suc size) = copy_up (store m dst (m src)) (suc dst) (suc src) size

unfoldable pub copy_down : Memory → ℕ → ℕ → ℕ → Memory
unfolding store
copy_down m dst src zero = m
copy_down m dst src (suc size) = copy_down (store m (dst + size) (m (src + size))) dst src size

unfoldable pub memcpy : Memory → ℕ → ℕ → ℕ → Option (ℕ × Memory)
unfolding copy_up
memcpy m dst src size =
    if valid_block dst size && valid_block src size
    then some (dst, copy_up m dst src size)
    else none

-- With the pointer that it returns.
unfoldable pub memmove : Memory → ℕ → ℕ → ℕ → Option (ℕ × Memory)
unfolding copy_up copy_down
memmove m dst src size =
    if valid_block dst size && valid_block src size
    then (if ltb dst src
        then some (dst + size, copy_up m dst src size)
        else some (dst, copy_down m dst src size))
    else none

unfoldable pub cmp_loop : Memory → ℕ → ℕ → ℕ → Sign
cmp_loop m a b zero = equal
cmp_loop m a b (suc size) =
    let rest = cmp_loop m (suc a) (suc b) size in
    if m a == m b then rest else if ltb (m b) (m a) then plus else minus

unfoldable pub memcmp : Memory → ℕ → ℕ → ℕ → Option Sign
unfolding cmp_loop
memcmp m a b size =
    if valid_block a size && valid_block b size then some (cmp_loop m a b size) else none

unfoldable pub strcmp_loop : ℕ → Memory → ℕ → ℕ → Option Sign
strcmp_loop zero m a b = none
strcmp_loop (suc fuel) m a b =
    let rest = strcmp_loop fuel m (suc a) (suc b) in
    if not (m a == 0) && m a == m b
    then rest
    else some (if ltb (m a) (m b) then minus else if ltb (m b) (m a) then plus else equal)

unfoldable pub strcmp : ℕ → Memory → ℕ → ℕ → Option Sign
unfolding strcmp_loop
strcmp fuel m a b = if a == 0 || b == 0 then none else strcmp_loop fuel m a b

-- The inner `none` is a null pointer.
unfoldable pub chr_loop : Memory → ℕ → ℕ → ℕ → Option ℕ
chr_loop m block ch zero = none
chr_loop m block ch (suc size) =
    let rest = chr_loop m (suc block) ch size in if m block == ch then some block else rest

unfoldable pub memchr : Memory → ℕ → ℕ → ℕ → Option (Option ℕ)
unfolding chr_loop
memchr m block ch size =
    if valid_block block size then some (chr_loop m block (ch % 256) size) else none

unfoldable pub strchr_loop : ℕ → Memory → ℕ → ℕ → Option (Option ℕ)
strchr_loop zero m s c = none
strchr_loop (suc fuel) m s c =
    let rest = strchr_loop fuel m (suc s) c in
    if m s == c then some (some s) else if m s == 0 then some none else rest

unfoldable pub strchr : ℕ → Memory → ℕ → ℕ → Option (Option ℕ)
unfolding strchr_loop
strchr fuel m s c = if s == 0 then none else strchr_loop fuel m s (c % 256)

-- The loop of `strcspn` (for `stops` true) and of `strspn`: it stops at a character that is in the set, or
-- that is not.
unfoldable pub span_loop : Bool → ℕ → Memory → ℕ → ℕ → ℕ → Option ℕ
unfolding strchr
span_loop stops zero m s set n = none
span_loop stops (suc fuel) m s set n =
    let rest = span_loop stops fuel m s set (suc n) in
    if m (s + n) == 0 then some n else elim (strchr fuel m set (m (s + n))) [
      | none ↦ none
      | some none ↦ if stops then rest else some n
      | some (some p) ↦ if stops then some n else rest
    ]

unfoldable pub strcspn : ℕ → Memory → ℕ → ℕ → Option ℕ
unfolding span_loop
strcspn fuel m s stop = span_loop true fuel m s stop 0

unfoldable pub strspn : ℕ → Memory → ℕ → ℕ → Option ℕ
unfolding span_loop
strspn fuel m s skip = span_loop false fuel m s skip 0

unfoldable pub strrchr_loop : ℕ → Memory → ℕ → ℕ → Option ℕ → Option (Option ℕ)
strrchr_loop zero m s c p = none
strrchr_loop (suc fuel) m s c p =
    let rest = strrchr_loop fuel m (suc s) c (if m s == c then some s else p) in
    if m s == 0 then some p else rest

unfoldable pub strrchr : ℕ → Memory → ℕ → ℕ → Option (Option ℕ)
unfolding strrchr_loop
strrchr fuel m s c = strrchr_loop fuel m s (c % 256) none

unfoldable pub fill_loop : Memory → ℕ → ℕ → ℕ → Memory
unfolding store
fill_loop m dst value zero = m
fill_loop m dst value (suc size) = fill_loop (store m dst (value % 256)) (suc dst) value size

unfoldable pub memset : Memory → ℕ → ℕ → ℕ → Option (ℕ × Memory)
unfolding fill_loop
memset m dst value size =
    if valid_block dst size then some (dst, fill_loop m dst value size) else none

unfoldable pub strlen_loop : ℕ → Memory → ℕ → ℕ → Option ℕ
strlen_loop zero m s n = none
strlen_loop (suc fuel) m s n =
    let rest = strlen_loop fuel m s (suc n) in if m (s + n) == 0 then some n else rest

unfoldable pub strlen : ℕ → Memory → ℕ → Option ℕ
unfolding strlen_loop
strlen fuel m s = if s == 0 then none else strlen_loop fuel m s 0

-- With the length that is returned.
unfoldable pub strlcpy : ℕ → Memory → ℕ → ℕ → ℕ → Option (ℕ × Memory)
unfolding strlen memcpy store
strlcpy fuel m dst src size = if dst == 0 then none else elim (strlen fuel m src) [
  | none ↦ none
  | some src_len ↦
      let dst_len = if ltb src_len (size - 1) then src_len else size - 1 in
      if ltb 0 size
      then elim (memcpy m dst src dst_len) [
        | none ↦ none
        | some (_, m') ↦ some (src_len, store m' (dst + dst_len) 0)
      ]
      else some (src_len, m)
]

unfoldable pub strlcat : ℕ → Memory → ℕ → ℕ → ℕ → Option (ℕ × Memory)
unfolding strlen memcpy store
strlcat fuel m dst src size = if dst == 0 then none else elim (strlen fuel m src) [
  | none ↦ none
  | some src_len ↦ elim (strlen fuel m dst) [
    | none ↦ none
    | some dst_len ↦
        let room = size - dst_len - 1 in
        let copy_cnt = if ltb src_len room then src_len else room in
        if ltb 0 size && ltb dst_len size
        then elim (memcpy m (dst + dst_len) src copy_cnt) [
          | none ↦ none
          | some (_, m') ↦ some (src_len + dst_len, store m' (dst + dst_len + copy_cnt) 0)
        ]
        else some (src_len + dst_len, m)
  ]
]
