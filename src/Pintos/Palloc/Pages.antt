-- ===== src/Pintos/Palloc/Pages.antt =====
-- The pages that are handed out and taken back.
use group.Shared.{
  ℕ, ◌+◌, ◌-◌, ◌*◌, ◌%◌, ◌≤◌, ◌<◌, ◌≡◌, ◌⊎◌, inl, inr, refl, sym, ap, ◌∙◌, Bool, true, false, ◌&&◌,
  ◌||◌, Option, none, some, ltb, leb, ◌==◌, if◌then◌else◌, arith, Bool-cases,
}
use mathlib.Core.Path.{subst}
use group.Pintos.Bitmap.{Bitmap}
use group.Pintos.Bitmap.Bit.{bit, IsBitmap}
use group.Pintos.Bitmap.Ranges.{within}
use group.Pintos.Bitmap.Scan.{IsFirst, Nowhere, scan_and_flip-cases}
use group.Pintos.FreeMap.Sectors.{SameBits, undo, all_bits-true}
use group.Pintos.Palloc.{
  Pool, Palloc, Flags, pgsize, pg_no, pg_ofs, fill, with_map, pool_of, get_multiple, page_from_pool,
  free_in, free_multiple,
}

-- A pool starts at a page and not at null, and has a map.
pub record IsPool (pool : Pool) : Type 0 where
  pub map : IsBitmap pool.used_map
  pub page : pool.base % 4096 ≡ 0
  pub positive : 0 < pool.base

-- The pools are valid, and the user pool lies behind the kernel pool.
pub record IsPalloc (p : Palloc) : Type 0 where
  pub kernel : IsPool p.kernel_pool
  pub user : IsPool p.user_pool
  pub apart : pg_no p.kernel_pool.base + p.kernel_pool.used_map.bit_cnt ≤ pg_no p.user_pool.base

pool_of-IsPool : (flags : Flags) (p : Palloc) → IsPalloc p → IsPool (pool_of flags p)
pool_of-IsPool flags p v = elim (Bool-cases flags.user) [
  | inl e ↦ rw e v.user
  | inr e ↦ rw e v.kernel
]

-- The range of bytes holds the value, and no other byte changes.
abbrev pub Fills : (ℕ → ℕ) → (ℕ → ℕ) → ℕ → ℕ → ℕ → Type 0
Fills memory memory' start byte size =
    (a : ℕ) → memory' a ≡ (if leb start a && ltb a (start + size) then byte else memory a)

-- The pages from `i` on were free, and are in use; the other pages, the other pool and the rest of memory
-- stay.
pub record IsTaken (flags : Flags) (cnt : ℕ) (p : Palloc) (i : ℕ) (p' : Palloc) : Type 0 where
  pub first : IsFirst (pool_of flags p).used_map 0 cnt false i
  pub valid : IsPalloc p'
  pub size : (pool_of flags p').used_map.bit_cnt ≡ (pool_of flags p).used_map.bit_cnt
  pub base : (pool_of flags p').base ≡ (pool_of flags p).base
  pub bits :
      (j : ℕ)
      → bit (pool_of flags p').used_map j
        ≡ (if within i cnt j then true else bit (pool_of flags p).used_map j)
  pub other_kernel : flags.user ≡ true → p'.kernel_pool ≡ p.kernel_pool
  pub other_user : flags.user ≡ false → p'.user_pool ≡ p.user_pool
  pub filled :
      flags.zero_fill ≡ true
      → Fills p.memory p'.memory ((pool_of flags p).base + pgsize * i) 0 (pgsize * cnt)
  pub kept : flags.zero_fill ≡ false → p'.memory ≡ p.memory

taken_lem :
    (u z : Bool) (assert : Bool) (cnt : ℕ) (p : Palloc) (i : ℕ) (b : Bitmap)
    → let flags : Flags = record { assert = assert; zero_fill = z; user = u } in
      let pages = (pool_of flags p).base + pgsize * i in
      let p' = with_map flags p b in
      IsPalloc p
      → IsFirst (pool_of flags p).used_map 0 cnt false i
      → IsBitmap b
      → b.bit_cnt ≡ (pool_of flags p).used_map.bit_cnt
      → ((j : ℕ) → bit b j ≡ (if within i cnt j then true else bit (pool_of flags p).used_map j))
      → IsTaken flags cnt p i
          (if z then record p' { memory = fill p'.memory pages 0 (pgsize * cnt) } else p')
unfolding with_map fill
taken_lem true true assert cnt p i b v f z n g = record {
  first = f;
  valid = record {
    kernel = v.kernel;
    user = record { map = z; page = v.user.page; positive = v.user.positive };
    apart = v.apart;
  };
  size = n;
  base = refl;
  bits = g;
  other_kernel = λ e. refl;
  other_user = λ e. absurd (cc);
  filled = λ e. λ a. refl;
  kept = λ e. absurd (cc);
}
taken_lem true false assert cnt p i b v f z n g = record {
  first = f;
  valid = record {
    kernel = v.kernel;
    user = record { map = z; page = v.user.page; positive = v.user.positive };
    apart = v.apart;
  };
  size = n;
  base = refl;
  bits = g;
  other_kernel = λ e. refl;
  other_user = λ e. absurd (cc);
  filled = λ e. absurd (cc);
  kept = λ e. refl;
}
taken_lem false true assert cnt p i b v f z n g = record {
  first = f;
  valid = record {
    kernel = record { map = z; page = v.kernel.page; positive = v.kernel.positive };
    user = v.user;
    apart = omega (arith, v.apart, n);
  };
  size = n;
  base = refl;
  bits = g;
  other_kernel = λ e. absurd (cc);
  other_user = λ e. refl;
  filled = λ e. λ a. refl;
  kept = λ e. absurd (cc);
}
taken_lem false false assert cnt p i b v f z n g = record {
  first = f;
  valid = record {
    kernel = record { map = z; page = v.kernel.page; positive = v.kernel.positive };
    user = v.user;
    apart = omega (arith, v.apart, n);
  };
  size = n;
  base = refl;
  bits = g;
  other_kernel = λ e. absurd (cc);
  other_user = λ e. refl;
  filled = λ e. absurd (cc);
  kept = λ e. refl;
}

with_map_same :
    (u z assert : Bool) (p : Palloc)
    → let flags : Flags = record { assert = assert; zero_fill = z; user = u } in
      with_map flags p (pool_of flags p).used_map ≡ p
unfolding with_map
with_map_same true z assert p = refl
with_map_same false z assert p = refl

-- With valid pools, the user pool behind the kernel pool, and a count above 0,
-- palloc_get_multiple either returns the address of the first run of so many free pages of the
-- pool that the flags name, which are in use then and were zeroed if the flags say so, while the
-- other pages, the other pool and the rest of memory stay; or there is no such run, and it
-- returns a null pointer and changes nothing, or panics if the flags say so.
pub get_multiple-cases :
    (flags : Flags) (cnt : ℕ) (p : Palloc)
    → IsPalloc p
    → 0 < cnt
    → ((i : ℕ) × (p' : Palloc) × (get_multiple flags cnt p
          ≡ some ((pool_of flags p).base + pgsize * i, p'))
        × IsTaken flags cnt p i p')
      ⊎ (Nowhere (pool_of flags p).used_map 0 cnt false
          × (get_multiple flags cnt p ≡ (if flags.assert then none else some (0, p))))
unfolding get_multiple
get_multiple-cases flags cnt p v h =
    let some_pages : (cnt == 0) ≡ false = ground arith in
    let pool = pool_of-IsPool flags p v in
    elim (scan_and_flip-cases (pool_of flags p).used_map 0 cnt false pool.map (omega arith)) [
      | inl (e, m) ↦ inr (
        m,
        rw (get_multiple, some_pages, e)
            (ap (λ q. if flags.assert then none else some (0, q))
              (with_map_same flags.user flags.zero_fill flags.assert p)),
      )
      | inr (i, b, e, f, z, n, g) ↦ inl (
        i,
        _,
        rw (get_multiple, some_pages, e) refl,
        taken_lem flags.user flags.zero_fill flags.assert cnt p i b v f z n g,
      )
    ]

free_in-undo :
    (pool : Pool) (b : Bitmap) (i cnt : ℕ)
    → pool.base % 4096 ≡ 0
    → IsBitmap pool.used_map
    → pool.used_map.bit_cnt ≡ b.bit_cnt
    → IsFirst b 0 cnt false i
    → ((j : ℕ) → bit pool.used_map j ≡ (if within i cnt j then true else bit b j))
    → (c : Bitmap) × (free_in pool (pool.base + pgsize * i) cnt ≡ some c)
      × IsBitmap c
      × SameBits b c
unfolding free_in
free_in-undo pool b i cnt a z n f g =
    let idx : pg_no (pool.base + pgsize * i) - pg_no pool.base ≡ i = omega arith in
    let (c, e, z', s) = undo b pool.used_map i cnt z n f.inside f.group g in
    let full =
      all_bits-true pool.used_map i cnt z (omega (arith, n, f.inside))
        (λ j l r. g j ∙ rw (inside_range i cnt j l r) refl) in
    (c, rw (free_in, idx, full) (rw idx e), z', s)
  where
    inside_range : (i cnt j : ℕ) → i ≤ j → j < i + cnt → within i cnt j ≡ true
    inside_range i cnt j p q = ground arith

-- The map of the pool is as before, up to the bits that it holds.
abbrev pub SamePages : Flags → Palloc → Palloc → Type 0
SamePages flags p p' = SameBits (pool_of flags p).used_map (pool_of flags p').used_map

free_taken :
    (u z assert : Bool) (cnt i : ℕ) (p p' : Palloc)
    → let flags : Flags = record { assert = assert; zero_fill = z; user = u } in
      IsPalloc p
      → 0 < cnt
      → IsTaken flags cnt p i p'
      → (q : Palloc) × (free_multiple ((pool_of flags p).base + pgsize * i) cnt p' ≡ some q)
        × SamePages flags p q
unfolding free_multiple page_from_pool
free_taken true z assert cnt i p p' v h t =
    let (c, e, w, s) =
      free_in-undo p'.user_pool p.user_pool.used_map i cnt t.valid.user.page t.valid.user.map t.size
        t.first t.bits in
    let pages = p'.user_pool.base + pgsize * i in
    let aligned : (pg_ofs pages == 0) ≡ true = ground (arith, t.valid.user.page) in
    let given : (pages == 0 || cnt == 0) ≡ false = ground (arith, t.valid.user.positive) in
    let outside : page_from_pool p'.kernel_pool pages ≡ false = ground (arith, t.valid.apart) in
    let found : page_from_pool p'.user_pool pages ≡ true =
      ground (arith, t.valid.user.page, t.first.inside, t.size) in
    let q : Palloc = record p' {
      user_pool = record { used_map = c; base = p'.user_pool.base };
      memory = fill p'.memory pages 0xcc (pgsize * cnt);
    } in
    (
      q,
      subst (λ b. free_multiple (b + pgsize * i) cnt p' ≡ some q) t.base
          (rw (free_multiple, aligned, given, outside, found, e) refl),
      s,
    )
free_taken false z assert cnt i p p' v h t =
    let (c, e, w, s) =
      free_in-undo p'.kernel_pool p.kernel_pool.used_map i cnt t.valid.kernel.page
        t.valid.kernel.map t.size t.first t.bits in
    let pages = p'.kernel_pool.base + pgsize * i in
    let aligned : (pg_ofs pages == 0) ≡ true = ground (arith, t.valid.kernel.page) in
    let given : (pages == 0 || cnt == 0) ≡ false = ground (arith, t.valid.kernel.positive) in
    let found : page_from_pool p'.kernel_pool pages ≡ true =
      ground (arith, t.valid.kernel.page, t.first.inside, t.size) in
    let q : Palloc = record p' {
      kernel_pool = record { used_map = c; base = p'.kernel_pool.base };
      memory = fill p'.memory pages 0xcc (pgsize * cnt);
    } in
    (
      q,
      subst (λ b. free_multiple (b + pgsize * i) cnt p' ≡ some q) t.base
          (rw (free_multiple, aligned, given, found, e) refl),
      s,
    )

same_result :
    (a b : ℕ) (p q : Palloc)
    → ◌≡◌ {A = Option (ℕ × Palloc)} (some (a, p)) (some (b, q))
    → (a ≡ b) × (p ≡ q)
same_result a b p q e = (cc, cc)

null_result :
    (assert : Bool) (a : ℕ) (p q : Palloc)
    → 0 < a
    → ◌≡◌ {A = Option (ℕ × Palloc)} (some (a, q)) (if assert then none else some (0, p))
    → ⊥
null_result true a p q h e = cc
null_result false a p q h e = absurd (ground (arith, same_result a 0 q p e))

-- With valid pools, the user pool behind the kernel pool, and a count above 0, pages that
-- palloc_get_multiple has returned can be given back by palloc_free_multiple, and the pool then
-- has the same pages in use as before.
pub free_multiple-get_multiple :
    (flags : Flags) (cnt pages : ℕ) (p p' : Palloc)
    → IsPalloc p
    → 0 < cnt
    → 0 < pages
    → get_multiple flags cnt p ≡ some (pages, p')
    → (q : Palloc) × (free_multiple pages cnt p' ≡ some q) × SamePages flags p q
free_multiple-get_multiple flags cnt pages p p' v h a e =
    elim (get_multiple-cases flags cnt p v h) [
      | inr (m, r) ↦ absurd (null_result flags.assert pages p p' a (sym e ∙ r))
      | inl (i, c, r, t) ↦
          let (x, y) = same_result pages ((pool_of flags p).base + pgsize * i) p' c (sym e ∙ r) in
          let (q, f, s) = free_taken flags.user flags.zero_fill flags.assert cnt i p c v h t in
          (q, ap (λ n. free_multiple n cnt p') x ∙ ap (free_multiple _ cnt) y ∙ f, s)
    ]
