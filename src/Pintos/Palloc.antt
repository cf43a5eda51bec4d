-- ===== src/Pintos/Palloc.antt =====
-- threads/palloc.c: two pools of pages. `none` is a failed ASSERT or a PANIC, and the null pointer is the
-- address 0. The locks of the pools are taken and given back within a call.
pub mod Pages
use group.Shared.{
  ℕ, ◌+◌, ◌-◌, ◌*◌, ◌/◌, ◌%◌, Bool, true, false, ◌&&◌, ◌||◌, Option, none, some, List, ltb, leb,
  ◌==◌, if◌then◌else◌,
}
use group.Pintos.Bitmap.{Bitmap, buf_size, all_bits, set_multiple, set_all, scan_and_flip}

abbrev pub pgsize : ℕ
pgsize = 4096

abbrev pub pg_ofs : ℕ → ℕ
pg_ofs va = va % pgsize

abbrev pub pg_no : ℕ → ℕ
pg_no va = va / pgsize

-- `struct pool`, without its lock.
pub record Pool : Type 0 where
  pub used_map : Bitmap
  pub base : ℕ

-- The two pools, and the bytes of memory.
pub record Palloc : Type 0 where
  pub kernel_pool : Pool
  pub user_pool : Pool
  pub memory : ℕ → ℕ

-- `enum palloc_flags`
pub record Flags : Type 0 where
  pub assert : Bool
  pub zero_fill : Bool
  pub user : Bool

-- `memset`
unfoldable pub fill : (ℕ → ℕ) → ℕ → ℕ → ℕ → ℕ → ℕ
fill memory start byte size a = if leb start a && ltb a (start + size) then byte else memory a

unfoldable pub with_map : Flags → Palloc → Bitmap → Palloc
with_map flags p b =
    if flags.user
    then record p { user_pool = record { used_map = b; base = p.user_pool.base } }
    else record p { kernel_pool = record { used_map = b; base = p.kernel_pool.base } }

abbrev pub pool_of : Flags → Palloc → Pool
pool_of flags p = if flags.user then p.user_pool else p.kernel_pool

unfoldable pub get_multiple : Flags → ℕ → Palloc → Option (ℕ × Palloc)
unfolding scan_and_flip with_map fill
get_multiple flags page_cnt p =
    if page_cnt == 0
    then some (0, p)
    else elim (scan_and_flip (pool_of flags p).used_map 0 page_cnt false) [
      | none ↦ none
      | some (none, b) ↦ if flags.assert then none else some (0, with_map flags p b)
      | some (some page_idx, b) ↦
          let pages = (pool_of flags p).base + pgsize * page_idx in
          let p' = with_map flags p b in
          some (
            pages,
            if flags.zero_fill
                then record p' { memory = fill p'.memory pages 0 (pgsize * page_cnt) }
                else p',
          )
    ]

unfoldable pub get_page : Flags → Palloc → Option (ℕ × Palloc)
unfolding get_multiple
get_page flags p = get_multiple flags 1 p

unfoldable pub page_from_pool : Pool → ℕ → Bool
page_from_pool pool page =
    leb (pg_no pool.base) (pg_no page) && ltb (pg_no page) (pg_no pool.base + pool.used_map.bit_cnt)

-- The part of `palloc_free_multiple` on the pool that was found.
unfoldable pub free_in : Pool → ℕ → ℕ → Option Bitmap
unfolding all_bits set_multiple
free_in pool pages page_cnt =
    let page_idx = pg_no pages - pg_no pool.base in
    elim (all_bits pool.used_map page_idx page_cnt) [
      | some true ↦ set_multiple pool.used_map page_idx page_cnt false
      | _ ↦ none
    ]

unfoldable pub free_multiple : ℕ → ℕ → Palloc → Option Palloc
unfolding page_from_pool free_in fill
free_multiple pages page_cnt p =
    if pg_ofs pages == 0
    then (if pages == 0 || page_cnt == 0
        then some p
        else (let memory = fill p.memory pages 0xcc (pgsize * page_cnt) in
            if page_from_pool p.kernel_pool pages
            then elim (free_in p.kernel_pool pages page_cnt) [
              | none ↦ none
              | some b ↦ some (record p {
                kernel_pool = record { used_map = b; base = p.kernel_pool.base };
                memory = memory;
              })
            ]
            else if page_from_pool p.user_pool pages
            then elim (free_in p.user_pool pages page_cnt) [
              | none ↦ none
              | some b ↦ some (record p {
                user_pool = record { used_map = b; base = p.user_pool.base };
                memory = memory;
              })
            ]
            else none))
    else none

unfoldable pub free_page : ℕ → Palloc → Option Palloc
unfolding free_multiple
free_page page p = free_multiple page 1 p

-- `contents` is what the memory at the base holds, as the words of the map.
unfoldable pub init_pool : (ℕ → List ℕ) → ℕ → ℕ → Option Pool
unfolding buf_size set_all
init_pool contents base page_cnt =
    let bm_pages = (buf_size page_cnt + 4095) / pgsize in
    if ltb page_cnt bm_pages
    then none
    else elim (set_all
        (record { bit_cnt = page_cnt - bm_pages; bits = contents (page_cnt - bm_pages) }) false) [
          | none ↦ none
          | some b ↦ some (record { used_map = b; base = base + bm_pages * pgsize })
        ]

-- `start` is the kernel address of the first megabyte.
unfoldable pub init : (ℕ → List ℕ) → (ℕ → List ℕ) → (ℕ → ℕ) → ℕ → ℕ → ℕ → Option Palloc
unfolding init_pool
init kernel_contents user_contents memory start init_ram_pages user_page_limit =
    let free_pages = init_ram_pages - 256 in
    let half = free_pages / 2 in
    let user_pages = if ltb user_page_limit half then user_page_limit else half in
    let kernel_pages = free_pages - user_pages in
    elim (init_pool kernel_contents start kernel_pages) [
      | none ↦ none
      | some kernel_pool ↦
          elim (init_pool user_contents (start + kernel_pages * pgsize) user_pages) [
            | none ↦ none
            | some user_pool ↦
                some (record { kernel_pool = kernel_pool; user_pool = user_pool; memory = memory })
          ]
    ]
