-- ===== src/Pintos/Examples/BitmapTests.antt =====
-- Bitmaps, the free map and the page allocator at concrete inputs.
use group.Shared.{
  ℕ, ◌+◌, ◌*◌, ◌<◌, ◌≡◌, ◌⊎◌, refl, true, false, none, some, [], ◌∷◌, ◌==◌, if◌then◌else◌, ltb,
  arith, length, replicate, overwrite,
}
use group.Pintos.Bitmap.{Bitmap, elem_cnt, assign, test, count_bits, scan, scan_and_flip}
use group.Pintos.Bitmap.Bit.{bit, IsBitmap, Makes, assign-Makes}
use group.Pintos.Bitmap.Ranges.{tally, count_bits-tally, within}
use group.Pintos.Bitmap.Scan.{IsFirst, Nowhere, scan_and_flip-cases}
use group.Pintos.Inode.{Disk, Inode, block_write}
use group.Pintos.FreeMap.{init, allocate, release}
use group.Pintos.FreeMap.Sectors.{SameBits, Allocates, allocate-cases, release-allocate, init-bits}
use group.Pintos.Palloc.{Palloc, Flags, pgsize, pool_of, get_multiple, free_multiple}
use group.Pintos.Palloc.Pages.{
  IsPalloc, IsTaken, SamePages, get_multiple-cases, free_multiple-get_multiple,
}

-- 40 bits, of which 0 to 2 and 32 are set.
abbrev map : Bitmap
map = record { bit_cnt = 40; bits = 7 ∷ 1 ∷ [] }

map-IsBitmap : IsBitmap map
unfolding elem_cnt
map-IsBitmap = refl

test_32 : test map 32 ≡ some true
unfolding test
test_32 = refl

scan_30 : scan map 0 30 false ≡ some none
unfolding scan
scan_30 = refl

scan_29 : scan map 0 29 false ≡ some (some 3)
unfolding scan
scan_29 = refl

assign-Makes_example : Makes map (assign map 35 true) (λ j. if j == 35 then true else bit map j)
assign-Makes_example = assign-Makes map 35 true map-IsBitmap (omega arith)

count_bits-tally_example : count_bits map 2 31 true ≡ some (tally map 2 31 true)
count_bits-tally_example = count_bits-tally map 2 31 true map-IsBitmap (omega arith)

scan_and_flip-cases_example :
    ((scan_and_flip map 1 5 false ≡ some (none, map)) × Nowhere map 1 5 false)
    ⊎ ((i : ℕ) × (b : Bitmap) × (scan_and_flip map 1 5 false ≡ some (some i, b))
        × IsFirst map 1 5 false i
        × IsBitmap b
        × (b.bit_cnt ≡ 40)
        × ((j : ℕ) → bit b j ≡ (if within i 5 j then true else bit map j)))
scan_and_flip-cases_example = scan_and_flip-cases map 1 5 false map-IsBitmap (omega arith)

-- The file of a map has its 8 bytes in sector 2, and cannot be written without memory.
abbrev map_inode : Inode
map_inode = record {
  sector = 0;
  open_cnt = 1;
  removed = false;
  deny_write_cnt = 0;
  info = record { start = 2; length = 8; magic = 0x494e4f44 };
}

abbrev blank : Disk
blank s = replicate 512 0

allocate-cases_example :
    Allocates false
      (some (some map_inode))
      blank
      map
      2
      (allocate false (some (some map_inode)) blank map 2)
allocate-cases_example = allocate-cases false (some (some map_inode)) blank map 2 map-IsBitmap

-- Sectors 3 and 4 are taken.
abbrev taken : Bitmap
taken = record { bit_cnt = 40; bits = 31 ∷ 1 ∷ [] }

abbrev stored : Disk
stored = block_write blank 2 (overwrite (blank 2) 0 (31 ∷ 0 ∷ 0 ∷ 0 ∷ 1 ∷ 0 ∷ 0 ∷ 0 ∷ []))

allocates : allocate true (some (some map_inode)) blank map 2 ≡ some (some 3, taken, stored)
unfolding allocate
allocates = refl

release-allocate_example :
    (c : Bitmap) × (last : Disk) × (release true (some (some map_inode)) stored taken 3 2
      ≡ some (c, last))
    × IsBitmap c
    × SameBits map c
release-allocate_example =
    release-allocate true map_inode blank stored map taken 2 3 map-IsBitmap allocates

forty-elem_cnt : length {A = ℕ} (5 ∷ 6 ∷ []) ≡ elem_cnt 40
unfolding elem_cnt
forty-elem_cnt = refl

init-bits_example :
    (b : Bitmap) × (init true (some (5 ∷ 6 ∷ [])) 40 ≡ some b)
    × IsBitmap b
    × (b.bit_cnt ≡ 40)
    × ((j : ℕ) → j < 40 → bit b j ≡ ltb j 2)
init-bits_example = init-bits (5 ∷ 6 ∷ []) 40 forty-elem_cnt (omega arith)

abbrev pools : Palloc
pools = record {
  kernel_pool = record { used_map = map; base = 8192 };
  user_pool = record { used_map = map; base = 409600 };
  memory = λ a. a;
}

pools-IsPalloc : IsPalloc pools
unfolding elem_cnt
pools-IsPalloc = record {
  kernel = record { map = refl; page = refl; positive = omega arith };
  user = record { map = refl; page = refl; positive = omega arith };
  apart = omega arith;
}

abbrev user_page : Flags
user_page = record { assert = false; zero_fill = true; user = true }

get_multiple-cases_example :
    ((i : ℕ) × (p : Palloc) × (get_multiple user_page 3 pools
        ≡ some ((pool_of user_page pools).base + pgsize * i, p))
      × IsTaken user_page 3 pools i p)
    ⊎ (Nowhere map 0 3 false × (get_multiple user_page 3 pools ≡ some (0, pools)))
get_multiple-cases_example = get_multiple-cases user_page 3 pools pools-IsPalloc (omega arith)

abbrev pools_after : Palloc
pools_after = record {
  kernel_pool = record { used_map = map; base = 8192 };
  user_pool = record { used_map = record { bit_cnt = 40; bits = 63 ∷ 1 ∷ [] }; base = 409600 };
  memory = λ a. a;
}

abbrev dirty : Flags
dirty = record { assert = false; zero_fill = false; user = true }

gets : get_multiple dirty 3 pools ≡ some (421888, pools_after)
unfolding get_multiple
gets = refl

free_multiple-get_multiple_example :
    (q : Palloc) × (free_multiple 421888 3 pools_after ≡ some q) × SamePages dirty pools q
free_multiple-get_multiple_example =
    free_multiple-get_multiple dirty 3 421888 pools pools_after pools-IsPalloc (omega arith)
      (omega arith) gets
