-- ===== src/Pintos/FreeMap.antt =====
-- filesys/free-map.c: the sectors in use, a bitmap that is kept in a file too. `none` is a failed ASSERT or
-- PANIC, or a use of a file that is not there.
pub mod Sectors
pub mod Written
use group.Shared.{◌++◌, [], ◌∷◌, ◌==◌, ℕ, Bool, true, false, Option, none, some, List}
use group.Pintos.Inode.{Disk, Inode, encode_word, write_at}
use group.Pintos.Bitmap.{byte_cnt, Bitmap, mark, all_bits, set_multiple, scan_and_flip, create}

abbrev pub free_map_sector : ℕ
free_map_sector = 0

abbrev pub root_dir_sector : ℕ
root_dir_sector = 1

-- `memory` and `contents` are those of `bitmap_create`.
unfoldable pub init : Bool → Option (List ℕ) → ℕ → Option Bitmap
unfolding create mark
init memory contents sectors = elim (create memory contents sectors) [
  | none ↦ none
  | some b ↦ elim (mark b free_map_sector) [ none ↦ none | some b' ↦ mark b' root_dir_sector ]
]

-- The words of the map in memory, their low bytes first.
unfoldable pub bytes_of : List ℕ → List ℕ
unfolding encode_word
bytes_of [] = []
bytes_of (w ∷ ws) = encode_word w ++ bytes_of ws

-- `bitmap_write`, on the inode of the file. `bounce` tells whether `inode_write_at` has memory.
unfoldable pub write_map : Bool → Disk → Inode → Bitmap → Option (Bool × Disk)
unfolding write_at bytes_of byte_cnt
write_map bounce disk inode b =
    let size = byte_cnt b.bit_cnt in
    elim (write_at bounce disk inode (bytes_of b.bits) size 0) [
      | none ↦ none
      | some (written, disk') ↦ some (written == size, disk')
    ]

-- `free_map_file`: none for NULL, and else the inode of the file, none if it is freed.
abbrev pub MapFile : Type 0
MapFile = Option (Option Inode)

-- The first sector, none where the function returns false.
unfoldable pub allocate : Bool → MapFile → Disk → Bitmap → ℕ → Option (Option ℕ × Bitmap × Disk)
unfolding scan_and_flip set_multiple write_map
allocate bounce file disk b cnt = elim (scan_and_flip b 0 cnt false) [
  | none ↦ none
  | some (none, b') ↦ some (none, b', disk)
  | some (some sector, b') ↦ elim file [
    | none ↦ some (some sector, b', disk)
    | some none ↦ none
    | some (some i) ↦ elim (write_map bounce disk i b') [
      | none ↦ none
      | some (true, disk') ↦ some (some sector, b', disk')
      | some (false, disk') ↦ elim (set_multiple b' sector cnt false) [
        | none ↦ none
        | some b'' ↦ some (none, b'', disk')
      ]
    ]
  ]
]

-- Whether the file could be written is not looked at, but the file has to be there.
unfoldable pub release : Bool → MapFile → Disk → Bitmap → ℕ → ℕ → Option (Bitmap × Disk)
unfolding all_bits set_multiple write_map
release bounce file disk b sector cnt = elim (all_bits b sector cnt) [
  | none ↦ none
  | some false ↦ none
  | some true ↦ elim (set_multiple b sector cnt false) [
    | none ↦ none
    | some b' ↦ elim file [
      | none ↦ none
      | some none ↦ none
      | some (some i) ↦ elim (write_map bounce disk i b') [
        | none ↦ none
        | some (_, disk') ↦ some (b', disk')
      ]
    ]
  ]
]
