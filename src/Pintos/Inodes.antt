-- ===== src/Pintos/Inodes.antt =====
-- filesys/inode.c: creation of inodes, and the list of the open ones. A pointer to an inode is the sector of
-- the inode: no sector is twice in the list, and an inode that is not in the list is freed.
-- `none` is a failed ASSERT, or a use of a freed inode.
pub mod Create
pub mod Table
pub mod Life
pub mod Free
pub mod Files
use group.Shared.{
  ℕ, zero, suc, ◌+◌, ◌-◌, Bool, true, false, Option, none, some, List, [], ◌∷◌, ltb, leb, ◌==◌,
  if◌then◌else◌, replicate,
}
use group.Pintos.Bitmap.{Bitmap}
use group.Pintos.FreeMap.{MapFile, allocate, release}
use group.Pintos.Inode.{
  Disk, InodeDisk, Inode, inode_magic, sector_size, block_write, encode, decode, bytes_to_sectors,
}

-- The device, the free map, the inode of `free_map_file` or none for NULL, and `open_inodes`.
pub record FileSystem : Type 0 where
  pub disk : Disk
  pub map : Bitmap
  pub free_map_file : Option ℕ
  pub open_inodes : List Inode

abbrev pub zeros : List ℕ
zeros = replicate sector_size 0

-- The loop of `inode_create`, from the current sector on.
unfoldable pub zero_loop : Disk → ℕ → ℕ → Disk
unfolding block_write
zero_loop disk sector zero = disk
zero_loop disk sector (suc n) = zero_loop (block_write disk sector zeros) (suc sector) n

unfoldable pub find : ℕ → List Inode → Option Inode
find sector [] = none
find sector (i ∷ l) = let rest = find sector l in if i.sector == sector then some i else rest

-- The inode of the file, none for NULL, or none if it is freed.
abbrev pub map_file : FileSystem → MapFile
map_file fs = elim fs.free_map_file [
  | none ↦ none
  | some sector ↦ some (find sector fs.open_inodes)
]

-- `memory` tells whether `calloc` succeeds, `bounce` is that of `inode_write_at` on the file of the map.
unfoldable pub create : Bool → Bool → FileSystem → ℕ → ℕ → Option (Bool × FileSystem)
unfolding allocate block_write encode zero_loop bytes_to_sectors find
create memory bounce fs sector len =
    let sectors = bytes_to_sectors len in
    if memory
    then elim (allocate bounce (map_file fs) fs.disk fs.map sectors) [
      | none ↦ none
      | some (none, map, disk) ↦ some (false, record fs { disk = disk; map = map })
      | some (some start, map, disk) ↦
          let d : InodeDisk = record { start = start; length = len; magic = inode_magic } in
          some (
            true,
            record fs {
              disk = zero_loop (block_write disk sector (encode d)) start sectors;
              map = map;
            },
          )
    ]
    else some (false, fs)

-- What is done to an inode of the list.
unfoldable pub update : (Inode → Inode) → ℕ → List Inode → List Inode
update f sector [] = []
update f sector (i ∷ l) =
    let rest = update f sector l in if i.sector == sector then f i ∷ l else i ∷ rest

-- `list_remove`
unfoldable pub remove_elem : ℕ → List Inode → List Inode
remove_elem sector [] = []
remove_elem sector (i ∷ l) =
    let rest = remove_elem sector l in if i.sector == sector then l else i ∷ rest

abbrev pub with_open_inodes : List Inode → FileSystem → FileSystem
with_open_inodes l fs = record fs { open_inodes = l }

abbrev pub with_open_cnt : ℕ → Inode → Inode
with_open_cnt n i = record {
  sector = i.sector;
  open_cnt = n;
  removed = i.removed;
  deny_write_cnt = i.deny_write_cnt;
  info = i.info;
}

abbrev pub with_deny_write_cnt : ℕ → Inode → Inode
with_deny_write_cnt n i = record {
  sector = i.sector;
  open_cnt = i.open_cnt;
  removed = i.removed;
  deny_write_cnt = n;
  info = i.info;
}

abbrev pub with_removed : Inode → Inode
with_removed i = record {
  sector = i.sector;
  open_cnt = i.open_cnt;
  removed = true;
  deny_write_cnt = i.deny_write_cnt;
  info = i.info;
}

unfoldable pub reopen : FileSystem → ℕ → FileSystem
unfolding update
reopen fs sector =
    with_open_inodes (update (λ i. with_open_cnt (suc i.open_cnt) i) sector fs.open_inodes) fs

-- The result is false where the function returns a null pointer.
unfoldable pub inode_open : Bool → FileSystem → ℕ → Bool × FileSystem
unfolding find reopen decode
inode_open memory fs sector = elim (find sector fs.open_inodes) [
  | some i ↦ (true, reopen fs sector)
  | none ↦
      let i : Inode = record {
        sector = sector;
        open_cnt = 1;
        removed = false;
        deny_write_cnt = 0;
        info = decode (fs.disk sector);
      } in
      if memory then (true, with_open_inodes (i ∷ fs.open_inodes) fs) else (false, fs)
]

-- The blocks of a removed inode.
unfoldable pub free_blocks : Bool → MapFile → Disk → Bitmap → Inode → Option (Bitmap × Disk)
unfolding release bytes_to_sectors
free_blocks bounce file disk map i = elim (release bounce file disk map i.sector 1) [
  | none ↦ none
  | some (map', disk') ↦
      release bounce file disk' map' i.info.start (bytes_to_sectors i.info.length)
]

-- The inode is out of the list but not yet freed when its blocks are.
unfoldable pub close : Bool → FileSystem → ℕ → Option FileSystem
unfolding find update remove_elem free_blocks
close bounce fs sector = elim (find sector fs.open_inodes) [
  | none ↦ none
  | some i ↦
      let rest = remove_elem sector fs.open_inodes in
      let lower = update (λ i. with_open_cnt (i.open_cnt - 1) i) sector fs.open_inodes in
      if i.open_cnt == 1
      then (if i.removed
          then elim (free_blocks bounce (map_file fs) fs.disk fs.map i) [
            | none ↦ none
            | some (map, disk) ↦ some (record fs { disk = disk; map = map; open_inodes = rest })
          ]
          else some (with_open_inodes rest fs))
      else some (with_open_inodes lower fs)
]

unfoldable pub remove : FileSystem → ℕ → Option FileSystem
unfolding find update
remove fs sector = elim (find sector fs.open_inodes) [
  | none ↦ none
  | some i ↦ some (with_open_inodes (update with_removed sector fs.open_inodes) fs)
]

unfoldable pub deny_write : FileSystem → ℕ → Option FileSystem
unfolding find update
deny_write fs sector = elim (find sector fs.open_inodes) [
  | none ↦ none
  | some i ↦
      let l = update (λ i. with_deny_write_cnt (suc i.deny_write_cnt) i) sector fs.open_inodes in
      if leb (suc i.deny_write_cnt) i.open_cnt then some (with_open_inodes l fs) else none
]

unfoldable pub allow_write : FileSystem → ℕ → Option FileSystem
unfolding find update
allow_write fs sector = elim (find sector fs.open_inodes) [
  | none ↦ none
  | some i ↦
      let l = update (λ i. with_deny_write_cnt (i.deny_write_cnt - 1) i) sector fs.open_inodes in
      if ltb 0 i.deny_write_cnt
      then (if leb i.deny_write_cnt i.open_cnt then some (with_open_inodes l fs) else none)
      else none
]
