-- ===== src/Pintos/Examples/InodeTests.antt =====
-- Files at concrete inputs.
use group.Shared.{
  ℕ, ◌-◌, ◌≡◌, refl, true, false, none, some, List, [], ◌∷◌, arith, replicate, length-replicate,
  values, at, overwrite,
}
use group.Pintos.Bitmap.{elem_cnt}
use group.Pintos.FreeMap.{allocate}
use group.Pintos.Inode.{
  Disk, Inode, block_write, encode, decode, bytes_to_sectors, chunk_size, read_at, write_at, min_of,
}
use group.Pintos.Inode.Bytes.{IsDisk, byte_at, address, extent}
use group.Pintos.Inode.Reads.{read_at-values}
use group.Pintos.Inode.Chunks.{IsWritten}
use group.Pintos.Inode.Writes.{write_at-IsWritten, read_at-write_at}
use group.Pintos.Inode.Codec.{decode-encode}
use group.Pintos.Inodes.{
  FileSystem, zero_loop, find, create, inode_open, deny_write, close, remove, with_open_inodes,
}
use group.Pintos.Inodes.Table.{IsTable}
use group.Pintos.Inodes.Life.{opening, denying, Steps, done, after, steps-IsTable}
use group.Pintos.Inodes.Create.{fresh, Creates, create-cases}
use group.Pintos.Inodes.Free.{IsGone}
use group.Pintos.Inodes.Files.{IsReady, read_at-create, close-create}

abbrev blank : Disk
blank s = replicate 512 0

blank-IsDisk : IsDisk blank
blank-IsDisk s = length-replicate {A = ℕ} 512 0

-- A file of 1000 bytes from sector 5 on, and one that must not be written.
abbrev file : Inode
file = record {
  sector = 4;
  open_cnt = 1;
  removed = false;
  deny_write_cnt = 0;
  info = record { start = 5; length = 1000; magic = 0x494e4f44 };
}

abbrev denied : Inode
denied = record {
  sector = 4;
  open_cnt = 1;
  removed = false;
  deny_write_cnt = 1;
  info = record { start = 5; length = 1000; magic = 0x494e4f44 };
}

abbrev letters : List ℕ
letters = 65 ∷ 66 ∷ 67 ∷ []

write_denied : write_at true blank denied letters 3 511 ≡ some (0, blank)
unfolding write_at
write_denied = refl

chunk_end : chunk_size file.info 3 511 ≡ 1
unfolding chunk_size
chunk_end = refl

read_at-values_example :
    read_at true blank file 600 500
    ≡ some (values (byte_at blank) (address file.info 500) (extent file.info 600 500))
read_at-values_example = read_at-values blank file 600 500 blank-IsDisk

-- Across the end of a sector.
write_at-IsWritten_example :
    (disk : Disk) × (write_at true blank file letters 3 511 ≡ some (extent file.info 3 511, disk))
    × IsWritten blank disk (address file.info 511) (extent file.info 3 511) letters
write_at-IsWritten_example =
    write_at-IsWritten blank file letters 3 511 blank-IsDisk refl (omega arith)

abbrev lettered : Disk
lettered = (write_at-IsWritten blank file letters 3 511 blank-IsDisk refl (omega arith)).0

read_at-write_at_example : read_at true lettered file 2 512 ≡ some (values (at letters) 1 2)
read_at-write_at_example =
    read_at-write_at blank lettered file letters 3 511 3 512 2 blank-IsDisk (omega arith)
      (write_at-IsWritten blank file letters 3 511 blank-IsDisk refl (omega arith)).1 (omega arith)
      (omega arith)

decode-encode_example : decode (encode file.info) ≡ file.info
decode-encode_example = decode-encode file.info (omega arith, omega arith, omega arith)

-- Sectors 0 to 3 are in use: the inode of the free map is in sector 0, and its 8 bytes are in sector 2.
abbrev map_inode : Inode
map_inode = record {
  sector = 0;
  open_cnt = 1;
  removed = false;
  deny_write_cnt = 0;
  info = record { start = 2; length = 8; magic = 0x494e4f44 };
}

abbrev fs : FileSystem
fs = record {
  disk = blank;
  map = record { bit_cnt = 40; bits = 15 ∷ 0 ∷ [] };
  free_map_file = some 0;
  open_inodes = map_inode ∷ [];
}

-- The free map is in its file, then the inode is in sector 3, and its data from sector 4 on.
abbrev stored : Disk
stored = block_write blank 2 (overwrite (blank 2) 0 (63 ∷ 0 ∷ 0 ∷ 0 ∷ 0 ∷ 0 ∷ 0 ∷ 0 ∷ []))

abbrev fs_created : FileSystem
fs_created = record {
  disk = zero_loop (block_write stored 3 (encode (fresh 4 1000))) 4 2;
  map = record { bit_cnt = 40; bits = 63 ∷ 0 ∷ [] };
  free_map_file = some 0;
  open_inodes = map_inode ∷ [];
}

fs-IsReady : IsReady fs 3 1000
unfolding find elem_cnt
fs-IsReady = record {
  map_valid = refl;
  small = omega arith;
  short = omega arith;
  inside = omega arith;
  used = refl;
  closed = refl;
}

create_3 : create true true fs 3 1000 ≡ some (true, fs_created)
unfolding create allocate bytes_to_sectors
create_3 = refl

read_at-create_example :
    (fs2 : FileSystem) × (i : Inode) × (inode_open true fs_created 3 ≡ (true, fs2))
    × (find 3 fs2.open_inodes ≡ some i)
    × (read_at true fs2.disk i 600 700 ≡ some (replicate (min_of 600 (1000 - 700)) 0))
read_at-create_example =
    read_at-create true fs fs_created 3 1000 600 700 fs-IsReady blank-IsDisk create_3

find_map : find 0 fs.open_inodes ≡ some map_inode
unfolding find
find_map = refl

close-create_example :
    (fs2 fs3 : FileSystem) × (inode_open true fs_created 3 ≡ (true, fs2))
    × (remove fs2 3 ≡ some fs3)
    × IsGone map_inode fs fs_created 3 (close true fs3 3)
close-create_example =
    close-create fs fs_created 3 1000 0 map_inode fs-IsReady blank-IsDisk refl find_map refl
      create_3

abbrev fs_open : FileSystem
fs_open = (inode_open true fs 4).1

abbrev fs_denied : FileSystem
fs_denied =
    with_open_inodes
      (record {
        sector = 4;
        open_cnt = 1;
        removed = false;
        deny_write_cnt = 1;
        info = decode (blank 4);
      }
        ∷ map_inode
        ∷ [])
      fs

deny_4 : deny_write fs_open 4 ≡ some fs_denied
unfolding deny_write inode_open
deny_4 = refl

deny_twice : deny_write fs_denied 4 ≡ none
unfolding deny_write
deny_twice = refl

calls : Steps fs fs_denied
unfolding inode_open
calls =
    after fs fs_open fs_denied (opening true fs fs_open 4 true open_4)
      (after fs_open fs_denied fs_denied (denying fs_open fs_denied 4 deny_4) (done fs_denied))
  where
    open_4 : inode_open true fs 4 ≡ (true, fs_open)
    open_4 = refl

steps-IsTable_example : IsTable fs_denied.open_inodes
steps-IsTable_example = steps-IsTable fs fs_denied calls (tt, (omega arith, omega arith), tt)

create-cases_example : Creates false fs 3 1000 (create true false fs 3 1000)
create-cases_example = create-cases false fs 3 1000 fs-IsReady.map_valid fs-IsReady.used
