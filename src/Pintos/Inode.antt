-- ===== src/Pintos/Inode.antt =====
-- filesys/inode.c: files on a device of sectors, and the open inodes. A device is the function from a
-- sector to its 512 bytes; the sectors that are used are taken to be on it. Sizes and offsets are taken
-- not to be negative. `none` is a failed ASSERT.
pub mod Bytes
pub mod Reads
pub mod Chunks
pub mod Writes
pub mod Total
pub mod Codec
use group.Shared.{
  ℕ, zero, suc, ◌+◌, ◌-◌, ◌*◌, ◌/◌, ◌%◌, ◌^◌, Bool, true, false, ◌&&◌, ◌||◌, Option, none, some,
  List, [], ◌∷◌, ◌++◌, ltb, ◌==◌, if◌then◌else◌, take, drop, overwrite, replicate, at, length,
}

abbrev pub sector_size : ℕ
sector_size = 512

abbrev pub inode_magic : ℕ
inode_magic = 0x494e4f44

abbrev pub Disk : Type 0
Disk = ℕ → List ℕ

-- `block_write`
unfoldable pub block_write : Disk → ℕ → List ℕ → Disk
block_write disk sector bytes s = if s == sector then bytes else disk s

-- `struct inode_disk`, without what is not used.
pub record InodeDisk : Type 0 where
  pub start : ℕ
  pub length : ℕ
  pub magic : ℕ

-- `struct inode`
pub record Inode : Type 0 where
  pub sector : ℕ
  pub open_cnt : ℕ
  pub removed : Bool
  pub deny_write_cnt : ℕ
  pub info : InodeDisk

-- A 32-bit field in memory, its low byte first.
unfoldable pub encode_word : ℕ → List ℕ
encode_word n = n % 256 ∷ n / 256 % 256 ∷ n / 65536 % 256 ∷ n / 16777216 % 256 ∷ []

unfoldable pub decode_word : List ℕ → ℕ → ℕ
decode_word l o = at l o + 256 * at l (o + 1) + 65536 * at l (o + 2) + 16777216 * at l (o + 3)

unfoldable pub encode : InodeDisk → List ℕ
unfolding encode_word
encode d = encode_word d.start ++ encode_word d.length ++ encode_word d.magic ++ replicate 500 0

unfoldable pub decode : List ℕ → InodeDisk
unfolding decode_word
decode l = record { start = decode_word l 0; length = decode_word l 4; magic = decode_word l 8 }

unfoldable pub bytes_to_sectors : ℕ → ℕ
bytes_to_sectors size = (size + 511) / sector_size

-- For a byte that is in the file.
unfoldable pub byte_to_sector : InodeDisk → ℕ → ℕ
byte_to_sector d pos = d.start + pos / sector_size

abbrev pub min_of : ℕ → ℕ → ℕ
min_of a b = if ltb a b then a else b

-- The bytes that a round of the loops copies. Beyond the end of the file it is not positive in the source
-- and 0 here.
unfoldable pub chunk_size : InodeDisk → ℕ → ℕ → ℕ
chunk_size d size offset =
    min_of size (min_of (d.length - offset) (sector_size - offset % sector_size))

-- The loop of `inode_read_at`: the bytes that it puts into the buffer, from its current place on.
-- `memory` tells whether there is memory for the bounce buffer.
unfoldable pub read_loop : Bool → Disk → InodeDisk → ℕ → ℕ → ℕ → Option (List ℕ)
unfolding chunk_size byte_to_sector
read_loop memory disk d zero size offset = none
read_loop memory disk d (suc fuel) size offset =
    let chunk = chunk_size d size offset in
    let sector_ofs = offset % sector_size in
    let bytes = disk (byte_to_sector d offset) in
    let rest = read_loop memory disk d fuel (size - chunk) (offset + chunk) in
    if size == 0
    then some []
    else if chunk == 0
    then some []
    else if sector_ofs == 0 && chunk == sector_size
    then elim rest [ none ↦ none | some l ↦ some (bytes ++ l) ]
    else if memory
    then elim rest [ none ↦ none | some l ↦ some (take chunk (drop sector_ofs bytes) ++ l) ]
    else some []

-- The bytes read, whose number is what the function returns. Every round takes a byte at least.
unfoldable pub read_at : Bool → Disk → Inode → ℕ → ℕ → Option (List ℕ)
unfolding read_loop
read_at memory disk inode size offset = read_loop memory disk inode.info (suc size) size offset

-- The loop of `inode_write_at`, from the current place of the buffer on, with the number of bytes written.
unfoldable pub write_loop : Bool → InodeDisk → ℕ → Disk → List ℕ → ℕ → ℕ → ℕ → Option (ℕ × Disk)
unfolding chunk_size byte_to_sector block_write
write_loop memory d zero disk buffer size offset written = none
write_loop memory d (suc fuel) disk buffer size offset written =
    let chunk = chunk_size d size offset in
    let sector = byte_to_sector d offset in
    let sector_ofs = offset % sector_size in
    let sector_left = sector_size - sector_ofs in
    let bounce =
      if ltb 0 sector_ofs || ltb chunk sector_left then disk sector else replicate sector_size 0 in
    let next = λ (disk' : Disk).
      write_loop memory d fuel disk' (drop chunk buffer) (size - chunk) (offset + chunk)
        (written + chunk) in
    if size == 0
    then some (written, disk)
    else if chunk == 0
    then some (written, disk)
    else if sector_ofs == 0 && chunk == sector_size
    then next (block_write disk sector (take sector_size buffer))
    else if memory
    then next (block_write disk sector (overwrite bounce sector_ofs (take chunk buffer)))
    else some (written, disk)

unfoldable pub write_at : Bool → Disk → Inode → List ℕ → ℕ → ℕ → Option (ℕ × Disk)
unfolding write_loop
write_at memory disk inode buffer size offset =
    if ltb 0 inode.deny_write_cnt
    then some (0, disk)
    else write_loop memory inode.info (suc size) disk buffer size offset 0
