-- ===== src/Pintos/File.antt =====
-- filesys/file.c: an open file is an inode with a position. A pointer to an inode is its sector, as in the list
-- of open inodes, and is not NULL. Positions are taken not to be negative. `none` is a failed ASSERT or a use of a freed inode.
pub mod Position
use group.Shared.{ℕ, ◌+◌, Bool, true, false, Option, none, some, List, length, if◌then◌else◌}
use group.Pintos.Inode.{Disk, Inode, read_at, write_at}
use group.Pintos.Inodes.{FileSystem, find, reopen, close, deny_write, allow_write}

-- `struct file`
pub record File : Type 0 where
  pub inode : ℕ
  pub pos : ℕ
  pub deny_write : Bool

abbrev with_disk : Disk → FileSystem → FileSystem
with_disk disk fs = record fs { disk = disk }

abbrev with_deny_write : Bool → File → File
with_deny_write b f = record { inode = f.inode; pos = f.pos; deny_write = b }

abbrev pub with_pos : ℕ → File → File
with_pos pos f = record { inode = f.inode; pos = pos; deny_write = f.deny_write }

-- The inner `none` is a null pointer, for which `memory` is false. `bounce` is that of `close`.
unfoldable pub file_open : Bool → Bool → FileSystem → ℕ → Option (Option File × FileSystem)
unfolding close
file_open memory bounce fs inode =
    if memory
    then some (some (record { inode = inode; pos = 0; deny_write = false }), fs)
    else elim (close bounce fs inode) [ none ↦ none | some fs' ↦ some (none, fs') ]

unfoldable pub file_reopen : Bool → Bool → FileSystem → File → Option (Option File × FileSystem)
unfolding file_open reopen
file_reopen memory bounce fs f = file_open memory bounce (reopen fs f.inode) f.inode

unfoldable pub file_deny_write : FileSystem → File → Option (File × FileSystem)
unfolding deny_write
file_deny_write fs f = if f.deny_write then some (f, fs) else elim (deny_write fs f.inode) [
  | none ↦ none
  | some fs' ↦ some (with_deny_write true f, fs')
]

unfoldable pub file_allow_write : FileSystem → File → Option (File × FileSystem)
unfolding allow_write
file_allow_write fs f =
    if f.deny_write
    then elim (allow_write fs f.inode) [
      | none ↦ none
      | some fs' ↦ some (with_deny_write false f, fs')
    ]
    else some (f, fs)

unfoldable pub file_close : Bool → FileSystem → File → Option FileSystem
unfolding file_allow_write close
file_close bounce fs f = elim (file_allow_write fs f) [
  | none ↦ none
  | some (f', fs') ↦ close bounce fs' f'.inode
]

-- The bytes read, and the file with its new position.
unfoldable pub file_read : Bool → FileSystem → File → ℕ → Option (List ℕ × File)
unfolding find read_at
file_read memory fs f size = elim (find f.inode fs.open_inodes) [
  | none ↦ none
  | some i ↦ elim (read_at memory fs.disk i size f.pos) [
    | none ↦ none
    | some l ↦ some (l, with_pos (f.pos + length l) f)
  ]
]

-- The number of bytes written.
unfoldable pub file_write : Bool → FileSystem → File → List ℕ → ℕ → Option (ℕ × File × FileSystem)
unfolding find write_at
file_write memory fs f buffer size = elim (find f.inode fs.open_inodes) [
  | none ↦ none
  | some i ↦ elim (write_at memory fs.disk i buffer size f.pos) [
    | none ↦ none
    | some (n, disk) ↦ some (n, with_pos (f.pos + n) f, with_disk disk fs)
  ]
]

unfoldable pub file_seek : File → ℕ → File
file_seek f new_pos = with_pos new_pos f

unfoldable pub file_tell : File → ℕ
file_tell f = f.pos
