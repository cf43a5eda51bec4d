-- ===== src/Pintos/Directory.antt =====
-- filesys/directory.c: a directory is a file of entries of 20 bytes: 4 for the sector, 15 for the name, and one
-- that tells whether the entry is in use. Names are C strings without their NUL; the names in entries are taken
-- to end within the entry. `none` is a failed ASSERT or a loop without fuel.
pub mod Slots
pub mod Entry
pub mod Add
use group.Shared.{
  ℕ, zero, suc, ◌+◌, ◌-◌, ◌*◌, ◌%◌, Bool, true, false, not, ◌&&◌, ◌||◌, Option, none, some, List,
  [], ◌∷◌, ◌++◌, ltb, leb, ◌==◌, if◌then◌else◌, overwrite, at, length, take, drop,
}
use group.Pintos.Inode.{Disk, Inode, encode_word, decode_word, read_at, write_at}
use group.Pintos.Inodes.{FileSystem, find, inode_open, close, remove}

abbrev pub entry_size : ℕ
entry_size = 20

abbrev pub name_max : ℕ
name_max = 14

abbrev pub name_ofs : ℕ
name_ofs = 4

abbrev pub in_use_ofs : ℕ
in_use_ofs = 19

-- `struct dir`, whose inode is in memory.
pub record Dir : Type 0 where
  pub inode : Inode
  pub pos : ℕ

-- The fields of the bytes of a `struct dir_entry`.
abbrev pub inode_sector : List ℕ → ℕ
inode_sector e = decode_word e 0

abbrev pub in_use : List ℕ → Bool
in_use e = not (at e in_use_ofs == 0)

-- `!strcmp (name, e.name)`, with the name in the bytes from a place on.
unfoldable pub same_name : List ℕ → List ℕ → ℕ → Bool
same_name [] e o = at e o == 0
same_name (c ∷ name) e o = let rest = same_name name e (suc o) in at e o == c && rest

abbrev pub is_entry_of : List ℕ → List ℕ → Bool
is_entry_of name e = in_use e && same_name name e name_ofs

-- The offset and the bytes of the entry.
unfoldable pub lookup_loop : ℕ → Bool → Disk → Inode → List ℕ → ℕ → Option (Option (ℕ × List ℕ))
unfolding read_at same_name decode_word
lookup_loop zero memory disk inode name ofs = none
lookup_loop (suc fuel) memory disk inode name ofs =
    let rest = lookup_loop fuel memory disk inode name (ofs + entry_size) in
    elim (read_at memory disk inode entry_size ofs) [
      | none ↦ none
      | some e ↦
          if length e == entry_size
          then (if is_entry_of name e then some (some (ofs, e)) else rest)
          else some none
    ]

-- Every round but the last one reads an entry that lies within the file.
unfoldable pub lookup : Bool → Disk → Inode → List ℕ → Option (Option (ℕ × List ℕ))
unfolding lookup_loop
lookup memory disk inode name = lookup_loop (suc inode.info.length) memory disk inode name 0

-- Whether an inode was opened.
unfoldable pub dir_lookup : Bool → FileSystem → Dir → List ℕ → Option (Bool × FileSystem)
unfolding lookup inode_open decode_word
dir_lookup memory fs dir name = elim (lookup memory fs.disk dir.inode name) [
  | none ↦ none
  | some none ↦ some (false, fs)
  | some (some (_, e)) ↦ some (inode_open memory fs (inode_sector e))
]

-- The loop of `dir_add`, with the bytes of the variable `e`.
unfoldable pub free_loop : ℕ → Bool → Disk → Inode → List ℕ → ℕ → Option (ℕ × List ℕ)
unfolding read_at
free_loop zero memory disk inode e ofs = none
free_loop (suc fuel) memory disk inode e ofs =
    let rest = λ (e' : List ℕ). free_loop fuel memory disk inode e' (ofs + entry_size) in
    elim (read_at memory disk inode entry_size ofs) [
      | none ↦ none
      | some l ↦
          if length l == entry_size
          then (if in_use l then rest l else some (ofs, l))
          else some (ofs, overwrite e 0 l)
    ]

-- The three assignments to `e`.
unfoldable pub filled_entry : List ℕ → List ℕ → ℕ → List ℕ
unfolding encode_word
filled_entry e name sector =
    overwrite (overwrite (overwrite e in_use_ofs (1 ∷ [])) name_ofs (name ++ 0 ∷ [])) 0
      (encode_word sector)

-- `e` is what the variable holds before.
unfoldable pub add : Bool → List ℕ → Disk → Dir → List ℕ → ℕ → Option (Bool × Disk)
unfolding lookup free_loop filled_entry write_at
add memory e disk dir name sector =
    if length name == 0 || ltb name_max (length name)
    then some (false, disk)
    else elim (lookup memory disk dir.inode name) [
      | none ↦ none
      | some (some _) ↦ some (false, disk)
      | some none ↦ elim (free_loop (suc dir.inode.info.length) memory disk dir.inode e 0) [
        | none ↦ none
        | some (ofs, e') ↦
            elim (write_at memory disk dir.inode (filled_entry e' name sector) entry_size ofs) [
              | none ↦ none
              | some (written, disk') ↦ some (written == entry_size, disk')
            ]
      ]
    ]

abbrev with_disk : Disk → FileSystem → FileSystem
with_disk disk fs = record fs { disk = disk }

abbrev ending : Bool → Option FileSystem → Option (Bool × FileSystem)
ending success none = none
ending success (some fs) = some (success, fs)

-- The part of `dir_remove` after its inode is open.
unfoldable pub erase : Bool → FileSystem → Dir → ℕ → List ℕ → Option (Bool × FileSystem)
unfolding write_at remove close decode_word
erase memory fs dir ofs e =
    elim (write_at memory fs.disk dir.inode (overwrite e in_use_ofs (0 ∷ [])) entry_size ofs) [
      | none ↦ none
      | some (written, disk) ↦
          if written == entry_size
          then elim (remove (with_disk disk fs) (inode_sector e)) [
            | none ↦ none
            | some fs' ↦ ending true (close memory fs' (inode_sector e))
          ]
          else ending false (close memory (with_disk disk fs) (inode_sector e))
    ]

-- `dir_remove`
unfoldable pub remove_file : Bool → FileSystem → Dir → List ℕ → Option (Bool × FileSystem)
unfolding lookup inode_open decode_word erase
remove_file memory fs dir name = elim (lookup memory fs.disk dir.inode name) [
  | none ↦ none
  | some none ↦ some (false, fs)
  | some (some (ofs, e)) ↦
      let (is_open, fs') = inode_open memory fs (inode_sector e) in
      if is_open then erase memory fs' dir ofs e else some (false, fs')
]

-- The bytes of the entry whose name is stored, and the position.
unfoldable pub readdir_loop : ℕ → Bool → Disk → Inode → ℕ → Option (Option (List ℕ) × ℕ)
unfolding read_at
readdir_loop zero memory disk inode pos = none
readdir_loop (suc fuel) memory disk inode pos =
    let rest = readdir_loop fuel memory disk inode (pos + entry_size) in
    elim (read_at memory disk inode entry_size pos) [
      | none ↦ none
      | some e ↦
          if length e == entry_size
          then (if in_use e then some (some e, pos + entry_size) else rest)
          else some (none, pos)
    ]

unfoldable pub readdir : Bool → Disk → Dir → Option (Option (List ℕ) × Dir)
unfolding readdir_loop
readdir memory disk dir =
    elim (readdir_loop (suc dir.inode.info.length) memory disk dir.inode dir.pos) [
      | none ↦ none
      | some (e, pos) ↦ some (e, record { inode = dir.inode; pos = pos })
    ]
