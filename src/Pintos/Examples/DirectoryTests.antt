-- ===== src/Pintos/Examples/DirectoryTests.antt =====
-- A directory of three entries at concrete inputs.
use group.Shared.{
  ℕ, ◌*◌, ◌<◌, ◌≡◌, ◌≢◌, refl, ◌∙◌, true, false, none, some, List, [], ◌∷◌, replicate,
  length-replicate, arith,
}
use group.Pintos.Inode.{Disk}
use group.Pintos.Inode.Bytes.{IsDisk}
use group.Pintos.Directory.{Dir, lookup, add, in_use, inode_sector, is_entry_of, same_name}
use group.Pintos.Directory.Slots.{slots, slot, first_slot, free_slot, lookup-first_slot}
use group.Pintos.Directory.Add.{add-lookup}

abbrev blank : Disk
blank s = replicate 512 0

blank-IsDisk : IsDisk blank
blank-IsDisk s = length-replicate {A = ℕ} 512 0

abbrev dir : Dir
dir = record {
  inode = record {
    sector = 4;
    open_cnt = 1;
    removed = false;
    deny_write_cnt = 0;
    info = record { start = 5; length = 60; magic = 0x494e4f44 };
  };
  pos = 0;
}

-- "ab"
abbrev name : List ℕ
name = 97 ∷ 98 ∷ []

has_room : free_slot blank dir.inode 0 (slots dir.inode) < slots dir.inode
unfolding slot
has_room = omega arith

not_there : lookup true blank dir.inode name ≡ some none
unfolding slot same_name
not_there = lookup-first_slot blank dir.inode name blank-IsDisk ∙ nothing
  where
    nothing : some (first_slot (is_entry_of name) blank dir.inode 0 3) ≡ some none
    nothing = refl

add-lookup_example :
    (disk : Disk) × (entry : List ℕ) × (k : ℕ) × (add true (replicate 20 0) blank dir name 7
      ≡ some (true, disk))
    × (lookup true disk dir.inode name ≡ some (some (k * 20, entry)))
    × (inode_sector entry ≡ 7)
    × (k < slots dir.inode)
    × (in_use (slot blank dir.inode k) ≡ false)
    × ((j : ℕ) → j ≢ k → slot disk dir.inode j ≡ slot blank dir.inode j)
add-lookup_example =
    add-lookup (replicate 20 0) blank dir name 7 blank-IsDisk refl refl (omega arith) (omega arith)
      (omega arith) has_room not_there
