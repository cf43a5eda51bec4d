-- ===== src/Pintos/Inodes/Files.antt =====
-- The life of a file: it is created, opened, read, and removed.
use group.Shared.{
  ℕ, ◌-◌, ◌<◌, ◌≡◌, inl, inr, refl, sym, ◌∙◌, Bool, true, false, Option, none, some, ◌∷◌, replicate,
  arith,
}
use mathlib.Core.Path.{subst}
use group.Pintos.Bitmap.Bit.{bit, IsBitmap}
use group.Pintos.Inode.{Inode, read_at, min_of}
use group.Pintos.Inode.Bytes.{IsDisk}
use group.Pintos.Inodes.{FileSystem, find, create, inode_open, close, remove, with_open_inodes}
use group.Pintos.Inodes.Create.{fresh, IsCreated, create-cases, new_zeros}
use group.Pintos.Inodes.Free.{opened, inode_open-IsCreated, IsGone, new_freed}
use group.Pintos.Inodes.Table.{find_here}

-- What the file system is before a file of `len` bytes is created in a sector: the sector is taken for the
-- inode, and no inode is open there.
pub record IsReady (fs : FileSystem) (sector len : ℕ) : Type 0 where
  pub map_valid : IsBitmap fs.map
  pub small : fs.map.bit_cnt < 4294967296
  pub short : len < 4294967296
  pub inside : sector < fs.map.bit_cnt
  pub used : bit fs.map sector ≡ true
  pub closed : find sector fs.open_inodes ≡ none

pub create-IsCreated :
    (bounce : Bool) (fs fs' : FileSystem) (sector len : ℕ)
    → IsBitmap fs.map
    → bit fs.map sector ≡ true
    → create true bounce fs sector len ≡ some (true, fs')
    → (start : ℕ) × IsCreated bounce fs fs' sector len start
create-IsCreated bounce fs fs' sector len z u h = elim (create-cases bounce fs sector len z u) [
  | inl (fs2, e, _, _, _) ↦ absurd (refused fs' fs2 (sym h ∙ e))
  | inr (inr (_, e)) ↦ absurd (faulted fs' (sym h ∙ e))
  | inr (inl (start, fs2, e, c)) ↦
      (start, subst (λ x. IsCreated bounce fs x sector len start) (same fs2 fs' (sym e ∙ h)) c)
]
  where
    refused :
        (fs fs' : FileSystem)
        → ◌≡◌ {A = Option (Bool × FileSystem)} (some (true, fs)) (some (false, fs'))
        → ⊥
    refused fs fs' e = cc

    faulted : (fs : FileSystem) → ◌≡◌ {A = Option (Bool × FileSystem)} (some (true, fs)) none → ⊥
    faulted fs e = cc

    same :
        (fs fs' : FileSystem)
        → ◌≡◌ {A = Option (Bool × FileSystem)} (some (true, fs)) (some (true, fs'))
        → fs ≡ fs'
    same fs fs' e = cc

-- On a device whose sectors have 512 bytes, for a sector below the size of the valid free map, in
-- use there, with no inode open at it, and a length and a size of the map below 2^32: after an
-- inode_create that succeeds, inode_open with memory finds the inode, and inode_read_at with
-- memory of any size at any offset returns zeros, as many as are asked for or as there are up to
-- the length given to inode_create.
pub read_at-create :
    (bounce : Bool) (fs fs' : FileSystem) (sector len size offset : ℕ)
    → IsReady fs sector len
    → IsDisk fs.disk
    → create true bounce fs sector len ≡ some (true, fs')
    → (fs2 : FileSystem) × (i : Inode) × (inode_open true fs' sector ≡ (true, fs2))
      × (find sector fs2.open_inodes ≡ some i)
      × (read_at true fs2.disk i size offset ≡ some (replicate (min_of size (len - offset)) 0))
read_at-create bounce fs fs' sector len size offset r w h =
    let (start, c) = create-IsCreated bounce fs fs' sector len r.map_valid r.used h in
    let i = opened sector (fresh start len) in
    (
      with_open_inodes (i ∷ fs.open_inodes) fs',
      i,
      inode_open-IsCreated bounce fs fs' sector len start c r.small r.short r.closed,
      find_here sector i fs.open_inodes (ground arith),
      new_zeros bounce fs fs' sector len start size offset i c w r.used refl,
    )

-- On a device whose sectors have 512 bytes, with memory, and with the file of the free map open
-- in the table of open inodes and not denied writes: for a sector below the size of the valid
-- free map, in use there, with no inode open at it, and a length and a size of the map below
-- 2^32, after an inode_create that succeeds, inode_open, inode_remove and inode_close succeed.
-- Then the list of open inodes and the file of the map are as before inode_create, the sectors of
-- the data and the sector of the inode are free, all other bits of the free map are as before
-- inode_create; and inode_close has written the words of the map into the file of the map, as far
-- as that is long enough, and changed no other byte of the device.
pub close-create :
    (fs fs' : FileSystem) (sector len s : ℕ) (mi : Inode)
    → IsReady fs sector len
    → IsDisk fs.disk
    → fs.free_map_file ≡ some s
    → find s fs.open_inodes ≡ some mi
    → mi.deny_write_cnt ≡ 0
    → create true true fs sector len ≡ some (true, fs')
    → (fs2 fs3 : FileSystem) × (inode_open true fs' sector ≡ (true, fs2))
      × (remove fs2 sector ≡ some fs3)
      × IsGone mi fs fs' sector (close true fs3 sector)
close-create fs fs' sector len s mi r w k f y h =
    let (start, c) = create-IsCreated true fs fs' sector len r.map_valid r.used h in
    new_freed true fs fs' sector len start s mi c w r.small r.short r.inside r.used r.closed k f y
