-- ===== src/Pintos/Inodes/Create.antt =====
-- `inode_create`: what a new inode is on the device.
use group.Shared.{
  ℕ, zero, suc, ◌+◌, ◌/◌, ◌%◌, ◌≡◌, ◌≢◌, ◌⊎◌, inl, inr, refl, ap, ◌∙◌, Bool, true, false, Option,
  none, some, List, ◌∷◌, ◌==◌, if◌then◌else◌, replicate, at, length, values, values-eq,
  length-replicate, Bool-cases, ℕ_discrete, arith,
}
use group.Pintos.Bitmap.{Bitmap}
use group.Pintos.Bitmap.Bit.{bit, IsBitmap}
use group.Pintos.Bitmap.Ranges.{within, Uniform}
use group.Pintos.Bitmap.Scan.{IsFirst, Nowhere}
use group.Pintos.FreeMap.{write_map}
use group.Pintos.FreeMap.Sectors.{SameBits, Stored, Stored-IsDisk, allocate-cases}
use group.Pintos.Inode.{
  Disk, InodeDisk, Inode, inode_magic, block_write, encode, bytes_to_sectors, read_at,
}
use group.Pintos.Inode.Bytes.{IsDisk, byte_at, address, extent}
use group.Pintos.Inode.Codec.{length-encode}
use group.Pintos.Inode.Reads.{read_at-values}
use group.Pintos.Inodes.{FileSystem, map_file, zeros, zero_loop, create}

-- The inode of a new file.
abbrev pub fresh : ℕ → ℕ → InodeDisk
fresh start len = record { start = start; length = len; magic = inode_magic }

zero_loop_lem :
    (disk : Disk) (s n t : ℕ) → zero_loop disk s n t ≡ (if within s n t then zeros else disk t)
unfolding zero_loop block_write
zero_loop_lem disk s zero t = ground arith
zero_loop_lem disk s (suc n) t = zero_loop_lem (block_write disk s zeros) (suc s) n t ∙ ground arith

-- What `inode_create` has made: the sector of the inode, the sectors of its data, and the free
-- map, which was written to its file before.
pub record IsCreated (bounce : Bool) (fs fs' : FileSystem) (sector len start : ℕ) : Type 0 where
  pub first : IsFirst fs.map 0 (bytes_to_sectors len) false start
  pub map_valid : IsBitmap fs'.map
  pub same_cnt : fs'.map.bit_cnt ≡ fs.map.bit_cnt
  pub taken :
      (j : ℕ)
      → bit fs'.map j ≡ (if within start (bytes_to_sectors len) j then true else bit fs.map j)
  pub inode : fs'.disk sector ≡ encode (fresh start len)
  pub middle : Disk
  pub stored : Stored bounce (map_file fs) fs.disk fs'.map middle
  pub blocks :
      (t : ℕ)
      → t ≢ sector
      → fs'.disk t ≡ (if within start (bytes_to_sectors len) t then zeros else middle t)
  pub same_table : fs'.open_inodes ≡ fs.open_inodes
  pub same_file : fs'.free_map_file ≡ fs.free_map_file

-- Nothing is made.
abbrev pub Nothing : Bool → FileSystem → ℕ → Option (Bool × FileSystem) → Type 0
Nothing bounce fs len o =
    (fs' : FileSystem) × (o ≡ some (false, fs'))
    × IsBitmap fs'.map
    × SameBits fs.map fs'.map
    × ((Nowhere fs.map 0 (bytes_to_sectors len) false × (fs'.disk ≡ fs.disk))
        ⊎ ((i : Inode) × (c : Bitmap) × (map_file fs ≡ some (some i))
            × (write_map bounce fs.disk i c ≡ some (false, fs'.disk))))

abbrev pub Made : Bool → FileSystem → ℕ → ℕ → Option (Bool × FileSystem) → Type 0
Made bounce fs sector len o =
    (start : ℕ) × (fs' : FileSystem) × (o ≡ some (true, fs'))
    × IsCreated bounce fs fs' sector len start

-- The file of the map is freed.
abbrev pub Faults : FileSystem → Option (Bool × FileSystem) → Type 0
Faults fs o = (map_file fs ≡ some none) × (o ≡ none)

abbrev pub Creates : Bool → FileSystem → ℕ → ℕ → Option (Bool × FileSystem) → Type 0
Creates bounce fs sector len o =
    Nothing bounce fs len o ⊎ (Made bounce fs sector len o ⊎ Faults fs o)

pub outside :
    (b : Bitmap) (sector start n : ℕ)
    → bit b sector ≡ true
    → Uniform b start n false
    → within start n sector ≡ false
outside b sector start n u g = elim (Bool-cases (within start n sector)) [
  | inr e ↦ e
  | inl e ↦ absurd (clash (bit b sector) u (g sector (ground (arith, e)) (ground (arith, e))))
]
  where
    clash : (v : Bool) → v ≡ true → v ≡ false → ⊥
    clash v p q = cc

pub create-cases :
    (bounce : Bool) (fs : FileSystem) (sector len : ℕ)
    → IsBitmap fs.map
    → bit fs.map sector ≡ true
    → Creates bounce fs sector len (create true bounce fs sector len)
unfolding create block_write
create-cases bounce fs sector len z u =
    elim (allocate-cases bounce (map_file fs) fs.disk fs.map (bytes_to_sectors len) z) [
      | inl (map, disk, e, z', same, r) ↦
          inl (record fs { disk = disk; map = map }, rw (create, e) refl, z', same, r)
      | inr (inr (e, r)) ↦ inr (inr (e, rw (create, r) refl))
      | inr (inl (start, map, middle, e, f, z', n, g, stored)) ↦
          let disk = block_write middle sector (encode (fresh start len)) in
          let out = outside fs.map sector start (bytes_to_sectors len) u f.group in
          inr (
            inl (
              start,
              record fs { disk = zero_loop disk start (bytes_to_sectors len); map = map },
              rw (create, e) refl,
              record {
                first = f;
                map_valid = z';
                same_cnt = n;
                taken = g;
                inode =
                    zero_loop_lem disk start (bytes_to_sectors len) sector
                    ∙ rw out
                        (written middle sector sector (encode (fresh start len)) (ground arith));
                blocks = λ t d.
                    zero_loop_lem disk start (bytes_to_sectors len) t
                    ∙ ap (λ l. if within start (bytes_to_sectors len) t then zeros else l)
                        (unwritten middle sector t (encode (fresh start len)) (ground (arith, d)));
                middle = middle;
                stored = stored;
                same_table = refl;
                same_file = refl;
              },
            ))
    ]
  where
    unwritten :
        (disk : Disk) (s t : ℕ) (l : List ℕ) → (t == s) ≡ false → block_write disk s l t ≡ disk t
    unwritten disk s t l e = rw (block_write, e) refl

    written : (disk : Disk) (s t : ℕ) (l : List ℕ) → (t == s) ≡ true → block_write disk s l t ≡ l
    written disk s t l e = rw (block_write, e) refl

at-replicate : (n i : ℕ) → at (replicate n 0) i ≡ 0
at-replicate zero i = refl
at-replicate (suc n) zero = refl
at-replicate (suc n) (suc i) = at-replicate n i

values_zero : (o n : ℕ) → values (λ _. 0) o n ≡ replicate n 0
values_zero o zero = refl
values_zero o (suc n) = ap (λ l. 0 ∷ l) (values_zero (suc o) n)

pub IsCreated-IsDisk :
    (bounce : Bool) (fs fs' : FileSystem) (sector len start : ℕ)
    → IsCreated bounce fs fs' sector len start
    → IsDisk fs.disk
    → IsDisk fs'.disk
IsCreated-IsDisk bounce fs fs' sector len start c w t = elim (ℕ_discrete t sector) [
  | yes e ↦ ap (λ s. length (fs'.disk s)) e ∙ ap length c.inode ∙ length-encode (fresh start len)
  | no e ↦ elim (Bool-cases (within start (bytes_to_sectors len) t)) [
    | inl i ↦ ap length (zero_block t e i) ∙ length-replicate {A = ℕ} 512 0
    | inr i ↦ ap length (kept_block t e i) ∙ before t
  ]
]
  where
    before : IsDisk c.middle
    before = Stored-IsDisk bounce (map_file fs) fs.disk fs'.map c.middle c.stored c.map_valid w

    kept_block :
        (t : ℕ)
        → t ≢ sector
        → within start (bytes_to_sectors len) t ≡ false
        → fs'.disk t ≡ c.middle t
    kept_block t d e = c.blocks t d ∙ rw e refl

    zero_block :
        (t : ℕ) → t ≢ sector → within start (bytes_to_sectors len) t ≡ true → fs'.disk t ≡ zeros
    zero_block t d e = c.blocks t d ∙ rw e refl

pub new_zeros :
    (bounce : Bool) (fs fs' : FileSystem) (sector len start size offset : ℕ) (i : Inode)
    → IsCreated bounce fs fs' sector len start
    → IsDisk fs.disk
    → bit fs.map sector ≡ true
    → i.info ≡ fresh start len
    → read_at true fs'.disk i size offset
      ≡ some (replicate (extent (fresh start len) size offset) 0)
unfolding bytes_to_sectors
new_zeros bounce fs fs' sector len start size offset i c w u e =
    let n = extent (fresh start len) size offset in
    let a = address (fresh start len) offset in
    let out = outside fs.map sector start (bytes_to_sectors len) u c.first.group in
    read_at-values fs'.disk i size offset (IsCreated-IsDisk bounce fs fs' sector len start c w)
    ∙ ap (λ d. some (values (byte_at fs'.disk) (address d offset) (extent d size offset))) e
    ∙ ap some (
        values-eq (byte_at fs'.disk) (λ _. 0) a a n
          (λ k l.
            let t = (a + k) / 512 in
            let inside : within start (bytes_to_sectors len) t ≡ true = ground arith in
            let apart : t ≢ sector =
              λ q. differ t (within start (bytes_to_sectors len)) sector q inside out in
            ap (λ b. at b ((a + k) % 512)) (zero_block t apart inside)
            ∙ at-replicate 512 ((a + k) % 512))
        ∙ values_zero a n)
  where
    zero_block :
        (t : ℕ) → t ≢ sector → within start (bytes_to_sectors len) t ≡ true → fs'.disk t ≡ zeros
    zero_block t d e = c.blocks t d ∙ rw e refl

    differ : (t : ℕ) (f : ℕ → Bool) (s : ℕ) → t ≡ s → f t ≡ true → f s ≡ false → ⊥
    differ t f s p q r = cc
