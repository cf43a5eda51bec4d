-- ===== src/Pintos/Inodes/Free.antt =====
-- The sectors of a file that is removed are free again.
use group.Shared.{
  ℕ, ◌+◌, ◌≤◌, ◌<◌, ◌≡◌, inl, inr, refl, sym, ap, ◌∙◌, Bool, true, false, ◌||◌, Option, none, some,
  List, ◌∷◌, ◌==◌, if◌then◌else◌, Bool-cases, arith,
}
use mathlib.Core.Path.{subst}
use group.Pintos.Bitmap.{byte_cnt, Bitmap}
use group.Pintos.Bitmap.Bit.{bit, IsBitmap}
use group.Pintos.Bitmap.Ranges.{within, Uniform}
use group.Pintos.FreeMap.{bytes_of}
use group.Pintos.FreeMap.Sectors.{release-Makes}
use group.Pintos.FreeMap.Written.{HoldsMap, write_map-HoldsMap, IsWritten-twice}
use group.Pintos.Inode.{Disk, InodeDisk, Inode, decode, bytes_to_sectors}
use group.Pintos.Inode.Bytes.{IsDisk, address, extent}
use group.Pintos.Inode.Chunks.{IsWritten}
use group.Pintos.Inode.Codec.{decode-encode}
use group.Pintos.Inodes.{
  FileSystem, map_file, find, update, remove_elem, free_blocks, inode_open, close, remove,
  with_open_inodes, with_removed,
}
use group.Pintos.Inodes.Table.{find_here, find_later}
use group.Pintos.Inodes.Create.{fresh, IsCreated, IsCreated-IsDisk, outside}

kept_bit :
    (j s start n : ℕ) (x y : Bool)
    → x ≡ (if within s 1 j then false else y)
    → y ≡ true
    → start ≤ j
    → j < start + n
    → within start n s ≡ false
    → x ≡ true
kept_bit j s start n x y p q l h w = ground arith

both_freed :
    (j s start n : ℕ) (x y : Bool)
    → x ≡ (if within s 1 j then false else y)
    → (if within start n j then false else x) ≡ (if within start n j || j == s then false else y)
both_freed j s start n x y p = ground arith

-- The inode's sector and then its blocks.
pub free_blocks-Makes :
    (mi : Inode) (disk : Disk) (b : Bitmap) (i : Inode)
    → IsDisk disk
    → mi.deny_write_cnt ≡ 0
    → IsBitmap b
    → i.sector < b.bit_cnt
    → i.info.start + bytes_to_sectors i.info.length ≤ b.bit_cnt
    → bit b i.sector ≡ true
    → Uniform b i.info.start (bytes_to_sectors i.info.length) true
    → within i.info.start (bytes_to_sectors i.info.length) i.sector ≡ false
    → (c : Bitmap) × (disk' : Disk) × (free_blocks true (some (some mi)) disk b i ≡ some (c, disk'))
      × HoldsMap mi disk disk' c
      × IsBitmap c
      × (c.bit_cnt ≡ b.bit_cnt)
      × ((j : ℕ)
          → bit c j ≡ (
              if within i.info.start (bytes_to_sectors i.info.length) j || j == i.sector
              then false
              else bit b j))
unfolding free_blocks
free_blocks-Makes mi disk b i v a z p q s u w =
    let start = i.info.start in
    let n = bytes_to_sectors i.info.length in
    let (c, ok, disk1, e, r, z', m, g) =
      release-Makes true mi disk b i.sector 1 z (omega arith)
        (λ j l h. let here : i.sector ≡ j = omega arith in ap (bit b) (sym here) ∙ s) in
    let (d, ok', disk2, e', r', z'', m', g') =
      release-Makes true mi disk1 c start n z' (omega (arith, m))
        (λ j l h. kept_bit j i.sector start n (bit c j) (bit b j) (g j) (u j l h) l h w) in
    let once = write_map-HoldsMap mi disk c ok disk1 r v a z' in
    let twice = write_map-HoldsMap mi disk1 d ok' disk2 r' once.valid a z'' in
    let once_more =
      subst
        (λ k.
          IsWritten disk disk1 (address mi.info 0) (extent mi.info (byte_cnt k) 0)
            (bytes_of c.bits))
        (sym m') once in
    (
      d,
      disk2,
      rw (free_blocks, e) e',
      IsWritten-twice disk disk1 disk2 (address mi.info 0) (extent mi.info (byte_cnt d.bit_cnt) 0)
          (bytes_of c.bits) (bytes_of d.bits) once_more twice,
      z'',
      m' ∙ m,
      λ j. g' j ∙ both_freed j i.sector start n (bit c j) (bit b j) (g j),
    )

-- The inode of a file that was just opened.
abbrev pub opened : ℕ → InodeDisk → Inode
opened sector d = record {
  sector = sector;
  open_cnt = 1;
  removed = false;
  deny_write_cnt = 0;
  info = d;
}

-- A file that is created can be opened: its inode is read from the device.
pub inode_open-IsCreated :
    (bounce : Bool) (fs fs' : FileSystem) (sector len start : ℕ)
    → IsCreated bounce fs fs' sector len start
    → fs.map.bit_cnt < 4294967296
    → len < 4294967296
    → find sector fs.open_inodes ≡ none
    → inode_open true fs' sector
      ≡ (true, with_open_inodes (opened sector (fresh start len) ∷ fs.open_inodes) fs')
unfolding inode_open bytes_to_sectors
inode_open-IsCreated bounce fs fs' sector len start c p q a =
    let storable = decode-encode (fresh start len) (start_lt, q, omega arith) in
    let absent : find sector fs'.open_inodes ≡ none = ap (find sector) c.same_table ∙ a in
    let read = ap decode c.inode ∙ storable in
    rw (inode_open, absent)
      (ap (λ d. (true, with_open_inodes (opened sector d ∷ fs'.open_inodes) fs')) read
        ∙ ap (λ l. (true, with_open_inodes (opened sector (fresh start len) ∷ l) fs')) c.same_table)
  where
    start_lt : start < 4294967296
    start_lt = omega (arith, c.first.inside)

-- The file is gone, and the file of the map, whose inode is given, holds the map.
abbrev pub IsGone : Inode → FileSystem → FileSystem → ℕ → Option FileSystem → Type 0
IsGone mi fs fs' sector o =
    (last : FileSystem) × (o ≡ some last)
    × HoldsMap mi fs'.disk last.disk last.map
    × (last.open_inodes ≡ fs.open_inodes)
    × (last.free_map_file ≡ fs.free_map_file)
    × IsBitmap last.map
    × (last.map.bit_cnt ≡ fs.map.bit_cnt)
    × ((j : ℕ) → bit last.map j ≡ (if j == sector then false else bit fs.map j))

-- A removed inode without another opener.
abbrev doomed : ℕ → InodeDisk → Inode
doomed sector d = with_removed (opened sector d)

remove-opened :
    (fs : FileSystem) (sector : ℕ) (d : InodeDisk) (l : List Inode)
    → remove (with_open_inodes (opened sector d ∷ l) fs) sector
      ≡ some (with_open_inodes (doomed sector d ∷ l) fs)
unfolding remove find update
remove-opened fs sector d l =
    let same : (sector == sector) ≡ true = ground arith in rw (remove, same) (rw same refl)

-- The file of the map is another inode.
map_file_later :
    (fs : FileSystem) (sector s : ℕ) (d : InodeDisk) (mi : Inode)
    → fs.free_map_file ≡ some s
    → find s fs.open_inodes ≡ some mi
    → find sector fs.open_inodes ≡ none
    → map_file (with_open_inodes (doomed sector d ∷ fs.open_inodes) fs) ≡ some (some mi)
map_file_later fs sector s d mi e f a =
    let later = find_later s (doomed sector d) fs.open_inodes (other fs.open_inodes f a) in
    rw e (ap some (later ∙ f))
  where
    other : (l : List Inode) → find s l ≡ some mi → find sector l ≡ none → (sector == s) ≡ false
    other l f a = elim (Bool-cases (sector == s)) [
      | inr p ↦ p
      | inl p ↦
          let same : s ≡ sector = ground (arith, p) in
          absurd (clash (find sector l) (subst (λ x. find x l ≡ some mi) same f) a)
    ]
      where
        clash : (o : Option Inode) → o ≡ some mi → o ≡ none → ⊥
        clash o p q = cc

-- The last close of a removed inode.
close_last :
    (fs : FileSystem) (sector : ℕ) (i : Inode) (map : Bitmap) (disk : Disk)
    → find sector fs.open_inodes ≡ some i
    → (i.open_cnt == 1) ≡ true
    → i.removed ≡ true
    → free_blocks true (map_file fs) fs.disk fs.map i ≡ some (map, disk)
    → close true fs sector
      ≡ some (record fs { disk = disk; map = map; open_inodes = remove_elem sector fs.open_inodes })
unfolding close
close_last fs sector i map disk e c r f = rw (close, e, c, r, f) refl

remove_elem_here :
    (sector : ℕ) (x : Inode) (l : List Inode)
    → (x.sector == sector) ≡ true
    → remove_elem sector (x ∷ l) ≡ l
unfolding remove_elem
remove_elem_here sector x l p = rw (remove_elem, p) refl

close-doomed :
    (fs : FileSystem) (sector : ℕ) (d : InodeDisk) (l : List Inode) (mi : Inode) (map : Bitmap)
    (disk : Disk)
    → map_file (with_open_inodes (doomed sector d ∷ l) fs) ≡ some (some mi)
    → free_blocks true (some (some mi)) fs.disk fs.map (doomed sector d) ≡ some (map, disk)
    → close true (with_open_inodes (doomed sector d ∷ l) fs) sector
      ≡ some (record fs { disk = disk; map = map; open_inodes = l })
close-doomed fs sector d l mi map disk f e =
    close_last (with_open_inodes (doomed sector d ∷ l) fs) sector (doomed sector d) map disk
      (find_here sector (doomed sector d) l (same sector)) refl refl
      (ap (λ o. free_blocks true o fs.disk fs.map (doomed sector d)) f ∙ e)
    ∙ ap (λ r. some (record fs { disk = disk; map = map; open_inodes = r }))
        (remove_elem_here sector (doomed sector d) l (same sector))
  where
    same : (s : ℕ) → (s == s) ≡ true
    same s = ground arith

used_bit :
    (j start n : ℕ) (x y : Bool)
    → x ≡ (if within start n j then true else y)
    → start ≤ j
    → j < start + n
    → x ≡ true
used_bit j start n x y p l h = ground arith

last_bit :
    (j s start n : ℕ) (x y z : Bool)
    → x ≡ (if within start n j || j == s then false else y)
    → y ≡ (if within start n j then true else z)
    → (start ≤ j → j < start + n → z ≡ false)
    → x ≡ (if j == s then false else z)
last_bit j s start n x y z p q f = elim (Bool-cases (within start n j)) [
  | inl e ↦ let free = f (ground (arith, e)) (ground (arith, e)) in ground (arith, free, e)
  | inr e ↦ ground (arith, e)
]

pub new_freed :
    (bounce : Bool) (fs fs' : FileSystem) (sector len start s : ℕ) (mi : Inode)
    → IsCreated bounce fs fs' sector len start
    → IsDisk fs.disk
    → fs.map.bit_cnt < 4294967296
    → len < 4294967296
    → sector < fs.map.bit_cnt
    → bit fs.map sector ≡ true
    → find sector fs.open_inodes ≡ none
    → fs.free_map_file ≡ some s
    → find s fs.open_inodes ≡ some mi
    → mi.deny_write_cnt ≡ 0
    → (fs2 fs3 : FileSystem) × (inode_open true fs' sector ≡ (true, fs2))
      × (remove fs2 sector ≡ some fs3)
      × IsGone mi fs fs' sector (close true fs3 sector)
new_freed bounce fs fs' sector len start s mi c w p q h u a k f y =
    let d = fresh start len in
    let n = bytes_to_sectors len in
    let out = outside fs.map sector start n u c.first.group in
    let opens = inode_open-IsCreated bounce fs fs' sector len start c p q a in
    let absent = ap (find sector) c.same_table ∙ a in
    let file =
      map_file_later fs' sector s d mi (c.same_file ∙ k) (ap (find s) c.same_table ∙ f) absent in
    let file' =
      subst (λ l. map_file (with_open_inodes (doomed sector d ∷ l) fs') ≡ some (some mi))
        c.same_table file in
    let (map, disk, e, stored, z, m, g) =
      free_blocks-Makes mi fs'.disk fs'.map (doomed sector d)
        (IsCreated-IsDisk bounce fs fs' sector len start c w) y c.map_valid
        (omega (arith, c.same_cnt)) (omega (arith, c.first.inside, c.same_cnt))
        (c.taken sector ∙ rw out u)
        (λ j l r. used_bit j start n (bit fs'.map j) (bit fs.map j) (c.taken j) l r) out in
    (
      with_open_inodes (opened sector d ∷ fs.open_inodes) fs',
      with_open_inodes (doomed sector d ∷ fs.open_inodes) fs',
      opens,
      remove-opened fs' sector d fs.open_inodes,
      (
        record fs' { disk = disk; map = map; open_inodes = fs.open_inodes },
        close-doomed fs' sector d fs.open_inodes mi map disk file' e,
        stored,
        refl,
        c.same_file,
        z,
        m ∙ c.same_cnt,
        λ j.
            last_bit j sector start n (bit map j) (bit fs'.map j) (bit fs.map j) (g j) (c.taken j)
              (c.first.group j),
      ),
    )
