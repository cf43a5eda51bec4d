-- ===== src/Pintos/FreeMap/Written.antt =====
-- The bytes of the device after the map is written to its file.
use group.Shared.{
  refl, ℕ, ◌+◌, ◌≤◌, ◌≡◌, sym, ◌∙◌, inl, inr, Bool, true, Option, some, List, ◌&&◌, ltb, leb, ◌==◌,
  length, Bool-cases, arith,
}
use mathlib.Core.Path.{subst}
use group.Pintos.Bitmap.{byte_cnt, Bitmap}
use group.Pintos.Bitmap.Bit.{IsBitmap}
use group.Pintos.Inode.{Disk, Inode}
use group.Pintos.Inode.Bytes.{IsDisk, address, extent}
use group.Pintos.Inode.Chunks.{IsWritten}
use group.Pintos.Inode.Writes.{write_at-IsWritten}
use group.Pintos.FreeMap.{bytes_of, write_map}
use group.Pintos.FreeMap.Sectors.{map_bytes}

-- The file holds the words of the map, as far as it is long enough, and no other byte is another one.
abbrev pub HoldsMap : Inode → Disk → Disk → Bitmap → Type 0
HoldsMap i disk disk' b =
    IsWritten disk disk' (address i.info 0) (extent i.info (byte_cnt b.bit_cnt) 0) (bytes_of b.bits)

pub write_map-HoldsMap :
    (i : Inode) (disk : Disk) (b : Bitmap) (ok : Bool) (disk' : Disk)
    → write_map true disk i b ≡ some (ok, disk')
    → IsDisk disk
    → i.deny_write_cnt ≡ 0
    → IsBitmap b
    → HoldsMap i disk disk' b
unfolding write_map
write_map-HoldsMap i disk b ok disk' e w a z =
    let l : byte_cnt b.bit_cnt ≤ length (bytes_of b.bits) = omega (arith, map_bytes b z) in
    let (d, q, r) = write_at-IsWritten disk i (bytes_of b.bits) (byte_cnt b.bit_cnt) 0 w a l in
    subst (λ x. HoldsMap i disk x b)
      (same d disk' ok (extent i.info (byte_cnt b.bit_cnt) 0 == byte_cnt b.bit_cnt)
        (sym (rw (write_map, q) refl) ∙ e))
      r
  where
    same :
        (d d' : Disk) (o p : Bool)
        → ◌≡◌ {A = Option (Bool × Disk)} (some (p, d)) (some (o, d'))
        → d ≡ d'
    same d d' o p e = cc

-- The last of two writes of one range counts.
pub IsWritten-twice :
    (disk disk' disk'' : Disk) (a n : ℕ) (l l' : List ℕ)
    → IsWritten disk disk' a n l
    → IsWritten disk' disk'' a n l'
    → IsWritten disk disk'' a n l'
IsWritten-twice disk disk' disk'' a n l l' p q = record {
  valid = q.valid;
  bytes = λ j. q.bytes j ∙ elim (Bool-cases (leb a j && ltb j (a + n))) [
    | inl e ↦ rw e refl
    | inr e ↦ rw e (p.bytes j ∙ rw e refl)
  ];
}
