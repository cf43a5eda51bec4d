-- ===== src/Pintos/File/Position.antt =====
-- Reads and writes one after the other.
use group.Shared.{
  ℕ, ◌+◌, ◌-◌, ◌≤◌, ◌≡◌, refl, ap, ◌∙◌, true, some, List, at, length, values, length-values, arith,
}
use group.Pintos.Inode.{Inode}
use group.Pintos.Inode.Bytes.{IsDisk, extent}
use group.Pintos.Inode.Writes.{write_at-IsWritten, read_at-write_at}
use group.Pintos.Inodes.{FileSystem, find}
use group.Pintos.File.{File, with_pos, file_read, file_write, file_seek, file_tell}

-- For an open inode that may be written: what file_write has written from the position on, file_read gets after
-- file_seek to where the position was, and the position is then again behind it.
pub file_read-file_write :
    (fs : FileSystem) (f : File) (i : Inode) (buffer : List ℕ) (size : ℕ)
    → find f.inode fs.open_inodes ≡ some i
    → IsDisk fs.disk
    → i.deny_write_cnt ≡ 0
    → size ≤ length buffer
    → (f' : File) × (fs' : FileSystem) × (file_write true fs f buffer size
        ≡ some (extent i.info size f.pos, f', fs'))
      × (file_tell f' ≡ f.pos + extent i.info size f.pos)
      × (file_read true fs' (file_seek f' f.pos) (extent i.info size f.pos)
          ≡ some (values (at buffer) 0 (extent i.info size f.pos), f'))
unfolding file_write file_read file_seek file_tell
file_read-file_write fs f i buffer size e w d h =
    let n = extent i.info size f.pos in
    let (disk, q, z) = write_at-IsWritten fs.disk i buffer size f.pos w d h in
    let back =
      read_at-write_at fs.disk disk i buffer size f.pos n f.pos n w h q (omega arith)
        (omega arith) in
    let start : f.pos - f.pos ≡ 0 = omega arith in
    let moved = ap (λ m. with_pos (f.pos + m) f) (length-values (at buffer) 0 n) in
    (
      with_pos (f.pos + n) f,
      record fs { disk = disk },
      rw (file_write, e, q) refl,
      refl,
      rw (file_read, e, back)
          (ap
              (λ o.
                some (values (at buffer) o n, with_pos (f.pos + length (values (at buffer) o n)) f))
              start
            ∙ ap (λ g. some (values (at buffer) 0 n, g)) moved),
    )
