-- ===== src/Pintos/Inode/Writes.antt =====
-- `inode_write_at` puts the bytes of the buffer into the file, and leaves all else.
use group.Shared.{
  ℕ, zero, suc, ◌+◌, ◌-◌, ◌%◌, ◌≤◌, ◌<◌, ◌≡◌, inl, inr, refl, sym, ap, ◌∙◌, true, false, ◌&&◌, ◌||◌,
  Option, some, List, ltb, leb, ◌==◌, take, drop, overwrite, at, length, length-drop, values,
  values-eq, Bool-cases, ℕ_discrete, arith,
}
use mathlib.Core.Path.{subst}
use group.Pintos.Inode.{
  Disk, InodeDisk, Inode, chunk_size, byte_to_sector, block_write, write_loop, write_at, read_at,
}
use group.Pintos.Inode.Bytes.{IsDisk, byte_at, address, extent, IsChunk, chunk_size-IsChunk}
use group.Pintos.Inode.Reads.{read_at-values, finished}
use group.Pintos.Inode.Chunks.{
  IsWritten, overwrite_all, chunk-IsWritten, IsWritten-twice, nothing-IsWritten,
}

-- What the loop gives: all the bytes of the file that are asked for are written.
abbrev Result : Disk → InodeDisk → Option (ℕ × Disk) → List ℕ → ℕ → ℕ → ℕ → Type 0
Result disk d outcome buffer size offset written =
    (disk' : Disk) × (outcome ≡ some (written + extent d size offset, disk'))
    × IsWritten disk disk' (address d offset) (extent d size offset) buffer

advance :
    (disk disk' : Disk) (d : InodeDisk) (outcome : Option (ℕ × Disk)) (buffer : List ℕ)
    (size offset written chunk : ℕ)
    → IsChunk d size offset chunk
    → IsWritten disk disk' (address d offset) chunk buffer
    → Result disk' d outcome (drop chunk buffer) (size - chunk) (offset + chunk) (written + chunk)
    → Result disk d outcome buffer size offset written
advance disk disk' d outcome buffer size offset written chunk c p (last, e, q) =
    let next : address d (offset + chunk) ≡ address d offset + chunk = omega arith in
    let left = extent d (size - chunk) (offset + chunk) in
    let count : written + chunk + left ≡ written + extent d size offset = omega (arith, c.rest) in
    let moved = subst (λ a. IsWritten disk' last a left (drop chunk buffer)) next q in
    (
      last,
      e ∙ ap (λ n. some (n, last)) count,
      subst (λ n. IsWritten disk last (address d offset) n buffer) (sym c.rest)
          (IsWritten-twice disk disk' last (address d offset) chunk left buffer p moved),
    )

stop :
    (disk : Disk) (d : InodeDisk) (buffer : List ℕ) (size offset written : ℕ)
    → IsDisk disk
    → 0 ≡ extent d size offset
    → Result disk d (some (written, disk)) buffer size offset written
stop disk d buffer size offset written w e =
    let count : written ≡ written + extent d size offset = omega (arith, e) in
    (
      disk,
      ap (λ n. some (n, disk)) count,
      subst (λ n. IsWritten disk disk (address d offset) n buffer) e
          (nothing-IsWritten disk (address d offset) buffer w),
    )

-- The two ways of a round write the same.
whole_written :
    (disk : Disk) (s offset chunk : ℕ) (buffer : List ℕ)
    → IsDisk disk
    → chunk ≤ length buffer
    → (offset % 512 == 0 && chunk == 512) ≡ true
    → block_write disk s (overwrite (disk s) (offset % 512) (take chunk buffer))
      ≡ block_write disk s (take 512 buffer)
whole_written disk s offset chunk buffer w l e =
    let start : offset % 512 ≡ 0 = ground arith in
    let all : chunk ≡ 512 = ground arith in
    ap (λ o. block_write disk s (overwrite (disk s) o (take chunk buffer))) start
    ∙ ap (λ n. block_write disk s (overwrite (disk s) 0 (take n buffer))) all
    ∙ ap (block_write disk s) (overwrite_all 512 buffer (omega (arith, all)) (disk s) (w s))

write_loop_lem :
    (disk : Disk) (d : InodeDisk) (fuel : ℕ) (buffer : List ℕ) (size offset written : ℕ)
    → IsDisk disk
    → size < fuel
    → size ≤ length buffer
    → Result disk d
        (write_loop true d fuel disk buffer size offset written)
        buffer
        size
        offset
        written
unfolding write_loop
write_loop_lem disk d zero buffer size offset written w f l = absurd (omega arith)
write_loop_lem disk d (suc fuel) buffer size offset written w f l =
    let chunk = chunk_size d size offset in
    let c = chunk_size-IsChunk d size offset in
    let s = byte_to_sector d offset in
    let disk' = block_write disk s (overwrite (disk s) (offset % 512) (take chunk buffer)) in
    let p = chunk-IsWritten disk d offset chunk buffer w c.inside (omega (arith, c.few)) in
    elim (Bool-cases (size == 0)) [
      | inl none_asked ↦
          rw (write_loop, none_asked) (stop disk d buffer size offset written w (ground arith))
      | inr asked ↦ elim (Bool-cases (chunk == 0)) [
        | inl none_left ↦
            rw (write_loop, asked, none_left)
              (stop disk d buffer size offset written w (finished d size offset chunk c none_left))
        | inr some_left ↦
            let rest =
              advance disk disk' d
                (write_loop true d fuel disk' (drop chunk buffer) (size - chunk) (offset + chunk)
                  (written + chunk))
                buffer size offset written chunk c p
                (write_loop_lem disk' d fuel (drop chunk buffer) (size - chunk) (offset + chunk)
                  (written + chunk) p.valid (ground (arith, c.few))
                  (ground (arith, c.few, length-drop chunk buffer))) in
            elim (Bool-cases (offset % 512 == 0 && chunk == 512)) [
              | inl whole ↦
                  let same =
                    whole_written disk s offset chunk buffer w (omega (arith, c.few)) whole in
                  rw (write_loop, asked, some_left, whole)
                    (subst
                      (λ x.
                        Result disk d
                          (write_loop true d fuel x (drop chunk buffer) (size - chunk)
                            (offset + chunk) (written + chunk))
                          buffer size offset written)
                      same rest)
              | inr part ↦
                  let reads : (ltb 0 (offset % 512) || ltb chunk (512 - offset % 512)) ≡ true =
                    ground (arith, c.inside) in
                  rw (write_loop, asked, some_left, part, reads) rest
            ]
      ]
    ]

-- On a device whose sectors have 512 bytes, with memory, no denial of writes and a buffer that
-- holds at least the size, inode_write_at ends and returns the size, or the number of bytes from
-- the offset to the end of the file if that is less; that many bytes of the device from the
-- address of the offset on are those of the buffer, every other byte of the device is as before,
-- and the sectors still have 512 bytes.
pub write_at-IsWritten :
    (disk : Disk) (inode : Inode) (buffer : List ℕ) (size offset : ℕ)
    → IsDisk disk
    → inode.deny_write_cnt ≡ 0
    → size ≤ length buffer
    → (disk' : Disk) × (write_at true disk inode buffer size offset
        ≡ some (extent inode.info size offset, disk'))
      × IsWritten disk disk' (address inode.info offset) (extent inode.info size offset) buffer
unfolding write_at
write_at-IsWritten disk inode buffer size offset w a l =
    let open_to_all : ltb 0 inode.deny_write_cnt ≡ false = ground (arith, a) in
    let (disk', e, q) =
      write_loop_lem disk inode.info (suc size) buffer size offset 0 w (omega arith) l in
    let count : 0 + extent inode.info size offset ≡ extent inode.info size offset = omega arith in
    (disk', rw (write_at, open_to_all) (e ∙ ap (λ n. some (n, disk')) count), q)

no_byte :
    (disk : Disk) (inode : Inode) (o : ℕ) (l : List ℕ) (count from : ℕ)
    → IsDisk disk
    → 0 ≡ count
    → read_at true disk inode count from ≡ some (values (at l) o count)
no_byte disk inode o l count from w z =
    let empty : 0 ≡ extent inode.info 0 from = ground arith in
    subst (λ m. read_at true disk inode m from ≡ some (values (at l) o m)) z
      (read_at-values disk inode 0 from w
        ∙ ap (λ m. some (values (byte_at disk) (address inode.info from) m)) (sym empty))

read_back :
    (disk disk' : Disk) (inode : Inode) (buffer : List ℕ) (size offset from count : ℕ)
    → IsWritten disk disk' (address inode.info offset) (extent inode.info size offset) buffer
    → offset ≤ from
    → from + count ≤ offset + extent inode.info size offset
    → read_at true disk' inode count from ≡ some (values (at buffer) (from - offset) count)
read_back disk disk' inode buffer size offset from count r p q = elim (ℕ_discrete count 0) [
  | yes z ↦ no_byte disk' inode (from - offset) buffer count from r.valid (sym z)
  | no z ↦
      let all : extent inode.info count from ≡ count = ground arith in
      let a = address inode.info offset in
      let x = address inode.info from in
      read_at-values disk' inode count from r.valid
      ∙ ap (λ m. some (values (byte_at disk') x m)) all
      ∙ ap some (
          values-eq (byte_at disk') (at buffer) x (from - offset) count (λ i l.
            let here : x + i - a ≡ from - offset + i = omega arith in
            let inside : (leb a (x + i) && ltb (x + i) (a + extent inode.info size offset)) ≡ true =
              ground arith in
            r.bytes (x + i) ∙ rw inside (ap (at buffer) here)))
]

-- On a device whose sectors have 512 bytes, with memory and a buffer that holds at least the
-- size: when inode_write_at has returned n, inode_read_at of any part of those n bytes of the
-- file returns the bytes of the buffer.
pub read_at-write_at :
    (disk disk' : Disk) (inode : Inode) (buffer : List ℕ) (size offset n from count : ℕ)
    → IsDisk disk
    → size ≤ length buffer
    → write_at true disk inode buffer size offset ≡ some (n, disk')
    → offset ≤ from
    → from + count ≤ offset + n
    → read_at true disk' inode count from ≡ some (values (at buffer) (from - offset) count)
unfolding write_at
read_at-write_at disk disk' inode buffer size offset n from count w l h p q =
    elim (ℕ_discrete inode.deny_write_cnt 0) [
      | yes a ↦
          let (last, e, r) = write_at-IsWritten disk inode buffer size offset w a l in
          let (same, all) = results n (extent inode.info size offset) disk' last (sym h ∙ e) in
          subst
            (λ x. read_at true x inode count from ≡ some (values (at buffer) (from - offset) count))
            (sym all)
            (read_back disk last inode buffer size offset from count r p (omega (arith, same)))
      | no a ↦
          let denied : ltb 0 inode.deny_write_cnt ≡ true = ground (arith, a) in
          let (same, all) = results n 0 disk' disk (sym h ∙ rw (write_at, denied) refl) in
          let zero_left : 0 ≡ count = omega (arith, same) in
          subst
            (λ x. read_at true x inode count from ≡ some (values (at buffer) (from - offset) count))
            (sym all) (no_byte disk inode (from - offset) buffer count from w zero_left)
    ]
  where
    results :
        (n m : ℕ) (disk disk' : Disk)
        → ◌≡◌ {A = Option (ℕ × Disk)} (some (n, disk)) (some (m, disk'))
        → (n ≡ m) × (disk ≡ disk')
    results n m disk disk' e = (cc, cc)
