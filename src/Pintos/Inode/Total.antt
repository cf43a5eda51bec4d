-- ===== src/Pintos/Inode/Total.antt =====
-- `inode_write_at` always ends, and leaves sectors of 512 bytes, with memory for the bounce buffer or without.
use group.Shared.{
  ℕ, zero, suc, ◌+◌, ◌-◌, ◌%◌, ◌≤◌, ◌<◌, ◌≡◌, inl, inr, refl, ◌∙◌, Bool, true, false, ◌&&◌, ◌||◌,
  Option, some, List, ltb, ◌==◌, if◌then◌else◌, take, drop, overwrite, length, length-overwrite,
  length-drop, length-replicate, replicate, Bool-cases, arith,
}
use group.Pintos.Inode.{
  Disk, InodeDisk, Inode, chunk_size, byte_to_sector, block_write, write_loop, write_at,
}
use group.Pintos.Inode.Bytes.{IsDisk, chunk_size-IsChunk, block_write-IsDisk}
use group.Pintos.Inode.Chunks.{length-take}

abbrev pub Ends : Disk → List ℕ → ℕ → Option (ℕ × Disk) → Type 0
Ends disk buffer size o =
    (n : ℕ) × (disk' : Disk) × (o ≡ some (n, disk'))
    × (IsDisk disk → size ≤ length buffer → IsDisk disk')

stays : (disk : Disk) (buffer : List ℕ) (size n : ℕ) → Ends disk buffer size (some (n, disk))
stays disk buffer size n = (n, disk, refl, λ w l. w)

-- A round that writes a sector, and the rounds after it.
goes_on :
    (disk : Disk) (buffer : List ℕ) (size sector chunk : ℕ) (bytes : List ℕ) (o : Option (ℕ × Disk))
    → chunk ≤ size
    → (IsDisk disk → size ≤ length buffer → length bytes ≡ 512)
    → Ends (block_write disk sector bytes) (drop chunk buffer) (size - chunk) o
    → Ends disk buffer size o
goes_on disk buffer size sector chunk bytes o c b (n, disk', e, f) = (
  n,
  disk',
  e,
  λ w l.
      f (block_write-IsDisk disk sector bytes w (b w l))
        (omega (arith, l, length-drop chunk buffer)),
)

length-bounce :
    (disk : Disk) (sector : ℕ) (c : Bool)
    → IsDisk disk
    → length (if c then disk sector else replicate 512 0) ≡ 512
length-bounce disk sector true w = w sector
length-bounce disk sector false w = length-replicate {A = ℕ} 512 0

write_loop-Ends :
    (memory : Bool) (d : InodeDisk) (fuel : ℕ) (disk : Disk) (buffer : List ℕ)
    (size offset written : ℕ)
    → size < fuel
    → Ends disk buffer size (write_loop memory d fuel disk buffer size offset written)
unfolding write_loop
write_loop-Ends memory d zero disk buffer size offset written f = absurd (omega arith)
write_loop-Ends memory d (suc fuel) disk buffer size offset written f =
    let chunk = chunk_size d size offset in
    let few = (chunk_size-IsChunk d size offset).few in
    let s = byte_to_sector d offset in
    let o = offset % 512 in
    let c = ltb 0 o || ltb chunk (512 - o) in
    let bounce = if c then disk s else replicate 512 0 in
    let part_bytes = overwrite bounce o (take chunk buffer) in
    let again =
      λ (m : Bool) (bytes : List ℕ) (p : (chunk == 0) ≡ false) (q : (size == 0) ≡ false)
          (b : IsDisk disk → size ≤ length buffer → length bytes ≡ 512).
        goes_on disk buffer size s chunk bytes
          (write_loop m d fuel (block_write disk s bytes) (drop chunk buffer) (size - chunk)
            (offset + chunk) (written + chunk))
          few b
          (write_loop-Ends m d fuel (block_write disk s bytes) (drop chunk buffer) (size - chunk)
            (offset + chunk) (written + chunk) (less size chunk fuel p q few f)) in
    elim (Bool-cases (size == 0)) [
      | inl e ↦ rw (write_loop, e) (stays disk buffer size written)
      | inr e ↦ elim (Bool-cases (chunk == 0)) [
        | inl g ↦ rw (write_loop, e, g) (stays disk buffer size written)
        | inr g ↦ elim (Bool-cases (o == 0 && chunk == 512)) [
          | inl whole ↦
              rw (write_loop, e, g, whole)
                (again memory (take 512 buffer) g e
                  (λ w l. length-take 512 buffer (enough o chunk size (length buffer) whole few l)))
          | inr part ↦
              elim memory
                as (λ m.
                  Ends disk buffer size
                    (write_loop m d (suc fuel) disk buffer size offset written)) [
                      | true ↦
                          rw (write_loop, e, g, part)
                            (again true part_bytes g e (λ w l.
                              length-overwrite bounce o (take chunk buffer)
                              ∙ length-bounce disk s c w))
                      | false ↦ rw (write_loop, e, g, part) (stays disk buffer size written)
                    ]
        ]
      ]
    ]
  where
    less :
        (size chunk fuel : ℕ)
        → (chunk == 0) ≡ false
        → (size == 0) ≡ false
        → chunk ≤ size
        → size < suc fuel
        → size - chunk < fuel
    less size chunk fuel p q c f = ground (arith, p, q)

    enough :
        (o chunk size n : ℕ) → (o == 0 && chunk == 512) ≡ true → chunk ≤ size → size ≤ n → 512 ≤ n
    enough o chunk size n p c l = ground (arith, p)

pub write_at-Ends :
    (memory : Bool) (disk : Disk) (inode : Inode) (buffer : List ℕ) (size offset : ℕ)
    → Ends disk buffer size (write_at memory disk inode buffer size offset)
unfolding write_at
write_at-Ends memory disk inode buffer size offset =
    elim (Bool-cases (ltb 0 inode.deny_write_cnt)) [
      | inl e ↦ rw (write_at, e) (stays disk buffer size 0)
      | inr e ↦
          rw (write_at, e)
            (write_loop-Ends memory inode.info (suc size) disk buffer size offset 0 (omega arith))
    ]
