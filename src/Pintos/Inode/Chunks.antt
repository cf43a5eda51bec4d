-- ===== src/Pintos/Inode/Chunks.antt =====
-- What a chunk of `inode_write_at` leaves on the device.
use group.Shared.{
  ℕ, zero, suc, ◌+◌, ◌-◌, ◌%◌, ◌≤◌, ◌<◌, ◌≡◌, inl, inr, refl, ap, ◌∙◌, ◌&&◌, List, [], ◌∷◌, ltb,
  leb, if◌then◌else◌, take, drop, overwrite, at, length, length-overwrite, Bool-cases, arith,
}
use group.Pintos.Inode.{Disk, InodeDisk, byte_to_sector, block_write}
use group.Pintos.Inode.Bytes.{IsDisk, byte_at, address, byte_at-block_write, block_write-IsDisk}
use group.Pintos.Inode.Reads.{sector_address}

-- The device after the first `n` bytes of the buffer are written to an address and on.
pub record IsWritten (disk disk' : Disk) (a n : ℕ) (buffer : List ℕ) : Type 0 where
  pub valid : IsDisk disk'
  pub bytes :
      (j : ℕ)
      → byte_at disk' j ≡ (if leb a j && ltb j (a + n) then at buffer (j - a) else byte_at disk j)

pub length-take : (n : ℕ) (l : List ℕ) → n ≤ length l → length (take n l) ≡ n
length-take zero l h = refl
length-take (suc n) [] h = absurd (omega arith)
length-take (suc n) (x ∷ l) h = ap suc (length-take n l (omega arith))

pub at-take : (n : ℕ) (l : List ℕ) (i : ℕ) → i < n → at (take n l) i ≡ at l i
at-take zero l i h = absurd (omega arith)
at-take (suc n) [] i h = refl
at-take (suc n) (x ∷ l) zero h = refl
at-take (suc n) (x ∷ l) (suc i) h = at-take n l i (omega arith)

pub at-drop : (n : ℕ) (l : List ℕ) (i : ℕ) → at (drop n l) i ≡ at l (n + i)
at-drop zero l i = ap (at l) (omega arith)
at-drop (suc n) [] i = refl
at-drop (suc n) (x ∷ l) i =
    let next : suc (n + i) ≡ suc n + i = omega arith in at-drop n l i ∙ ap (at (x ∷ l)) next

pub overwrite_all :
    (n : ℕ) (l : List ℕ)
    → n ≤ length l
    → (xs : List ℕ) → length xs ≡ n
    → overwrite xs 0 (take n l) ≡ take n l
overwrite_all zero l h [] e = refl
overwrite_all zero l h (x ∷ xs) e = absurd (omega arith)
overwrite_all (suc n) [] h xs e = absurd (omega arith)
overwrite_all (suc n) (y ∷ l) h [] e = absurd (omega arith)
overwrite_all (suc n) (y ∷ l) h (x ∷ xs) e =
    ap (λ t. y ∷ t) (overwrite_all n l (omega arith) xs (omega arith))

-- A round writes its chunk.
pub chunk-IsWritten :
    (disk : Disk) (d : InodeDisk) (offset chunk : ℕ) (buffer : List ℕ)
    → IsDisk disk
    → offset % 512 + chunk ≤ 512
    → chunk ≤ length buffer
    → IsWritten disk
        (block_write disk
          (byte_to_sector d offset)
          (overwrite (disk (byte_to_sector d offset)) (offset % 512) (take chunk buffer)))
        (address d offset)
        chunk
        buffer
chunk-IsWritten disk d offset chunk buffer w h l =
    let s = byte_to_sector d offset in
    let new = take chunk buffer in
    let n = length-take chunk buffer l in
    let a = sector_address d offset in
    record {
      valid =
          block_write-IsDisk disk s (overwrite (disk s) (offset % 512) new) w
            (length-overwrite (disk s) (offset % 512) new ∙ w s);
      bytes = λ j.
          byte_at-block_write disk s (offset % 512) new j w (omega (arith, n))
          ∙ ap (λ x. if leb x j && ltb j (x + length new) then at new (j - x) else byte_at disk j) a
          ∙ ap
              (λ m.
                if leb (address d offset) j && ltb j (address d offset + m)
                then at new (j - address d offset)
                else byte_at disk j)
              n
          ∙ ground (arith, at-take chunk buffer (j - address d offset));
    }

-- A chunk, and then the rest of the buffer after it.
pub IsWritten-twice :
    (disk disk' disk'' : Disk) (a chunk n : ℕ) (buffer : List ℕ)
    → IsWritten disk disk' a chunk buffer
    → IsWritten disk' disk'' (a + chunk) n (drop chunk buffer)
    → IsWritten disk disk'' a (chunk + n) buffer
IsWritten-twice disk disk' disk'' a chunk n buffer p q = record {
  valid = q.valid;
  bytes = λ j. elim (Bool-cases (leb (a + chunk) j)) [
    | inl late ↦
        let place : chunk + (j - (a + chunk)) ≡ j - a = ground arith in
        let moved = at-drop chunk buffer (j - (a + chunk)) ∙ ap (at buffer) place in
        let first = p.bytes j in q.bytes j ∙ ground (arith, moved, first)
    | inr soon ↦ let first = p.bytes j in q.bytes j ∙ ground (arith, first)
  ];
}

pub nothing-IsWritten :
    (disk : Disk) (a : ℕ) (buffer : List ℕ) → IsDisk disk → IsWritten disk disk a 0 buffer
nothing-IsWritten disk a buffer w = record { valid = w; bytes = λ j. ground arith }
