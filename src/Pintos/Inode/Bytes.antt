-- ===== src/Pintos/Inode/Bytes.antt =====
-- The bytes of a device at consecutive addresses, and the chunks of the loops.
use group.Shared.{
  ℕ, zero, suc, ◌+◌, ◌-◌, ◌*◌, ◌/◌, ◌%◌, ◌≤◌, ◌<◌, ◌≡◌, ◌⊎◌, refl, sym, ap, ◌∙◌, ◌&&◌, List, [],
  ◌∷◌, ltb, leb, if◌then◌else◌, take, drop, overwrite, at, length, values, take-drop, values-eq,
  at-overwrite, ℕ_discrete, arith,
}
use group.Pintos.Inode.{Disk, InodeDisk, block_write, chunk_size, min_of}

-- Every sector has 512 bytes.
abbrev pub IsDisk : Disk → Type 0
IsDisk disk = (s : ℕ) → length (disk s) ≡ 512

-- The byte at an address of the device.
abbrev pub byte_at : Disk → ℕ → ℕ
byte_at disk a = at (disk (a / 512)) (a % 512)

-- The address of a byte of a file.
abbrev pub address : InodeDisk → ℕ → ℕ
address d offset = d.start * 512 + offset

-- How many bytes there are to copy.
abbrev pub extent : InodeDisk → ℕ → ℕ → ℕ
extent d size offset = min_of size (d.length - offset)

byte_at-sector : (disk : Disk) (s i : ℕ) → i < 512 → at (disk s) i ≡ byte_at disk (s * 512 + i)
byte_at-sector disk s i h =
    let there : s ≡ (s * 512 + i) / 512 = omega arith in
    let place : i ≡ (s * 512 + i) % 512 = omega arith in
    ap (λ t. at (disk t) i) there ∙ ap (at (disk ((s * 512 + i) / 512))) place

pub take-drop-sector :
    (disk : Disk) (s o n : ℕ)
    → IsDisk disk
    → o + n ≤ 512
    → take n (drop o (disk s)) ≡ values (byte_at disk) (s * 512 + o) n
take-drop-sector disk s o n w h =
    take-drop n o (disk s) (omega (arith, w s))
    ∙ values-eq (at (disk s)) (byte_at disk) o (s * 512 + o) n (λ i l.
      let next : s * 512 + (o + i) ≡ s * 512 + o + i = omega arith in
      byte_at-sector disk s (o + i) (omega arith) ∙ ap (byte_at disk) next)

pub take_all : (l : List ℕ) (n : ℕ) → length l ≡ n → take n l ≡ l
take_all [] zero h = refl
take_all [] (suc n) h = refl
take_all (x ∷ l) zero h = absurd (omega arith)
take_all (x ∷ l) (suc n) h = ap (λ m. x ∷ m) (take_all l n (omega arith))

pub sector-values :
    (disk : Disk) (s : ℕ) → IsDisk disk → disk s ≡ values (byte_at disk) (s * 512 + 0) 512
sector-values disk s w =
    sym (take_all (disk s) 512 (w s)) ∙ take-drop-sector disk s 0 512 w (omega arith)

-- What the loops need of a chunk.
pub record IsChunk (d : InodeDisk) (size offset chunk : ℕ) : Type 0 where
  pub few : chunk ≤ size
  pub inside : offset % 512 + chunk ≤ 512
  pub progress : chunk ≡ 0 → (size ≡ 0) ⊎ (extent d size offset ≡ 0)
  pub rest : extent d size offset ≡ chunk + extent d (size - chunk) (offset + chunk)

pub chunk_size-IsChunk :
    (d : InodeDisk) (size offset : ℕ) → IsChunk d size offset (chunk_size d size offset)
unfolding chunk_size
chunk_size-IsChunk d size offset = record {
  few = ground arith;
  inside = ground arith;
  progress = λ e. ground arith;
  rest = ground arith;
}

-- A sector that is written over from a place on: these bytes change, and no other.
pub byte_at-block_write :
    (disk : Disk) (s o : ℕ) (new : List ℕ) (a : ℕ)
    → IsDisk disk
    → o + length new ≤ 512
    → byte_at (block_write disk s (overwrite (disk s) o new)) a ≡ (
        if leb (s * 512 + o) a && ltb a (s * 512 + o + length new)
        then at new (a - (s * 512 + o))
        else byte_at disk a)
unfolding block_write
byte_at-block_write disk s o new a w h = elim (ℕ_discrete (a / 512) s) [
  | yes q ↦
      let l = overwrite (disk s) o new in
      let n = length new in
      let here : block_write disk s l (a / 512) ≡ l = ground (arith, q) in
      let test : (leb o (a % 512) && ltb (a % 512) (o + n))
          ≡ (leb (s * 512 + o) a && ltb a (s * 512 + o + n)) =
        ground (arith, q) in
      let place : a % 512 - o ≡ a - (s * 512 + o) = omega arith in
      ap (λ m. at m (a % 512)) here
      ∙ at-overwrite (disk s) o new (a % 512) (omega (arith, w s))
      ∙ ap (λ c. if c then at new (a % 512 - o) else at (disk s) (a % 512)) test
      ∙ ap
          (λ j.
            if leb (s * 512 + o) a && ltb a (s * 512 + o + n)
            then at new j
            else at (disk s) (a % 512))
          place
      ∙ ap
          (λ t.
            if leb (s * 512 + o) a && ltb a (s * 512 + o + n)
            then at new (a - (s * 512 + o))
            else at (disk t) (a % 512))
          (sym q)
  | no q ↦ ground (arith, q)
]

pub block_write-IsDisk :
    (disk : Disk) (s : ℕ) (l : List ℕ)
    → IsDisk disk
    → length l ≡ 512
    → IsDisk (block_write disk s l)
unfolding block_write
block_write-IsDisk disk s l w h t = ground (arith, w t)
