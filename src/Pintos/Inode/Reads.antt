-- ===== src/Pintos/Inode/Reads.antt =====
-- `inode_read_at` returns the bytes of the file.
use group.Shared.{
  ℕ, zero, suc, ◌+◌, ◌-◌, ◌*◌, ◌%◌, ◌≤◌, ◌<◌, ◌≡◌, inl, inr, sym, ap, ◌∙◌, true, ◌&&◌, some, ◌++◌,
  ◌==◌, take, drop, values, values-append, Bool-cases, arith,
}
use group.Pintos.Inode.{Disk, InodeDisk, Inode, chunk_size, byte_to_sector, read_loop, read_at}
use group.Pintos.Inode.Bytes.{
  IsDisk, byte_at, address, extent, take-drop-sector, sector-values, IsChunk, chunk_size-IsChunk,
}

-- The bytes of a round and those of the others.
joined :
    (disk : Disk) (d : InodeDisk) (size offset chunk : ℕ)
    → IsChunk d size offset chunk
    → values (byte_at disk) (address d offset) chunk
        ++ values
            (byte_at disk)
            (address d (offset + chunk))
            (extent d (size - chunk) (offset + chunk))
      ≡ values (byte_at disk) (address d offset) (extent d size offset)
joined disk d size offset chunk c =
    let next : address d (offset + chunk) ≡ address d offset + chunk = omega arith in
    ap
      (λ a.
        values (byte_at disk) (address d offset) chunk
        ++ values (byte_at disk) a (extent d (size - chunk) (offset + chunk)))
      next
    ∙ values-append (byte_at disk) (address d offset) chunk
        (extent d (size - chunk) (offset + chunk))
    ∙ ap (values (byte_at disk) (address d offset)) (sym c.rest)

pub sector_address :
    (d : InodeDisk) (offset : ℕ) → byte_to_sector d offset * 512 + offset % 512 ≡ address d offset
unfolding byte_to_sector
sector_address d offset = omega arith

pub finished :
    (d : InodeDisk) (size offset chunk : ℕ)
    → IsChunk d size offset chunk
    → (chunk == 0) ≡ true
    → 0 ≡ extent d size offset
finished d size offset chunk c e = elim (c.progress (ground arith)) [
  | inl p ↦ ground arith
  | inr p ↦ sym p
]

whole_sector :
    (disk : Disk) (d : InodeDisk) (offset chunk : ℕ)
    → IsDisk disk
    → (offset % 512 == 0 && chunk == 512) ≡ true
    → disk (byte_to_sector d offset) ≡ values (byte_at disk) (address d offset) chunk
whole_sector disk d offset chunk w e =
    let here : byte_to_sector d offset * 512 + 0 ≡ address d offset =
      ground (arith, sector_address d offset) in
    let all : 512 ≡ chunk = ground arith in
    sector-values disk (byte_to_sector d offset) w
    ∙ ap (λ a. values (byte_at disk) a 512) here
    ∙ ap (values (byte_at disk) (address d offset)) all

part_sector :
    (disk : Disk) (d : InodeDisk) (offset chunk : ℕ)
    → IsDisk disk
    → offset % 512 + chunk ≤ 512
    → take chunk (drop (offset % 512) (disk (byte_to_sector d offset)))
      ≡ values (byte_at disk) (address d offset) chunk
part_sector disk d offset chunk w h =
    take-drop-sector disk (byte_to_sector d offset) (offset % 512) chunk w h
    ∙ ap (λ a. values (byte_at disk) a chunk) (sector_address d offset)

read_loop_lem :
    (disk : Disk) (d : InodeDisk) (fuel size offset : ℕ)
    → IsDisk disk
    → size < fuel
    → read_loop true disk d fuel size offset
      ≡ some (values (byte_at disk) (address d offset) (extent d size offset))
unfolding read_loop
read_loop_lem disk d zero size offset w f = absurd (omega arith)
read_loop_lem disk d (suc fuel) size offset w f =
    let chunk = chunk_size d size offset in
    let c = chunk_size-IsChunk d size offset in
    let left = extent d (size - chunk) (offset + chunk) in
    elim (Bool-cases (size == 0)) [
      | inl none_asked ↦
          let done : 0 ≡ extent d size offset = ground arith in
          rw (read_loop, none_asked)
            (ap (λ n. some (values (byte_at disk) (address d offset) n)) done)
      | inr asked ↦ elim (Bool-cases (chunk == 0)) [
        | inl none_left ↦
            let done : 0 ≡ extent d size offset = finished d size offset chunk c none_left in
            rw (read_loop, asked, none_left)
              (ap (λ n. some (values (byte_at disk) (address d offset) n)) done)
        | inr some_left ↦
            let rest =
              read_loop_lem disk d fuel (size - chunk) (offset + chunk) w (ground (arith, c.few)) in
            elim (Bool-cases (offset % 512 == 0 && chunk == 512)) [
              | inl whole ↦
                  rw (read_loop, asked, some_left, whole, rest)
                    (ap (λ l. some (l ++ values (byte_at disk) (address d (offset + chunk)) left))
                        (whole_sector disk d offset chunk w whole)
                      ∙ ap some (joined disk d size offset chunk c))
              | inr part ↦
                  rw (read_loop, asked, some_left, part, rest)
                    (ap (λ l. some (l ++ values (byte_at disk) (address d (offset + chunk)) left))
                        (part_sector disk d offset chunk w c.inside)
                      ∙ ap some (joined disk d size offset chunk c))
            ]
      ]
    ]

-- The bytes from the offset on, as many as asked for or up to the end of the file.
pub read_at-values :
    (disk : Disk) (inode : Inode) (size offset : ℕ)
    → IsDisk disk
    → read_at true disk inode size offset
      ≡ some (values (byte_at disk) (address inode.info offset) (extent inode.info size offset))
unfolding read_at
read_at-values disk inode size offset w =
    read_loop_lem disk inode.info (suc size) size offset w (omega arith)
