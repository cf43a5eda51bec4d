-- ===== src/Pintos/Inode/Codec.antt =====
-- An inode is read from its sector as it was written to it.
use group.Shared.{ℕ, ◌+◌, ◌*◌, ◌/◌, ◌%◌, ◌<◌, ◌≡◌, refl, length, arith}
use group.Pintos.Inode.{InodeDisk, encode, decode}

abbrev pub IsStorable : InodeDisk → Type 0
IsStorable d = (d.start < 4294967296) × (d.length < 4294967296) × (d.magic < 4294967296)

word :
    (n : ℕ)
    → n < 4294967296
    → n % 256 + 256 * (n / 256 % 256) + 65536 * (n / 65536 % 256) + 16777216 * (n / 16777216 % 256)
      ≡ n
word n h = omega arith

pub decode-encode : (d : InodeDisk) → IsStorable d → decode (encode d) ≡ d
unfolding encode decode
decode-encode d (p, q, r) =
    let start = word d.start p in let size = word d.length q in let magic = word d.magic r in cc

pub length-encode : (d : InodeDisk) → length (encode d) ≡ 512
unfolding encode
length-encode d = refl
