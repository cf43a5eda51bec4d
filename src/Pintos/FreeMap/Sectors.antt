-- ===== src/Pintos/FreeMap/Sectors.antt =====
-- What the free map hands out and takes back.
use group.Shared.{
  ap, ◌*◌, [], ◌∷◌, ℕ, ◌+◌, ◌≤◌, ◌<◌, ◌≡◌, ◌⊎◌, inl, inr, refl, sym, ◌∙◌, Bool, true, false, Option,
  none, some, List, ltb, ◌==◌, if◌then◌else◌, arith, Bool-cases, length,
}
use mathlib.Core.Path.{subst}
use group.Pintos.Bitmap.{byte_cnt, Bitmap, all_bits, set_multiple, elem_cnt}
use group.Pintos.Bitmap.Bit.{bit, IsBitmap, mark-Makes}
use group.Pintos.Bitmap.Ranges.{within, Uniform, contains-cases, set_multiple-Makes, create-Makes}
use group.Pintos.Bitmap.Scan.{IsFirst, Nowhere, scan_and_flip-cases}
use group.Pintos.Inode.{Disk, Inode, encode_word}
use group.Pintos.Inode.Bytes.{IsDisk}
use group.Pintos.Inode.Total.{write_at-Ends}
use group.Pintos.FreeMap.{MapFile, bytes_of, write_map, init, allocate, release}

pub all_bits-true :
    (b : Bitmap) (i cnt : ℕ)
    → IsBitmap b
    → i + cnt ≤ b.bit_cnt
    → Uniform b i cnt true
    → all_bits b i cnt ≡ some true
unfolding all_bits
all_bits-true b i cnt z h u = elim (contains-cases b i cnt false z h) [
  | inr (e, v) ↦ rw (all_bits, e) refl
  | inl (e, (j, p, q, x)) ↦ absurd (clash (bit b j) (u j p q) x)
]
  where
    clash : (v : Bool) → v ≡ true → v ≡ false → ⊥
    clash v p q = cc

-- The bits are those of the other map.
abbrev pub SameBits : Bitmap → Bitmap → Type 0
SameBits b b' = (b'.bit_cnt ≡ b.bit_cnt) × ((j : ℕ) → bit b' j ≡ bit b j)

pub undo :
    (b b' : Bitmap) (i cnt : ℕ)
    → IsBitmap b'
    → b'.bit_cnt ≡ b.bit_cnt
    → i + cnt ≤ b.bit_cnt
    → Uniform b i cnt false
    → ((j : ℕ) → bit b' j ≡ (if within i cnt j then true else bit b j))
    → (c : Bitmap) × (set_multiple b' i cnt false ≡ some c) × IsBitmap c × SameBits b c
undo b b' i cnt z n h u f =
    let (c, e, z', m, g) = set_multiple-Makes b' i cnt false z (omega (arith, n)) in
    (
      c,
      e,
      z',
      (
        m ∙ n,
        λ j. g j ∙ elim (Bool-cases (within i cnt j)) [
          | inl w ↦ rw w (sym (u j (ground (arith, w)) (ground (arith, w))))
          | inr w ↦ rw w (f j ∙ rw w refl)
        ],
      ),
    )

pub length-bytes_of : (l : List ℕ) → length (bytes_of l) ≡ 4 * length l
unfolding bytes_of encode_word
length-bytes_of [] = refl
length-bytes_of (w ∷ l) = omega (arith, length-bytes_of l)

pub map_bytes : (b : Bitmap) → IsBitmap b → byte_cnt b.bit_cnt ≡ length (bytes_of b.bits)
unfolding byte_cnt
map_bytes b z = omega (arith, length-bytes_of b.bits, z)

-- The write of the map to its file ends, whether it succeeds or not.
pub write_map-Ends :
    (bounce : Bool) (disk : Disk) (i : Inode) (b : Bitmap)
    → (ok : Bool) × (disk' : Disk) × (write_map bounce disk i b ≡ some (ok, disk'))
      × (IsBitmap b → IsDisk disk → IsDisk disk')
unfolding write_map
write_map-Ends bounce disk i b =
    let size = byte_cnt b.bit_cnt in
    let (n, disk', e, f) = write_at-Ends bounce disk i (bytes_of b.bits) size 0 in
    (n == size, disk', rw (write_map, e) refl, λ z w. f w (omega (arith, map_bytes b z)))

-- Nothing is allocated, and the bits stay: there is no place, or the map cannot be written to its file.
abbrev pub Refuses : Bool → MapFile → Disk → Bitmap → ℕ → Option (Option ℕ × Bitmap × Disk) → Type 0
Refuses bounce file disk b cnt o =
    (b' : Bitmap) × (disk' : Disk) × (o ≡ some (none, b', disk'))
    × IsBitmap b'
    × SameBits b b'
    × ((Nowhere b 0 cnt false × (disk' ≡ disk))
        ⊎ ((i : Inode) × (c : Bitmap) × (file ≡ some (some i))
            × (write_map bounce disk i c ≡ some (false, disk'))))

-- The map is in its file, if there is one.
abbrev pub Stored : Bool → MapFile → Disk → Bitmap → Disk → Type 0
Stored bounce file disk b disk' =
    ((file ≡ none) × (disk' ≡ disk))
    ⊎ ((i : Inode) × (file ≡ some (some i)) × (write_map bounce disk i b ≡ some (true, disk')))

pub Stored-IsDisk :
    (bounce : Bool) (file : MapFile) (disk : Disk) (b : Bitmap) (disk' : Disk)
    → Stored bounce file disk b disk'
    → IsBitmap b
    → IsDisk disk
    → IsDisk disk'
Stored-IsDisk bounce file disk b disk' (inl (e, q)) z w = subst IsDisk (sym q) w
Stored-IsDisk bounce file disk b disk' (inr (i, e, r)) z w =
    let (ok, d, q, f) = write_map-Ends bounce disk i b in
    subst IsDisk (same true ok disk' d (sym r ∙ q)) (f z w)
  where
    same :
        (o p : Bool) (d e : Disk)
        → ◌≡◌ {A = Option (Bool × Disk)} (some (o, d)) (some (p, e))
        → e ≡ d
    same o p d e q = cc

-- The first free place is allocated.
abbrev pub Takes : Bool → MapFile → Disk → Bitmap → ℕ → Option (Option ℕ × Bitmap × Disk) → Type 0
Takes bounce file disk b cnt o =
    (i : ℕ) × (b' : Bitmap) × (disk' : Disk) × (o ≡ some (some i, b', disk'))
    × IsFirst b 0 cnt false i
    × IsBitmap b'
    × (b'.bit_cnt ≡ b.bit_cnt)
    × ((j : ℕ) → bit b' j ≡ (if within i cnt j then true else bit b j))
    × Stored bounce file disk b' disk'

-- The file is freed.
abbrev pub Dangles : MapFile → Option (Option ℕ × Bitmap × Disk) → Type 0
Dangles file o = (file ≡ some none) × (o ≡ none)

abbrev pub Allocates :
    Bool → MapFile → Disk → Bitmap → ℕ → Option (Option ℕ × Bitmap × Disk) → Type 0
Allocates bounce file disk b cnt o =
    Refuses bounce file disk b cnt o ⊎ (Takes bounce file disk b cnt o ⊎ Dangles file o)

pub allocate-cases :
    (bounce : Bool) (file : MapFile) (disk : Disk) (b : Bitmap) (cnt : ℕ)
    → IsBitmap b
    → Allocates bounce file disk b cnt (allocate bounce file disk b cnt)
unfolding allocate
allocate-cases bounce file disk b cnt z = elim (scan_and_flip-cases b 0 cnt false z (omega arith)) [
  | inl (e, m) ↦ inl (b, disk, rw (allocate, e) refl, z, (refl, λ j. refl), inl (m, refl))
  | inr (k, b', e, f, z', n, g) ↦
      elim file as (λ x. Allocates bounce x disk b cnt (allocate bounce x disk b cnt)) [
        | none ↦ inr (inl (k, b', disk, rw (allocate, e) refl, f, z', n, g, inl (refl, refl)))
        | some none ↦ inr (inr (refl, rw (allocate, e) refl))
        | some (some i) ↦
            let (ok, disk', r, d) = write_map-Ends bounce disk i b' in
            elim (Bool-cases ok) [
              | inl t ↦
                  let r' = r ∙ ap (λ x. some (x, disk')) t in
                  inr
                    (inl (k, b', disk', rw (allocate, e, r') refl, f, z', n, g, inr (i, refl, r')))
              | inr t ↦
                  let r' = r ∙ ap (λ x. some (x, disk')) t in
                  let (c, s, z'', m) = undo b b' k cnt z' n f.inside f.group g in
                  inl (c, disk', rw (allocate, e, r', s) refl, z'', m, inr (i, b', refl, r'))
            ]
      ]
]

-- A range that is all in use is given back, and the map is written to its file.
pub release-Makes :
    (bounce : Bool) (mi : Inode) (disk : Disk) (b : Bitmap) (i n : ℕ)
    → IsBitmap b
    → i + n ≤ b.bit_cnt
    → Uniform b i n true
    → (c : Bitmap) × (ok : Bool) × (disk' : Disk) × (release bounce (some (some mi)) disk b i n
        ≡ some (c, disk'))
      × (write_map bounce disk mi c ≡ some (ok, disk'))
      × IsBitmap c
      × (c.bit_cnt ≡ b.bit_cnt)
      × ((j : ℕ) → bit c j ≡ (if within i n j then false else bit b j))
unfolding release
release-Makes bounce mi disk b i n z h u =
    let (c, e, z', m, g) = set_multiple-Makes b i n false z h in
    let (ok, disk', r, d) = write_map-Ends bounce disk mi c in
    (c, ok, disk', rw (release, all_bits-true b i n z h u, e, r) refl, r, z', m, g)

-- The sectors that were allocated are given back.
pub release-allocate :
    (bounce : Bool) (mi : Inode) (disk disk' : Disk) (b b' : Bitmap) (cnt i : ℕ)
    → IsBitmap b
    → allocate bounce (some (some mi)) disk b cnt ≡ some (some i, b', disk')
    → (c : Bitmap) × (last : Disk) × (release bounce (some (some mi)) disk' b' i cnt
        ≡ some (c, last))
      × IsBitmap c
      × SameBits b c
release-allocate bounce mi disk disk' b b' cnt i z h =
    elim (allocate-cases bounce (some (some mi)) disk b cnt z) [
      | inl (c, d, e, _, _, _) ↦ absurd (no_place i b' c disk' d (sym h ∙ e))
      | inr (inr (e, _)) ↦ absurd (not_freed mi e)
      | inr (inl (k, c, d, e, f, z', n, g, _)) ↦
          let (p, q, r) = same_place i k b' c disk' d (sym h ∙ e) in
          let Back = λ (x : ℕ) (y : Bitmap) (w : Disk).
            (a : Bitmap) × (last : Disk) × (release bounce (some (some mi)) w y x cnt
              ≡ some (a, last))
            × IsBitmap a
            × SameBits b a in
          let full =
            λ (j : ℕ) (l : k ≤ j) (r : j < k + cnt). g j ∙ rw (inside_range k cnt j l r) refl in
          let (a, ok, last, s, _, za, na, ga) =
            release-Makes bounce mi d c k cnt z' (subst (λ x. k + cnt ≤ x) (sym n) f.inside) full in
          let same : SameBits b a = (
            na ∙ n,
            λ j. restored k cnt j (bit a j) (bit c j) (bit b j) (ga j) (g j) (f.group j),
          ) in
          subst (λ x. Back x b' disk') (sym p)
            (subst (λ y. Back k y disk') (sym q)
              (subst (λ w. Back k c w) (sym r) (a, last, s, za, same)))
    ]
  where
    no_place :
        (i : ℕ) (b c : Bitmap) (d d' : Disk)
        → ◌≡◌ {A = Option (Option ℕ × Bitmap × Disk)} (some (some i, b, d)) (some (none, c, d'))
        → ⊥
    no_place i b c d d' e = cc

    not_freed : (i : Inode) → ◌≡◌ {A = MapFile} (some (some i)) (some none) → ⊥
    not_freed i e = cc

    same_place :
        (i k : ℕ) (b c : Bitmap) (d d' : Disk)
        → ◌≡◌ {A = Option (Option ℕ × Bitmap × Disk)} (some (some i, b, d)) (some (some k, c, d'))
        → (i ≡ k) × (b ≡ c) × (d ≡ d')
    same_place i k b c d d' e = (cc, cc, cc)

    inside_range : (i cnt j : ℕ) → i ≤ j → j < i + cnt → within i cnt j ≡ true
    inside_range i cnt j p q = ground arith

    restored :
        (i cnt j : ℕ) (x y v : Bool)
        → x ≡ (if within i cnt j then false else y)
        → y ≡ (if within i cnt j then true else v)
        → (i ≤ j → j < i + cnt → v ≡ false)
        → x ≡ v
    restored i cnt j x y v p q f = elim (Bool-cases (within i cnt j)) [
      | inl e ↦ let free = f (ground (arith, e)) (ground (arith, e)) in ground (arith, e, free)
      | inr e ↦ ground (arith, e)
    ]

-- After `free_map_init` the two sectors of the file system itself are in use, and no other.
pub init-bits :
    (contents : List ℕ) (sectors : ℕ)
    → length contents ≡ elem_cnt sectors
    → 2 ≤ sectors
    → (b : Bitmap) × (init true (some contents) sectors ≡ some b)
      × IsBitmap b
      × (b.bit_cnt ≡ sectors)
      × ((j : ℕ) → j < sectors → bit b j ≡ ltb j 2)
unfolding init
init-bits contents sectors h l =
    let (b, e, z, n, u) = create-Makes contents sectors h in
    let (c, e', z', n', f) = mark-Makes b 0 z (omega (arith, n)) in
    let (d, e'', z'', n'', g) = mark-Makes c 1 z' (omega (arith, n, n')) in
    (
      d,
      rw (init, e, e') e'',
      z'',
      n'' ∙ n' ∙ n,
      λ j q. g j ∙ both j (bit c j) (bit b j) (f j) (u j (omega arith) (omega arith)),
    )
  where
    both :
        (j : ℕ) (x y : Bool)
        → x ≡ (if j == 0 then true else y)
        → y ≡ false
        → (if j == 1 then true else x) ≡ ltb j 2
    both j x y p q = ground arith
