-- ===== src/Pintos/Inodes/Life.antt =====
-- The calls that change the list of open inodes.
use group.Shared.{
  ℕ, suc, ◌-◌, ◌<◌, ◌≡◌, inl, inr, refl, sym, ap, ◌∙◌, Bool, true, false, Option, none, some, List,
  ltb, leb, ◌==◌, Bool-cases, arith,
}
use mathlib.Core.Path.{subst}
use group.Pintos.Inode.{Disk, Inode, InodeDisk, inode_magic, block_write, encode, bytes_to_sectors}
use group.Pintos.Bitmap.{Bitmap}
use group.Pintos.FreeMap.{allocate}
use group.Pintos.Inodes.{
  FileSystem, map_file, zero_loop, find, update, remove_elem, create, reopen, inode_open, close,
  remove, deny_write, allow_write, with_open_cnt, with_deny_write_cnt, with_removed, free_blocks,
  with_open_inodes,
}
use group.Pintos.Inodes.Table.{
  IsTable, found-IsCounted, found_none-Absent, update-IsTable, remove_elem-IsTable,
}

-- A call, on its own protocol: an opener that has denied writes allows them again before it closes.
pub data Step : FileSystem → FileSystem → Type 0 where
  opening :
      (memory : Bool) (fs fs' : FileSystem) (sector : ℕ) (ok : Bool)
      → inode_open memory fs sector ≡ (ok, fs')
      → Step fs fs'
  reopening :
      (fs : FileSystem) (sector : ℕ) (i : Inode)
      → find sector fs.open_inodes ≡ some i
      → Step fs (reopen fs sector)
  closing :
      (bounce : Bool) (fs fs' : FileSystem) (sector : ℕ) (i : Inode)
      → find sector fs.open_inodes ≡ some i
      → i.deny_write_cnt < i.open_cnt
      → close bounce fs sector ≡ some fs'
      → Step fs fs'
  removing : (fs fs' : FileSystem) (sector : ℕ) → remove fs sector ≡ some fs' → Step fs fs'
  denying : (fs fs' : FileSystem) (sector : ℕ) → deny_write fs sector ≡ some fs' → Step fs fs'
  allowing : (fs fs' : FileSystem) (sector : ℕ) → allow_write fs sector ≡ some fs' → Step fs fs'
  creating :
      (memory : Bool) (bounce : Bool) (fs fs' : FileSystem) (sector len : ℕ) (ok : Bool)
      → create memory bounce fs sector len ≡ some (ok, fs')
      → Step fs fs'

pub data Steps : FileSystem → FileSystem → Type 0 where
  done : (fs : FileSystem) → Steps fs fs
  after : (fs fs' fs'' : FileSystem) → Step fs fs' → Steps fs' fs'' → Steps fs fs''

-- What a successful call leaves.
outcome :
    (fs fs' : FileSystem)
    → ◌≡◌ {A = Option FileSystem} (some fs) (some fs')
    → IsTable fs.open_inodes
    → IsTable fs'.open_inodes
outcome fs fs' e t = subst (λ x. IsTable x.open_inodes) (injected fs fs' e) t
  where
    injected : (fs fs' : FileSystem) → ◌≡◌ {A = Option FileSystem} (some fs) (some fs') → fs ≡ fs'
    injected fs fs' e = cc

failed : {P : Type 0} → (fs : FileSystem) → ◌≡◌ {A = Option FileSystem} none (some fs) → P
failed fs e = cc

reopen_lem :
    (fs : FileSystem) (sector : ℕ) (i : Inode)
    → find sector fs.open_inodes ≡ some i
    → IsTable fs.open_inodes
    → IsTable (reopen fs sector).open_inodes
unfolding reopen
reopen_lem fs sector i e t =
    let c = found-IsCounted sector fs.open_inodes i e t in
    update-IsTable (λ i. with_open_cnt (suc i.open_cnt) i) sector fs.open_inodes i (λ i. refl) e
      (omega arith, omega (arith, c.1)) t

open_lem :
    (memory : Bool) (fs : FileSystem) (sector : ℕ) (o : Option Inode)
    → find sector fs.open_inodes ≡ o
    → IsTable fs.open_inodes
    → IsTable (inode_open memory fs sector).1.open_inodes
unfolding inode_open
open_lem memory fs sector (some i) e t = rw (inode_open, e) (reopen_lem fs sector i e t)
open_lem true fs sector none e t =
    rw (inode_open, e) (found_none-Absent sector fs.open_inodes e, (omega arith, omega arith), t)
open_lem false fs sector none e t = rw (inode_open, e) t

close_lem :
    (bounce : Bool) (fs fs' : FileSystem) (sector : ℕ) (i : Inode)
    → find sector fs.open_inodes ≡ some i
    → i.deny_write_cnt < i.open_cnt
    → close bounce fs sector ≡ some fs'
    → IsTable fs.open_inodes
    → IsTable fs'.open_inodes
unfolding close
close_lem bounce fs fs' sector i e d h t =
    let rest = with_open_inodes (remove_elem sector fs.open_inodes) fs in
    let gone = remove_elem-IsTable sector fs.open_inodes t in
    let lower = update (λ i. with_open_cnt (i.open_cnt - 1) i) sector fs.open_inodes in
    elim (Bool-cases (i.open_cnt == 1)) [
      | inr more ↦
          let left =
            update-IsTable (λ i. with_open_cnt (i.open_cnt - 1) i) sector fs.open_inodes i
              (λ i. refl) e (ground arith, omega arith) t in
          outcome (with_open_inodes lower fs) fs' (sym (rw (close, e, more) refl) ∙ h) left
      | inl last ↦ elim (Bool-cases i.removed) [
        | inr kept ↦ outcome rest fs' (sym (rw (close, e, last, kept) refl) ∙ h) gone
        | inl deleted ↦
            blocks (free_blocks bounce (map_file fs) fs.disk fs.map i)
              (sym (rw (close, e, last, deleted) refl) ∙ h) gone
      ]
    ]
  where
    l : List Inode
    l = remove_elem sector fs.open_inodes

    blocks :
        (o : Option (Bitmap × Disk))
        → ◌≡◌ {A = Option FileSystem}
            (elim o [
              | none ↦ none
              | some (map, disk) ↦ some (record fs { disk = disk; map = map; open_inodes = l })
            ])
            (some fs')
        → IsTable l
        → IsTable fs'.open_inodes
    blocks none h t = failed fs' h
    blocks (some (map, disk)) h t =
        outcome (record fs { disk = disk; map = map; open_inodes = l }) fs' h t

remove_lem :
    (fs fs' : FileSystem) (sector : ℕ) (o : Option Inode)
    → find sector fs.open_inodes ≡ o
    → remove fs sector ≡ some fs'
    → IsTable fs.open_inodes
    → IsTable fs'.open_inodes
unfolding remove
remove_lem fs fs' sector none e h t = failed fs' (sym (rw (remove, e) refl) ∙ h)
remove_lem fs fs' sector (some i) e h t =
    outcome (with_open_inodes (update with_removed sector fs.open_inodes) fs) fs'
      (sym (rw (remove, e) refl) ∙ h)
      (update-IsTable with_removed sector fs.open_inodes i (λ i. refl) e
        (found-IsCounted sector fs.open_inodes i e t) t)

deny_write_lem :
    (fs fs' : FileSystem) (sector : ℕ) (o : Option Inode)
    → find sector fs.open_inodes ≡ o
    → deny_write fs sector ≡ some fs'
    → IsTable fs.open_inodes
    → IsTable fs'.open_inodes
unfolding deny_write
deny_write_lem fs fs' sector none e h t = failed fs' (sym (rw (deny_write, e) refl) ∙ h)
deny_write_lem fs fs' sector (some i) e h t =
    let up = λ (i : Inode). with_deny_write_cnt (suc i.deny_write_cnt) i in
    elim (Bool-cases (leb (suc i.deny_write_cnt) i.open_cnt)) [
      | inr many ↦ failed fs' (sym (rw (deny_write, e, many) refl) ∙ h)
      | inl few ↦
          outcome (with_open_inodes (update up sector fs.open_inodes) fs) fs'
            (sym (rw (deny_write, e, few) refl) ∙ h)
            (update-IsTable up sector fs.open_inodes i (λ i. refl) e (ground arith, ground arith) t)
    ]

allow_write_lem :
    (fs fs' : FileSystem) (sector : ℕ) (o : Option Inode)
    → find sector fs.open_inodes ≡ o
    → allow_write fs sector ≡ some fs'
    → IsTable fs.open_inodes
    → IsTable fs'.open_inodes
unfolding allow_write
allow_write_lem fs fs' sector none e h t = failed fs' (sym (rw (allow_write, e) refl) ∙ h)
allow_write_lem fs fs' sector (some i) e h t =
    let down = λ (i : Inode). with_deny_write_cnt (i.deny_write_cnt - 1) i in
    elim (Bool-cases (ltb 0 i.deny_write_cnt)) [
      | inr unmatched ↦ failed fs' (sym (rw (allow_write, e, unmatched) refl) ∙ h)
      | inl denied ↦ elim (Bool-cases (leb i.deny_write_cnt i.open_cnt)) [
        | inr many ↦ failed fs' (sym (rw (allow_write, e, denied, many) refl) ∙ h)
        | inl few ↦
            outcome (with_open_inodes (update down sector fs.open_inodes) fs) fs'
              (sym (rw (allow_write, e, denied, few) refl) ∙ h)
              (update-IsTable down sector fs.open_inodes i (λ i. refl) e
                (ground arith, ground arith) t)
      ]
    ]

-- `inode_create` opens nothing.
created :
    (ok ok' : Bool) (fs fs' : FileSystem)
    → ◌≡◌ {A = Option (Bool × FileSystem)} (some (ok, fs)) (some (ok', fs'))
    → fs.open_inodes ≡ fs'.open_inodes
created ok ok' fs fs' e = ap (λ x. x.open_inodes) (injected ok ok' fs fs' e)
  where
    injected :
        (ok ok' : Bool) (fs fs' : FileSystem)
        → ◌≡◌ {A = Option (Bool × FileSystem)} (some (ok, fs)) (some (ok', fs'))
        → fs ≡ fs'
    injected ok ok' fs fs' e = cc

create_lem :
    (memory : Bool) (bounce : Bool) (fs fs' : FileSystem) (sector len : ℕ) (ok : Bool)
    (o : Option (Option ℕ × Bitmap × Disk))
    → allocate bounce (map_file fs) fs.disk fs.map (bytes_to_sectors len) ≡ o
    → create memory bounce fs sector len ≡ some (ok, fs')
    → fs.open_inodes ≡ fs'.open_inodes
unfolding create
create_lem false bounce fs fs' sector len ok o e h = created false ok fs fs' h
create_lem true bounce fs fs' sector len ok none e h =
    absurd (nothing ok fs' (sym (rw (create, e) refl) ∙ h))
  where
    nothing :
        (ok : Bool) (fs : FileSystem)
        → ◌≡◌ {A = Option (Bool × FileSystem)} none (some (ok, fs))
        → ⊥
    nothing ok fs e = cc
create_lem true bounce fs fs' sector len ok (some (none, map, disk)) e h =
    created false ok (record fs { disk = disk; map = map }) fs' (sym (rw (create, e) refl) ∙ h)
create_lem true bounce fs fs' sector len ok (some (some start, map, disk)) e h =
    let d : InodeDisk = record { start = start; length = len; magic = inode_magic } in
    created true ok
      (record fs {
        disk = zero_loop (block_write disk sector (encode d)) start (bytes_to_sectors len);
        map = map;
      })
      fs' (sym (rw (create, e) refl) ∙ h)

pub step-IsTable :
    (fs fs' : FileSystem) → Step fs fs' → IsTable fs.open_inodes → IsTable fs'.open_inodes
step-IsTable fs fs' (opening memory _ _ sector ok e) t =
    subst (λ p. IsTable p.1.open_inodes) e
      (open_lem memory fs sector (find sector fs.open_inodes) refl t)
step-IsTable fs _ (reopening _ sector i e) t = reopen_lem fs sector i e t
step-IsTable fs fs' (closing bounce _ _ sector i e d h) t = close_lem bounce fs fs' sector i e d h t
step-IsTable fs fs' (removing _ _ sector h) t =
    remove_lem fs fs' sector (find sector fs.open_inodes) refl h t
step-IsTable fs fs' (denying _ _ sector h) t =
    deny_write_lem fs fs' sector (find sector fs.open_inodes) refl h t
step-IsTable fs fs' (allowing _ _ sector h) t =
    allow_write_lem fs fs' sector (find sector fs.open_inodes) refl h t
step-IsTable fs fs' (creating memory bounce _ _ sector len ok h) t =
    subst IsTable
      (create_lem memory bounce fs fs' sector len ok
        (allocate bounce (map_file fs) fs.disk fs.map (bytes_to_sectors len)) refl h)
      t

-- In every sequence of calls of inode_open, inode_reopen, inode_close, inode_remove,
-- inode_deny_write, inode_allow_write and inode_create that fail no ASSERT, are made on open
-- inodes, and where an inode is closed only while it has more openers than denials: if before
-- them no two inodes of the list have the same sector and each has an opener and at most as many
-- denials as openers, then so it is after them.
pub steps-IsTable :
    (fs fs' : FileSystem) → Steps fs fs' → IsTable fs.open_inodes → IsTable fs'.open_inodes
steps-IsTable fs _ (done _) t = t
steps-IsTable fs fs'' (after _ fs' _ s r) t = steps-IsTable fs' fs'' r (step-IsTable fs fs' s t)
