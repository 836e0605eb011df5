-- ===== src/Fs/Dir.antt =====
-- fs.c: directories, as files of entries of 16 bytes, and the elements of paths.
use os_fcfs_prirority.Base.{
  ℕ, zero, suc, ◌+◌, ◌-◌, ◌*◌, ◌/◌, not, ◌&&◌, Option, none, some, update, ltb, leb, ◌==◌,
  if◌then◌else◌,
}
use os_fcfs_prirority.Cstring.{strncmp}
use os_fcfs_prirority.Fs.{Blocks, Superblock}
use os_fcfs_prirority.Fs.Inode.{Inode, copy}
use os_fcfs_prirority.Fs.Files.{Devices, readi}
use os_fcfs_prirority.Fs.Cache.{iget}

abbrev pub dirsiz : ℕ
dirsiz = 14

abbrev pub t_dir : ℕ
t_dir = 1

-- `struct dirent`, 16 bytes: the number and the name.
abbrev pub entry_size : ℕ
entry_size = 16

abbrev pub entry_inum : (ℕ → ℕ) → ℕ
entry_inum de = de 0 + 256 * de 1

abbrev pub entry_name : (ℕ → ℕ) → ℕ → ℕ
entry_name de k = de (2 + k)

unfoldable pub namecmp : (ℕ → ℕ) → (ℕ → ℕ) → ℕ
namecmp s t = strncmp s t dirsiz

-- How the loop of `dirlookup` ends: at an entry, with its offset and number, or with none, or in a panic.
pub data Lookup : Type 0 where
  found : ℕ → ℕ → Lookup
  missing : Lookup
  panics : Lookup

-- What `dirlookup` makes of it: the entry of the table of inodes and the offset, or null; none is a
-- panic.
unfoldable pub looked_up : Lookup → (ℕ → Inode) → Option (Option (ℕ × ℕ) × (ℕ → Inode))
looked_up panics c = none
looked_up missing c = some (none, c)
looked_up (found off inum) c = elim (iget inum c) [
  | none ↦ none
  | some (i, c') ↦ some (some (i, off), c')
]

-- The same with the directory and the blocks.
abbrev pub with_dir :
    Option (Option (ℕ × ℕ) × (ℕ → Inode))
    → Inode
    → Blocks
    → Option (Option (ℕ × ℕ) × (ℕ → Inode) × Inode × Blocks)
with_dir none dp s = none
with_dir (some (r, c)) dp s = some (r, c, dp, s)

module _ (sb : Superblock) (dev : Devices) where
  -- The loop of `dirlookup` from offset `off` on, with `de` as it is before; the directory and the
  -- blocks are those after it.
  unfoldable pub dir_scan : ℕ → (ℕ → ℕ) → ℕ → (ℕ → ℕ) → Inode → Blocks → Lookup × Inode × Blocks
  dir_scan zero name off de dp s = (missing, dp, s)
  dir_scan (suc fuel) name off de dp s =
      if ltb off dp.size
      then elim (readi sb dev dp de off entry_size s) [
        | none ↦ (panics, dp, s)
        | some (r, de', dp', s') ↦
            let rest = dir_scan fuel name (off + entry_size) de' dp' s' in
            if r == entry_size
            then (if not (entry_inum de' == 0) && namecmp name (entry_name de') == 0
                then (found off (entry_inum de'), dp', s')
                else rest)
            else (panics, dp', s')
      ]
      else (missing, dp, s)

  -- `dirlookup`.
  unfoldable pub dirlookup :
      (ℕ → ℕ)
      → (ℕ → ℕ)
      → Inode
      → (ℕ → Inode)
      → Blocks
      → Option (Option (ℕ × ℕ) × (ℕ → Inode) × Inode × Blocks)
  dirlookup name de dp c s =
      if dp.kind == t_dir
      then (let l = dir_scan (dp.size / entry_size + 1) name 0 de dp s in
          with_dir (looked_up l.0 c) l.1 l.2)
      else none

abbrev pub slash : ℕ
slash = b'/'

-- `while(*path == '/') path++;`, with fuel.
unfoldable pub skip_slashes : ℕ → (ℕ → ℕ) → ℕ → ℕ
skip_slashes zero text p = p
skip_slashes (suc fuel) text p =
    let rest = skip_slashes fuel text (suc p) in if text p == slash then rest else p

-- `while(*path != '/' && *path != 0) path++;`
unfoldable pub skip_name : ℕ → (ℕ → ℕ) → ℕ → ℕ
skip_name zero text p = p
skip_name (suc fuel) text p =
    let rest = skip_name fuel text (suc p) in
    if not (text p == slash) && not (text p == 0) then rest else p

-- `skipelem` of the text at `path`: the rest of the path and the name, or the null pointer.
unfoldable pub skipelem : ℕ → (ℕ → ℕ) → ℕ → (ℕ → ℕ) → Option (ℕ × (ℕ → ℕ))
skipelem fuel text path name =
    let start = skip_slashes fuel text path in
    if text start == 0
    then none
    else (let end = skip_name fuel text start in
        let len = end - start in
        some (
          skip_slashes fuel text end,
          if leb dirsiz len
              then copy name 0 text start dirsiz
              else update (copy name 0 text start len) len 0,
        ))
