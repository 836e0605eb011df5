-- ===== src/Fs/Dirlink.antt =====
-- `dirlink` of fs.c.
pub mod Free
pub mod Linked
use os_fcfs_prirority.Base.{
  ℕ, zero, suc, ◌+◌, ◌-◌, ◌*◌, ◌/◌, ◌%◌, Option, none, some, ltb, ◌==◌, if◌then◌else◌,
}
use os_fcfs_prirority.Cstring.{strncpy}
use os_fcfs_prirority.Fs.{Blocks, Superblock}
use os_fcfs_prirority.Fs.Inode.{Inode, failed}
use os_fcfs_prirority.Fs.Files.{Devices, readi, writei}
use os_fcfs_prirority.Fs.Cache.{iput}
use os_fcfs_prirority.Fs.Dir.{dirsiz, entry_size, entry_inum, entry_name, dirlookup}

-- `strncpy(de.name, name, DIRSIZ); de.inum = inum;`, of the 16 bytes of `de`.
abbrev pub new_entry : (ℕ → ℕ) → (ℕ → ℕ) → ℕ → ℕ → ℕ
new_entry de name inum i =
    if ltb i 2
    then (if i == 0 then inum % 256 else inum / 256 % 256)
    else strncpy (entry_name de) name dirsiz (i - 2)

-- What `dirlink` returns, the table of inodes, the directory and the blocks; none is a panic.
abbrev pub Linked : Type 0
Linked = Option (ℕ × (ℕ → Inode) × Inode × Blocks)

module _ (sb : Superblock) (dev : Devices) where
  -- The loop over the entries from offset `off` on: the offset, `de`, the directory and the blocks
  -- after it; none is a panic.
  unfoldable pub free_scan :
      ℕ → ℕ → (ℕ → ℕ) → Inode → Blocks → Option (ℕ × (ℕ → ℕ) × Inode × Blocks)
  free_scan zero off de dp s = some (off, de, dp, s)
  free_scan (suc fuel) off de dp s =
      if ltb off dp.size
      then elim (readi sb dev dp de off entry_size s) [
        | none ↦ none
        | some (r, de', dp', s') ↦
            let rest = free_scan fuel (off + entry_size) de' dp' s' in
            if r == entry_size
            then (if entry_inum de' == 0 then some (off, de', dp', s') else rest)
            else none
      ]
      else some (off, de, dp, s)

  -- `if(writei(dp, (char*)&de, off, sizeof(de)) != sizeof(de)) panic("dirlink"); return 0;`
  abbrev pub put_entry : (ℕ → ℕ) → ℕ → (ℕ → Inode) → Inode → Blocks → Linked
  put_entry de off c dp s = elim (writei sb dev dp de off entry_size s) [
    | none ↦ none
    | some (r, dp', s') ↦ if r == entry_size then some (0, c, dp', s') else none
  ]

  -- `iput(ip); return -1;`
  abbrev pub already_there : ℕ → (ℕ → Inode) → Inode → Blocks → Linked
  already_there i c dp s = elim (iput sb i c s) [
    | none ↦ none
    | some (c', s') ↦ some (failed, c', dp, s')
  ]

  abbrev pub link_entry : (ℕ → ℕ) → ℕ → (ℕ → ℕ) → (ℕ → Inode) → Inode → Blocks → Linked
  link_entry name inum de c dp s = elim (free_scan (dp.size / entry_size + 1) 0 de dp s) [
    | none ↦ none
    | some (off, de', dp', s') ↦ put_entry (new_entry de' name inum) off c dp' s'
  ]

  -- What follows `dirlookup`.
  abbrev pub after_lookup :
      (ℕ → ℕ) → ℕ → (ℕ → ℕ) → Option (Option (ℕ × ℕ) × (ℕ → Inode) × Inode × Blocks) → Linked
  after_lookup name inum de none = none
  after_lookup name inum de (some (some (i, off), c, dp, s)) = already_there i c dp s
  after_lookup name inum de (some (none, c, dp, s)) = link_entry name inum de c dp s

  -- `dirlink`, with `looked` for the entry that `dirlookup` reads into.
  unfoldable pub dirlink : (ℕ → ℕ) → ℕ → (ℕ → ℕ) → (ℕ → ℕ) → Inode → (ℕ → Inode) → Blocks → Linked
  dirlink name inum looked de dp c s =
      after_lookup name inum de (dirlookup sb dev name looked dp c s)
