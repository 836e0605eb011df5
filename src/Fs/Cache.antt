-- ===== src/Fs/Cache.antt =====
-- fs.c: the table of inodes in memory, `icache`. A pointer to an inode is its index there.
use os_fcfs_prirority.Base.{
  ℕ, zero, suc, ◌+◌, ◌-◌, ◌*◌, ◌%◌, false, ◌&&◌, Option, none, some, update, ltb, leb, ◌==◌,
  if◌then◌else◌,
}
use os_fcfs_prirority.Fs.{Blocks, Superblock, get_short, put_short}
use os_fcfs_prirority.Fs.Inode.{Inode}
use os_fcfs_prirority.Fs.Files.{ipb, iblock, iupdate, itrunc}

abbrev pub ninode : ℕ
ninode = 50

-- The loop of `iget`, from entry `i` on: the inode is in the table, or the first entry that is empty,
-- or neither.
pub data Seen : Type 0 where
  cached : ℕ → Seen
  vacant : ℕ → Seen
  full : Seen

abbrev pub ended_with : Option ℕ → Seen
ended_with none = full
ended_with (some e) = vacant e

-- `if(empty == 0 && ip->ref == 0) empty = ip;`
abbrev pub remember : Option ℕ → ℕ → Inode → Option ℕ
remember none i ip = if ip.ref == 0 then some i else none
remember (some e) i ip = some e

unfoldable pub iget_scan : ℕ → ℕ → ℕ → Option ℕ → (ℕ → Inode) → Seen
iget_scan inum zero i empty c = ended_with empty
iget_scan inum (suc n) i empty c =
    let rest = iget_scan inum n (suc i) (remember empty i (c i)) c in
    if ltb 0 (c i).ref && (c i).inum == inum then cached i else rest

-- `iget`: the entry, and the table; none is the panic.
unfoldable pub iget : ℕ → (ℕ → Inode) → Option (ℕ × (ℕ → Inode))
iget inum c = elim (iget_scan inum ninode 0 none c) [
  | cached i ↦ some (i, update c i (record (c i) { ref = (c i).ref + 1 }))
  | vacant i ↦ some (i, update c i (record (c i) { inum = inum; ref = 1; valid = false }))
  | full ↦ none
]

unfoldable pub idup : ℕ → (ℕ → Inode) → ℕ → Inode
idup i c = update c i (record (c i) { ref = (c i).ref + 1 })

module _ (sb : Superblock) where
  -- The reference is dropped.
  abbrev pub unref : ℕ → Inode → (ℕ → Inode) → ℕ → Inode
  unref i ip c = update c i (record ip { ref = ip.ref - 1 })

  -- `iput` of entry `i`, which has a reference, with its lock free; none is a panic.
  unfoldable pub iput : ℕ → (ℕ → Inode) → Blocks → Option ((ℕ → Inode) × Blocks)
  iput i c s =
      if (c i).valid && ((c i).nlink == 0 && (c i).ref == 1)
      then elim (itrunc sb (c i) s) [
        | none ↦ none
        | some (ip, s') ↦
            let freed : Inode = record ip { kind = 0 } in
            some (unref i (record freed { valid = false }) c, iupdate sb freed s')
      ]
      else some (unref i (c i) c, s)

  -- `memset(dip, 0, sizeof(*dip))` for inode `inum` on the disk.
  unfoldable pub clear_dinode : ℕ → Blocks → Blocks
  clear_dinode inum s b o =
      if b == iblock sb inum && (leb (64 * (inum % ipb)) o && ltb o (64 * (inum % ipb) + 64))
      then 0
      else s b o

  -- The loop of `ialloc` from inode `inum` on; none is a panic.
  unfoldable pub ialloc_from : ℕ → ℕ → ℕ → (ℕ → Inode) → Blocks → Option (ℕ × (ℕ → Inode) × Blocks)
  ialloc_from kind zero inum c s = none
  ialloc_from kind (suc n) inum c s =
      let rest = ialloc_from kind n (suc inum) c s in
      if get_short s (iblock sb inum) (32 * (inum % ipb)) == 0
      then elim (iget inum c) [
        | none ↦ none
        | some (i, c') ↦
            some (i, c', put_short (clear_dinode inum s) (iblock sb inum) (32 * (inum % ipb)) kind)
      ]
      else rest

  -- `ialloc`, for each number from 1 on.
  unfoldable pub ialloc : ℕ → (ℕ → Inode) → Blocks → Option (ℕ × (ℕ → Inode) × Blocks)
  ialloc kind c s = ialloc_from kind (sb.ninodes - 1) 1 c s
