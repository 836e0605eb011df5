-- ===== src/Fs/Inode.antt =====
-- fs.c: the blocks of an inode, and the loops that read and write through them.
use os_fcfs_prirority.Base.{
  ℕ, zero, suc, ◌+◌, ◌-◌, ◌/◌, ◌%◌, ◌^◌, Bool, ◌&&◌, Option, none, some, update, ltb, leb, ◌==◌,
  if◌then◌else◌,
}
use os_fcfs_prirority.Fs.{Blocks, bsize, Superblock, get_word, put_word, balloc}

abbrev pub ndirect : ℕ
ndirect = 12

abbrev pub nindirect : ℕ
nindirect = 128

abbrev pub maxfile : ℕ
maxfile = ndirect + nindirect

-- `struct inode`, without its device and its lock. The `short`s are bit patterns.
pub record Inode : Type 0 where
  pub inum : ℕ
  pub ref : ℕ
  pub valid : Bool
  pub kind : ℕ
  pub major : ℕ
  pub minor : ℕ
  pub nlink : ℕ
  pub size : ℕ
  pub addrs : ℕ → ℕ

-- -1 as a bit pattern.
abbrev pub failed : ℕ
failed = 2 ^ 32 - 1

abbrev pub min : ℕ → ℕ → ℕ
min a b = if ltb a b then a else b

-- `memmove` of `m` bytes from `src + i` to `dst + o`, two different objects.
unfoldable pub copy : (ℕ → ℕ) → ℕ → (ℕ → ℕ) → ℕ → ℕ → ℕ → ℕ
copy dst o src i m p = if leb o p && ltb p (o + m) then src (i + (p - o)) else dst p

module _ (sb : Superblock) where
  -- `if((addr = ip->addrs[k]) == 0) ip->addrs[k] = addr = balloc(ip->dev);`
  unfoldable pub slot_block : Inode → ℕ → Blocks → Option (ℕ × Inode × Blocks)
  slot_block ip k s =
      if ip.addrs k == 0
      then elim (balloc sb s) [
        | none ↦ none
        | some (a, s') ↦ some (a, record ip { addrs = update ip.addrs k a }, s')
      ]
      else some (ip.addrs k, ip, s)

  -- The same for entry `i` of the indirect block `b`.
  unfoldable pub entry_block : ℕ → ℕ → Blocks → Option (ℕ × Blocks)
  entry_block b i s =
      if get_word s b i == 0
      then elim (balloc sb s) [ none ↦ none | some (a, s') ↦ some (a, put_word s' b i a) ]
      else some (get_word s b i, s)

  -- `bmap`, which may allocate; none is a panic.
  unfoldable pub bmap : Inode → ℕ → Blocks → Option (ℕ × Inode × Blocks)
  bmap ip bn s =
      if ltb bn ndirect
      then slot_block ip bn s
      else (if ltb (bn - ndirect) nindirect
          then elim (slot_block ip ndirect s) [
            | none ↦ none
            | some (b, ip', s') ↦ elim (entry_block b (bn - ndirect) s') [
              | none ↦ none
              | some (a, s'') ↦ some (a, ip', s'')
            ]
          ]
          else none)

  -- The loop of `readi`, with `tot` bytes read and `left` to read at `off`. Each round reads one byte
  -- at least, so `left` rounds are enough.
  unfoldable pub read_loop :
      ℕ → Inode → ℕ → ℕ → ℕ → (ℕ → ℕ) → Blocks → Option ((ℕ → ℕ) × Inode × Blocks)
  read_loop zero ip off tot left dst s = some (dst, ip, s)
  read_loop (suc fuel) ip off tot left dst s =
      if left == 0 then some (dst, ip, s) else elim (bmap ip (off / bsize) s) [
        | none ↦ none
        | some (a, ip', s') ↦
            let m = min left (bsize - off % bsize) in
            read_loop fuel ip' (off + m) (tot + m) (left - m) (copy dst tot (s' a) (off % bsize) m)
              s'
      ]

  -- The loop of `writei`.
  unfoldable pub write_loop : ℕ → Inode → ℕ → ℕ → ℕ → (ℕ → ℕ) → Blocks → Option (Inode × Blocks)
  write_loop zero ip off tot left src s = some (ip, s)
  write_loop (suc fuel) ip off tot left src s =
      if left == 0 then some (ip, s) else elim (bmap ip (off / bsize) s) [
        | none ↦ none
        | some (a, ip', s') ↦
            let m = min left (bsize - off % bsize) in
            write_loop fuel ip' (off + m) (tot + m) (left - m) src
              (update s' a (copy (s' a) (off % bsize) src tot m))
      ]
