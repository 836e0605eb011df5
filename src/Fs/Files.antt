-- ===== src/Fs/Files.antt =====
-- fs.c: inodes on the disk, and `readi`, `writei` and `itrunc`.
use os_fcfs_prirority.Base.{
  ℕ, ◌+◌, ◌-◌, ◌*◌, ◌/◌, ◌%◌, true, ◌&&◌, ◌||◌, Option, none, some, for_range, u32, ltb, leb, ◌==◌,
  if◌then◌else◌,
}
use os_fcfs_prirority.Fs.{
  Blocks, bsize, Superblock, get_word, put_word, get_short, put_short, bfree,
}
use os_fcfs_prirority.Fs.Inode.{Inode, ndirect, nindirect, maxfile, failed, read_loop, write_loop}

-- `T_DEV`.
abbrev pub t_dev : ℕ
t_dev = 3

abbrev pub ndev : ℕ
ndev = 10

abbrev pub ipb : ℕ
ipb = 8

-- `devsw`: what the devices' functions return, for each major number that has them.
pub record Devices : Type 0 where
  pub read : ℕ → Option (Inode → (ℕ → ℕ) → ℕ → ℕ × (ℕ → ℕ))
  pub write : ℕ → Option (Inode → (ℕ → ℕ) → ℕ → ℕ)

module _ (sb : Superblock) where
  -- `IBLOCK(i, sb)`.
  abbrev pub iblock : ℕ → ℕ
  iblock i = i / ipb + sb.inodestart

  -- `iupdate`: the fields of the inode at its place in its block.
  unfoldable pub iupdate : Inode → Blocks → Blocks
  iupdate ip s =
      let b = iblock ip.inum in
      let q = ip.inum % ipb in
      let s1 = put_short s b (32 * q) ip.kind in
      let s2 = put_short s1 b (32 * q + 1) ip.major in
      let s3 = put_short s2 b (32 * q + 2) ip.minor in
      let s4 = put_short s3 b (32 * q + 3) ip.nlink in
      let s5 = put_word s4 b (16 * q + 2) ip.size in
      for_range (ndirect + 1) 0 (λ i s'. put_word s' b (16 * q + 3 + i) (ip.addrs i)) s5

  -- What `ilock` reads into an inode that is not valid.
  unfoldable pub load_inode : Inode → Blocks → Inode
  load_inode ip s =
      let b = iblock ip.inum in
      let q = ip.inum % ipb in
      record ip {
        kind = get_short s b (32 * q);
        major = get_short s b (32 * q + 1);
        minor = get_short s b (32 * q + 2);
        nlink = get_short s b (32 * q + 3);
        size = get_word s b (16 * q + 2);
        addrs = λ i. if leb i ndirect then get_word s b (16 * q + 3 + i) else ip.addrs i;
        valid = true;
      }

  -- `ilock`, with the lock free; none is a panic.
  unfoldable pub ilock : Inode → Blocks → Option Inode
  unfolding load_inode
  ilock ip s =
      if ltb ip.ref 1
      then none
      else (if ip.valid
          then some ip
          else (let ip' = load_inode ip s in if ip'.kind == 0 then none else some ip'))

  -- The end of `writei`: the file has got longer, or not.
  unfoldable pub grow_size : Inode → ℕ → ℕ → Blocks → Inode × Blocks
  grow_size ip off n s =
      if ltb 0 n && ltb ip.size (off + n)
      then (record ip { size = off + n }, iupdate (record ip { size = off + n }) s)
      else (ip, s)

  module _ (dev : Devices) where
    -- `readi`: what it returns, and the bytes at `dst`.
    unfoldable pub readi : Inode → (ℕ → ℕ) → ℕ → ℕ → Blocks → Option (ℕ × (ℕ → ℕ) × Inode × Blocks)
    readi ip dst off n s =
        if ip.kind == t_dev
        then (if leb ndev ip.major then some (failed, dst, ip, s) else elim (dev.read ip.major) [
          | none ↦ some (failed, dst, ip, s)
          | some f ↦ some ((f ip dst n).0, (f ip dst n).1, ip, s)
        ])
        else (if ltb ip.size off || ltb (u32 (off + n)) off
            then some (failed, dst, ip, s)
            else (let n' = if ltb ip.size (u32 (off + n)) then ip.size - off else n in
                elim (read_loop sb n' ip off 0 n' dst s) [
                  | none ↦ none
                  | some (dst', ip', s') ↦ some (n', dst', ip', s')
                ]))

    -- `writei`.
    unfoldable pub writei : Inode → (ℕ → ℕ) → ℕ → ℕ → Blocks → Option (ℕ × Inode × Blocks)
    writei ip src off n s =
        if ip.kind == t_dev
        then (if leb ndev ip.major then some (failed, ip, s) else elim (dev.write ip.major) [
          | none ↦ some (failed, ip, s)
          | some f ↦ some (f ip src n, ip, s)
        ])
        else (if ltb ip.size off || ltb (u32 (off + n)) off
            then some (failed, ip, s)
            else (if ltb (maxfile * bsize) (u32 (off + n))
                then some (failed, ip, s)
                else elim (write_loop sb n ip off 0 n src s) [
                  | none ↦ none
                  | some (ip', s') ↦
                      some (n, (grow_size ip' off n s').0, (grow_size ip' off n s').1)
                ]))

  -- `if(x) bfree(ip->dev, x);`
  unfoldable pub free_block : ℕ → Option Blocks → Option Blocks
  free_block x none = none
  free_block x (some s) = if x == 0 then some s else bfree sb s x

  -- The same for entry `j` of the indirect block `x`.
  unfoldable pub free_entry : ℕ → ℕ → Option Blocks → Option Blocks
  unfolding free_block
  free_entry x j none = none
  free_entry x j (some s) = free_block (get_word s x j) (some s)

  -- `itrunc`: the direct blocks, the blocks of the indirect block, and that block itself are freed.
  unfoldable pub itrunc : Inode → Blocks → Option (Inode × Blocks)
  itrunc ip s =
      let s1 = for_range ndirect 0 (λ i t. free_block (ip.addrs i) t) (some s) in
      let x = ip.addrs ndirect in
      let s2 = if x == 0 then s1 else free_block x (for_range nindirect 0 (free_entry x) s1) in
      let ip' : Inode = record ip {
        addrs = λ i. if leb i ndirect then 0 else ip.addrs i;
        size = 0;
      } in
      elim s2 [ none ↦ none | some t ↦ some (ip', iupdate ip' t) ]
