-- ===== src/Fs.antt =====
-- fs.c over the blocks of the disk as the buffer cache shows them: a block is its bytes, and what is
-- changed in a buffer and given to `log_write` is changed in the blocks. There is one device.
pub mod Bits
pub mod Alloc
pub mod Balloc
pub mod Inode
pub mod Files
pub mod Owner
pub mod Slots
pub mod Bmap
pub mod Contents
pub mod Writing
pub mod Reading
pub mod Update
pub mod Dinode
pub mod Stored
pub mod Saved
pub mod Roundtrip
pub mod Release
pub mod Truncate
pub mod Cache
pub mod Refs
pub mod Drop
pub mod Dir
pub mod Path
pub mod Lookup
pub mod Looked
pub mod Dirlink
pub mod Samples
mod Examples
mod DirExamples
use os_fcfs_prirority.Base.{
  ℕ, zero, suc, ◌+◌, ◌-◌, ◌*◌, ◌/◌, ◌%◌, Bool, true, false, not, ◌&&◌, Option, none, some, first,
  ltb, ◌==◌, if◌then◌else◌,
}
use os_fcfs_prirority.Fs.Bits.{has_bit, set_bit, clear_bit}

abbrev pub Blocks : Type 0
Blocks = ℕ → ℕ → ℕ

abbrev pub bsize : ℕ
bsize = 512

abbrev pub bpb : ℕ
bpb = 4096

-- `struct superblock`.
pub record Superblock : Type 0 where
  pub size : ℕ
  pub nblocks : ℕ
  pub ninodes : ℕ
  pub nlog : ℕ
  pub logstart : ℕ
  pub inodestart : ℕ
  pub bmapstart : ℕ

-- Byte `o` of block `b` is written.
unfoldable pub put : Blocks → ℕ → ℕ → ℕ → Blocks
put s b o v c p = if c == b && p == o then v else s c p

-- Entry `i` of a block as an array of `uint`s, read and written.
unfoldable pub get_word : Blocks → ℕ → ℕ → ℕ
get_word s b i =
    s b (4 * i) + 256 * s b (4 * i + 1) + 65536 * s b (4 * i + 2) + 16777216 * s b (4 * i + 3)

unfoldable pub put_word : Blocks → ℕ → ℕ → ℕ → Blocks
unfolding put
put_word s b i v =
    put
      (put (put (put s b (4 * i) (v % 256)) b (4 * i + 1) (v / 256 % 256)) b (4 * i + 2)
        (v / 65536 % 256))
      b (4 * i + 3) (v / 16777216 % 256)

-- The same for `short`s.
unfoldable pub get_short : Blocks → ℕ → ℕ → ℕ
get_short s b i = s b (2 * i) + 256 * s b (2 * i + 1)

unfoldable pub put_short : Blocks → ℕ → ℕ → ℕ → Blocks
unfolding put
put_short s b i v = put (put s b (2 * i) (v % 256)) b (2 * i + 1) (v / 256 % 256)

-- `bzero`.
unfoldable pub bzero : Blocks → ℕ → Blocks
bzero s b c p = if c == b then 0 else s c p

module _ (sb : Superblock) where
  -- `BBLOCK(b, sb)`.
  abbrev pub bblock : ℕ → ℕ
  bblock b = b / bpb + sb.bmapstart

  -- The test of `balloc` at bit `bi` of the map's block for `b`, and the mark that it makes.
  abbrev pub is_free : Blocks → ℕ → ℕ → Bool
  is_free s b bi = not (has_bit (s (bblock b) (bi / 8)) (bi % 8))

  unfoldable pub mark : Blocks → ℕ → ℕ → Blocks
  mark s b bi = put s (bblock b) (bi / 8) (set_bit (s (bblock b) (bi / 8)) (bi % 8))

  -- How many bits the inner loop of `balloc` looks at.
  abbrev pub bits_at : ℕ → ℕ
  bits_at b = if ltb (sb.size - b) bpb then sb.size - b else bpb

  -- The outer loop of `balloc` from `b` on; none is the panic.
  unfoldable pub alloc_from : ℕ → ℕ → Blocks → Option (ℕ × Blocks)
  alloc_from zero b s = none
  alloc_from (suc n) b s =
      let rest = alloc_from n (b + bpb) s in
      if ltb b sb.size
      then elim (first (is_free s b) (bits_at b) 0) [
        | none ↦ rest
        | some bi ↦ some (b + bi, bzero (mark s b bi) (b + bi))
      ]
      else none

  -- `balloc`, with a round for each block of the map.
  unfoldable pub balloc : Blocks → Option (ℕ × Blocks)
  balloc s = alloc_from (sb.size / bpb + 1) 0 s

  -- `bfree`; none is the panic.
  unfoldable pub bfree : Blocks → ℕ → Option Blocks
  bfree s b =
      let bi = b % bpb in
      let old = s (bblock b) (bi / 8) in
      if has_bit old (bi % 8)
      then some (put s (bblock b) (bi / 8) (clear_bit old (bi % 8)))
      else none
