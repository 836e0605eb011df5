-- ===== src/Fs/DirExamples.antt =====
-- A directory on a small disk.
use os_fcfs_prirority.Base.{
  ℕ, ◌<◌, ◌⊎◌, ◌/◌, ◌%◌, ◌≡◌, refl, some, none, first, for_range, arith, ◌==◌, if◌then◌else◌,
}
use os_fcfs_prirority.Fs.{Blocks, balloc, alloc_from, bzero, mark, put, put_word, put_short}
use os_fcfs_prirority.Fs.Bits.{has_bit, set_bit}
use os_fcfs_prirority.Fs.Inode.{Inode, copy, slot_block, bmap, write_loop}
use os_fcfs_prirority.Fs.Files.{iupdate, writei, grow_size}
use os_fcfs_prirority.Fs.Stored.{IsStored, Put, writei-Put}
use os_fcfs_prirority.Fs.Dir.{found, namecmp, dirlookup}
use os_fcfs_prirority.Fs.Lookup.{is_entry, at_entry}
use os_fcfs_prirority.Fs.Looked.{Looked, dirlookup_outcome}
use os_fcfs_prirority.Fs.Refs.{IsSingle}
use os_fcfs_prirority.Fs.Owner.{max_bytes}
use os_fcfs_prirority.Fs.Contents.{byte}
use os_fcfs_prirority.Cstring.{strncmp}
use os_fcfs_prirority.Fs.Samples.{
  small, small-IsSized, blank, empty_file, empty_file-IsStored, no_devices, or_else,
}
use os_fcfs_prirority.Fs.Dirlink.{dirlink}
use os_fcfs_prirority.Fs.Dirlink.Free.{is_free}
use os_fcfs_prirority.Fs.Dirlink.Linked.{IsLinked, dirlink_outcome}

-- A table of inodes without references.
abbrev unused : ℕ → Inode
unused i = record empty_file { ref = 0 }

-- A directory of one entry, number 2 with the name `a`.
abbrev entry_bytes : ℕ → ℕ
entry_bytes i = if i == 0 then 2 else (if i == 2 then b'a' else 0)

abbrev empty_dir : Inode
empty_dir = record empty_file { kind = 1 }

empty_dir-IsStored : IsStored small small-IsSized empty_dir blank
empty_dir-IsStored = record {
  own = empty_file-IsStored.own;
  plain = refl;
  short = omega arith;
  filled = λ p lt. absurd (omega arith);
  placed = omega arith;
}

abbrev dir : ℕ × Inode × Blocks
dir = or_else (writei small no_devices empty_dir entry_bytes 0 16 blank)

dir_returns : writei small no_devices empty_dir entry_bytes 0 16 blank ≡ some (dir.0, dir.1, dir.2)
unfolding writei write_loop bmap slot_block balloc alloc_from first has_bit grow_size
dir_returns = refl

dir-Put : Put small small-IsSized no_devices empty_dir blank entry_bytes 0 16 dir.0 dir.1 dir.2
dir-Put =
    writei-Put small small-IsSized no_devices empty_dir dir.1 blank dir.2 entry_bytes 0 16 dir.0
      empty_dir-IsStored (omega arith) (omega arith) dir_returns

dir_kind : dir.1.kind ≡ 1
unfolding writei write_loop bmap slot_block balloc alloc_from first has_bit grow_size
dir_kind = refl

dir_whole : dir.1.size % 16 ≡ 0
unfolding writei write_loop bmap slot_block balloc alloc_from first has_bit grow_size
dir_whole = refl

abbrev a_name : ℕ → ℕ
a_name i = if i == 0 then b'a' else 0

dir_bytes : (p : ℕ) → p < max_bytes → byte dir.1 dir.2 p < 256
dir_bytes p lt = ground (arith, dir-Put.bytes p lt)

unused-IsSingle : IsSingle unused
unused-IsSingle i j hi hj ti tj e = absurd (omega arith)

dirlookup_outcome_example :
    Looked a_name dir.1 unused dir.2 (dirlookup small no_devices a_name (λ i. 0) dir.1 unused dir.2)
dirlookup_outcome_example =
    dirlookup_outcome small small-IsSized no_devices a_name (λ i. 0) dir.1 unused dir.2
      (λ k. ground arith) dir_bytes dir-Put.stored dir_kind dir_whole unused-IsSingle

-- The entry is found.
dirlookup_runs : at_entry dir.1 dir.2 (first (is_entry a_name dir.1 dir.2) 1 0) ≡ found 0 2
unfolding writei write_loop bmap slot_block balloc alloc_from first has_bit grow_size copy bzero
    mark put set_bit iupdate put_short put_word for_range namecmp strncmp
dirlookup_runs = refl

abbrev b_name : ℕ → ℕ
b_name i = if i == 0 then b'b' else 0

b_missing : first (is_entry b_name dir.1 dir.2) (dir.1.size / 16) 0 ≡ none
unfolding writei write_loop bmap slot_block balloc alloc_from first has_bit grow_size copy bzero
    mark put set_bit iupdate put_short put_word for_range namecmp strncmp
b_missing = refl

dir_size : dir.1.size ≡ 16
unfolding writei write_loop bmap slot_block balloc alloc_from first has_bit grow_size
dir_size = refl

-- A second entry.
dirlink_outcome_example :
    ((dirlink small no_devices b_name 3 (λ i. 0) (λ i. 0) dir.1 unused dir.2 ≡ none)
      × (first (is_free dir.1 dir.2) (dir.1.size / 16) 0 ≡ none))
    ⊎ ((r : Inode × Blocks) × (dirlink small no_devices b_name 3
            (λ i. 0)
            (λ i. 0)
            dir.1
            unused
            dir.2
          ≡ some (0, unused, r.0, r.1))
        × IsLinked small small-IsSized no_devices b_name 3 (λ i. 0) dir.1 dir.2 r.0 r.1)
dirlink_outcome_example =
    dirlink_outcome small small-IsSized no_devices b_name 3 dir.1 unused dir.2 dir-Put.stored
      dir_kind dir_whole (λ k. ground arith) (omega arith) (omega arith) (omega (arith, dir_size))
      b_missing (λ i. 0) (λ i. 0)
