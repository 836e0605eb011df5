-- ===== src/Fs/Examples.antt =====
-- Runs on a small disk.
use os_fcfs_prirority.Base.{
  ℕ, ◌+◌, ◌-◌, ◌≤◌, ◌≡◌, refl, true, Option, some, none, [], ◌∷◌, get_or, first, for_range, arith,
  ltb, ◌==◌, if◌then◌else◌,
}
use os_fcfs_prirority.Fs.{Blocks, balloc, alloc_from, bzero, mark, put, put_word, put_short}
use os_fcfs_prirority.Fs.Bits.{has_bit, set_bit}
use os_fcfs_prirority.Fs.Balloc.{Outcome, balloc_outcome}
use os_fcfs_prirority.Fs.Inode.{Inode, min, copy, slot_block, bmap, write_loop}
use os_fcfs_prirority.Fs.Files.{iupdate, readi, writei, grow_size, load_inode}
use os_fcfs_prirority.Fs.Contents.{byte}
use os_fcfs_prirority.Fs.Stored.{IsStored, Put, readi_lem, writei-Put}
use os_fcfs_prirority.Fs.Saved.{IsSaved, writei_outcome}
use os_fcfs_prirority.Fs.Roundtrip.{writei-readi}
use os_fcfs_prirority.Fs.Update.{IsFitting}
use os_fcfs_prirority.Fs.Dinode.{with_fields, load_inode-iupdate}
use os_fcfs_prirority.Fs.Cache.{iget, iput}
use os_fcfs_prirority.Fs.Refs
use os_fcfs_prirority.Fs.Refs.{IsSingle, iget_outcome}
use os_fcfs_prirority.Fs.Drop.{IsDropped, iput_frees}
use os_fcfs_prirority.Fs.Dir.{skip_slashes, skip_name, skipelem}
use os_fcfs_prirority.Fs.Path
use os_fcfs_prirority.Fs.Path.{skipelem_outcome}
use os_fcfs_prirority.Fs.Samples.{
  small, small-IsSized, blank, blank-IsLaidOut, empty_file, empty_file-IsStored, no_devices,
  or_else,
}

abbrev block_of : Option (ℕ × Blocks) → ℕ
block_of none = 0
block_of (some (a, s)) = a

balloc_runs : block_of (balloc small blank) ≡ 4
unfolding balloc alloc_from first has_bit
balloc_runs = refl

balloc_outcome_example : Outcome small blank (balloc small blank)
balloc_outcome_example = balloc_outcome small blank blank-IsLaidOut

-- The file with three bytes.
abbrev bytes : ℕ → ℕ
bytes i = 70 + i

abbrev three_bytes : ℕ × Inode × Blocks
three_bytes = or_else (writei small no_devices empty_file bytes 0 3 blank)

writei_returns :
    writei small no_devices empty_file bytes 0 3 blank
    ≡ some (three_bytes.0, three_bytes.1, three_bytes.2)
unfolding writei write_loop bmap slot_block balloc alloc_from first has_bit grow_size
writei_returns = refl

writei_runs :
    (three_bytes.0 ≡ 3)
    × (three_bytes.1.size ≡ 3)
    × (three_bytes.1.addrs 0 ≡ 4)
    × (byte three_bytes.1 three_bytes.2 1 ≡ 71)
unfolding writei write_loop bmap slot_block balloc alloc_from first has_bit grow_size copy bzero
    mark put set_bit iupdate put_short put_word for_range
writei_runs = (refl, refl, refl, refl)

writei_outcome_example :
    Put small small-IsSized no_devices empty_file blank bytes 0 3 three_bytes.0 three_bytes.1
      three_bytes.2
    × IsSaved small empty_file blank 0 3 three_bytes.1 three_bytes.2
writei_outcome_example =
    writei_outcome small small-IsSized no_devices empty_file three_bytes.1 blank three_bytes.2 bytes
      0 3 three_bytes.0 empty_file-IsStored (omega arith) (omega arith) writei_returns

writei-readi_example :
    readi small no_devices three_bytes.1 (λ i. 0) 0 3 three_bytes.2
    ≡ some (3, λ i. if ltb i 3 then bytes i else 0, three_bytes.1, three_bytes.2)
writei-readi_example =
    writei-readi small small-IsSized no_devices empty_file three_bytes.1 blank three_bytes.2 bytes
      (λ i. 0) 0 3 three_bytes.0 empty_file-IsStored (omega arith) (omega arith) writei_returns

three_bytes-IsStored : IsStored small small-IsSized three_bytes.1 three_bytes.2
three_bytes-IsStored =
    (writei-Put small small-IsSized no_devices empty_file three_bytes.1 blank three_bytes.2 bytes 0
      3 three_bytes.0 empty_file-IsStored (omega arith) (omega arith) writei_returns).stored

one_le : 1 ≤ three_bytes.1.size
unfolding writei write_loop bmap slot_block balloc alloc_from first has_bit grow_size
one_le = omega arith

readi_lem_example :
    readi small no_devices three_bytes.1 (λ i. 0) 1 9 three_bytes.2
    ≡ some (
      min 9 (three_bytes.1.size - 1),
      λ i.
          if ltb i (min 9 (three_bytes.1.size - 1))
          then byte three_bytes.1 three_bytes.2 (1 + i)
          else 0,
      three_bytes.1,
      three_bytes.2,
    )
readi_lem_example =
    readi_lem small small-IsSized no_devices three_bytes.1 three_bytes.2 (λ i. 0) 1 9
      three_bytes-IsStored one_le (omega arith)

empty_file-IsFitting : IsFitting empty_file
empty_file-IsFitting = omega arith

load_inode-iupdate_example : load_inode small three_bytes.1 (iupdate small empty_file blank) ≡ (
    if three_bytes.1.inum == empty_file.inum
    then with_fields three_bytes.1 empty_file
    else load_inode small three_bytes.1 blank)
load_inode-iupdate_example =
    load_inode-iupdate small empty_file three_bytes.1 blank empty_file-IsFitting

-- The table has the file at entry 0, with one reference and no links.
abbrev unlinked : Inode
unlinked = record (three_bytes.1) { nlink = 0 }

abbrev table : ℕ → Inode
table k = if k == 0 then unlinked else record empty_file { ref = 0 }

one_ref : three_bytes.1.ref ≡ 1
unfolding writei write_loop bmap slot_block balloc alloc_from first has_bit grow_size
one_ref = refl

still_valid : three_bytes.1.valid ≡ true
unfolding writei write_loop bmap slot_block balloc alloc_from first has_bit grow_size
still_valid = refl

table-IsSingle : IsSingle table
table-IsSingle i j hi hj ti tj e = ground (arith, one_ref)

iget_outcome_example : Refs.Outcome 1 table (iget 1 table)
iget_outcome_example = iget_outcome 1 table table-IsSingle

unlinked-IsFitting : IsFitting unlinked
unfolding writei write_loop bmap slot_block balloc alloc_from first has_bit grow_size
unlinked-IsFitting = record {
  kind = omega arith;
  major = omega arith;
  minor = omega arith;
  nlink = omega arith;
  size = omega arith;
  addrs = λ k. ground arith;
}

-- The three bytes are dropped again.
iput_frees_example :
    (c' : ℕ → Inode) × (s' : Blocks) × (iput small 0 table three_bytes.2 ≡ some (c', s'))
    × IsDropped small small-IsSized table three_bytes.2 0 c' s'
iput_frees_example =
    iput_frees small small-IsSized 0 table three_bytes.2 still_valid refl one_ref
      three_bytes-IsStored.own unlinked-IsFitting three_bytes-IsStored.placed

-- An element that fills the field, and the rest of the path.
abbrev text : ℕ → ℕ
text i = get_or (b'/' ∷ b'a' ∷ b'b' ∷ b'/' ∷ b'/' ∷ b'c' ∷ []) i 0

skipelem_outcome_example : Path.Outcome text 0 (λ i. 9) (skipelem 10 text 0 (λ i. 9))
skipelem_outcome_example = skipelem_outcome text 10 0 6 (λ i. 9) refl (omega arith) (omega arith)

abbrev rest_of : Option (ℕ × (ℕ → ℕ)) → ℕ
rest_of none = 0
rest_of (some r) = r.0

skipelem_runs : rest_of (skipelem 10 text 0 (λ i. 9)) ≡ 5
unfolding skipelem skip_slashes skip_name
skipelem_runs = refl
