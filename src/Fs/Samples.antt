-- ===== src/Fs/Samples.antt =====
-- A small disk: 40 blocks, the inodes in block 2, the free map in block 3; and an empty file on it.
use os_fcfs_prirority.Base.{
  ℕ, zero, suc, ◌≤◌, ◌≡◌, refl, true, ◌&&◌, Option, none, some, arith, ◌==◌, if◌then◌else◌,
}
use os_fcfs_prirority.Fs.{Blocks, Superblock}
use os_fcfs_prirority.Fs.Bits.{has_bit}
use os_fcfs_prirority.Fs.Alloc.{used}
use os_fcfs_prirority.Fs.Balloc.{IsLaidOut}
use os_fcfs_prirority.Fs.Inode.{Inode}
use os_fcfs_prirority.Fs.Files.{Devices}
use os_fcfs_prirority.Fs.Owner.{owned, IsSized}
use os_fcfs_prirority.Fs.Stored.{IsStored}

abbrev pub small : Superblock
small = record {
  size = 40;
  nblocks = 36;
  ninodes = 8;
  nlog = 0;
  logstart = 2;
  inodestart = 2;
  bmapstart = 3;
}

pub small-IsSized : IsSized small
small-IsSized = omega arith

-- Blocks 0 to 3 are in use.
abbrev pub blank : Blocks
blank b o = if b == 3 && o == 0 then 15 else 0

pub blank-IsLaidOut : IsLaidOut small blank
unfolding used has_bit
blank-IsLaidOut = record { meta = λ b h. low b h }
  where
    low : (b : ℕ) → b ≤ 3 → used small blank b ≡ true
    low zero h = refl
    low (suc zero) h = refl
    low (suc (suc zero)) h = refl
    low (suc (suc (suc zero))) h = refl
    low (suc (suc (suc (suc b)))) h = absurd (omega arith)

-- An empty file.
abbrev pub empty_file : Inode
empty_file = record {
  inum = 1;
  ref = 1;
  valid = true;
  kind = 2;
  major = 0;
  minor = 0;
  nlink = 1;
  size = 0;
  addrs = λ k. 0;
}

abbrev pub no_devices : Devices
no_devices = record { read = λ m. none; write = λ m. none }

empty_owned : (k : ℕ) → owned empty_file blank k ≡ 0
empty_owned k = ground arith

pub empty_file-IsStored : IsStored small small-IsSized empty_file blank
empty_file-IsStored = record {
  own = record {
    laid = blank-IsLaidOut;
    after = λ k hk there. absurd (there (empty_owned k));
    inside = λ k hk. rw (empty_owned k) (omega arith);
    taken = λ k hk there. absurd (there (empty_owned k));
    apart = λ j k hj hk ne there. absurd (there (empty_owned j));
  };
  plain = refl;
  short = omega arith;
  filled = λ p lt. absurd (omega arith);
  placed = omega arith;
}

-- What a call returned, on a disk where it does.
abbrev pub or_else : Option (ℕ × Inode × Blocks) → ℕ × Inode × Blocks
or_else none = (0, empty_file, blank)
or_else (some r) = r
