-- ===== src/File/Examples.antt =====
-- Runs of the calls on files.
use os_fcfs_prirority.Base.{refl, true, false, arith}
use os_fcfs_prirority.Pipe.{fresh}
use os_fcfs_prirority.Fs.Samples.{
  small, small-IsSized, blank, empty_file, empty_file-IsStored, no_devices,
}
use os_fcfs_prirority.File.{File, fd_inode, Store, filewrite}
use os_fcfs_prirority.File.Write.{IsOpen, Outcome, filewrite_outcome}

-- A file open for reading and writing on the empty file.
abbrev open_file : File
open_file = record {
  kind = fd_inode;
  ref = 1;
  readable = true;
  writable = true;
  pipe = 0;
  ip = 3;
  off = 0;
}

abbrev store : Store
store = record { pipes = λ i. fresh (λ k. 0); inodes = λ i. empty_file; blocks = blank }

store-IsOpen : IsOpen small small-IsSized no_devices open_file store
store-IsOpen = record {
  held = omega arith;
  valid = refl;
  stored = empty_file-IsStored;
  inside = omega arith;
}

filewrite_outcome_example :
    Outcome small small-IsSized no_devices open_file store
      (λ k. k)
      2000
      2000
      (filewrite small no_devices false open_file (λ k. k) 2000 store)
filewrite_outcome_example =
    filewrite_outcome small small-IsSized no_devices false open_file (λ k. k) 2000 store refl refl
      store-IsOpen (omega arith)
