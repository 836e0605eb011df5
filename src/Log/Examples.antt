-- ===== src/Log/Examples.antt =====
-- A transaction of two blocks, and operations that share the log.
use os_fcfs_prirority.Base.{
  ℕ, ◌+◌, ◌≤◌, ◌<◌, ◌≡◌, refl, inr, true, [], ◌∷◌, length, take, arith, ◌==◌, leb, if◌then◌else◌,
  zero, suc, ◌⊎◌,
}
use os_fcfs_prirority.Log.{
  Disk, Log, returned, mem, apply, apply_all, write_log, install_trans, commit, recover_from_log,
  begin_op, log_write, one_less, end_op, end_commit, logsize, panicked,
}
use os_fcfs_prirority.Log.Crash.{home_blocks, updated, commit_atomic}
use os_fcfs_prirority.Log.Budget.{Distinct, opened, Reached, opens, begins, writes, ends, commits}
use os_fcfs_prirority.Log.Space.{Reached-fits, log_write_outcome, end_op-returns, begin_op-returns}

abbrev zeros : Disk ℕ
zeros = record { block = λ x. 0; head = [] }

abbrev cached : ℕ → ℕ
cached x = 100 + x

-- The log has blocks 2 to 5; the crash comes after the first of the two blocks is installed.
half_way : Disk ℕ
half_way = apply_all (take 4 (commit 2 cached (9 ∷ 7 ∷ []) zeros)) zeros

half_way_runs : (half_way.block 9 ≡ 109) × (half_way.block 7 ≡ 0) × (half_way.head ≡ 9 ∷ 7 ∷ [])
unfolding half_way apply_all commit write_log install_trans apply
half_way_runs = (refl, refl, refl)

recovered_runs :
    ((recover_from_log 2 half_way).block 7 ≡ 107) × ((recover_from_log 2 half_way).head ≡ [])
unfolding half_way apply_all commit write_log install_trans apply recover_from_log
recovered_runs = (refl, refl)

commit_atomic_example :
    home_blocks 2 4
      (recover_from_log 2 (apply_all (take 4 (commit 2 cached (9 ∷ 7 ∷ []) zeros)) zeros))
    ≡ home_blocks 2 4 (if leb 4 2 then zeros else updated cached (9 ∷ 7 ∷ []) zeros)
commit_atomic_example =
    commit_atomic 2 4 cached zeros (9 ∷ 7 ∷ []) 4 refl (omega arith)
      (inr (omega arith), (inr (omega arith), tt))

abbrev begun : Log
begun = (begin_op (opened 30)).1

begun-Reached : Reached begun (10 ∷ [])
unfolding begin_op
begun-Reached = begins (opens 30 (omega arith)) refl

-- The operation has logged block 9.
abbrev logged : Log
logged = (log_write 9 begun).1

logged-Reached : Reached logged (9 ∷ [])
logged-Reached = writes [] 9 [] 9 begun-Reached

logged_runs :
    (logged.lh ≡ 9 ∷ [])
    × ((log_write 9 logged).1.lh ≡ 9 ∷ [])
    × ((log_write 7 logged).1.lh ≡ 9 ∷ 7 ∷ [])
unfolding begin_op log_write
logged_runs = (refl, refl, refl)

Reached-fits_example :
    (length logged.lh ≤ logsize) × (length logged.lh < logged.size) × Distinct logged.lh
Reached-fits_example = Reached-fits logged-Reached

log_write_outcome_example :
    (((log_write 7 logged).0 ≡ returned)
      × (mem 7 (log_write 7 logged).1.lh ≡ true)
      × (suc (length logged.lh) < logged.size))
    ⊎ ((log_write 7 logged ≡ (panicked, logged))
        × (suc (length logged.lh) ≡ logged.size)
        × (logged.size ≤ logsize))
log_write_outcome_example = log_write_outcome [] 8 [] 7 logged-Reached

-- Three operations under way in a log of 30 blocks, as mkfs.c makes it, and the blocks below `n` logged.
abbrev logged_to : ℕ → Log
logged_to zero = (begin_op (begin_op begun).1).1
logged_to (suc n) = (log_write n (logged_to n)).1

-- The third operation has logged nine blocks, and its tenth is the end.
third_runs :
    ((begin_op (begin_op begun).1).0 ≡ returned)
    × (length (logged_to 29).lh ≡ 29)
    × ((log_write 29 (logged_to 29)).0 ≡ panicked)
unfolding begin_op log_write
third_runs = (refl, refl, refl)

logged_ends : ((end_op logged).0 ≡ returned) × ((end_op logged).1 ≡ (0 == 0))
logged_ends = end_op-returns [] 9 [] logged-Reached

-- The commit is done, and the next operation may begin.
abbrev closed : Log
closed = end_commit (end_op logged).2

closed-Reached : Reached closed []
unfolding begin_op log_write end_op one_less end_commit
closed-Reached = commits (ends [] 9 [] logged-Reached) refl

begins_again : (begin_op closed).0 ≡ returned
unfolding end_commit
begins_again = begin_op-returns closed-Reached refl
