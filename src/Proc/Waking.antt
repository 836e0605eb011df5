-- ===== src/Proc/Waking.antt =====
-- What `wakeup` and `kill` promise.
use os_fcfs_prirority.Base.{
  ℕ, ◌<◌, ◌≡◌, ◌≢◌, true, arith, refl, inl, inr, first, first-some, first-none, Option-cases, ◌==◌,
  ◌&&◌, ==_iff, if◌then◌else◌,
}
use os_fcfs_prirority.Proc.Types.{
  runnable, Chan, Kernel, nproc, Outcome, returns, fails, chan_eq, is_sleeping,
}
use os_fcfs_prirority.Proc.Signal.{wake, wakeup, kill}
use os_fcfs_prirority.Proc.Wakeup.{wakeup1-at}

module _ {W : Type 0} (k : Kernel W) where
  -- `wakeup` makes every process of the table that sleeps on the channel runnable, and leaves every
  -- other slot as it is.
  pub wakeup-at :
      (chan : Chan) (i : ℕ)
      → i < nproc
      → (wakeup chan k).procs i ≡ (
          if is_sleeping (k.procs i).state && chan_eq (k.procs i).chan chan
          then record (k.procs i) { state = runnable }
          else k.procs i)
  unfolding wakeup wake
  wakeup-at chan i lt = ground (arith, wakeup1-at chan k.procs i)

  -- How `kill(pid)` ends: the first slot with that pid is marked, and woken if it slept, its other fields
  -- and everything else as they were; or no slot has it, and nothing changes.
  pub data Killed (pid : ℕ) (k' : Kernel W) : Outcome → Type 0 where
    marked :
        (i : ℕ)
        → i < nproc
        → (k.procs i).pid ≡ pid
        → ((j : ℕ) → j < i → (k.procs j).pid ≢ pid)
        → k'.procs i ≡ record (k.procs i) {
          killed = true;
          state = if is_sleeping (k.procs i).state then runnable else (k.procs i).state;
        }
        → ((j : ℕ) → j ≢ i → k'.procs j ≡ k.procs j)
        → k' ≡ record k { procs = k'.procs }
        → Killed pid k' (returns 0)
    unknown : ((i : ℕ) → i < nproc → (k.procs i).pid ≢ pid) → k' ≡ k → Killed pid k' fails

  -- `kill` ends in one of these two ways.
  pub kill-Killed : (pid : ℕ) → let (out, k') = kill pid k in Killed pid k' out
  unfolding kill
  kill-Killed pid = elim (Option-cases (first (λ i. (k.procs i).pid == pid) nproc 0)) [
    | inl e ↦ rw (kill, e) (unknown (λ i lt q. ground (arith, first-none _ nproc 0 e i)) refl)
    | inr (i, e) ↦
        let f = first-some _ nproc 0 i e in
        rw (kill, e)
          (marked i (omega arith) ((==_iff _ pid).0 f.hit)
            (λ j lt q. ground (arith, f.misses j (omega arith) lt)) (ground arith)
            (λ j ne. ground arith) refl)
  ]
