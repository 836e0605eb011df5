-- ===== src/Proc/Exit.antt =====
-- proc.c, `exit`.
use os_fcfs_prirority.Base.{
  ℕ, Option, none, some, update, for_range, points_to, ◌==◌, if◌then◌else◌,
}
use os_fcfs_prirority.Proc.Types.{
  zombie, slot, Proc, Kernel, Services, Outcome, panics, nproc, nofile, is_zombie, proc_chan, put,
}
use os_fcfs_prirority.Proc.Signal.{wakeup1, sched}

-- One round of the loop that hands the children of `cur` to `init`.
unfoldable pub adopt : ℕ → ℕ → ℕ → (ℕ → Proc) → ℕ → Proc
adopt init cur i t =
    if points_to (t i).parent cur
    then (let t' = update t i (record (t i) { parent = some init }) in
        if is_zombie (t i).state then wakeup1 (slot init) t' else t')
    else t

unfoldable pub adopt_all : ℕ → ℕ → (ℕ → Proc) → ℕ → Proc
adopt_all init cur t = for_range nproc 0 (adopt init cur) t

-- The part of `exit` under the table's lock, up to `sched`.
unfoldable pub die : {W : Type 0} → ℕ → Kernel W → Kernel W
die cur k =
    let t = wakeup1 (proc_chan (k.procs cur).parent) k.procs in
    put cur (λ p. record p { etime = k.ticks; state = zombie })
      (record k { procs = adopt_all k.initproc cur t })

module _ (v : Services) where
  open v use {World, fileclose, iput}

  -- The loop over the open files.
  unfoldable pub close_files : (ℕ → Option ℕ) × World → (ℕ → Option ℕ) × World
  close_files s =
      for_range nofile 0
        (λ fd s'. elim (s'.0 fd) [ none ↦ s' | some f ↦ (update s'.0 fd none, fileclose f s'.1) ]) s

  -- The part of `exit` before the lock is taken.
  unfoldable pub drop_files : ℕ → Kernel World → Kernel World
  drop_files cur k =
      let (files, w) = close_files ((k.procs cur).ofile, k.world) in
      put cur (λ p. record p { ofile = files; cwd = none })
        (record k { world = iput (k.procs cur).cwd w })

  -- `exit` by the process in slot `cur` on processor `c`.
  unfoldable pub exit : ℕ → ℕ → Kernel World → Outcome × Kernel World
  unfolding sched
  exit c cur k = if cur == k.initproc then (panics, k) else sched c cur (die cur (drop_files cur k))
