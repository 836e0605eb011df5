-- ===== src/Proc/System.antt =====
-- The kernel as a sequence of calls: what each processor does, one call after another. The part of
-- a call under the lock of the table is atomic; of `fork` and `exit` the parts outside it are taken
-- as done at once too.
use os_fcfs_prirority.Base.{ℕ, ◌+◌, u32, Bool, none, some, List, [], ◌∷◌, ltb, if◌then◌else◌}
use os_fcfs_prirority.Proc.Types.{Chan, Kernel, Services, nproc}
use os_fcfs_prirority.Proc.Alloc.{fork, custmpro}
use os_fcfs_prirority.Proc.Signal.{yield_cpu, sleep_on, sleep_done, wakeup, kill}
use os_fcfs_prirority.Proc.Exit.{exit}
use os_fcfs_prirority.Proc.Wait.{wait, procstat, ps}
use os_fcfs_prirority.Proc.Fcfs
use os_fcfs_prirority.Proc.Fcfs.{dispatch}
use os_fcfs_prirority.Proc.Priority.{visit}

-- What happens on processor `c`, or to the table as a whole.
pub data Call : Type 0 where
  fcfs_scheduler : (c : ℕ) → Call
  priority_scheduler : (c p : ℕ) → Call
  do_fork do_exit do_wait do_yield : (c : ℕ) → Call
  do_custmpro : (c priority : ℕ) → Call
  do_procstat : (c processid : ℕ) → Bool → Call
  do_sleep : (c : ℕ) → Chan → Call
  end_sleep : (c : ℕ) → Call
  do_wakeup : Chan → Call
  do_kill : (pid : ℕ) → Call
  do_ps tick : Call

-- A round of a scheduler is run by an idle processor; `r` is the kernel after it.
abbrev pub if_idle : {W : Type 0} → ℕ → Kernel W → Kernel W → Kernel W
if_idle c k r = elim (k.cpus c) [ none ↦ r | some cur ↦ k ]

-- A call is made by the process on the processor; `r cur` is the kernel after it.
abbrev pub by_current : {W : Type 0} → ℕ → Kernel W → (ℕ → Kernel W) → Kernel W
by_current c k r = elim (k.cpus c) [ none ↦ k | some cur ↦ r cur ]

-- The body of the outer loop of the priority scheduler at slot `p`, with the switch.
unfoldable pub schedule_at : {W : Type 0} → ℕ → ℕ → Kernel W → Kernel W
schedule_at c p k =
    if ltb p nproc then elim (visit k.procs p) [ none ↦ k | some h ↦ dispatch c h k ] else k

module _ (v : Services) where
  open v use {World}

  unfoldable pub step : Call → Kernel World → Kernel World
  step (fcfs_scheduler c) k = if_idle c k (Fcfs.schedule c k)
  step (priority_scheduler c p) k = if_idle c k (schedule_at c p k)
  step (do_fork c) k = by_current c k (λ cur. (fork v cur k).1)
  step (do_exit c) k = by_current c k (λ cur. (exit v c cur k).1)
  step (do_wait c) k = by_current c k (λ cur. (wait v c cur k).1)
  step (do_yield c) k = by_current c k (λ cur. (yield_cpu c cur k).1)
  step (do_custmpro c n) k = by_current c k (λ cur. (custmpro v n cur k).1)
  step (do_procstat c pid wanted) k = by_current c k (λ cur. (procstat v pid wanted c cur k).2)
  step (do_sleep c chan) k = by_current c k (λ cur. (sleep_on chan c cur k).1)
  step (end_sleep c) k = by_current c k (λ cur. sleep_done cur k)
  step (do_wakeup chan) k = wakeup chan k
  step (do_kill pid) k = (kill pid k).1
  step do_ps k = (ps k).1
  step tick k = record k { ticks = u32 (k.ticks + 1) }

  unfoldable pub run : List Call → Kernel World → Kernel World
  run [] k = k
  run (call ∷ calls) k = run calls (step call k)
