-- ===== src/Proc/Wait.antt =====
-- proc.c, `wait`, `procstat` and `ps`.
use os_fcfs_prirority.Base.{
  ℕ, zero, suc, sub32, Bool, false, not, ◌&&◌, ◌||◌, Option, none, some, update, for_range,
  points_to, ◌==◌, if◌then◌else◌,
}
use os_fcfs_prirority.Proc.Types.{
  unused, slot, Proc, Kernel, Services, Outcome, returns, fails, nproc, is_zombie, is_unused, put,
}
use os_fcfs_prirority.Proc.Signal.{sleep_on}

-- What a scan of the table ends with: the slot looked for, or `havekids`.
pub data Scan : Type 0 where
  found : ℕ → Scan
  missed : Bool → Scan

-- The loop of `wait` and of `procstat` over `n` slots from `i` on: children of `cur`, the first one
-- that `ready` accepts ending it.
unfoldable pub scan_kids : (Proc → Bool) → ℕ → ℕ → ℕ → Bool → (ℕ → Proc) → Scan
scan_kids ready cur zero i have t = missed have
scan_kids ready cur (suc n) i have t =
    let child = points_to (t i).parent cur in
    let rest = scan_kids ready cur n (suc i) (have || child) t in
    if child && ready (t i) then found i else rest

-- What `procstat` fills in.
pub record Pstat : Type 0 where
  pub ctime : ℕ
  pub etime : ℕ
  pub ttime : ℕ
  pub tatime : ℕ
  pub priority : ℕ

unfoldable pub read_stat : Proc → Pstat
read_stat p = record {
  ctime = p.ctime;
  etime = p.etime;
  ttime = sub32 p.etime p.ctime;
  tatime = sub32 p.etime p.ctime;
  priority = p.priority;
}

abbrev pub clear_name : (ℕ → ℕ) → ℕ → ℕ
clear_name name = update name 0 0

module _ (v : Services) where
  open v use {World, kfree, freevm}

  -- The exited child in slot `i` is freed.
  unfoldable pub reap : ℕ → Kernel World → Kernel World
  reap i k =
      put i
        (λ p. record p {
          kstack = 0;
          pid = 0;
          parent = none;
          name = clear_name p.name;
          killed = false;
          state = unused;
        })
        (record k { world = freevm (k.procs i).pgdir (kfree (k.procs i).kstack k.world) })

  -- What follows a scan that found nothing.
  unfoldable pub wait_more : Bool → ℕ → ℕ → Kernel World → Outcome × Kernel World
  unfolding sleep_on
  wait_more have c cur k =
      let k1 : Kernel World = put cur (λ p. record p { etime = k.ticks }) k in
      if not have || (k1.procs cur).killed then (fails, k1) else sleep_on (slot cur) c cur k1

  -- One round of the loop of `wait`; a process that sleeps in it starts the next one when it runs
  -- again, after `sleep_done`.
  unfoldable pub wait : ℕ → ℕ → Kernel World → Outcome × Kernel World
  wait c cur k = elim (scan_kids (λ p. is_zombie p.state) cur nproc 0 false k.procs) [
    | found i ↦ (returns (k.procs i).pid, reap i k)
    | missed have ↦ wait_more have c cur k
  ]

  -- One round of the loop of `procstat`, with what it writes through its pointer (`true` if that is
  -- not null).
  unfoldable pub procstat : ℕ → Bool → ℕ → ℕ → Kernel World → Outcome × Option Pstat × Kernel World
  procstat processid wanted c cur k =
      elim (scan_kids (λ p. (p.pid == processid) && is_zombie p.state) cur nproc 0 false k.procs) [
        | found i ↦
            (returns processid, (if wanted then some (read_stat (k.procs i)) else none), reap i k)
        | missed have ↦ let (out, k') = wait_more have c cur k in (out, none, k')
      ]

-- The loop of `ps`, which stamps `etime` on every slot in use; the lines that it prints are left
-- out.
unfoldable pub ps : {W : Type 0} → Kernel W → Outcome × Kernel W
ps k = (
  returns 0,
  record k {
    procs =
        for_range nproc 0
          (λ i t.
            if is_unused (t i).state then t else update t i (record (t i) { etime = k.ticks }))
          k.procs;
  },
)
