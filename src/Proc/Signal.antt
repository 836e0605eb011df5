-- ===== src/Proc/Signal.antt =====
-- proc.c, `sched`, `yield`, `sleep`, `wakeup1`, `wakeup` and `kill`.
use os_fcfs_prirority.Base.{
  ℕ, true, none, some, update, first, for_range, ◌==◌, ◌&&◌, if◌then◌else◌,
}
use os_fcfs_prirority.Proc.Types.{
  sleeping, runnable, running, Chan, null, Proc, Kernel, Outcome, returns, fails, blocks, panics,
  nproc, is_sleeping, chan_eq, put,
}

-- One round of the loop of `wakeup1`.
unfoldable pub wake : Chan → Proc → Proc
wake chan p =
    if is_sleeping p.state && chan_eq p.chan chan then record p { state = runnable } else p

unfoldable pub wakeup1 : Chan → (ℕ → Proc) → ℕ → Proc
wakeup1 chan t = for_range nproc 0 (λ i t'. update t' i (wake chan (t' i))) t

unfoldable pub wakeup : {W : Type 0} → Chan → Kernel W → Kernel W
wakeup chan k = record k { procs = wakeup1 chan k.procs }

unfoldable pub kill : {W : Type 0} → ℕ → Kernel W → Outcome × Kernel W
kill pid k = elim (first (λ i. (k.procs i).pid == pid) nproc 0) [
  | none ↦ (fails, k)
  | some i ↦ (
    returns 0,
    put i
        (λ p. record p { killed = true; state = if is_sleeping p.state then runnable else p.state })
        k,
  )
]

-- `sched` on processor `c`, and the scheduler's loop up to `c->proc = 0`. The panics on the lock
-- and on the interrupt flag concern state that the table does not hold.
unfoldable pub sched : {W : Type 0} → ℕ → ℕ → Kernel W → Outcome × Kernel W
sched c cur k = elim ((k.procs cur).state) [
  | running ↦ (panics, k)
  | _ ↦ (blocks, record k { cpus = update k.cpus c none })
]

-- `yield`, up to the switch.
unfoldable pub yield_cpu : {W : Type 0} → ℕ → ℕ → Kernel W → Outcome × Kernel W
unfolding sched
yield_cpu c cur k = sched c cur (put cur (λ p. record p { state = runnable }) k)

-- `sleep(chan, lk)`, up to the switch.
unfoldable pub sleep_on : {W : Type 0} → Chan → ℕ → ℕ → Kernel W → Outcome × Kernel W
unfolding sched
sleep_on chan c cur k = sched c cur (put cur (λ p. record p { chan = chan; state = sleeping }) k)

-- `sleep`, from the switch back on.
unfoldable pub sleep_done : {W : Type 0} → ℕ → Kernel W → Kernel W
sleep_done cur k = put cur (λ p. record p { chan = null }) k
