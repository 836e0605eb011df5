-- ===== src/Proc/Reaping.antt =====
-- What `wait` and `exit` promise a parent and its children.
use os_fcfs_prirority.Base.{
  ℕ, ◌<◌, ◌≡◌, ◌≢◌, Bool, true, false, some, arith, refl, inl, inr, Bool-cases, points_to_iff,
}
use os_fcfs_prirority.Proc.Types.{
  unused, sleeping, runnable, zombie, slot, Proc, Kernel, Services, nproc, Outcome, returns, fails,
  blocks, is_zombie, proc_chan,
}
use os_fcfs_prirority.Proc.Signal.{sleep_on, wake, wakeup1}
use os_fcfs_prirority.Proc.Wait.{scan_kids, reap, wait_more, wait}
use os_fcfs_prirority.Proc.Exit.{die}
use os_fcfs_prirority.Proc.Valid.Scan.{IsFound, scan-found, IsMissed, scan-missed}
use os_fcfs_prirority.Proc.Wakeup.{wakeup1-at}
use os_fcfs_prirority.Proc.Valid.Exit.{adopt_all-IsAdopted, die-IsLeft}
use os_fcfs_prirority.Proc.Valid.Wait.{Scan-cases}

-- Slot `i` holds a child of `cur`.
abbrev pub IsKid : (ℕ → Proc) → ℕ → ℕ → Type 0
IsKid t cur i = (i < nproc) × ((t i).parent ≡ some cur)

-- How a round of `wait` by slot `cur` may end: the table before is `t`, the one after `t'`.
pub data Waited (t t' : ℕ → Proc) (cur : ℕ) : Outcome → Type 0 where
  reaped :
      (i : ℕ)
      → IsKid t cur i
      → (t i).state ≡ zombie
      → (t' i).state ≡ unused
      → ((j : ℕ) → j ≢ i → t' j ≡ t j)
      → Waited t t' cur (returns (t i).pid)
  childless : ((i : ℕ) → i < nproc → (t i).parent ≢ some cur) → Waited t t' cur fails
  killed :
      (t cur).killed ≡ true
      → ((i : ℕ) → IsKid t cur i → (t i).state ≢ zombie)
      → Waited t t' cur fails
  sleeps :
      (i : ℕ)
      → IsKid t cur i
      → ((i : ℕ) → IsKid t cur i → (t i).state ≢ zombie)
      → (t' cur).state ≡ sleeping
      → (t' cur).chan ≡ slot cur
      → Waited t t' cur blocks

module _ (v : Services) (c cur : ℕ) (k : Kernel v.World) where
  after_reap :
      (i : ℕ)
      → IsFound (λ p. is_zombie p.state) cur k.procs 0 nproc i
      → Waited k.procs (reap v i k).procs cur (returns (k.procs i).pid)
  unfolding reap
  after_reap i f =
      reaped i (omega arith, f.child) (ground (arith, f.is_ready)) (ground arith)
        (λ j ne. ground arith)

  more_killed : (k.procs cur).killed ≡ true → (wait_more v true c cur k).0 ≡ fails
  unfolding wait_more
  more_killed h = ground arith

  more_sleeps :
      (k.procs cur).killed ≡ false
      → let (out, k') = wait_more v true c cur k in
        (out ≡ blocks) × ((k'.procs cur).state ≡ sleeping) × ((k'.procs cur).chan ≡ slot cur)
  unfolding wait_more sleep_on
  more_sleeps h = ground arith

  after_miss :
      (b : Bool)
      → IsMissed (λ p. is_zombie p.state) cur k.procs 0 nproc false b
      → let (out, k') = wait_more v b c cur k in Waited k.procs k'.procs cur out
  after_miss false m =
      unfold wait_more in
      childless (λ i lt q.
        ground
          (arith, (m.no_child refl).1 i (omega arith) lt, points_to_iff (k.procs i).parent cur))
  after_miss true m = elim (Bool-cases (k.procs cur).killed) [
    | inl e ↦ rw (more_killed e) (killed e no_zombie)
    | inr e ↦ elim (m.a_child refl) [
      | inl q ↦ cc
      | inr (i, lo, lt, q) ↦ let (o, s, h) = more_sleeps e in rw o (sleeps i (lt, q) no_zombie s h)
    ]
  ]
    where
      no_zombie : (i : ℕ) → IsKid k.procs cur i → (k.procs i).state ≢ zombie
      no_zombie i kid q = ground (arith, m.none_ready i (omega arith) kid.0 kid.1)

  -- A round of `wait` ends in one of four ways: it returns the pid of an exited child and frees that
  -- slot alone; it fails, there being no child; it fails, no child having exited and the caller being
  -- killed; or no child has exited, there is one, and the caller sleeps on its own slot.
  pub wait-Waited : let (out, k') = wait v c cur k in Waited k.procs k'.procs cur out
  unfolding wait
  wait-Waited = elim (Scan-cases (scan_kids (λ p. is_zombie p.state) cur nproc 0 false k.procs)) [
    | inl (i, e) ↦ rw (wait, e) (after_reap i (scan-found _ cur k.procs nproc 0 false i e))
    | inr (b, e) ↦ rw (wait, e) (after_miss b (scan-missed _ cur k.procs nproc 0 false b e))
  ]

module _ {W : Type 0} (cur : ℕ) (k : Kernel W) (ne : cur ≢ k.initproc) where
  -- After the part of `exit` under the lock the process is a zombie, and no slot names it as parent.
  pub die_no_children :
      (i : ℕ)
      → cur < nproc
      → i < nproc
      → (((die cur k).procs cur).state ≡ zombie) × (((die cur k).procs i).parent ≢ some cur)
  die_no_children i lt lt' =
      ((die-IsLeft cur k ne cur lt).itself refl, (die-IsLeft cur k ne i lt').no_child)

  -- No lost wakeup: a parent that sleeps in `wait`, on its own slot, is runnable once a child has
  -- exited.
  pub die_wakes_parent :
      (par : ℕ)
      → (k.procs cur).parent ≡ some par
      → par < nproc
      → par ≢ cur
      → (k.procs par).state ≡ sleeping
      → (k.procs par).chan ≡ slot par
      → ((die cur k).procs par).state ≡ runnable
  unfolding die wake
  die_wakes_parent par hp lt np s h = ground (
    arith,
    adopt_all-IsAdopted k.initproc cur (wakeup1 (proc_chan (k.procs cur).parent) k.procs) par,
    wakeup1-at (proc_chan (k.procs cur).parent) k.procs par,
  )
