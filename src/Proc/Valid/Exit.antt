-- ===== src/Proc/Valid/Exit.antt =====
-- `exit` keeps the table valid, and leaves no child of the process that exits.
use native.Mathlib.Decide.{ℕ_discrete}
use os_fcfs_prirority.Base.{
  ℕ, suc, ◌<◌, ◌≡◌, ◌≢◌, refl, none, ◌⊎◌, some, arith, ltb, ◌&&◌, if◌then◌else◌, points_to,
  points_to_iff, for_range_inv, update, ==_iff, ne→==,
}
use os_fcfs_prirority.Proc.Types.{
  sleeping, runnable, zombie, slot, Proc, Kernel, nproc, proc_chan, Services,
}
use os_fcfs_prirority.Proc.Signal.{wakeup1, wake, sched}
use os_fcfs_prirority.Proc.Exit.{adopt, adopt_all, die, drop_files, exit}
use os_fcfs_prirority.Proc.Wakeup.{wakeup1-at}
use os_fcfs_prirority.Proc.Valid.Dispatch.{sched_lem}
use os_fcfs_prirority.Proc.Valid.{IsValid}
use os_fcfs_prirority.Proc.Valid.Signal.{wakeup1-IsWoken, IsWoken-IsValid}

-- Slot `i` after `m` rounds of the loop that hands the children of `cur` to `init`.
pub record IsAdopted (init cur m i : ℕ) (p q : Proc) : Type 0 where
  pub same_pid : q.pid ≡ p.pid
  pub new_parent : q.parent ≡ (if ltb i m && points_to p.parent cur then some init else p.parent)
  pub woken : (q.state ≡ p.state) ⊎ ((p.state ≡ sleeping) × (q.state ≡ runnable))

module _ (init cur : ℕ) (t : ℕ → Proc) where
  adopt-IsAdopted :
      (m : ℕ) (s : ℕ → Proc)
      → m < nproc
      → ((i : ℕ) → IsAdopted init cur m i (t i) (s i))
      → (i : ℕ) → IsAdopted init cur (suc m) i (t i) (adopt init cur m s i)
  unfolding adopt wake
  adopt-IsAdopted m s hm h i =
      ground (
        arith,
        h i,
        h m,
        wakeup1-at (slot init) (update s m (record (s m) { parent = some init })) i,
      )

  pub adopt_all-IsAdopted : (i : ℕ) → IsAdopted init cur nproc i (t i) (adopt_all init cur t i)
  unfolding adopt_all
  adopt_all-IsAdopted =
      for_range_inv (λ m s. (i : ℕ) → IsAdopted init cur m i (t i) (s i)) (adopt init cur) nproc
        nproc 0 (omega arith) (λ m s lo hi h. adopt-IsAdopted m s hi h) t (λ i. ground arith)

-- Slot `i` after the part of `exit` under the lock, `p` being the slot before.
pub record IsLeft (init cur i : ℕ) (p q : Proc) : Type 0 where
  pub same_pid : q.pid ≡ p.pid
  pub no_child : q.parent ≢ some cur
  pub new_parent : (q.parent ≡ p.parent) ⊎ (q.parent ≡ some init)
  pub itself : i ≡ cur → q.state ≡ zombie
  pub others : i ≢ cur → (q.state ≡ p.state) ⊎ ((p.state ≡ sleeping) × (q.state ≡ runnable))

module _ {W : Type 0} (cur : ℕ) (k : Kernel W) (hi : cur ≢ k.initproc) where
  pub die-IsLeft : (i : ℕ) → i < nproc → IsLeft k.initproc cur i (k.procs i) ((die cur k).procs i)
  unfolding die
  die-IsLeft i h = ground (
    arith,
    adopt_all-IsAdopted k.initproc cur (wakeup1 (proc_chan (k.procs cur).parent) k.procs) i,
    adopt_all-IsAdopted k.initproc cur (wakeup1 (proc_chan (k.procs cur).parent) k.procs) cur,
    wakeup1-IsWoken (proc_chan (k.procs cur).parent) k.procs i,
    wakeup1-IsWoken (proc_chan (k.procs cur).parent) k.procs cur,
    points_to_iff (k.procs i).parent cur,
  )

  die_rest :
      ((die cur k).nextpid ≡ k.nextpid)
      × ((die cur k).initproc ≡ k.initproc)
      × ((die cur k).cpus ≡ k.cpus)
  unfolding die
  die_rest = (refl, refl, refl)

  module _ (c : ℕ) (v : IsValid k) (hc : k.cpus c ≡ some cur) where
    died-IsValid : IsValid (record (die cur k) { cpus = update (die cur k).cpus c none })
    died-IsValid = record {
      next_pos = omega (arith, die_rest, v.next_pos);
      pid_range =
          λ i h hs. grind (arith, die_rest, die-IsLeft i h, v.pid_range i h, v.on_cpu c cur);
      pid_unique = λ i j h h' hs hs' e.
          grind (
            arith,
            die-IsLeft i h,
            die-IsLeft j h',
            v.pid_unique i j h h',
            v.on_cpu c cur,
            die_rest,
          );
      on_cpu = λ d i h. grind (arith, v.on_cpu d i, die-IsLeft i, v.one_cpu c d cur, die_rest);
      one_cpu = λ d d' i h h'. grind (arith, v.one_cpu d d' i, die_rest);
      parents = λ i j h q.
          grind (arith, die-IsLeft i h, die-IsLeft j, v.parents i j h, v.init_live, die_rest);
      init_live = grind (arith, v.init_live, die-IsLeft k.initproc, die_rest);
    }

    -- The part of `exit` under the lock, with the switch.
    pub exit_sched-IsValid : IsValid (sched c cur (die cur k)).1
    exit_sched-IsValid =
        rw (sched_lem c cur (die cur k) (λ e. ground (arith, die-IsLeft cur (v.on_cpu c cur hc).0)))
          died-IsValid

module _ (v : Services) where
  open v use {World}

  drop_files-IsValid : (cur : ℕ) (k : Kernel World) → IsValid k → IsValid (drop_files v cur k)
  unfolding drop_files
  drop_files-IsValid cur k ok = IsWoken-IsValid k ok _ _ (λ i. ground arith)

  -- `exit` keeps the table valid.
  pub exit-IsValid :
      (c cur : ℕ) (k : Kernel World) → IsValid k → k.cpus c ≡ some cur → IsValid (exit v c cur k).1
  unfolding exit
  exit-IsValid c cur k ok hc = elim (ℕ_discrete cur k.initproc) [
    | yes e ↦ rw (exit, (==_iff cur k.initproc).1 e) ok
    | no ne ↦
        rw (exit, ne→== cur k.initproc ne)
          (unfold drop_files in
            exit_sched-IsValid cur (drop_files v cur k) ne c (drop_files-IsValid cur k ok) hc)
  ]
