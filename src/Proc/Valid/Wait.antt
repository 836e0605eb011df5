-- ===== src/Proc/Valid/Wait.antt =====
-- `wait` and `procstat` keep the table valid.
use os_fcfs_prirority.Base.{
  ℕ, ◌<◌, ◌≡◌, ◌⊎◌, refl, inl, inr, Bool, false, ◌&&◌, some, arith, Bool-cases, not, ◌||◌, ◌==◌,
}
use os_fcfs_prirority.Proc.Types.{zombie, slot, Kernel, Services, nproc, is_zombie, put}
use os_fcfs_prirority.Proc.Wait.{Scan, found, missed, scan_kids, reap, wait_more, wait, procstat}
use os_fcfs_prirority.Proc.Valid.{IsValid}
use os_fcfs_prirority.Proc.Valid.Scan.{IsFound, scan-found}
use os_fcfs_prirority.Proc.Valid.Dispatch.{sleep_on-IsValid}
use os_fcfs_prirority.Proc.Valid.Signal.{IsWoken-IsValid}

pub Scan-cases : (s : Scan) → ((i : ℕ) × (s ≡ found i)) ⊎ ((b : Bool) × (s ≡ missed b))
Scan-cases (found i) = inl (i, refl)
Scan-cases (missed b) = inr (b, refl)

module _ (v : Services) where
  open v use {World}

  pub reap-IsValid :
      (i : ℕ) (k : Kernel World)
      → IsValid k
      → i < nproc
      → (k.procs i).state ≡ zombie
      → IsValid (reap v i k)
  unfolding reap
  reap-IsValid i k ok hi hz = record {
    next_pos = ok.next_pos;
    pid_range = λ j hj hs. grind (arith, ok.pid_range j hj);
    pid_unique = λ j m hj hm hs hs' e. grind (arith, ok.pid_unique j m hj hm);
    on_cpu = λ d j h. grind (arith, ok.on_cpu d j);
    one_cpu = ok.one_cpu;
    parents = λ j m hj h. grind (arith, ok.parents j m hj);
    init_live = grind (arith, ok.init_live);
  }

  module _ (c cur : ℕ) (k : Kernel World) (ok : IsValid k) (hc : k.cpus c ≡ some cur) where
    -- The caller with its `etime` stamped.
    abbrev pub stamped : Kernel World
    stamped = put cur (λ p. record p { etime = k.ticks }) k

    stamped-IsValid : IsValid stamped
    stamped-IsValid = IsWoken-IsValid k ok stamped.procs k.world (λ i. ground arith)

    pub wait_more-IsValid : (have : Bool) → IsValid (wait_more v have c cur k).1
    unfolding wait_more
    wait_more-IsValid have = elim (Bool-cases (not have || (stamped.procs cur).killed)) [
      | inl e ↦ rw (wait_more, e) stamped-IsValid
      | inr e ↦ rw (wait_more, e) (sleep_on-IsValid c (slot cur) cur stamped stamped-IsValid hc)
    ]

    pub wait-IsValid : IsValid (wait v c cur k).1
    unfolding wait
    wait-IsValid =
        elim (Scan-cases (scan_kids (λ p. is_zombie p.state) cur nproc 0 false k.procs)) [
          | inl (i, e) ↦ rw (wait, e) (freed i (scan-found _ cur k.procs nproc 0 false i e))
          | inr (b, e) ↦ rw (wait, e) (wait_more-IsValid b)
        ]
      where
        freed :
            (i : ℕ) → IsFound (λ p. is_zombie p.state) cur k.procs 0 nproc i → IsValid (reap v i k)
        freed i f = reap-IsValid i k ok (omega arith) (ground arith)

    pub procstat-IsValid :
        (processid : ℕ) (wanted : Bool) → IsValid (procstat v processid wanted c cur k).2
    unfolding procstat
    procstat-IsValid processid wanted =
        elim (Scan-cases
          (scan_kids (λ p. (p.pid == processid) && is_zombie p.state) cur nproc 0 false k.procs)) [
            | inl (i, e) ↦ rw (procstat, e) (freed i (scan-found _ cur k.procs nproc 0 false i e))
            | inr (b, e) ↦ rw (procstat, e) (wait_more-IsValid b)
          ]
      where
        freed :
            (i : ℕ)
            → IsFound (λ p. (p.pid == processid) && is_zombie p.state) cur k.procs 0 nproc i
            → IsValid (reap v i k)
        freed i f = reap-IsValid i k ok (omega arith) (ground arith)
