-- ===== src/Proc/Fcfs.antt =====
-- fcfs/proc.c, `scheduler`: the runnable process that was created first.
use os_fcfs_prirority.Base.{ℕ, Option, none, some, update, for_range, signed_ltb, if◌then◌else◌}
use os_fcfs_prirority.Proc.Types.{Proc, Kernel, running, nproc, is_runnable, put}

-- One round of the scan: slot `i` against `minP`.
unfoldable pub scan_one : (ℕ → Proc) → ℕ → Option ℕ → Option ℕ
scan_one t i min =
    if is_runnable (t i).state
    then elim min [
      | none ↦ some i
      | some m ↦ if signed_ltb (t i).ctime (t m).ctime then some i else some m
    ]
    else min

-- The whole scan, from `minP = 0`.
unfoldable pub choose : (ℕ → Proc) → Option ℕ
choose t = for_range nproc 0 (scan_one t) none

-- The switch to slot `p` on processor `c`.
unfoldable pub dispatch : {W : Type 0} → ℕ → ℕ → Kernel W → Kernel W
dispatch c p k =
    let k1 : Kernel _ = put p (λ q. record q { state = running }) k in
    record k1 { cpus = update k1.cpus c (some p) }

-- One round of the scheduler's endless loop on processor `c`, up to the switch.
unfoldable pub schedule : {W : Type 0} → ℕ → Kernel W → Kernel W
schedule c k = elim (choose k.procs) [ none ↦ k | some p ↦ dispatch c p k ]
