-- ===== src/Proc/Wakeup.antt =====
-- What the loop of `wakeup1` in proc.c does to a slot.
use os_fcfs_prirority.Base.{ℕ, ◌≡◌, arith, ltb, if◌then◌else◌, each-at, update}
use os_fcfs_prirority.Proc.Types.{Chan, Proc, nproc}
use os_fcfs_prirority.Proc.Signal.{wake, wakeup1}

pub wakeup1-at :
    (chan : Chan) (t : ℕ → Proc) (i : ℕ)
    → wakeup1 chan t i ≡ (if ltb i nproc then wake chan (t i) else t i)
unfolding wakeup1
wakeup1-at chan t i = ground (
  arith,
  each-at (λ j s. update s j (wake chan (s j))) (λ _ p. wake chan p) (λ j s k. ground arith) nproc 0
      t i,
)
