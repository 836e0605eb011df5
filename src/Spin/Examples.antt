-- ===== src/Spin/Examples.antt =====
-- Processor 1 takes the lock while processor 0 waits for it.
use os_fcfs_prirority.Base.{ℕ, ◌≡◌, refl, some, none, true, false, arith}
use os_fcfs_prirority.Spin.{
  Cpu, Spinlock, initlock, end_acquire, pushcli, popcli, holding, begin_acquire, try_lock,
}
use os_fcfs_prirority.Spin.Nest.{pushes, pops, pops-pushes}
use os_fcfs_prirority.Spin.Steps.{
  spinning, got, inside, System, begins, locks, spins, enters, at_first, moved, Reach, start, later,
}
use os_fcfs_prirority.Spin.Exclusion.{Returns, Reach-exclusive, Reach-Returns}

abbrev open_cpu : Cpu
open_cpu = record { ncli = 0; intena = false; enabled = true }

pops-open_cpu :
    (c' : Cpu) × (pops 3 (pushes 3 open_cpu) ≡ some c') × (c'.ncli ≡ 0) × (c'.enabled ≡ true)
pops-open_cpu = pops-pushes 3 open_cpu (record { quiet = λ lt. absurd (omega arith) })

abbrev closed_cpu : Cpu
closed_cpu = record { ncli = 1; intena = false; enabled = false }

abbrev one_waits : System
one_waits = moved at_first 1 initlock closed_cpu spinning 0

abbrev both_wait : System
both_wait = moved one_waits 0 initlock closed_cpu spinning 0

abbrev held_lock : Spinlock
held_lock = record { locked = true; cpu = none }

abbrev one_got : System
one_got = moved both_wait 1 held_lock (both_wait.cpus 1) got (both_wait.depth 1)

abbrev one_inside : System
one_inside = moved one_got 1 (end_acquire held_lock 1) (one_got.cpus 1) inside (one_got.depth 1)

abbrev zero_spins : System
zero_spins = moved one_inside 0 (one_inside.lock) (one_inside.cpus 0) spinning (one_inside.depth 0)

zero_spins-Reach : Reach zero_spins
unfolding begin_acquire holding pushcli popcli try_lock
zero_spins-Reach =
    later
      (later
        (later (later (later start (begins 1 refl refl)) (begins 0 refl refl)) (locks 1 refl refl))
        (enters 1 refl))
      (spins 0 refl refl)

abbrev one : ℕ
one = 1

Reach-exclusive_example :
    (one ≡ 1) × (zero_spins.lock.cpu ≡ some 1) × ((zero_spins.cpus 1).enabled ≡ false)
Reach-exclusive_example = Reach-exclusive 1 1 zero_spins-Reach refl refl

Reach-Returns_example : Returns zero_spins 1 inside
Reach-Returns_example = Reach-Returns 1 zero_spins-Reach
