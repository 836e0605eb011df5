-- ===== src/Proc/Valid/Signal.antt =====
-- `wakeup`, `kill`, `ps` and the end of `sleep` keep the table valid.
use os_fcfs_prirority.Base.{
  ℕ, ◌≡◌, ◌⊎◌, inl, inr, arith, each-at, update, first, Option-cases, ◌==◌, if◌then◌else◌,
}
use os_fcfs_prirority.Proc.Types.{sleeping, runnable, Chan, Proc, Kernel, nproc, is_unused}
use os_fcfs_prirority.Proc.Signal.{wakeup, wakeup1, wake, kill, sleep_done}
use os_fcfs_prirority.Proc.Wait.{ps}
use os_fcfs_prirority.Proc.Wakeup.{wakeup1-at}
use os_fcfs_prirority.Proc.Valid.{IsValid}

-- A slot that was left alone, or woken, as far as validity can see.
pub record IsWoken (p q : Proc) : Type 0 where
  pub same_pid : q.pid ≡ p.pid
  pub same_parent : q.parent ≡ p.parent
  pub woken : (q.state ≡ p.state) ⊎ ((p.state ≡ sleeping) × (q.state ≡ runnable))

pub wakeup1-IsWoken : (chan : Chan) (t : ℕ → Proc) (i : ℕ) → IsWoken (t i) (wakeup1 chan t i)
unfolding wake
wakeup1-IsWoken chan t i = ground (arith, wakeup1-at chan t i)

module _ {W : Type 0} (k : Kernel W) (v : IsValid k) where
  pub IsWoken-IsValid :
      (t : ℕ → Proc) (w : W)
      → ((i : ℕ) → IsWoken (k.procs i) (t i))
      → IsValid (record k { procs = t; world = w })
  IsWoken-IsValid t w same = record {
    next_pos = v.next_pos;
    pid_range = λ i hi hs. grind (arith, v.pid_range i hi, same i);
    pid_unique = λ i j hi hj hs hs' e. grind (arith, v.pid_unique i j hi hj, same i, same j);
    on_cpu = λ d i h. grind (arith, v.on_cpu d i, same i);
    one_cpu = v.one_cpu;
    parents = λ i j hi h. grind (arith, v.parents i j hi, same i, same j);
    init_live = grind (arith, v.init_live, same k.initproc);
  }

  pub wakeup-IsValid : (chan : Chan) → IsValid (wakeup chan k)
  unfolding wakeup
  wakeup-IsValid chan =
      IsWoken-IsValid (wakeup1 chan k.procs) k.world (wakeup1-IsWoken chan k.procs)

  pub sleep_done-IsValid : (cur : ℕ) → IsValid (sleep_done cur k)
  unfolding sleep_done
  sleep_done-IsValid cur = IsWoken-IsValid _ k.world (λ i. ground arith)

  pub kill-IsValid : (pid : ℕ) → IsValid (kill pid k).1
  unfolding kill
  kill-IsValid pid = elim (Option-cases (first (λ i. (k.procs i).pid == pid) nproc 0)) [
    | inl e ↦ rw (e, kill) v
    | inr (i, e) ↦ rw (e, kill) (IsWoken-IsValid _ k.world (λ j. ground arith))
  ]

  pub ps-IsValid : IsValid (ps k).1
  unfolding ps
  ps-IsValid = IsWoken-IsValid (ps k).1.procs k.world (λ i. ground (
    arith,
    each-at
        (λ j t. if is_unused (t j).state then t else update t j (record (t j) { etime = k.ticks }))
        (λ _ p. if is_unused p.state then p else record p { etime = k.ticks })
        (λ j t m. ground arith) nproc 0 k.procs i,
  ))
