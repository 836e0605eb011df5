-- ===== src/Proc/Valid/Dispatch.antt =====
-- The scheduler's switch, and `sched`, keep the table valid.
use os_fcfs_prirority.Base.{ℕ, ◌<◌, ◌≡◌, ◌≢◌, update, none, some, arith}
use os_fcfs_prirority.Proc.Types.{runnable, running, Chan, blocks, Kernel, nproc}
use os_fcfs_prirority.Proc.Fcfs.{dispatch}
use os_fcfs_prirority.Proc.Signal.{sched, yield_cpu, sleep_on}
use os_fcfs_prirority.Proc.Valid.{IsValid}

-- `sched` by a process that is not running gives up the processor and changes nothing else.
pub sched_lem :
    {W : Type 0} (c cur : ℕ) (k : Kernel W)
    → (k.procs cur).state ≢ running
    → sched c cur k ≡ (blocks, record k { cpus = update k.cpus c none })
unfolding sched
sched_lem c cur k h = ground arith

module _ {W : Type 0} (c : ℕ) where
  pub dispatch-IsValid :
      (p : ℕ) (k : Kernel W)
      → IsValid k
      → p < nproc
      → (k.procs p).state ≡ runnable
      → k.cpus c ≡ none
      → IsValid (dispatch c p k)
  unfolding dispatch
  dispatch-IsValid p k v hp hr hc = record {
    next_pos = v.next_pos;
    pid_range = λ i hi hs. grind (arith, v.pid_range i hi);
    pid_unique = λ i j hi hj hs hs' e. grind (arith, v.pid_unique i j hi hj);
    on_cpu = λ d i h. grind (arith, v.on_cpu d i);
    one_cpu = λ d d' i h h'. grind (arith, v.on_cpu d i, v.on_cpu d' i, v.one_cpu d d' i);
    parents = λ i j hi h. grind (arith, v.parents i j hi);
    init_live = grind (arith, v.init_live);
  }

  pub yield_cpu-IsValid :
      (cur : ℕ) (k : Kernel W) → IsValid k → k.cpus c ≡ some cur → IsValid (yield_cpu c cur k).1
  unfolding yield_cpu
  yield_cpu-IsValid cur k v hc = record {
    next_pos = ground (arith, v.next_pos);
    pid_range = λ i hi hs. grind (arith, v.pid_range i hi, v.on_cpu c cur);
    pid_unique = λ i j hi hj hs hs' e. grind (arith, v.pid_unique i j hi hj, v.on_cpu c cur);
    on_cpu = λ d i h. grind (arith, v.on_cpu d i, v.one_cpu c d cur);
    one_cpu = λ d d' i h h'. grind (arith, v.one_cpu d d' i);
    parents = λ i j hi h. grind (arith, v.parents i j hi);
    init_live = grind (arith, v.init_live);
  }

  pub sleep_on-IsValid :
      (chan : Chan) (cur : ℕ) (k : Kernel W)
      → IsValid k
      → k.cpus c ≡ some cur
      → IsValid (sleep_on chan c cur k).1
  unfolding sleep_on
  sleep_on-IsValid chan cur k v hc = record {
    next_pos = ground (arith, v.next_pos);
    pid_range = λ i hi hs. grind (arith, v.pid_range i hi, v.on_cpu c cur);
    pid_unique = λ i j hi hj hs hs' e. grind (arith, v.pid_unique i j hi hj, v.on_cpu c cur);
    on_cpu = λ d i h. grind (arith, v.on_cpu d i, v.one_cpu c d cur);
    one_cpu = λ d d' i h h'. grind (arith, v.one_cpu d d' i);
    parents = λ i j hi h. grind (arith, v.parents i j hi);
    init_live = grind (arith, v.init_live);
  }
