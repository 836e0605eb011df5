-- ===== src/Proc/Safety.antt =====
-- The table stays valid over every sequence of calls.
use os_fcfs_prirority.Base.{
  ℕ, ◌+◌, ◌^◌, ◌≤◌, ◌<◌, ◌≡◌, Option, none, some, List, [], ◌∷◌, arith, inl, inr, Option-cases,
  Bool-cases, ltb, ltb→lt, true, Bool,
}
use os_fcfs_prirority.Proc.Types.{ProcState, runnable, Kernel, Services, nproc, is_runnable}
use os_fcfs_prirority.Proc.Fcfs
use os_fcfs_prirority.Proc.Fcfs.{choose, dispatch}
use os_fcfs_prirority.Proc.Priority.{visit}
use os_fcfs_prirority.Proc.Policy.{choose-some_iff, visit-IsBest}
use os_fcfs_prirority.Proc.System.{
  Call, fcfs_scheduler, priority_scheduler, do_fork, do_exit, do_wait, do_yield, do_custmpro,
  do_procstat, do_sleep, end_sleep, do_wakeup, do_kill, do_ps, tick, schedule_at, step, run,
  if_idle, by_current,
}
use os_fcfs_prirority.Proc.Alloc.{
  claim, give_stack, allocproc, copy_process, undo_alloc, fill_child, fork_with, fork, custmpro,
}
use os_fcfs_prirority.Proc.Signal.{yield_cpu, sleep_on, sleep_done, wakeup, kill}
use os_fcfs_prirority.Proc.Exit.{exit, die, drop_files}
use os_fcfs_prirority.Proc.Wait.{wait, procstat, ps, wait_more, reap}
use os_fcfs_prirority.Proc.Valid.{IsValid}
use os_fcfs_prirority.Proc.Valid.Dispatch.{dispatch-IsValid, yield_cpu-IsValid, sleep_on-IsValid}
use os_fcfs_prirority.Proc.Valid.Signal.{
  wakeup-IsValid, kill-IsValid, ps-IsValid, sleep_done-IsValid,
}
use os_fcfs_prirority.Proc.Valid.Exit.{exit-IsValid}
use os_fcfs_prirority.Proc.Valid.Wait.{wait-IsValid, procstat-IsValid}
use os_fcfs_prirority.Proc.Valid.Fork.{fork-IsValid, custmpro-IsValid}

runnable_of : (s : ProcState) → is_runnable s ≡ true → s ≡ runnable
runnable_of s h = ground arith

schedule-IsValid :
    {W : Type 0} (c : ℕ) (k : Kernel W) → IsValid k → k.cpus c ≡ none → IsValid (Fcfs.schedule c k)
unfolding Fcfs.schedule
schedule-IsValid c k ok idle = elim (Option-cases (choose k.procs)) [
  | inl e ↦ rw (Fcfs.schedule, e) ok
  | inr (m, e) ↦
      let o = (choose-some_iff k.procs m).0 e in
      rw (Fcfs.schedule, e) (dispatch-IsValid c m k ok o.in_table (runnable_of _ o.ready) idle)
]

schedule_at-IsValid :
    {W : Type 0} (c p : ℕ) (k : Kernel W)
    → IsValid k
    → k.cpus c ≡ none
    → IsValid (schedule_at c p k)
unfolding schedule_at
schedule_at-IsValid c p k ok idle = elim (Bool-cases (ltb p nproc)) [
  | inr out ↦ rw (schedule_at, out) ok
  | inl lt ↦ elim (Option-cases (visit k.procs p)) [
    | inl e ↦ rw (schedule_at, lt, e) ok
    | inr (h, e) ↦
        let w = visit-IsBest k.procs p h (ltb→lt p nproc lt) e in
        rw (schedule_at, lt, e) (dispatch-IsValid c h k ok w.in_table (runnable_of _ w.ready) idle)
  ]
]

module _ {W : Type 0} (c : ℕ) (k : Kernel W) (ok : IsValid k) where
  if_idle-IsValid : (r : Kernel W) → (k.cpus c ≡ none → IsValid r) → IsValid (if_idle c k r)
  if_idle-IsValid r keep = elim (Option-cases (k.cpus c)) [
    | inl e ↦ rw (if_idle, e) (keep e)
    | inr (cur, e) ↦ rw (if_idle, e) ok
  ]

  by_current-IsValid :
      (r : ℕ → Kernel W)
      → ((cur : ℕ) → k.cpus c ≡ some cur → IsValid (r cur))
      → IsValid (by_current c k r)
  by_current-IsValid r keep = elim (Option-cases (k.cpus c)) [
    | inl e ↦ rw (by_current, e) ok
    | inr (cur, e) ↦ rw (by_current, e) (keep cur e)
  ]

-- The pids that a call can take.
abbrev takes : Call → ℕ
takes (do_fork c) = 1
takes (do_custmpro c n) = 1
takes _ = 0

-- How many calls of `fork` and `custmpro` there are.
abbrev pub forks : List Call → ℕ
forks [] = 0
forks (call ∷ calls) = takes call + forks calls

module _ (v : Services) where
  open v use {World}

  step-IsValid :
      (call : Call) (k : Kernel World)
      → IsValid k
      → k.nextpid + takes call < 2 ^ 32
      → IsValid (step v call k)
  unfolding step
  step-IsValid (fcfs_scheduler c) k ok room = if_idle-IsValid c k ok _ (schedule-IsValid c k ok)
  step-IsValid (priority_scheduler c p) k ok room =
      if_idle-IsValid c k ok _ (schedule_at-IsValid c p k ok)
  step-IsValid (do_fork c) k ok room =
      by_current-IsValid c k ok _ (λ cur e. fork-IsValid v c cur k ok room e)
  step-IsValid (do_exit c) k ok room =
      by_current-IsValid c k ok _ (λ cur e. exit-IsValid v c cur k ok e)
  step-IsValid (do_wait c) k ok room =
      by_current-IsValid c k ok _ (λ cur e. wait-IsValid v c cur k ok e)
  step-IsValid (do_yield c) k ok room =
      by_current-IsValid c k ok _ (λ cur e. yield_cpu-IsValid c cur k ok e)
  step-IsValid (do_custmpro c n) k ok room =
      by_current-IsValid c k ok _ (λ cur e. custmpro-IsValid v n c cur k ok room e)
  step-IsValid (do_procstat c pid wanted) k ok room =
      by_current-IsValid c k ok _ (λ cur e. procstat-IsValid v c cur k ok e pid wanted)
  step-IsValid (do_sleep c chan) k ok room =
      by_current-IsValid c k ok _ (λ cur e. sleep_on-IsValid c chan cur k ok e)
  step-IsValid (end_sleep c) k ok room =
      by_current-IsValid c k ok _ (λ cur e. sleep_done-IsValid k ok cur)
  step-IsValid (do_wakeup chan) k ok room = wakeup-IsValid k ok chan
  step-IsValid (do_kill pid) k ok room = kill-IsValid k ok pid
  step-IsValid do_ps k ok room = ps-IsValid k ok
  step-IsValid tick k ok room = record {
    next_pos = ok.next_pos;
    pid_range = ok.pid_range;
    pid_unique = ok.pid_unique;
    on_cpu = ok.on_cpu;
    one_cpu = ok.one_cpu;
    parents = ok.parents;
    init_live = ok.init_live;
  }

  by_current-nextpid :
      (n c : ℕ) (k : Kernel World) (r : ℕ → Kernel World)
      → ((cur : ℕ) → (r cur).nextpid ≤ k.nextpid + n)
      → (by_current c k r).nextpid ≤ k.nextpid + n
  by_current-nextpid n c k r keep = elim (Option-cases (k.cpus c)) [
    | inl e ↦ rw (by_current, e) (omega arith)
    | inr (cur, e) ↦ rw (by_current, e) (keep cur)
  ]

  -- `fork` and `custmpro` take one pid at most, and the other calls none.
  nextpid-allocproc : (k : Kernel World) → (allocproc v k).1.nextpid ≤ k.nextpid + 1
  unfolding allocproc give_stack claim
  nextpid-allocproc k = ground arith

  nextpid-fork_with :
      (given : Option ℕ) (cur : ℕ) (k : Kernel World)
      → (fork_with v given cur k).1.nextpid ≤ k.nextpid + 1
  unfolding fork_with copy_process undo_alloc fill_child
  nextpid-fork_with given cur k = ground (arith, nextpid-allocproc k)

  nextpid-wait_more :
      (have : Bool) (c cur : ℕ) (k : Kernel World)
      → (wait_more v have c cur k).1.nextpid ≡ k.nextpid
  unfolding wait_more
  nextpid-wait_more have c cur k = ground arith

  nextpid-wait : (c cur : ℕ) (k : Kernel World) → (wait v c cur k).1.nextpid ≤ k.nextpid + 0
  unfolding wait reap
  nextpid-wait c cur k = grind (arith, nextpid-wait_more)

  nextpid-procstat :
      (pid : ℕ) (wanted : Bool) (c cur : ℕ) (k : Kernel World)
      → (procstat v pid wanted c cur k).2.nextpid ≤ k.nextpid + 0
  unfolding procstat reap
  nextpid-procstat pid wanted c cur k = grind (arith, nextpid-wait_more)

  nextpid-step : (call : Call) (k : Kernel World) → (step v call k).nextpid ≤ k.nextpid + takes call
  unfolding step
  nextpid-step (fcfs_scheduler c) k = unfold Fcfs.schedule dispatch in ground arith
  nextpid-step (priority_scheduler c p) k = unfold schedule_at dispatch in ground arith
  nextpid-step (do_fork c) k =
      by_current-nextpid 1 c k _ (λ cur. unfold fork in nextpid-fork_with none cur k)
  nextpid-step (do_exit c) k =
      by_current-nextpid 0 c k _ (λ cur. unfold exit die drop_files in ground arith)
  nextpid-step (do_wait c) k = by_current-nextpid 0 c k _ (λ cur. nextpid-wait c cur k)
  nextpid-step (do_yield c) k = unfold yield_cpu in ground arith
  nextpid-step (do_custmpro c n) k =
      by_current-nextpid 1 c k _ (λ cur. unfold custmpro in nextpid-fork_with (some n) cur k)
  nextpid-step (do_procstat c pid wanted) k =
      by_current-nextpid 0 c k _ (λ cur. nextpid-procstat pid wanted c cur k)
  nextpid-step (do_sleep c chan) k = unfold sleep_on in ground arith
  nextpid-step (end_sleep c) k = unfold sleep_done in ground arith
  nextpid-step (do_wakeup chan) k = unfold wakeup in omega arith
  nextpid-step (do_kill pid) k = unfold kill in ground arith
  nextpid-step do_ps k = unfold ps in omega arith
  nextpid-step tick k = omega arith

  -- The table stays valid over every sequence of calls, on any processors and in any order, as long
  -- as the calls of `fork` and `custmpro` are too few for `nextpid` to wrap.
  pub run-IsValid :
      (calls : List Call) (k : Kernel World)
      → IsValid k
      → k.nextpid + forks calls < 2 ^ 32
      → IsValid (run v calls k)
  unfolding run
  run-IsValid [] k ok room = ok
  run-IsValid (call ∷ calls) k ok room =
      run-IsValid calls (step v call k) (step-IsValid call k ok (omega arith))
        (omega (arith, nextpid-step call k))
