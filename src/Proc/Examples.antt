-- ===== src/Proc/Examples.antt =====
-- A small machine: the services with a counter for their state, and its runs.
use os_fcfs_prirority.Base.{
  false, ℕ, ◌+◌, ◌-◌, ◌^◌, ◌↔◌, true, ◌<◌, ◌≡◌, ◌≢◌, none, some, [], ◌∷◌, refl, arith, first,
  for_range, update,
}
use os_fcfs_prirority.Proc.Types.{
  unused, sleeping, runnable, running, zombie, slot, Proc, Kernel, Services, returns, fails, nproc,
  is_runnable,
}
use os_fcfs_prirority.Proc.Alloc.{claim, free_slot, give_stack, allocproc, copy_process, fork_with}
use os_fcfs_prirority.Proc.Memory.{blank, fill_first, init_slot, userinit, zero_proc, growproc}
use os_fcfs_prirority.Proc.Fcfs.{scan_one, choose, dispatch, schedule}
use os_fcfs_prirority.Proc.Signal.{wakeup, kill}
use os_fcfs_prirority.Proc.Priority.{visit, contest, pass}
use os_fcfs_prirority.Proc.Wait.{wait}
use os_fcfs_prirority.Proc.Exit.{die}
use os_fcfs_prirority.Proc.Choice.{IsOldest}
use os_fcfs_prirority.Proc.Policy.{
  choose-some_iff, choose-none_iff, turns, choose-turns, IsBest, visit-IsBest, IsTop, yields, All,
  pass_starves,
}
use os_fcfs_prirority.Proc.Contract.{IsForked, fork_with-IsForked, IsUntouched, fork_with-fails}
use os_fcfs_prirority.Proc.Reaping.{Waited, wait-Waited, die_no_children, die_wakes_parent}
use os_fcfs_prirority.Proc.Waking.{wakeup-at, Killed, kill-Killed}
use os_fcfs_prirority.Proc.Stale.{kill_zero, growproc_to_zero}
use os_fcfs_prirority.Proc.Safety.{run-IsValid}
use os_fcfs_prirority.Proc.System.{fcfs_scheduler, do_fork, do_yield, step, run}
use os_fcfs_prirority.Proc.Valid.{IsValid}
use os_fcfs_prirority.Proc.Boot.{boot-IsValid}

abbrev toy : Services
toy = record {
  World = ℕ;
  kalloc = λ w. (w + 1, w + 1);
  kfree = λ a w. w;
  setupkvm = λ w. (w + 1, w + 1);
  inituvm = λ d w. w;
  copyuvm = λ d s w. (w + 1, w + 1);
  freevm = λ d w. w;
  allocuvm = λ d old new w. (new, w + 1);
  deallocuvm = λ d old new w. (new, w + 1);
  filedup = λ f w. w;
  fileclose = λ f w. w;
  idup = λ d w. w;
  namei_root = λ w. (some 7, w);
  iput = λ d w. w;
}

-- The first process, running on processor 0.
abbrev booted : Kernel ℕ
booted = run toy (fcfs_scheduler 0 ∷ []) (userinit toy (blank 0)).1

boot-IsValid_example : IsValid booted
unfolding userinit init_slot allocproc free_slot first give_stack claim
boot-IsValid_example = boot-IsValid toy 0 (fcfs_scheduler 0 ∷ []) refl (omega arith)

booted_runs :
    (booted.cpus 0 ≡ some 0)
    × (booted.nextpid ≡ 2)
    × ((booted.procs 0).sz ≡ 4096)
    × ((booted.procs 5).pid ≡ 0)
unfolding run step schedule choose scan_one for_range dispatch userinit init_slot allocproc
    free_slot first give_stack claim fill_first
booted_runs = (refl, refl, refl, refl)

run-toy : IsValid (run toy (do_fork 0 ∷ do_yield 0 ∷ []) booted)
run-toy =
    run-IsValid toy (do_fork 0 ∷ do_yield 0 ∷ []) booted boot-IsValid_example
      (omega (arith, booted_runs))

-- Three runnable processes, created at 9, 4 and 4, of priorities 2, 7 and 1.
abbrev queue : ℕ → Proc
queue =
    update
      (update
        (update (λ i. zero_proc) 0 (record zero_proc { state = runnable; ctime = 9; priority = 2 }))
        1 (record zero_proc { state = runnable; ctime = 4; priority = 7 }))
      2 (record zero_proc { state = runnable; ctime = 4; priority = 1 })

abbrev queued : Kernel ℕ
queued = record (blank 0) { procs = queue }

queue_choice : (choose queue ≡ some 1) × (visit queue 0 ≡ some 2) × (visit queue 3 ≡ none)
unfolding choose scan_one for_range visit contest
queue_choice = (refl, refl, refl)

choose-some_iff_example : (choose queue ≡ some 1) ↔ IsOldest queue nproc 1
choose-some_iff_example = choose-some_iff queue 1

queue_idle : (choose queue ≡ none) ↔ ((i : ℕ) → i < nproc → is_runnable (queue i).state ≡ false)
queue_idle = choose-none_iff queue

queue_turns : choose (turns 3 0 1 queued).procs ≡ some 1
queue_turns = choose-turns 3 0 1 queued queue_choice.0

visit-IsBest_example : IsBest queue 2
visit-IsBest_example = visit-IsBest queue 0 2 (omega arith) queue_choice.1

queue-IsTop : IsTop queue 2
queue-IsTop = record { in_table = omega arith; ready = refl; least = λ i lt ne r. ground arith }

pass_starves_example : All (λ g. g ≡ 2) (pass yields 10 0 queue)
pass_starves_example = pass_starves 10 0 2 queue queue-IsTop

fork_with-IsForked_example :
    (np : ℕ) × IsForked (some 5) 0 2 np booted (fork_with toy (some 5) 0 booted).1
unfolding run step schedule choose scan_one for_range dispatch userinit init_slot allocproc
    free_slot first give_stack claim fill_first fork_with copy_process
fork_with-IsForked_example =
    fork_with-IsForked toy (some 5) 0 0 booted boot-IsValid_example (omega (arith, booted_runs))
      booted_runs.0 2 refl

-- The same services without memory for another address space.
abbrev poor : Services
poor = record toy { copyuvm = λ d s w. (0, w) }

fork_with-fails_example : IsUntouched (booted.procs 1) ((fork_with poor none 0 booted).1.procs 1)
unfolding run step schedule choose scan_one for_range dispatch userinit init_slot allocproc
    free_slot first give_stack claim fill_first fork_with copy_process
fork_with-fails_example =
    fork_with-fails poor none 0 0 booted boot-IsValid_example (omega (arith, booted_runs))
      booted_runs.0 1 refl

wait-Waited_example : let (out, k') = wait toy 0 0 booted in Waited booted.procs k'.procs 0 out
wait-Waited_example = wait-Waited toy 0 0 booted

-- Slot 0 waits for its child in slot 1, which runs.
abbrev family : Kernel ℕ
family = record (blank 0) {
  procs =
      update
        (update (λ i. zero_proc) 0 (record zero_proc { state = sleeping; chan = slot 0; pid = 1 }))
        1 (record zero_proc { state = running; parent = some 0; pid = 2 });
}

die-family : (((die 1 family).procs 1).state ≡ zombie) × (((die 1 family).procs 5).parent ≢ some 1)
die-family = die_no_children 1 family (omega arith) 5 (omega arith) (omega arith)

die_wakes_parent_example : ((die 1 family).procs 0).state ≡ runnable
die_wakes_parent_example =
    die_wakes_parent 1 family (omega arith) 0 refl (omega arith) (omega arith) refl refl

wakeup-family : (wakeup (slot 0) family).procs 0 ≡ record (family.procs 0) { state = runnable }
wakeup-family = wakeup-at family (slot 0) 0 (omega arith)

kill-Killed_example : let (out, k') = kill 2 family in Killed family 2 k' out
kill-Killed_example = kill-Killed family 2

kill_zero-booted :
    let (out, k') = kill 0 booted in
    (out ≡ returns 0)
    × ((j : ℕ) × (j < nproc) × ((k'.procs j).state ≡ unused) × ((k'.procs j).killed ≡ true))
kill_zero-booted = kill_zero booted 5 boot-IsValid_example (omega arith) booted_runs.3

shrink_to_zero :
    let (out, k') = growproc toy (2 ^ 32 - 4096) 0 booted in
    (out ≡ fails)
    × ((k'.procs 0).sz ≡ (booted.procs 0).sz)
    × (k'.world ≡ (toy.deallocuvm (booted.procs 0).pgdir (booted.procs 0).sz 0 booted.world).1)
shrink_to_zero =
    growproc_to_zero toy (2 ^ 32 - 4096) 0 booted (omega (arith, booted_runs))
      (omega (arith, booted_runs)) (omega (arith, booted_runs)) (λ dir old new w lt. refl)
