-- ===== src/Proc/Valid.antt =====
-- What holds of the process table between two calls.
pub mod Dispatch
pub mod Signal
pub mod Exit
pub mod Scan
pub mod Wait
pub mod Fork
use os_fcfs_prirority.Base.{ℕ, ◌<◌, ◌≡◌, ◌≢◌, Bool, true, false, some}
use os_fcfs_prirority.Proc.Types.{ProcState, unused, sleeping, runnable, running, Kernel, nproc}

-- A process that has been published and has not exited.
abbrev pub is_live : ProcState → Bool
is_live sleeping = true
is_live runnable = true
is_live running = true
is_live _ = false

pub record IsValid {W : Type 0} (k : Kernel W) : Type 0 where
  pub next_pos : 0 < k.nextpid
  pub pid_range :
      (i : ℕ)
      → i < nproc
      → (k.procs i).state ≢ unused
      → (0 < (k.procs i).pid) × ((k.procs i).pid < k.nextpid)
  pub pid_unique :
      (i j : ℕ)
      → i < nproc
      → j < nproc
      → (k.procs i).state ≢ unused
      → (k.procs j).state ≢ unused
      → (k.procs i).pid ≡ (k.procs j).pid
      → i ≡ j
  pub on_cpu : (c i : ℕ) → k.cpus c ≡ some i → (i < nproc) × ((k.procs i).state ≡ running)
  pub one_cpu : (c d i : ℕ) → k.cpus c ≡ some i → k.cpus d ≡ some i → c ≡ d
  pub parents :
      (i j : ℕ)
      → i < nproc
      → (k.procs i).parent ≡ some j
      → (j < nproc) × (is_live (k.procs j).state ≡ true)
  pub init_live : (k.initproc < nproc) × (is_live (k.procs k.initproc).state ≡ true)
