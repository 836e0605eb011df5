-- ===== src/Proc/Types.antt =====
-- proc.h, and the globals that proc.c works on.
use os_fcfs_prirority.Base.{ℕ, Bool, true, false, Option, none, some, update, ◌==◌}

pub data ProcState : Type 0 where
  unused embryo sleeping runnable running zombie : ProcState

-- An address that a process can sleep on: null, a slot of the process table, or anything else.
pub data Chan : Type 0 where
  null : Chan
  slot : ℕ → Chan
  object : ℕ → Chan

-- The registers that proc.c names, and the rest of the frame as one value.
pub record Trapframe : Type 0 where
  pub eax : ℕ
  pub eip : ℕ
  pub esp : ℕ
  pub eflags : ℕ
  pub cs : ℕ
  pub ds : ℕ
  pub es : ℕ
  pub ss : ℕ
  pub rest : ℕ

-- `struct proc`. A `struct proc *` is an index of the table. `context`, and the fields `ttime` and
-- `tatime`, which nothing reads or writes, are left out.
pub record Proc : Type 0 where
  pub sz : ℕ
  pub pgdir : ℕ
  pub kstack : ℕ
  pub state : ProcState
  pub pid : ℕ
  pub parent : Option ℕ
  pub tf : Trapframe
  pub chan : Chan
  pub killed : Bool
  pub ofile : ℕ → Option ℕ
  pub cwd : Option ℕ
  pub name : ℕ → ℕ
  pub ctime : ℕ
  pub etime : ℕ
  pub priority : ℕ

-- What proc.c calls in the memory and file systems, over their state `World`. Address 0 is null.
pub record Services : Type 1 where
  pub World : Type 0
  pub kalloc : World → ℕ × World
  pub kfree : ℕ → World → World
  pub setupkvm : World → ℕ × World
  pub inituvm : ℕ → World → World
  pub copyuvm : ℕ → ℕ → World → ℕ × World
  pub freevm : ℕ → World → World
  pub allocuvm : ℕ → ℕ → ℕ → World → ℕ × World
  pub deallocuvm : ℕ → ℕ → ℕ → World → ℕ × World
  pub filedup : ℕ → World → World
  pub fileclose : ℕ → World → World
  pub idup : Option ℕ → World → World
  pub namei_root : World → Option ℕ × World
  pub iput : Option ℕ → World → World

-- `ptable`, `nextpid`, `initproc`, `ticks`, each processor's `c->proc`, and the services' state.
pub record Kernel (W : Type 0) : Type 0 where
  pub procs : ℕ → Proc
  pub nextpid : ℕ
  pub initproc : ℕ
  pub ticks : ℕ
  pub cpus : ℕ → Option ℕ
  pub world : W

-- What a call does: it returns a number that is not negative, returns -1, goes to sleep inside, or
-- calls `panic`.
pub data Outcome : Type 0 where
  returns : ℕ → Outcome
  fails blocks panics : Outcome

abbrev pub nproc : ℕ
nproc = 64

abbrev pub nofile : ℕ
nofile = 16

abbrev pub is_unused : ProcState → Bool
is_unused unused = true
is_unused _ = false

abbrev pub is_sleeping : ProcState → Bool
is_sleeping sleeping = true
is_sleeping _ = false

abbrev pub is_runnable : ProcState → Bool
is_runnable runnable = true
is_runnable _ = false

abbrev pub is_zombie : ProcState → Bool
is_zombie zombie = true
is_zombie _ = false

abbrev pub chan_eq : Chan → Chan → Bool
chan_eq null null = true
chan_eq (slot i) (slot j) = i == j
chan_eq (object a) (object b) = a == b
chan_eq _ _ = false

-- A `struct proc *` as a channel.
abbrev pub proc_chan : Option ℕ → Chan
proc_chan none = null
proc_chan (some i) = slot i

-- `k.procs[i] = f(k.procs[i])`.
abbrev pub put : {W : Type 0} → ℕ → (Proc → Proc) → Kernel W → Kernel W
put i f k = record k { procs = update k.procs i (f (k.procs i)) }
