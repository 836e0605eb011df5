-- ===== src/Proc/Memory.antt =====
-- proc.c, `userinit` and `growproc`; sysproc.c, `sys_sbrk` and `sys_custmpro`.
use os_fcfs_prirority.Base.{
  ℕ, ◌+◌, ◌^◌, u32, Option, none, some, ltb, leb, ◌&&◌, [], ◌∷◌, ◌==◌, if◌then◌else◌, get_or, false,
}
use os_fcfs_prirority.Cstring.{safestrcpy}
use os_fcfs_prirority.Proc.Types.{
  unused, runnable, null, Proc, Trapframe, Kernel, Services, Outcome, returns, fails, panics, put,
}
use os_fcfs_prirority.Proc.Alloc.{allocproc, custmpro}

abbrev pub pgsize : ℕ
pgsize = 4096

-- The registers that the first process starts with.
abbrev pub first_frame : Trapframe
first_frame = record {
  eax = 0;
  eip = 0;
  esp = pgsize;
  eflags = 0x200;
  cs = 27;
  ds = 35;
  es = 35;
  ss = 35;
  rest = 0;
}

-- The bytes of "initcode", with the NUL.
abbrev pub initcode : ℕ → ℕ
initcode i = get_or (105 ∷ 110 ∷ 105 ∷ 116 ∷ 99 ∷ 111 ∷ 100 ∷ 101 ∷ []) i 0

-- A slot of the table before anything has run: `ptable` is zero.
abbrev pub zero_proc : Proc
zero_proc = record {
  sz = 0;
  pgdir = 0;
  kstack = 0;
  state = unused;
  pid = 0;
  parent = none;
  tf = record first_frame { esp = 0; eflags = 0; cs = 0; ds = 0; es = 0; ss = 0 };
  chan = null;
  killed = false;
  ofile = λ fd. none;
  cwd = none;
  name = λ i. 0;
  ctime = 0;
  etime = 0;
  priority = 0;
}

-- The globals of proc.c at the start.
abbrev pub blank : {W : Type 0} → W → Kernel W
blank w = record {
  procs = λ i. zero_proc;
  nextpid = 1;
  initproc = 0;
  ticks = 0;
  cpus = λ c. none;
  world = w;
}

module _ (v : Services) where
  open v use {World, setupkvm, inituvm, namei_root, allocuvm, deallocuvm}

  -- `userinit` once slot `p` is taken and its page directory made.
  unfoldable pub fill_first : ℕ → ℕ → Kernel World → Kernel World
  fill_first p dir k =
      let (root, w) = namei_root (inituvm dir k.world) in
      put p
        (λ q. record q {
          pgdir = dir;
          sz = pgsize;
          tf = first_frame;
          name = safestrcpy q.name initcode 16;
          cwd = root;
          state = runnable;
        })
        (record k { world = w })

  -- `userinit` after `allocproc`. A null slot, which the code goes on with, counts as a panic.
  unfoldable pub init_slot : Option ℕ → Kernel World → Outcome × Kernel World
  init_slot none k = (panics, k)
  init_slot (some p) k =
      let (dir, w) = setupkvm k.world in
      let k1 : Kernel World = record k { initproc = p; world = w } in
      if dir == 0 then (panics, k1) else (returns 0, fill_first p dir k1)

  unfoldable pub userinit : Kernel World → Outcome × Kernel World
  userinit k = let (slot, k1) = allocproc v k in init_slot slot k1

  -- `curproc->sz = sz` and the return of `growproc`, `new` being what the memory system gave.
  unfoldable pub resize : ℕ → ℕ × World → Kernel World → Outcome × Kernel World
  resize cur new k =
      let k1 : Kernel World = record k { world = new.1 } in
      if new.0 == 0 then (fails, k1) else (returns 0, put cur (λ p. record p { sz = new.0 }) k1)

  -- `growproc(n)`, `n` being the pattern of an `int`.
  unfoldable pub growproc : ℕ → ℕ → Kernel World → Outcome × Kernel World
  growproc n cur k =
      let me = k.procs cur in
      if ltb 0 n && ltb n (2 ^ 31)
      then resize cur (allocuvm me.pgdir me.sz (u32 (me.sz + n)) k.world) k
      else (if leb (2 ^ 31) n
          then resize cur (deallocuvm me.pgdir me.sz (u32 (me.sz + n)) k.world) k
          else (returns 0, k))

  -- `sys_sbrk`, with its argument read.
  unfoldable pub sys_sbrk : ℕ → ℕ → Kernel World → Outcome × Kernel World
  sys_sbrk n cur k =
      let (out, k1) = growproc n cur k in
      elim out [ fails ↦ (fails, k1) | _ ↦ (returns (k.procs cur).sz, k1) ]

  -- `sys_custmpro`, with its argument read.
  unfoldable pub sys_custmpro : ℕ → ℕ → Kernel World → Outcome × Kernel World
  sys_custmpro pri cur k = if leb (2 ^ 31) pri then (fails, k) else custmpro v pri cur k
