-- ===== src/Proc/Alloc.antt =====
-- proc.c, `allocproc`, `fork` and `custmpro`: a new process in a free slot.
use os_fcfs_prirority.Base.{
  ℕ, ◌+◌, u32, Option, none, some, update, first, for_range, ◌==◌, if◌then◌else◌,
}
use os_fcfs_prirority.Cstring.{safestrcpy}
use os_fcfs_prirority.Proc.Types.{
  unused, embryo, runnable, Proc, Kernel, Services, Outcome, returns, fails, nproc, nofile,
  is_unused, put,
}

-- The first part of `allocproc`, under the table's lock: slot `i` is taken.
unfoldable pub claim : {W : Type 0} → ℕ → Kernel W → Kernel W
claim i k = record k {
  procs =
      update k.procs i
        (record (k.procs i) { state = embryo; pid = k.nextpid; ctime = k.ticks; etime = 0 });
  nextpid = u32 (k.nextpid + 1);
}

-- The search of `allocproc`.
unfoldable pub free_slot : (ℕ → Proc) → Option ℕ
free_slot t = first (λ i. is_unused (t i).state) nproc 0

-- `np->priority = priority`, which `custmpro` does and `fork` does not.
abbrev pub set_priority : Option ℕ → Proc → Proc
set_priority none p = p
set_priority (some n) p = record p { priority = n }

module _ (v : Services) where
  open v use {World, kalloc, kfree, copyuvm, filedup, idup}

  -- The second part of `allocproc`: the kernel stack, or the slot is given back.
  unfoldable pub give_stack : ℕ → Kernel World → Option ℕ × Kernel World
  give_stack i k =
      let (a, w) = kalloc k.world in
      let k1 : Kernel World = put i (λ p. record p { kstack = a }) (record k { world = w }) in
      if a == 0 then (none, put i (λ p. record p { state = unused }) k1) else (some i, k1)

  unfoldable pub allocproc : Kernel World → Option ℕ × Kernel World
  allocproc k = elim (free_slot k.procs) [ none ↦ (none, k) | some i ↦ give_stack i (claim i k) ]

  -- The loop over the open files.
  unfoldable pub dup_files : (ℕ → Option ℕ) → (ℕ → Option ℕ) × World → (ℕ → Option ℕ) × World
  dup_files files s =
      for_range nofile 0
        (λ fd s'. elim (files fd) [
          | none ↦ s'
          | some f ↦ (update s'.0 fd (some f), filedup f s'.1)
        ])
        s

  -- `fork` and `custmpro` from the copy of the address space on; they differ in `set_priority` alone.
  -- `np` is the new slot, `cur` the caller's.
  unfoldable pub fill_child : Option ℕ → ℕ → ℕ → ℕ → Kernel World → Kernel World
  fill_child given cur np dir k =
      let me = k.procs cur in
      let k1 : Kernel World =
        put np
          (λ p. set_priority given (record p {
            pgdir = dir;
            sz = me.sz;
            parent = some cur;
            tf = record (me.tf) { eax = 0 };
          }))
          k in
      let (files, w) = dup_files me.ofile ((k1.procs np).ofile, k1.world) in
      put np
        (λ p. record p {
          ofile = files;
          cwd = me.cwd;
          name = safestrcpy p.name me.name 16;
          state = runnable;
        })
        (record k1 { world = idup me.cwd w })

  -- The failure of `copyuvm`: the stack is freed and the slot given back.
  unfoldable pub undo_alloc : ℕ → Kernel World → Kernel World
  undo_alloc np k =
      put np (λ p. record p { pgdir = 0; kstack = 0; state = unused })
        (record k { world = kfree (k.procs np).kstack k.world })

  -- `fork` and `custmpro` once slot `np` is theirs.
  unfoldable pub copy_process : Option ℕ → ℕ → ℕ → Kernel World → Outcome × Kernel World
  copy_process given cur np k =
      let (dir, w) = copyuvm (k.procs cur).pgdir (k.procs cur).sz k.world in
      let k1 : Kernel World = record k { world = w } in
      if dir == 0
      then (fails, undo_alloc np k1)
      else (returns (k.procs np).pid, fill_child given cur np dir k1)

  unfoldable pub fork_with : Option ℕ → ℕ → Kernel World → Outcome × Kernel World
  fork_with given cur k =
      let (slot, k1) = allocproc k in
      elim slot [ none ↦ (fails, k1) | some np ↦ copy_process given cur np k1 ]

  unfoldable pub fork : ℕ → Kernel World → Outcome × Kernel World
  fork cur k = fork_with none cur k

  unfoldable pub custmpro : ℕ → ℕ → Kernel World → Outcome × Kernel World
  custmpro priority cur k = fork_with (some priority) cur k
