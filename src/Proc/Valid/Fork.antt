-- ===== src/Proc/Valid/Fork.antt =====
-- `allocproc`, `fork` and `custmpro` keep the table valid.
use os_fcfs_prirority.Base.{
  ℕ, ◌+◌, ◌^◌, ◌<◌, ◌≡◌, ◌≢◌, refl, true, inl, inr, Option, none, some, arith, Option-cases,
  first-some, IsFirst, Bool-cases, ◌==◌,
}
use os_fcfs_prirority.Proc.Types.{unused, embryo, running, Proc, Kernel, Services, nproc, is_unused}
use os_fcfs_prirority.Proc.Alloc.{
  claim, free_slot, give_stack, allocproc, fill_child, undo_alloc, set_priority, copy_process,
  fork_with, fork, custmpro,
}
use os_fcfs_prirority.Proc.Valid.{IsValid, is_live}
use os_fcfs_prirority.Proc.Valid.Signal.{IsWoken-IsValid}

priority_pid :
    (given : Option ℕ) (p : Proc)
    → ((set_priority given p).pid ≡ p.pid) × ((set_priority given p).parent ≡ p.parent)
priority_pid none p = (refl, refl)
priority_pid (some n) p = (refl, refl)

pub free_slot-IsFirst :
    (t : ℕ → Proc) (i : ℕ) → free_slot t ≡ some i → IsFirst (λ j. is_unused (t j).state) 0 nproc i
unfolding free_slot
free_slot-IsFirst t i h = first-some _ nproc 0 i h

-- No pid is handed out twice before `nextpid` wraps.
module _ {W : Type 0} (i : ℕ) (k : Kernel W) (ok : IsValid k) (hi : i < nproc)
    (free : (k.procs i).state ≡ unused) (room : k.nextpid + 1 < 2 ^ 32) where
  pub claim-IsValid : IsValid (claim i k)
  unfolding claim
  claim-IsValid = record {
    next_pos = omega (arith, ok.next_pos);
    pid_range = λ j hj hs. grind (arith, ok.pid_range j hj);
    pid_unique = λ j m hj hm hs hs' e.
        grind (arith, ok.pid_unique j m hj hm, ok.pid_range j hj, ok.pid_range m hm);
    on_cpu = λ d j h. grind (arith, ok.on_cpu d j);
    one_cpu = ok.one_cpu;
    parents = λ j m hj h. grind (arith, ok.parents j m hj);
    init_live = grind (arith, ok.init_live);
  }

module _ (v : Services) where
  open v use {World, kalloc, copyuvm}

  module _ (i : ℕ) (k : Kernel World) (ok : IsValid k) (hi : i < nproc)
      (fresh : (k.procs i).state ≡ embryo) where
    -- A slot that was taken and is given back.
    pub undo_alloc-IsValid : IsValid (undo_alloc v i k)
    unfolding undo_alloc
    undo_alloc-IsValid = record {
      next_pos = ok.next_pos;
      pid_range = λ j hj hs. grind (arith, ok.pid_range j hj);
      pid_unique = λ j m hj hm hs hs' e. grind (arith, ok.pid_unique j m hj hm);
      on_cpu = λ d j h. grind (arith, ok.on_cpu d j);
      one_cpu = ok.one_cpu;
      parents = λ j m hj h. grind (arith, ok.parents j m hj);
      init_live = grind (arith, ok.init_live);
    }

    pub give_stack-IsValid : IsValid (give_stack v i k).1
    unfolding give_stack
    give_stack-IsValid = record {
      next_pos = ground (arith, ok.next_pos);
      pid_range = λ j hj hs. grind (arith, ok.pid_range j hj);
      pid_unique = λ j m hj hm hs hs' e. grind (arith, ok.pid_unique j m hj hm);
      on_cpu = λ d j h. grind (arith, ok.on_cpu d j);
      one_cpu = λ d d' j h h'. grind (arith, ok.one_cpu d d' j);
      parents = λ j m hj h. grind (arith, ok.parents j m hj);
      init_live = grind (arith, ok.init_live);
    }

    -- What `give_stack` returns is the slot that was taken, still an embryo with its pid.
    pub give_stack_lem :
        (np : ℕ)
        → (give_stack v i k).0 ≡ some np
        → (np ≡ i) × (((give_stack v i k).1.procs np).state ≡ embryo)
    unfolding give_stack
    give_stack_lem np h = ground arith

    pub fill_child-IsValid :
        (given : Option ℕ) (cur dir : ℕ)
        → cur < nproc
        → is_live (k.procs cur).state ≡ true
        → IsValid (fill_child v given cur i dir k)
    unfolding fill_child
    fill_child-IsValid given cur dir hc live = record {
      next_pos = ok.next_pos;
      pid_range = λ j hj hs. grind (arith, ok.pid_range j hj, priority_pid given);
      pid_unique = λ j m hj hm hs hs' e. grind (arith, ok.pid_unique j m hj hm, priority_pid given);
      on_cpu = λ d j h. grind (arith, ok.on_cpu d j);
      one_cpu = ok.one_cpu;
      parents = λ j m hj h. grind (arith, ok.parents j m hj, priority_pid given);
      init_live = grind (arith, ok.init_live);
    }

  -- The kernel `k1` after an `allocproc` that found slot `np`, and started from `k`.
  pub record IsAlloc (k : Kernel World) (np : ℕ) (k1 : Kernel World) : Type 0 where
    pub in_table : np < nproc
    pub was_free : (k.procs np).state ≡ unused
    pub is_embryo : (k1.procs np).state ≡ embryo
    pub new_pid : (k1.procs np).pid ≡ k.nextpid
    pub others : (j : ℕ) → np ≢ j → k1.procs j ≡ k.procs j
    pub same_cpus : k1.cpus ≡ k.cpus
    pub same_killed : (k1.procs np).killed ≡ (k.procs np).killed
    pub same_priority : (k1.procs np).priority ≡ (k.procs np).priority
    pub created_now : (k1.procs np).ctime ≡ k.ticks
    pub has_stack : (k1.procs np).kstack ≢ 0
    pub valid : IsValid k1

  module _ (k : Kernel World) (ok : IsValid k) (room : k.nextpid + 1 < 2 ^ 32) where
    allocated : (i : ℕ) → free_slot k.procs ≡ some i → (i < nproc) × ((k.procs i).state ≡ unused)
    allocated i e = ground (arith, free_slot-IsFirst k.procs i e)

    -- `allocproc` keeps the table valid, also where the stack cannot be allocated.
    pub allocproc-IsValid : IsValid (allocproc v k).1
    unfolding allocproc
    allocproc-IsValid = elim (Option-cases (free_slot k.procs)) [
      | inl e ↦ rw (allocproc, e) ok
      | inr (i, e) ↦
          let (hi, free) = allocated i e in
          rw (allocproc, e)
            (give_stack-IsValid i (claim i k) (claim-IsValid i k ok hi free room) hi
              (unfold claim in ground arith))
    ]

    given-IsAlloc :
        (i np : ℕ)
        → free_slot k.procs ≡ some i
        → (give_stack v i (claim i k)).0 ≡ some np
        → IsValid (give_stack v i (claim i k)).1
        → IsAlloc k np (give_stack v i (claim i k)).1
    unfolding give_stack claim
    given-IsAlloc i np e h ok1 = record {
      in_table = ground (arith, allocated i e);
      was_free = ground (arith, allocated i e);
      is_embryo = ground arith;
      new_pid = ground arith;
      others = λ j ne. ground arith;
      same_cpus = ground arith;
      same_killed = ground arith;
      same_priority = ground arith;
      created_now = ground arith;
      has_stack = ground arith;
      valid = ok1;
    }

    pub allocproc-IsAlloc : (np : ℕ) → (allocproc v k).0 ≡ some np → IsAlloc k np (allocproc v k).1
    allocproc-IsAlloc np h = elim (Option-cases (free_slot k.procs)) [
      | inl e ↦ unfold allocproc in cc (rw (allocproc, e) at h)
      | inr (i, e) ↦
          let q : allocproc v k ≡ give_stack v i (claim i k) =
            unfold allocproc in rw (allocproc, e) in
          rw q (given-IsAlloc i np e (rw q at h) (rw q at allocproc-IsValid))
    ]

  module _ (given : Option ℕ) (c cur : ℕ) (k : Kernel World) (ok : IsValid k)
      (room : k.nextpid + 1 < 2 ^ 32) (hc : k.cpus c ≡ some cur) where
    copied-IsValid :
        (np : ℕ) (k1 : Kernel World) → IsAlloc k np k1 → IsValid (copy_process v given cur np k1).1
    copied-IsValid np k1 a =
        elim (Bool-cases ((copyuvm (k1.procs cur).pgdir (k1.procs cur).sz k1.world).0 == 0)) [
          | inl e ↦
              unfold copy_process in
              rw (copy_process, e) (undo_alloc-IsValid np k2 k2-IsValid a.in_table a.is_embryo)
          | inr e ↦
              unfold copy_process in
              rw (copy_process, e)
                (fill_child-IsValid np k2 k2-IsValid a.in_table a.is_embryo given cur _ v_cpu.0
                  (ground (arith, v_cpu)))
        ]
      where
        k2 : Kernel World
        k2 = record k1 { world = (copyuvm (k1.procs cur).pgdir (k1.procs cur).sz k1.world).1 }

        k2-IsValid : IsValid k2
        k2-IsValid = IsWoken-IsValid k1 a.valid k1.procs k2.world (λ i. ground arith)

        v_cpu : (cur < nproc) × ((k1.procs cur).state ≡ running)
        v_cpu = a.valid.on_cpu c cur (rw a.same_cpus hc)

    pub fork_with-IsValid : IsValid (fork_with v given cur k).1
    unfolding fork_with
    fork_with-IsValid = elim (Option-cases (allocproc v k).0) [
      | inl e ↦ rw (fork_with, e) (allocproc-IsValid k ok room)
      | inr (np, e) ↦
          rw (fork_with, e) (copied-IsValid np (allocproc v k).1 (allocproc-IsAlloc k ok room np e))
    ]

  -- `fork` keeps the table valid, whether it succeeds or fails.
  pub fork-IsValid :
      (c cur : ℕ) (k : Kernel World)
      → IsValid k
      → k.nextpid + 1 < 2 ^ 32
      → k.cpus c ≡ some cur
      → IsValid (fork v cur k).1
  unfolding fork
  fork-IsValid = fork_with-IsValid none

  -- So does `custmpro`.
  pub custmpro-IsValid :
      (priority c cur : ℕ) (k : Kernel World)
      → IsValid k
      → k.nextpid + 1 < 2 ^ 32
      → k.cpus c ≡ some cur
      → IsValid (custmpro v priority cur k).1
  unfolding custmpro
  custmpro-IsValid priority = fork_with-IsValid (some priority)
