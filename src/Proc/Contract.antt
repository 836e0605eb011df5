-- ===== src/Proc/Contract.antt =====
-- What `fork` and `custmpro` promise, when they succeed and when they fail.
use os_fcfs_prirority.Base.{
  ℕ, ◌+◌, ◌^◌, ◌<◌, ◌≡◌, ◌≢◌, ◌⊎◌, Option, none, some, arith, refl, inl, inr, Option-cases,
  Bool-cases, ◌==◌, sym, ap, ◌∙◌,
}
use native.Mathlib.Decide.{ℕ_discrete}
use os_fcfs_prirority.Proc.Types.{unused, Proc, Kernel, Services, nproc, Outcome, returns, fails}
use os_fcfs_prirority.Proc.Alloc.{
  claim, free_slot, give_stack, allocproc, fill_child, undo_alloc, copy_process, fork_with,
}
use os_fcfs_prirority.Proc.Valid.{IsValid}
use os_fcfs_prirority.Proc.Valid.Fork.{IsAlloc, allocproc-IsAlloc, free_slot-IsFirst}
use os_fcfs_prirority.Proc.Child.{IsChild, IsChild-of, filled-IsChild}

-- A successful call of `fork` or `custmpro` by slot `cur`: the child is in slot `np`.
pub record IsForked {W : Type 0} (given : Option ℕ) (cur pid np : ℕ) (k k' : Kernel W)
    : Type 0 where
  pub in_table : np < nproc
  pub was_free : (k.procs np).state ≡ unused
  pub child : IsChild given cur (k.procs cur) (k.procs np) (k'.procs np)
  pub new_pid : (pid ≡ k.nextpid) × ((k'.procs np).pid ≡ pid)
  pub created_now : (k'.procs np).ctime ≡ k.ticks
  pub has_stack : (k'.procs np).kstack ≢ 0
  pub others : (j : ℕ) → j ≢ np → k'.procs j ≡ k.procs j

-- A slot is as it was, or was free and still is.
abbrev pub IsUntouched : Proc → Proc → Type 0
IsUntouched p q = (q ≡ p) ⊎ ((p.state ≡ unused) × (q.state ≡ unused))

module _ (v : Services) (given : Option ℕ) (c cur : ℕ) (k : Kernel v.World) (ok : IsValid k)
    (room : k.nextpid + 1 < 2 ^ 32) (hc : k.cpus c ≡ some cur) where
  fill_child_others :
      (np dir j : ℕ) (k1 : Kernel v.World)
      → j ≢ np
      → (fill_child v given cur np dir k1).procs j ≡ k1.procs j
  unfolding fill_child
  fill_child_others np dir j k1 ne = ground arith

  copied-IsForked :
      (np pid : ℕ) (k1 : Kernel v.World)
      → IsAlloc v k np k1
      → (copy_process v given cur np k1).0 ≡ returns pid
      → IsForked given cur pid np k (copy_process v given cur np k1).1
  unfolding copy_process
  copied-IsForked np pid k1 a h =
      elim (Bool-cases ((v.copyuvm (k1.procs cur).pgdir (k1.procs cur).sz k1.world).0 == 0)) [
        | inl e ↦ cc (rw (copy_process, e) at h)
        | inr e ↦
            rw (copy_process, e)
              (success (filled-IsChild v given cur np k2 dir (λ q. ground arith))
                (rw (copy_process, e) at h))
      ]
    where
      dir : ℕ
      dir = (v.copyuvm (k1.procs cur).pgdir (k1.procs cur).sz k1.world).0

      k2 : Kernel v.World
      k2 = record k1 { world = (v.copyuvm (k1.procs cur).pgdir (k1.procs cur).sz k1.world).1 }

      k' : Kernel v.World
      k' = fill_child v given cur np dir k2

      same_caller : k1.procs cur ≡ k.procs cur
      same_caller =
          a.others cur (λ q. ground (arith, ok.on_cpu c cur, ap (λ i. (k.procs i).state) q))

      success :
          IsChild given cur (k1.procs cur) (k1.procs np) (k'.procs np)
            × ((k'.procs np).pid ≡ (k1.procs np).pid)
            × ((k'.procs np).kstack ≡ (k1.procs np).kstack)
            × ((k'.procs np).ctime ≡ (k1.procs np).ctime)
          → ◌≡◌ {A = Outcome} (returns (k1.procs np).pid) (returns pid)
          → IsForked given cur pid np k k'
      success f r = record {
        in_table = a.in_table;
        was_free = a.was_free;
        child =
            IsChild-of given cur (k.procs cur) (k1.procs cur) (k.procs np) (k1.procs np)
              (k'.procs np) f.0 same_caller a.same_priority a.same_killed;
        new_pid = (ground (arith, a.new_pid), ground (arith, f.1));
        created_now = f.3 ∙ a.created_now;
        has_stack = λ q. a.has_stack (sym f.2 ∙ q);
        others = λ j ne. fill_child_others np dir j k2 ne ∙ a.others j (λ q. ne (sym q));
      }

  -- A call that returns a pid has made one new process, in a slot that was free: a runnable child of
  -- the caller with that pid, which is `nextpid`, of the caller's size, directory and registers, but
  -- for a zero in `eax`; its priority is the one given (`custmpro`), or else the one that the slot's
  -- last process had (`fork`), and so is its `killed` flag. No other slot changes.
  pub fork_with-IsForked :
      (pid : ℕ)
      → (fork_with v given cur k).0 ≡ returns pid
      → (np : ℕ) × IsForked given cur pid np k (fork_with v given cur k).1
  unfolding fork_with
  fork_with-IsForked pid h = elim (Option-cases (allocproc v k).0) [
    | inl e ↦ cc (rw (fork_with, e) at h)
    | inr (np, e) ↦ (
      np,
      rw (fork_with, e)
          (copied-IsForked np pid (allocproc v k).1 (allocproc-IsAlloc v k ok room np e)
            (rw (fork_with, e) at h)),
    )
  ]

  undone :
      (np j : ℕ) (k1 : Kernel v.World)
      → IsAlloc v k np k1
      → (copy_process v given cur np k1).0 ≡ fails
      → IsUntouched (k.procs j) ((copy_process v given cur np k1).1.procs j)
  unfolding copy_process undo_alloc
  undone np j k1 a h = elim (ℕ_discrete np j) [
    | yes q ↦ ground (arith, a.was_free, ap (λ i. (k.procs i).state) q)
    | no ne ↦ ground (arith, a.others j ne)
  ]

  given_back :
      (i j : ℕ)
      → (k.procs i).state ≡ unused
      → (give_stack v i (claim i k)).0 ≡ none
      → IsUntouched (k.procs j) ((give_stack v i (claim i k)).1.procs j)
  unfolding give_stack claim
  given_back i j free h = elim (ℕ_discrete i j) [
    | yes q ↦ ground (arith, ap (λ m. (k.procs m).state) q)
    | no ne ↦ ground arith
  ]

  allocproc-none :
      (j : ℕ) → (allocproc v k).0 ≡ none → IsUntouched (k.procs j) ((allocproc v k).1.procs j)
  unfolding allocproc
  allocproc-none j h = elim (Option-cases (free_slot k.procs)) [
    | inl e ↦ rw (allocproc, e) (inl refl)
    | inr (i, e) ↦
        rw (allocproc, e)
          (given_back i j (ground (arith, free_slot-IsFirst k.procs i e)) (rw (allocproc, e) at h))
  ]

  -- A call that fails leaves every slot in use as it was, and every free slot free.
  pub fork_with-fails :
      (j : ℕ)
      → (fork_with v given cur k).0 ≡ fails
      → IsUntouched (k.procs j) ((fork_with v given cur k).1.procs j)
  unfolding fork_with
  fork_with-fails j h = elim (Option-cases (allocproc v k).0) [
    | inl e ↦ rw (fork_with, e) (allocproc-none j e)
    | inr (np, e) ↦
        rw (fork_with, e)
          (undone np j (allocproc v k).1 (allocproc-IsAlloc v k ok room np e)
            (rw (fork_with, e) at h))
  ]
