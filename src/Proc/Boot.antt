-- ===== src/Proc/Boot.antt =====
-- From the start of the machine on: `userinit` makes the table valid, and it stays so.
use os_fcfs_prirority.Base.{
  ℕ, ◌+◌, ◌^◌, ◌<◌, ◌≡◌, none, some, List, arith, first, update, ◌==◌, Bool-cases, refl, inl, inr,
  ◌⊎◌,
}
use os_fcfs_prirority.Proc.Types.{Kernel, Services, returns, put}
use os_fcfs_prirority.Proc.Alloc.{claim, free_slot, give_stack, allocproc}
use os_fcfs_prirority.Proc.Memory.{blank, fill_first, init_slot, userinit}
use os_fcfs_prirority.Proc.Valid.{IsValid}
use os_fcfs_prirority.Proc.System.{Call, run}
use os_fcfs_prirority.Proc.Safety.{forks, run-IsValid}

module _ (v : Services) (w : v.World) where
  open v use {World, kalloc, setupkvm}

  filled :
      (w' : World) (a dir : ℕ)
      → IsValid (
          fill_first v 0 dir (record (claim 0 (blank w)) {
            procs =
                update
                  (claim 0 (blank w)).procs
                  0
                  (record ((claim 0 (blank w)).procs 0) { kstack = a });
            initproc = 0;
            world = w';
          }))
  unfolding fill_first claim
  filled w' a dir = record {
    next_pos = omega arith;
    pid_range = λ i lt u. ground arith;
    pid_unique = λ i j lt lt' u u' e. ground arith;
    on_cpu = λ c i e. cc;
    one_cpu = λ c d i e e'. cc;
    parents = λ i j lt e. ground arith;
    init_live = (omega arith, refl);
  }

  abbrev stacked : Kernel World
  stacked =
      put 0 (λ p. record p { kstack = (kalloc (claim 0 (blank w)).world).0 })
        (record (claim 0 (blank w)) { world = (kalloc (claim 0 (blank w)).world).1 })

  -- `allocproc` takes slot 0, or fails.
  allocproc-blank : (allocproc v (blank w) ≡ (some 0, stacked)) ⊎ ((allocproc v (blank w)).0 ≡ none)
  unfolding allocproc free_slot first give_stack
  allocproc-blank = elim (Bool-cases ((kalloc (claim 0 (blank w)).world).0 == 0)) [
    | inl e ↦ inr (rw (allocproc, give_stack, e))
    | inr e ↦ inl (rw (allocproc, give_stack, e))
  ]

  -- A successful `userinit` makes the table valid.
  userinit-IsValid :
      (userinit v (blank w)).0 ≡ returns 0
      → IsValid (userinit v (blank w)).1 × ((userinit v (blank w)).1.nextpid ≡ 2)
  unfolding userinit init_slot
  userinit-IsValid h = elim allocproc-blank [
    | inr e ↦ cc (rw (userinit, e) at h)
    | inl e ↦ rw (userinit, e) (started (rw (userinit, e) at h))
  ]
    where
      started :
          (init_slot v (some 0) stacked).0 ≡ returns 0
          → IsValid (init_slot v (some 0) stacked).1
            × ((init_slot v (some 0) stacked).1.nextpid ≡ 2)
      started h' = elim (Bool-cases ((setupkvm stacked.world).0 == 0)) [
        | inl z ↦ cc (rw (init_slot, z) at h')
        | inr z ↦
            rw (init_slot, z)
              (filled (setupkvm stacked.world).1 _ _, unfold fill_first claim in refl)
      ]

  -- The table is valid after every sequence of calls that follows a successful `userinit`, with fewer
  -- than 2 ^ 32 - 2 calls of `fork` and `custmpro` among them.
  pub boot-IsValid :
      (calls : List Call)
      → (userinit v (blank w)).0 ≡ returns 0
      → forks calls + 2 < 2 ^ 32
      → IsValid (run v calls (userinit v (blank w)).1)
  boot-IsValid calls h room =
      run-IsValid v calls (userinit v (blank w)).1 (userinit-IsValid h).0
        (omega (arith, userinit-IsValid h))
