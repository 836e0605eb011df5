-- ===== src/Proc/Stale.antt =====
-- Corners of proc.c where the code does not do what its callers expect.
use os_fcfs_prirority.Base.{ℕ, ◌+◌, ◌^◌, ◌≤◌, ◌<◌, ◌≡◌, true, arith, refl, ap, u32, sub32}
use os_fcfs_prirority.Proc.Types.{unused, Proc, Kernel, Services, nproc, Outcome, returns, fails}
use os_fcfs_prirority.Proc.Signal.{kill}
use os_fcfs_prirority.Proc.Memory.{growproc, resize}
use os_fcfs_prirority.Proc.Valid.{IsValid}
use os_fcfs_prirority.Proc.Waking.{Killed, marked, unknown, kill-Killed}

-- `kill(0)` in a valid table with a slot of pid 0 succeeds, and sets `killed` in a free slot, where
-- the next process that is allocated there finds it.
pub kill_zero :
    {W : Type 0} (k : Kernel W) (i : ℕ)
    → IsValid k
    → i < nproc
    → (k.procs i).pid ≡ 0
    → let (out, k') = kill 0 k in
      (out ≡ returns 0)
      × ((j : ℕ) × (j < nproc) × ((k'.procs j).state ≡ unused) × ((k'.procs j).killed ≡ true))
kill_zero {W} k i ok lt z = by_cases (kill 0 k).0 (kill 0 k).1 (kill-Killed k 0)
  where
    by_cases :
        (out : Outcome) (k' : Kernel W)
        → Killed k 0 k' out
        → (out ≡ returns 0)
          × ((j : ℕ) × (j < nproc) × ((k'.procs j).state ≡ unused) × ((k'.procs j).killed ≡ true))
    by_cases out k' (marked j lj pj first at others frame) =
        (refl, (j, lj, ground (arith, ok.pid_range j lj, at), ap (λ (p : Proc). p.killed) at))
    by_cases out k' (unknown none_has same) = absurd (none_has i lt z)

shrink_sizes :
    (sz n : ℕ) → sz < 2 ^ 31 → 0 < sz → n ≡ sub32 0 sz → (u32 (sz + n) ≡ 0) × (2 ^ 31 ≤ n)
shrink_sizes sz n small pos e = omega arith

module _ (v : Services) where
  open v use {World, deallocuvm}

  -- Shrinking a process to nothing: where `deallocuvm` gives back the size asked for, `growproc(-sz)`
  -- reports failure and leaves `sz` as it was, although the memory system has done its part.
  pub growproc_to_zero :
      (n cur : ℕ) (k : Kernel World)
      → (k.procs cur).sz < 2 ^ 31
      → 0 < (k.procs cur).sz
      → n ≡ sub32 0 (k.procs cur).sz
      → ((dir old new : ℕ) (w : World) → new < old → (deallocuvm dir old new w).0 ≡ new)
      → let (out, k') = growproc v n cur k in
        (out ≡ fails)
        × ((k'.procs cur).sz ≡ (k.procs cur).sz)
        × (k'.world ≡ (deallocuvm (k.procs cur).pgdir (k.procs cur).sz 0 k.world).1)
  unfolding growproc resize
  growproc_to_zero n cur k small pos e gives = ground (
    arith,
    shrink_sizes (k.procs cur).sz n small pos e,
    gives (k.procs cur).pgdir (k.procs cur).sz 0 k.world,
  )
