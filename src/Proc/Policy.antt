-- ===== src/Proc/Policy.antt =====
-- What the two schedulers promise, and what their choices do to the processes over time.
use os_fcfs_prirority.Base.{
  ℕ, zero, suc, ◌≤◌, ◌<◌, ◌≡◌, ◌≢◌, ◌↔◌, true, false, none, some, arith, List, [], ◌∷◌, update,
  Option-cases, Bool-cases, inl, inr, ap, refl, ltb→lt, ltb,
}
use native.Mathlib.Decide.{ℕ_discrete}
use os_fcfs_prirority.Proc.Types.{runnable, running, Proc, Kernel, nproc, is_runnable}
use os_fcfs_prirority.Proc.Fcfs.{choose, dispatch}
use os_fcfs_prirority.Proc.Priority.{visit, pass}
use os_fcfs_prirority.Proc.Signal.{yield_cpu}
use os_fcfs_prirority.Proc.Choice.{key, IsOldest, choose-IsScanned, visit-IsHighest}

IsOldest-unique : (t : ℕ → Proc) (m n : ℕ) → IsOldest t nproc m → IsOldest t nproc n → m ≡ n
IsOldest-unique t m n a b =
    grind (arith, a.earlier n, b.earlier m, a.later n, b.later m, a.ready, b.ready)

choose_of-IsOldest : (t : ℕ → Proc) (m : ℕ) → IsOldest t nproc m → choose t ≡ some m
choose_of-IsOldest t m o = elim (Option-cases (choose t)) [
  | inl e ↦ absurd (idle (rw e at (choose-IsScanned t)))
  | inr (n, e) ↦ rw e (ap some (IsOldest-unique t n m (rw e at (choose-IsScanned t)) o))
]
  where
    idle : ((i : ℕ) → i < nproc → is_runnable (t i).state ≡ false) → ⊥
    idle h = ground (arith, h m o.in_table, o.ready)

-- The FCFS scheduler switches to slot `m` exactly when `m` holds a runnable process such that no
-- runnable process has an earlier creation time, and none at a smaller index the same.
pub choose-some_iff : (t : ℕ → Proc) (m : ℕ) → (choose t ≡ some m) ↔ IsOldest t nproc m
choose-some_iff t m = (λ e. rw e at (choose-IsScanned t), choose_of-IsOldest t m)

-- The FCFS scheduler stays idle exactly when no process is runnable.
pub choose-none_iff :
    (t : ℕ → Proc) → (choose t ≡ none) ↔ ((i : ℕ) → i < nproc → is_runnable (t i).state ≡ false)
choose-none_iff t = (
  λ e. rw e at (choose-IsScanned t),
  λ h. elim (Option-cases (choose t)) [
    | inl e ↦ e
    | inr (m, e) ↦ absurd (busy h m (rw e at (choose-IsScanned t)))
  ],
)
  where
    busy :
        ((i : ℕ) → i < nproc → is_runnable (t i).state ≡ false) → (m : ℕ) → IsOldest t nproc m → ⊥
    busy h m o = ground (arith, h m o.in_table, o.ready)

-- The process in slot `m` is switched to, and yields at the next clock tick.
unfoldable pub turn : {W : Type 0} → ℕ → ℕ → Kernel W → Kernel W
turn c m k = (yield_cpu c m (dispatch c m k)).1

unfoldable pub turns : {W : Type 0} → ℕ → ℕ → ℕ → Kernel W → Kernel W
turns zero c m k = k
turns (suc n) c m k = turns n c m (turn c m k)

IsOldest-turn :
    {W : Type 0} (c m : ℕ) (k : Kernel W)
    → IsOldest k.procs nproc m
    → IsOldest (turn c m k).procs nproc m
unfolding turn yield_cpu dispatch
IsOldest-turn c m k o = record {
  in_table = o.in_table;
  ready = ground arith;
  earlier = λ i lt r. ground (arith, o.earlier i lt, o.ready);
  later = λ i lt r. ground (arith, o.later i lt, o.ready);
}

-- FCFS is not preemptive: a process that the scheduler has chosen is chosen again after each clock
-- tick, any number of times, as long as nothing else happens.
pub choose-turns :
    {W : Type 0} (n c m : ℕ) (k : Kernel W)
    → choose k.procs ≡ some m
    → choose (turns n c m k).procs ≡ some m
unfolding turns
choose-turns zero c m k e = e
choose-turns (suc n) c m k e =
    choose-turns n c m (turn c m k)
      ((choose-some_iff _ m).1 (IsOldest-turn c m k ((choose-some_iff k.procs m).0 e)))

-- Slot `h` holds a runnable process whose number no runnable process undercuts.
pub record IsBest (t : ℕ → Proc) (h : ℕ) : Type 0 where
  pub in_table : h < nproc
  pub ready : is_runnable (t h).state ≡ true
  pub least :
      (i : ℕ) → i < nproc → is_runnable (t i).state ≡ true → key (t h).priority ≤ key (t i).priority

-- Whatever slot of the table the priority scheduler has come to, the process that it switches to is
-- runnable, and no runnable process of the table has a smaller number.
pub visit-IsBest : (t : ℕ → Proc) (p h : ℕ) → p < nproc → visit t p ≡ some h → IsBest t h
visit-IsBest t p h lt e =
    let w = visit-IsHighest t p h e in
    record { in_table = ground (arith, w.where_found); ready = w.ready; least = w.beats_all }

-- The process in slot `h` comes back by `yield`.
abbrev pub yields : ℕ → (ℕ → Proc) → ℕ → Proc
yields h t = update t h (record (t h) { state = runnable })

abbrev pub All : (ℕ → Type 0) → List ℕ → Type 0
All P [] = Unit {0}
All P (x ∷ xs) = P x × All P xs

-- Slot `h` is runnable, and its number is below that of every other runnable process.
pub record IsTop (t : ℕ → Proc) (h : ℕ) : Type 0 where
  pub in_table : h < nproc
  pub ready : is_runnable (t h).state ≡ true
  pub least :
      (i : ℕ)
      → i < nproc
      → i ≢ h
      → is_runnable (t i).state ≡ true
      → key (t h).priority < key (t i).priority

IsTop-visit : (t : ℕ → Proc) (h p g : ℕ) → IsTop t h → p < nproc → visit t p ≡ some g → g ≡ h
IsTop-visit t h p g top lt e = elim (ℕ_discrete g h) [
  | yes q ↦ q
  | no ne ↦ absurd (clash ne (visit-IsBest t p g lt e))
]
  where
    clash : g ≢ h → IsBest t g → ⊥
    clash ne w = omega (arith, w.least h top.in_table top.ready, top.least g w.in_table ne w.ready)

IsTop-yields :
    (t : ℕ → Proc) (h : ℕ)
    → IsTop t h
    → IsTop (yields h (update t h (record (t h) { state = running }))) h
IsTop-yields t h top = record {
  in_table = top.in_table;
  ready = ground arith;
  least = λ i lt ne r. ground (arith, top.least i lt ne);
}

-- Starvation: as long as the process with the smallest number only yields, one pass of the priority
-- scheduler over the table switches to no other process, whatever its starting slot and length.
pub pass_starves :
    (fuel p h : ℕ) (t : ℕ → Proc) → IsTop t h → All (λ g. g ≡ h) (pass yields fuel p t)
unfolding pass
pass_starves zero p h t top = tt
pass_starves (suc fuel) p h t top = elim (Bool-cases (ltb p nproc)) [
  | inr out ↦ rw (pass, out) tt
  | inl lt ↦ elim (Option-cases (visit t p)) [
    | inl e ↦ rw (pass, lt, e) (pass_starves fuel (suc p) h t top)
    | inr (g, e) ↦
        let q = IsTop-visit t h p g top (ltb→lt p nproc lt) e in
        rw (pass, lt, e, q) (refl, pass_starves fuel (suc h) h _ (IsTop-yields t h top))
  ]
]
