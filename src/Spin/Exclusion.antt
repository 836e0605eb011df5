-- ===== src/Spin/Exclusion.antt =====
-- Mutual exclusion: the invariant holds in every state that is reached.
use os_fcfs_prirority.Base.{
  ℕ, ◌+◌, ◌-◌, ◌≡◌, inl, inr, refl, ap, ◌∙◌, true, false, ◌&&◌, none, some, Bool-cases, points_to,
  points_to_iff, arith,
}
use os_fcfs_prirority.Spin.{
  Cpu, Spinlock, pushcli, begin_acquire, try_lock, end_acquire, begin_release, end_release,
}
use os_fcfs_prirority.Spin.Calls.{begin_acquire_lem, begin_release_lem, popcli_lem, popcli_returned}
use os_fcfs_prirority.Spin.Steps.{
  pushes, pops, Place, outside, spinning, got, inside, leaving, System, Step, begins, spins, locks,
  enters, releases, unlocks, switches, Reach, start, later,
}
use os_fcfs_prirority.Spin.Mutex.{is_holder, is_inside, pending, IsSafe, moved-IsSafe, same-IsKept}
use os_fcfs_prirority.Spin.Kept.{
  unnamed, begins-IsKept, locks-IsKept, spins-IsKept, holds_locked, enters-IsKept, releases-IsKept,
  unlocks-IsKept,
}

Step-IsSafe : {s t : System} → IsSafe s → Step s t → IsSafe t
unfolding try_lock pushcli
Step-IsSafe {s} h (begins i {c} at e) =
    moved-IsSafe s i s.lock c spinning (s.depth i) h (begins-IsKept s i c h at e)
Step-IsSafe {s} h (spins i at e) =
    moved-IsSafe s i (record (s.lock) { locked = true }) (s.cpus i) spinning (s.depth i) h
      (spins-IsKept s i h at)
Step-IsSafe {s} h (locks i at e) =
    moved-IsSafe s i (record (s.lock) { locked = true }) (s.cpus i) got (s.depth i) h
      (locks-IsKept s i h at (ground arith))
Step-IsSafe {s} h (enters i at) =
    moved-IsSafe s i (end_acquire s.lock i) (s.cpus i) inside (s.depth i) h (enters-IsKept s i h at)
Step-IsSafe {s} h (releases i {lk} {c} at e) =
    moved-IsSafe s i lk c leaving (s.depth i) h (releases-IsKept s i lk c h at e)
Step-IsSafe {s} h (unlocks i {lk} {c} at e) =
    moved-IsSafe s i lk c outside (s.depth i) h (unlocks-IsKept s i lk c h at e)
Step-IsSafe {s} h (pushes i) =
    moved-IsSafe s i s.lock (pushcli (s.cpus i)) (s.place i) (s.depth i + 1) h (
      same-IsKept s i (pushcli (s.cpus i)) (s.depth i + 1) h (record { quiet = λ lt. refl })
        (omega (arith, h.deep i)))
Step-IsSafe {s} h (pops i {c} lt e) =
    let (deep, q) = popcli_returned (s.cpus i) c (h.quiet i) (omega (arith, h.deep i)) e in
    moved-IsSafe s i s.lock c (s.place i) (s.depth i - 1) h
      (same-IsKept s i c (s.depth i - 1) h q (omega (arith, deep, h.deep i)))
Step-IsSafe {s} h (switches i b z) =
    let c : Cpu = record (s.cpus i) { enabled = b } in
    moved-IsSafe s i s.lock c (s.place i) (s.depth i) h
      (same-IsKept s i c (s.depth i) h (record { quiet = λ lt. absurd (omega arith) }) (h.deep i))

Reach-IsSafe : {s : System} → Reach s → IsSafe s
Reach-IsSafe start = record {
  free = λ f i. refl;
  one = λ i j. cc;
  named = λ i. cc;
  names = λ i. cc;
  quiet = λ i. record { quiet = λ lt. refl };
  deep = λ i. omega arith;
}
Reach-IsSafe (later r st) = Step-IsSafe (Reach-IsSafe r) st

inside_facts : (p : Place) → is_inside p ≡ true → (is_holder p ≡ true) × (pending p ≡ 1)
inside_facts outside e = cc
inside_facts spinning e = cc
inside_facts got e = cc
inside_facts inside e = (refl, refl)
inside_facts leaving e = cc

-- In every state that steps of processors lead to, in any order, a processor between `acquire` and
-- `release` is the one in `lk->cpu`, its interrupts are off, and every processor that has the lock is
-- the same one.
pub Reach-exclusive :
    {s : System} (i j : ℕ)
    → Reach s
    → is_inside (s.place i) ≡ true
    → is_holder (s.place j) ≡ true
    → (i ≡ j) × (s.lock.cpu ≡ some i) × ((s.cpus i).enabled ≡ false)
Reach-exclusive {s} i j r here there =
    let h = Reach-IsSafe r in
    let (mine, one_call) = inside_facts (s.place i) here in
    (h.one i j mine there, h.named i here, (h.quiet i).quiet (omega (arith, h.deep i)))

-- What processor `i` calls next returns.
abbrev pub Returns : System → ℕ → Place → Type 0
Returns s i outside = (c : Cpu) × (begin_acquire s.lock i (s.cpus i) ≡ some c)
Returns s i spinning = Unit {0}
Returns s i got = Unit {0}
Returns s i inside = (r : Spinlock × Cpu) × (begin_release s.lock i (s.cpus i) ≡ some r)
Returns s i leaving = (r : Spinlock × Cpu) × (end_release s.lock (s.cpus i) ≡ some r)

place-Returns : (s : System) (i : ℕ) (p : Place) → IsSafe s → s.place i ≡ p → Returns s i p
unfolding end_release
place-Returns s i outside h at =
    let (c, said, _, _) = begin_acquire_lem s.lock i (s.cpus i) in
    let not_held : (s.lock.locked && points_to s.lock.cpu i) ≡ false =
      elim (Bool-cases (points_to s.lock.cpu i)) [
        | inl named ↦ absurd (unnamed s i outside h at refl ((points_to_iff s.lock.cpu i).0 named))
        | inr other ↦ ground arith
      ] in
    (c, rw not_held at said)
place-Returns s i spinning h at = tt
place-Returns s i got h at = tt
place-Returns s i inside h at =
    let (c, said, _, _) = begin_release_lem s.lock i (s.cpus i) (h.quiet i) in
    let name = (points_to_iff s.lock.cpu i).1 (h.named i (ap is_inside at)) in
    let locked = holds_locked s i h (ap is_holder at) in
    let held : (s.lock.locked && points_to s.lock.cpu i) ≡ true = ground arith in
    ((record (s.lock) { cpu = none }, c), rw held at said)
place-Returns s i leaving h at =
    let deep = h.deep i ∙ ap (λ p. s.depth i + pending p) at in
    let (c, said, _, _) = popcli_lem (s.cpus i) (h.quiet i) (omega (arith, deep)) in
    ((record (s.lock) { locked = false }, c), rw (end_release, said) refl)

-- In such a state none of the calls that a processor makes for the lock panics: not `acquire` outside
-- it, nor `release` after it.
pub Reach-Returns : {s : System} (i : ℕ) → Reach s → Returns s i (s.place i)
Reach-Returns {s} i r = place-Returns s i (s.place i) (Reach-IsSafe r) refl
