-- ===== src/Spin/Steps.antt =====
-- Processors that take and release one lock, in any interleaving.
use os_fcfs_prirority.Base.{ℕ, ◌+◌, ◌-◌, ◌<◌, ◌≡◌, Bool, true, false, some, update}
use os_fcfs_prirority.Spin.{
  Cpu, Spinlock, initlock, pushcli, popcli, begin_acquire, try_lock, end_acquire, begin_release,
  end_release,
}

-- Where a processor is: not at the lock, in the loop of `acquire`, after it, between `acquire` and
-- `release`, or in `release` with `lk->cpu` cleared.
pub data Place : Type 0 where
  outside spinning got inside leaving : Place

-- `depth` counts the calls of `pushcli` that a processor has made besides those for the lock.
pub record System : Type 0 where
  pub lock : Spinlock
  pub cpus : ℕ → Cpu
  pub place : ℕ → Place
  pub depth : ℕ → ℕ

-- Processor `i` has gone on.
abbrev pub moved : System → ℕ → Spinlock → Cpu → Place → ℕ → System
moved s i lk c p d = record {
  lock = lk;
  cpus = update s.cpus i c;
  place = update s.place i p;
  depth = update s.depth i d;
}

pub data Step (s : System) : System → Type 0 where
  begins :
      (i : ℕ) {c : Cpu}
      → s.place i ≡ outside
      → begin_acquire s.lock i (s.cpus i) ≡ some c
      → Step s (moved s i s.lock c spinning (s.depth i))
  spins :
      (i : ℕ)
      → s.place i ≡ spinning
      → (try_lock s.lock).1 ≡ false
      → Step s (moved s i (try_lock s.lock).0 (s.cpus i) spinning (s.depth i))
  locks :
      (i : ℕ)
      → s.place i ≡ spinning
      → (try_lock s.lock).1 ≡ true
      → Step s (moved s i (try_lock s.lock).0 (s.cpus i) got (s.depth i))
  enters :
      (i : ℕ)
      → s.place i ≡ got
      → Step s (moved s i (end_acquire s.lock i) (s.cpus i) inside (s.depth i))
  releases :
      (i : ℕ) {lk : Spinlock} {c : Cpu}
      → s.place i ≡ inside
      → begin_release s.lock i (s.cpus i) ≡ some (lk, c)
      → Step s (moved s i lk c leaving (s.depth i))
  unlocks :
      (i : ℕ) {lk : Spinlock} {c : Cpu}
      → s.place i ≡ leaving
      → end_release s.lock (s.cpus i) ≡ some (lk, c)
      → Step s (moved s i lk c outside (s.depth i))
  -- calls for other locks
  pushes : (i : ℕ) → Step s (moved s i s.lock (pushcli (s.cpus i)) (s.place i) (s.depth i + 1))
  pops :
      (i : ℕ) {c : Cpu}
      → 0 < s.depth i
      → popcli (s.cpus i) ≡ some c
      → Step s (moved s i s.lock c (s.place i) (s.depth i - 1))
  -- `sti` and `cli` where there is no call to undo
  switches :
      (i : ℕ) (b : Bool)
      → (s.cpus i).ncli ≡ 0
      → Step s (moved s i s.lock (record (s.cpus i) { enabled = b }) (s.place i) (s.depth i))

abbrev pub at_first : System
at_first = record {
  lock = initlock;
  cpus = λ i. record { ncli = 0; intena = false; enabled = false };
  place = λ i. outside;
  depth = λ i. 0;
}

pub data Reach : System → Type 0 where
  start : Reach at_first
  later : {s t : System} → Reach s → Step s t → Reach t
