-- ===== src/Spin/Kept.antt =====
-- Every step of acquire and release keeps the invariant.
use os_fcfs_prirority.Base.{
  ℕ, ◌+◌, ◌≡◌, ◌≢◌, inl, inr, refl, sym, ap, ◌∙◌, true, false, none, some, some_inj, Bool-cases,
  arith,
}
use os_fcfs_prirority.Spin.{Cpu, Spinlock, begin_acquire, end_acquire, begin_release, end_release}
use os_fcfs_prirority.Spin.Calls.{
  begin_acquire_returned, begin_release_returned, end_release_returned,
}
use os_fcfs_prirority.Spin.Steps.{Place, outside, spinning, got, inside, leaving, System}
use os_fcfs_prirority.Spin.Mutex.{
  is_holder, is_inside, pending, IsSafe, IsKept, others_out, inside_holds,
}

-- A processor that is not in the critical section is not the lock's.
pub unnamed :
    (s : System) (i : ℕ) (p : Place)
    → IsSafe s
    → s.place i ≡ p
    → is_inside p ≡ false
    → s.lock.cpu ≢ some i
unnamed s i p h at out e = cc (ap is_inside at, h.names i e, out)

pub begins-IsKept :
    (s : System) (i : ℕ) (c : Cpu)
    → IsSafe s
    → s.place i ≡ outside
    → begin_acquire s.lock i (s.cpus i) ≡ some c
    → IsKept s i s.lock c spinning (s.depth i)
begins-IsKept s i c h at e =
    let (deep, q) = begin_acquire_returned s.lock i (s.cpus i) c e in
    let before = h.deep i ∙ ap (λ p. s.depth i + pending p) at in
    record {
      quiet = q;
      deep = omega (arith, deep, before);
      self_free = λ f. refl;
      others_free = λ f j ne. h.free f j;
      alone = λ mine. cc;
      self_named = λ mine. cc;
      self_names = λ n. absurd (unnamed s i outside h at refl n);
      others_named = λ j ne. h.named j;
      others_names = λ j ne. h.names j;
    }

pub locks-IsKept :
    (s : System) (i : ℕ)
    → IsSafe s
    → s.place i ≡ spinning
    → s.lock.locked ≡ false
    → IsKept s i (record (s.lock) { locked = true }) (s.cpus i) got (s.depth i)
locks-IsKept s i h at free = record {
  quiet = h.quiet i;
  deep = h.deep i ∙ ap (λ p. s.depth i + pending p) at;
  self_free = λ f. cc;
  others_free = λ f. cc;
  alone = λ mine j ne. h.free free j;
  self_named = λ mine. cc;
  self_names = λ n. absurd (unnamed s i spinning h at refl n);
  others_named = λ j ne. h.named j;
  others_names = λ j ne. h.names j;
}

pub spins-IsKept :
    (s : System) (i : ℕ)
    → IsSafe s
    → s.place i ≡ spinning
    → IsKept s i (record (s.lock) { locked = true }) (s.cpus i) spinning (s.depth i)
spins-IsKept s i h at = record {
  quiet = h.quiet i;
  deep = h.deep i ∙ ap (λ p. s.depth i + pending p) at;
  self_free = λ f. refl;
  others_free = λ f. cc;
  alone = λ mine. cc;
  self_named = λ mine. cc;
  self_names = λ n. absurd (unnamed s i spinning h at refl n);
  others_named = λ j ne. h.named j;
  others_names = λ j ne. h.names j;
}

-- With the lock at `i`, it is locked, and no other processor is inside.
pub holds_locked :
    (s : System) (i : ℕ) → IsSafe s → is_holder (s.place i) ≡ true → s.lock.locked ≡ true
holds_locked s i h mine = elim (Bool-cases s.lock.locked) [
  | inl locked ↦ locked
  | inr free ↦ cc (h.free free i, mine)
]

none_inside :
    (s : System) (i : ℕ)
    → IsSafe s
    → is_holder (s.place i) ≡ true
    → (j : ℕ) → i ≢ j
    → is_inside (s.place j) ≡ false
none_inside s i h mine j ne = inside_holds (s.place j) (others_out s i h mine j ne)

pub enters-IsKept :
    (s : System) (i : ℕ)
    → IsSafe s
    → s.place i ≡ got
    → IsKept s i (end_acquire s.lock i) (s.cpus i) inside (s.depth i)
enters-IsKept s i h at =
    let mine : is_holder (s.place i) ≡ true = ap is_holder at in
    record {
      quiet = h.quiet i;
      deep = h.deep i ∙ ap (λ p. s.depth i + pending p) at;
      self_free = λ f. cc (f, holds_locked s i h mine);
      others_free = λ f. cc (f, holds_locked s i h mine);
      alone = λ m j ne. others_out s i h mine j ne;
      self_named = λ m. refl;
      self_names = λ n. refl;
      others_named = λ j ne m. cc (none_inside s i h mine j ne, m);
      others_names = λ j ne n. absurd (ne (some_inj n));
    }

pub releases-IsKept :
    (s : System) (i : ℕ) (lk : Spinlock) (c : Cpu)
    → IsSafe s
    → s.place i ≡ inside
    → begin_release s.lock i (s.cpus i) ≡ some (lk, c)
    → IsKept s i lk c leaving (s.depth i)
releases-IsKept s i lk c h at e =
    let mine : is_holder (s.place i) ≡ true = ap is_holder at in
    let (is, deep, q) = begin_release_returned s.lock lk i (s.cpus i) c (h.quiet i) e in
    let locked : lk.locked ≡ true = ap (λ (l : Spinlock). l.locked) is ∙ holds_locked s i h mine in
    let gone : lk.cpu ≡ none = ap (λ (l : Spinlock). l.cpu) is in
    record {
      quiet = q;
      deep = deep ∙ h.deep i ∙ ap (λ p. s.depth i + pending p) at;
      self_free = λ f. cc (f, locked);
      others_free = λ f. cc (f, locked);
      alone = λ m j ne. others_out s i h mine j ne;
      self_named = λ m. cc;
      self_names = λ n. cc (n, gone);
      others_named = λ j ne m. cc (none_inside s i h mine j ne, m);
      others_names = λ j ne n. cc (n, gone);
    }

pub unlocks-IsKept :
    (s : System) (i : ℕ) (lk : Spinlock) (c : Cpu)
    → IsSafe s
    → s.place i ≡ leaving
    → end_release s.lock (s.cpus i) ≡ some (lk, c)
    → IsKept s i lk c outside (s.depth i)
unlocks-IsKept s i lk c h at e =
    let mine : is_holder (s.place i) ≡ true = ap is_holder at in
    let before = h.deep i ∙ ap (λ p. s.depth i + pending p) at in
    let (is, deep, q) =
      end_release_returned s.lock lk (s.cpus i) c (h.quiet i) (omega (arith, before)) e in
    let name : lk.cpu ≡ s.lock.cpu = ap (λ (l : Spinlock). l.cpu) is in
    record {
      quiet = q;
      deep = omega (arith, deep, before);
      self_free = λ f. refl;
      others_free = λ f j ne. others_out s i h mine j ne;
      alone = λ m. cc;
      self_named = λ m. cc;
      self_names = λ n. absurd (unnamed s i leaving h at refl (sym name ∙ n));
      others_named = λ j ne m. name ∙ h.named j m;
      others_names = λ j ne n. h.names j (sym name ∙ n);
    }
