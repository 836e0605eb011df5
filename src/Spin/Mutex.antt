-- ===== src/Spin/Mutex.antt =====
-- The lock excludes.
use os_fcfs_prirority.Base.{
  ℕ, ◌+◌, ◌≡◌, ◌≢◌, inl, inr, refl, subst, Bool, true, false, some, Bool-cases, update, arith, ◌==◌,
}
use os_fcfs_prirority.Spin.{Cpu, Spinlock}
use os_fcfs_prirority.Spin.Nest.{IsQuiet}
use os_fcfs_prirority.Spin.Steps.{Place, outside, spinning, got, inside, leaving, System, moved}

-- The lock is the processor's.
abbrev pub is_holder : Place → Bool
is_holder outside = false
is_holder spinning = false
is_holder got = true
is_holder inside = true
is_holder leaving = true

abbrev pub is_inside : Place → Bool
is_inside inside = true
is_inside _ = false

-- How many calls of `pushcli` the lock has to undo.
abbrev pub pending : Place → ℕ
pending outside = 0
pending _ = 1

pub record IsSafe (s : System) : Type 0 where
  pub free : s.lock.locked ≡ false → (i : ℕ) → is_holder (s.place i) ≡ false
  pub one : (i j : ℕ) → is_holder (s.place i) ≡ true → is_holder (s.place j) ≡ true → i ≡ j
  pub named : (i : ℕ) → is_inside (s.place i) ≡ true → s.lock.cpu ≡ some i
  pub names : (i : ℕ) → s.lock.cpu ≡ some i → is_inside (s.place i) ≡ true
  pub quiet : (i : ℕ) → IsQuiet (s.cpus i)
  pub deep : (i : ℕ) → (s.cpus i).ncli ≡ s.depth i + pending (s.place i)

-- A step of processor `i` keeps the invariant, if it does so at `i`.
pub record IsKept (s : System) (i : ℕ) (lk : Spinlock) (c : Cpu) (p : Place) (d : ℕ) : Type 0 where
  pub quiet : IsQuiet c
  pub deep : c.ncli ≡ d + pending p
  pub self_free : lk.locked ≡ false → is_holder p ≡ false
  pub others_free : lk.locked ≡ false → (j : ℕ) → i ≢ j → is_holder (s.place j) ≡ false
  pub alone : is_holder p ≡ true → (j : ℕ) → i ≢ j → is_holder (s.place j) ≡ false
  pub self_named : is_inside p ≡ true → lk.cpu ≡ some i
  pub self_names : lk.cpu ≡ some i → is_inside p ≡ true
  pub others_named : (j : ℕ) → i ≢ j → is_inside (s.place j) ≡ true → lk.cpu ≡ some j
  pub others_names : (j : ℕ) → i ≢ j → lk.cpu ≡ some j → is_inside (s.place j) ≡ true

-- While the processor has the lock, no other has it.
pub others_out :
    (s : System) (i : ℕ)
    → IsSafe s
    → is_holder (s.place i) ≡ true
    → (j : ℕ) → i ≢ j
    → is_holder (s.place j) ≡ false
others_out s i h mine j ne = elim (Bool-cases (is_holder (s.place j))) [
  | inl theirs ↦ absurd (ne (h.one i j mine theirs))
  | inr free ↦ free
]

pub inside_holds : (p : Place) → is_holder p ≡ false → is_inside p ≡ false
inside_holds outside e = refl
inside_holds spinning e = refl
inside_holds got e = refl
inside_holds inside e = cc
inside_holds leaving e = refl

-- A property of all processors, by the one that moved and the others.
at_each {ℓ κ} :
    {A : Type ℓ} (P : ℕ → A → Type κ) (t : ℕ → A) (i : ℕ) (v : A)
    → P i v
    → ((j : ℕ) → i ≢ j → P j (t j))
    → (j : ℕ) → P j (update t i v j)
at_each P t i v here there j = elim (Bool-cases (i == j)) [
  | inl same ↦ let e : i ≡ j = ground arith in rw same (subst (λ k. P k v) e here)
  | inr other ↦ rw other (there j (ground arith))
]

pub moved-IsSafe :
    (s : System) (i : ℕ) (lk : Spinlock) (c : Cpu) (p : Place) (d : ℕ)
    → IsSafe s
    → IsKept s i lk c p d
    → IsSafe (moved s i lk c p d)
moved-IsSafe s i lk c p d h k = record {
  free = λ f.
      at_each (λ j (q : Place). is_holder q ≡ false) s.place i p (k.self_free f) (k.others_free f);
  one = λ a b. one_moved a b;
  named =
      at_each (λ j (q : Place). is_inside q ≡ true → lk.cpu ≡ some j) s.place i p k.self_named
        k.others_named;
  names =
      at_each (λ j (q : Place). lk.cpu ≡ some j → is_inside q ≡ true) s.place i p k.self_names
        k.others_names;
  quiet = at_each (λ j (q : Cpu). IsQuiet q) s.cpus i c k.quiet (λ j ne. h.quiet j);
  deep = λ j. elim (Bool-cases (i == j)) [
    | inl same ↦ rw same k.deep
    | inr other ↦ rw other (h.deep j)
  ];
}
  where
    one_moved :
        (a b : ℕ)
        → is_holder (update s.place i p a) ≡ true
        → is_holder (update s.place i p b) ≡ true
        → a ≡ b
    one_moved a b ha hb = elim (Bool-cases (i == a)) [
      | inl at_a ↦ elim (Bool-cases (i == b)) [
        | inl at_b ↦ ground arith
        | inr off_b ↦
            let mine : is_holder p ≡ true = rw at_a at ha in
            let free = k.alone mine b (ground arith) in cc (free, rw off_b at hb)
      ]
      | inr off_a ↦ elim (Bool-cases (i == b)) [
        | inl at_b ↦
            let mine : is_holder p ≡ true = rw at_b at hb in
            let free = k.alone mine a (ground arith) in cc (free, rw off_a at ha)
        | inr off_b ↦ h.one a b (rw off_a at ha) (rw off_b at hb)
      ]
    ]

-- The lock and the place stay.
pub same-IsKept :
    (s : System) (i : ℕ) (c : Cpu) (d : ℕ)
    → IsSafe s
    → IsQuiet c
    → c.ncli ≡ d + pending (s.place i)
    → IsKept s i s.lock c (s.place i) d
same-IsKept s i c d h q deep = record {
  quiet = q;
  deep = deep;
  self_free = λ f. h.free f i;
  others_free = λ f j ne. h.free f j;
  alone = λ mine j ne. others_out s i h mine j ne;
  self_named = h.named i;
  self_names = h.names i;
  others_named = λ j ne. h.named j;
  others_names = λ j ne. h.names j;
}
