-- ===== src/Proc/Valid/Scan.antt =====
-- What the loop of `wait` and `procstat` has seen when it ends.
use native.Mathlib.Decide.{ℕ_discrete}
use os_fcfs_prirority.Base.{
  ℕ, zero, suc, ◌+◌, ◌≤◌, ◌<◌, ◌≡◌, ◌⊎◌, inl, inr, Bool, true, false, ◌&&◌, ◌||◌, some, arith,
  points_to, points_to_iff, Bool-cases,
}
use os_fcfs_prirority.Proc.Types.{Proc}
use os_fcfs_prirority.Proc.Wait.{found, missed, scan_kids}

module _ (ready : Proc → Bool) (cur : ℕ) (t : ℕ → Proc) where
  -- The scan ends at the first child that is ready.
  pub record IsFound (i n j : ℕ) : Type 0 where
    pub child : (t j).parent ≡ some cur
    pub is_ready : ready (t j) ≡ true
    pub above : i ≤ j
    pub below : j < i + n

  -- No child is ready, and `b` says whether there is one.
  pub record IsMissed (i n : ℕ) (have b : Bool) : Type 0 where
    pub none_ready : (j : ℕ) → i ≤ j → j < i + n → (t j).parent ≡ some cur → ready (t j) ≡ false
    pub no_child :
        b ≡ false
        → (have ≡ false) × ((j : ℕ) → i ≤ j → j < i + n → points_to (t j).parent cur ≡ false)
    pub a_child :
        b ≡ true → (have ≡ true) ⊎ ((j : ℕ) × (i ≤ j) × (j < i + n) × ((t j).parent ≡ some cur))

  pub scan-found :
      (n i : ℕ) (have : Bool) (j : ℕ) → scan_kids ready cur n i have t ≡ found j → IsFound i n j
  unfolding scan_kids
  scan-found zero i have j h = cc
  scan-found (suc n) i have j h = ground (
    arith,
    points_to_iff (t i).parent cur,
    scan-found n (suc i) true j,
    scan-found n (suc i) false j,
  )

  IsMissed-step :
      (n i : ℕ) (have b : Bool)
      → (points_to (t i).parent cur && ready (t i)) ≡ false
      → IsMissed (suc i) n (have || points_to (t i).parent cur) b
      → IsMissed i (suc n) have b
  IsMissed-step n i have b at_i r = record {
    none_ready = λ j lo hi q. elim (ℕ_discrete i j) [
      | yes e ↦ rw (← e) (ground (arith, points_to_iff (t i).parent cur, rw (← e) at q))
      | no ne ↦ r.none_ready j (omega arith) (omega arith) q
    ];
    no_child = λ e. (
      ground (arith, r.no_child e),
      λ j lo hi. elim (ℕ_discrete i j) [
        | yes q ↦ rw (← q) (ground (arith, r.no_child e))
        | no ne ↦ (r.no_child e).1 j (omega arith) (omega arith)
      ],
    );
    a_child = λ e. elim (r.a_child e) [
      | inl h ↦ elim (Bool-cases have) [
        | inl old ↦ inl old
        | inr new ↦
            inr (i, omega arith, omega arith, ground (arith, points_to_iff (t i).parent cur))
      ]
      | inr (j, lo, hi, q) ↦ inr (j, omega arith, omega arith, q)
    ];
  }

  pub scan-missed :
      (n i : ℕ) (have b : Bool) → scan_kids ready cur n i have t ≡ missed b → IsMissed i n have b
  unfolding scan_kids
  scan-missed zero i have b h = record {
    none_ready = λ j lo hi. absurd (omega arith);
    no_child = λ e. (ground arith, λ j lo hi. absurd (omega arith));
    a_child = λ e. inl (ground arith);
  }
  scan-missed (suc n) i have b h = elim (Bool-cases (points_to (t i).parent cur && ready (t i))) [
    | inl e ↦ cc (rw (e, scan_kids) at h)
    | inr e ↦ IsMissed-step n i have b e (scan-missed n (suc i) _ b (rw e at h))
  ]
