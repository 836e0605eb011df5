-- ===== src/Proc/Choice.antt =====
-- Which process the two schedulers switch to.
use native.Mathlib.Decide.{ℕ_discrete}
use os_fcfs_prirority.Base.{
  ℕ, suc, ◌+◌, ◌≤◌, ◌<◌, ◌≡◌, true, false, Option, none, some, arith, u32, signed_ltb, for_range,
  for_range_inv, ◌^◌, ◌⊎◌, inl, inr, sym, refl, Bool-cases, ◌&&◌,
}
use os_fcfs_prirority.Proc.Types.{Proc, nproc, is_runnable}
use os_fcfs_prirority.Proc.Fcfs.{scan_one, choose}
use os_fcfs_prirority.Proc.Priority.{contest, visit}

-- An `int` as the number that orders it: its pattern with the sign bit flipped.
abbrev pub key : ℕ → ℕ
key a = u32 (a + 2 ^ 31)

below_suc {ℓ} : (P : ℕ → Type ℓ) (n : ℕ) → ((i : ℕ) → i < n → P i) → P n → (i : ℕ) → i < suc n → P i
below_suc P n h e i lt = elim (ℕ_discrete n i) [ yes q ↦ rw (← q) e | no ne ↦ h i (omega arith) ]

module _ (t : ℕ → Proc) where
  -- Slot `m` comes first among the runnable slots below `n`, by creation time, then by index.
  pub record IsOldest (n m : ℕ) : Type 0 where
    pub in_table : m < n
    pub ready : is_runnable (t m).state ≡ true
    pub earlier :
        (i : ℕ) → i < m → is_runnable (t i).state ≡ true → key (t m).ctime < key (t i).ctime
    pub later : (i : ℕ) → i < n → is_runnable (t i).state ≡ true → key (t m).ctime ≤ key (t i).ctime

  -- What the scan holds after `n` slots.
  abbrev pub IsScanned : ℕ → Option ℕ → Type 0
  IsScanned n none = (i : ℕ) → i < n → is_runnable (t i).state ≡ false
  IsScanned n (some m) = IsOldest n m

  scan_one-IsScanned :
      (n : ℕ) (min : Option ℕ) → IsScanned n min → IsScanned (suc n) (scan_one t n min)
  unfolding scan_one
  scan_one-IsScanned n none h = elim (Bool-cases (is_runnable (t n).state)) [
    | inl e ↦
        rw (scan_one, e)
          (record {
            in_table = omega arith;
            ready = e;
            earlier = λ i lt r. cc (h i lt);
            later = λ i lt r. grind (arith, h i);
          })
    | inr e ↦ rw (scan_one, e) (λ i lt. below_suc (λ j. is_runnable (t j).state ≡ false) n h e i lt)
  ]
  scan_one-IsScanned n (some m) h =
      elim (Bool-cases (is_runnable (t n).state && signed_ltb (t n).ctime (t m).ctime)) [
        | inl e ↦ rw (wins e) (record {
          in_table = omega arith;
          ready = ground arith;
          earlier = λ i lt r. ground (arith, h.later i lt r);
          later = λ i lt r. ground (arith, older i lt r);
        })
        | inr e ↦ rw (loses e) (record {
          in_table = omega (arith, h.in_table);
          ready = h.ready;
          earlier = h.earlier;
          later = below_suc _ n h.later (λ r. ground arith);
        })
      ]
    where
      wins :
          (is_runnable (t n).state && signed_ltb (t n).ctime (t m).ctime) ≡ true
          → scan_one t n (some m) ≡ some n
      wins e = ground arith

      loses :
          (is_runnable (t n).state && signed_ltb (t n).ctime (t m).ctime) ≡ false
          → scan_one t n (some m) ≡ some m
      loses e = ground arith

      older :
          (i : ℕ)
          → i < suc n
          → is_runnable (t i).state ≡ true
          → (key (t m).ctime ≤ key (t i).ctime) ⊎ (i ≡ n)
      older i lt r = elim (ℕ_discrete n i) [
        | yes q ↦ inr (sym q)
        | no ne ↦ inl (h.later i (omega arith) r)
      ]

  pub choose-IsScanned : IsScanned nproc (choose t)
  unfolding choose
  choose-IsScanned =
      for_range_inv IsScanned (scan_one t) nproc nproc 0 (omega arith)
        (λ n s lo hi h. scan_one-IsScanned n s h) none (λ i h. absurd (omega arith))

  -- Slot `h` is what the inner loop holds after `n` slots, started at `p`.
  pub record IsHighest (p n h : ℕ) : Type 0 where
    pub ready : is_runnable (t h).state ≡ true
    pub where_found : (h ≡ p) ⊎ (h < n)
    pub beats_start : key (t h).priority ≤ key (t p).priority
    pub beats_all :
        (i : ℕ) → i < n → is_runnable (t i).state ≡ true → key (t h).priority ≤ key (t i).priority

  contest-IsHighest : (p n h : ℕ) → IsHighest p n h → IsHighest p (suc n) (contest t n h)
  unfolding contest
  contest-IsHighest p n h s =
      elim (Bool-cases (is_runnable (t n).state && signed_ltb (t n).priority (t h).priority)) [
        | inl e ↦
            rw (contest, e)
              (record {
                ready = ground arith;
                where_found = inr (omega arith);
                beats_start = ground (arith, s.beats_start);
                beats_all =
                    below_suc _ n (λ i lt r. ground (arith, s.beats_all i lt r)) (λ r. omega arith);
              })
        | inr e ↦
            rw (contest, e)
              (record {
                ready = s.ready;
                where_found = ground (arith, s.where_found);
                beats_start = s.beats_start;
                beats_all = below_suc _ n s.beats_all (λ r. ground arith);
              })
      ]

  pub visit-IsHighest : (p h : ℕ) → visit t p ≡ some h → IsHighest p nproc h
  unfolding visit
  visit-IsHighest p h e = elim (Bool-cases (is_runnable (t p).state)) [
    | inl r ↦ rw (h_is r e) (
        for_range_inv (IsHighest p) (contest t) nproc nproc 0 (omega arith)
          (λ n s lo hi q. contest-IsHighest p n s q) p
          (record {
            ready = r;
            where_found = inl refl;
            beats_start = omega arith;
            beats_all = λ i lt. absurd (omega arith);
          }))
    | inr r ↦ cc (rw (visit, r) at e)
  ]
    where
      h_is :
          is_runnable (t p).state ≡ true → visit t p ≡ some h → h ≡ for_range nproc 0 (contest t) p
      h_is r q = ground arith
