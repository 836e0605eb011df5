-- ===== src/Fs/Dirlink/Free.antt =====
-- The entry that `dirlink` takes: the first free one, or one behind the last.
use os_fcfs_prirority.Base.{
  ℕ, zero, suc, ◌+◌, ◌-◌, ◌*◌, ◌≤◌, ◌<◌, ◌≡◌, inl, inr, refl, ap, ◌∙◌, Bool, true, false, Option,
  none, some, first, first-some, first-none, Bool-cases, Option-cases, arith, ltb, ◌==◌,
}
use os_fcfs_prirority.Fs.{Blocks, Superblock}
use os_fcfs_prirority.Fs.Inode.{Inode, min}
use os_fcfs_prirority.Fs.Files.{Devices}
use os_fcfs_prirority.Fs.Owner.{IsSized}
use os_fcfs_prirority.Fs.Stored.{IsStored, readi_lem}
use os_fcfs_prirority.Fs.Dir.{entry_size}
use os_fcfs_prirority.Fs.Lookup.{inum_at, fetched_entry, fetched-inum}
use os_fcfs_prirority.Fs.Dirlink.{free_scan}

abbrev pub is_free : Inode → Blocks → ℕ → Bool
is_free dp s k = inum_at dp s k == 0

-- What a search found, or the end.
abbrev pub hit_or : Option ℕ → ℕ → ℕ
hit_or none n = n
hit_or (some k) n = k

-- A search ends at its first hit.
pub first-hit :
    (test : ℕ → Bool) (n j : ℕ)
    → j < n
    → test j ≡ true
    → ((k : ℕ) → k < j → test k ≡ false)
    → first test n 0 ≡ some j
first-hit test n j lt hit before = elim (Option-cases (first test n 0)) [
  | inl e ↦ let miss = first-none test n 0 e j (omega arith) (omega arith) in absurd (ground arith)
  | inr (m, e) ↦
      let f = first-some test n 0 m e in
      let late : j ≤ m = elim (Bool-cases (ltb m j)) [
        | inl lt' ↦ let miss = before m (ground arith) in cc (f.hit, miss)
        | inr ge ↦ ground arith
      ] in
      let early : m ≤ j = elim (Bool-cases (ltb j m)) [
        | inl lt' ↦ let miss = f.misses j (omega arith) (ground arith) in cc (hit, miss)
        | inr ge ↦ ground arith
      ] in
      let same : m ≡ j = omega arith in e ∙ ap some same
]

pub hit_or_bound : (test : ℕ → Bool) (n : ℕ) → hit_or (first test n 0) n ≤ n
hit_or_bound test n = elim (Option-cases (first test n 0)) [
  | inl e ↦ rw e (omega arith)
  | inr (m, e) ↦ let f = first-some test n 0 m e in rw e (omega (arith, f.below))
]

module _ (sb : Superblock) (sized : IsSized sb) (dev : Devices) where
  pub free_scan-first :
      (fuel k n : ℕ) (de : ℕ → ℕ) (dp : Inode) (s : Blocks)
      → IsStored sb sized dp s
      → 16 * (k + n) ≡ dp.size
      → n < fuel
      → (de' : ℕ → ℕ) × (free_scan sb dev fuel (16 * k) de dp s
          ≡ some (16 * hit_or (first (is_free dp s) n k) (k + n), de', dp, s))
  unfolding free_scan first
  free_scan-first zero k n de dp s st whole enough = absurd (omega arith)
  free_scan-first (suc fuel) k zero de dp s st whole enough =
      let past : ltb (16 * k) dp.size ≡ false = ground arith in
      let at : 16 * k ≡ 16 * (k + 0) = omega arith in
      (de, rw past (ap (λ o. some (o, de, dp, s)) at))
  free_scan-first (suc fuel) k (suc n) de dp s st whole enough =
      let inside : ltb (16 * k) dp.size ≡ true = ground arith in
      let count : min entry_size (dp.size - 16 * k) ≡ entry_size = ground arith in
      let read =
        readi_lem sb sized dev dp s de (16 * k) entry_size st (omega arith)
          (omega (arith, st.short)) in
      let de1 = fetched_entry sb sized dev dp s k de in
      let next : 16 * k + entry_size ≡ 16 * suc k = omega arith in
      let (de2, rest) = free_scan-first fuel (suc k) n de1 dp s st (omega arith) (omega arith) in
      let ends : suc k + n ≡ k + suc n = omega arith in
      elim (Bool-cases (is_free dp s k)) [
        | inl hit ↦ (de1, rw (inside, read, count, fetched-inum sb sized dev dp s k de, hit) refl)
        | inr miss ↦ (
          de2,
          rw (inside, read, count, fetched-inum sb sized dev dp s k de, miss, next)
              (rest
                ∙ ap (λ e. some (16 * hit_or (first (is_free dp s) n (suc k)) e, de2, dp, s)) ends),
        )
      ]
