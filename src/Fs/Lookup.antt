-- ===== src/Fs/Lookup.antt =====
-- `dirlookup`: the first entry of a directory with the name.
use os_fcfs_prirority.Base.{
  ℕ, zero, suc, ◌+◌, ◌-◌, ◌*◌, ◌/◌, ◌%◌, ◌<◌, ◌≡◌, inl, inr, refl, ap, Bool, true, false, not, ◌&&◌,
  Option, none, some, first, Bool-cases, arith, ltb, ◌==◌, if◌then◌else◌,
}
use os_fcfs_prirority.Cstring.Names.{strncmp-same}
use os_fcfs_prirority.Fs.{Blocks, Superblock}
use os_fcfs_prirority.Fs.Inode.{Inode, min}
use os_fcfs_prirority.Fs.Files.{Devices}
use os_fcfs_prirority.Fs.Owner.{IsSized}
use os_fcfs_prirority.Fs.Contents.{byte}
use os_fcfs_prirority.Fs.Stored.{IsStored, readi_lem}
use os_fcfs_prirority.Fs.Dir.{
  dirsiz, t_dir, entry_size, entry_inum, entry_name, namecmp, Lookup, found, missing, dir_scan,
  looked_up, with_dir, dirlookup,
}

-- The number and the name of entry `k` of a directory.
abbrev pub inum_at : Inode → Blocks → ℕ → ℕ
inum_at dp s k = byte dp s (16 * k) + 256 * byte dp s (16 * k + 1)

abbrev pub name_at : Inode → Blocks → ℕ → ℕ → ℕ
name_at dp s k i = byte dp s (16 * k + 2 + i)

-- Whether entry `k` is in use and has the name.
abbrev pub is_entry : (ℕ → ℕ) → Inode → Blocks → ℕ → Bool
is_entry name dp s k = not (inum_at dp s k == 0) && namecmp name (name_at dp s k) == 0

-- What is found where `k` is the first such entry.
abbrev pub at_entry : Inode → Blocks → Option ℕ → Lookup
at_entry dp s none = missing
at_entry dp s (some k) = found (16 * k) (inum_at dp s k)

module _ (sb : Superblock) (sized : IsSized sb) (dev : Devices) where
  -- The entry that a round reads.
  abbrev pub fetched_entry : Inode → Blocks → ℕ → (ℕ → ℕ) → ℕ → ℕ
  fetched_entry dp s k de i = if ltb i 16 then byte dp s (16 * k + i) else de i

  pub fetched-inum :
      (dp : Inode) (s : Blocks) (k : ℕ) (de : ℕ → ℕ)
      → entry_inum (fetched_entry dp s k de) ≡ inum_at dp s k
  fetched-inum dp s k de =
      let e : 16 * k + 0 ≡ 16 * k = omega arith in
      ap (λ j. byte dp s j + 256 * byte dp s (16 * k + 1)) e

  fetched-name :
      (name : ℕ → ℕ) (dp : Inode) (s : Blocks) (k : ℕ) (de : ℕ → ℕ)
      → namecmp name (entry_name (fetched_entry dp s k de)) ≡ namecmp name (name_at dp s k)
  unfolding namecmp
  fetched-name name dp s k de =
      strncmp-same name (entry_name (fetched_entry dp s k de)) (name_at dp s k) dirsiz (λ i lt.
        let inside : ltb (2 + i) 16 ≡ true = ground arith in
        let at : 16 * k + (2 + i) ≡ 16 * k + 2 + i = omega arith in rw inside (ap (byte dp s) at))

  pub dir_scan-first :
      (fuel k n : ℕ) (name de : ℕ → ℕ) (dp : Inode) (s : Blocks)
      → IsStored sb sized dp s
      → 16 * (k + n) ≡ dp.size
      → n < fuel
      → dir_scan sb dev fuel name (16 * k) de dp s
        ≡ (at_entry dp s (first (is_entry name dp s) n k), dp, s)
  unfolding dir_scan first
  dir_scan-first zero k n name de dp s st whole enough = absurd (omega arith)
  dir_scan-first (suc fuel) k zero name de dp s st whole enough =
      let past : ltb (16 * k) dp.size ≡ false = ground arith in rw past refl
  dir_scan-first (suc fuel) k (suc n) name de dp s st whole enough =
      let inside : ltb (16 * k) dp.size ≡ true = ground arith in
      let count : min entry_size (dp.size - 16 * k) ≡ entry_size = ground arith in
      let read =
        readi_lem sb sized dev dp s de (16 * k) entry_size st (omega arith)
          (omega (arith, st.short)) in
      let de' = fetched_entry dp s k de in
      let next : 16 * k + entry_size ≡ 16 * suc k = omega arith in
      let rest = dir_scan-first fuel (suc k) n name de' dp s st (omega arith) (omega arith) in
      rw (inside, read, count, fetched-inum dp s k de, fetched-name name dp s k de, next, rest)
        (elim (Bool-cases (is_entry name dp s k)) [
          | inl hit ↦ rw hit refl
          | inr miss ↦ rw miss refl
        ])

  -- `dirlookup` in a directory of whole entries does not panic over the directory and does not change
  -- it: the first entry in use with the name gives its offset, and the entry of the table that `iget`
  -- returns for its number; without such an entry the result is null, and the table stays.
  pub dirlookup_lem :
      (name de : ℕ → ℕ) (dp : Inode) (c : ℕ → Inode) (s : Blocks)
      → IsStored sb sized dp s
      → dp.kind ≡ t_dir
      → dp.size % entry_size ≡ 0
      → dirlookup sb dev name de dp c s
        ≡ with_dir
            (looked_up (at_entry dp s (first (is_entry name dp s) (dp.size / entry_size) 0)) c)
            dp
            s
  unfolding dirlookup
  dirlookup_lem name de dp c s st kind whole =
      let test : (dp.kind == t_dir) ≡ true = ground arith in
      let n = dp.size / entry_size in
      let scan = dir_scan-first (n + 1) 0 n name de dp s st (omega arith) (omega arith) in
      rw (test, scan) refl
