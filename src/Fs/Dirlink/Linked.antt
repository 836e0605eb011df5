-- ===== src/Fs/Dirlink/Linked.antt =====
-- `dirlookup` finds what `dirlink` wrote.
use os_fcfs_prirority.Base.{
  ℕ, ◌+◌, ◌-◌, ◌*◌, ◌/◌, ◌%◌, ◌^◌, ◌≤◌, ◌<◌, ◌≡◌, ◌≢◌, ◌⊎◌, inl, inr, refl, sym, ap, ◌∙◌, true,
  false, ◌&&◌, none, some, first, first-some, first-none, Option-cases, arith, ltb, leb, ◌==◌,
  if◌then◌else◌,
}
use os_fcfs_prirority.Cstring.Names.{padded, strncpy-padded, strncmp_iff, padded_idem, strncmp-same}
use os_fcfs_prirority.Fs.{Blocks, Superblock}
use os_fcfs_prirority.Fs.Inode.{Inode}
use os_fcfs_prirority.Fs.Files.{Devices, writei}
use os_fcfs_prirority.Fs.Owner.{max_bytes, IsSized}
use os_fcfs_prirority.Fs.Contents.{byte}
use os_fcfs_prirority.Fs.Stored.{IsStored, Put, writei-Put}
use os_fcfs_prirority.Fs.Roundtrip.{writei-returns}
use os_fcfs_prirority.Fs.Dir.{
  dirsiz, t_dir, entry_size, entry_name, namecmp, found, dir_scan, looked_up, with_dir,
}
use os_fcfs_prirority.Fs.Lookup.{
  inum_at, name_at, is_entry, at_entry, dir_scan-first, dirlookup_lem,
}
use os_fcfs_prirority.Fs.Dirlink.{
  new_entry, free_scan, put_entry, link_entry, after_lookup, dirlink,
}
use os_fcfs_prirority.Fs.Dirlink.Free.{is_free, hit_or, first-hit, hit_or_bound, free_scan-first}

-- A name is its own copy, as `namecmp` sees it.
namecmp-padded : (name : ℕ → ℕ) → ((k : ℕ) → name k < 256) → namecmp name (padded name) ≡ 0
unfolding namecmp
namecmp-padded name plain =
    (strncmp_iff name (padded name) dirsiz plain (λ k. ground (arith, plain k))).1
      (λ k lt. sym (padded_idem name (padded name) dirsiz k (λ j h. refl) lt))

namecmp-same :
    (name q r : ℕ → ℕ) → ((k : ℕ) → k < dirsiz → q k ≡ r k) → namecmp name q ≡ namecmp name r
unfolding namecmp
namecmp-same name q r same = strncmp-same name q r dirsiz same

-- Entry `j` of a directory holds the number and the name, and the entries before it are as they were.
pub record IsPut (name : ℕ → ℕ) (inum j : ℕ) (dp : Inode) (s : Blocks) (dp' : Inode) (s' : Blocks)
    : Type 0 where
  pub room : 16 * j + 16 ≤ max_bytes
  pub written :
      (p : ℕ)
      → p < 16
      → byte dp' s' (16 * j + p) ≡ (
          if ltb p 2
          then (if p == 0 then inum % 256 else inum / 256 % 256)
          else padded name (p - 2))
  pub kept :
      (p : ℕ) → p < max_bytes → (p < 16 * j) ⊎ (16 * j + 16 ≤ p) → byte dp' s' p ≡ byte dp s p

module _ (name : ℕ → ℕ) (inum j : ℕ) (dp : Inode) (s : Blocks) (dp' : Inode) (s' : Blocks)
    (put : IsPut name inum j dp s dp' s') where
  put-inum : inum < 2 ^ 16 → inum_at dp' s' j ≡ inum
  put-inum small =
      let low : byte dp' s' (16 * j) ≡ inum % 256 =
        ap (byte dp' s') (omega arith) ∙ put.written 0 (omega arith) in
      let high = put.written 1 (omega arith) in omega arith

  put-hit : inum < 2 ^ 16 → inum ≢ 0 → ((k : ℕ) → name k < 256) → is_entry name dp' s' j ≡ true
  put-hit small nz plain =
      let taken : (inum == 0) ≡ false = ground arith in
      let same = namecmp-same name (name_at dp' s' j) (padded name) (λ k lt.
        let past : ltb (2 + k) 2 ≡ false = ground arith in
        let at : 16 * j + 2 + k ≡ 16 * j + (2 + k) = omega arith in
        let back : 2 + k - 2 ≡ k = omega arith in
        ap (byte dp' s') at ∙ put.written (2 + k) (omega arith) ∙ rw (past, back) refl) in
      rw (put-inum small, taken, same, namecmp-padded name plain) refl

  put-before : (k : ℕ) → k < j → is_entry name dp' s' k ≡ is_entry name dp s k
  put-before k lt =
      let far = put.room in
      let low = put.kept (16 * k) (omega arith) (inl (omega arith)) in
      let high = put.kept (16 * k + 1) (omega arith) (inl (omega arith)) in
      let same =
        namecmp-same name (name_at dp' s' k) (name_at dp s k)
          (λ i h. put.kept (16 * k + 2 + i) (omega arith) (inl (omega arith))) in
      rw (low, high, same) refl

module _ (sb : Superblock) (sized : IsSized sb) (dev : Devices) where
  -- What `writei` of the new entry leaves.
  Put-IsPut :
      (name de : ℕ → ℕ) (inum j r : ℕ) (dp dp' : Inode) (s s' : Blocks)
      → 16 * j + 16 ≤ max_bytes
      → Put sb sized dev dp s (new_entry de name inum) (16 * j) 16 r dp' s'
      → IsPut name inum j dp s dp' s'
  Put-IsPut name de inum j r dp dp' s s' room put = record {
    room = room;
    written = λ p lt.
        let back : 16 * j + p - 16 * j ≡ p = omega arith in
        let inside : (leb (16 * j) (16 * j + p) && ltb (16 * j + p) (16 * j + 16)) ≡ true =
          ground arith in
        let copied = strncpy-padded (entry_name de) name dirsiz (p - 2) in
        put.bytes (16 * j + p) (omega arith) ∙ rw (inside, back, copied) (by_part p lt);
    kept = λ p lt far.
        let outside : (leb (16 * j) p && ltb p (16 * j + 16)) ≡ false = ground arith in
        put.bytes p lt ∙ rw outside refl;
  }
    where
      by_part :
          (p : ℕ)
          → p < 16
          → (if ltb p 2
              then (if p == 0 then inum % 256 else inum / 256 % 256)
              else (if ltb (p - 2) dirsiz then padded name (p - 2) else entry_name de (p - 2)))
            ≡ (if ltb p 2
                then (if p == 0 then inum % 256 else inum / 256 % 256)
                else padded name (p - 2))
      by_part p lt = let short : ltb (p - 2) dirsiz ≡ true = ground arith in rw short refl

  -- The first free entry of a directory, or the one behind its last.
  abbrev pub slot_for : Inode → Blocks → ℕ
  slot_for dp s = hit_or (first (is_free dp s) (dp.size / 16) 0) (dp.size / 16)

  -- The directory after `dirlink`: the loop of `dirlookup` finds the new entry.
  pub record IsLinked (name : ℕ → ℕ) (inum : ℕ) (looked : ℕ → ℕ) (dp : Inode) (s : Blocks)
      (dp' : Inode) (s' : Blocks) : Type 0 where
    pub stored : IsStored sb sized dp' s'
    pub put : IsPut name inum (slot_for dp s) dp s dp' s'
    pub finds :
        dir_scan sb dev (dp'.size / entry_size + 1) name 0 looked dp' s'
        ≡ (found (16 * slot_for dp s) inum, dp', s')

  module _ (name : ℕ → ℕ) (inum : ℕ) (dp : Inode) (c : ℕ → Inode) (s : Blocks)
      (st : IsStored sb sized dp s) (kind : dp.kind ≡ t_dir) (whole : dp.size % entry_size ≡ 0)
      (plain : (k : ℕ) → name k < 256) (small : inum < 2 ^ 16) (nz : inum ≢ 0)
      (room : dp.size + 16 ≤ max_bytes)
      (none_yet : first (is_entry name dp s) (dp.size / entry_size) 0 ≡ none) where
    put-IsLinked :
        (looked de : ℕ → ℕ) (r : ℕ) (dp' : Inode) (s' : Blocks)
        → Put sb sized dev dp s (new_entry de name inum) (16 * slot_for dp s) 16 r dp' s'
        → IsLinked name inum looked dp s dp' s'
    put-IsLinked looked de r dp' s' put =
        let j = slot_for dp s in
        let n = dp'.size / 16 in
        let bound = hit_or_bound (is_free dp s) (dp.size / 16) in
        let at = Put-IsPut name de inum j r dp dp' s s' (omega arith) put in
        let size : dp'.size ≡ (if ltb dp.size (16 * j + 16) then 16 * j + 16 else dp.size) =
          put.length in
        let even : 16 * (0 + n) ≡ dp'.size = ground arith in
        let below : j < n = ground arith in
        let hit =
          first-hit (is_entry name dp' s') n j below
            (put-hit name inum j dp s dp' s' at small nz plain)
            (λ k lt.
              put-before name inum j dp s dp' s' at k lt
              ∙ first-none (is_entry name dp s) (dp.size / 16) 0 none_yet k (omega arith)
                  (omega arith)) in
        record {
          stored = put.stored;
          put = at;
          finds =
              dir_scan-first sb sized dev (n + 1) 0 n name looked dp' s' put.stored even
                (omega arith)
              ∙ rw (hit, put-inum name inum j dp s dp' s' at small) refl;
        }

    -- The name is not there, and the entry is written.
    dirlink-put_entry :
        (looked de : ℕ → ℕ)
        → (de' : ℕ → ℕ) × (dirlink sb dev name inum looked de dp c s
            ≡ put_entry sb dev (new_entry de' name inum) (16 * slot_for dp s) c dp s)
    unfolding dirlink looked_up
    dirlink-put_entry looked de =
        let n = dp.size / 16 in
        let (de', scan) =
          free_scan-first sb sized dev (n + 1) 0 n de dp s st (omega arith) (omega arith) in
        let ends : 0 + n ≡ n = omega arith in
        let from_start : free_scan sb dev (n + 1) 0 de dp s
            ≡ some (16 * slot_for dp s, de', dp, s) =
          scan ∙ ap (λ e. some (16 * hit_or (first (is_free dp s) n 0) e, de', dp, s)) ends in
        let missing_there =
          dirlookup_lem sb sized dev name looked dp c s st kind whole
          ∙ ap (λ f. with_dir (looked_up (at_entry dp s f) c) dp s) none_yet in
        let written : link_entry sb dev name inum de c dp s
            ≡ put_entry sb dev (new_entry de' name inum) (16 * slot_for dp s) c dp s =
          rw (link_entry, from_start) refl in
        (de', ap (after_lookup sb dev name inum de) missing_there ∙ written)

    -- A write in the place of a free entry does not panic.
    full-first :
        (src : ℕ → ℕ)
        → writei sb dev dp src (16 * slot_for dp s) entry_size s ≡ none
        → first (is_free dp s) (dp.size / 16) 0 ≡ none
    full-first src e = elim (Option-cases (first (is_free dp s) (dp.size / 16) 0)) [
      | inl full ↦ full
      | inr (m, hit) ↦
          let f = first-some (is_free dp s) (dp.size / 16) 0 m hit in
          let at : slot_for dp s ≡ m = ap (λ o. hit_or o (dp.size / 16)) hit in
          let (r, returns) =
            writei-returns sb sized dev dp s src (16 * slot_for dp s) entry_size st
              (omega (arith, f.below)) in
          cc (e, returns)
    ]

    -- `dirlink` of a name that is in no entry of a directory of whole entries, with room for one more
    -- within the largest size of a file, and of a number that is not 0 and fits 16 bits: it returns 0, and the number and the name stand in the first free
    -- entry, or behind the last one, where the loop of `dirlookup` finds them; no entry before it is
    -- changed, nor one after it. Or it panics, and no entry was free.
    pub dirlink_outcome :
        (looked de : ℕ → ℕ)
        → ((dirlink sb dev name inum looked de dp c s ≡ none)
            × (first (is_free dp s) (dp.size / 16) 0 ≡ none))
          ⊎ ((r : Inode × Blocks) × (dirlink sb dev name inum looked de dp c s
                ≡ some (0, c, r.0, r.1))
              × IsLinked name inum looked dp s r.0 r.1)
    dirlink_outcome looked de =
        let (de', linked) = dirlink-put_entry looked de in
        let src = new_entry de' name inum in
        let bound = hit_or_bound (is_free dp s) (dp.size / 16) in
        elim (Option-cases (writei sb dev dp src (16 * slot_for dp s) entry_size s)) [
          | inl e ↦ inl (linked ∙ rw (put_entry, e) refl, full-first src e)
          | inr ((r, dp', s'), e) ↦
              let put =
                writei-Put sb sized dev dp dp' s s' src (16 * slot_for dp s) 16 r st (omega arith)
                  (omega arith) e in
              inr (
                (dp', s'),
                linked ∙ rw (put_entry, e, put.result) refl,
                put-IsLinked looked de' r dp' s' put,
              )
        ]
