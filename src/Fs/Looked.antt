-- ===== src/Fs/Looked.antt =====
-- What `dirlookup` finds in a directory, by its entries and the table of inodes.
use os_fcfs_prirority.Base.{
  ℕ, zero, suc, ltb, ◌≤◌, ◌+◌, ◌*◌, ◌/◌, ◌%◌, ◌<◌, ◌≡◌, ◌≢◌, ◌↔◌, inl, inr, refl, sym, ◌∙◌, subst,
  true, false, Option, none, some, first, first-some, first-none, IsFirst, Bool-cases, Option-cases,
  arith, if◌then◌else◌,
}
use os_fcfs_prirority.Cstring.Names.{ended, padded, strncmp_iff, strncmp-same}
use os_fcfs_prirority.Fs.{Blocks, Superblock}
use os_fcfs_prirority.Fs.Inode.{Inode}
use os_fcfs_prirority.Fs.Files.{Devices}
use os_fcfs_prirority.Fs.Owner.{max_bytes, IsSized}
use os_fcfs_prirority.Fs.Contents.{byte}
use os_fcfs_prirority.Fs.Stored.{IsStored}
use os_fcfs_prirority.Fs.Cache.{ninode, iget}
use os_fcfs_prirority.Fs.Refs
use os_fcfs_prirority.Fs.Refs.{IsSingle, IsGot, iget_outcome}
use os_fcfs_prirority.Fs.Dir.{dirsiz, t_dir, entry_size, namecmp, looked_up, with_dir, dirlookup}
use os_fcfs_prirority.Fs.Lookup.{inum_at, name_at, is_entry, at_entry, dirlookup_lem}

-- Entry `k` is in use and has the name, up to a NUL or to its 14 bytes.
abbrev pub HasName : (ℕ → ℕ) → Inode → Blocks → ℕ → Type 0
HasName name dp s k =
    (inum_at dp s k ≢ 0) × ((i : ℕ) → i < dirsiz → padded name i ≡ padded (name_at dp s k) i)

-- No entry before `k` has the name.
abbrev pub NoneBefore : (ℕ → ℕ) → Inode → Blocks → ℕ → Type 0
NoneBefore name dp s k = (j : ℕ) → j < k → ¬ HasName name dp s j

-- How `dirlookup` ends: at the first entry with the name, with its offset and the table's entry for its
-- inode, which has a reference more; at no entry; or in the panic of `iget`, where the inode of the
-- first entry with the name is not in the table, which is full.
pub data Looked (name : ℕ → ℕ) (dp : Inode) (c : ℕ → Inode) (s : Blocks)
    : Option (Option (ℕ × ℕ) × (ℕ → Inode) × Inode × Blocks) → Type 0 where
  present :
      (k i : ℕ) (c' : ℕ → Inode)
      → k < dp.size / entry_size
      → HasName name dp s k
      → NoneBefore name dp s k
      → IsGot (inum_at dp s k) c i c'
      → Looked name dp c s (some (some (i, 16 * k), c', dp, s))
  absent : NoneBefore name dp s (dp.size / entry_size) → Looked name dp c s (some (none, c, dp, s))
  crowded :
      (k : ℕ)
      → k < dp.size / entry_size
      → HasName name dp s k
      → NoneBefore name dp s k
      → ((j : ℕ) → j < ninode → ((c j).ref ≢ 0) × ((c j).inum ≢ inum_at dp s k))
      → Looked name dp c s none

ended-same : (t u : ℕ → ℕ) (i : ℕ) → ((j : ℕ) → j < i → t j ≡ u j) → ended t i ≡ ended u i
ended-same t u zero same = refl
ended-same t u (suc i) same =
    rw (ended-same t u i (λ j lt. same j (omega arith)), same i (omega arith)) refl

padded-same : (t u : ℕ → ℕ) (i : ℕ) → ((j : ℕ) → j < suc i → t j ≡ u j) → padded t i ≡ padded u i
padded-same t u i same =
    rw (ended-same t u i (λ j lt. same j (omega arith)), same i (omega arith)) refl

-- The first 14 bytes.
abbrev field : (ℕ → ℕ) → ℕ → ℕ
field q i = if ltb i dirsiz then q i else 0

field_at : (q : ℕ → ℕ) (i : ℕ) → i < dirsiz → field q i ≡ q i
field_at q i lt = let inside : ltb i dirsiz ≡ true = ground arith in rw inside refl

namecmp-padded_iff :
    (name q : ℕ → ℕ)
    → ((k : ℕ) → name k < 256)
    → ((k : ℕ) → k < dirsiz → q k < 256)
    → (namecmp name q ≡ 0) ↔ ((i : ℕ) → i < dirsiz → padded name i ≡ padded q i)
unfolding namecmp
namecmp-padded_iff name q plain bytes =
    let same = strncmp-same name q (field q) dirsiz (λ k lt. sym (field_at q k lt)) in
    let test = strncmp_iff name (field q) dirsiz plain (λ k. small k) in
    (
      (λ h i lt. test.0 (sym same ∙ h) i lt ∙ in_field i lt),
      (λ names. same ∙ test.1 (λ i lt. names i lt ∙ sym (in_field i lt))),
    )
  where
    small : (k : ℕ) → field q k < 256
    small k = elim (Bool-cases (ltb k dirsiz)) [
      | inl inside ↦ rw inside (bytes k (ground arith))
      | inr outside ↦ rw outside (omega arith)
    ]

    in_field : (i : ℕ) → i < dirsiz → padded (field q) i ≡ padded q i
    in_field i lt = padded-same (field q) q i (λ j hj. field_at q j (omega arith))

module _ (name : ℕ → ℕ) (dp : Inode) (c : ℕ → Inode) (s : Blocks) (plain : (k : ℕ) → name k < 256)
    (short : dp.size ≤ max_bytes) (bytes : (p : ℕ) → p < max_bytes → byte dp s p < 256) where
  is_entry_iff :
      (k : ℕ) → k < dp.size / entry_size → (is_entry name dp s k ≡ true) ↔ HasName name dp s k
  is_entry_iff k lt =
      let same =
        namecmp-padded_iff name (name_at dp s k) plain
          (λ i hi. bytes (16 * k + 2 + i) (omega arith)) in
      (
        (λ h. (ground arith, same.0 (ground arith))),
        (λ (there, names). let equal = same.1 names in ground (arith, equal)),
      )

  none_before :
      (k : ℕ)
      → k ≤ dp.size / entry_size
      → ((j : ℕ) → j < k → is_entry name dp s j ≡ false)
      → NoneBefore name dp s k
  none_before k le misses j lt has =
      let hit = (is_entry_iff j (omega arith)).1 has in cc (hit, misses j lt)

  -- What `iget` makes of the first entry with the name.
  found-Looked :
      (k : ℕ)
      → IsSingle c
      → IsFirst (is_entry name dp s) 0 (dp.size / entry_size) k
      → Looked name dp c s (with_dir (looked_up (at_entry dp s (some k)) c) dp s)
  unfolding looked_up
  found-Looked k single f =
      let has = (is_entry_iff k (omega (arith, f.below))).0 f.hit in
      let before = none_before k (omega (arith, f.below)) (λ j lt. f.misses j (omega arith) lt) in
      let got = iget_outcome (inum_at dp s k) c single in
      elim (Option-cases (iget (inum_at dp s k) c)) [
        | inl e ↦
            let opened : looked_up (at_entry dp s (some k)) c ≡ none = rw (looked_up, e) refl in
            subst (λ r. Looked name dp c s (with_dir r dp s)) (sym opened)
              (crowded k (omega (arith, f.below)) has before
                (subst (Refs.Outcome (inum_at dp s k) c) e got))
        | inr ((i, c'), e) ↦
            let opened : looked_up (at_entry dp s (some k)) c ≡ some (some (i, 16 * k), c') =
              rw (looked_up, e) refl in
            subst (λ r. Looked name dp c s (with_dir r dp s)) (sym opened)
              (present k i c' (omega (arith, f.below)) has before
                (subst (Refs.Outcome (inum_at dp s k) c) e got))
      ]

-- `dirlookup` in a directory of whole entries, of bytes, over a table with one entry at most for an
-- inode, ends in one of these ways.
pub dirlookup_outcome :
    (sb : Superblock) (sized : IsSized sb) (dev : Devices) (name de : ℕ → ℕ) (dp : Inode)
    (c : ℕ → Inode) (s : Blocks)
    → ((k : ℕ) → name k < 256)
    → ((p : ℕ) → p < max_bytes → byte dp s p < 256)
    → IsStored sb sized dp s
    → dp.kind ≡ t_dir
    → dp.size % entry_size ≡ 0
    → IsSingle c
    → Looked name dp c s (dirlookup sb dev name de dp c s)
unfolding looked_up
dirlookup_outcome sb sized dev name de dp c s plain bytes st kind whole single =
    let n = dp.size / entry_size in
    let scan = dirlookup_lem sb sized dev name de dp c s st kind whole in
    subst (Looked name dp c s) (sym scan) (elim (Option-cases (first (is_entry name dp s) n 0)) [
      | inl e ↦ rw e (
          absent (
            none_before name dp c s plain st.short bytes n (omega arith)
              (λ j lt. first-none (is_entry name dp s) n 0 e j (omega arith) (omega arith))))
      | inr (k, e) ↦ rw e (
          found-Looked name dp c s plain st.short bytes k single
            (first-some (is_entry name dp s) n 0 k e))
    ])
