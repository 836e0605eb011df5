-- ===== src/Fs/Truncate.antt =====
-- `itrunc`: the blocks of an inode go back to the free map.
use os_fcfs_prirority.Base.{
  ℕ, ◌+◌, ◌/◌, ◌%◌, ◌≤◌, ◌<◌, ◌≡◌, ◌≢◌, inl, inr, refl, sym, ap, ap₂, ◌∙◌, Bool, true, false, not,
  ◌&&◌, ◌||◌, some, Bool-cases, for_range, arith, leb, ◌==◌, if◌then◌else◌,
}
use os_fcfs_prirority.Fs.{Blocks, bpb, Superblock}
use os_fcfs_prirority.Fs.Bits.{has_bit}
use os_fcfs_prirority.Fs.Alloc.{used, IsData}
use os_fcfs_prirority.Fs.Inode.{Inode, ndirect, nindirect, maxfile}
use os_fcfs_prirority.Fs.Files.{iblock, iupdate, free_block, free_entry, itrunc}
use os_fcfs_prirority.Fs.Owner.{owned, IsSized, IsOwner}
use os_fcfs_prirority.Fs.Slots.{get_word-same}
use os_fcfs_prirority.Fs.Bmap.{entry-at}
use os_fcfs_prirority.Fs.Dinode.{iupdate-Outside}
use os_fcfs_prirority.Fs.Release.{
  has, Released, has-append, not_has, has-gaps, has-shift, free_block-Released, free_range,
}

or_false : (p : Bool) → (p || false) ≡ p
or_false true = refl
or_false false = refl

module _ (sb : Superblock) where
  -- The set that `itrunc` frees, in the order of its loops.
  freed_set :
      (f : ℕ → ℕ) (b : ℕ)
      → has f 0 141 b ≡ (has f 0 12 b || ((f 12 == b && not (b == 0)) || has f 13 128 b))
  freed_set f b = has-append f 12 0 129 b

  three : (u p q r : Bool) → (((u && not p) && not r) && not q) ≡ (u && not (p || (q || r)))
  three false p q r = refl
  three true true q r = refl
  three true false true true = refl
  three true false true false = refl
  three true false false true = refl
  three true false false false = refl

  module _ (sized : IsSized sb) (ip : Inode) (s : Blocks) (own : IsOwner sb (owned ip s) s) where
    busy :
        (i : ℕ)
        → i ≤ maxfile
        → owned ip s i ≢ 0
        → (used sb s (owned ip s i) ≡ true) × (owned ip s i < sb.size)
    busy i hi there = (own.taken i hi there, own.inside i hi)

    -- The loop over the direct blocks.
    direct_part :
        (t : Blocks) × (for_range ndirect 0 (λ i u. free_block sb (ip.addrs i) u) (some s) ≡ some t)
        × Released sb s (has (owned ip s) 0 12) t
    direct_part =
        free_range sb 12 0 s (owned ip s) (λ i u. free_block sb (ip.addrs i) u)
          (λ i t lo hi same. let direct : leb i ndirect ≡ true = ground arith in rw direct refl)
          (λ i lo hi there. busy i (omega arith) there)
          (λ i j a b c d ne there. own.apart i j (omega arith) (omega arith) ne there)

    -- The blocks after the direct ones are none of those.
    not_direct : (j : ℕ) → 12 ≤ j → j ≤ maxfile → has (owned ip s) 0 12 (owned ip s j) ≡ false
    not_direct j lo hi =
        not_has (owned ip s) 0 12 (owned ip s j)
          (λ i a b there. own.apart i j (omega arith) hi (omega arith) there)

    sets :
        (b : ℕ) (u u1 u2 : Bool)
        → u2 ≡ (u1 && not (has (λ j. owned ip s (13 + j)) 0 128 b))
        → u1 ≡ (u && not (has (owned ip s) 0 12 b))
        → (u2 && not (ip.addrs ndirect == b && not (b == 0)))
          ≡ (u && not (has (owned ip s) 0 141 b))
    sets b u u1 u2 m2 m1 =
        rw (freed_set (owned ip s) b, m2, m1, has-shift (owned ip s) 13 0 128 b)
          (three u (has (owned ip s) 0 12 b) (ip.addrs ndirect == b && not (b == 0))
            (has (owned ip s) 13 128 b))

    -- The loop over the indirect block `x`, and that block.
    indirect_part :
        (s1 : Blocks)
        → Released sb s (has (owned ip s) 0 12) s1
        → ip.addrs ndirect ≢ 0
        → (t : Blocks) × (free_block sb
              (ip.addrs ndirect)
              (for_range nindirect 0 (free_entry sb (ip.addrs ndirect)) (some s1))
            ≡ some t)
          × Released sb s (has (owned ip s) 0 141) t
    unfolding free_entry
    indirect_part s1 r1 there =
        let x = ip.addrs ndirect in
        let f = λ (j : ℕ). owned ip s (13 + j) in
        let after = own.after ndirect (omega arith) there in
        let (s2, e2, r2) : (u : Blocks) × (for_range nindirect 0 (free_entry sb x) (some s1)
              ≡ some u)
            × Released sb s1 (has f 0 128) u =
          free_range sb 128 0 s1 f (free_entry sb x)
            (λ i t lo hi same.
              ap (λ v. free_block sb v (some t))
                (get_word-same s t x i (λ o. same x o after ∙ r1.rest x o after)
                  ∙ sym (entry-at sb ip s i there)))
            (λ i lo hi some_block.
              let (u, lt) = busy (13 + i) (omega arith) some_block in
              let kept = not_direct (13 + i) (omega arith) (omega arith) in
              (r1.map (f i) ∙ ap₂ (λ p q. p && not q) u kept, lt))
            (λ i j a b c d ne some_block.
              own.apart (13 + i) (13 + j) (omega arith) (omega arith) (omega arith) some_block) in
        let still : used sb s2 x ≡ true =
          r2.map x
          ∙ ap₂ (λ p q. p && not q)
              (r1.map x
                ∙ ap₂ (λ p q. p && not q) (own.taken ndirect (omega arith) there)
                    (not_direct ndirect (omega arith) (omega arith)))
              (not_has f 0 128 x (λ i lo hi some_block.
                own.apart (13 + i) ndirect (omega arith) (omega arith) (omega arith) some_block)) in
        let (t, e, r) =
          free_block-Released sb x s2 (λ _. (still, own.inside ndirect (omega arith))) in
        let all : (b : ℕ) → used sb t b ≡ (used sb s b && not (has (owned ip s) 0 141 b)) =
          λ b. r.map b ∙ sets b (used sb s b) (used sb s1 b) (used sb s2 b) (r2.map b) (r1.map b) in
        (
          t,
          ap (free_block sb x) e2 ∙ e,
          record { map = all; rest = λ b o d. r.rest b o d ∙ r2.rest b o d ∙ r1.rest b o d },
        )

    -- With no indirect block, the direct ones are all.
    no_indirect :
        (t : Blocks)
        → Released sb s (has (owned ip s) 0 12) t
        → ip.addrs ndirect ≡ 0
        → Released sb s (has (owned ip s) 0 141) t
    no_indirect t r gap = record {
      map = λ b. r.map b ∙ ap (λ p. used sb s b && not p) (same_set b);
      rest = r.rest;
    }
      where
        same_set : (b : ℕ) → has (owned ip s) 0 12 b ≡ has (owned ip s) 0 141 b
        same_set b = sym (
            has-append (owned ip s) 12 0 129 b
            ∙ ap (λ p. has (owned ip s) 0 12 b || p)
                (has-gaps (owned ip s) 12 129 b (λ i lo hi. ground arith))
            ∙ or_false (has (owned ip s) 0 12 b))

    abbrev pub emptied : Inode
    emptied = record ip { addrs = λ i. if leb i ndirect then 0 else ip.addrs i; size = 0 }

    updated_used :
        iblock sb ip.inum < sb.bmapstart
        → (t : Blocks) (b : ℕ) → used sb (iupdate sb emptied t) b ≡ used sb t b
    unfolding used
    updated_used placed t b =
        ap (λ v. has_bit v (b % 8))
          (iupdate-Outside sb emptied t (b / bpb + sb.bmapstart) (b % bpb / 8) (inl (omega arith)))

    updated_rest :
        iblock sb ip.inum < sb.bmapstart
        → (t : Blocks) (b o : ℕ) → IsData sb b
        → iupdate sb emptied t b o ≡ t b o
    updated_rest placed t b o after = iupdate-Outside sb emptied t b o (inl (omega arith))

    itrunc_direct :
        (t : Blocks)
        → (ip.addrs ndirect == 0) ≡ true
        → for_range ndirect 0 (λ i u. free_block sb (ip.addrs i) u) (some s) ≡ some t
        → itrunc sb ip s ≡ some (emptied, iupdate sb emptied t)
    unfolding itrunc
    itrunc_direct t gap e = rw (itrunc, gap, e) refl

    itrunc_both :
        (s1 t : Blocks)
        → (ip.addrs ndirect == 0) ≡ false
        → for_range ndirect 0 (λ i u. free_block sb (ip.addrs i) u) (some s) ≡ some s1
        → free_block sb
            (ip.addrs ndirect)
            (for_range nindirect 0 (free_entry sb (ip.addrs ndirect)) (some s1))
          ≡ some t
        → itrunc sb ip s ≡ some (emptied, iupdate sb emptied t)
    unfolding itrunc
    itrunc_both s1 t there e1 e = rw (itrunc, there, e1, e) refl

    -- `itrunc` of an inode that has its blocks, and whose own block on the disk comes before the free
    -- map, returns: its blocks are free in the map, each of the others is free or in use as before, no
    -- data block is changed, and the inode has no blocks and no bytes.
    pub itrunc_frees :
        iblock sb ip.inum < sb.bmapstart
        → (t : Blocks) × (itrunc sb ip s ≡ some (emptied, t))
          × ((b : ℕ) → used sb t b ≡ (used sb s b && not (has (owned ip s) 0 141 b)))
          × ((b o : ℕ) → IsData sb b → t b o ≡ s b o)
    itrunc_frees placed =
        let (s1, e1, r1) = direct_part in
        elim (Bool-cases (ip.addrs ndirect == 0)) [
          | inl gap ↦
              let r = no_indirect s1 r1 (ground arith) in
              (
                iupdate sb emptied s1,
                itrunc_direct s1 gap e1,
                λ b. updated_used placed s1 b ∙ r.map b,
                λ b o after. updated_rest placed s1 b o after ∙ r.rest b o after,
              )
          | inr there ↦
              let (t, e, r) = indirect_part s1 r1 (ground arith) in
              (
                iupdate sb emptied t,
                itrunc_both s1 t there e1 e,
                λ b. updated_used placed t b ∙ r.map b,
                λ b o after. updated_rest placed t b o after ∙ r.rest b o after,
              )
        ]
