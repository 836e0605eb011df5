-- ===== src/Fs/Drop.antt =====
-- `iput`: the last reference to an inode that has no links.
use os_fcfs_prirority.Base.{
  ℕ, ◌+◌, ◌-◌, ◌*◌, ◌/◌, ◌%◌, ◌<◌, ◌≡◌, ◌≢◌, inl, refl, sym, ap, subst, ◌∙◌, true, false, not, ◌&&◌,
  some, update_self, update_ne, arith, leb, ◌==◌, if◌then◌else◌,
}
use os_fcfs_prirority.Fs.{Blocks, bpb, Superblock, get_short}
use os_fcfs_prirority.Fs.Bits.{has_bit}
use os_fcfs_prirority.Fs.Alloc.{used, IsData}
use os_fcfs_prirority.Fs.Inode.{Inode, ndirect}
use os_fcfs_prirority.Fs.Files.{ipb, iblock, iupdate}
use os_fcfs_prirority.Fs.Owner.{owned, IsSized, IsOwner}
use os_fcfs_prirority.Fs.Update.{IsFitting, put_all, put_all-short}
use os_fcfs_prirority.Fs.Dinode.{iupdate-Outside}
use os_fcfs_prirority.Fs.Release.{has}
use os_fcfs_prirority.Fs.Truncate.{itrunc_frees}
use os_fcfs_prirority.Fs.Cache.{unref, iput}

module _ (sb : Superblock) (sized : IsSized sb) where
  -- What a call of `iput` of entry `i` leaves, where it frees the inode.
  pub record IsDropped (c : ℕ → Inode) (s : Blocks) (i : ℕ) (c' : ℕ → Inode) (s' : Blocks)
      : Type 0 where
    pub entry : ((c' i).ref ≡ 0) × ((c' i).valid ≡ false)
    pub others : (j : ℕ) → j ≢ i → c' j ≡ c j
    pub vacant : get_short s' (iblock sb (c i).inum) (32 * ((c i).inum % ipb)) ≡ 0
    pub map : (b : ℕ) → used sb s' b ≡ (used sb s b && not (has (owned (c i) s) 0 141 b))
    pub rest : (b o : ℕ) → IsData sb b → s' b o ≡ s b o

  freed_kind :
      (ip : Inode) (s : Blocks)
      → IsFitting ip
      → ip.kind ≡ 0
      → get_short (iupdate sb ip s) (iblock sb ip.inum) (32 * (ip.inum % ipb)) ≡ 0
  unfolding iupdate
  freed_kind ip s fits z =
      let b = iblock sb ip.inum in
      let q = ip.inum % ipb in
      let first : 32 * q + 0 ≡ 32 * q = omega arith in
      subst (λ k. get_short (put_all b q ip s) b k ≡ 0) first
        (put_all-short b q ip s fits 0 (omega arith) ∙ z)

  kept_used :
      (ip : Inode) (s : Blocks) (b : ℕ)
      → iblock sb ip.inum < sb.bmapstart
      → used sb (iupdate sb ip s) b ≡ used sb s b
  unfolding used
  kept_used ip s b placed =
      ap (λ v. has_bit v (b % 8))
        (iupdate-Outside sb ip s (b / bpb + sb.bmapstart) (b % bpb / 8) (inl (omega arith)))

  -- `iput` of the last reference to a valid inode without links, which has its blocks, and whose place
  -- on the disk comes before the free map, returns: the entry is empty and not valid, the inode is free
  -- on the disk, its blocks are free in the map, every other block is free or in use as before, and no
  -- other entry and no data block is changed.
  pub iput_frees :
      (i : ℕ) (c : ℕ → Inode) (s : Blocks)
      → (c i).valid ≡ true
      → (c i).nlink ≡ 0
      → (c i).ref ≡ 1
      → IsOwner sb (owned (c i) s) s
      → IsFitting (c i)
      → iblock sb (c i).inum < sb.bmapstart
      → (c' : ℕ → Inode) × (s' : Blocks) × (iput sb i c s ≡ some (c', s')) × IsDropped c s i c' s'
  unfolding iput
  iput_frees i c s valid unlinked last own fits placed =
      let (t, e, map, rest) = itrunc_frees sb sized (c i) s own placed in
      let test : ((c i).valid && ((c i).nlink == 0 && (c i).ref == 1)) ≡ true = ground arith in
      let freed : Inode = record (c i) {
        addrs = λ k. if leb k ndirect then 0 else (c i).addrs k;
        size = 0;
        kind = 0;
      } in
      let gone : Inode = record freed { valid = false } in
      (
        unref sb i gone c,
        iupdate sb freed t,
        rw (test, e) refl,
        record {
          entry = (
            ap (λ (r : Inode). r.ref) (update_self c i (record gone { ref = gone.ref - 1 }))
                ∙ omega (arith, last),
            ap (λ (r : Inode). r.valid) (update_self c i (record gone { ref = gone.ref - 1 })),
          );
          others = λ j ne. update_ne c i _ j (λ q. ne (sym q));
          vacant =
              freed_kind freed t
                (record {
                  kind = omega arith;
                  major = fits.major;
                  minor = fits.minor;
                  nlink = fits.nlink;
                  size = omega arith;
                  addrs = λ k. ground (arith, fits.addrs k);
                })
                refl;
          map = λ b. kept_used freed t b placed ∙ map b;
          rest = λ b o after. iupdate-Outside sb freed t b o (inl (omega arith)) ∙ rest b o after;
        },
      )
