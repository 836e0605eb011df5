-- ===== src/Fs/Saved.antt =====
-- `writei`: the file after it, and the inode on the disk.
use os_fcfs_prirority.Base.{
  ℕ, zero, suc, ◌+◌, ◌*◌, ◌%◌, ◌≤◌, ◌<◌, ◌≡◌, inl, inr, refl, ap, subst, true, false, ◌&&◌, ◌||◌,
  some, Option-cases, Bool-cases, some_inj, u32, for_range, arith, ltb, if◌then◌else◌,
}
use os_fcfs_prirority.Fs.{Blocks, bsize, Superblock, put, put_word, put_short}
use os_fcfs_prirority.Fs.Inode.{Inode, ndirect, maxfile, write_loop}
use os_fcfs_prirority.Fs.Files.{iblock, iupdate, grow_size, Devices, writei}
use os_fcfs_prirority.Fs.Owner.{max_bytes, IsSized}
use os_fcfs_prirority.Fs.Writing.{Wrote, write_loop-Wrote}
use os_fcfs_prirority.Fs.Stored.{IsStored, Put, writei-Put}

-- What `iupdate` leaves in a byte depends on that byte alone.
module _ (s t : Blocks) (c o : ℕ) where
  put_word-near : (b i v : ℕ) → s c o ≡ t c o → put_word s b i v c o ≡ put_word t b i v c o
  unfolding put_word put
  put_word-near b i v e = rw e refl

  put_short-near : (b i v : ℕ) → s c o ≡ t c o → put_short s b i v c o ≡ put_short t b i v c o
  unfolding put_short put
  put_short-near b i v e = rw e refl

words-near :
    (n i b w : ℕ) (f : ℕ → ℕ) (s t : Blocks) (c o : ℕ)
    → s c o ≡ t c o
    → for_range n i (λ k u. put_word u b (w + k) (f k)) s c o
      ≡ for_range n i (λ k u. put_word u b (w + k) (f k)) t c o
unfolding for_range
words-near zero i b w f s t c o e = e
words-near (suc n) i b w f s t c o e =
    words-near n (suc i) b w f (put_word s b (w + i) (f i)) (put_word t b (w + i) (f i)) c o
      (put_word-near s t c o b (w + i) (f i) e)

module _ (sb : Superblock) where
  iupdate-near :
      (ip : Inode) (s t : Blocks) (c o : ℕ)
      → s c o ≡ t c o
      → iupdate sb ip s c o ≡ iupdate sb ip t c o
  unfolding iupdate
  iupdate-near ip s t c o e =
      let b = iblock sb ip.inum in
      let q = ip.inum % 8 in
      words-near (ndirect + 1) 0 b (16 * q + 3) ip.addrs _ _ c o (
        put_word-near _ _ c o b (16 * q + 2) ip.size (
          put_short-near _ _ c o b (32 * q + 3) ip.nlink (
            put_short-near _ _ c o b (32 * q + 2) ip.minor (
              put_short-near _ _ c o b (32 * q + 1) ip.major
                (put_short-near s t c o b (32 * q) ip.kind e)))))

  -- The blocks before the map: where the file grew, its inode is written as it is in memory; all else is
  -- as it was.
  abbrev pub IsSaved : Inode → Blocks → ℕ → ℕ → Inode → Blocks → Type 0
  IsSaved ip s off n ip' s' =
      (b o : ℕ)
      → b < sb.bmapstart
      → s' b o ≡ (if ltb ip.size (off + n) then iupdate sb ip' s b o else s b o)

  module _ (sized : IsSized sb) (dev : Devices) where
    grown-IsSaved :
        (ip ip1 : Inode) (s s1 : Blocks) (src : ℕ → ℕ) (off n : ℕ)
        → off ≤ ip.size
        → Wrote sb sized ip s off 0 n src ip1 s1
        → IsSaved ip s off n (grow_size sb ip1 off n s1).0 (grow_size sb ip1 off n s1).1
    unfolding grow_size
    grown-IsSaved ip ip1 s s1 src off n le w =
        let size1 : ip1.size ≡ ip.size = ap (λ (r : Inode). r.size) w.only in
        elim (Bool-cases (ltb 0 n && ltb ip1.size (off + n))) [
          | inl longer ↦
              let grew : ltb ip.size (off + n) ≡ true = ground arith in
              rw longer (λ b o lt.
                rw grew (iupdate-near (record ip1 { size = off + n }) s1 s b o (w.meta b o lt)))
          | inr not_longer ↦
              let same : ltb ip.size (off + n) ≡ false = ground arith in
              rw not_longer (λ b o lt. rw same (w.meta b o lt))
        ]

    writei-IsSaved :
        (ip ip' : Inode) (s s' : Blocks) (src : ℕ → ℕ) (off n r : ℕ)
        → IsStored sb sized ip s
        → off ≤ ip.size
        → off + n ≤ max_bytes
        → writei sb dev ip src off n s ≡ some (r, ip', s')
        → IsSaved ip s off n ip' s'
    unfolding writei
    writei-IsSaved ip ip' s s' src off n r st le room h =
        let wrap : u32 (off + n) ≡ off + n = omega (arith, room) in
        let ok : (ltb ip.size off || ltb (off + n) off) ≡ false = ground arith in
        let fits : ltb (maxfile * bsize) (off + n) ≡ false = ground arith in
        elim (Option-cases (write_loop sb n ip off 0 n src s)) [
          | inl e ↦ cc (rw (st.plain, wrap, ok, fits, e) at h)
          | inr ((ip1, s1), e) ↦
              subst (λ t. IsSaved ip s off n t.1 t.2)
                (some_inj (rw (st.plain, wrap, ok, fits, e) at h))
                (grown-IsSaved ip ip1 s s1 src off n le
                  (write_loop-Wrote sb sized n ip ip1 s s1 off 0 n src (omega arith) room st.own e))
        ]

    -- A `writei` that returns, at an offset in a file and within the largest size of one: it returns
    -- with `n`; the file's blocks are still data blocks, apart from each other and in use in the map,
    -- and it is as long as the bytes need; those are at the offset, and every other byte is as it was.
    -- Of the blocks before the map none is changed but the inode's, where the file has grown, and it
    -- is written there as it is in memory.
    pub writei_outcome :
        (ip ip' : Inode) (s s' : Blocks) (src : ℕ → ℕ) (off n r : ℕ)
        → IsStored sb sized ip s
        → off ≤ ip.size
        → off + n ≤ max_bytes
        → writei sb dev ip src off n s ≡ some (r, ip', s')
        → Put sb sized dev ip s src off n r ip' s' × IsSaved ip s off n ip' s'
    writei_outcome ip ip' s s' src off n r st le room h = (
      writei-Put sb sized dev ip ip' s s' src off n r st le room h,
      writei-IsSaved ip ip' s s' src off n r st le room h,
    )
