-- ===== src/Fs/Roundtrip.antt =====
-- What is written to a file is read back.
use os_fcfs_prirority.Base.{
  ℕ, zero, suc, ◌+◌, ◌-◌, ◌*◌, ◌/◌, ◌%◌, ◌^◌, ◌≤◌, ◌<◌, ◌≡◌, ◌≢◌, ◌⊎◌, inl, inr, refl, sym, ap, ◌∙◌,
  fun_ext, true, false, ◌&&◌, ◌||◌, some, Bool-cases, u32, update, arith, ltb, leb, ◌==◌,
  if◌then◌else◌,
}
use os_fcfs_prirority.Fs.{Blocks, bsize, Superblock}
use os_fcfs_prirority.Fs.Inode.{Inode, maxfile, min, copy, failed, write_loop}
use os_fcfs_prirority.Fs.Files.{grow_size, Devices, readi, writei}
use os_fcfs_prirority.Fs.Owner.{owned, slot_of, max_bytes, IsSized, IsOwner}
use os_fcfs_prirority.Fs.Contents.{byte, written-owned, written-IsOwner}
use os_fcfs_prirority.Fs.Reading.{bmap-there, Mapped}
use os_fcfs_prirority.Fs.Stored.{IsStored, readi_lem, writei-Put}

module _ (sb : Superblock) (sized : IsSized sb) (dev : Devices) where
  -- After a `writei` at an offset in a file that has returned, within the largest size of a file, a
  -- `readi` of as many bytes at the same offset returns with all of them, and they are those written.
  pub writei-readi :
      (ip ip' : Inode) (s s' : Blocks) (src dst : ℕ → ℕ) (off n r : ℕ)
      → IsStored sb sized ip s
      → off ≤ ip.size
      → off + n ≤ max_bytes
      → writei sb dev ip src off n s ≡ some (r, ip', s')
      → readi sb dev ip' dst off n s' ≡ some (n, λ i. if ltb i n then src i else dst i, ip', s')
  writei-readi ip ip' s s' src dst off n r st le room h =
      let put = writei-Put sb sized dev ip ip' s s' src off n r st le room h in
      let all : min n (ip'.size - off) ≡ n = ground (arith, put.length) in
      let e =
        readi_lem sb sized dev ip' s' dst off n put.stored (ground (arith, put.length))
          (omega arith) in
      e
      ∙ ap (λ m. some (m, (λ i. if ltb i m then byte ip' s' (off + i) else dst i), ip', s')) all
      ∙ ap (λ d. some (n, d, ip', s')) (fun_ext (λ i. back i put.bytes))
    where
      back :
          (i : ℕ)
          → ((p : ℕ)
              → p < max_bytes
              → byte ip' s' p
                ≡ (if leb off p && ltb p (off + n) then src (p - off) else byte ip s p))
          → (if ltb i n then byte ip' s' (off + i) else dst i) ≡ (if ltb i n then src i else dst i)
      back i bytes = elim (Bool-cases (ltb i n)) [
        | inr past ↦ rw past refl
        | inl inside ↦
            let hit : (leb off (off + i) && ltb (off + i) (off + n)) ≡ true = ground arith in
            let at : off + i - off ≡ i = omega arith in
            rw inside (bytes (off + i) (ground arith) ∙ rw (hit, at) refl)
      ]

  -- Where the blocks are there, the loop of `writei` returns.
  write_loop-returns :
      (fuel : ℕ) (ip : Inode) (s : Blocks) (off tot n : ℕ) (src : ℕ → ℕ)
      → off + n ≤ max_bytes
      → IsOwner sb (owned ip s) s
      → Mapped sb ip s off n
      → (r : Inode × Blocks) × (write_loop sb fuel ip off tot n src s ≡ some r)
  unfolding write_loop
  write_loop-returns zero ip s off tot n src room own mapped = ((ip, s), refl)
  write_loop-returns (suc fuel) ip s off tot n src room own mapped = elim (Bool-cases (n == 0)) [
    | inl done ↦ ((ip, s), rw done refl)
    | inr more ↦
        let m = min n (bsize - off % bsize) in
        let bn = off / bsize in
        let a = owned ip s (slot_of bn) in
        let there : a ≢ 0 = mapped off (omega arith) (ground arith) in
        let inside : bn < maxfile = ground arith in
        let e = bmap-there sb ip bn s inside there in
        let blk = copy (s a) (off % bsize) src tot m in
        let s1 = update s a blk in
        let le : m ≤ n = ground arith in
        let still = λ (j : ℕ) (hj : j ≤ maxfile).
          written-owned sb sized ip s bn a own inside refl there blk j hj in
        let (r, rest) =
          write_loop-returns fuel ip s1 (off + m) (tot + m) (n - m) src (omega arith)
            (written-IsOwner sb sized ip s bn a own inside refl there blk)
            (λ p lo hi z.
              mapped p (omega arith) (omega arith)
                (sym (still (slot_of (p / bsize)) (ground arith)) ∙ z)) in
        (r, rw (more, e) rest)
  ]

  -- `writei` into the bytes that a file has returns.
  pub writei-returns :
      (ip : Inode) (s : Blocks) (src : ℕ → ℕ) (off n : ℕ)
      → IsStored sb sized ip s
      → off + n ≤ ip.size
      → (r : Inode × Blocks) × (writei sb dev ip src off n s ≡ some (n, r.0, r.1))
  unfolding writei
  writei-returns ip s src off n st inside =
      let ok : (ltb ip.size off || ltb (u32 (off + n)) off) ≡ false = ground (arith, st.short) in
      let fits : ltb (maxfile * bsize) (u32 (off + n)) ≡ false = ground (arith, st.short) in
      let ((ip1, s1), e) =
        write_loop-returns n ip s off 0 n src (omega (arith, st.short)) st.own
          (λ p lo hi. st.filled p (omega arith)) in
      (grow_size sb ip1 off n s1, rw (st.plain, ok, fits, e) refl)

  -- `writei` past the end of a file, or past the largest size of one, fails and changes nothing.
  pub writei_refuses :
      (ip : Inode) (s : Blocks) (src : ℕ → ℕ) (off n : ℕ)
      → IsStored sb sized ip s
      → off + n < 2 ^ 32
      → (ip.size < off) ⊎ (max_bytes < off + n)
      → writei sb dev ip src off n s ≡ some (failed, ip, s)
  unfolding writei
  writei_refuses ip s src off n st wrap (inl past) =
      let no_room : (ltb ip.size off || ltb (u32 (off + n)) off) ≡ true = ground arith in
      rw (st.plain, no_room) refl
  writei_refuses ip s src off n st wrap (inr large) =
      let too_large : ltb (maxfile * bsize) (u32 (off + n)) ≡ true = ground arith in
      ground (arith, st.plain, too_large)
