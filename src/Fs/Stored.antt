-- ===== src/Fs/Stored.antt =====
-- A file as a sequence of bytes: `readi` and `writei` read and write it.
use os_fcfs_prirority.Base.{
  ℕ, ◌+◌, ◌-◌, ◌*◌, ◌/◌, ◌%◌, ◌^◌, ◌≤◌, ◌<◌, ◌≡◌, ◌≢◌, inl, inr, refl, sym, ap, ◌∙◌, subst, fun_ext,
  Bool, false, ◌&&◌, ◌||◌, some, Option-cases, Bool-cases, some_inj, u32, arith, ltb, leb, ◌==◌,
  if◌then◌else◌,
}
use os_fcfs_prirority.Fs.{Blocks, bpb, bsize, Superblock}
use os_fcfs_prirority.Fs.Bits.{has_bit}
use os_fcfs_prirority.Fs.Alloc.{used}
use os_fcfs_prirority.Fs.Inode.{Inode, ndirect, maxfile, min, write_loop}
use os_fcfs_prirority.Fs.Files.{t_dev, iblock, iupdate, grow_size, Devices, readi, writei}
use os_fcfs_prirority.Fs.Owner.{owned, slot_of, max_bytes, IsSized, IsOwner}
use os_fcfs_prirority.Fs.Slots.{get_word-same}
use os_fcfs_prirority.Fs.Contents.{byte, moved-IsOwner}
use os_fcfs_prirority.Fs.Reading.{fetched, read_loop-fetched}
use os_fcfs_prirority.Fs.Writing.{Wrote, write_loop-Wrote}
use os_fcfs_prirority.Fs.Dinode.{iupdate-Outside}

module _ (sb : Superblock) (sized : IsSized sb) where
  -- A file or directory: it has its blocks, and one for each byte of its size.
  pub record IsStored (ip : Inode) (s : Blocks) : Type 0 where
    pub own : IsOwner sb (owned ip s) s
    pub plain : (ip.kind == t_dev) ≡ false
    pub short : ip.size ≤ max_bytes
    pub filled : (p : ℕ) → p < ip.size → owned ip s (slot_of (p / bsize)) ≢ 0
    pub placed : iblock sb ip.inum < sb.bmapstart

  -- Writing an inode changes no block of the map or the data.
  module _ (ip : Inode) (s s' : Blocks) (own : IsOwner sb (owned ip s) s)
      (same : (c o : ℕ) → sb.bmapstart ≤ c → s' c o ≡ s c o) where
    kept-owned : (j : ℕ) → j ≤ maxfile → owned ip s' j ≡ owned ip s j
    kept-owned j hj = elim (Bool-cases (ip.addrs ndirect == 0)) [
      | inl gap ↦ rw gap refl
      | inr there ↦
          let after = own.after ndirect (omega arith) (ground arith) in
          rw there (
            ap (λ v. if leb j ndirect then ip.addrs j else v)
              (get_word-same s s' (ip.addrs ndirect) (j - 13)
                (λ o. same (ip.addrs ndirect) o (omega arith))))
    ]

    kept-used : (b : ℕ) → b < sb.size → used sb s' b ≡ used sb s b
    unfolding used
    kept-used b lt =
        ap (λ t. has_bit t (b % 8)) (same (b / bpb + sb.bmapstart) (b % bpb / 8) (omega arith))

    kept-IsOwner : IsOwner sb (owned ip s') s'
    kept-IsOwner = moved-IsOwner sb sized (owned ip s) (owned ip s') s s' own kept-owned kept-used

    kept-byte : (p : ℕ) → p < max_bytes → byte ip s' p ≡ byte ip s p
    kept-byte p lt =
        let j = slot_of (p / bsize) in
        let hj : j ≤ maxfile = ground arith in
        elim (Bool-cases (owned ip s j == 0)) [
          | inl gap ↦ rw (kept-owned j hj, gap) refl
          | inr there ↦
              let after = own.after j hj (ground arith) in
              rw (kept-owned j hj, there) (same (owned ip s j) (p % bsize) (omega arith))
        ]

  from_start :
      (ip : Inode) (s : Blocks) (off m : ℕ) (dst : ℕ → ℕ) (i : ℕ)
      → fetched sb ip s off 0 m dst i ≡ (if ltb i m then byte ip s (off + i) else dst i)
  from_start ip s off m dst i =
      let test : (leb 0 i && ltb i (0 + m)) ≡ ltb i m = ground arith in
      let at : i - 0 ≡ i = omega arith in rw (test, at) refl

  module _ (dev : Devices) where
    -- `readi` of a file at an offset in it, of a number of bytes that does not carry the offset past
    -- 32 bits, returns, with as many of the `n` bytes as the file has from
    -- there on, copies just those, and changes neither the file nor any block.
    pub readi_lem :
        (ip : Inode) (s : Blocks) (dst : ℕ → ℕ) (off n : ℕ)
        → IsStored ip s
        → off ≤ ip.size
        → off + n < 2 ^ 32
        → readi sb dev ip dst off n s
          ≡ some (
            min n (ip.size - off),
            λ i. if ltb i (min n (ip.size - off)) then byte ip s (off + i) else dst i,
            ip,
            s,
          )
    unfolding readi
    readi_lem ip s dst off n st le room =
        let m = min n (ip.size - off) in
        let ok : (ltb ip.size off || ltb (u32 (off + n)) off) ≡ false = ground arith in
        let count : (if ltb ip.size (u32 (off + n)) then ip.size - off else n) ≡ m = ground arith in
        let fits : off + m ≤ max_bytes = ground (arith, st.short) in
        let loop =
          read_loop-fetched sb m ip s off 0 m dst (omega arith) fits
            (λ p lo hi. st.filled p (ground arith)) in
        rw (st.plain, ok, count, loop, count)
          (ap (λ d. some (m, d, ip, s)) (fun_ext (λ i. from_start ip s off m dst i)))

    -- What a successful `writei` leaves: a stored file with the bytes of `src` at `off`.
    pub record Put (ip : Inode) (s : Blocks) (src : ℕ → ℕ) (off n r : ℕ) (ip' : Inode) (s' : Blocks)
        : Type 0 where
      pub result : r ≡ n
      pub same : (ip'.ref ≡ ip.ref) × (ip'.valid ≡ ip.valid)
      pub stored : IsStored ip' s'
      pub length : ip'.size ≡ (if ltb ip.size (off + n) then off + n else ip.size)
      pub bytes :
          (p : ℕ)
          → p < max_bytes
          → byte ip' s' p ≡ (if leb off p && ltb p (off + n) then src (p - off) else byte ip s p)

    at_zero :
        (b : Bool) (src : ℕ → ℕ) (k v : ℕ)
        → (if b then src (0 + k) else v) ≡ (if b then src k else v)
    at_zero b src k v = let e : 0 + k ≡ k = omega arith in rw e refl

    -- The inode of the end of `writei`, with the new size, and the blocks then.
    ended-Put :
        (ip ip1 : Inode) (s s1 s2 : Blocks) (src : ℕ → ℕ) (off n size : ℕ)
        → IsStored ip s
        → off ≤ ip.size
        → off + n ≤ max_bytes
        → size ≡ (if ltb ip.size (off + n) then off + n else ip.size)
        → Wrote sb sized ip s off 0 n src ip1 s1
        → ((c o : ℕ) → sb.bmapstart ≤ c → s2 c o ≡ s1 c o)
        → Put ip s src off n n (record ip1 { size = size }) s2
    ended-Put ip ip1 s s1 s2 src off n size st le room e w far = record {
      result = refl;
      same = (ap (λ (r : Inode). r.ref) w.only, ap (λ (r : Inode). r.valid) w.only);
      stored = record {
        own = kept-IsOwner ip1 s1 s2 w.own far;
        plain = ap (λ (r : Inode). r.kind == t_dev) w.only ∙ st.plain;
        short = ground (arith, st.short);
        filled = λ p lt z. all_filled p lt (
            sym (kept-owned ip1 s1 s2 w.own far (slot_of (p / bsize)) (ground (arith, st.short)))
            ∙ z);
        placed =
            subst (λ i. iblock sb i < sb.bmapstart) (sym (ap (λ (r : Inode). r.inum) w.only))
              st.placed;
      };
      length = e;
      bytes = λ p lt.
          kept-byte ip1 s1 s2 w.own far p lt
          ∙ w.bytes p lt
          ∙ at_zero (leb off p && ltb p (off + n)) src (p - off) (byte ip s p);
    }
      where
        all_filled : (p : ℕ) → p < size → owned ip1 s1 (slot_of (p / bsize)) ≢ 0
        all_filled p lt = elim (Bool-cases (ltb p ip.size)) [
          | inl old ↦
              let some_block = st.filled p (ground arith) in
              let hj : slot_of (p / bsize) ≤ maxfile = ground (arith, st.short) in
              λ z. some_block (sym (w.kept (slot_of (p / bsize)) hj some_block) ∙ z)
          | inr new ↦ w.mapped p (ground arith) (ground arith)
        ]

    grown-Put :
        (ip ip1 : Inode) (s s1 : Blocks) (src : ℕ → ℕ) (off n : ℕ)
        → IsStored ip s
        → off ≤ ip.size
        → off + n ≤ max_bytes
        → Wrote sb sized ip s off 0 n src ip1 s1
        → Put ip s src off n n (grow_size sb ip1 off n s1).0 (grow_size sb ip1 off n s1).1
    unfolding grow_size
    grown-Put ip ip1 s s1 src off n st le room w =
        let size1 : ip1.size ≡ ip.size = ap (λ (r : Inode). r.size) w.only in
        elim (Bool-cases (ltb 0 n && ltb ip1.size (off + n))) [
          | inl longer ↦
              let grown : Inode = record ip1 { size = off + n } in
              let at : iblock sb ip1.inum ≡ iblock sb ip.inum =
                ap (λ (r : Inode). iblock sb r.inum) w.only in
              rw longer (
                ended-Put ip ip1 s s1 (iupdate sb grown s1) src off n (off + n) st le room
                  (ground arith) w
                  (λ c o lo. iupdate-Outside sb grown s1 c o (inl (omega (arith, at, st.placed)))))
          | inr not_longer ↦ rw not_longer (
              ended-Put ip ip1 s s1 s1 src off n ip1.size st le room (ground arith) w
                (λ c o lo. refl))
        ]

    -- A `writei` that returns, at an offset in a file and within the largest size of one: it returns
    -- with `n`, and leaves a file whose blocks are apart from each other and that is as long as the
    -- bytes need; those are at the offset, and every other byte is as it was.
    pub writei-Put :
        (ip ip' : Inode) (s s' : Blocks) (src : ℕ → ℕ) (off n r : ℕ)
        → IsStored ip s
        → off ≤ ip.size
        → off + n ≤ max_bytes
        → writei sb dev ip src off n s ≡ some (r, ip', s')
        → Put ip s src off n r ip' s'
    unfolding writei
    writei-Put ip ip' s s' src off n r st le room h =
        let wrap : u32 (off + n) ≡ off + n = omega arith in
        let ok : (ltb ip.size off || ltb (off + n) off) ≡ false = ground arith in
        let fits : ltb (maxfile * bsize) (off + n) ≡ false = ground arith in
        elim (Option-cases (write_loop sb n ip off 0 n src s)) [
          | inl e ↦ cc (rw (st.plain, wrap, ok, fits, e) at h)
          | inr ((ip1, s1), e) ↦
              subst (λ t. Put ip s src off n t.0 t.1 t.2)
                (some_inj (rw (st.plain, wrap, ok, fits, e) at h))
                (grown-Put ip ip1 s s1 src off n st le room
                  (write_loop-Wrote sb sized n ip ip1 s s1 off 0 n src (omega arith) room st.own e))
        ]
