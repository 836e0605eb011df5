-- ===== src/File/Write.antt =====
-- `filewrite` writes in chunks what one `writei` would write.
use os_fcfs_prirority.Base.{
  ℕ, zero, suc, ◌+◌, ◌-◌, ◌≤◌, ◌<◌, ◌≡◌, ◌≢◌, ◌⊎◌, inl, inr, refl, sym, ap, ◌∙◌, fun_ext, subst,
  Bool, true, false, some, none, Option-cases, Bool-cases, u32, signed_ltb, update, update_self,
  update_ne, arith, ltb, ◌==◌, if◌then◌else◌,
}
use os_fcfs_prirority.Fs.{Blocks, Superblock}
use os_fcfs_prirority.Fs.Inode.{Inode, failed}
use os_fcfs_prirority.Fs.Files.{Devices, ilock, writei}
use os_fcfs_prirority.Fs.Owner.{max_bytes, IsSized}
use os_fcfs_prirority.Fs.Stored.{IsStored, Put, writei-Put}
use os_fcfs_prirority.Fs.Roundtrip.{writei-returns}
use os_fcfs_prirority.File.{
  File, fd_inode, Store, Ended, returned, panicked, advance, chunk, write_chunks, filewrite,
}
use os_fcfs_prirority.File.Parts.{Put-Put, Put-nil}

module _ (sb : Superblock) (sized : IsSized sb) (dev : Devices) where
  -- The file's inode is in the table, and the offset is in it.
  pub record IsOpen (f : File) (st : Store) : Type 0 where
    pub held : 0 < (st.inodes f.ip).ref
    pub valid : (st.inodes f.ip).valid ≡ true
    pub stored : IsStored sb sized (st.inodes f.ip) st.blocks
    pub inside : f.off ≤ (st.inodes f.ip).size

  locked :
      (f : File) (st : Store)
      → IsOpen f st
      → ilock sb (st.inodes f.ip) st.blocks ≡ some (st.inodes f.ip)
  unfolding ilock
  locked f st op =
      let there : ltb (st.inodes f.ip).ref 1 ≡ false = ground (arith, op.held) in
      rw (there, op.valid) refl

  -- What is left when `n` bytes of `src` are written.
  pub record IsWritten (f : File) (st : Store) (src : ℕ → ℕ) (n : ℕ) (f' : File) (st' : Store)
      : Type 0 where
    pub offset : f' ≡ record f { off = f.off + n }
    pub contents :
        Put sb sized dev (st.inodes f.ip) st.blocks src f.off n n (st'.inodes f.ip) st'.blocks
    pub others : (j : ℕ) → j ≢ f.ip → st'.inodes j ≡ st.inodes j
    pub pipes : st'.pipes ≡ st.pipes

  -- How `filewrite` ends.
  abbrev pub Outcome : File → Store → (ℕ → ℕ) → ℕ → ℕ → Ended × File × Store → Type 0
  Outcome f st src left n r =
      ((r.0 ≡ panicked) × ((st.inodes f.ip).size < f.off + left))
      ⊎ ((r.0 ≡ returned n) × IsWritten f st src left r.1 r.2)

  all_written : (i n : ℕ) → i ≡ n → (if i == n then n else failed) ≡ n
  all_written i n e = let t : (i == n) ≡ true = ground arith in rw t refl

  done-Outcome :
      (f : File) (st : Store) (i n : ℕ) (src : ℕ → ℕ)
      → IsOpen f st
      → i ≡ n
      → Outcome f st (λ k. src (i + k)) (n - i) n (returned (if i == n then n else failed), f, st)
  done-Outcome f st i n src op e =
      let none_left : n - i ≡ 0 = omega arith in
      let still : f.off ≡ f.off + (n - i) = omega arith in
      inr (
        ap returned (all_written i n e),
        record {
          offset = ap (λ o. record f { off = o }) still;
          contents =
              Put-nil sb sized dev (st.inodes f.ip) st.blocks (λ k. src (i + k)) f.off (n - i)
                none_left op.stored op.inside;
          others = λ j ne. refl;
          pipes = refl;
        },
      )

  -- The store after a chunk.
  abbrev stored_back : Store → File → Inode → Blocks → Store
  stored_back st f ip s = record st { inodes = update st.inodes f.ip ip; blocks = s }

  abbrev moved_on : File → ℕ → File
  moved_on f m = record f { off = f.off + m }

  module _ (f : File) (st : Store) (i m n : ℕ) (src : ℕ → ℕ) (ip : Inode) (s : Blocks)
      (op : IsOpen f st) (small : m ≤ chunk) (le : i + m ≤ n) (room : f.off + (n - i) ≤ max_bytes)
      (put : Put sb sized dev (st.inodes f.ip) st.blocks (λ k. src (i + k)) f.off m m ip s) where
    at_file : (stored_back st f ip s).inodes f.ip ≡ ip
    at_file = update_self st.inodes f.ip ip

    advance-moved_on : advance f m ≡ moved_on f m
    advance-moved_on =
        let fits : u32 (f.off + m) ≡ f.off + m = omega arith in
        elim (Bool-cases (ltb 0 m)) [
          | inl some_bytes ↦
              let pos : signed_ltb 0 m ≡ true = ground arith in
              rw pos (ap (λ o. record f { off = o }) fits)
          | inr no_bytes ↦
              let not_pos : signed_ltb 0 m ≡ false = ground arith in
              let still : f.off ≡ f.off + m = ground arith in
              rw not_pos (ap (λ o. record f { off = o }) still)
        ]

    chunk-IsOpen : IsOpen (moved_on f m) (stored_back st f ip s)
    chunk-IsOpen = record {
      held = rw (at_file, put.same.0) op.held;
      valid = rw (at_file, put.same.1) op.valid;
      stored = rw at_file put.stored;
      inside = rw at_file (ground (arith, put.length, op.inside));
    }

    chunk-Outcome :
        (r : Ended × File × Store)
        → Outcome (moved_on f m) (stored_back st f ip s) (λ k. src (i + m + k)) (n - (i + m)) n r
        → Outcome f st (λ k. src (i + k)) (n - i) n r
    chunk-Outcome r (inl (e, short)) =
        let h : ip.size < f.off + m + (n - (i + m)) = rw at_file at short in
        inl (e, ground (arith, put.length, h))
    chunk-Outcome r (inr (e, w)) =
        let sum : f.off + m + (n - (i + m)) ≡ f.off + (n - i) = omega arith in
        inr (
          e,
          record {
            offset = w.offset ∙ ap (λ o. record f { off = o }) sum;
            contents =
                Put-Put sb sized dev (st.inodes f.ip) ip (r.2.inodes f.ip) st.blocks s r.2.blocks
                  src f.off i m n le put (rw at_file at w.contents);
            others = λ j ne. w.others j ne ∙ update_ne st.inodes f.ip ip j (λ q. ne (sym q));
            pipes = w.pipes;
          },
        )

  -- A `writei` that panics was to make the file longer.
  panics-short :
      (ip : Inode) (s : Blocks) (src : ℕ → ℕ) (off m left : ℕ)
      → IsStored sb sized ip s
      → m ≤ left
      → writei sb dev ip src off m s ≡ none
      → ip.size < off + left
  panics-short ip s src off m left st le e = elim (Bool-cases (ltb ip.size (off + left))) [
    | inl grows ↦ ground arith
    | inr fits ↦ cc (e, (writei-returns sb sized dev ip s src off m st (ground arith)).1)
  ]

  pub write_chunks_lem :
      (fuel : ℕ) (f : File) (i n : ℕ) (src : ℕ → ℕ) (st : Store)
      → n ≤ i + fuel
      → i ≤ n
      → IsOpen f st
      → f.off + (n - i) ≤ max_bytes
      → Outcome f st (λ k. src (i + k)) (n - i) n (write_chunks sb dev fuel f i n src st)
  unfolding write_chunks
  write_chunks_lem zero f i n src st enough le op room = done-Outcome f st i n src op (omega arith)
  write_chunks_lem (suc fuel) f i n src st enough le op room = elim (Bool-cases (ltb i n)) [
    | inr done ↦ rw done (done-Outcome f st i n src op (ground arith))
    | inl more ↦
        let m = if ltb chunk (n - i) then chunk else n - i in
        let small : m ≤ chunk = ground arith in
        let some_bytes : 0 < m = ground arith in
        let hm : i + m ≤ n = ground arith in
        let ip = st.inodes f.ip in
        let s = st.blocks in
        elim (Option-cases (writei sb dev ip (λ k. src (i + k)) f.off m s)) [
          | inl e ↦
              rw (more, locked f st op, e)
                (inl (
                  refl,
                  panics-short ip s (λ k. src (i + k)) f.off m (n - i) op.stored (omega arith) e,
                ))
          | inr ((r, ip', s'), e) ↦
              let put =
                writei-Put sb sized dev ip ip' s s' (λ k. src (i + k)) f.off m r op.stored op.inside
                  (omega arith) e in
              let put' =
                subst (λ x. Put sb sized dev ip s (λ k. src (i + k)) f.off m x ip' s') put.result
                  put in
              let not_failed : signed_ltb m 0 ≡ false = ground arith in
              let whole : (m == m) ≡ true = ground arith in
              let room' : f.off + m + (n - (i + m)) ≤ max_bytes = omega arith in
              rw
                (
                  more,
                  locked f st op,
                  e,
                  put.result,
                  not_failed,
                  whole,
                  advance-moved_on f st i m n src ip' s' op small hm room put',
                )
                (chunk-Outcome f st i m n src ip' s' op small hm room put'
                  (write_chunks sb dev fuel (moved_on f m) (i + m) n src (stored_back st f ip' s'))
                  (write_chunks_lem fuel (moved_on f m) (i + m) n src (stored_back st f ip' s')
                    (omega arith) hm (chunk-IsOpen f st i m n src ip' s' op small hm room put')
                    room'))
        ]
  ]

  filewrite_inode :
      (killed : Bool) (f : File) (src : ℕ → ℕ) (n : ℕ) (st : Store)
      → f.writable ≡ true
      → f.kind ≡ fd_inode
      → filewrite sb dev killed f src n st ≡ write_chunks sb dev n f 0 n src st
  unfolding filewrite
  filewrite_inode killed f src n st w k = simp (w, k)

  -- `filewrite` to a file open for writing on an inode that is in the table, at an offset in it and
  -- within the largest size of a file: it returns with `n`, the offset is `n` further, the bytes of
  -- `src` are at the old offset, every other byte is as it was, and no other inode and no pipe is
  -- changed; or it panics, and the file was to get longer.
  pub filewrite_outcome :
      (killed : Bool) (f : File) (src : ℕ → ℕ) (n : ℕ) (st : Store)
      → f.writable ≡ true
      → f.kind ≡ fd_inode
      → IsOpen f st
      → f.off + n ≤ max_bytes
      → Outcome f st src n n (filewrite sb dev killed f src n st)
  filewrite_outcome killed f src n st w k op room =
      let same : (λ k. src (0 + k)) ≡ src = fun_ext (λ k. from_zero src k) in
      let all : n - 0 ≡ n = omega arith in
      let chunks = write_chunks_lem n f 0 n src st (omega arith) (omega arith) op (omega arith) in
      subst (Outcome f st src n n) (sym (filewrite_inode killed f src n st w k)) (
        subst (λ g. Outcome f st g n n (write_chunks sb dev n f 0 n src st)) same
          (subst (λ m. Outcome f st (λ k. src (0 + k)) m n (write_chunks sb dev n f 0 n src st)) all
            chunks))
    where
      from_zero : (src : ℕ → ℕ) (k : ℕ) → src (0 + k) ≡ src k
      from_zero src k = let e : 0 + k ≡ k = omega arith in ap src e
