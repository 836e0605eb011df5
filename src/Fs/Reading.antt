-- ===== src/Fs/Reading.antt =====
-- `readi`: what it copies out of a file.
use os_fcfs_prirority.Base.{
  ℕ, zero, suc, ◌+◌, ◌-◌, ◌/◌, ◌%◌, ◌≤◌, ◌<◌, ◌≡◌, ◌≢◌, inl, inr, refl, ap, ◌∙◌, fun_ext, true,
  false, ◌&&◌, some, Bool-cases, arith, ltb, leb, ◌==◌, if◌then◌else◌,
}
use os_fcfs_prirority.Fs.{Blocks, bsize, Superblock, get_word}
use os_fcfs_prirority.Fs.Inode.{
  Inode, ndirect, nindirect, maxfile, min, copy, slot_block, entry_block, bmap, read_loop,
}
use os_fcfs_prirority.Fs.Owner.{owned, slot_of, max_bytes}
use os_fcfs_prirority.Fs.Contents.{byte}

module _ (sb : Superblock) where
  slot_block-there :
      (ip : Inode) (k : ℕ) (s : Blocks)
      → ip.addrs k ≢ 0
      → slot_block sb ip k s ≡ some (ip.addrs k, ip, s)
  unfolding slot_block
  slot_block-there ip k s there = let e : (ip.addrs k == 0) ≡ false = ground arith in rw e refl

  entry_block-there :
      (b i : ℕ) (s : Blocks) → get_word s b i ≢ 0 → entry_block sb b i s ≡ some (get_word s b i, s)
  unfolding entry_block
  entry_block-there b i s there = let e : (get_word s b i == 0) ≡ false = ground arith in rw e refl

  -- Where the block is there, `bmap` finds it and changes nothing.
  pub bmap-there :
      (ip : Inode) (bn : ℕ) (s : Blocks)
      → bn < maxfile
      → owned ip s (slot_of bn) ≢ 0
      → bmap sb ip bn s ≡ some (owned ip s (slot_of bn), ip, s)
  unfolding bmap
  bmap-there ip bn s inside there = elim (Bool-cases (ltb bn ndirect)) [
    | inl direct ↦
        let le : leb bn ndirect ≡ true = ground arith in
        rw (direct, le) (slot_block-there ip bn s (λ z. there (rw (direct, le) z)))
    | inr later ↦
        let within : ltb (bn - ndirect) nindirect ≡ true = ground arith in
        let gt : leb (bn + 1) ndirect ≡ false = ground arith in
        let place : bn + 1 - 13 ≡ bn - ndirect = omega arith in
        let x = ip.addrs ndirect in
        let word = get_word s x (bn - ndirect) in
        let some_block : (if x == 0 then 0 else word) ≢ 0 = λ z. there (rw (later, gt, place) z) in
        let some_x : x ≢ 0 = ground arith in
        let test : (x == 0) ≡ false = ground arith in
        let some_word : word ≢ 0 = ground arith in
        rw
          (
            later,
            within,
            slot_block-there ip ndirect s some_x,
            entry_block-there x (bn - ndirect) s some_word,
            gt,
            test,
            place,
          )
          refl
  ]

  -- All blocks of the range are there.
  abbrev pub Mapped : Inode → Blocks → ℕ → ℕ → Type 0
  Mapped ip s off n = (p : ℕ) → off ≤ p → p < off + n → owned ip s (slot_of (p / bsize)) ≢ 0

  -- What the destination holds after `n` bytes are copied from the contents.
  abbrev pub fetched : Inode → Blocks → ℕ → ℕ → ℕ → (ℕ → ℕ) → ℕ → ℕ
  fetched ip s off tot n dst i =
      if leb tot i && ltb i (tot + n) then byte ip s (off + (i - tot)) else dst i

  fetched_none :
      (ip : Inode) (s : Blocks) (off tot n : ℕ) (dst : ℕ → ℕ) (i : ℕ)
      → n ≡ 0
      → dst i ≡ fetched ip s off tot n dst i
  fetched_none ip s off tot n dst i e =
      let out : (leb tot i && ltb i (tot + n)) ≡ false = ground arith in rw out refl

  byte-at :
      (ip : Inode) (s : Blocks) (p bn : ℕ)
      → p / bsize ≡ bn
      → owned ip s (slot_of bn) ≢ 0
      → s (owned ip s (slot_of bn)) (p % bsize) ≡ byte ip s p
  byte-at ip s p bn e there =
      let some_block : (owned ip s (slot_of bn) == 0) ≡ false = ground arith in
      rw (e, some_block) refl

  fetched_round :
      (ip : Inode) (s : Blocks) (off tot n m : ℕ) (dst : ℕ → ℕ) (i : ℕ)
      → m ≤ n
      → off % bsize + m ≤ bsize
      → owned ip s (slot_of (off / bsize)) ≢ 0
      → fetched ip s
          (off + m)
          (tot + m)
          (n - m)
          (copy dst tot (s (owned ip s (slot_of (off / bsize)))) (off % bsize) m)
          i
        ≡ fetched ip s off tot n dst i
  unfolding copy
  fetched_round ip s off tot n m dst i le fit there =
      elim (Bool-cases (leb (tot + m) i && ltb i (tot + m + (n - m)))) [
        | inl later ↦
            let inside : (leb tot i && ltb i (tot + n)) ≡ true = ground arith in
            let at : off + m + (i - (tot + m)) ≡ off + (i - tot) = ground arith in
            rw (later, inside) (ap (byte ip s) at)
        | inr not_later ↦ elim (Bool-cases (leb tot i && ltb i (tot + m))) [
          | inl now ↦
              let inside : (leb tot i && ltb i (tot + n)) ≡ true = ground arith in
              let bn : (off + (i - tot)) / bsize ≡ off / bsize = ground arith in
              let place : off % bsize + (i - tot) ≡ (off + (i - tot)) % bsize = ground arith in
              rw (not_later, now, inside, place)
                (byte-at ip s (off + (i - tot)) (off / bsize) bn there)
          | inr never ↦
              let out : (leb tot i && ltb i (tot + n)) ≡ false = ground arith in
              rw (not_later, never, out) refl
        ]
      ]

  pub read_loop-fetched :
      (fuel : ℕ) (ip : Inode) (s : Blocks) (off tot n : ℕ) (dst : ℕ → ℕ)
      → n ≤ fuel
      → off + n ≤ max_bytes
      → Mapped ip s off n
      → read_loop sb fuel ip off tot n dst s ≡ some (fetched ip s off tot n dst, ip, s)
  unfolding read_loop
  read_loop-fetched zero ip s off tot n dst enough room mapped =
      ap (λ d. some (d, ip, s)) (fun_ext (λ i. fetched_none ip s off tot n dst i (omega arith)))
  read_loop-fetched (suc fuel) ip s off tot n dst enough room mapped = elim (Bool-cases (n == 0)) [
    | inl done ↦ rw done (
        ap (λ d. some (d, ip, s)) (fun_ext (λ i. fetched_none ip s off tot n dst i (ground arith))))
    | inr more ↦
        let m = min n (bsize - off % bsize) in
        let a = owned ip s (slot_of (off / bsize)) in
        let some_bytes : 0 < m = ground arith in
        let le : m ≤ n = ground arith in
        let fit : off % bsize + m ≤ bsize = ground arith in
        let there : a ≢ 0 = mapped off (omega arith) (ground arith) in
        rw (more, bmap-there ip (off / bsize) s (omega arith) there)
          (read_loop-fetched fuel ip s (off + m) (tot + m) (n - m)
              (copy dst tot (s a) (off % bsize) m) (omega arith) (omega arith)
              (λ p lo hi. mapped p (omega arith) (omega arith))
            ∙ ap (λ d. some (d, ip, s))
                (fun_ext (λ i. fetched_round ip s off tot n m dst i le fit there)))
  ]
