-- ===== src/Fs/Dinode.antt =====
-- Inodes on the disk: `iupdate` writes what `ilock` reads.
use os_fcfs_prirority.Base.{
  ℕ, ◌+◌, ◌*◌, ◌%◌, ◌≤◌, ◌<◌, ◌≡◌, ◌≢◌, inl, inr, ap, ◌∙◌, subst, fun_ext, true, Bool-cases, arith,
  ltb, leb, ◌==◌, if◌then◌else◌,
}
use os_fcfs_prirority.Fs.{Blocks, Superblock, get_word, get_short}
use os_fcfs_prirority.Fs.Inode.{Inode, ndirect}
use os_fcfs_prirority.Fs.Files.{ipb, iblock, iupdate, load_inode}
use os_fcfs_prirority.Fs.Update.{
  Outside, IsFitting, put_all, put_all-short, put_all-size, put_all-addr, put_all-Outside,
}

-- What is read at place `q` of block `b`.
abbrev loaded : Inode → Blocks → ℕ → ℕ → Inode
loaded jp s b q = record jp {
  kind = get_short s b (32 * q);
  major = get_short s b (32 * q + 1);
  minor = get_short s b (32 * q + 2);
  nlink = get_short s b (32 * q + 3);
  size = get_word s b (16 * q + 2);
  addrs = λ i. if leb i ndirect then get_word s b (16 * q + 3 + i) else jp.addrs i;
  valid = true;
}

-- `jp` with the contents of `ip`.
abbrev pub with_fields : Inode → Inode → Inode
with_fields jp ip = record jp {
  kind = ip.kind;
  major = ip.major;
  minor = ip.minor;
  nlink = ip.nlink;
  size = ip.size;
  addrs = λ i. if leb i ndirect then ip.addrs i else jp.addrs i;
  valid = true;
}

-- Two reads agree where all their parts do.
loaded_eq :
    (jp ip : Inode) (s : Blocks) (b q : ℕ)
    → get_short s b (32 * q) ≡ ip.kind
    → get_short s b (32 * q + 1) ≡ ip.major
    → get_short s b (32 * q + 2) ≡ ip.minor
    → get_short s b (32 * q + 3) ≡ ip.nlink
    → get_word s b (16 * q + 2) ≡ ip.size
    → ((i : ℕ) → i < 13 → get_word s b (16 * q + 3 + i) ≡ ip.addrs i)
    → loaded jp s b q ≡ with_fields jp ip
loaded_eq jp ip s b q e0 e1 e2 e3 e4 es =
    let addrs : (λ (i : ℕ). if leb i ndirect then get_word s b (16 * q + 3 + i) else jp.addrs i)
        ≡ (λ (i : ℕ). if leb i ndirect then ip.addrs i else jp.addrs i) =
      fun_ext (λ i. ground (arith, es i)) in
    λ t. record jp {
      kind = e0 t;
      major = e1 t;
      minor = e2 t;
      nlink = e3 t;
      size = e4 t;
      addrs = addrs t;
      valid = true;
    }

with_loaded :
    (jp : Inode) (s : Blocks) (b q : ℕ) → with_fields jp (loaded jp s b q) ≡ loaded jp s b q
with_loaded jp s b q =
    let addrs : (λ (i : ℕ). if leb i ndirect then (loaded jp s b q).addrs i else jp.addrs i)
        ≡ (loaded jp s b q).addrs =
      fun_ext (λ i. ground arith) in
    λ t. record (loaded jp s b q) { addrs = addrs t }

module _ (sb : Superblock) where
  pub iupdate-Outside :
      (ip : Inode) (s : Blocks) (c o : ℕ)
      → Outside (iblock sb ip.inum) (64 * (ip.inum % ipb)) (64 * (ip.inum % ipb) + 64) c o
      → iupdate sb ip s c o ≡ s c o
  unfolding iupdate
  iupdate-Outside ip s c o out = put_all-Outside (iblock sb ip.inum) (ip.inum % ipb) ip s c o out

  load_inode_self :
      (ip jp : Inode) (s : Blocks)
      → IsFitting ip
      → jp.inum ≡ ip.inum
      → load_inode sb jp (iupdate sb ip s) ≡ with_fields jp ip
  unfolding load_inode iupdate
  load_inode_self ip jp s fits e =
      let b = iblock sb ip.inum in
      let q = ip.inum % ipb in
      let t = put_all b q ip s in
      let first : 32 * q + 0 ≡ 32 * q = omega arith in
      ap (λ n. loaded jp t (iblock sb n) (n % ipb)) e
      ∙ loaded_eq jp ip t b q
          (subst (λ i. get_short t b i ≡ ip.kind) first
            (put_all-short b q ip s fits 0 (omega arith)))
          (put_all-short b q ip s fits 1 (omega arith))
          (put_all-short b q ip s fits 2 (omega arith))
          (put_all-short b q ip s fits 3 (omega arith)) (put_all-size b q ip s fits)
          (λ i lt. put_all-addr b q ip s fits i lt)

  -- The bytes of another inode.
  apart :
      (ip jp : Inode) (s : Blocks) (o : ℕ)
      → jp.inum ≢ ip.inum
      → 64 * (jp.inum % ipb) ≤ o
      → o < 64 * (jp.inum % ipb) + 64
      → iupdate sb ip s (iblock sb jp.inum) o ≡ s (iblock sb jp.inum) o
  apart ip jp s o ne lo hi = elim (Bool-cases (iblock sb jp.inum == iblock sb ip.inum)) [
    | inr other ↦ iupdate-Outside ip s (iblock sb jp.inum) o (inl (ground arith))
    | inl same ↦ elim (Bool-cases (ltb o (64 * (ip.inum % ipb)))) [
      | inl before ↦ iupdate-Outside ip s (iblock sb jp.inum) o (inr (inl (ground arith)))
      | inr after ↦ iupdate-Outside ip s (iblock sb jp.inum) o (inr (inr (ground arith)))
    ]
  ]

  module _ (ip jp : Inode) (s : Blocks) (ne : jp.inum ≢ ip.inum) where
    other_short :
        (j : ℕ)
        → j < 32
        → get_short (iupdate sb ip s) (iblock sb jp.inum) (32 * (jp.inum % ipb) + j)
          ≡ get_short s (iblock sb jp.inum) (32 * (jp.inum % ipb) + j)
    unfolding get_short
    other_short j lt =
        let i = 32 * (jp.inum % ipb) + j in
        omega (
          arith,
          apart ip jp s (2 * i) ne (omega arith) (omega arith),
          apart ip jp s (2 * i + 1) ne (omega arith) (omega arith),
        )

    other_word :
        (j : ℕ)
        → j < 16
        → get_word (iupdate sb ip s) (iblock sb jp.inum) (16 * (jp.inum % ipb) + j)
          ≡ get_word s (iblock sb jp.inum) (16 * (jp.inum % ipb) + j)
    unfolding get_word
    other_word j lt =
        let i = 16 * (jp.inum % ipb) + j in
        omega (
          arith,
          apart ip jp s (4 * i) ne (omega arith) (omega arith),
          apart ip jp s (4 * i + 1) ne (omega arith) (omega arith),
          apart ip jp s (4 * i + 2) ne (omega arith) (omega arith),
          apart ip jp s (4 * i + 3) ne (omega arith) (omega arith),
        )

    other_addr :
        (i : ℕ)
        → i < 13
        → get_word (iupdate sb ip s) (iblock sb jp.inum) (16 * (jp.inum % ipb) + 3 + i)
          ≡ (loaded jp s (iblock sb jp.inum) (jp.inum % ipb)).addrs i
    other_addr i lt =
        let direct : leb i ndirect ≡ true = ground arith in
        let place : 16 * (jp.inum % ipb) + (3 + i) ≡ 16 * (jp.inum % ipb) + 3 + i = omega arith in
        rw direct (
          subst
            (λ n.
              get_word (iupdate sb ip s) (iblock sb jp.inum) n ≡ get_word s (iblock sb jp.inum) n)
            place (other_word (3 + i) (omega arith)))

    load_inode_other : load_inode sb jp (iupdate sb ip s) ≡ load_inode sb jp s
    unfolding load_inode
    load_inode_other =
        let b = iblock sb jp.inum in
        let q = jp.inum % ipb in
        let first : 32 * q + 0 ≡ 32 * q = omega arith in
        loaded_eq jp (loaded jp s b q) (iupdate sb ip s) b q
          (subst (λ i. get_short (iupdate sb ip s) b i ≡ get_short s b i) first
            (other_short 0 (omega arith)))
          (other_short 1 (omega arith)) (other_short 2 (omega arith)) (other_short 3 (omega arith))
          (other_word 2 (omega arith)) (λ i lt. other_addr i lt)
        ∙ with_loaded jp s b q

  -- What `ilock` reads after `iupdate` has written an inode whose fields fit: for the same number, the
  -- fields that were written, and for another, what it had read before.
  pub load_inode-iupdate :
      (ip jp : Inode) (s : Blocks)
      → IsFitting ip
      → load_inode sb jp (iupdate sb ip s)
        ≡ (if jp.inum == ip.inum then with_fields jp ip else load_inode sb jp s)
  load_inode-iupdate ip jp s fits = elim (Bool-cases (jp.inum == ip.inum)) [
    | inl same ↦ rw same (load_inode_self ip jp s fits (ground arith))
    | inr other ↦ rw other (load_inode_other ip jp s (ground arith))
  ]
