-- ===== src/Fs/Owner.antt =====
-- The blocks that an inode has, and how they grow.
use os_fcfs_prirority.Base.{
  ℕ, ◌+◌, ◌-◌, ◌*◌, ◌/◌, ◌%◌, ◌^◌, ◌≤◌, ◌<◌, ◌≡◌, ◌≢◌, inl, inr, refl, ap, ◌∙◌, true, false, ◌||◌,
  Bool-cases, arith, ltb, leb, ◌==◌, if◌then◌else◌,
}
use os_fcfs_prirority.Fs.{Blocks, bpb, bsize, Superblock, get_word}
use os_fcfs_prirority.Fs.Alloc.{used, IsData}
use os_fcfs_prirority.Fs.Balloc.{IsLaidOut}
use os_fcfs_prirority.Fs.Inode.{Inode, ndirect, maxfile}

-- The slots of an inode: the direct blocks, the indirect block, and the entries of the latter.
abbrev pub owned : Inode → Blocks → ℕ → ℕ
owned ip s k =
    if leb k ndirect
    then ip.addrs k
    else (if ip.addrs ndirect == 0 then 0 else get_word s (ip.addrs ndirect) (k - 13))

-- The slot of the `bn`th block of the contents.
abbrev pub slot_of : ℕ → ℕ
slot_of bn = if ltb bn ndirect then bn else bn + 1

-- The contents as `f` has the slots; where there is no block, there are zeros.
abbrev pub byte_of : (ℕ → ℕ) → Blocks → ℕ → ℕ
byte_of f s o = if f (slot_of (o / bsize)) == 0 then 0 else s (f (slot_of (o / bsize))) (o % bsize)

abbrev pub max_bytes : ℕ
max_bytes = maxfile * bsize

module _ (sb : Superblock) where
  -- The free map ends before the last block, and block numbers are `uint`s.
  pub record IsSized : Type 0 where
    pub tight : sb.bmapstart + sb.size / bpb < sb.size
    pub small : sb.size < 2 ^ 32

  -- The slots have different blocks, data blocks that the free map has in use.
  pub record IsOwner (f : ℕ → ℕ) (s : Blocks) : Type 0 where
    pub laid : IsLaidOut sb s
    pub after : (k : ℕ) → k ≤ maxfile → f k ≢ 0 → IsData sb (f k)
    pub inside : (k : ℕ) → k ≤ maxfile → f k < sb.size
    pub taken : (k : ℕ) → k ≤ maxfile → f k ≢ 0 → used sb s (f k) ≡ true
    pub apart : (j k : ℕ) → j ≤ maxfile → k ≤ maxfile → j ≢ k → f j ≢ 0 → f j ≢ f k

  -- Slot `k` has got the new block `a`.
  pub record Grown (f : ℕ → ℕ) (s : Blocks) (k a : ℕ) (f' : ℕ → ℕ) (s' : Blocks) : Type 0 where
    pub slot : k ≤ maxfile
    pub gap : f k ≡ 0
    pub fresh : used sb s a ≡ false
    pub data_block : IsData sb a
    pub below : a < sb.size
    pub next : (j : ℕ) → j ≤ maxfile → f' j ≡ (if j == k then a else f j)
    pub zeroed : (o : ℕ) → s' a o ≡ 0
    pub map : (b : ℕ) → b < sb.size → used sb s' b ≡ (a == b || used sb s b)
    pub rest : (b o : ℕ) → IsData sb b → b ≢ a → b ≢ f ndirect → s' b o ≡ s b o
    pub meta : (b o : ℕ) → b < sb.bmapstart → s' b o ≡ s b o

module _ (sb : Superblock) (sized : IsSized sb) {f f' : ℕ → ℕ} {s s' : Blocks} {k a : ℕ}
    (own : IsOwner sb f s) (g : Grown sb f s k a f' s') where
  new_ne : (j : ℕ) → j ≤ maxfile → f j ≢ 0 → f j ≢ a
  new_ne j hj there e = cc (own.taken j hj there, e, g.fresh)

  grown-inside : (j : ℕ) → j ≤ maxfile → f' j < sb.size
  grown-inside j hj = ground (arith, g.next j hj, own.inside j hj, g.below)

  pub grown-IsOwner : IsOwner sb f' s'
  grown-IsOwner = record {
    laid = record { meta = λ b h. ground (arith, g.map b, own.laid.meta b h, sized.tight) };
    after = λ j hj there. ground (arith, g.next j hj, own.after j hj, g.data_block);
    inside = λ j hj. grown-inside j hj;
    taken =
        λ j hj there. ground (arith, g.next j hj, own.taken j hj, g.map (f' j) (grown-inside j hj));
    apart = λ i j hi hj ne there. ground (
      arith,
      g.next i hi,
      g.next j hj,
      own.apart i j hi hj ne,
      new_ne i hi,
      new_ne j hj,
      own.after i hi,
      own.after j hj,
      g.data_block,
    );
  }

  pub grown-byte_of : (o : ℕ) → o < max_bytes → byte_of f' s' o ≡ byte_of f s o
  grown-byte_of o lt =
      let j = slot_of (o / bsize) in
      let hj : j ≤ maxfile = ground arith in
      elim (Bool-cases (j == k)) [
        | inl same ↦
            let e : j ≡ k = ground arith in
            let before : f j ≡ 0 = ap f e ∙ g.gap in
            rw (g.next j hj, same, before) (ground (arith, g.zeroed (o % bsize)))
        | inr other ↦ elim (Bool-cases (f j == 0)) [
          | inl none_yet ↦ rw (g.next j hj, other, none_yet) refl
          | inr there ↦
              let some_block : f j ≢ 0 = ground arith in
              let not_indirect : j ≢ ndirect = ground arith in
              rw (g.next j hj, other, there)
                (g.rest (f j) (o % bsize) (own.after j hj some_block) (new_ne j hj some_block)
                  (own.apart j ndirect hj (omega arith) not_indirect some_block))
        ]
      ]
