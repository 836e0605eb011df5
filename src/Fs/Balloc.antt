-- ===== src/Fs/Balloc.antt =====
-- The contracts of `balloc` and `bfree`.
use os_fcfs_prirority.Base.{
  ℕ, ◌+◌, ◌*◌, ◌/◌, ◌%◌, ◌≤◌, ◌<◌, ◌≡◌, ◌≢◌, ◌⊎◌, inl, inr, refl, sym, ap₂, ◌∙◌, subst, true, false,
  not, ◌&&◌, ◌||◌, Option, none, some, Bool-cases, Option-cases, arith, ltb, ◌==◌,
}
use os_fcfs_prirority.Fs.{
  Blocks, bpb, Superblock, put, bzero, bblock, mark, alloc_from, balloc, bfree,
}
use os_fcfs_prirority.Fs.Bits.{has_bit, clear_bit, has_bit-clear_bit}
use os_fcfs_prirority.Fs.Alloc.{
  used, marked, used-marked, IsData, used-bzero, IsAlloc, alloc_from-IsAlloc, alloc_from-none,
}

module _ (sb : Superblock) where
  -- The free map has the blocks before the data blocks in use.
  pub record IsLaidOut (s : Blocks) : Type 0 where
    pub meta : (b : ℕ) → b ≤ sb.bmapstart + sb.size / bpb → used sb s b ≡ true

  -- What `balloc` gives: a block, and the blocks as they are then.
  pub record IsGiven (s : Blocks) (a : ℕ) (s' : Blocks) : Type 0 where
    pub inside : a < sb.size
    pub fresh : used sb s a ≡ false
    pub lowest : (b : ℕ) → b < a → used sb s b ≡ true
    pub zeroed : (o : ℕ) → s' a o ≡ 0
    pub map : (b : ℕ) → b < sb.size → used sb s' b ≡ (a == b || used sb s b)
    pub rest : (b o : ℕ) → IsData sb b → b ≢ a → s' b o ≡ s b o
    pub bits : (b : ℕ) → bblock sb b ≢ a → used sb s' b ≡ (a == b || used sb s b)
    pub frame : (b o : ℕ) → b ≢ a → (b ≢ bblock sb a) ⊎ (o ≢ a % bpb / 8) → s' b o ≡ s b o

  bzero_self : (s : Blocks) (a o : ℕ) → bzero s a a o ≡ 0
  unfolding bzero
  bzero_self s a o = ground arith

  rest_lem :
      (s : Blocks) (a b o : ℕ)
      → IsData sb b
      → b ≢ a
      → a < sb.size
      → bzero (marked sb s a) a b o ≡ s b o
  unfolding bzero mark put
  rest_lem s a b o data_block ne inside =
      let other : (b == a) ≡ false = ground arith in
      let apart : (b == a / bpb * bpb / bpb + sb.bmapstart) ≡ false = ground arith in
      rw (other, apart) refl

  bits_lem :
      (s : Blocks) (a b : ℕ)
      → bblock sb b ≢ a
      → used sb (bzero (marked sb s a) a) b ≡ (a == b || used sb s b)
  unfolding used bzero
  bits_lem s a b ne =
      let other : (bblock sb b == a) ≡ false = ground arith in rw other (used-marked sb s a b)

  frame_lem :
      (s : Blocks) (a b o : ℕ)
      → b ≢ a
      → (b ≢ bblock sb a) ⊎ (o ≢ a % bpb / 8)
      → bzero (marked sb s a) a b o ≡ s b o
  unfolding bzero mark put
  frame_lem s a b o ne apart =
      let other : (b == a) ≡ false = ground arith in
      let at : a / bpb * bpb / bpb ≡ a / bpb = omega arith in rw (other, at) (ground arith)

  fresh-IsData : (s : Blocks) (a : ℕ) → IsLaidOut s → used sb s a ≡ false → IsData sb a
  fresh-IsData s a laid free = elim (Bool-cases (ltb (sb.bmapstart + sb.size / bpb) a)) [
    | inl after ↦ ground arith
    | inr before ↦ cc (sym free ∙ laid.meta a (ground arith))
  ]

  IsAlloc-IsGiven :
      (s : Blocks) {a : ℕ} {s' : Blocks} → IsLaidOut s → IsAlloc sb s 0 a s' → IsGiven s a s'
  IsAlloc-IsGiven s {a = a} {s' = s'} laid al =
      let after = fresh-IsData s a laid al.free in
      subst (IsGiven s a) (sym al.blocks) (record {
        inside = al.below;
        fresh = al.free;
        lowest = λ b lt. al.misses b (omega arith) lt;
        zeroed = λ o. bzero_self (marked sb s a) a o;
        map = λ b lt. used-bzero sb (marked sb s a) a b after lt ∙ used-marked sb s a b;
        rest = λ b o data_block ne. rest_lem s a b o data_block ne al.below;
        bits = λ b ne. bits_lem s a b ne;
        frame = λ b o ne apart. frame_lem s a b o ne apart;
      })

  -- What the outcome of `balloc` says: a block, or that there is none.
  abbrev pub Outcome : Blocks → Option (ℕ × Blocks) → Type 0
  Outcome s none = (b : ℕ) → b < sb.size → used sb s b ≡ true
  Outcome s (some (a, s')) = IsGiven s a s'

  -- `balloc` on a file system whose map has the blocks before the data blocks in use: it returns the
  -- lowest block that is free, which it has zeroed and set in the map; it changes no other bit of the
  -- map and no byte of another block but the map's byte with that bit. Or it panics, and every block is
  -- in use.
  pub balloc_outcome : (s : Blocks) → IsLaidOut s → Outcome s (balloc sb s)
  unfolding balloc
  balloc_outcome s laid =
      let rounds = sb.size / bpb + 1 in
      elim (Option-cases (alloc_from sb rounds 0 s)) [
        | inl e ↦
            rw e (λ b lt. alloc_from-none sb rounds 0 s refl e b (omega arith) (omega arith) lt)
        | inr ((a, s'), e) ↦ rw e (IsAlloc-IsGiven s laid (alloc_from-IsAlloc sb rounds 0 s refl e))
      ]

  pub balloc-IsGiven :
      (s : Blocks) {a : ℕ} {s' : Blocks} → IsLaidOut s → balloc sb s ≡ some (a, s') → IsGiven s a s'
  balloc-IsGiven s laid e = subst (Outcome s) e (balloc_outcome s laid)

  -- What the outcome of `bfree` of block `a` says.
  abbrev pub Freed : Blocks → ℕ → Option Blocks → Type 0
  Freed s a none = used sb s a ≡ false
  Freed s a (some s') =
      (used sb s a ≡ true)
      × ((b : ℕ) → used sb s' b ≡ (not (a == b) && used sb s b))
      × ((b o : ℕ) → IsData sb b → a < sb.size → s' b o ≡ s b o)

  abbrev cleared : Blocks → ℕ → Blocks
  cleared s a =
      put s (bblock sb a) (a % bpb / 8) (clear_bit (s (bblock sb a) (a % bpb / 8)) (a % bpb % 8))

  used-cleared : (s : Blocks) (a b : ℕ) → used sb (cleared s a) b ≡ (not (a == b) && used sb s b)
  unfolding used put
  used-cleared s a b =
      let ba = a / bpb + sb.bmapstart in
      let bb = b / bpb + sb.bmapstart in
      elim (Bool-cases (bb == ba && b % bpb / 8 == a % bpb / 8)) [
        | inl hit ↦
            let eb : bb ≡ ba = ground arith in
            let eo : b % bpb / 8 ≡ a % bpb / 8 = ground arith in
            let same : (a % bpb % 8 == b % 8) ≡ (a == b) = ground arith in
            rw hit (
              has_bit-clear_bit (s ba (a % bpb / 8)) (a % bpb % 8) (b % 8)
              ∙ ap₂ (λ x y. not x && has_bit y (b % 8)) same (ap₂ s (sym eb) (sym eo)))
        | inr miss ↦ let other : (a == b) ≡ false = ground arith in rw (miss, other) refl
      ]

  cleared_rest : (s : Blocks) (a b o : ℕ) → IsData sb b → a < sb.size → cleared s a b o ≡ s b o
  unfolding put
  cleared_rest s a b o data_block inside =
      let apart : (b == a / bpb + sb.bmapstart) ≡ false = ground arith in rw apart refl

  -- `bfree` of a block panics if the block is free; otherwise it frees the block, changes no other bit
  -- of the map, and no data block if the block is one of the file system's.
  pub bfree_outcome : (s : Blocks) (a : ℕ) → Freed s a (bfree sb s a)
  unfolding bfree used
  bfree_outcome s a =
      let bi = a % bpb in
      let old = s (bblock sb a) (bi / 8) in
      let bit : bi % 8 ≡ a % 8 = omega arith in
      elim (Bool-cases (has_bit old (bi % 8))) [
        | inr clear ↦ rw clear (subst (λ k. has_bit old k ≡ false) bit clear)
        | inl busy ↦ rw busy (
          subst (λ k. has_bit old k ≡ true) bit busy,
          used-cleared s a,
          λ b o data_block lt. cleared_rest s a b o data_block lt,
        )
      ]
