-- ===== src/Fs/Bmap.antt =====
-- `bmap`: the block of the contents is the one of its slot, and the contents stay.
use os_fcfs_prirority.Base.{
  ℕ, ◌+◌, ◌-◌, ◌/◌, ◌%◌, ◌^◌, ◌≤◌, ◌<◌, ◌≡◌, ◌≢◌, inl, inr, refl, sym, ap, ◌∙◌, subst, false, some,
  Option-cases, Bool-cases, some_inj, arith, ltb, leb, ◌==◌, if◌then◌else◌,
}
use os_fcfs_prirority.Fs.{Blocks, bpb, Superblock, get_word, put_word, balloc}
use os_fcfs_prirority.Fs.Alloc.{used, IsData}
use os_fcfs_prirority.Fs.Bits.{has_bit}
use os_fcfs_prirority.Fs.Balloc.{IsGiven, balloc-IsGiven}
use os_fcfs_prirority.Fs.Inode.{Inode, ndirect, nindirect, maxfile, slot_block, entry_block, bmap}
use os_fcfs_prirority.Fs.Owner.{owned, slot_of, IsSized, IsOwner, Grown}
use os_fcfs_prirority.Fs.Slots.{
  Got, get_word-same, get_word-put_word, put_word-other, given-IsData, given-meta, Got-trans,
  Grown-Got, slot_block-Got,
}

module _ (sb : Superblock) where
  pub used-same :
      (s s' : Blocks) (x b : ℕ)
      → IsData sb x
      → b < sb.size
      → ((c o : ℕ) → c ≢ x → s' c o ≡ s c o)
      → used sb s' b ≡ used sb s b
  unfolding used
  used-same s s' x b after lt same =
      let ne : b / bpb + sb.bmapstart ≢ x = omega arith in
      ap (λ t. has_bit t (b % 8)) (same (b / bpb + sb.bmapstart) (b % bpb / 8) ne)

  pub entry-at :
      (ip : Inode) (s : Blocks) (i : ℕ)
      → ip.addrs ndirect ≢ 0
      → owned ip s (13 + i) ≡ get_word s (ip.addrs ndirect) i
  entry-at ip s i there =
      let later : leb (13 + i) ndirect ≡ false = ground arith in
      let some_block : (ip.addrs ndirect == 0) ≡ false = ground arith in
      let back : 13 + i - 13 ≡ i = omega arith in rw (later, some_block, back) refl

  entry-next :
      (ip : Inode) (s s1 : Blocks) (i a : ℕ)
      → a < 2 ^ 32
      → ip.addrs ndirect ≢ 0
      → ((o : ℕ) → s1 (ip.addrs ndirect) o ≡ s (ip.addrs ndirect) o)
      → (j : ℕ)
      → owned ip (put_word s1 (ip.addrs ndirect) i a) j ≡ (if j == 13 + i then a else owned ip s j)
  entry-next ip s s1 i a lt there same j = elim (Bool-cases (leb j ndirect)) [
    | inl direct ↦ rw direct (ground arith)
    | inr later ↦
        let x = ip.addrs ndirect in
        let some_block : (x == 0) ≡ false = ground arith in
        rw (later, some_block)
          (get_word-put_word s1 x i a (j - 13) lt
            ∙ ground (arith, get_word-same s s1 x (j - 13) same))
  ]

  entry-Grown :
      (sized : IsSized sb) (ip : Inode) (s s1 : Blocks) (i a : ℕ)
      → IsOwner sb (owned ip s) s
      → IsGiven sb s a s1
      → ip.addrs ndirect ≢ 0
      → i < nindirect
      → get_word s (ip.addrs ndirect) i ≡ 0
      → Grown sb
          (owned ip s)
          s
          (13 + i)
          a
          (owned ip (put_word s1 (ip.addrs ndirect) i a))
          (put_word s1 (ip.addrs ndirect) i a)
  entry-Grown sized ip s s1 i a own g there hi gap =
      let x = ip.addrs ndirect in
      let after = own.after ndirect (omega arith) there in
      let ne : x ≢ a = λ e. cc (own.taken ndirect (omega arith) there, e, g.fresh) in
      record {
        slot = omega arith;
        gap = entry-at ip s i there ∙ gap;
        fresh = g.fresh;
        data_block = given-IsData sb own.laid g;
        below = g.inside;
        next = λ j _.
            entry-next ip s s1 i a (omega (arith, g.inside, sized.small)) there
              (λ o. g.rest x o after ne) j;
        zeroed = λ o. put_word-other s1 x i a a o (λ e. ne (sym e)) ∙ g.zeroed o;
        map = λ b lt.
            used-same s1 (put_word s1 x i a) x b after lt
              (λ c o other. put_word-other s1 x i a c o other)
            ∙ g.map b lt;
        rest = λ b o data_block other not_x.
            put_word-other s1 x i a b o not_x ∙ g.rest b o data_block other;
        meta = λ b o lt.
            put_word-other s1 x i a b o (λ e. absurd (omega arith))
            ∙ given-meta sb own.laid g b o lt;
      }

  entry_block-Got :
      (sized : IsSized sb) (ip : Inode) (s s' : Blocks) (i a : ℕ)
      → IsOwner sb (owned ip s) s
      → ip.addrs ndirect ≢ 0
      → i < nindirect
      → entry_block sb (ip.addrs ndirect) i s ≡ some (a, s')
      → Got sb ip s (13 + i) a ip s'
  unfolding entry_block
  entry_block-Got sized ip s s' i a own there hi h =
      let x = ip.addrs ndirect in
      elim (Bool-cases (get_word s x i == 0)) [
        | inr old ↦
            subst (λ r. Got sb ip s (13 + i) r.0 ip r.1) (some_inj (rw old at h))
              (record {
                own = own;
                at = entry-at ip s i there;
                there = ground arith;
                same = λ o lt. refl;
                kept = λ j hj some_block. refl;
                only = refl;
                meta = λ c o lt. refl;
              })
        | inl gap ↦ elim (Option-cases (balloc sb s)) [
          | inl e ↦ cc (rw (gap, e) at h)
          | inr ((b, s1), e) ↦
              subst (λ r. Got sb ip s (13 + i) r.0 ip r.1) (some_inj (rw (gap, e) at h))
                (Grown-Got sb sized ip ip s (put_word s1 x i b) (13 + i) b own
                  (entry-Grown sized ip s s1 i b own (balloc-IsGiven sb s own.laid e) there hi
                    (ground arith))
                  refl)
        ]
      ]

  through :
      (sized : IsSized sb) (ip ip1 : Inode) (s s1 s2 : Blocks) (bn x b : ℕ)
      → Got sb ip s ndirect x ip1 s1
      → ndirect ≤ bn
      → bn < maxfile
      → entry_block sb x (bn - ndirect) s1 ≡ some (b, s2)
      → Got sb ip s (bn + 1) b ip1 s2
  through sized ip ip1 s s1 s2 bn x b g lo hi e =
      let some_block : ip1.addrs ndirect ≢ 0 = λ z. g.there (sym g.at ∙ z) in
      let slot : 13 + (bn - ndirect) ≡ bn + 1 = omega arith in
      let e' : entry_block sb (ip1.addrs ndirect) (bn - ndirect) s1 ≡ some (b, s2) =
        ap (λ y. entry_block sb y (bn - ndirect) s1) g.at ∙ e in
      Got-trans sb ip ip1 ip1 s s1 s2 ndirect x (bn + 1) b g (
        subst (λ k. Got sb ip1 s1 k b ip1 s2) slot
          (entry_block-Got sized ip1 s1 s2 (bn - ndirect) b g.own some_block (omega arith) e'))

  -- `bmap` of a block of the contents that returns: the block is the one of its slot.
  pub bmap-Got :
      (sized : IsSized sb) (ip ip' : Inode) (s s' : Blocks) (bn a : ℕ)
      → IsOwner sb (owned ip s) s
      → bmap sb ip bn s ≡ some (a, ip', s')
      → Got sb ip s (slot_of bn) a ip' s'
  unfolding bmap
  bmap-Got sized ip ip' s s' bn a own h = elim (Bool-cases (ltb bn ndirect)) [
    | inl direct ↦
        rw direct (slot_block-Got sb sized ip ip' s s' bn a own (ground arith) (rw direct at h))
    | inr later ↦ elim (Bool-cases (ltb (bn - ndirect) nindirect)) [
      | inr out ↦ cc (rw (later, out) at h)
      | inl inside ↦ elim (Option-cases (slot_block sb ip ndirect s)) [
        | inl e ↦ cc (rw (later, inside, e) at h)
        | inr ((x, ip1, s1), e) ↦ elim (Option-cases (entry_block sb x (bn - ndirect) s1)) [
          | inl e2 ↦ cc (rw (later, inside, e, e2) at h)
          | inr ((b, s2), e2) ↦
              let g = slot_block-Got sb sized ip ip1 s s1 ndirect x own (omega arith) e in
              rw later (
                subst (λ r. Got sb ip s (bn + 1) r.0 r.1 r.2)
                  (some_inj (rw (later, inside, e, e2) at h))
                  (through sized ip ip1 s s1 s2 bn x b g (ground arith) (ground arith) e2))
        ]
      ]
    ]
  ]
