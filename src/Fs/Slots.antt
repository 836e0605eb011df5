-- ===== src/Fs/Slots.antt =====
-- A slot of an inode that gets a block: the first step of `bmap`.
use os_fcfs_prirority.Base.{
  ℕ, ◌+◌, ◌-◌, ◌*◌, ◌/◌, ◌^◌, ◌≤◌, ◌<◌, ◌≡◌, ◌≢◌, inl, inr, refl, sym, ap, ◌∙◌, subst, true, false,
  some, Option-cases, Bool-cases, some_inj, update, arith, ltb, leb, ◌==◌, if◌then◌else◌,
}
use os_fcfs_prirority.Fs.{Blocks, bpb, Superblock, get_word, put, put_word, balloc}
use os_fcfs_prirority.Fs.Alloc.{IsData}
use os_fcfs_prirority.Fs.Balloc.{IsLaidOut, IsGiven, balloc-IsGiven}
use os_fcfs_prirority.Fs.Inode.{Inode, ndirect, maxfile, slot_block}
use os_fcfs_prirority.Fs.Owner.{
  owned, byte_of, max_bytes, IsSized, IsOwner, Grown, grown-IsOwner, grown-byte_of,
}

pub get_word-same :
    (s s' : Blocks) (b i : ℕ) → ((o : ℕ) → s' b o ≡ s b o) → get_word s' b i ≡ get_word s b i
unfolding get_word
get_word-same s s' b i same =
    omega (arith, same (4 * i), same (4 * i + 1), same (4 * i + 2), same (4 * i + 3))

get_word-zeroed : (s : Blocks) (b i : ℕ) → ((o : ℕ) → s b o ≡ 0) → get_word s b i ≡ 0
unfolding get_word
get_word-zeroed s b i zeros =
    omega (arith, zeros (4 * i), zeros (4 * i + 1), zeros (4 * i + 2), zeros (4 * i + 3))

-- A word that is written is read back, and other words are left alone.
pub get_word-put_word :
    (s : Blocks) (b i v j : ℕ)
    → v < 2 ^ 32
    → get_word (put_word s b i v) b j ≡ (if j == i then v else get_word s b j)
unfolding get_word put_word put
get_word-put_word s b i v j lt = ground arith

pub put_word-other : (s : Blocks) (b i v c o : ℕ) → c ≢ b → put_word s b i v c o ≡ s c o
unfolding put_word put
put_word-other s b i v c o ne = ground arith

module _ (sb : Superblock) where
  -- Slot `k` of the inode has block `a`, and its contents are what they were.
  pub record Got (ip : Inode) (s : Blocks) (k a : ℕ) (ip' : Inode) (s' : Blocks) : Type 0 where
    pub own : IsOwner sb (owned ip' s') s'
    pub at : owned ip' s' k ≡ a
    pub there : a ≢ 0
    pub same : (o : ℕ) → o < max_bytes → byte_of (owned ip' s') s' o ≡ byte_of (owned ip s) s o
    pub kept : (j : ℕ) → j ≤ maxfile → owned ip s j ≢ 0 → owned ip' s' j ≡ owned ip s j
    pub only : ip' ≡ record ip { addrs = ip'.addrs }
    pub meta : (b o : ℕ) → b < sb.bmapstart → s' b o ≡ s b o

  pub given-IsData : {s s' : Blocks} {a : ℕ} → IsLaidOut sb s → IsGiven sb s a s' → IsData sb a
  given-IsData {s} {s'} {a} laid g = elim (Bool-cases (ltb (sb.bmapstart + sb.size / bpb) a)) [
    | inl past ↦ ground arith
    | inr before ↦ cc (sym g.fresh ∙ laid.meta a (ground arith))
  ]

  -- The blocks before the map are as they were.
  pub given-meta :
      {s s' : Blocks} {a : ℕ}
      → IsLaidOut sb s
      → IsGiven sb s a s'
      → (b o : ℕ) → b < sb.bmapstart
      → s' b o ≡ s b o
  given-meta laid g b o lt =
      let after = given-IsData laid g in
      g.frame b o (λ e. absurd (omega arith)) (inl (λ e. absurd (omega arith)))

  pub Got-trans :
      (ip ip1 ip2 : Inode) (s s1 s2 : Blocks) (j a k b : ℕ)
      → Got ip s j a ip1 s1
      → Got ip1 s1 k b ip2 s2
      → Got ip s k b ip2 s2
  Got-trans ip ip1 ip2 s s1 s2 j a k b g h = record {
    own = h.own;
    at = h.at;
    there = h.there;
    same = λ o lt. h.same o lt ∙ g.same o lt;
    kept = λ i hi some_block.
        let e = g.kept i hi some_block in h.kept i hi (λ z. some_block (sym e ∙ z)) ∙ e;
    only = h.only ∙ ap (λ (r : Inode). record r { addrs = ip2.addrs }) g.only;
    meta = λ c o lt. h.meta c o lt ∙ g.meta c o lt;
  }

  pub Grown-Got :
      (sized : IsSized sb) (ip ip' : Inode) (s s' : Blocks) (k a : ℕ)
      → IsOwner sb (owned ip s) s
      → Grown sb (owned ip s) s k a (owned ip' s') s'
      → ip' ≡ record ip { addrs = ip'.addrs }
      → Got ip s k a ip' s'
  Grown-Got sized ip ip' s s' k a own g only = record {
    own = grown-IsOwner sb sized own g;
    at = ground (arith, g.next k g.slot);
    there = ground (arith, g.data_block);
    same = λ o lt. grown-byte_of sb sized own g o lt;
    kept = λ j hj some_block. ground (arith, g.next j hj, g.gap);
    only = only;
    meta = g.meta;
  }

  indirect_same :
      (x i : ℕ) (s s' : Blocks) (a : ℕ)
      → IsLaidOut sb s
      → IsGiven sb s a s'
      → (x ≢ 0 → IsData sb x)
      → (x ≢ 0 → x ≢ a)
      → (if x == 0 then 0 else get_word s' x i) ≡ (if x == 0 then 0 else get_word s x i)
  indirect_same x i s s' a laid g after ne = elim (Bool-cases (x == 0)) [
    | inl none_yet ↦ rw none_yet refl
    | inr there ↦
        let some_block : x ≢ 0 = ground arith in
        rw there (get_word-same s s' x i (λ o. g.rest x o (after some_block) (ne some_block)))
  ]

  slot-next :
      (ip : Inode) (s s' : Blocks) (k a : ℕ)
      → IsOwner sb (owned ip s) s
      → IsGiven sb s a s'
      → k ≤ ndirect
      → ip.addrs k ≡ 0
      → (j : ℕ) → j ≤ maxfile
      → owned (record ip { addrs = update ip.addrs k a }) s' j
        ≡ (if j == k then a else owned ip s j)
  slot-next ip s s' k a own g hk gap j hj = elim (Bool-cases (leb j ndirect)) [
    | inl direct ↦ rw direct (ground arith)
    | inr later ↦
        let other : (j == k) ≡ false = ground arith in
        elim (Bool-cases (k == ndirect)) [
          | inl last ↦
              let e : k ≡ ndirect = ground arith in
              let gap' : ip.addrs ndirect ≡ 0 = ap ip.addrs (sym e) ∙ gap in
              rw (later, other, last, gap') (ground (arith, get_word-zeroed s' a (j - 13) g.zeroed))
          | inr early ↦
              rw (later, other, early)
                (indirect_same (ip.addrs ndirect) (j - 13) s s' a own.laid g
                  (λ some_block. own.after ndirect (omega arith) some_block)
                  (λ some_block e. cc (own.taken ndirect (omega arith) some_block, e, g.fresh)))
        ]
  ]

  slot-Grown :
      (ip : Inode) (s s' : Blocks) (k a : ℕ)
      → IsOwner sb (owned ip s) s
      → IsGiven sb s a s'
      → k ≤ ndirect
      → ip.addrs k ≡ 0
      → Grown sb (owned ip s) s k a (owned (record ip { addrs = update ip.addrs k a }) s') s'
  slot-Grown ip s s' k a own g hk gap = record {
    slot = omega arith;
    gap = ground arith;
    fresh = g.fresh;
    data_block = given-IsData own.laid g;
    below = g.inside;
    next = slot-next ip s s' k a own g hk gap;
    zeroed = g.zeroed;
    map = g.map;
    rest = λ b o after ne _. g.rest b o after ne;
    meta = λ b o lt. given-meta own.laid g b o lt;
  }

  pub slot_block-Got :
      (sized : IsSized sb) (ip ip' : Inode) (s s' : Blocks) (k a : ℕ)
      → IsOwner sb (owned ip s) s
      → k ≤ ndirect
      → slot_block sb ip k s ≡ some (a, ip', s')
      → Got ip s k a ip' s'
  unfolding slot_block
  slot_block-Got sized ip ip' s s' k a own hk h = elim (Bool-cases (ip.addrs k == 0)) [
    | inr there ↦
        let direct : leb k ndirect ≡ true = ground arith in
        subst (λ r. Got ip s k r.0 r.1 r.2) (some_inj (rw there at h))
          (record {
            own = own;
            at = rw direct refl;
            there = ground arith;
            same = λ o lt. refl;
            kept = λ j hj some_block. refl;
            only = refl;
            meta = λ c o lt. refl;
          })
    | inl gap ↦ elim (Option-cases (balloc sb s)) [
      | inl e ↦ cc (rw (gap, e) at h)
      | inr ((b, s1), e) ↦
          let g = balloc-IsGiven sb s own.laid e in
          let none_yet : ip.addrs k ≡ 0 = ground arith in
          subst (λ r. Got ip s k r.0 r.1 r.2) (some_inj (rw (gap, e) at h))
            (Grown-Got sized ip (record ip { addrs = update ip.addrs k b }) s s1 k b own
              (slot-Grown ip s s1 k b own g hk none_yet) refl)
    ]
  ]
