-- ===== src/Fs/Alloc.antt =====
-- What `balloc` and `bfree` do to the free map.
use os_fcfs_prirority.Base.{
  ℕ, zero, suc, ◌+◌, ◌-◌, ◌*◌, ◌/◌, ◌%◌, ◌≤◌, ◌<◌, ◌≡◌, inl, inr, refl, sym, ap, ap₂, ◌∙◌, subst,
  Bool, true, false, ◌&&◌, ◌||◌, none, some, first, first-some, first-none, IsFirst, Bool-cases,
  Option-cases, some_inj, arith, ltb, ◌==◌,
}
use os_fcfs_prirority.Fs.{
  Blocks, bpb, Superblock, put, bzero, bblock, is_free, mark, bits_at, alloc_from,
}
use os_fcfs_prirority.Fs.Bits.{has_bit, has_bit-set_bit}

module _ (sb : Superblock) where
  -- Whether block `b` is in use by the free map.
  unfoldable pub used : Blocks → ℕ → Bool
  used s b = has_bit (s (bblock sb b) (b % bpb / 8)) (b % 8)

  -- The map with the bit of block `a` set.
  abbrev pub marked : Blocks → ℕ → Blocks
  marked s a = mark sb s (a / bpb * bpb) (a % bpb)

  pub used-marked : (s : Blocks) (a b : ℕ) → used (marked s a) b ≡ (a == b || used s b)
  unfolding used mark put
  used-marked s a b =
      let ba = a / bpb * bpb / bpb + sb.bmapstart in
      let bb = b / bpb + sb.bmapstart in
      elim (Bool-cases (bb == ba && b % bpb / 8 == a % bpb / 8)) [
        | inl hit ↦
            let eb : bb ≡ ba = ground arith in
            let eo : b % bpb / 8 ≡ a % bpb / 8 = ground arith in
            let same : (a % bpb % 8 == b % 8) ≡ (a == b) = ground arith in
            rw hit (
              has_bit-set_bit (s ba (a % bpb / 8)) (a % bpb % 8) (b % 8)
              ∙ ap₂ (λ x y. x || has_bit y (b % 8)) same (ap₂ s (sym eb) (sym eo)))
        | inr miss ↦ let other : (a == b) ≡ false = ground arith in rw (miss, other) refl
      ]

  -- The data blocks come after the free map.
  abbrev pub IsData : ℕ → Type 0
  IsData b = sb.bmapstart + sb.size / bpb < b

  pub used-bzero : (s : Blocks) (a b : ℕ) → IsData a → b < sb.size → used (bzero s a) b ≡ used s b
  unfolding used bzero
  used-bzero s a b data_block lt =
      let other : (b / bpb + sb.bmapstart == a) ≡ false = ground arith in rw other refl

  pub record IsAlloc (s : Blocks) (lo a : ℕ) (s' : Blocks) : Type 0 where
    pub above : lo ≤ a
    pub below : a < sb.size
    pub free : used s a ≡ false
    pub misses : (b : ℕ) → lo ≤ b → b < a → used s b ≡ true
    pub blocks : s' ≡ bzero (marked s a) a

  used-at :
      (s : Blocks) (b bi : ℕ)
      → b % bpb ≡ 0
      → bi < bpb
      → used s (b + bi) ≡ has_bit (s (bblock sb b) (bi / 8)) (bi % 8)
  unfolding used
  used-at s b bi al lt =
      let group : (b + bi) / bpb ≡ b / bpb = omega arith in
      let rest : (b + bi) % bpb ≡ bi = omega arith in
      let bit : (b + bi) % 8 ≡ bi % 8 = omega arith in rw (group, rest, bit) refl

  mark-at : (s : Blocks) (b bi : ℕ) → b % bpb ≡ 0 → bi < bpb → marked s (b + bi) ≡ mark sb s b bi
  mark-at s b bi al lt =
      let group : (b + bi) / bpb * bpb ≡ b = omega arith in
      let rest : (b + bi) % bpb ≡ bi = omega arith in ap₂ (mark sb s) group rest

  found-IsAlloc :
      (s : Blocks) (b bi : ℕ)
      → b % bpb ≡ 0
      → b < sb.size
      → IsFirst (is_free sb s b) 0 (bits_at sb b) bi
      → IsAlloc s b (b + bi) (bzero (mark sb s b bi) (b + bi))
  found-IsAlloc s b bi al inside f =
      let lt : bi < bpb = ground (arith, f.below) in
      record {
        above = omega arith;
        below = ground (arith, f.below);
        free = ground (arith, f.hit, used-at s b bi al lt);
        misses = λ c lo hi. seen c lo hi;
        blocks = ap (λ t. bzero t (b + bi)) (sym (mark-at s b bi al lt));
      }
    where
      seen : (c : ℕ) → b ≤ c → c < b + bi → used s c ≡ true
      seen c lo hi =
          let lt : c - b < bpb = ground (arith, f.below) in
          let e : b + (c - b) ≡ c = omega arith in
          subst (λ d. used s d ≡ true) e
            (ground (arith, f.misses (c - b), used-at s b (c - b) al lt))

  skipped :
      (s : Blocks) (b c : ℕ)
      → b % bpb ≡ 0
      → first (is_free sb s b) (bits_at sb b) 0 ≡ none
      → b ≤ c
      → c < b + bpb
      → c < sb.size
      → used s c ≡ true
  skipped s b c al gone lo hi inside =
      let e : b + (c - b) ≡ c = omega arith in
      let miss =
        first-none (is_free sb s b) (bits_at sb b) 0 gone (c - b) (omega arith) (ground arith) in
      subst (λ d. used s d ≡ true) e (ground (arith, miss, used-at s b (c - b) al (omega arith)))

  pub alloc_from-IsAlloc :
      (n b : ℕ) (s : Blocks) {a : ℕ} {s' : Blocks}
      → b % bpb ≡ 0
      → alloc_from sb n b s ≡ some (a, s')
      → IsAlloc s b a s'
  unfolding alloc_from
  alloc_from-IsAlloc zero b s al h = cc
  alloc_from-IsAlloc (suc n) b s {a = a} {s' = s'} al h = elim (Bool-cases (ltb b sb.size)) [
    | inr past ↦ cc (rw past at h)
    | inl inside ↦ elim (Option-cases (first (is_free sb s b) (bits_at sb b) 0)) [
      | inr (bi, e) ↦
          let same = rw (inside, e) at h in
          subst (λ r. IsAlloc s b r.0 r.1) (some_inj same)
            (found-IsAlloc s b bi al (ground arith) (first-some _ _ _ _ e))
      | inl e ↦
          let later =
            alloc_from-IsAlloc n (b + bpb) s {a = a} {s' = s'} (omega arith)
              (rw (inside, e) at h) in
          record {
            above = omega (arith, later.above);
            below = later.below;
            free = later.free;
            blocks = later.blocks;
            misses = λ c lo hi. elim (Bool-cases (ltb c (b + bpb))) [
              | inl near ↦ skipped s b c al e lo (ground arith) (omega (arith, later.below))
              | inr far ↦ later.misses c (ground arith) hi
            ];
          }
    ]
  ]

  pub alloc_from-none :
      (n b : ℕ) (s : Blocks)
      → b % bpb ≡ 0
      → alloc_from sb n b s ≡ none
      → (c : ℕ) → b ≤ c
      → c < b + n * bpb
      → c < sb.size
      → used s c ≡ true
  unfolding alloc_from
  alloc_from-none zero b s al h c lo hi inside = absurd (omega arith)
  alloc_from-none (suc n) b s al h c lo hi inside =
      let on : ltb b sb.size ≡ true = ground arith in
      elim (Option-cases (first (is_free sb s b) (bits_at sb b) 0)) [
        | inr (bi, e) ↦ cc (rw (on, e) at h)
        | inl e ↦ elim (Bool-cases (ltb c (b + bpb))) [
          | inl near ↦ skipped s b c al e lo (ground arith) inside
          | inr far ↦
              alloc_from-none n (b + bpb) s (omega arith) (rw (on, e) at h) c (ground arith)
                (omega arith) inside
        ]
      ]
