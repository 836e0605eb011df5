-- ===== src/Bio/Cache.antt =====
-- One buffer for a block, the least recently used one recycled.
use os_fcfs_prirority.Base.{
  ℕ, ◌+◌, ◌<◌, ◌≡◌, ◌≢◌, inl, inr, sym, ap, ◌∙◌, Bool, true, false, Option, none, some, List,
  Bool-cases, Option-cases, update, update_self, update_ne, arith, ◌==◌,
}
use os_fcfs_prirority.Bio.{nbuf, Buf, Bcache, is_for, is_unused, recycled, bget}
use os_fcfs_prirority.Bio.Ring.{find, backward, Absent-backward}
use os_fcfs_prirority.Bio.Search.{IsCache, find_hit, find_miss, in_order, first_with, last_unused}

-- How `bget` got its buffer: the block had it; or none had the block, and it is the least recently used
-- one that is not in use.
pub data How (c : Bcache) (l : List ℕ) (dev blockno b : ℕ) (got : Buf) : Type 0 where
  hit :
      is_for dev blockno (c.bufs b) ≡ true
      → got ≡ record (c.bufs b) { refcnt = (c.bufs b).refcnt + 1 }
      → How c l dev blockno b got
  miss :
      ((j : ℕ) → j < nbuf → is_for dev blockno (c.bufs j) ≡ false)
      → find (λ j. is_unused (c.bufs j)) (backward l) ≡ some b
      → got ≡ recycled dev blockno (c.bufs b)
      → How c l dev blockno b got

pub record IsGot (c : Bcache) (l : List ℕ) (dev blockno b : ℕ) (c' : Bcache) : Type 0 where
  pub valid : IsCache c' l
  pub inside : b < nbuf
  pub how : How c l dev blockno b (c'.bufs b)
  pub key : is_for dev blockno (c'.bufs b) ≡ true
  pub others : (j : ℕ) → j ≢ b → c'.bufs j ≡ c.bufs j

abbrev pub Outcome : Bcache → List ℕ → ℕ → ℕ → Option (ℕ × Bcache) → Type 0
Outcome c l dev blockno none =
    (j : ℕ) → j < nbuf → (is_for dev blockno (c.bufs j) ≡ false) × (is_unused (c.bufs j) ≡ false)
Outcome c l dev blockno (some (b, c')) = IsGot c l dev blockno b c'

-- The cache with a new buffer at `b`, for a block that no other has.
pub at_buf :
    (c : Bcache) (l : List ℕ) (b : ℕ) (new : Buf)
    → IsCache c l
    → ((j : ℕ)
        → j < nbuf
        → j ≢ b
        → new.dev ≢ 0
        → (c.bufs j).dev ≡ new.dev
        → (c.bufs j).blockno ≢ new.blockno)
    → IsCache (record c { bufs = update c.bufs b new }) l
at_buf c l b new h alone = record {
  ring = h.ring;
  size = h.size;
  inside = h.inside;
  full = h.full;
  single = λ i j hi hj. one_key i j hi hj;
}
  where
    one_key :
        (i j : ℕ)
        → i < nbuf
        → j < nbuf
        → (update c.bufs b new i).dev ≢ 0
        → (update c.bufs b new i).dev ≡ (update c.bufs b new j).dev
        → (update c.bufs b new i).blockno ≡ (update c.bufs b new j).blockno
        → i ≡ j
    one_key i j hi hj some_dev same_dev same_block = elim (Bool-cases (b == i)) [
      | inl at_i ↦ elim (Bool-cases (b == j)) [
        | inl at_j ↦ ground arith
        | inr off_j ↦ absurd (
            alone j hj (ground arith) (rw at_i at some_dev) (sym (rw (at_i, off_j) at same_dev))
              (sym (rw (at_i, off_j) at same_block)))
      ]
      | inr off_i ↦ elim (Bool-cases (b == j)) [
        | inl at_j ↦
            let e = rw (off_i, at_j) at same_dev in
            absurd (
              alone i hi (ground arith) (λ z. rw off_i at some_dev (e ∙ z)) e
                (rw (off_i, at_j) at same_block))
        | inr off_j ↦
            h.single i j hi hj (rw off_i at some_dev) (rw (off_i, off_j) at same_dev)
              (rw (off_i, off_j) at same_block)
      ]
    ]

hit-IsGot :
    (c : Bcache) (l : List ℕ) (dev blockno b : ℕ)
    → IsCache c l
    → find (λ j. is_for dev blockno (c.bufs j)) l ≡ some b
    → IsGot c l dev blockno b
        (record c { bufs = update c.bufs b (record (c.bufs b) { refcnt = (c.bufs b).refcnt + 1 }) })
hit-IsGot c l dev blockno b h e =
    let (here, key) = find_hit (λ j. is_for dev blockno (c.bufs j)) l b e in
    let new : Buf = record (c.bufs b) { refcnt = (c.bufs b).refcnt + 1 } in
    let at = update_self c.bufs b new in
    let lt = h.inside b here in
    record {
      valid =
          at_buf c l b new h
            (λ j hj ne nz ed eb. ne (h.single j b hj lt (λ z. nz (sym ed ∙ z)) ed eb));
      inside = lt;
      how = hit key at;
      key = ap (is_for dev blockno) at ∙ key;
      others = λ j ne. update_ne c.bufs b new j (λ q. ne (sym q));
    }

none_has :
    (c : Bcache) (l : List ℕ) (test : ℕ → Bool) (j : ℕ)
    → IsCache c l
    → find test l ≡ none
    → j < nbuf
    → test j ≡ false
none_has c l test j h e lt = elim (find_miss test l j e) [
  | inl no_hit ↦ no_hit
  | inr gone ↦ absurd (h.full j lt gone)
]

none_unused :
    (c : Bcache) (l : List ℕ) (test : ℕ → Bool) (j : ℕ)
    → IsCache c l
    → find test (backward l) ≡ none
    → j < nbuf
    → test j ≡ false
none_unused c l test j h e lt = elim (find_miss test (backward l) j e) [
  | inl no_hit ↦ no_hit
  | inr gone ↦ absurd (h.full j lt (in_order j l gone))
]

miss-IsGot :
    (c : Bcache) (l : List ℕ) (dev blockno b : ℕ)
    → IsCache c l
    → find (λ j. is_for dev blockno (c.bufs j)) l ≡ none
    → find (λ j. is_unused (c.bufs j)) (backward l) ≡ some b
    → IsGot c l dev blockno b
        (record c { bufs = update c.bufs b (recycled dev blockno (c.bufs b)) })
miss-IsGot c l dev blockno b h e r =
    let (here, _) = find_hit (λ j. is_unused (c.bufs j)) (backward l) b r in
    let new = recycled dev blockno (c.bufs b) in
    let at = update_self c.bufs b new in
    let lt = h.inside b (λ gone. here (Absent-backward b l gone)) in
    let no_key =
      λ (j : ℕ) (hj : j < nbuf). none_has c l (λ i. is_for dev blockno (c.bufs i)) j h e hj in
    record {
      valid = at_buf c l b new h (λ j hj ne nz ed eb. let m = no_key j hj in absurd (ground arith));
      inside = lt;
      how = miss no_key r at;
      key = ap (is_for dev blockno) at ∙ ground arith;
      others = λ j ne. update_ne c.bufs b new j (λ q. ne (sym q));
    }

-- `bget` in a cache whose links are a ring of all buffers and that has no block of a device twice, for
-- a block of a device: it returns a buffer of the block with a reference more, whose block had it, or
-- else the least recently used one that is not in use, made one of the block and not valid; the cache
-- still has no block twice, and no other buffer and no link is changed. Or it panics, and no buffer has
-- the block, and all are in use.
pub bget_outcome :
    (c : Bcache) (l : List ℕ) (dev blockno : ℕ)
    → IsCache c l
    → Outcome c l dev blockno (bget dev blockno c)
unfolding bget
bget_outcome c l dev blockno h =
    let first = first_with c l (λ j. is_for dev blockno (c.bufs j)) h in
    let last = last_unused c l (λ j. is_unused (c.bufs j)) h in
    elim (Option-cases (find (λ j. is_for dev blockno (c.bufs j)) l)) [
      | inr (b, e) ↦ rw (bget, first, e) (hit-IsGot c l dev blockno b h e)
      | inl e ↦ elim (Option-cases (find (λ j. is_unused (c.bufs j)) (backward l))) [
        | inr (b, r) ↦ rw (bget, first, e, last, r) (miss-IsGot c l dev blockno b h e r)
        | inl r ↦
            rw (bget, first, e, last, r)
              (λ j hj. (
                none_has c l (λ i. is_for dev blockno (c.bufs i)) j h e hj,
                none_unused c l (λ i. is_unused (c.bufs i)) j h r hj,
              ))
      ]
    ]
