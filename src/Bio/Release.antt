-- ===== src/Bio/Release.antt =====
-- `brelse` and `binit`.
use os_fcfs_prirority.Base.{
  ℕ, suc, ◌-◌, ◌≤◌, ◌<◌, ◌≡◌, ◌≢◌, inl, inr, refl, sym, ap, ◌∙◌, subst, true, false, List, [], ◌∷◌,
  Bool-cases, for_range_inv, update, update_self, update_ne, length, arith, ltb, ◌==◌,
  if◌then◌else◌,
}
use os_fcfs_prirority.Bio.{nbuf, head, Buf, Links, Bcache, push_front, unlink, binit, brelse}
use os_fcfs_prirority.Bio.Ring.{Absent}
use os_fcfs_prirority.Bio.Push.{IsRing, push_front-IsRing}
use os_fcfs_prirority.Bio.Unlink.{remove, Absent-remove, moved-IsRing}
use os_fcfs_prirority.Bio.Search.{IsCache}
use os_fcfs_prirority.Bio.Cache.{at_buf}

length-remove : (b : ℕ) (l : List ℕ) → ¬ Absent b l → suc (length (remove b l)) ≡ length l
length-remove b [] here = absurd (here tt)
length-remove b (x ∷ l) here = elim (Bool-cases (x == b)) [
  | inl same ↦ rw same refl
  | inr other ↦
      rw other (ap suc (length-remove b l (λ gone. here ((λ z. absurd (ground arith)), gone))))
]

put_back_in : (x b : ℕ) (l : List ℕ) → x ≢ b → Absent x (remove b l) → Absent x l
put_back_in x b [] ne h = tt
put_back_in x b (y ∷ l) ne h = elim (Bool-cases (y == b)) [
  | inl same ↦ ((λ z. ne (ground arith)), rw same at h)
  | inr other ↦ let (ny, out) = rw other at h in (ny, put_back_in x b l ne out)
]

-- The same buffers, linked in another order.
relinked :
    (c : Bcache) (k : Links) (l l' : List ℕ)
    → IsCache c l
    → IsRing k l'
    → length l' ≡ length l
    → ((x : ℕ) → Absent x l' → Absent x l)
    → ((x : ℕ) → Absent x l → Absent x l')
    → IsCache (record c { links = k }) l'
relinked c k l l' h ring size less more = record {
  ring = ring;
  size = size ∙ h.size;
  inside = λ b here. h.inside b (λ gone. here (more b gone));
  full = λ b lt gone. h.full b lt (less b gone);
  single = h.single;
}

front_less : (b : ℕ) (l : List ℕ) (x : ℕ) → Absent x (b ∷ remove b l) → Absent x l
front_less b l x (ne, gone) = put_back_in x b l ne gone

-- `brelse` of a buffer with a reference: it has one less; with none left it is the most recently used
-- one, and the others stay in their order; the cache still has all its buffers in a ring and no block
-- twice, and no other buffer is changed.
pub brelse-IsCache :
    (c : Bcache) (l : List ℕ) (b : ℕ)
    → IsCache c l
    → b < nbuf
    → 0 < (c.bufs b).refcnt
    → IsCache (brelse b c) (if (c.bufs b).refcnt == 1 then b ∷ remove b l else l)
      × ((brelse b c).bufs b ≡ record (c.bufs b) { refcnt = (c.bufs b).refcnt - 1 })
      × ((j : ℕ) → j ≢ b → (brelse b c).bufs j ≡ c.bufs j)
unfolding brelse
brelse-IsCache c l b h lt some_ref =
    let new : Buf = record (c.bufs b) { refcnt = (c.bufs b).refcnt - 1 } in
    let here = h.full b lt in
    let c' : Bcache = record c { bufs = update c.bufs b new } in
    let h' =
      at_buf c l b new h
        (λ j hj ne nz ed eb. ne (h.single j b hj lt (λ z. nz (sym ed ∙ z)) ed eb)) in
    (
      elim (Bool-cases ((c.bufs b).refcnt == 1)) [
        | inl last ↦
            let t : ((c.bufs b).refcnt - 1 == 0) ≡ true = ground arith in
            rw (last, t)
              (relinked c' (push_front b (unlink b c.links)) l (b ∷ remove b l) h'
                (moved-IsRing b c.links l h.ring here) (length-remove b l here) (front_less b l)
                (λ x gone. (λ e. here (subst (λ y. Absent y l) e gone), Absent-remove x b l gone)))
        | inr others ↦
            let t : ((c.bufs b).refcnt - 1 == 0) ≡ false = ground arith in rw (others, t) h'
      ],
      update_self c.bufs b new,
      λ j ne. update_ne c.bufs b new j (λ q. ne (sym q)),
    )

-- What `binit` has linked before buffer `j`.
abbrev Linked : ℕ → Links → Type 0
Linked j k =
    (l : List ℕ) × IsRing k l
    × (length l ≡ j)
    × ((x : ℕ) → j ≤ x → x ≢ head → Absent x l)
    × ((x : ℕ) → x < j → ¬ Absent x l)

binit-Linked : (k : Links) → Linked nbuf (binit k)
unfolding binit
binit-Linked k =
    for_range_inv Linked push_front nbuf nbuf 0 refl
      (λ j s lo hi (l, ring, size, out, all). (
        j ∷ l,
        push_front-IsRing j s l ring (out j (omega arith) (omega arith)) (omega arith),
        ap suc size,
        λ x le ne. ((λ z. absurd (omega arith)), out x (omega arith) ne),
        λ x lt (ne, gone). all x (ground arith) gone,
      ))
      (record { next = update k.next head head; prev = update k.prev head head })
      (
        [],
        ((update_self k.next head head, update_self k.prev head head), tt, tt),
        refl,
        λ x le ne. tt,
        λ x lt. absurd (omega arith),
      )

-- After `binit` all buffers are in a ring; where none has a block of a device yet.
pub binit-IsCache :
    (bufs : ℕ → Buf) (k : Links)
    → ((j : ℕ) → (bufs j).dev ≡ 0)
    → (l : List ℕ) × IsCache (record { bufs = bufs; links = binit k }) l
binit-IsCache bufs k empty =
    let (l, ring, size, out, all) = binit-Linked k in
    (
      l,
      record {
        ring = ring;
        size = size;
        inside = λ b here. elim (Bool-cases (ltb b nbuf)) [
          | inl lt ↦ ground arith
          | inr ge ↦ elim (Bool-cases (b == head)) [
            | inl at ↦
                let e : head ≡ b = ground arith in absurd (here (subst (λ x. Absent x l) e ring.1))
            | inr other ↦ absurd (here (out b (ground arith) (ground arith)))
          ]
        ];
        full = all;
        single = λ i j hi hj nz. absurd (nz (empty i));
      },
    )
