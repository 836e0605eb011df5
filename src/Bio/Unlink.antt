-- ===== src/Bio/Unlink.antt =====
-- A buffer taken out of the ring.
use os_fcfs_prirority.Base.{
  ℕ, ◌≡◌, ◌≢◌, inl, inr, refl, sym, ap, ◌∙◌, subst, List, [], ◌∷◌, Bool-cases, update, update_self,
  update_ne, arith, ◌==◌, if◌then◌else◌,
}
use os_fcfs_prirority.Bio.{head, Links, push_front, unlink}
use os_fcfs_prirority.Bio.Ring.{Absent, Distinct, Chain}
use os_fcfs_prirority.Bio.Push.{framed-Chain, IsRing, other_than, push_front-IsRing}

-- The list without a buffer.
abbrev pub remove : ℕ → List ℕ → List ℕ
remove b [] = []
remove b (x ∷ l) = let rest = remove b l in if x == b then l else x ∷ rest

-- What is before a buffer of the list, and what is after it.
before_ne :
    (n p : ℕ → ℕ) (x e b a : ℕ) (l : List ℕ)
    → Chain n p x l e
    → ¬ Absent b l
    → a ≢ x
    → Absent a l
    → p b ≢ a
before_ne n p x e b a [] h here ne out q = here tt
before_ne n p x e b a (y ∷ l) (nx, py, h) here ne (ny, out) q = elim (Bool-cases (y == b)) [
  | inl same ↦ let at : y ≡ b = ground arith in ne (sym q ∙ ap p (sym at) ∙ py)
  | inr other ↦
      before_ne n p y e b a l h (λ gone. here ((λ z. absurd (ground arith)), gone)) ny out q
]

after_ne :
    (n p : ℕ → ℕ) (x e b z : ℕ) (l : List ℕ)
    → Chain n p x l e
    → ¬ Absent b l
    → Absent z l
    → z ≢ e
    → n b ≢ z
after_ne n p x e b z [] h here out ne q = here tt
after_ne n p x e b z (y ∷ l) (nx, py, h) here (zy, out) ne q = elim (Bool-cases (y == b)) [
  | inl same ↦ let at : y ≡ b = ground arith in next_ne l h out (sym q ∙ ap n (sym at))
  | inr other ↦
      after_ne n p y e b z l h (λ gone. here ((λ w. absurd (ground arith)), gone)) out ne q
]
  where
    next_ne : (l : List ℕ) → Chain n p y l e → Absent z l → z ≢ n y
    next_ne [] (ny, pe) gone q' = ne (q' ∙ ny)
    next_ne (c ∷ l') (ny, pc, h') (zc, gone) q' = zc (q' ∙ ny)

unlinked_next :
    (b : ℕ) (k : Links) (y : ℕ) → (unlink b k).next y ≡ update k.next (k.prev b) (k.next b) y
unfolding unlink
unlinked_next b k y = elim (Bool-cases (k.next b == b)) [
  | inl same ↦ rw same refl
  | inr other ↦ rw other refl
]

-- Taking a buffer out of the list.
unlink-Chain :
    (b : ℕ) (k : Links) (a e : ℕ) (l : List ℕ)
    → Chain k.next k.prev a l e
    → Absent a l
    → Absent e l
    → Distinct l
    → ¬ Absent b l
    → Chain (unlink b k).next (unlink b k).prev a (remove b l) e
unfolding unlink
unlink-Chain b k a e [] h oa oe d here = absurd (here tt)
unlink-Chain b k a e (x ∷ l) (na, px, h) (ax, oa) (ex, oe) (dx, d) here =
    elim (Bool-cases (x == b)) [
      | inl same ↦
          let at : x ≡ b = ground arith in
          rw same
            (skip l (subst (λ y. Chain k.next k.prev y l e) at h) oa oe d (sym (ap k.prev at) ∙ px))
      | inr other ↦
          let inner : ¬ Absent b l = λ gone. here ((λ z. absurd (ground arith)), gone) in
          let before = before_ne k.next k.prev x e b a l h inner ax oa in
          let after = after_ne k.next k.prev x e b x l h inner dx (λ z. ex (sym z)) in
          rw other (
            unlinked_next b k a ∙ update_ne k.next (k.prev b) (k.next b) a before ∙ na,
            update_ne k.prev (k.next b) (k.prev b) x after ∙ px,
            unlink-Chain b k x e l h dx oe d inner,
          )
    ]
  where
    skip :
        (l : List ℕ)
        → Chain k.next k.prev b l e
        → Absent a l
        → Absent e l
        → Distinct l
        → k.prev b ≡ a
        → Chain (unlink b k).next (unlink b k).prev a l e
    skip [] (nb, pe) oa oe d pb = (
      unlinked_next b k a
          ∙ ap (λ q. update k.next q (k.next b) a) pb
          ∙ update_self k.next a (k.next b)
          ∙ nb,
      ap (λ q. update k.prev q (k.prev b) e) nb ∙ update_self k.prev e (k.prev b) ∙ pb,
    )
    skip (c ∷ l') (nb, pc, h') (ac, oa) (ec, oe) (dc, d) pb =
        let next_same = λ (y : ℕ) (ne : a ≢ y).
          unlinked_next b k y
          ∙ ap (λ q. update k.next q (k.next b) y) pb
          ∙ update_ne k.next a (k.next b) y ne in
        let prev_same = λ (y : ℕ) (ne : c ≢ y).
          ap (λ q. update k.prev q (k.prev b) y) nb ∙ update_ne k.prev c (k.prev b) y ne in
        (
          unlinked_next b k a
              ∙ ap (λ q. update k.next q (k.next b) a) pb
              ∙ update_self k.next a (k.next b)
              ∙ nb,
          ap (λ q. update k.prev q (k.prev b) c) nb ∙ update_self k.prev c (k.prev b) ∙ pb,
          framed-Chain k.next k.prev (unlink b k).next (unlink b k).prev c e l' h' (next_same c ac)
              (prev_same e (λ z. ec (sym z)))
              (λ y there. (
                next_same y (other_than a y l' oa there),
                prev_same y (other_than c y l' dc there),
              )),
        )

pub Absent-remove : (x b : ℕ) (l : List ℕ) → Absent x l → Absent x (remove b l)
Absent-remove x b [] h = tt
Absent-remove x b (y ∷ l) (ne, h) = elim (Bool-cases (y == b)) [
  | inl same ↦ rw same h
  | inr other ↦ rw other (ne, Absent-remove x b l h)
]

Distinct-remove : (b : ℕ) (l : List ℕ) → Distinct l → Distinct (remove b l) × Absent b (remove b l)
Distinct-remove b [] d = (tt, tt)
Distinct-remove b (y ∷ l) (ny, d) = elim (Bool-cases (y == b)) [
  | inl same ↦ let e : y ≡ b = ground arith in rw same (d, subst (λ z. Absent z l) e ny)
  | inr other ↦
      let (rest, gone) = Distinct-remove b l d in
      rw other ((Absent-remove y b l ny, rest), ((λ z. absurd (ground arith)), gone))
]

-- `brelse` moves a buffer of the ring to its front.
pub moved-IsRing :
    (b : ℕ) (k : Links) (l : List ℕ)
    → IsRing k l
    → ¬ Absent b l
    → IsRing (push_front b (unlink b k)) (b ∷ remove b l)
moved-IsRing b k l (h, out, d) here =
    let (rest, gone) = Distinct-remove b l d in
    push_front-IsRing b (unlink b k) (remove b l)
      (unlink-Chain b k head head l h out out d here, Absent-remove head b l out, rest) gone
      (λ e. here (subst (λ x. Absent x l) (sym e) out))
