-- ===== src/Bio/Push.antt =====
-- The ring of a list of buffers, and a buffer put in front.
use os_fcfs_prirority.Base.{
  ℕ, ◌≡◌, ◌≢◌, refl, sym, ap, ◌∙◌, subst, false, List, [], ◌∷◌, update, update_self, update_ne,
  arith, ◌==◌,
}
use os_fcfs_prirority.Bio.{head, Links, push_front}
use os_fcfs_prirority.Bio.Ring.{Absent, Distinct, Chain}

-- Writes outside a chain.
pub framed-Chain :
    (n p n' p' : ℕ → ℕ) (a e : ℕ) (l : List ℕ)
    → Chain n p a l e
    → n' a ≡ n a
    → p' e ≡ p e
    → ((x : ℕ) → ¬ Absent x l → (n' x ≡ n x) × (p' x ≡ p x))
    → Chain n' p' a l e
framed-Chain n p n' p' a e [] (na, pe) ea ep same = (ea ∙ na, ep ∙ pe)
framed-Chain n p n' p' a e (b ∷ l) (na, pb, h) ea ep same =
    let at_b = same b (λ (ne, _). ne refl) in
    (
      ea ∙ na,
      at_b.1 ∙ pb,
      framed-Chain n p n' p' b e l h at_b.0 ep (λ x here. same x (λ (_, out). here out)),
    )

-- The ring of the buffers of the list, from `bcache.head` on.
abbrev pub IsRing : Links → List ℕ → Type 0
IsRing k l = Chain k.next k.prev head l head × Absent head l × Distinct l

-- A buffer in a list is none that is not.
pub other_than : (b x : ℕ) (l : List ℕ) → Absent b l → ¬ Absent x l → b ≢ x
other_than b x l out here e = here (subst (λ y. Absent y l) e out)

push_front-Chain :
    (b : ℕ) (k : Links) (l : List ℕ)
    → Chain k.next k.prev head l head
    → Absent head l
    → Distinct l
    → Absent b l
    → b ≢ head
    → Chain (push_front b k).next (push_front b k).prev b l head
unfolding push_front
push_front-Chain b k [] (na, pe) out d new ne =
    let t : (b == head) ≡ false = ground arith in
    let t' : (head == b) ≡ false = ground arith in
    (rw t' (update_self k.next b (k.next head) ∙ na), rw (t, na) refl)
push_front-Chain b k (c ∷ l) (na, pc, h) (oc, out) (dc, d) (nc, new) ne =
    let t : (b == head) ≡ false = ground arith in
    let t' : (head == b) ≡ false = ground arith in
    let back : (push_front b k).prev ≡ update (update k.prev b head) c b = rw (t, na) refl in
    (
      rw t' (update_self k.next b (k.next head) ∙ na),
      ap (λ f. f c) back ∙ update_self (update k.prev b head) c b,
      framed-Chain k.next k.prev (push_front b k).next (push_front b k).prev c head l h
          (next_same c oc nc) (ap (λ f. f head) back ∙ prev_same head (λ e. oc (sym e)) ne)
          (λ x here. (
            next_same x (other_than head x l out here) (other_than b x l new here),
            ap (λ f. f x) back ∙ prev_same x (other_than c x l dc here) (other_than b x l new here),
          )),
    )
  where
    next_same :
        (x : ℕ) → head ≢ x → b ≢ x → update (update k.next b (k.next head)) head b x ≡ k.next x
    next_same x nh nb =
        update_ne (update k.next b (k.next head)) head b x nh
        ∙ update_ne k.next b (k.next head) x nb

    prev_same : (x : ℕ) → c ≢ x → b ≢ x → update (update k.prev b head) c b x ≡ k.prev x
    prev_same x nx nb = update_ne (update k.prev b head) c b x nx ∙ update_ne k.prev b head x nb

-- What follows `bcache.head` is not a buffer outside the list.
first_ne :
    (n p : ℕ → ℕ) (b : ℕ) (l : List ℕ) → Chain n p head l head → Absent b l → b ≢ head → n head ≢ b
first_ne n p b [] (na, pe) new ne e = ne (sym e ∙ na)
first_ne n p b (c ∷ l) (na, pc, h) (nc, new) ne e = nc (sym e ∙ na)

-- Putting a buffer that is not in the list in front.
pub push_front-IsRing :
    (b : ℕ) (k : Links) (l : List ℕ)
    → IsRing k l
    → Absent b l
    → b ≢ head
    → IsRing (push_front b k) (b ∷ l)
unfolding push_front
push_front-IsRing b k l (h, out, d) new ne =
    let t : (b == head) ≡ false = ground arith in
    let f : (k.next head == b) ≡ false = ground (arith, first_ne k.next k.prev b l h new ne) in
    (
      (refl, rw (t, f) (update_self k.prev b head), push_front-Chain b k l h out d new ne),
      ((λ e. ne (sym e)), out),
      (new, d),
    )
