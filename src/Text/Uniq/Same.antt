-- ===== src/Text/Uniq/Same.antt =====
-- `strncmp`, `strncpy` and the lower case of arrays that hold texts.
use os_fcfs_prirority.Base.{
  ℕ, zero, suc, ◌+◌, ◌≤◌, ◌<◌, ◌≡◌, ◌≢◌, inl, inr, refl, sym, ap, ◌∙◌, Bool, true, false, not, ◌&&◌,
  List, [], ◌∷◌, Bool-cases, update, update_self, length, arith, ltb, ◌==◌,
}
use os_fcfs_prirority.Cstring.{strncmp_from, strncmp, strncpy}
use os_fcfs_prirority.Cstring.Move.{sub_ne}
use os_fcfs_prirority.Cstring.Names.{ended, strncpy-padded}
use os_fcfs_prirority.Text.Strings.{IsText, held, first_at, later_at}
use os_fcfs_prirority.Text.Uniq.{lower, lower_from}

-- From offset `i` on, the array holds the text and its NUL.
abbrev pub Holds : (ℕ → ℕ) → ℕ → List ℕ → Type 0
Holds t i bs = (p : ℕ) → p ≤ length bs → t (i + p) ≡ held bs p

Holds-later : (t : ℕ → ℕ) (i b : ℕ) (bs : List ℕ) → Holds t i (b ∷ bs) → Holds t (suc i) bs
Holds-later t i b bs h p le = later_at t i p (held bs p) (h (suc p) (omega arith))

-- Bytes.
abbrev pub IsBytes : List ℕ → Type 0
IsBytes [] = Unit {0}
IsBytes (b ∷ bs) = (b < 256) × IsBytes bs

abbrev pub same_text : List ℕ → List ℕ → Bool
same_text [] [] = true
same_text [] (c ∷ cs) = false
same_text (b ∷ bs) [] = false
same_text (b ∷ bs) (c ∷ cs) = let rest = same_text bs cs in b == c && rest

strncmp_from-same_text :
    (n i : ℕ) (p q : ℕ → ℕ) (xs ys : List ℕ)
    → IsText xs
    → IsText ys
    → IsBytes xs
    → IsBytes ys
    → Holds p i xs
    → Holds q i ys
    → length xs < n
    → (strncmp_from n i p q == 0) ≡ same_text xs ys
unfolding strncmp_from
strncmp_from-same_text zero i p q xs ys tx ty bx by hp hq lt = absurd (omega arith)
strncmp_from-same_text (suc n) i p q [] [] tx ty bx by hp hq lt =
    let ep = first_at p i 0 (hp 0 (omega arith)) in
    let eq = first_at q i 0 (hq 0 (omega arith)) in rw (ep, eq) refl
strncmp_from-same_text (suc n) i p q [] (y ∷ ys) tx (ny, ty) bx (ly, by) hp hq lt =
    let ep = first_at p i 0 (hp 0 (omega arith)) in
    let eq = first_at q i y (hq 0 (omega arith)) in rw (ep, eq) (ground (arith, sub_ne 0 y))
strncmp_from-same_text (suc n) i p q (x ∷ xs) [] (nx, tx) ty (lx, bx) by hp hq lt =
    let ep = first_at p i x (hp 0 (omega arith)) in
    let eq = first_at q i 0 (hq 0 (omega arith)) in
    let stop : (not (x == 0) && x == 0) ≡ false = ground arith in
    rw (ep, eq, stop) (ground (arith, sub_ne x 0))
strncmp_from-same_text (suc n) i p q (x ∷ xs) (y ∷ ys) (nx, tx) (ny, ty) (lx, bx) (ly, by) hp hq
      lt =
    let ep = first_at p i x (hp 0 (omega arith)) in
    let eq = first_at q i y (hq 0 (omega arith)) in
    let short : length xs < n = omega arith in
    let rest =
      strncmp_from-same_text n (suc i) p q xs ys tx ty bx by (Holds-later p i x xs hp)
        (Holds-later q i y ys hq) short in
    elim (Bool-cases (x == y)) [
      | inl same ↦
          let on : (not (x == 0) && x == y) ≡ true = ground arith in rw (ep, eq, on, same) rest
      | inr differ ↦
          let stop : (not (x == 0) && x == y) ≡ false = ground arith in
          rw (ep, eq, stop, differ) (ground (arith, sub_ne x y))
    ]

-- Against the empty string.
pub strncmp-nil :
    (n : ℕ) (p q : ℕ → ℕ) (xs : List ℕ)
    → IsText xs
    → IsBytes xs
    → Holds p 0 xs
    → q 0 ≡ 0
    → (strncmp p q (suc n) == 0) ≡ same_text xs []
unfolding strncmp strncmp_from
strncmp-nil n p q [] tx bx hp z = let ep = first_at p 0 0 (hp 0 (omega arith)) in rw (ep, z) refl
strncmp-nil n p q (x ∷ xs) (nx, tx) (lx, bx) hp z =
    let ep = first_at p 0 x (hp 0 (omega arith)) in
    let stop : (not (x == 0) && x == 0) ≡ false = ground arith in
    rw (ep, z, stop) (ground (arith, sub_ne x 0))

pub strncmp-same_text :
    (n : ℕ) (p q : ℕ → ℕ) (xs ys : List ℕ)
    → IsText xs
    → IsText ys
    → IsBytes xs
    → IsBytes ys
    → Holds p 0 xs
    → Holds q 0 ys
    → length xs < n
    → (strncmp p q n == 0) ≡ same_text xs ys
unfolding strncmp
strncmp-same_text n p q xs ys tx ty bx by hp hq lt =
    strncmp_from-same_text n 0 p q xs ys tx ty bx by hp hq lt

held_ne : (bs : List ℕ) (i : ℕ) → IsText bs → i < length bs → held bs i ≢ 0
held_ne [] i tx lt = absurd (omega arith)
held_ne (b ∷ bs) zero (nb, tx) lt = nb
held_ne (b ∷ bs) (suc i) (nb, tx) lt = held_ne bs i tx (omega arith)

pub at_zero : (t : ℕ → ℕ) (p : ℕ) → t (0 + p) ≡ t p
at_zero t p = let e : 0 + p ≡ p = omega arith in ap t e

text_going :
    (t : ℕ → ℕ) (bs : List ℕ) (i : ℕ) → IsText bs → Holds t 0 bs → i ≤ length bs → ended t i ≡ false
text_going t bs zero tx h le = refl
text_going t bs (suc i) tx h le =
    let e : t i ≡ held bs i = sym (at_zero t i) ∙ h i (omega arith) in
    let ne = held_ne bs i tx (omega arith) in
    let nul : (t i == 0) ≡ false = ground arith in
    rw (text_going t bs i tx h (omega arith), nul) refl

pub strncpy-Holds :
    (s t : ℕ → ℕ) (n : ℕ) (bs : List ℕ)
    → IsText bs
    → length bs < n
    → Holds t 0 bs
    → Holds (strncpy s t n) 0 bs
strncpy-Holds s t n bs tx lt h p le =
    let inside : ltb p n ≡ true = ground arith in
    at_zero (strncpy s t n) p
    ∙ strncpy-padded s t n p
    ∙ rw (inside, text_going t bs p tx h le) (sym (at_zero t p) ∙ h p le)

abbrev pub lower_text : List ℕ → List ℕ
lower_text [] = []
lower_text (b ∷ bs) = lower b ∷ lower_text bs

pub length-lower_text : (bs : List ℕ) → length (lower_text bs) ≡ length bs
length-lower_text [] = refl
length-lower_text (b ∷ bs) = ap suc (length-lower_text bs)

pub lower_text-IsText : (bs : List ℕ) → IsText bs → IsText (lower_text bs)
lower_text-IsText [] tx = tt
lower_text-IsText (b ∷ bs) (nb, tx) = (λ z. nb (ground arith), lower_text-IsText bs tx)

pub lower_text-IsBytes : (bs : List ℕ) → IsBytes bs → IsBytes (lower_text bs)
lower_text-IsBytes [] bx = tt
lower_text-IsBytes (b ∷ bs) (lb, bx) = (ground arith, lower_text-IsBytes bs bx)

lower_from-below : (n i : ℕ) (t : ℕ → ℕ) (p : ℕ) → p < i → lower_from n i t p ≡ t p
unfolding lower_from
lower_from-below zero i t p lt = refl
lower_from-below (suc n) i t p lt = elim (Bool-cases (t i == 0)) [
  | inl nul ↦ rw nul refl
  | inr more ↦
      let other : (i == p) ≡ false = ground arith in
      rw more
        (lower_from-below n (suc i) (update t i (lower (t i))) p (omega arith) ∙ rw other refl)
]

pub lower_from-Holds :
    (n i : ℕ) (t : ℕ → ℕ) (bs : List ℕ)
    → IsText bs
    → length bs < n
    → Holds t i bs
    → Holds (lower_from n i t) i (lower_text bs)
unfolding lower_from
lower_from-Holds zero i t bs tx lt h p le = absurd (omega arith)
lower_from-Holds (suc n) i t [] tx lt h p le =
    let at = first_at t i 0 (h 0 (omega arith)) in
    let nul : (t i == 0) ≡ true = ground arith in rw nul (h p le)
lower_from-Holds (suc n) i t (b ∷ bs) (nb, tx) lt h p le =
    let at : t i ≡ b = first_at t i b (h 0 (omega arith)) in
    let more : (t i == 0) ≡ false = ground arith in
    rw more (
      lowered at (lower_from-Holds n (suc i) (update t i (lower (t i))) bs tx (omega arith) moved) p
        le)
  where
    moved : Holds (update t i (lower (t i))) (suc i) bs
    moved q lq =
        let ne : (i == suc i + q) ≡ false = ground arith in
        rw ne (later_at t i q (held bs q) (h (suc q) (omega arith)))

    lowered :
        t i ≡ b
        → Holds (lower_from n (suc i) (update t i (lower (t i)))) (suc i) (lower_text bs)
        → (p : ℕ) → p ≤ length (lower_text (b ∷ bs))
        → lower_from n (suc i) (update t i (lower (t i))) (i + p) ≡ held (lower_text (b ∷ bs)) p
    lowered at rest zero le =
        let e : i + 0 ≡ i = omega arith in
        rw e (
          lower_from-below n (suc i) (update t i (lower (t i))) i (omega arith)
          ∙ update_self t i (lower (t i))
          ∙ ap lower at)
    lowered at rest (suc p) le =
        let e : i + suc p ≡ suc i + p = omega arith in rw e (rest p (omega arith))
