-- ===== src/Bio/Ring.antt =====
-- The links as a list of buffers.
use os_fcfs_prirority.Base.{
  ℕ, zero, suc, ◌<◌, ◌≡◌, ◌≢◌, refl, ap, ◌∙◌, Bool, true, false, Option, none, some, List, [], ◌∷◌,
  ◌++◌, length, arith, ◌==◌, if◌then◌else◌,
}
use os_fcfs_prirority.Bio.{head, scan}

abbrev pub Absent : ℕ → List ℕ → Type 0
Absent x [] = Unit {0}
Absent x (y ∷ ys) = (x ≢ y) × Absent x ys

abbrev pub Distinct : List ℕ → Type 0
Distinct [] = Unit {0}
Distinct (x ∷ xs) = Absent x xs × Distinct xs

-- From `a` the links `n` go over `l` to `e`, and the links `p` back.
abbrev pub Chain : (ℕ → ℕ) → (ℕ → ℕ) → ℕ → List ℕ → ℕ → Type 0
Chain n p a [] e = (n a ≡ e) × (p e ≡ a)
Chain n p a (b ∷ l) e = (n a ≡ b) × (p b ≡ a) × Chain n p b l e

-- The first element that passes.
abbrev pub find : (ℕ → Bool) → List ℕ → Option ℕ
find test [] = none
find test (b ∷ l) = let rest = find test l in if test b then some b else rest

pub Chain-snoc :
    (n p : ℕ → ℕ) (a b e : ℕ) (l : List ℕ)
    → Chain n p a l b
    → n b ≡ e
    → p e ≡ b
    → Chain n p a (l ++ (b ∷ [])) e
Chain-snoc n p a b e [] (na, pb) nb pe = (na, pb, (nb, pe))
Chain-snoc n p a b e (c ∷ l) (na, pc, h) nb pe = (na, pc, Chain-snoc n p c b e l h nb pe)

-- The list backwards.
abbrev pub backward : List ℕ → List ℕ
backward [] = []
backward (b ∷ l) = backward l ++ (b ∷ [])

pub Chain-backward :
    (n p : ℕ → ℕ) (a e : ℕ) (l : List ℕ) → Chain n p a l e → Chain p n e (backward l) a
Chain-backward n p a e [] (na, pe) = (pe, na)
Chain-backward n p a e (b ∷ l) (na, pb, h) =
    Chain-snoc p n e b a (backward l) (Chain-backward n p b e l h) pb na

pub Absent-snoc : (x b : ℕ) (l : List ℕ) → Absent x l → x ≢ b → Absent x (l ++ (b ∷ []))
Absent-snoc x b [] h ne = (ne, tt)
Absent-snoc x b (c ∷ l) (nc, h) ne = (nc, Absent-snoc x b l h ne)

pub Absent-backward : (x : ℕ) (l : List ℕ) → Absent x l → Absent x (backward l)
Absent-backward x [] h = tt
Absent-backward x (b ∷ l) (nb, h) = Absent-snoc x b (backward l) (Absent-backward x l h) nb

length-snoc : (b : ℕ) (l : List ℕ) → length (l ++ (b ∷ [])) ≡ suc (length l)
length-snoc b [] = refl
length-snoc b (c ∷ l) = ap suc (length-snoc b l)

pub length-backward : (l : List ℕ) → length (backward l) ≡ length l
length-backward [] = refl
length-backward (b ∷ l) = length-snoc b (backward l) ∙ ap suc (length-backward l)

-- The loops of `bget` find the first buffer that passes.
pub scan-find :
    (fuel : ℕ) (test : ℕ → Bool) (n p : ℕ → ℕ) (a : ℕ) (l : List ℕ)
    → Chain n p a l head
    → Absent head l
    → length l < fuel
    → scan fuel test n (n a) ≡ find test l
unfolding scan
scan-find zero test n p a l h ne lt = absurd (omega arith)
scan-find (suc fuel) test n p a [] (na, _) ne lt =
    let stop : (n a == head) ≡ true = ground arith in rw stop refl
scan-find (suc fuel) test n p a (b ∷ l) (na, pb, h) (nb, ne) lt =
    let on : (b == head) ≡ false = ground arith in
    rw (na, on, scan-find fuel test n p b l h ne (omega arith)) refl
