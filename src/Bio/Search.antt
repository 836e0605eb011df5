-- ===== src/Bio/Search.antt =====
-- The cache of a list of buffers, and the searches of `bget`.
use os_fcfs_prirority.Base.{
  ℕ, ◌+◌, ◌<◌, ◌≡◌, ◌≢◌, ◌⊎◌, inl, inr, sym, subst, Bool, true, false, none, some, List, [], ◌∷◌,
  ◌++◌, Bool-cases, some_inj, length, arith, ◌==◌,
}
use os_fcfs_prirority.Bio.{nbuf, head, Bcache, scan}
use os_fcfs_prirority.Bio.Ring.{
  Absent, find, backward, Absent-backward, Chain-backward, length-backward, scan-find,
}
use os_fcfs_prirority.Bio.Push.{IsRing}

-- The buffers in the order of the links, the most recently used one first.
pub record IsCache (c : Bcache) (l : List ℕ) : Type 0 where
  pub ring : IsRing c.links l
  pub size : length l ≡ nbuf
  pub inside : (b : ℕ) → ¬ Absent b l → b < nbuf
  pub full : (b : ℕ) → b < nbuf → ¬ Absent b l
  pub single :
      (i j : ℕ)
      → i < nbuf
      → j < nbuf
      → (c.bufs i).dev ≢ 0
      → (c.bufs i).dev ≡ (c.bufs j).dev
      → (c.bufs i).blockno ≡ (c.bufs j).blockno
      → i ≡ j

pub find_hit :
    (test : ℕ → Bool) (l : List ℕ) (b : ℕ) → find test l ≡ some b → (¬ Absent b l) × (test b ≡ true)
find_hit test [] b e = cc
find_hit test (x ∷ l) b e = elim (Bool-cases (test x)) [
  | inl hit ↦
      let at : x ≡ b = some_inj (rw hit at e) in
      ((λ (ne, _). ne (sym at)), subst (λ y. test y ≡ true) at hit)
  | inr miss ↦ let (here, hit) = find_hit test l b (rw miss at e) in ((λ (_, gone). here gone), hit)
]

pub find_miss :
    (test : ℕ → Bool) (l : List ℕ) (x : ℕ) → find test l ≡ none → (test x ≡ false) ⊎ Absent x l
find_miss test [] x e = inr tt
find_miss test (y ∷ l) x e = elim (Bool-cases (test y)) [
  | inl hit ↦ cc (rw hit at e)
  | inr miss ↦ elim (find_miss test l x (rw miss at e)) [
    | inl no_hit ↦ inl no_hit
    | inr gone ↦ elim (Bool-cases (x == y)) [
      | inl same ↦ let at : y ≡ x = ground arith in inl (subst (λ z. test z ≡ false) at miss)
      | inr other ↦ inr ((λ z. absurd (ground arith)), gone)
    ]
  ]
]

unsnoc : (x b : ℕ) (l : List ℕ) → Absent x (l ++ (b ∷ [])) → Absent x l × (x ≢ b)
unsnoc x b [] (ne, _) = (tt, ne)
unsnoc x b (c ∷ l) (nc, h) = let (out, ne) = unsnoc x b l h in ((nc, out), ne)

pub in_order : (x : ℕ) (l : List ℕ) → Absent x (backward l) → Absent x l
in_order x [] h = tt
in_order x (b ∷ l) h = let (out, ne) = unsnoc x b (backward l) h in (ne, in_order x l out)

-- The two searches of `bget`.
pub first_with :
    (c : Bcache) (l : List ℕ) (test : ℕ → Bool)
    → IsCache c l
    → scan (nbuf + 1) test c.links.next (c.links.next head) ≡ find test l
first_with c l test h =
    scan-find (nbuf + 1) test c.links.next c.links.prev head l h.ring.0 h.ring.1
      (omega (arith, h.size))

pub last_unused :
    (c : Bcache) (l : List ℕ) (test : ℕ → Bool)
    → IsCache c l
    → scan (nbuf + 1) test c.links.prev (c.links.prev head) ≡ find test (backward l)
last_unused c l test h =
    scan-find (nbuf + 1) test c.links.prev c.links.next head (backward l)
      (Chain-backward c.links.next c.links.prev head head l h.ring.0)
      (Absent-backward head l h.ring.1) (omega (arith, length-backward l, h.size))
