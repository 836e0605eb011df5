-- ===== src/Kalloc/Owned.antt =====
-- Who has which page.
use os_fcfs_prirority.Base.{
  ℕ, ◌+◌, ◌%◌, ◌≤◌, ◌<◌, ◌≡◌, ◌≢◌, ap, subst, update_ne, sym, ◌∙◌, List, [], ◌∷◌, Bool, true, false,
  ◌&&◌, update, ltb, leb, if◌then◌else◌, some, arith,
}
use os_fcfs_prirority.Kalloc.{Kmem, page_size, kernbase, phystop, junk, kfree, kalloc}

-- A page that `kfree` accepts.
pub record IsPage (kend p : ℕ) : Type 0 where
  pub aligned : p % page_size ≡ 0
  pub above : kend ≤ p
  pub below : p < kernbase + phystop

-- The list from address `p` on is `ps`.
abbrev pub Chain : (ℕ → ℕ) → ℕ → List ℕ → Type 0
Chain word p [] = p ≡ 0
Chain word p (q ∷ qs) = (p ≡ q) × ((q ≢ 0) × Chain word (word q) qs)

-- The two memories agree at the listed addresses.
abbrev pub AllSame : (ℕ → ℕ) → (ℕ → ℕ) → List ℕ → Type 0
AllSame f g [] = Unit {0}
AllSame f g (p ∷ ps) = (f p ≡ g p) × AllSame f g ps

abbrev pub NotIn : ℕ → List ℕ → Type 0
NotIn v [] = Unit {0}
NotIn v (p ∷ ps) = (p ≢ v) × NotIn v ps

abbrev pub Distinct : List ℕ → Type 0
Distinct [] = Unit {0}
Distinct (p ∷ ps) = NotIn p ps × Distinct ps

true≢false : true ≢ false
true≢false h = grind arith

pub Chain-AllSame :
    (f g : ℕ → ℕ) (p : ℕ) (ps : List ℕ) → AllSame f g ps → Chain f p ps → Chain g p ps
Chain-AllSame f g p [] same c = c
Chain-AllSame f g p (q ∷ qs) (e, same) (at, (ne, c)) =
    (at, (ne, subst (λ r. Chain g r qs) e (Chain-AllSame f g (f q) qs same c)))

junk-apart :
    (word : ℕ → ℕ) (v p : ℕ)
    → v % page_size ≡ 0
    → p % page_size ≡ 0
    → p ≢ v
    → word p ≡ junk v word p
junk-apart word v p hv hp ne =
    let out : (leb v p && ltb p (v + page_size)) ≡ false = ground arith in
    sym (ap (λ t. if t then 16843009 else word p) out)

module _ (kend : ℕ) (high : kernbase ≤ kend) where
  -- The states that calls lead to from an empty list; `held` tells which pages are in use. At first it
  -- is any set of pages. Whoever has a page writes what it likes there.
  pub data Reached : Kmem → (ℕ → Bool) → Type 0 where
    opens :
        (word : ℕ → ℕ) (held : ℕ → Bool)
        → ((p : ℕ) → held p ≡ true → IsPage kend p)
        → Reached (record { word = word; freelist = 0 }) held
    allocs :
        {k : Kmem} {held : ℕ → Bool}
        → Reached k held
        → (kalloc k).0 ≢ 0
        → Reached (kalloc k).1 (update held (kalloc k).0 true)
    frees :
        {k k' : Kmem} {held : ℕ → Bool} (v : ℕ)
        → Reached k held
        → held v ≡ true
        → kfree kend v k ≡ some k'
        → Reached k' (update held v false)
    stores :
        {k : Kmem} {held : ℕ → Bool} (v a w : ℕ)
        → Reached k held
        → held v ≡ true
        → v ≤ a
        → a < v + page_size
        → Reached (record k { word = update k.word a w }) held

  -- The pages of the list are pages that nobody holds.
  unfoldable pub AllFree : (ℕ → Bool) → List ℕ → Type 0
  AllFree held [] = Unit {0}
  AllFree held (p ∷ ps) = (held p ≡ false) × (IsPage kend p × AllFree held ps)

  -- `list` is what the free list holds.
  pub record IsKept (k : Kmem) (held : ℕ → Bool) : Type 0 where
    pub list : List ℕ
    pub chain : Chain k.word k.freelist list
    pub free : AllFree held list
    pub distinct : Distinct list
    pub pages : (p : ℕ) → held p ≡ true → IsPage kend p

  pub freed-AllFree :
      (held : ℕ → Bool) (v : ℕ) (ps : List ℕ) → AllFree held ps → AllFree (update held v false) ps
  unfolding AllFree
  freed-AllFree held v [] h = tt
  freed-AllFree held v (p ∷ ps) (hp, (page, h)) =
      (grind (arith, hp), (page, freed-AllFree held v ps h))

  pub taken-AllFree :
      (held : ℕ → Bool) (v : ℕ) (ps : List ℕ)
      → NotIn v ps
      → AllFree held ps
      → AllFree (update held v true) ps
  unfolding AllFree
  taken-AllFree held v [] out h = tt
  taken-AllFree held v (p ∷ ps) (ne, out) (hp, (page, h)) =
      (grind (arith, hp, ne), (page, taken-AllFree held v ps out h))

  pub held-NotIn :
      (held : ℕ → Bool) (v : ℕ) (ps : List ℕ) → held v ≡ true → AllFree held ps → NotIn v ps
  unfolding AllFree
  held-NotIn held v [] hv h = tt
  held-NotIn held v (p ∷ ps) hv (hp, (page, h)) =
      ((λ e. true≢false (sym hv ∙ ap held (sym e) ∙ hp)), held-NotIn held v ps hv h)

  -- Writing into a page that is not in the list leaves the list's links alone.
  pub store-AllSame :
      (held : ℕ → Bool) (word : ℕ → ℕ) (v a w : ℕ) (ps : List ℕ)
      → IsPage kend v
      → v ≤ a
      → a < v + page_size
      → NotIn v ps
      → AllFree held ps
      → AllSame word (update word a w) ps
  unfolding AllFree
  store-AllSame held word v a w [] at lo hi out h = tt
  store-AllSame held word v a w (p ∷ ps) at lo hi (ne, out) (hp, (page, h)) =
      let apart : a ≢ p = omega (arith, at.aligned, page.aligned, ne) in
      (sym (update_ne word a w p apart), store-AllSame held word v a w ps at lo hi out h)

  pub junk-AllSame :
      (held : ℕ → Bool) (word : ℕ → ℕ) (v : ℕ) (ps : List ℕ)
      → IsPage kend v
      → NotIn v ps
      → AllFree held ps
      → AllSame word (junk v word) ps
  unfolding AllFree
  junk-AllSame held word v [] at out h = tt
  junk-AllSame held word v (p ∷ ps) at (ne, out) (hp, (page, h)) =
      (junk-apart word v p at.aligned page.aligned ne, junk-AllSame held word v ps at out h)
