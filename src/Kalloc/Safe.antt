-- ===== src/Kalloc/Safe.antt =====
-- No page is given out twice, and no page in use is in the free list.
use os_fcfs_prirority.Base.{
  ℕ, ◌+◌, ◌%◌, ◌≤◌, ◌<◌, ◌≡◌, ◌≢◌, refl, ap, subst, update_self, sym, ◌∙◌, inl, inr, List, [], ◌∷◌,
  Bool, true, false, not, ◌||◌, update, sub32, ltb, leb, ◌==◌, Option, some, none, some_inj, arith,
  Bool-cases,
}
use os_fcfs_prirority.Kalloc.{Kmem, page_size, kernbase, phystop, junk, kfree, kalloc}
use os_fcfs_prirority.Kalloc.Owned.{
  IsPage, Chain, Distinct, Chain-AllSame, Reached, opens, allocs, frees, stores, AllFree, IsKept,
  freed-AllFree, taken-AllFree, held-NotIn, store-AllSame, junk-AllSame,
}

-- The page that `kalloc` returns after a call of `kfree` that did not panic.
abbrev pub then_kalloc : Option Kmem → Option ℕ
then_kalloc none = none
then_kalloc (some k) = some (kalloc k).0

module _ (kend : ℕ) (high : kernbase ≤ kend) where
  unfoldable pub freed : ℕ → Kmem → Kmem
  freed v k = record { word = update (junk v k.word) v k.freelist; freelist = v }

  pub kfree-value : (v : ℕ) (k : Kmem) → IsPage kend v → kfree kend v k ≡ some (freed v k)
  unfolding kfree freed
  kfree-value v k page =
      let ok : (not (v % page_size == 0) || (ltb v kend || leb phystop (sub32 v kernbase)))
          ≡ false =
        grind (arith, page.aligned, page.above, page.below) in
      rw ok refl

  still_held : (held : ℕ → Bool) (v p : ℕ) → update held v false p ≡ true → held p ≡ true
  still_held held v p h = ground arith

  -- The page that is freed is in front of the list.
  pub freed-Chain :
      (v : ℕ) (k : Kmem) (held : ℕ → Bool) (kept : IsKept kend high k held)
      → held v ≡ true
      → Chain (freed v k).word (freed v k).freelist (v ∷ kept.list)
  unfolding freed
  freed-Chain v k held kept hv =
      let page = kept.pages v hv in
      let out = held-NotIn kend high held v kept.list hv kept.free in
      let hole = junk-AllSame kend high held k.word v kept.list page out kept.free in
      let link =
        store-AllSame kend high held (junk v k.word) v v k.freelist kept.list page (omega arith)
          (omega arith) out kept.free in
      (
        refl,
        (
          omega (arith, page.above, high),
          subst (λ r. Chain (freed v k).word r kept.list)
              (sym (update_self (junk v k.word) v k.freelist))
              (Chain-AllSame (junk v k.word) (freed v k).word k.freelist kept.list link
                (Chain-AllSame k.word (junk v k.word) k.freelist kept.list hole kept.chain)),
        ),
      )

  freed-IsKept :
      (v : ℕ) (k : Kmem) (held : ℕ → Bool)
      → IsKept kend high k held
      → held v ≡ true
      → IsKept kend high (freed v k) (update held v false)
  unfolding freed AllFree
  freed-IsKept v k held kept hv =
      let page = kept.pages v hv in
      let out = held-NotIn kend high held v kept.list hv kept.free in
      record {
        list = v ∷ kept.list;
        chain = freed-Chain v k held kept hv;
        free =
            (update_self held v false, (page, freed-AllFree kend high held v kept.list kept.free));
        distinct = (out, kept.distinct);
        pages = λ p hp. kept.pages p (still_held held v p hp);
      }

  pages_with :
      (held : ℕ → Bool) (v : ℕ)
      → IsPage kend v
      → ((p : ℕ) → held p ≡ true → IsPage kend p)
      → (p : ℕ) → update held v true p ≡ true
      → IsPage kend p
  pages_with held v page pages p h = elim (Bool-cases (v == p)) [
    | inl same ↦ subst (IsPage kend) (grind (arith, same)) page
    | inr other ↦ pages p (grind (arith, other, h))
  ]

  -- `kalloc` takes the first page of the list, if there is one.
  kalloc-first :
      (k : Kmem) (v : ℕ) → k.freelist ≡ v → v ≢ 0 → kalloc k ≡ (v, record k { freelist = k.word v })
  unfolding kalloc
  kalloc-first k v at ne =
      let there : (k.freelist == 0) ≡ false = grind (arith, at, ne) in
      rw there (ap (λ q. (q, record k { freelist = k.word q })) at)

  kalloc-none : (k : Kmem) → k.freelist ≡ 0 → kalloc k ≡ (0, k)
  unfolding kalloc
  kalloc-none k at = let gone : (k.freelist == 0) ≡ true = grind (arith, at) in rw gone refl

  record IsGiven (held : ℕ → Bool) (v : ℕ) (k : Kmem) : Type 0 where
    fresh : held v ≡ false
    page : IsPage kend v
    kept : IsKept kend high k (update held v true)

  taken-IsGiven :
      (k : Kmem) (held : ℕ → Bool) (ps : List ℕ)
      → Chain k.word k.freelist ps
      → AllFree kend high held ps
      → Distinct ps
      → ((p : ℕ) → held p ≡ true → IsPage kend p)
      → (kalloc k).0 ≢ 0
      → IsGiven held (kalloc k).0 (kalloc k).1
  unfolding AllFree
  taken-IsGiven k held [] chain free distinct pages some_page =
      elim (some_page (ap (λ r. r.0) (kalloc-none k chain))) [ ]
  taken-IsGiven k held (v ∷ ps) (at, (ne, chain)) (fresh, (page, free)) (out, distinct) pages
        some_page =
      rw (kalloc-first k v at ne) (record {
        fresh = fresh;
        page = page;
        kept = record {
          list = ps;
          chain = chain;
          free = taken-AllFree kend high held v ps out free;
          distinct = distinct;
          pages = pages_with held v page pages;
        };
      })

  stored-IsKept :
      (k : Kmem) (held : ℕ → Bool) (v a w : ℕ)
      → IsKept kend high k held
      → held v ≡ true
      → v ≤ a
      → a < v + page_size
      → IsKept kend high (record k { word = update k.word a w }) held
  stored-IsKept k held v a w kept hv lo hi =
      let out = held-NotIn kend high held v kept.list hv kept.free in
      let same =
        store-AllSame kend high held k.word v a w kept.list (kept.pages v hv) lo hi out kept.free in
      record {
        list = kept.list;
        chain = Chain-AllSame k.word (update k.word a w) k.freelist kept.list same kept.chain;
        free = kept.free;
        distinct = kept.distinct;
        pages = kept.pages;
      }

  pub Reached-IsKept :
      {k : Kmem} {held : ℕ → Bool} → Reached kend high k held → IsKept kend high k held
  unfolding AllFree
  Reached-IsKept (opens word held pages) = record {
    list = [];
    chain = refl;
    free = tt;
    distinct = tt;
    pages = pages;
  }
  Reached-IsKept (allocs {k} {held} r some_page) =
      let v = Reached-IsKept r in
      (taken-IsGiven k held v.list v.chain v.free v.distinct v.pages some_page).kept
  Reached-IsKept (frees {k} {k'} {held} v r hv e) =
      let kept = Reached-IsKept r in
      subst (λ q. IsKept kend high q (update held v false))
        (some_inj (sym (kfree-value v k (kept.pages v hv)) ∙ e)) (freed-IsKept v k held kept hv)
  Reached-IsKept (stores {k} {held} v a w r hv lo hi) =
      stored-IsKept k held v a w (Reached-IsKept r) hv lo hi

  -- In a reached state, a page that `kalloc` returns and that is not null is one that nobody has, and one
  -- that `kfree` accepts.
  pub kalloc-IsFresh :
      {k : Kmem} {held : ℕ → Bool}
      → Reached kend high k held
      → (kalloc k).0 ≢ 0
      → (held (kalloc k).0 ≡ false) × IsPage kend (kalloc k).0
  kalloc-IsFresh {k} {held} r some_page =
      let v = Reached-IsKept r in
      let g = taken-IsGiven k held v.list v.chain v.free v.distinct v.pages some_page in
      (g.fresh, g.page)

  -- In a reached state, `kfree` of a page in use does not panic, and the next `kalloc` returns it.
  pub kfree-kalloc :
      {k : Kmem} {held : ℕ → Bool} (v : ℕ)
      → Reached kend high k held
      → held v ≡ true
      → then_kalloc (kfree kend v k) ≡ some v
  unfolding freed kalloc
  kfree-kalloc {k} v r hv =
      let page = (Reached-IsKept r).pages v hv in
      let there : (v == 0) ≡ false = grind (arith, page.above, high) in
      rw (kfree-value v k page, there) refl
