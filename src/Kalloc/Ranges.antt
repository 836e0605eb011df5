-- ===== src/Kalloc/Ranges.antt =====
-- `freerange`: the pages of a range go to the free list.
use os_fcfs_prirority.Base.{
  ℕ, refl, zero, suc, ◌+◌, ◌-◌, ◌/◌, List, [], ◌∷◌, ◌∙◌, sym, ap, ◌*◌, ◌^◌, ◌%◌, ◌≤◌, ◌<◌, ◌≡◌,
  subst, fun_ext, inl, inr, Bool, true, false, ◌&&◌, update, u32, leb, ◌==◌, if◌then◌else◌, Option,
  some, none, arith, Bool-cases,
}
use os_fcfs_prirority.Kalloc.{Kmem, page_size, kernbase, free_from, freerange, page_round_up}
use os_fcfs_prirority.Kalloc.Owned.{Reached, frees, Chain}
use os_fcfs_prirority.Kalloc.Safe.{freed, kfree-value, freed-Chain, Reached-IsKept}

-- Whether page `q` is whole in the range.
abbrev pub in_range : ℕ → ℕ → ℕ → Bool
in_range lo vend q = leb lo q && (leb (q + page_size) vend && q % page_size == 0)

-- What is held after the pages of the range are freed.
abbrev pub outside : ℕ → ℕ → (ℕ → Bool) → ℕ → Bool
outside lo vend held q = if in_range lo vend q then false else held q

never : 0 < 0 → ⊥
never h = omega arith

module _ (kend : ℕ) (high : kernbase ≤ kend) where
  -- The pages from `p` on, in front of a list, the last one first.
  abbrev pub pages_from : ℕ → ℕ → List ℕ → List ℕ
  pages_from zero p ps = ps
  pages_from (suc n) p ps = pages_from n (p + page_size) (p ∷ ps)

  -- The call did not panic, and led to a reached state in which `ps` is the free list.
  abbrev pub IsDone : Option Kmem → (ℕ → Bool) → List ℕ → Type 0
  IsDone none held ps = ⊥
  IsDone (some k) held ps = Reached kend high k held × Chain k.word k.freelist ps

  -- There is one list that is linked from an address on.
  Chain-same : (word : ℕ → ℕ) (p : ℕ) (ps qs : List ℕ) → Chain word p ps → Chain word p qs → ps ≡ qs
  Chain-same word p [] [] c d = refl
  Chain-same word p [] (q ∷ qs) c (at, (ne, d)) = absurd (ne (sym at ∙ c))
  Chain-same word p (q ∷ ps) [] (at, (ne, c)) d = absurd (ne (sym at ∙ d))
  Chain-same word p (q ∷ ps) (q' ∷ qs) (at, (ne, c)) (at', (ne', d)) =
      let same : q ≡ q' = sym at ∙ at' in
      let tails =
        Chain-same word (word q) ps qs c (subst (λ x. Chain word (word x) qs) (sym same) d) in
      ap (λ x. x ∷ ps) same ∙ ap (λ xs. q' ∷ xs) tails

  -- A page in use that is freed is in front of the list.
  in_front :
      (v : ℕ) (k : Kmem) (held : ℕ → Bool) (ps : List ℕ)
      → Reached kend high k held
      → held v ≡ true
      → Chain k.word k.freelist ps
      → Chain (freed kend high v k).word (freed kend high v k).freelist (v ∷ ps)
  in_front v k held ps r hv c =
      let kept = Reached-IsKept kend high r in
      let same = Chain-same k.word k.freelist kept.list ps kept.chain c in
      subst (λ qs. Chain (freed kend high v k).word (freed kend high v k).freelist (v ∷ qs)) same
        (freed-Chain kend high v k held kept hv)

  outside-step :
      (vend p : ℕ) (held : ℕ → Bool)
      → p % page_size ≡ 0
      → p + page_size ≤ vend
      → outside (p + page_size) vend (update held p false) ≡ outside p vend held
  outside-step vend p held al fits = fun_ext (λ q. ground arith)

  outside-end : (vend p : ℕ) (held : ℕ → Bool) → vend < p + page_size → held ≡ outside p vend held
  outside-end vend p held past = fun_ext (λ q. ground arith)

  in_range-later :
      (vend p q : ℕ)
      → in_range (p + page_size) vend q ≡ true
      → (in_range p vend q ≡ true) × ((p == q) ≡ false)
  in_range-later vend p q h = ground arith

  whole-later :
      (vend p : ℕ) (held : ℕ → Bool)
      → ((q : ℕ) → in_range p vend q ≡ true → held q ≡ true)
      → (q : ℕ) → in_range (p + page_size) vend q ≡ true
      → update held p false q ≡ true
  whole-later vend p held whole q h =
      let (there, other) = in_range-later vend p q h in rw other (whole q there)

  in_range-first :
      (vend p : ℕ) → p % page_size ≡ 0 → p + page_size ≤ vend → in_range p vend p ≡ true
  in_range-first vend p al fits = ground arith

  free_from-IsDone :
      (fuel vend p : ℕ) (k : Kmem) (held : ℕ → Bool) (ps : List ℕ)
      → Reached kend high k held
      → Chain k.word k.freelist ps
      → p % page_size ≡ 0
      → vend + page_size < 2 ^ 32
      → p + page_size < 2 ^ 32
      → 0 < fuel
      → vend < p + fuel * page_size
      → ((q : ℕ) → in_range p vend q ≡ true → held q ≡ true)
      → IsDone
          (free_from fuel kend vend p k)
          (outside p vend held)
          (pages_from ((vend - p) / page_size) p ps)
  unfolding free_from
  free_from-IsDone zero vend p k held ps r c al top low some_fuel enough whole =
      elim (never some_fuel) [ ]
  free_from-IsDone (suc fuel) vend p k held ps r c al top low some_fuel enough whole =
      let next : u32 (p + page_size) ≡ p + page_size = omega (arith, low) in
      elim (Bool-cases (leb (p + page_size) vend)) [
        | inl more ↦
            let fits : p + page_size ≤ vend = ground arith in
            let count : (vend - p) / page_size ≡ suc ((vend - (p + page_size)) / page_size) =
              omega arith in
            let hp = whole p (in_range-first vend p al fits) in
            let done = kfree-value kend high p k ((Reached-IsKept kend high r).pages p hp) in
            rw (next, more, done, next)
              (subst
                (λ n.
                  IsDone (free_from fuel kend vend (p + page_size) (freed kend high p k))
                    (outside p vend held) (pages_from n p ps))
                (sym count)
                (subst
                  (λ h.
                    IsDone (free_from fuel kend vend (p + page_size) (freed kend high p k)) h
                      (pages_from ((vend - (p + page_size)) / page_size) (p + page_size) (p ∷ ps)))
                  (outside-step vend p held al fits)
                  (free_from-IsDone fuel vend (p + page_size) (freed kend high p k)
                    (update held p false) (p ∷ ps) (frees p r hp done) (in_front p k held ps r hp c)
                    (omega arith) top (omega arith) (omega arith) (omega arith)
                    (whole-later vend p held whole))))
        | inr past ↦
            let none_left : (vend - p) / page_size ≡ 0 = ground arith in
            rw (next, past, none_left)
              (subst (Reached kend high k) (outside-end vend p held (ground arith)) r, c)
      ]

  -- In a reached state where all pages of a range are in use, `freerange` does not panic: the pages of
  -- the range are in front of the free list, the last one first, and they alone are no longer in use;
  -- the range ends two pages before the last address at least.
  pub freerange-frees :
      (vstart vend : ℕ) {k : Kmem} {held : ℕ → Bool} (ps : List ℕ)
      → Reached kend high k held
      → Chain k.word k.freelist ps
      → vstart ≤ vend
      → vend + 2 * page_size < 2 ^ 32
      → ((q : ℕ) → in_range (page_round_up vstart) vend q ≡ true → held q ≡ true)
      → IsDone
          (freerange kend vstart vend k)
          (outside (page_round_up vstart) vend held)
          (pages_from ((vend - page_round_up vstart) / page_size) (page_round_up vstart) ps)
  unfolding freerange
  freerange-frees vstart vend {k} {held} ps r c order top whole =
      free_from-IsDone (2 ^ 20) vend (page_round_up vstart) k held ps r c (omega arith)
        (omega arith) (omega arith) (omega arith) (omega arith) whole
