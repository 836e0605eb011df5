-- ===== src/Fs/Release.antt =====
-- Freeing the blocks of a range of slots.
use os_fcfs_prirority.Base.{
  ℕ, zero, suc, ◌+◌, ◌≤◌, ◌<◌, ◌≡◌, ◌≢◌, inl, inr, refl, ap, ◌∙◌, subst, Bool, true, false, not,
  ◌&&◌, ◌||◌, Option, some, Option-cases, Bool-cases, for_range, arith, ◌==◌,
}
use os_fcfs_prirority.Fs.{Blocks, Superblock, bfree}
use os_fcfs_prirority.Fs.Alloc.{used, IsData}
use os_fcfs_prirority.Fs.Balloc.{Freed, bfree_outcome}
use os_fcfs_prirority.Fs.Files.{free_block}

-- Whether `b` is the block of one of the `n` slots from `lo` on.
abbrev pub has : (ℕ → ℕ) → ℕ → ℕ → ℕ → Bool
has f lo zero b = false
has f lo (suc n) b = (f lo == b && not (b == 0)) || has f (suc lo) n b

pub has-append :
    (f : ℕ → ℕ) (m lo n b : ℕ) → has f lo (m + n) b ≡ (has f lo m b || has f (lo + m) n b)
has-append f zero lo n b =
    let e : 0 + n ≡ n = omega arith in let at : lo + 0 ≡ lo = omega arith in rw (e, at) refl
has-append f (suc m) lo n b =
    let e : suc m + n ≡ suc (m + n) = omega arith in
    let at : suc lo + m ≡ lo + suc m = omega arith in
    rw e (
      ap (λ t. (f lo == b && not (b == 0)) || t)
        (has-append f m (suc lo) n b ∙ ap (λ k. has f (suc lo) m b || has f k n b) at)
      ∙ ground arith)

pub has-shift : (g : ℕ → ℕ) (c lo n b : ℕ) → has (λ j. g (c + j)) lo n b ≡ has g (c + lo) n b
has-shift g c lo zero b = refl
has-shift g c lo (suc n) b =
    let e : c + suc lo ≡ suc (c + lo) = omega arith in
    ap (λ t. (g (c + lo) == b && not (b == 0)) || t)
      (has-shift g c (suc lo) n b ∙ ap (λ k. has g k n b) e)

pub not_has :
    (f : ℕ → ℕ) (lo n b : ℕ)
    → ((i : ℕ) → lo ≤ i → i < lo + n → f i ≢ 0 → f i ≢ b)
    → has f lo n b ≡ false
not_has f lo zero b ne = refl
not_has f lo (suc n) b ne = ground (
  arith,
  ne lo (omega arith) (omega arith),
  not_has f (suc lo) n b (λ i a c. ne i (omega arith) (omega arith)),
)

pub has-gaps :
    (f : ℕ → ℕ) (lo n b : ℕ) → ((i : ℕ) → lo ≤ i → i < lo + n → f i ≡ 0) → has f lo n b ≡ false
has-gaps f lo zero b gaps = refl
has-gaps f lo (suc n) b gaps = ground (
  arith,
  gaps lo (omega arith) (omega arith),
  has-gaps f (suc lo) n b (λ i a c. gaps i (omega arith) (omega arith)),
)

module _ (sb : Superblock) where
  -- From `s` to `t`, the blocks of the set `gone` are freed, and no data block is changed.
  pub record Released (s : Blocks) (gone : ℕ → Bool) (t : Blocks) : Type 0 where
    pub map : (b : ℕ) → used sb t b ≡ (used sb s b && not (gone b))
    pub rest : (b o : ℕ) → IsData sb b → t b o ≡ s b o

  pub free_block-Released :
      (x : ℕ) (s : Blocks)
      → (x ≢ 0 → (used sb s x ≡ true) × (x < sb.size))
      → (t : Blocks) × (free_block sb x (some s) ≡ some t)
        × Released s (λ b. x == b && not (b == 0)) t
  unfolding free_block
  free_block-Released x s busy = elim (Bool-cases (x == 0)) [
    | inl gap ↦ (s, rw gap refl, record { map = λ b. ground arith; rest = λ b o _. refl })
    | inr there ↦
        let (u, lt) = busy (ground arith) in
        let outcome = bfree_outcome sb s x in
        elim (Option-cases (bfree sb s x)) [
          | inl e ↦ cc (rw e at outcome, u)
          | inr (t, e) ↦
              let (_, map, rest) = subst (Freed sb s x) e outcome in
              (
                t,
                rw (there, e) refl,
                record { map = λ b. ground (arith, map b); rest = λ b o after. rest b o after lt },
              )
        ]
  ]

  pub free_range :
      (n lo : ℕ) (s : Blocks) (f : ℕ → ℕ) (body : ℕ → Option Blocks → Option Blocks)
      → ((i : ℕ) (t : Blocks)
          → lo ≤ i
          → i < lo + n
          → ((b o : ℕ) → IsData sb b → t b o ≡ s b o)
          → body i (some t) ≡ free_block sb (f i) (some t))
      → ((i : ℕ) → lo ≤ i → i < lo + n → f i ≢ 0 → (used sb s (f i) ≡ true) × (f i < sb.size))
      → ((i j : ℕ) → lo ≤ i → i < lo + n → lo ≤ j → j < lo + n → i ≢ j → f i ≢ 0 → f i ≢ f j)
      → (t : Blocks) × (for_range n lo body (some s) ≡ some t) × Released s (has f lo n) t
  unfolding for_range
  free_range zero lo s f body each busy apart =
      (s, refl, record { map = λ b. ground arith; rest = λ b o _. refl })
  free_range (suc n) lo s f body each busy apart =
      let (s1, e1, r1) = free_block-Released (f lo) s (busy lo (omega arith) (omega arith)) in
      let (t, e, r) =
        free_range n (suc lo) s1 f body
          (λ i t a b same.
            each i t (omega arith) (omega arith) (λ c o after. same c o after ∙ r1.rest c o after))
          (λ i a b there.
            let (u, lt) = busy i (omega arith) (omega arith) there in
            let other =
              apart lo i (omega arith) (omega arith) (omega arith) (omega arith) (omega arith) in
            (ground (arith, r1.map (f i), u, other), lt))
          (λ i j a b c d. apart i j (omega arith) (omega arith) (omega arith) (omega arith)) in
      (
        t,
        rw (each lo s (omega arith) (omega arith) (λ c o after. refl) ∙ e1) e,
        record {
          map = λ b. r.map b ∙ ground (arith, r1.map b);
          rest = λ b o after. r.rest b o after ∙ r1.rest b o after;
        },
      )
