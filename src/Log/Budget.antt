-- ===== src/Log/Budget.antt =====
-- The log's space as an invariant of its states, and the states that calls lead to.
use os_fcfs_prirority.Base.{
  ℕ, suc, ◌+◌, ◌*◌, ◌≤◌, ◌<◌, ◌≡◌, ◌≢◌, ◌⊎◌, refl, ap, ◌∙◌, true, false, ◌||◌, List, [], ◌∷◌, ◌++◌,
  length, arith, ◌==◌,
}
use os_fcfs_prirority.Log.{
  Log, returned, mem, begin_op, log_write, end_op, end_commit, logsize, maxopblocks,
}

-- The log of `initlog`, after recovery.
abbrev pub opened : ℕ → Log
opened size = record { size = size; outstanding = 0; committing = false; lh = [] }

-- The states that calls lead to from an opened log of any number of blocks but 0, the first of which is
-- for the header; the list has, for each operation under way, the calls of `log_write` that it has left of `maxopblocks`.
pub data Reached : Log → List ℕ → Type 0 where
  opens : (size : ℕ) → 0 < size → Reached (opened size) []
  begins :
      {l : Log} {ops : List ℕ}
      → Reached l ops
      → (begin_op l).0 ≡ returned
      → Reached (begin_op l).1 (maxopblocks ∷ ops)
  writes :
      {l : Log} (pre : List ℕ) (left : ℕ) (post : List ℕ) (b : ℕ)
      → Reached l (pre ++ suc left ∷ post)
      → Reached (log_write b l).1 (pre ++ left ∷ post)
  ends :
      {l : Log} (pre : List ℕ) (left : ℕ) (post : List ℕ)
      → Reached l (pre ++ left ∷ post)
      → Reached (end_op l).2 (pre ++ post)
  commits :
      {l : Log} {ops : List ℕ} → Reached l ops → l.committing ≡ true → Reached (end_commit l) ops

abbrev pub sum : List ℕ → ℕ
sum [] = 0
sum (n ∷ ns) = n + sum ns

-- No operation has more than its share left.
abbrev pub AllSmall : List ℕ → Type 0
AllSmall [] = Unit {0}
AllSmall (n ∷ ns) = (n ≤ maxopblocks) × AllSmall ns

pub sum-at : (pre : List ℕ) (n : ℕ) (post : List ℕ) → sum (pre ++ n ∷ post) ≡ n + sum (pre ++ post)
sum-at [] n post = refl
sum-at (m ∷ pre) n post = omega (arith, sum-at pre n post)

pub length-at :
    (pre : List ℕ) (n : ℕ) (post : List ℕ) → length (pre ++ n ∷ post) ≡ suc (length (pre ++ post))
length-at [] n post = refl
length-at (m ∷ pre) n post = ap suc (length-at pre n post)

pub AllSmall-at :
    (pre : List ℕ) (n : ℕ) (post : List ℕ)
    → AllSmall (pre ++ n ∷ post)
    → (n ≤ maxopblocks) × AllSmall (pre ++ post)
AllSmall-at [] n post h = h
AllSmall-at (m ∷ pre) n post (hm, h) = let (hn, rest) = AllSmall-at pre n post h in (hn, (hm, rest))

pub AllSmall-put :
    (pre : List ℕ) (n : ℕ) (post : List ℕ)
    → n ≤ maxopblocks
    → AllSmall (pre ++ post)
    → AllSmall (pre ++ n ∷ post)
AllSmall-put [] n post hn h = (hn, h)
AllSmall-put (m ∷ pre) n post hn (hm, h) = (hm, AllSmall-put pre n post hn h)

pub sum-AllSmall : (ns : List ℕ) → AllSmall ns → sum ns ≤ length ns * maxopblocks
sum-AllSmall [] h = omega arith
sum-AllSmall (n ∷ ns) (hn, h) = omega (arith, sum-AllSmall ns h)

-- Every block is logged once.
abbrev pub Distinct : List ℕ → Type 0
Distinct [] = Unit {0}
Distinct (b ∷ bs) = (mem b bs ≡ false) × Distinct bs

pub mem-snoc : (x b : ℕ) (bs : List ℕ) → mem x (bs ++ b ∷ []) ≡ (mem x bs || b == x)
mem-snoc x b [] = grind arith
mem-snoc x b (c ∷ bs) = grind (arith, mem-snoc x b bs)

pub Distinct-snoc : (b : ℕ) (bs : List ℕ) → mem b bs ≡ false → Distinct bs → Distinct (bs ++ b ∷ [])
Distinct-snoc b [] h d = (refl, tt)
Distinct-snoc b (c ∷ bs) h (hc, d) =
    (mem-snoc c b bs ∙ grind (arith, h, hc), Distinct-snoc b bs (grind (arith, h)) d)

-- The log's invariant, for the operations under way.
pub record IsSpaced (l : Log) (ops : List ℕ) : Type 0 where
  pub roomy : length l.lh < l.size
  pub counted : length ops ≡ l.outstanding
  pub few : l.outstanding ≤ 3
  pub small : AllSmall ops
  pub fits : length l.lh + sum ops ≤ logsize
  pub alone : (l.committing ≡ false) ⊎ (l.outstanding ≡ 0)
  pub clean : (l.outstanding ≢ 0) ⊎ ((l.committing ≡ true) ⊎ (length l.lh ≡ 0))
  pub distinct : Distinct l.lh
