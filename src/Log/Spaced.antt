-- ===== src/Log/Spaced.antt =====
-- What each call of the log keeps of the space that the operations under way have left.
use os_fcfs_prirority.Base.{
  ℕ, suc, ◌+◌, ◌-◌, ◌*◌, ◌^◌, ◌≤◌, ◌<◌, ◌≡◌, ◌≢◌, ◌⊎◌, inl, inr, refl, ap, ◌∙◌, sym, Bool, true,
  false, ◌||◌, List, [], ◌∷◌, ◌++◌, length, arith, ◌==◌, if◌then◌else◌, leb, ltb, Bool-cases, u32,
}
use os_fcfs_prirority.Log.{
  Log, Ended, returned, panicked, mem, begin_op, log_write, one_less, end_op, end_commit, logsize,
  maxopblocks,
}
use os_fcfs_prirority.Log.Budget.{
  IsSpaced, Distinct, sum-at, length-at, AllSmall-at, AllSmall-put, sum-AllSmall, Distinct-snoc,
  mem-snoc,
}

begin_op-returned :
    (l : Log)
    → (begin_op l).0 ≡ returned
    → (l.committing ≡ false)
      × (ltb logsize (length l.lh + u32 (l.outstanding + 1) * maxopblocks) ≡ false)
unfolding begin_op
begin_op-returned l h = elim (Bool-cases l.committing) [
  | inl is ↦ grind (arith, is, h)
  | inr isnt ↦
      elim (Bool-cases (ltb logsize (length l.lh + u32 (l.outstanding + 1) * maxopblocks))) [
        | inl full ↦ grind (arith, isnt, full, h)
        | inr room ↦ (isnt, room)
      ]
]

pub begin_op-IsSpaced :
    (l : Log) (ops : List ℕ)
    → IsSpaced l ops
    → (begin_op l).0 ≡ returned
    → IsSpaced (begin_op l).1 (maxopblocks ∷ ops)
unfolding begin_op
begin_op-IsSpaced l ops v h =
    let (isnt, room) = begin_op-returned l h in
    rw (isnt, room)
      (record {
        roomy = v.roomy;
        counted = grind (arith, v.counted, v.few);
        few = grind (arith, v.few, room);
        small = (omega arith, v.small);
        fits = grind (arith, v.fits, v.few, v.counted, room, sum-AllSmall ops v.small);
        alone = inl refl;
        clean = inl (grind (arith, v.few));
        distinct = v.distinct;
      })

-- `log_write` in an operation that has calls left, where the log is not full.
pub log_write-value :
    (l : Log) (pre : List ℕ) (left : ℕ) (post : List ℕ) (b : ℕ)
    → IsSpaced l (pre ++ suc left ∷ post)
    → suc (length l.lh) < l.size
    → log_write b l ≡ (returned, record l { lh = if mem b l.lh then l.lh else l.lh ++ b ∷ [] })
unfolding log_write
log_write-value l pre left post b v space =
    let fits = v.fits in
    let room : (leb logsize (length l.lh) || leb (l.size - 1) (length l.lh)) ≡ false =
      grind (arith, fits, space, sum-at pre (suc left) post) in
    let under : ltb l.outstanding 1 ≡ false =
      grind (arith, v.counted, length-at pre (suc left) post) in
    rw (room, under) refl

-- Where it is full, `log_write` panics.
pub log_write-full : (l : Log) (b : ℕ) → l.size ≤ suc (length l.lh) → log_write b l ≡ (panicked, l)
unfolding log_write
log_write-full l b full =
    let none_left : (leb logsize (length l.lh) || leb (l.size - 1) (length l.lh)) ≡ true =
      ground arith in
    rw none_left refl

length-snoc : (b : ℕ) (bs : List ℕ) → length (bs ++ b ∷ []) ≡ suc (length bs)
length-snoc b [] = refl
length-snoc b (c ∷ bs) = ap suc (length-snoc b bs)

absorbed-Distinct :
    (b : ℕ) (bs : List ℕ) → Distinct bs → Distinct (if mem b bs then bs else bs ++ b ∷ [])
absorbed-Distinct b bs d = elim (Bool-cases (mem b bs)) [
  | inl is ↦ rw is d
  | inr isnt ↦ rw isnt (Distinct-snoc b bs isnt d)
]

pub absorbed-mem : (b : ℕ) (bs : List ℕ) → mem b (if mem b bs then bs else bs ++ b ∷ []) ≡ true
absorbed-mem b bs = elim (Bool-cases (mem b bs)) [
  | inl is ↦ rw is is
  | inr isnt ↦ rw isnt (mem-snoc b b bs ∙ grind arith)
]

pub log_write-IsSpaced :
    (l : Log) (pre : List ℕ) (left : ℕ) (post : List ℕ) (b : ℕ)
    → IsSpaced l (pre ++ suc left ∷ post)
    → IsSpaced (log_write b l).1 (pre ++ left ∷ post)
log_write-IsSpaced l pre left post b v =
    let (hn, rest) = AllSmall-at pre (suc left) post v.small in
    let under : l.outstanding ≢ 0 = grind (arith, v.counted, length-at pre (suc left) post) in
    let counted = length-at pre left post ∙ sym (length-at pre (suc left) post) ∙ v.counted in
    let small = AllSmall-put pre left post (omega arith) rest in
    elim (Bool-cases (ltb (suc (length l.lh)) l.size)) [
      | inl space ↦ rw (log_write-value l pre left post b v (ground arith)) (record {
        roomy = grind (arith, space, length-snoc b l.lh);
        counted = counted;
        few = v.few;
        small = small;
        fits =
            grind
              (arith, v.fits, sum-at pre left post, sum-at pre (suc left) post, length-snoc b l.lh);
        alone = v.alone;
        clean = inl under;
        distinct = absorbed-Distinct b l.lh v.distinct;
      })
      | inr full ↦ rw (log_write-full l b (ground arith)) (record {
        roomy = v.roomy;
        counted = counted;
        few = v.few;
        small = small;
        fits = omega (arith, v.fits, sum-at pre left post, sum-at pre (suc left) post);
        alone = v.alone;
        clean = inl under;
        distinct = v.distinct;
      })
    ]

left-IsSpaced :
    (l : Log) (pre : List ℕ) (left : ℕ) (post : List ℕ)
    → IsSpaced l (pre ++ left ∷ post)
    → (c : Bool) → (c ≡ false) ⊎ (l.outstanding - 1 ≡ 0)
    → (l.outstanding - 1 ≢ 0) ⊎ ((c ≡ true) ⊎ (length l.lh ≡ 0))
    → IsSpaced (record l { outstanding = l.outstanding - 1; committing = c }) (pre ++ post)
left-IsSpaced l pre left post v c alone clean = record {
  roomy = v.roomy;
  counted = omega (arith, v.counted, length-at pre left post);
  few = omega (arith, v.few);
  small = (AllSmall-at pre left post v.small).1;
  fits = omega (arith, v.fits, sum-at pre left post);
  alone = alone;
  clean = clean;
  distinct = v.distinct;
}

-- `end_op` of an operation under way does not panic.
pub end_op-IsSpaced :
    (l : Log) (pre : List ℕ) (left : ℕ) (post : List ℕ)
    → IsSpaced l (pre ++ left ∷ post)
    → ((end_op l).0 ≡ returned) × IsSpaced (end_op l).2 (pre ++ post)
unfolding end_op one_less
end_op-IsSpaced l pre left post v =
    let (hn, rest) = AllSmall-at pre left post v.small in
    let under : l.outstanding ≢ 0 = grind (arith, v.counted, length-at pre left post) in
    let isnt : l.committing ≡ false = grind (arith, v.alone, under) in
    let one : u32 (l.outstanding + 2 ^ 32 - 1) ≡ l.outstanding - 1 = omega (arith, v.few, under) in
    elim (Bool-cases (l.outstanding - 1 == 0)) [
      | inl last ↦
          rw (isnt, one, last)
            (
              refl,
              left-IsSpaced l pre left post v true (inr (grind (arith, last))) (inr (inl refl)),
            )
      | inr more ↦
          rw (isnt, one, more)
            (refl, left-IsSpaced l pre left post v false (inl refl) (inl (grind (arith, more))))
    ]

last_one :
    (n : ℕ) (l m : Log)
    → (if◌then◌else◌ {A = Ended × Bool × Log} (n == 0) (returned, true, l) (returned, false, m)).1
      ≡ (n == 0)
last_one n l m = grind arith

pub end_op-last :
    (l : Log) (pre : List ℕ) (left : ℕ) (post : List ℕ)
    → IsSpaced l (pre ++ left ∷ post)
    → (end_op l).1 ≡ (length (pre ++ post) == 0)
unfolding end_op one_less
end_op-last l pre left post v =
    let under : l.outstanding ≢ 0 = grind (arith, v.counted, length-at pre left post) in
    let isnt : l.committing ≡ false = grind (arith, v.alone, under) in
    let one : u32 (l.outstanding + 2 ^ 32 - 1) ≡ l.outstanding - 1 = omega (arith, v.few, under) in
    let rest : l.outstanding - 1 ≡ length (pre ++ post) =
      omega (arith, v.counted, length-at pre left post) in
    rw (isnt, one, rest) (last_one (length (pre ++ post)) _ _)

pub end_commit-IsSpaced :
    (l : Log) (ops : List ℕ) → IsSpaced l ops → l.committing ≡ true → IsSpaced (end_commit l) ops
unfolding end_commit
end_commit-IsSpaced l ops v is = record {
  roomy = omega (arith, v.roomy);
  counted = v.counted;
  few = v.few;
  small = v.small;
  fits = omega (arith, v.fits);
  alone = inl refl;
  clean = inr (inr refl);
  distinct = tt;
}
