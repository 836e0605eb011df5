-- ===== src/Log/Space.antt =====
-- The log has space in every state that is reached.
use os_fcfs_prirority.Base.{
  ℕ, suc, ◌+◌, ◌*◌, ◌≤◌, ◌<◌, ◌≡◌, inl, inr, ◌⊎◌, Bool-cases, refl, true, false, List, [], ◌∷◌,
  ◌++◌, length, arith, ◌==◌, ltb, u32,
}
use os_fcfs_prirority.Log.{
  Log, returned, panicked, mem, begin_op, log_write, end_op, logsize, maxopblocks,
}
use os_fcfs_prirority.Log.Budget.{
  Reached, opens, begins, writes, ends, commits, IsSpaced, Distinct, sum-at,
}
use os_fcfs_prirority.Log.Spaced.{
  begin_op-IsSpaced, log_write-value, log_write-full, absorbed-mem, log_write-IsSpaced,
  end_op-IsSpaced, end_op-last, end_commit-IsSpaced,
}

not_less : (a b : ℕ) → ltb a b ≡ false → b ≤ a
not_less a b h = ground arith

Reached-IsSpaced : {l : Log} {ops : List ℕ} → Reached l ops → IsSpaced l ops
Reached-IsSpaced (opens size h) = record {
  roomy = h;
  counted = refl;
  few = omega arith;
  small = tt;
  fits = omega arith;
  alone = inl refl;
  clean = inr (inr refl);
  distinct = tt;
}
Reached-IsSpaced (begins r h) = begin_op-IsSpaced _ _ (Reached-IsSpaced r) h
Reached-IsSpaced (writes pre left post b r) =
    log_write-IsSpaced _ pre left post b (Reached-IsSpaced r)
Reached-IsSpaced (ends pre left post r) = (end_op-IsSpaced _ pre left post (Reached-IsSpaced r)).1
Reached-IsSpaced (commits r h) = end_commit-IsSpaced _ _ (Reached-IsSpaced r) h

-- What the header holds in every reached state, of a log of any size but 0: at most `logsize` blocks,
-- each once, and fewer than the log has.
pub Reached-fits :
    {l : Log} {ops : List ℕ}
    → Reached l ops
    → (length l.lh ≤ logsize) × (length l.lh < l.size) × Distinct l.lh
Reached-fits r = let v = Reached-IsSpaced r in (omega (arith, v.fits), v.roomy, v.distinct)

-- In a reached state, an operation under way that has made fewer than `maxopblocks` calls of
-- `log_write` makes the next one: it returns, and its block is in the header, or it panics. It panics
-- exactly where the log is full, with one block less in the header than the log has; then the log has
-- no more than `logsize` blocks.
pub log_write_outcome :
    {l : Log} (pre : List ℕ) (left : ℕ) (post : List ℕ) (b : ℕ)
    → Reached l (pre ++ suc left ∷ post)
    → (((log_write b l).0 ≡ returned)
        × (mem b (log_write b l).1.lh ≡ true)
        × (suc (length l.lh) < l.size))
      ⊎ ((log_write b l ≡ (panicked, l)) × (suc (length l.lh) ≡ l.size) × (l.size ≤ logsize))
log_write_outcome {l} pre left post b r =
    let v = Reached-IsSpaced r in
    elim (Bool-cases (ltb (suc (length l.lh)) l.size)) [
      | inl space ↦
          let lt : suc (length l.lh) < l.size = ground arith in
          inl (rw (log_write-value l pre left post b v lt) (refl, absorbed-mem b l.lh, lt))
      | inr full ↦ inr (
        log_write-full l b (ground arith),
        omega (arith, v.roomy, not_less (suc (length l.lh)) l.size full),
        omega (arith, v.fits, not_less (suc (length l.lh)) l.size full, sum-at pre (suc left) post),
      )
    ]

-- In a reached state, `end_op` of an operation under way does not panic, and it is to commit exactly
-- when the operation was the only one.
pub end_op-returns :
    {l : Log} (pre : List ℕ) (left : ℕ) (post : List ℕ)
    → Reached l (pre ++ left ∷ post)
    → ((end_op l).0 ≡ returned) × ((end_op l).1 ≡ (length (pre ++ post) == 0))
end_op-returns {l} pre left post r =
    let v = Reached-IsSpaced r in
    ((end_op-IsSpaced l pre left post v).0, end_op-last l pre left post v)

-- In a reached state with no operation under way and no commit running, `begin_op` does not sleep.
pub begin_op-returns : {l : Log} → Reached l [] → l.committing ≡ false → (begin_op l).0 ≡ returned
unfolding begin_op
begin_op-returns {l} r isnt =
    let v = Reached-IsSpaced r in
    let room : ltb logsize (length l.lh + u32 (l.outstanding + 1) * maxopblocks) ≡ false =
      grind (arith, v.counted, v.clean, isnt) in
    rw (isnt, room) refl
