-- ===== src/Proc/Priority.antt =====
-- priority/proc.c, `scheduler`: the runnable process with the smallest number.
use os_fcfs_prirority.Base.{
  ℕ, zero, suc, ◌&&◌, Option, none, some, List, [], ◌∷◌, for_range, signed_ltb, update, ltb,
  if◌then◌else◌,
}
use os_fcfs_prirority.Proc.Types.{Proc, running, nproc, is_runnable}

-- One round of the inner loop: slot `i` against `highP`.
unfoldable pub contest : (ℕ → Proc) → ℕ → ℕ → ℕ
contest t i high =
    if is_runnable (t i).state && signed_ltb (t i).priority (t high).priority then i else high

-- The body of the outer loop at slot `p`, up to the switch: the slot that is switched to, which is
-- the loop variable from then on.
unfoldable pub visit : (ℕ → Proc) → ℕ → Option ℕ
visit t p = if is_runnable (t p).state then some (for_range nproc 0 (contest t) p) else none

-- The outer loop from slot `p` on, as the list of the slots that it switches to in at most `fuel`
-- rounds. `behave h t` is the table when the process in slot `h`, switched to at `t`, comes back.
unfoldable pub pass : (ℕ → (ℕ → Proc) → ℕ → Proc) → ℕ → ℕ → (ℕ → Proc) → List ℕ
pass behave zero p t = []
pass behave (suc fuel) p t =
    let skip = pass behave fuel (suc p) t in
    let go = λ (h : ℕ).
      h ∷ pass behave fuel (suc h) (behave h (update t h (record (t h) { state = running }))) in
    if ltb p nproc then elim (visit t p) [ none ↦ skip | some h ↦ go h ] else []
