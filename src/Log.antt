-- ===== src/Log.antt =====
-- log.c: the write-ahead log. The disk is a map from block numbers to contents, and the header block at
-- `start` is kept apart as the list of block numbers that it holds; contents are any type.
pub mod Install
pub mod Recover
pub mod Crash
pub mod Budget
pub mod Spaced
pub mod Space
mod Examples
use os_fcfs_prirority.Base.{
  ℕ, zero, suc, ◌+◌, ◌-◌, ◌*◌, Bool, true, false, ◌||◌, List, [], ◌∷◌, ◌++◌, u32, ◌^◌, update,
  length, ltb, leb, ◌==◌, if◌then◌else◌,
}

pub record Disk (D : Type 0) : Type 0 where
  pub block : ℕ → D
  pub head : List ℕ

-- A write that reaches the disk.
pub data Write (D : Type 0) : Type 0 where
  to_block : ℕ → D → Write D
  to_head : List ℕ → Write D

abbrev pub mem : ℕ → List ℕ → Bool
mem x [] = false
mem x (b ∷ bs) = b == x || mem x bs

module _ {D : Type 0} where
  unfoldable pub apply : Write D → Disk D → Disk D
  apply (to_block b v) d = record d { block = update d.block b v }
  apply (to_head lh) d = record d { head = lh }

  unfoldable pub apply_all : List (Write D) → Disk D → Disk D
  apply_all [] d = d
  apply_all (w ∷ ws) d = apply_all ws (apply w d)

  -- The loop of `write_log` from `tail` on: the cached blocks go to the log.
  unfoldable pub write_log : ℕ → (ℕ → D) → ℕ → List ℕ → List (Write D)
  write_log start cache tail [] = []
  write_log start cache tail (b ∷ bs) =
      to_block (start + tail + 1) (cache b) ∷ write_log start cache (suc tail) bs

  -- The loop of `install_trans` from `tail` on, at disk `d`: the log's blocks go home.
  unfoldable pub install_trans : ℕ → ℕ → List ℕ → Disk D → List (Write D)
  install_trans start tail [] d = []
  install_trans start tail (b ∷ bs) d =
      let w = to_block b (d.block (start + tail + 1)) in
      w ∷ install_trans start (suc tail) bs (apply w d)

  -- `commit`, as the writes that it makes in their order; `lh` is the header in memory.
  unfoldable pub commit : ℕ → (ℕ → D) → List ℕ → Disk D → List (Write D)
  commit start cache [] d = []
  commit start cache (b ∷ bs) d =
      let logged = write_log start cache 0 (b ∷ bs) in
      let d1 = apply (to_head (b ∷ bs)) (apply_all logged d) in
      logged ++ (to_head (b ∷ bs) ∷ (install_trans start 0 (b ∷ bs) d1 ++ to_head [] ∷ []))

  -- `recover_from_log`: `read_head`, `install_trans`, and the header cleared.
  unfoldable pub recover_from_log : ℕ → Disk D → Disk D
  recover_from_log start d = apply (to_head []) (apply_all (install_trans start 0 d.head d) d)

-- `struct log`, without its lock and the numbers of the device; `size` and the header are those of
-- the log in memory.
pub record Log : Type 0 where
  pub size : ℕ
  pub outstanding : ℕ
  pub committing : Bool
  pub lh : List ℕ

abbrev pub logsize : ℕ
logsize = 30

abbrev pub maxopblocks : ℕ
maxopblocks = 10

-- How a call on the log ends: it returns, sleeps, or panics.
pub data Ended : Type 0 where
  returned : Ended
  sleeps : Ended
  panicked : Ended

-- A round of `begin_op`. `outstanding` is a count, and the product with it stays below 2 ^ 31.
unfoldable pub begin_op : Log → Ended × Log
begin_op l =
    if l.committing
    then (sleeps, l)
    else (if ltb logsize (length l.lh + u32 (l.outstanding + 1) * maxopblocks)
        then (sleeps, l)
        else (returned, record l { outstanding = u32 (l.outstanding + 1) }))

-- `log_write` of block `b`: absorbed if it is logged already.
unfoldable pub log_write : ℕ → Log → Ended × Log
log_write b l =
    if leb logsize (length l.lh) || leb (l.size - 1) (length l.lh)
    then (panicked, l)
    else (if ltb l.outstanding 1
        then (panicked, l)
        else (returned, record l { lh = if mem b l.lh then l.lh else l.lh ++ b ∷ [] }))

-- `log.outstanding -= 1` on an `int`, as its bit pattern.
unfoldable pub one_less : Log → Log
one_less l = record l { outstanding = u32 (l.outstanding + 2 ^ 32 - 1) }

-- `end_op` up to `commit`: whether it is to commit.
unfoldable pub end_op : Log → Ended × Bool × Log
end_op l =
    let m = one_less l in
    if m.committing
    then (panicked, false, m)
    else (if m.outstanding == 0
        then (returned, true, record m { committing = true })
        else (returned, false, m))

-- `end_op` after `commit`, which leaves an empty header.
unfoldable pub end_commit : Log → Log
end_commit l = record l { committing = false; lh = [] }
