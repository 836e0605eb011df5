-- ===== src/Bio/Examples.antt =====
-- A cache after `binit`, and with block 5 of device 1.
use os_fcfs_prirority.Base.{
  ℕ, ◌-◌, ◌≡◌, ◌≢◌, refl, false, Option, none, some, List, ◌∷◌, for_range, arith, ◌==◌,
  if◌then◌else◌,
}
use os_fcfs_prirority.Bio.{nbuf, Buf, Bcache, push_front, binit, scan, bget, brelse}
use os_fcfs_prirority.Bio.Unlink.{remove}
use os_fcfs_prirority.Bio.Search.{IsCache}
use os_fcfs_prirority.Bio.Cache.{Outcome, bget_outcome}
use os_fcfs_prirority.Bio.Release.{brelse-IsCache, binit-IsCache}

abbrev no_block : Buf
no_block = record { dev = 0; blockno = 0; refcnt = 0; valid = false; dirty = false; bytes = λ p. 0 }

abbrev fresh : Bcache
fresh = record { bufs = λ j. no_block; links = binit (record { next = λ j. 0; prev = λ j. 0 }) }

fresh_order : (l : List ℕ) × IsCache fresh l
fresh_order = binit-IsCache (λ j. no_block) (record { next = λ j. 0; prev = λ j. 0 }) (λ j. refl)

bget_outcome_example : Outcome fresh fresh_order.0 1 5 (bget 1 5 fresh)
bget_outcome_example = bget_outcome fresh fresh_order.0 1 5 fresh_order.1

abbrev buffer_of : Option (ℕ × Bcache) → ℕ
buffer_of none = nbuf
buffer_of (some (b, c)) = b

-- The first buffer is the least recently used one.
bget_runs : buffer_of (bget 1 5 fresh) ≡ 0
unfolding bget scan binit push_front for_range
bget_runs = refl

abbrev with_block : Bcache
with_block = record fresh {
  bufs = λ j. if j == 4 then record no_block { dev = 1; blockno = 5; refcnt = 1 } else no_block;
}

with_block-IsCache : IsCache with_block fresh_order.0
with_block-IsCache = record {
  ring = fresh_order.1.ring;
  size = fresh_order.1.size;
  inside = fresh_order.1.inside;
  full = fresh_order.1.full;
  single = λ i j hi hj nz same block. ground arith;
}

brelse-IsCache_example :
    IsCache
      (brelse 4 with_block)
      (if (with_block.bufs 4).refcnt == 1 then 4 ∷ remove 4 fresh_order.0 else fresh_order.0)
    × ((brelse 4 with_block).bufs 4
        ≡ record (with_block.bufs 4) { refcnt = (with_block.bufs 4).refcnt - 1 })
    × ((j : ℕ) → j ≢ 4 → (brelse 4 with_block).bufs j ≡ with_block.bufs j)
brelse-IsCache_example =
    brelse-IsCache with_block fresh_order.0 4 with_block-IsCache (omega arith) (omega arith)
