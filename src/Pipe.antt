-- ===== src/Pipe.antt =====
-- pipe.c: a ring of 512 bytes between writers and readers. A call that sleeps ends its round; the
-- next round starts from what is left to do.
pub mod Ring
pub mod Stream
mod Examples
use os_fcfs_prirority.Base.{
  ℕ, zero, suc, ◌+◌, ◌%◌, u32, Bool, true, false, not, ◌&&◌, ◌||◌, List, [], ◌∷◌, update, ◌==◌,
  if◌then◌else◌,
}

abbrev pub pipesize : ℕ
pipesize = 512

-- `struct pipe`, without its lock.
pub record Pipe : Type 0 where
  pub buf : ℕ → ℕ
  pub nread : ℕ
  pub nwrite : ℕ
  pub readopen : Bool
  pub writeopen : Bool

-- The pipe that `pipealloc` sets up in its page.
abbrev pub fresh : (ℕ → ℕ) → Pipe
fresh page = record { buf = page; nread = 0; nwrite = 0; readopen = true; writeopen = true }

-- `pipeclose`: the pipe, and whether its page is freed.
unfoldable pub pipeclose : Bool → Pipe → Pipe × Bool
pipeclose writable p =
    let q : Pipe =
      if writable then record p { writeopen = false } else record p { readopen = false } in
    (q, not q.readopen && not q.writeopen)

-- `p->nwrite == p->nread + PIPESIZE`.
abbrev pub is_full : Pipe → Bool
is_full p = p.nwrite == u32 (p.nread + pipesize)

-- `p->data[p->nwrite++ % PIPESIZE] = b`.
unfoldable pub put_byte : ℕ → Pipe → Pipe
put_byte b p = record p { buf = update p.buf (p.nwrite % pipesize) b; nwrite = u32 (p.nwrite + 1) }

-- The loop of `pipewrite` up to its end or to a full pipe: the pipe, and the bytes that are left.
unfoldable pub fill : List ℕ → Pipe → Pipe × List ℕ
fill [] p = (p, [])
fill (b ∷ bs) p = let rest = fill bs (put_byte b p) in if is_full p then (p, b ∷ bs) else rest

-- How a round of a call ends.
pub data Round : Type 0 where
  finished : Round
  broken : Round
  waits : Round

-- A round of `pipewrite` with the bytes `bs` left to write.
unfoldable pub pipewrite : Bool → List ℕ → Pipe → Round × Pipe × List ℕ
pipewrite killed bs p =
    let (q, rest) = fill bs p in
    elim rest [
      | [] ↦ (finished, q, [])
      | b ∷ left ↦ (if not q.readopen || killed then broken else waits, q, b ∷ left)
    ]

-- The copying loop of `piperead`: at most `n` bytes.
unfoldable pub drain : ℕ → Pipe → List ℕ × Pipe
drain zero p = ([], p)
drain (suc n) p =
    let rest = drain n (record p { nread = u32 (p.nread + 1) }) in
    if p.nread == p.nwrite then ([], p) else (p.buf (p.nread % pipesize) ∷ rest.0, rest.1)

-- A round of `piperead`.
unfoldable pub piperead : Bool → ℕ → Pipe → Round × List ℕ × Pipe
piperead killed n p =
    if p.nread == p.nwrite && p.writeopen
    then (if killed then broken else waits, [], p)
    else (let (out, q) = drain n p in (finished, out, q))
