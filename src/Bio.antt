-- ===== src/Bio.antt =====
-- bio.c over memide.c: the buffers, linked in a ring by `next` and `prev`, and the disk in memory. A
-- buffer is its index in `bcache.buf`, and `bcache.head` is the index after them. Sleep locks are free
-- when they are taken, and held by the caller where the code checks them.
pub mod Ring
pub mod Push
pub mod Unlink
pub mod Search
pub mod Cache
pub mod Release
mod Examples
use os_fcfs_prirority.Base.{
  ℕ, zero, suc, ◌+◌, ◌-◌, Bool, true, false, not, ◌&&◌, Option, none, some, for_range, update, ltb,
  leb, ◌==◌, if◌then◌else◌,
}

abbrev pub nbuf : ℕ
nbuf = 30

abbrev pub head : ℕ
head = 30

-- `struct buf`, without its lock and its links. `flags` is `B_VALID` and `B_DIRTY`.
pub record Buf : Type 0 where
  pub dev : ℕ
  pub blockno : ℕ
  pub refcnt : ℕ
  pub valid : Bool
  pub dirty : Bool
  pub bytes : ℕ → ℕ

-- The fields `next` and `prev`.
pub record Links : Type 0 where
  pub next : ℕ → ℕ
  pub prev : ℕ → ℕ

pub record Bcache : Type 0 where
  pub bufs : ℕ → Buf
  pub links : Links

-- `b->next = head.next; b->prev = &head; head.next->prev = b; head.next = b;`
unfoldable pub push_front : ℕ → Links → Links
push_front b k =
    let n = update k.next b (k.next head) in
    let p = update k.prev b head in record { next = update n head b; prev = update p (n head) b }

-- `b->next->prev = b->prev; b->prev->next = b->next;`
unfoldable pub unlink : ℕ → Links → Links
unlink b k =
    let p = update k.prev (k.next b) (k.prev b) in
    record { next = update k.next (p b) (k.next b); prev = p }

-- `binit`, on the links.
unfoldable pub binit : Links → Links
unfolding push_front
binit k =
    for_range nbuf 0 push_front
      (record { next = update k.next head head; prev = update k.prev head head })

-- `for(b = head.link; b != &head; b = b->link) if(test(b)) ...`, with fuel.
unfoldable pub scan : ℕ → (ℕ → Bool) → (ℕ → ℕ) → ℕ → Option ℕ
scan zero test link b = none
scan (suc fuel) test link b =
    let rest = scan fuel test link (link b) in
    if b == head then none else (if test b then some b else rest)

abbrev pub is_for : ℕ → ℕ → Buf → Bool
is_for dev blockno b = b.dev == dev && b.blockno == blockno

abbrev pub is_unused : Buf → Bool
is_unused b = b.refcnt == 0 && not b.dirty

-- The buffer as `bget` recycles it.
abbrev pub recycled : ℕ → ℕ → Buf → Buf
recycled dev blockno b = record b {
  dev = dev;
  blockno = blockno;
  valid = false;
  dirty = false;
  refcnt = 1;
}

-- `bget`: the buffer; none is the panic. There is a round for each buffer, and one for the head.
unfoldable pub bget : ℕ → ℕ → Bcache → Option (ℕ × Bcache)
bget dev blockno c =
    elim (scan (nbuf + 1) (λ b. is_for dev blockno (c.bufs b)) c.links.next (c.links.next head)) [
      | some b ↦ some (
        b,
        record c { bufs = update c.bufs b (record (c.bufs b) { refcnt = (c.bufs b).refcnt + 1 }) },
      )
      | none ↦ elim (scan (nbuf + 1) (λ b. is_unused (c.bufs b)) c.links.prev (c.links.prev head)) [
        | some b ↦ some (b, record c { bufs = update c.bufs b (recycled dev blockno (c.bufs b)) })
        | none ↦ none
      ]
    ]

-- `iderw` of memide.c, for a disk of `size` blocks: the buffer and the disk; none is a panic.
unfoldable pub iderw : ℕ → Buf → (ℕ → ℕ → ℕ) → Option (Buf × (ℕ → ℕ → ℕ))
iderw size b disk =
    if b.valid && not b.dirty
    then none
    else (if not (b.dev == 1)
        then none
        else (if leb size b.blockno
            then none
            else (if b.dirty
                then some (record b { dirty = false; valid = true }, update disk b.blockno b.bytes)
                else some (record b { bytes = disk b.blockno; valid = true }, disk))))

-- `bread`; none is a panic.
unfoldable pub bread : ℕ → ℕ → ℕ → Bcache → (ℕ → ℕ → ℕ) → Option (ℕ × Bcache × (ℕ → ℕ → ℕ))
bread size dev blockno c disk = elim (bget dev blockno c) [
  | none ↦ none
  | some (b, c') ↦
      if (c'.bufs b).valid then some (b, c', disk) else elim (iderw size (c'.bufs b) disk) [
        | none ↦ none
        | some (buf, disk') ↦ some (b, record c' { bufs = update c'.bufs b buf }, disk')
      ]
]

-- `bwrite` of a buffer whose lock is held; none is a panic.
unfoldable pub bwrite : ℕ → ℕ → Bcache → (ℕ → ℕ → ℕ) → Option (Bcache × (ℕ → ℕ → ℕ))
bwrite size b c disk = elim (iderw size (record (c.bufs b) { dirty = true }) disk) [
  | none ↦ none
  | some (buf, disk') ↦ some (record c { bufs = update c.bufs b buf }, disk')
]

-- `brelse` of a buffer whose lock is held.
unfoldable pub brelse : ℕ → Bcache → Bcache
brelse b c =
    let left = (c.bufs b).refcnt - 1 in
    record {
      bufs = update c.bufs b (record (c.bufs b) { refcnt = left });
      links = if left == 0 then push_front b (unlink b c.links) else c.links;
    }
