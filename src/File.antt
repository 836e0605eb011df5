-- ===== src/File.antt =====
-- file.c: open files over pipes and inodes. Sleep locks are free when they are taken, and what
-- `begin_op` and `end_op` do is in Log.
pub mod Parts
pub mod Write
mod Examples
use os_fcfs_prirority.Base.{
  ℕ, zero, bytes_at, suc, ◌+◌, ◌-◌, Bool, true, false, Option, none, some, List, [], ◌∷◌, first,
  get_or, length, update, u32, signed_ltb, ltb, ◌==◌, if◌then◌else◌,
}
use os_fcfs_prirority.Pipe.{Pipe, Round, finished, broken, waits, pipeclose, piperead, pipewrite}
use os_fcfs_prirority.Fs.{Blocks, Superblock}
use os_fcfs_prirority.Fs.Inode.{Inode, failed}
use os_fcfs_prirority.Fs.Files.{Devices, ilock, readi, writei}
use os_fcfs_prirority.Fs.Cache.{iput}

pub data FileKind : Type 0 where
  fd_none : FileKind
  fd_pipe : FileKind
  fd_inode : FileKind

-- `struct file`. `pipe` and `ip` are indices of the pipes and of the table of inodes.
pub record File : Type 0 where
  pub kind : FileKind
  pub ref : ℕ
  pub readable : Bool
  pub writable : Bool
  pub pipe : ℕ
  pub ip : ℕ
  pub off : ℕ

abbrev pub nfile : ℕ
nfile = 100

-- What the files stand on.
pub record Store : Type 0 where
  pub pipes : ℕ → Pipe
  pub inodes : ℕ → Inode
  pub blocks : Blocks

-- `filealloc`: the entry of the table, or null.
unfoldable pub filealloc : (ℕ → File) → Option ℕ × (ℕ → File)
filealloc t = elim (first (λ i. (t i).ref == 0) nfile 0) [
  | none ↦ (none, t)
  | some i ↦ (some i, update t i (record (t i) { ref = 1 }))
]

-- `filedup`; none is a panic.
unfoldable pub filedup : ℕ → (ℕ → File) → Option (ℕ → File)
filedup i t =
    if ltb (t i).ref 1 then none else some (update t i (record (t i) { ref = (t i).ref + 1 }))

-- `struct stat`, of the one device.
pub record Stat : Type 0 where
  pub kind : ℕ
  pub ino : ℕ
  pub nlink : ℕ
  pub size : ℕ

unfoldable pub stati : Inode → Stat
stati ip = record { kind = ip.kind; ino = ip.inum; nlink = ip.nlink; size = ip.size }

-- How a call on a file ends: with what it returns; asleep at a pipe, with the bytes that it has left
-- to write; or in a panic.
pub data Ended : Type 0 where
  returned : ℕ → Ended
  asleep : List ℕ → Ended
  panicked : Ended

-- A round at a pipe that moved `n` bytes.
abbrev pub round_end : Round → ℕ → List ℕ → Ended
round_end finished n left = returned n
round_end broken n left = returned failed
round_end waits n left = asleep left

-- `if(r > 0) f->off += r;`
abbrev pub advance : File → ℕ → File
advance f r = if signed_ltb 0 r then record f { off = u32 (f.off + r) } else f

-- `((MAXOPBLOCKS-1-1-2) / 2) * 512`.
abbrev pub chunk : ℕ
chunk = 1536

module _ (sb : Superblock) where
  -- What `fileclose` does for the last reference: the store, and the pipe whose page is freed.
  unfoldable pub release : File → Store → Option (Store × Option ℕ)
  release ff st = elim ff.kind [
    | fd_none ↦ some (st, none)
    | fd_pipe ↦
        let (q, freed) = pipeclose ff.writable (st.pipes ff.pipe) in
        some (record st { pipes = update st.pipes ff.pipe q }, if freed then some ff.pipe else none)
    | fd_inode ↦ elim (iput sb ff.ip st.inodes st.blocks) [
      | none ↦ none
      | some (c, s) ↦ some (record st { inodes = c; blocks = s }, none)
    ]
  ]

  -- `fileclose`; none is a panic.
  unfoldable pub fileclose : ℕ → (ℕ → File) → Store → Option ((ℕ → File) × Store × Option ℕ)
  fileclose i t st =
      if ltb (t i).ref 1
      then none
      else (if ltb 0 ((t i).ref - 1)
          then some (update t i (record (t i) { ref = (t i).ref - 1 }), st, none)
          else elim (release (t i) st) [
            | none ↦ none
            | some (st', freed) ↦
                some (update t i (record (t i) { ref = 0; kind = fd_none }), st', freed)
          ])

  -- `filestat`: what it returns, and the inode's data; none is a panic.
  unfoldable pub filestat : File → Store → Option (ℕ × Option Stat × Store)
  filestat f st = elim f.kind [
    | fd_none ↦ some (failed, none, st)
    | fd_pipe ↦ some (failed, none, st)
    | fd_inode ↦ elim (ilock sb (st.inodes f.ip) st.blocks) [
      | none ↦ none
      | some ip ↦ some (0, some (stati ip), record st { inodes = update st.inodes f.ip ip })
    ]
  ]

  module _ (dev : Devices) where
    -- A round of `fileread` into `dst`.
    unfoldable pub fileread : Bool → File → (ℕ → ℕ) → ℕ → Store → Ended × (ℕ → ℕ) × File × Store
    fileread killed f dst n st =
        if f.readable
        then elim f.kind [
          | fd_none ↦ (panicked, dst, f, st)
          | fd_pipe ↦
              let (r, out, q) = piperead killed n (st.pipes f.pipe) in
              (
                round_end r (length out) [],
                λ i. get_or out i (dst i),
                f,
                record st { pipes = update st.pipes f.pipe q },
              )
          | fd_inode ↦ elim (ilock sb (st.inodes f.ip) st.blocks) [
            | none ↦ (panicked, dst, f, st)
            | some ip ↦ elim (readi sb dev ip dst f.off n st.blocks) [
              | none ↦ (panicked, dst, f, st)
              | some (r, dst', ip', s') ↦ (
                returned r,
                dst',
                advance f r,
                record st { inodes = update st.inodes f.ip ip'; blocks = s' },
              )
            ]
          ]
        ]
        else (returned failed, dst, f, st)

    -- The loop of `filewrite`, with `i` of `n` bytes written. Each round writes one at least.
    unfoldable pub write_chunks : ℕ → File → ℕ → ℕ → (ℕ → ℕ) → Store → Ended × File × Store
    write_chunks zero f i n src st = (returned (if i == n then n else failed), f, st)
    write_chunks (suc fuel) f i n src st =
        if ltb i n
        then (let n1 = if ltb chunk (n - i) then chunk else n - i in
            elim (ilock sb (st.inodes f.ip) st.blocks) [
              | none ↦ (panicked, f, st)
              | some ip ↦ elim (writei sb dev ip (λ k. src (i + k)) f.off n1 st.blocks) [
                | none ↦ (panicked, f, st)
                | some (r, ip', s') ↦
                    let f' = advance f r in
                    let st' : Store = record st {
                      inodes = update st.inodes f.ip ip';
                      blocks = s';
                    } in
                    let rest = write_chunks fuel f' (i + r) n src st' in
                    if signed_ltb r 0
                    then (returned (if i == n then n else failed), f', st')
                    else (if r == n1 then rest else (panicked, f', st'))
              ]
            ])
        else (returned (if i == n then n else failed), f, st)

    -- A round of `filewrite` of `n` bytes, which is not negative as an `int`.
    unfoldable pub filewrite : Bool → File → (ℕ → ℕ) → ℕ → Store → Ended × File × Store
    filewrite killed f src n st =
        if f.writable
        then elim f.kind [
          | fd_none ↦ (panicked, f, st)
          | fd_pipe ↦
              let (r, q, left) = pipewrite killed (bytes_at src 0 n) (st.pipes f.pipe) in
              (round_end r n left, f, record st { pipes = update st.pipes f.pipe q })
          | fd_inode ↦ write_chunks n f 0 n src st
        ]
        else (returned failed, f, st)
