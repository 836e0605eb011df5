-- ===== src/Lib.antt =====
-- xv6 with two schedulers: the kernel under priority/ chooses by priority, the kernel under fcfs/ by
-- creation time. The two trees hold the same text but for the scheduler, the call `custmpro` and the
-- field `priority`; where they agree, the paths below are those of priority/.
--
-- The parts and their files.
-- - Base: tests, 32-bit words, tables as functions, counted loops with their invariant rules.
-- - Cstring: string.c. Cstring/Move: `memmove` and `memcmp`. Cstring/Names: `strncpy` and `strncmp`.
-- - Proc/Types: proc.h and the globals of proc.c. `struct proc *` is an index of the table `procs`, and
--   a channel of `sleep` is null, a slot, or another address. `cpus` holds each processor's `c->proc`.
-- - Proc/Alloc: `allocproc` (free_slot, claim, give_stack), `fork` and `custmpro` (fork_with).
-- - Proc/Signal: `sched`, `yield`, `sleep`, `wakeup1`, `wakeup`, `kill`.
-- - Proc/Exit: `exit` (drop_files, die). Proc/Wait: `wait`, `procstat`, `ps`.
-- - Proc/Memory: `userinit`, `growproc`, `sys_sbrk`, `sys_custmpro`.
-- - Proc/Fcfs: `scheduler` of fcfs/proc.c. Proc/Priority: `scheduler` of priority/proc.c.
-- - Proc/System: sequences of calls on any processors.
-- - Proc/Valid and its children: the validity of the table, and each call's preservation of it.
-- - Proc/Safety, Proc/Boot: validity over runs. Proc/Choice, Proc/Policy: what the schedulers choose.
-- - Proc/Child, Proc/Contract: what `fork` does. Proc/Reaping: `wait` and `exit`. Proc/Wakeup,
--   Proc/Waking: `wakeup` and `kill`. Proc/Stale: corner cases. Proc/Examples: runs.
-- - Pipe: pipe.c, the ring and the rounds of its calls. Pipe/Ring: the bytes that it holds, as a queue.
--   Pipe/Stream: sequences of rounds.
-- - Log: log.c. Log/Install, Log/Recover: what the loops leave on the disk. Log/Crash: crashes in
--   `commit`. Log/Budget, Log/Spaced, Log/Space: operations under way and the log's space.
-- - Kalloc: kalloc.c. Kalloc/Owned: who has which page. Kalloc/Safe, Kalloc/Ranges: calls of `kalloc`,
--   `kfree` and `freerange`.
-- - Fs: fs.c. Fs: the blocks, `balloc`, `bfree`; Fs/Inode, Fs/Files: `bmap`, `readi`, `writei`,
--   `iupdate`, `ilock`, `itrunc`; Fs/Cache: the table of inodes; Fs/Dir: `dirlookup`, `skipelem`.
--   Fs/Bits, Fs/Alloc, Fs/Balloc: the free map. Fs/Owner, Fs/Slots, Fs/Bmap: the blocks that an inode
--   has. Fs/Contents, Fs/Writing, Fs/Reading, Fs/Stored, Fs/Saved, Fs/Roundtrip: a file as bytes. Fs/Update,
--   Fs/Dinode: inodes on the disk. Fs/Release, Fs/Truncate, Fs/Drop: what is freed. Fs/Refs: references
--   in the table. Fs/Path, Fs/Lookup, Fs/Looked: paths and directories. Fs/Dirlink and its
--   children: `dirlink`.
-- - File: file.c, the table of open files, reading and writing. File/Parts, File/Write: `filewrite`.
-- - Syscall: syscall.c, the arguments of system calls. Syscall/Checks: what the checks let pass.
-- - Text: the calls of sysproc.c over texts. Text/Head: `sys_head1`.
--   Text/Strings: arrays that hold texts. Text/Uniq: `sys_uniq1`; Text/Uniq/Same: `strncmp` and
--   `strncpy` of texts; Text/Uniq/Lines, Text/Uniq/Loop: the lines of a text.
-- - Print: `printint` of console.c and `atoi` of ulib.c. Print/Decimal: what is printed and read.
-- - Spin: spinlock.c. Spin/Nest: `pushcli` and `popcli`. Spin/Steps: processors that take and release a
--   lock. Spin/Calls, Spin/Mutex, Spin/Kept, Spin/Exclusion: the calls, the invariant, and that it is
--   kept.
-- - Shell: sh.c, the parser. Shell/Printer: texts of commands. Shell/Tokens, Shell/Words, Shell/Levels,
--   Shell/Parse, Shell/Whole, Shell/RoundTrip: what the parser reads of them. Shell/Lengths,
--   Shell/Returns, Shell/Total: that it returns.
-- - Grep: grep.c. Grep/Match: what patterns match. Grep/Lines: the lines written, read by read.
-- - Bio: bio.c over memide.c. Bio/Ring, Bio/Push, Bio/Unlink: the links as a list. Bio/Search, Bio/Cache:
--   `bget`. Bio/Release: `brelse` and `binit`.
--
-- How the model stands to the code. The memory and file systems that proc.c calls are the record
-- `Services` of operations over a state of their own, and every definition takes it as a parameter. A
-- call that sleeps ends with `blocks` at the switch; what it does after the switch is `sleep_done`, and
-- `wait` and `procstat` then start another round. The parts of `fork` and `exit` outside the lock of
-- the table are run together with those inside. `pid`, `ctime` and `priority` are the bit patterns of
-- their `int`s, and additions to `nextpid` and `ticks` wrap at 2 ^ 32. The loops over the table run
-- over its 64 slots and need no fuel; `pass`, which is endless in the code, takes a number of rounds.
--
-- A round of `pipewrite` or `piperead` ends at its `sleep`, and the next one starts from the bytes that
-- are left; the counters of a pipe are `uint`s and wrap. A disk is a map from block numbers to
-- contents, with the log's header block kept apart; `commit` is the list of its disk writes, which a
-- crash cuts to a prefix, each write being whole or not done. The cached contents that `commit`
-- writes are a function, and do not change while it runs.
-- The memory of `kalloc` is the word at each address, and the free list is linked through it; words that
-- overlap are apart in the model, and the code reads none but the first of a page. The loop
-- of `freerange` has fuel for 2 ^ 20 pages, all that 32-bit addresses have.
-- The blocks of the file system are bytes, as the buffer cache shows them; `log_write` makes a change
-- to a buffer one to the blocks, and its own panics are those of Log. There is one device, and the
-- functions of `devsw` are a parameter. Sleep locks are free when they are taken. The loops of `readi`
-- and `writei` have as many rounds as bytes, `balloc` one for each block of the map, `dirlookup` and
-- `dirlink` one for each entry and one more, and `skipelem` a fuel that reaches the end of the text. `filewrite` has a
-- round for each byte; a chunk has one byte at least.
-- The process that a system call reads its arguments from is its memory, its size and its stack
-- pointer. What `uniq1` and `head1` print is a list, and an access outside their arrays is `none`; their
-- loops run over the bytes of their buffers.
-- A spin lock and the interrupt flags change in steps: what a processor does between two accesses to
-- the lock that others see is one step, and any processor makes the next one. A buffer of the cache is
-- its index, and `bcache.head` is 30; a scan of the ring has a round for each buffer and one for the
-- head. The counts of references (`refcnt`, `ref`) and the depth `ncli` are numbers without a bound, where
-- the code has 32 bits. The parser of the shell has a unit of fuel for each call and each round of a loop, 16 for each
-- byte of the text. What `grep` reads is a list of what each `read` returns, and its loop on lines has a
-- round for each byte in the buffer. The loop of `printint` has a round for each bit of the number.
--
-- Not modelled: the lock of the table and the interrupt flag (and so the panics of `sched` on them),
-- register contexts, the other printing, the running of commands by the shell, and the parts of the
-- kernel and the user programs outside these files.
pub mod Base
pub mod Cstring
pub mod Pipe
pub mod Log
pub mod Kalloc
pub mod Fs
pub mod File
pub mod Syscall
pub mod Text
pub mod Print
pub mod Spin
pub mod Bio
pub mod Shell
pub mod Grep
pub mod Proc
