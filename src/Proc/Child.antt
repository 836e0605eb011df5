-- ===== src/Proc/Child.antt =====
-- What a child made by `fork` or `custmpro` starts with.
use os_fcfs_prirority.Base.{ℕ, ◌≡◌, ◌≢◌, Option, none, some, arith}
use os_fcfs_prirority.Proc.Types.{runnable, Proc, Kernel, Services}
use os_fcfs_prirority.Proc.Alloc.{fill_child}

-- The priority of the child: `custmpro` gives one, `fork` leaves that of the slot's last process.
abbrev pub priority_of : Option ℕ → Proc → ℕ
priority_of none old = old.priority
priority_of (some n) old = n

-- `q` is a new child of slot `cur`, whose process is `me`; `old` is what its slot held before.
pub record IsChild (given : Option ℕ) (cur : ℕ) (me old q : Proc) : Type 0 where
  pub ready : q.state ≡ runnable
  pub parent : q.parent ≡ some cur
  pub same_size : q.sz ≡ me.sz
  pub returns_zero : q.tf ≡ record (me.tf) { eax = 0 }
  pub same_directory : q.cwd ≡ me.cwd
  pub has_memory : q.pgdir ≢ 0
  pub its_priority : q.priority ≡ priority_of given old
  pub stale_killed : q.killed ≡ old.killed

module _ (v : Services) (given : Option ℕ) (cur np : ℕ) (k : Kernel v.World) where
  pub filled-IsChild :
      (dir : ℕ)
      → dir ≢ 0
      → IsChild given cur (k.procs cur) (k.procs np) ((fill_child v given cur np dir k).procs np)
        × (((fill_child v given cur np dir k).procs np).pid ≡ (k.procs np).pid)
        × (((fill_child v given cur np dir k).procs np).kstack ≡ (k.procs np).kstack)
        × (((fill_child v given cur np dir k).procs np).ctime ≡ (k.procs np).ctime)
  unfolding fill_child
  filled-IsChild dir h = ground arith

pub IsChild-of :
    (given : Option ℕ) (cur : ℕ) (me me' old old' q : Proc)
    → IsChild given cur me' old' q
    → me' ≡ me
    → old'.priority ≡ old.priority
    → old'.killed ≡ old.killed
    → IsChild given cur me old q
IsChild-of none cur me me' old old' q h e p k = ground arith
IsChild-of (some n) cur me me' old old' q h e p k = ground arith
