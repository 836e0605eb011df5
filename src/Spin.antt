-- ===== src/Spin.antt =====
-- spinlock.c: one lock, and the interrupt flags of the processors. What a processor does between two
-- accesses to the lock that others see is one step.
pub mod Nest
pub mod Calls
pub mod Steps
pub mod Mutex
pub mod Kept
pub mod Exclusion
mod Examples
use os_fcfs_prirority.Base.{
  ℕ, ◌+◌, ◌-◌, Bool, true, false, ◌&&◌, Option, none, some, points_to, ltb, ◌==◌, if◌then◌else◌,
}

-- What `struct cpu` has of interrupts, and the flag FL_IF.
pub record Cpu : Type 0 where
  pub ncli : ℕ
  pub intena : Bool
  pub enabled : Bool

-- `struct spinlock`; `cpu` is null or the index of a processor.
pub record Spinlock : Type 0 where
  pub locked : Bool
  pub cpu : Option ℕ

abbrev pub initlock : Spinlock
initlock = record { locked = false; cpu = none }

unfoldable pub pushcli : Cpu → Cpu
pushcli c = record {
  ncli = c.ncli + 1;
  intena = if c.ncli == 0 then c.enabled else c.intena;
  enabled = false;
}

-- `popcli`; none is a panic.
unfoldable pub popcli : Cpu → Option Cpu
popcli c =
    if c.enabled
    then none
    else (if c.ncli == 0
        then none
        else some (record c {
          ncli = c.ncli - 1;
          enabled = if c.ncli - 1 == 0 && c.intena then true else c.enabled;
        }))

-- `holding` of processor `me`: the result, and the processor.
unfoldable pub holding : Spinlock → ℕ → Cpu → Option (Bool × Cpu)
unfolding popcli pushcli
holding lk me c = elim (popcli (pushcli c)) [
  | none ↦ none
  | some c' ↦ some (lk.locked && points_to lk.cpu me, c')
]

-- `acquire` up to its loop; none is a panic.
unfoldable pub begin_acquire : Spinlock → ℕ → Cpu → Option Cpu
begin_acquire lk me c = elim (holding lk me (pushcli c)) [
  | none ↦ none
  | some (held, c') ↦ if held then none else some c'
]

-- A round of `while(xchg(&lk->locked, 1) != 0);`: the lock, and whether the loop ends.
unfoldable pub try_lock : Spinlock → Spinlock × Bool
try_lock lk = (record lk { locked = true }, if lk.locked then false else true)

-- `lk->cpu = mycpu();`
abbrev pub end_acquire : Spinlock → ℕ → Spinlock
end_acquire lk me = record lk { cpu = some me }

-- `release` up to the clearing of `lk->cpu`; none is a panic.
unfoldable pub begin_release : Spinlock → ℕ → Cpu → Option (Spinlock × Cpu)
begin_release lk me c = elim (holding lk me c) [
  | none ↦ none
  | some (held, c') ↦ if held then some (record lk { cpu = none }, c') else none
]

-- The rest of `release`; none is a panic.
unfoldable pub end_release : Spinlock → Cpu → Option (Spinlock × Cpu)
end_release lk c = elim (popcli c) [
  | none ↦ none
  | some c' ↦ some (record lk { locked = false }, c')
]
