-- ===== src/Syscall.antt =====
-- syscall.c: the arguments of system calls, read from the memory of the process.
pub mod Checks
mod Examples
use os_fcfs_prirority.Base.{
  ℕ, ◌+◌, ◌-◌, ◌*◌, ◌||◌, Option, none, some, first, u32, signed_ltb, ltb, leb, ◌==◌, if◌then◌else◌,
}

-- What the calls see of the process: the bytes of its memory, `sz`, and the saved stack pointer.
pub record User : Type 0 where
  pub mem : ℕ → ℕ
  pub sz : ℕ
  pub esp : ℕ

-- `*(int*)addr`.
abbrev pub int_at : (ℕ → ℕ) → ℕ → ℕ
int_at mem a = mem a + 256 * mem (a + 1) + 65536 * mem (a + 2) + 16777216 * mem (a + 3)

-- `fetchint`; none is -1.
unfoldable pub fetchint : User → ℕ → Option ℕ
fetchint u addr =
    if leb u.sz addr || ltb u.sz (u32 (addr + 4)) then none else some (int_at u.mem addr)

-- `fetchstr`: the string and its length; none is -1.
unfoldable pub fetchstr : User → ℕ → Option (ℕ × ℕ)
fetchstr u addr =
    if leb u.sz addr then none else elim (first (λ s. u.mem s == 0) (u.sz - addr) addr) [
      | none ↦ none
      | some s ↦ some (addr, s - addr)
    ]

unfoldable pub argint : User → ℕ → Option ℕ
argint u n = fetchint u (u32 (u.esp + 4 + 4 * n))

-- `argptr`, of a block of `size` bytes.
unfoldable pub argptr : User → ℕ → ℕ → Option ℕ
argptr u n size = elim (argint u n) [
  | none ↦ none
  | some i ↦ if signed_ltb size 0 || (leb u.sz i || ltb u.sz (u32 (i + size))) then none else some i
]

unfoldable pub argstr : User → ℕ → Option (ℕ × ℕ)
argstr u n = elim (argint u n) [ none ↦ none | some addr ↦ fetchstr u addr ]
