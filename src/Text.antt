-- ===== src/Text.antt =====
-- sysproc.c: the calls `head1` and `uniq1`, which print lines of a text in the memory of the process.
-- What is printed is a list with an entry for each call of `cprintf`; the message about arguments that
-- cannot be read is left out.
pub mod Strings
pub mod Head
pub mod Uniq
mod Examples
use os_fcfs_prirority.Base.{
  ℕ, zero, suc, ◌+◌, Option, none, some, List, [], ◌∷◌, update, ltb, ◌==◌, if◌then◌else◌,
}
use os_fcfs_prirority.Cstring.{strncpy}
use os_fcfs_prirority.Fs.Inode.{failed}
use os_fcfs_prirority.Syscall.{User, argint, argstr}

abbrev pub newline : ℕ
newline = 10

-- The string at offset `i` of an array that has `n` bytes from there on; none is a read past its end.
unfoldable pub c_string : ℕ → (ℕ → ℕ) → ℕ → Option (List ℕ)
c_string zero t i = none
c_string (suc n) t i =
    if t i == 0
    then some []
    else elim (c_string n t (suc i)) [ none ↦ none | some bs ↦ some (t i ∷ bs) ]

-- What is printed first, and then.
abbrev pub emit : Option (List ℕ) → Option (List (List ℕ)) → Option (List (List ℕ))
emit none out = none
emit (some bs) none = none
emit (some bs) (some out) = some (bs ∷ out)

abbrev pub head_size : ℕ
head_size = 500

-- The loop of `sys_head1` with `n` bytes of `file1` left from `i` on.
unfoldable pub head_from : ℕ → ℕ → ℕ → ℕ → (ℕ → ℕ) → (ℕ → ℕ) → ℕ → Option (List (List ℕ))
head_from zero i j count file1 file2 lines = some []
head_from (suc n) i j count file1 file2 lines =
    let line = update file2 j (file1 i) in
    let hit = file1 i == newline in
    let count' = if hit then suc count else count in
    let rest =
      head_from n (suc i) (if hit then 0 else suc j) count' file1 (if hit then (λ p. 0) else line)
        lines in
    let out = if count' == lines then some [] else rest in
    if hit then emit (c_string head_size line 0) out else out

-- `sys_head1`: what it prints and returns; none is a read past the end of `file2`.
unfoldable pub sys_head1 : User → Option (List (List ℕ) × ℕ)
sys_head1 u = elim (argstr u 0) [
  | none ↦ some ([], failed)
  | some (buffer, len) ↦ elim (argint u 1) [
    | none ↦ some ([], failed)
    | some lines ↦
        let file1 = strncpy (λ p. 0) (λ p. u.mem (buffer + p)) head_size in
        elim (head_from head_size 0 0 0 file1 (λ p. 0) lines) [
          | none ↦ none
          | some out ↦ some (out, 0)
        ]
  ]
]
