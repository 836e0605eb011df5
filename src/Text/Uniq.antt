-- ===== src/Text/Uniq.antt =====
-- sysproc.c: the call `uniq1`.

pub mod Same
pub mod Lines
pub mod Loop
use os_fcfs_prirority.Base.{
  ℕ, zero, suc, ◌+◌, ◌&&◌, ◌||◌, Option, none, some, List, [], ◌∷◌, ◌++◌, update, ltb, leb, ◌==◌,
  if◌then◌else◌,
}
use os_fcfs_prirority.Cstring.{strncmp, strncpy}
use os_fcfs_prirority.Fs.Inode.{failed}
use os_fcfs_prirority.Syscall.{User, argint, argstr}
use os_fcfs_prirority.Text.{newline, c_string}

abbrev pub line_size : ℕ
line_size = 1000

-- What a call of `cprintf` prints: `%s`, or `%d %s`.
pub data Printed : Type 0 where
  line : List ℕ → Printed
  numbered : ℕ → List ℕ → Printed

-- `previousLine` and `count`.
pub record Uniq : Type 0 where
  pub previous : ℕ → ℕ
  pub count : ℕ

-- `if(c >= 'A' && c <= 'Z') c = c + 32;`
abbrev pub lower : ℕ → ℕ
lower c = if leb b'A' c && leb c b'Z' then c + 32 else c

-- The loop over `cmpLine` from offset `i` on, at most `n` bytes.
unfoldable pub lower_from : ℕ → ℕ → (ℕ → ℕ) → ℕ → ℕ
lower_from zero i t = t
lower_from (suc n) i t =
    let rest = lower_from n (suc i) (update t i (lower (t i))) in if t i == 0 then t else rest

-- The end of a line: what is printed, `text` being the string in `currentLine`, and the state. All of
-- `cmpLine` is written before it is read.
unfoldable pub line_end : ℕ → List ℕ → (ℕ → ℕ) → Uniq → List Printed × Uniq
line_end flag text current u =
    if flag == 1
    then (let cmp = lower_from line_size 0 (strncpy (λ p. 0) current line_size) in
        if strncmp u.previous cmp line_size == 0
        then ([], u)
        else (line text ∷ [], record u { previous = strncpy u.previous cmp line_size }))
    else (if flag == 2
        then (let next = strncpy u.previous current line_size in
            if strncmp u.previous current line_size == 0
            then (
              if suc u.count == 1 then line text ∷ [] else [],
              record { previous = next; count = suc u.count },
            )
            else ([], record { previous = next; count = 0 }))
        else (if flag == 3
            then (let next = strncpy u.previous current line_size in
                if strncmp u.previous current line_size == 0 || strncmp u.previous (λ p. 0) 4 == 0
                then ([], record { previous = next; count = suc u.count })
                else (numbered u.count text ∷ [], record { previous = next; count = 1 }))
            else (if strncmp current u.previous line_size == 0 then ([], u) else (
              line text ∷ [],
              record u { previous = strncpy u.previous current line_size },
            ))))

-- One byte, for `value` bytes in `currentLine`; none is an access outside it.
unfoldable pub uniq_byte : ℕ → ℕ → ℕ → (ℕ → ℕ) → Uniq → Option (List Printed × ℕ × (ℕ → ℕ) × Uniq)
uniq_byte flag b value current u =
    let copied = update current value b in
    if b == newline
    then (if ltb (suc value) line_size
        then (let ended = update copied (suc value) 0 in
            elim (c_string line_size ended 0) [
              | none ↦ none
              | some text ↦ let out = line_end flag text ended u in some (out.0, 0, ended, out.1)
            ])
        else none)
    else some ([], suc value, copied, u)

-- The loop of `sys_uniq1` with `n` bytes of `file` left from `i` on.
unfoldable pub uniq_from : ℕ → ℕ → ℕ → (ℕ → ℕ) → Uniq → (ℕ → ℕ) → ℕ → Option (List Printed)
uniq_from zero i value current u file flag = some []
uniq_from (suc n) i value current u file flag = elim (uniq_byte flag (file i) value current u) [
  | none ↦ none
  | some (out, value', current', u') ↦ elim (uniq_from n (suc i) value' current' u' file flag) [
    | none ↦ none
    | some rest ↦ some (out ++ rest)
  ]
]

-- `sys_uniq1`: what it prints and returns; none is an access outside `currentLine`. The bytes of `file`
-- that the call does not set are 0 here: `strncpy` sets all of them.
unfoldable pub sys_uniq1 : User → Option (List Printed × ℕ)
sys_uniq1 u = elim (argstr u 0) [
  | none ↦ some ([], failed)
  | some (buffer, len) ↦ elim (argint u 1) [
    | none ↦ some ([], failed)
    | some flag ↦
        let file = strncpy (λ p. 0) (λ p. u.mem (buffer + p)) line_size in
        elim (uniq_from line_size 0 0 (λ p. 0) (record { previous = λ p. 0; count = 0 }) file
          flag) [ none ↦ none | some out ↦ some (out, 0) ]
  ]
]
