-- ===== src/Grep.antt =====
-- grep.c: the matcher of patterns, and the lines that `grep` writes. Patterns and lines are lists of the
-- bytes before the NUL.
pub mod Match
pub mod Lines
mod Examples
use os_fcfs_prirority.Base.{
  ℕ, zero, suc, ◌+◌, ◌*◌, Bool, true, false, not, ◌&&◌, ◌||◌, List, [], ◌∷◌, ◌++◌, length, leb,
  ◌==◌, Option, none, some, if◌then◌else◌,
}

-- `re[0]=='.' || re[0]==*text`.
abbrev pub fits : ℕ → ℕ → Bool
fits c d = c == b'.' || c == d

abbrev pub is_nil : List ℕ → Bool
is_nil [] = true
is_nil (d ∷ text) = false

-- `matchstar`, with `here` for `matchhere` of the rest of the pattern.
unfoldable pub matchstar : ℕ → (List ℕ → Bool) → List ℕ → Bool
matchstar c here [] = here []
matchstar c here (d ∷ text) =
    let more = matchstar c here text in here (d ∷ text) || (if fits c d then more else false)

-- `re[0]=='.' || re[0]==*text`, and then the rest.
abbrev pub match_one : ℕ → (List ℕ → Bool) → List ℕ → Bool
match_one c here [] = false
match_one c here (d ∷ text) = if fits c d then here text else false

unfoldable pub matchhere : List ℕ → List ℕ → Bool
matchhere [] text = true
matchhere (c ∷ []) text = if c == b'$' then is_nil text else match_one c (λ rest. true) text
matchhere (c ∷ d ∷ re) text =
    if d == b'*' then matchstar c (matchhere re) text else match_one c (matchhere (d ∷ re)) text

-- The loop of `match`.
abbrev pub match_from : (List ℕ → Bool) → List ℕ → Bool
match_from here [] = here []
match_from here (d ∷ text) = let more = match_from here text in here (d ∷ text) || more

unfoldable pub match : List ℕ → List ℕ → Bool
match [] text = match_from (matchhere []) text
match (c ∷ re) text = if c == b'^' then matchhere re text else match_from (matchhere (c ∷ re)) text

-- `strchr(p, '\n')`: the bytes before the newline and those after it.
abbrev pub put_byte_on : ℕ → Option (List ℕ × List ℕ) → Option (List ℕ × List ℕ)
put_byte_on c none = none
put_byte_on c (some (line, rest)) = some (c ∷ line, rest)

abbrev pub find_newline : List ℕ → Option (List ℕ × List ℕ)
find_newline [] = none
find_newline (c ∷ s) =
    if c == b'\n' then some ([], s) else (if c == 0 then none else put_byte_on c (find_newline s))

-- The loop on the lines in the buffer: what it writes, and what is left at `p`.
unfoldable pub grep_lines : ℕ → List ℕ → List ℕ → List ℕ × List ℕ
grep_lines zero re p = ([], p)
grep_lines (suc fuel) re p = elim (find_newline p) [
  | none ↦ ([], p)
  | some (line, rest) ↦
      let more = grep_lines fuel re rest in
      ((if match re line then line ++ (b'\n' ∷ []) else []) ++ more.0, more.1)
]

-- The loop of `grep`: `held` is what is in the buffer, and `reads` are the bytes of each `read`, at
-- most 1023 with what is held. Where the buffer has no newline, nothing is kept of it.
unfoldable pub grep : List ℕ → List ℕ → List (List ℕ) → List ℕ
grep re held [] = []
grep re held ([] ∷ reads) = []
grep re held ((b ∷ bytes) ∷ reads) =
    let buf = held ++ (b ∷ bytes) in
    let (written, p) = grep_lines (length buf) re buf in
    let kept = if length p == length buf then [] else p in written ++ grep re kept reads
