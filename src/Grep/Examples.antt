-- ===== src/Grep/Examples.antt =====
-- Patterns and lines.
use os_fcfs_prirority.Base.{List, [], ◌∷◌, ◌≡◌, refl, ◌↔◌, true, ℕ, arith}
use os_fcfs_prirority.Grep.{match, matchhere, grep, grep_lines}
use os_fcfs_prirority.Grep.Match.{IsMatch, match_iff}
use os_fcfs_prirority.Grep.Lines.{chosen, split, join, grep-chosen}

-- `^a.*b$`
abbrev pattern_ab : List ℕ
pattern_ab = b'^' ∷ b'a' ∷ b'.' ∷ b'*' ∷ b'b' ∷ b'$' ∷ []

match_iff_example :
    (match pattern_ab (b'a' ∷ b'x' ∷ b'b' ∷ []) ≡ true)
    ↔ IsMatch pattern_ab (b'a' ∷ b'x' ∷ b'b' ∷ [])
match_iff_example = match_iff pattern_ab (b'a' ∷ b'x' ∷ b'b' ∷ [])

-- Two reads, with a line that is in both.
abbrev two_reads : List (List ℕ)
two_reads = (b'a' ∷ b'b' ∷ b'\n' ∷ b'a' ∷ []) ∷ (b'c' ∷ b'b' ∷ b'\n' ∷ b'b' ∷ b'\n' ∷ []) ∷ []

grep-chosen_example : grep pattern_ab [] two_reads ≡ chosen pattern_ab (split (join two_reads)).0
grep-chosen_example = grep-chosen pattern_ab two_reads (
  (omega arith, (omega arith, (omega arith, (omega arith, tt)))),
  refl,
  ((omega arith, (omega arith, (omega arith, (omega arith, (omega arith, tt))))), refl, tt),
)

-- The start of a line that a read ends in before any newline is lost.
test_lost : grep (b'a' ∷ []) [] ((b'a' ∷ []) ∷ (b'b' ∷ b'\n' ∷ []) ∷ []) ≡ []
unfolding grep grep_lines match matchhere
test_lost = refl
