-- ===== src/Shell/Examples.antt =====
-- Commands of the shell read.
use os_fcfs_prirority.Base.{[], ◌∷◌, ◌≡◌, ◌≢◌, refl, arith, inl}
use os_fcfs_prirority.Shell.{
  Cmd, exec, redir, pipe, list, back, parsed, panics, out_of_fuel, parsecmd, parseline, peek,
  parseredirs, parseargs, gettoken, parsebacks,
}
use os_fcfs_prirority.Shell.Printer.{at_line, emit, IsCommand}
use os_fcfs_prirority.Shell.RoundTrip.{parsecmd-emit}
use os_fcfs_prirority.Shell.Total.{parsecmd-returns}

-- `(a ; b <c ) | d &`
abbrev sample : Cmd
sample = back (
    pipe (list (exec ((b'a' ∷ []) ∷ [])) (redir (exec ((b'b' ∷ b'b' ∷ []) ∷ [])) (b'c' ∷ []) 0 0))
      (exec ((b'd' ∷ []) ∷ [])))

sample-IsCommand : IsCommand sample
sample-IsCommand = (
  (
    (((refl, tt), tt), omega arith),
    ((((refl, (refl, tt)), tt), omega arith), (refl, tt), inl (refl, refl)),
  ),
  (((refl, tt), tt), omega arith),
)

parsecmd-emit_example : parsecmd (emit sample at_line []) ≡ parsed sample []
parsecmd-emit_example = parsecmd-emit sample sample-IsCommand

parsecmd-returns_example : parsecmd (b'a' ∷ b'|' ∷ b'(' ∷ []) ≢ out_of_fuel
parsecmd-returns_example = parsecmd-returns (b'a' ∷ b'|' ∷ b'(' ∷ [])

-- `a )`
test_leftovers : parsecmd (b'a' ∷ b' ' ∷ b')' ∷ []) ≡ panics
unfolding parsecmd parseline peek parseredirs parseargs gettoken parsebacks
test_leftovers = refl

-- `>>f`
test_append : parsecmd (b'>' ∷ b'>' ∷ b'f' ∷ []) ≡ parsed (redir (exec []) (b'f' ∷ []) 513 1) []
unfolding parsecmd parseline peek parseredirs parseargs gettoken parsebacks
test_append = refl
