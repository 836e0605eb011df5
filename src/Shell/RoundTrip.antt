-- ===== src/Shell/RoundTrip.antt =====
-- `parsecmd` on printed commands.
use os_fcfs_prirority.Base.{ℕ, suc, ◌+◌, ◌*◌, ◌≤◌, ◌≡◌, refl, List, [], ◌∷◌, length, arith}
use os_fcfs_prirority.Shell.{Cmd, exec, redir, pipe, list, back, peek, parsed, parsecmd}
use os_fcfs_prirority.Shell.Printer.{
  Level, at_line, at_back, at_pipe, at_exec, put_word, put_words, arrow, emit, IsCommand, size,
}
use os_fcfs_prirority.Shell.Whole.{command-Reads}

length-put_word : (w t : List ℕ) → length (put_word w t) ≡ suc (length w + length t)
length-put_word [] t = omega arith
length-put_word (c ∷ w) t = omega (arith, length-put_word w t)

length-put_words :
    (args : List (List ℕ)) (t : List ℕ) → length args + length t ≤ length (put_words args t)
length-put_words [] t = omega arith
length-put_words (w ∷ ws) t =
    omega (arith, length-put_words ws t, length-put_word w (put_words ws t))

-- A command is no larger than its text.
size-emit :
    (c : Cmd) (lv : Level) (t : List ℕ) → size c + 2 * length t ≤ 2 * length (emit c lv t) + 1
size-emit (exec args) lv t = omega (arith, length-put_words args t)
size-emit (redir c file mode fd) lv t =
    omega (arith, size-emit c at_exec (arrow fd ∷ put_word file t), length-put_word file t)
size-emit (pipe a b) at_exec t =
    omega (
      arith,
      size-emit a at_exec (b'|' ∷ emit b at_pipe (b')' ∷ t)),
      size-emit b at_pipe (b')' ∷ t),
    )
size-emit (pipe a b) at_pipe t =
    omega (arith, size-emit a at_exec (b'|' ∷ emit b at_pipe t), size-emit b at_pipe t)
size-emit (pipe a b) at_back t =
    omega (arith, size-emit a at_exec (b'|' ∷ emit b at_pipe t), size-emit b at_pipe t)
size-emit (pipe a b) at_line t =
    omega (arith, size-emit a at_exec (b'|' ∷ emit b at_pipe t), size-emit b at_pipe t)
size-emit (list a b) at_line t =
    omega (arith, size-emit a at_back (b';' ∷ emit b at_line t), size-emit b at_line t)
size-emit (list a b) at_exec t =
    omega (
      arith,
      size-emit a at_back (b';' ∷ emit b at_line (b')' ∷ t)),
      size-emit b at_line (b')' ∷ t),
    )
size-emit (list a b) at_pipe t =
    omega (
      arith,
      size-emit a at_back (b';' ∷ emit b at_line (b')' ∷ t)),
      size-emit b at_line (b')' ∷ t),
    )
size-emit (list a b) at_back t =
    omega (
      arith,
      size-emit a at_back (b';' ∷ emit b at_line (b')' ∷ t)),
      size-emit b at_line (b')' ∷ t),
    )
size-emit (back c) at_line t = omega (arith, size-emit c at_back (b'&' ∷ t))
size-emit (back c) at_back t = omega (arith, size-emit c at_back (b'&' ∷ t))
size-emit (back c) at_exec t = omega (arith, size-emit c at_back (b'&' ∷ b')' ∷ t))
size-emit (back c) at_pipe t = omega (arith, size-emit c at_back (b'&' ∷ b')' ∷ t))

-- A command whose words have no blank and no symbol, at most nine of them together, and whose
-- redirections are of the two kinds, is what `parsecmd` makes of its text.
pub parsecmd-emit : (c : Cmd) → IsCommand c → parsecmd (emit c at_line []) ≡ parsed c []
unfolding parsecmd peek
parsecmd-emit c good =
    let (_, _, _, reads) = command-Reads c good in
    let whole =
      reads (16 * length (emit c at_line []) + 16) [] refl
        (omega (arith, size-emit c at_line [])) in
    rw whole refl
