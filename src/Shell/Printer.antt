-- ===== src/Shell/Printer.antt =====
-- Commands as texts that the parser reads, each text with one after it.
use os_fcfs_prirority.Base.{
  ℕ, suc, ◌+◌, ◌<◌, ◌≡◌, ◌⊎◌, Bool, true, false, ◌||◌, List, [], ◌∷◌, ◌++◌, length, ◌==◌,
  if◌then◌else◌,
}
use os_fcfs_prirority.Shell.{
  Cmd, exec, redir, pipe, list, back, o_rdonly, o_create, is_one_of, is_space, is_symbol,
}

-- Where a command stands: as a line, before `&`, in a pipe, or with redirections.
pub data Level : Type 0 where
  at_line at_back at_pipe at_exec : Level

abbrev pub put_word : List ℕ → List ℕ → List ℕ
put_word w t = w ++ (b' ' ∷ t)

abbrev pub put_words : List (List ℕ) → List ℕ → List ℕ
put_words [] t = t
put_words (w ∷ ws) t = put_word w (put_words ws t)

abbrev pub arrow : ℕ → ℕ
arrow fd = if fd == 0 then b'<' else b'>'

abbrev pub emit : Cmd → Level → List ℕ → List ℕ
emit (exec args) lv t = put_words args t
emit (redir c file mode fd) lv t = emit c at_exec (arrow fd ∷ put_word file t)
emit (pipe a b) at_exec t = b'(' ∷ emit a at_exec (b'|' ∷ emit b at_pipe (b')' ∷ t))
emit (pipe a b) _ t = emit a at_exec (b'|' ∷ emit b at_pipe t)
emit (list a b) at_line t = emit a at_back (b';' ∷ emit b at_line t)
emit (list a b) _ t = b'(' ∷ emit a at_back (b';' ∷ emit b at_line (b')' ∷ t))
emit (back c) at_line t = emit c at_back (b'&' ∷ t)
emit (back c) at_back t = emit c at_back (b'&' ∷ t)
emit (back c) _ t = b'(' ∷ emit c at_back (b'&' ∷ b')' ∷ t)

-- No blank and no symbol.
abbrev pub IsPlain : List ℕ → Type 0
IsPlain [] = Unit {0}
IsPlain (c ∷ w) = ((is_space c || is_symbol c) ≡ false) × IsPlain w

abbrev pub IsWord : List ℕ → Type 0
IsWord [] = ⊥
IsWord (c ∷ w) = IsPlain (c ∷ w)

abbrev pub IsWords : List (List ℕ) → Type 0
IsWords [] = Unit {0}
IsWords (w ∷ ws) = IsWord w × IsWords ws

abbrev pub IsKind : ℕ → ℕ → Type 0
IsKind mode fd = ((mode ≡ o_rdonly) × (fd ≡ 0)) ⊎ ((mode ≡ o_create) × (fd ≡ 1))

-- What the parser can make: words without blanks, at most nine for a command, and the two kinds of
-- redirection.
abbrev pub IsCommand : Cmd → Type 0
IsCommand (exec args) = IsWords args × (length args < 10)
IsCommand (redir c file mode fd) = IsCommand c × IsWord file × IsKind mode fd
IsCommand (pipe a b) = IsCommand a × IsCommand b
IsCommand (list a b) = IsCommand a × IsCommand b
IsCommand (back c) = IsCommand c

abbrev pub size : Cmd → ℕ
size (exec args) = suc (length args)
size (redir c file mode fd) = suc (size c)
size (pipe a b) = suc (size a + size b)
size (list a b) = suc (size a + size b)
size (back c) = suc (size c)

-- What can follow at a level.
abbrev pub stops : Level → List ℕ
stops at_line = b')' ∷ []
stops at_back = b')' ∷ b';' ∷ []
stops at_pipe = b')' ∷ b';' ∷ b'&' ∷ []
stops at_exec = b')' ∷ b';' ∷ b'&' ∷ b'|' ∷ []

abbrev pub follows : Level → List ℕ → Bool
follows lv [] = true
follows lv (c ∷ t) = is_one_of (stops lv) c

-- Redirections: the file, the mode and the descriptor of each.
abbrev pub Redirs : Type 0
Redirs = List (List ℕ × ℕ × ℕ)

abbrev pub put_redirs : Redirs → List ℕ → List ℕ
put_redirs [] t = t
put_redirs ((file, mode, fd) ∷ rs) t = arrow fd ∷ put_word file (put_redirs rs t)

abbrev pub wrap : Cmd → Redirs → Cmd
wrap c [] = c
wrap c ((file, mode, fd) ∷ rs) = wrap (redir c file mode fd) rs

abbrev pub IsRedirs : Redirs → Type 0
IsRedirs [] = Unit {0}
IsRedirs ((file, mode, fd) ∷ rs) = IsWord file × IsKind mode fd × IsRedirs rs
