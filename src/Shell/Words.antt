-- ===== src/Shell/Words.antt =====
-- The words and the redirections of a printed command are read back.
use mathlib.Core.List.{append-nil, append_assoc}
use os_fcfs_prirority.Base.{
  ℕ, zero, suc, ◌+◌, ◌<◌, ◌≡◌, inl, inr, refl, ◌∙◌, true, false, List, [], ◌∷◌, ◌++◌, Bool-cases,
  length, arith, ◌==◌, leb,
}
use os_fcfs_prirority.Shell.{
  Cmd, exec, redir, skip, gettoken, starts_with, parsed, then_parse, parseredirs, parseargs,
  maxargs,
}
use os_fcfs_prirority.Shell.Printer.{
  at_exec, put_word, put_words, arrow, IsWord, IsWords, follows, Redirs, put_redirs, wrap, IsRedirs,
  IsKind,
}
use os_fcfs_prirority.Shell.Tokens.{
  skip-follows, skip-word, gettoken-word, peek-solid, gettoken-less, gettoken-greater,
  follows-no_arrow, follows-no_paren, word-no_arrow, word-no_paren, word-no_stop,
}

-- The redirections start with no blank, whatever follows them.
pub skip-redirs :
    (rs : Redirs) (t : List ℕ) → IsRedirs rs → skip t ≡ t → skip (put_redirs rs t) ≡ put_redirs rs t
skip-redirs [] t rr h = h
skip-redirs ((file, mode, fd) ∷ rs) t rr h = elim (Bool-cases (fd == 0)) [
  | inl e ↦ rw e refl
  | inr e ↦ rw e refl
]

pub skip-words :
    (ws : List (List ℕ)) (t : List ℕ)
    → IsWords ws
    → skip t ≡ t
    → skip (put_words ws t) ≡ put_words ws t
skip-words [] t wr h = h
skip-words (w ∷ ws) t (first, wr) h = skip-word w (put_words ws t) first

-- One round of the loop on `<` or `>` with its file.
redirs_step :
    (f : ℕ) (c : Cmd) (file t : List ℕ) (mode fd : ℕ)
    → IsWord file
    → IsKind mode fd
    → skip t ≡ t
    → parseredirs (suc f) c (arrow fd ∷ put_word file t) ≡ parseredirs f (redir c file mode fd) t
unfolding parseredirs
redirs_step f c file t mode fd good (inl (m, d)) h =
    rw
      (
        m,
        d,
        peek-solid (b'<' ∷ b'>' ∷ []) (b'<' ∷ put_word file t) refl,
        gettoken-less file t good,
        gettoken-word file t good,
        h,
      )
      refl
redirs_step f c file t mode fd good (inr (m, d)) h =
    rw
      (
        m,
        d,
        peek-solid (b'<' ∷ b'>' ∷ []) (b'>' ∷ put_word file t) refl,
        gettoken-greater file t good,
        gettoken-word file t good,
        h,
      )
      refl

-- `parseredirs` reads them all and leaves what follows.
pub parseredirs-put_redirs :
    (rs : Redirs) (c : Cmd) (t : List ℕ) (f : ℕ)
    → IsRedirs rs
    → follows at_exec t ≡ true
    → length rs < f
    → parseredirs f c (put_redirs rs t) ≡ parsed (wrap c rs) t
unfolding parseredirs
parseredirs-put_redirs rs c t zero rr h enough = absurd (omega arith)
parseredirs-put_redirs [] c t (suc f) rr h enough =
    rw (peek-solid (b'<' ∷ b'>' ∷ []) t (skip-follows at_exec t h), follows-no_arrow t h) refl
parseredirs-put_redirs ((file, mode, fd) ∷ rs) c t (suc f) (good, kind, rr) h enough =
    let solid = skip-redirs rs t rr (skip-follows at_exec t h) in
    redirs_step f c file (put_redirs rs t) mode fd good kind solid
    ∙ parseredirs-put_redirs rs (redir c file mode fd) t f rr h (omega arith)

-- No redirection stands before a word.
parseredirs-put_word :
    (c : Cmd) (w t : List ℕ) (f : ℕ)
    → IsWord w
    → parseredirs (suc f) c (put_word w t) ≡ parsed c (put_word w t)
unfolding parseredirs
parseredirs-put_word c w t f good =
    rw (peek-solid (b'<' ∷ b'>' ∷ []) (put_word w t) (skip-word w t good), word-no_arrow w t good)
      refl

-- The loop of `parseexec` on a word.
parseargs-put_word :
    (f argc : ℕ) (args : List (List ℕ)) (w t : List ℕ)
    → IsWord w
    → suc argc < maxargs
    → skip t ≡ t
    → parseargs (suc f) argc (exec args) (put_word w t)
      ≡ then_parse (parseredirs f (exec (args ++ (w ∷ []))) t) (parseargs f (suc argc))
unfolding parseargs
parseargs-put_word f argc args w t good few h =
    let stop : List ℕ = b'|' ∷ b')' ∷ b'&' ∷ b';' ∷ [] in
    let room : leb maxargs (suc argc) ≡ false = ground arith in
    rw
      (
        peek-solid stop (put_word w t) (skip-word w t good),
        word-no_stop w t good,
        gettoken-word w t good,
        h,
        room,
      )
      refl

-- It ends where the command ends.
parseargs-follows :
    (f argc : ℕ) (c : Cmd) (t : List ℕ)
    → follows at_exec t ≡ true
    → parseargs (suc f) argc c t ≡ parsed c t
unfolding parseargs gettoken
parseargs-follows f argc c [] h = rw (peek-solid (b'|' ∷ b')' ∷ b'&' ∷ b';' ∷ []) [] refl) refl
parseargs-follows f argc c (b ∷ t) h =
    let stop : List ℕ = b'|' ∷ b')' ∷ b'&' ∷ b';' ∷ [] in
    let ends : starts_with stop (b ∷ t) ≡ true = ground arith in
    rw (peek-solid stop (b ∷ t) (skip-follows at_exec (b ∷ t) h), ends) refl

-- A simple command is read with its redirections.
pub parseargs-put_words :
    (ws : List (List ℕ)) (rs : Redirs) (args : List (List ℕ)) (t : List ℕ) (argc f : ℕ)
    → IsWords ws
    → IsRedirs rs
    → follows at_exec t ≡ true
    → argc + length ws < maxargs
    → suc (length ws + length rs) < f
    → then_parse (parseredirs f (exec args) (put_words ws (put_redirs rs t))) (parseargs f argc)
      ≡ parsed (wrap (exec (args ++ ws)) rs) t
parseargs-put_words ws rs args t argc zero wr rr h few enough = absurd (omega arith)
parseargs-put_words [] rs args t argc (suc f) wr rr h few enough =
    rw
      (
        parseredirs-put_redirs rs (exec args) t (suc f) rr h (omega arith),
        parseargs-follows f argc (wrap (exec args) rs) t h,
        append-nil args,
      )
      refl
parseargs-put_words (w ∷ ws) rs args t argc (suc f) (good, wr) rr h few enough =
    let rest = put_words ws (put_redirs rs t) in
    let solid : skip rest ≡ rest =
      skip-words ws (put_redirs rs t) wr (skip-redirs rs t rr (skip-follows at_exec t h)) in
    let again =
      parseargs-put_words ws rs (args ++ (w ∷ [])) t (suc argc) f wr rr h (omega arith)
        (omega arith) in
    rw
      (
        parseredirs-put_word (exec args) w rest f good,
        parseargs-put_word f argc args w rest good (omega arith) solid,
        again,
        append_assoc args (w ∷ []) ws,
      )
      refl

-- No parenthesis stands at its start.
pub words-no_paren :
    (ws : List (List ℕ)) (rs : Redirs) (t : List ℕ)
    → IsWords ws
    → IsRedirs rs
    → follows at_exec t ≡ true
    → starts_with (b'(' ∷ []) (put_words ws (put_redirs rs t)) ≡ false
words-no_paren [] [] t wr rr h = follows-no_paren t h
words-no_paren [] ((file, mode, fd) ∷ rs) t wr rr h = elim (Bool-cases (fd == 0)) [
  | inl e ↦ rw e refl
  | inr e ↦ rw e refl
]
words-no_paren (w ∷ ws) rs t (good, wr) rr h = word-no_paren w (put_words ws (put_redirs rs t)) good
