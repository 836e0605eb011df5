-- ===== src/Shell/Parse.antt =====
-- The parser reads a printed command back.
use os_fcfs_prirority.Base.{ℕ, zero, suc, ◌+◌, ◌<◌, ◌≡◌, refl, ◌∙◌, List, [], ◌∷◌, length, arith}
use os_fcfs_prirority.Shell.{Cmd, exec, pipe, list, skip, parsed, parseline, parsepipe, parseexec}
use os_fcfs_prirority.Shell.Printer.{at_line, at_pipe, at_exec, put_words, IsWords, put_redirs}
use os_fcfs_prirority.Shell.Tokens.{skip-follows, peek-solid}
use os_fcfs_prirority.Shell.Words.{
  skip-redirs, skip-words, parseredirs-put_redirs, parseargs-put_words, words-no_paren,
}
use os_fcfs_prirority.Shell.Levels.{
  ReadsExec, ReadsPipe, ReadsBacks, ReadsLine, end_line, gettoken-symbol, parseline-end_line,
}

-- `parsepipe` of two commands with a `|` between them.
pub bar-ReadsPipe :
    (m n : ℕ) (left right : List ℕ → List ℕ) (a b : Cmd)
    → ((t : List ℕ) → skip t ≡ t → skip (right t) ≡ right t)
    → ReadsExec m left a
    → ReadsPipe n right b
    → ReadsPipe (suc (m + n)) (λ t. left (b'|' ∷ right t)) (pipe a b)
unfolding parsepipe
bar-ReadsPipe m n left right a b solid reads_a reads_b zero t h enough = absurd (omega arith)
bar-ReadsPipe m n left right a b solid reads_a reads_b (suc f) t h enough =
    let rest = b'|' ∷ right t in
    let first : parseexec f (left rest) ≡ parsed a rest = reads_a f [] rest tt refl (omega arith) in
    let behind = gettoken-symbol b'|' (right t) refl (solid t (skip-follows at_pipe t h)) in
    let second : parsepipe f (right t) ≡ parsed b t = reads_b f t h (omega arith) in
    rw (first, peek-solid (b'|' ∷ []) rest refl, behind, second) refl

-- `parseline` of two commands with a `;` between them.
pub semicolon-ReadsLine :
    (m n : ℕ) (left right : List ℕ → List ℕ) (a b : Cmd)
    → ((t : List ℕ) → skip t ≡ t → skip (right t) ≡ right t)
    → ReadsBacks m left a
    → ReadsLine n right b
    → ReadsLine (suc (m + n)) (λ t. left (b';' ∷ right t)) (list a b)
semicolon-ReadsLine m n left right a b solid reads_a reads_b zero t h enough = absurd (omega arith)
semicolon-ReadsLine m n left right a b solid reads_a reads_b (suc f) t h enough =
    let rest : List ℕ = b';' ∷ right t in
    let first = parseline-end_line f (left rest) rest a (reads_a f 0 rest refl (omega arith)) in
    let behind = gettoken-symbol b';' (right t) refl (solid t (skip-follows at_line t h)) in
    let second : parseline f (right t) ≡ parsed b t = reads_b f t h (omega arith) in
    let ended : end_line f a rest ≡ parsed (list a b) t =
      rw (peek-solid (b';' ∷ []) rest refl, behind, second) refl in
    first ∙ ended

-- `parseexec` of a command in parentheses, with the redirections behind them.
pub block-ReadsExec :
    (n : ℕ) (text : List ℕ → List ℕ) (c : Cmd)
    → ((t : List ℕ) → skip t ≡ t → skip (text t) ≡ text t)
    → ReadsLine n text c
    → ReadsExec (suc (suc n)) (λ t. b'(' ∷ text (b')' ∷ t)) c
unfolding parseexec
block-ReadsExec n text c solid reads zero rs t rr h enough = absurd (omega arith)
block-ReadsExec n text c solid reads (suc zero) rs t rr h enough = absurd (omega arith)
block-ReadsExec n text c solid reads (suc (suc f)) rs t rr h enough =
    let more = put_redirs rs t in
    let rest : List ℕ = b')' ∷ more in
    let opened = gettoken-symbol b'(' (text rest) refl (solid rest refl) in
    let inner : parseline f (text rest) ≡ parsed c rest = reads f rest refl (omega arith) in
    let closed = gettoken-symbol b')' more refl (skip-redirs rs t rr (skip-follows at_exec t h)) in
    let last = parseredirs-put_redirs rs c t f rr h (omega arith) in
    rw
      (
        peek-solid (b'(' ∷ []) (b'(' ∷ text rest) refl,
        peek-solid (b'(' ∷ []) (b'(' ∷ text rest) refl,
        opened,
        inner,
        peek-solid (b')' ∷ []) rest refl,
        closed,
        last,
      )
      refl

-- `parseexec` of a simple command.
pub words-ReadsExec :
    (args : List (List ℕ)) (text : List ℕ → List ℕ)
    → IsWords args
    → length args < 10
    → ReadsExec (suc (suc (length args))) (put_words args) (exec args)
unfolding parseexec
words-ReadsExec args text wr few zero rs t rr h enough = absurd (omega arith)
words-ReadsExec args text wr few (suc f) rs t rr h enough =
    let s = put_words args (put_redirs rs t) in
    let solid =
      skip-words args (put_redirs rs t) wr (skip-redirs rs t rr (skip-follows at_exec t h)) in
    rw (peek-solid (b'(' ∷ []) s solid, words-no_paren args rs t wr rr h)
      (parseargs-put_words args rs [] t 0 f wr rr h (omega arith) (omega arith))
