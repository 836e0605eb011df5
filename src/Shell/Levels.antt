-- ===== src/Shell/Levels.antt =====
-- What each function of the parser reads, and how one reads what another reads.
use os_fcfs_prirority.Base.{
  ℕ, zero, suc, ◌+◌, ◌<◌, ◌≡◌, refl, sym, ap, ◌∙◌, true, false, List, [], ◌∷◌, length, arith, ◌==◌,
  if◌then◌else◌,
}
use os_fcfs_prirority.Shell.{
  Cmd, exec, redir, pipe, list, back, is_one_of, is_space, is_symbol, skip, gettoken, starts_with,
  peek, Parsed, parsed, panics, out_of_fuel, then_parse, parsebacks, parseline, parsepipe,
  parseexec,
}
use os_fcfs_prirority.Shell.Printer.{
  Level, at_line, at_back, at_pipe, at_exec, emit, IsCommand, follows, Redirs, put_redirs, wrap,
  IsRedirs,
}
use os_fcfs_prirority.Shell.Tokens.{skip-follows, peek-solid}
use os_fcfs_prirority.Shell.Words.{skip-redirs, skip-words}

then_parse_assoc :
    (p : Parsed) (k m : Cmd → List ℕ → Parsed)
    → then_parse (then_parse p k) m ≡ then_parse p (λ c s. then_parse (k c s) m)
then_parse_assoc (parsed c s) k m = refl
then_parse_assoc panics k m = refl
then_parse_assoc out_of_fuel k m = refl

-- What the functions of the parser read: `text` is a printed command with a hole for what follows.
abbrev pub ReadsExec : ℕ → (List ℕ → List ℕ) → Cmd → Type 0
ReadsExec bound text c =
    (f : ℕ) (rs : Redirs) (t : List ℕ)
    → IsRedirs rs
    → follows at_exec t ≡ true
    → bound + length rs < f
    → parseexec f (text (put_redirs rs t)) ≡ parsed (wrap c rs) t

abbrev pub ReadsPipe : ℕ → (List ℕ → List ℕ) → Cmd → Type 0
ReadsPipe bound text c =
    (f : ℕ) (t : List ℕ) → follows at_pipe t ≡ true → bound < f → parsepipe f (text t) ≡ parsed c t

abbrev pub put_backs : ℕ → List ℕ → List ℕ
put_backs zero t = t
put_backs (suc n) t = b'&' ∷ put_backs n t

abbrev pub backs : ℕ → Cmd → Cmd
backs zero c = c
backs (suc n) c = backs n (back c)

abbrev pub ReadsBacks : ℕ → (List ℕ → List ℕ) → Cmd → Type 0
ReadsBacks bound text c =
    (f n : ℕ) (t : List ℕ)
    → follows at_back t ≡ true
    → bound + n < f
    → then_parse (parsepipe f (text (put_backs n t))) (parsebacks f) ≡ parsed (backs n c) t

abbrev pub ReadsLine : ℕ → (List ℕ → List ℕ) → Cmd → Type 0
ReadsLine bound text c =
    (f : ℕ) (t : List ℕ) → follows at_line t ≡ true → bound < f → parseline f (text t) ≡ parsed c t

follows-exec : (t : List ℕ) → follows at_pipe t ≡ true → follows at_exec t ≡ true
follows-exec [] h = refl
follows-exec (b ∷ t) h = ground arith

follows-back : (t : List ℕ) → follows at_line t ≡ true → follows at_back t ≡ true
follows-back [] h = refl
follows-back (b ∷ t) h = ground arith

follows-backs :
    (n : ℕ) (t : List ℕ) → follows at_back t ≡ true → follows at_pipe (put_backs n t) ≡ true
follows-backs zero [] h = refl
follows-backs zero (b ∷ t) h = ground arith
follows-backs (suc n) t h = refl

no_bar : (t : List ℕ) → follows at_pipe t ≡ true → starts_with (b'|' ∷ []) t ≡ false
no_bar [] h = refl
no_bar (b ∷ t) h = ground arith

no_ampersand : (t : List ℕ) → follows at_back t ≡ true → starts_with (b'&' ∷ []) t ≡ false
no_ampersand [] h = refl
no_ampersand (b ∷ t) h = ground arith

no_semicolon : (t : List ℕ) → follows at_line t ≡ true → starts_with (b';' ∷ []) t ≡ false
no_semicolon [] h = refl
no_semicolon (b ∷ t) h = ground arith

-- `parsepipe` of a command that no `|` follows.
pub exec-ReadsPipe :
    (bound : ℕ) (text : List ℕ → List ℕ) (c : Cmd)
    → ReadsExec bound text c
    → ReadsPipe (suc bound) text c
unfolding parsepipe
exec-ReadsPipe bound text c reads zero t h enough = absurd (omega arith)
exec-ReadsPipe bound text c reads (suc f) t h enough =
    let inner : parseexec f (text t) ≡ parsed c t =
      reads f [] t tt (follows-exec t h) (omega arith) in
    rw (inner, peek-solid (b'|' ∷ []) t (skip-follows at_pipe t h), no_bar t h) refl

-- Every `&` that follows is read.
parsebacks-put_backs :
    (n f : ℕ) (c : Cmd) (t : List ℕ)
    → follows at_back t ≡ true
    → n < f
    → parsebacks f c (put_backs n t) ≡ parsed (backs n c) t
unfolding parsebacks gettoken
parsebacks-put_backs n zero c t h enough = absurd (omega arith)
parsebacks-put_backs zero (suc f) c t h enough =
    rw (peek-solid (b'&' ∷ []) t (skip-follows at_back t h), no_ampersand t h) refl
parsebacks-put_backs (suc n) (suc f) c t h enough =
    let rest = put_backs n t in
    let solid : skip rest ≡ rest = skip-follows at_pipe rest (follows-backs n t h) in
    rw (peek-solid (b'&' ∷ []) (b'&' ∷ rest) refl, solid)
      (parsebacks-put_backs n f (back c) t h (omega arith))

pub pipe-ReadsBacks :
    (bound : ℕ) (text : List ℕ → List ℕ) (c : Cmd)
    → ReadsPipe bound text c
    → ReadsBacks bound text c
pipe-ReadsBacks bound text c reads f n t h enough =
    rw (reads f (put_backs n t) (follows-backs n t h) (omega arith))
      (parsebacks-put_backs n f c t h (omega arith))

-- The rest of `parseline`, from `if(peek(ps, es, ";"))`.
abbrev pub end_line : ℕ → Cmd → List ℕ → Parsed
end_line fuel c s =
    let (more, s3) = peek (b';' ∷ []) s in
    let rest = then_parse (parseline fuel (gettoken s3).2) (λ d s4. parsed (list c d) s4) in
    if more then rest else parsed c s3

pub parseline-end_line :
    (f : ℕ) (s t : List ℕ) (d : Cmd)
    → then_parse (parsepipe f s) (parsebacks f) ≡ parsed d t
    → parseline (suc f) s ≡ end_line f d t
unfolding parseline
parseline-end_line f s t d h =
    sym (then_parse_assoc (parsepipe f s) (parsebacks f) (end_line f))
    ∙ ap (λ p. then_parse p (end_line f)) h

-- `parseline` of a command that no `;` follows.
pub backs-ReadsLine :
    (n bound : ℕ) (text : List ℕ → List ℕ) (c : Cmd)
    → ReadsBacks bound text c
    → ReadsLine (suc (bound + n)) (λ t. text (put_backs n t)) (backs n c)
backs-ReadsLine n bound text c reads zero t h enough = absurd (omega arith)
backs-ReadsLine n bound text c reads (suc f) t h enough =
    let whole = reads f n t (follows-back t h) (omega arith) in
    let ended : end_line f (backs n c) t ≡ parsed (backs n c) t =
      rw (peek-solid (b';' ∷ []) t (skip-follows at_line t h), no_semicolon t h) refl in
    parseline-end_line f (text (put_backs n t)) t (backs n c) whole ∙ ended

-- A printed command starts with no blank.
pub emit-solid :
    (c : Cmd) (lv : Level) (t : List ℕ)
    → IsCommand c
    → skip t ≡ t
    → skip (emit c lv t) ≡ emit c lv t
emit-solid (exec args) lv t (wr, few) h = skip-words args t wr h
emit-solid (redir c file mode fd) lv t (good, word, kind) h =
    emit-solid c at_exec (put_redirs ((file, mode, fd) ∷ []) t) good
      (skip-redirs ((file, mode, fd) ∷ []) t (word, kind, tt) h)
emit-solid (pipe a b) at_exec t good h = refl
emit-solid (pipe a b) at_pipe t (left, right) h =
    emit-solid a at_exec (b'|' ∷ emit b at_pipe t) left refl
emit-solid (pipe a b) at_back t (left, right) h =
    emit-solid a at_exec (b'|' ∷ emit b at_pipe t) left refl
emit-solid (pipe a b) at_line t (left, right) h =
    emit-solid a at_exec (b'|' ∷ emit b at_pipe t) left refl
emit-solid (list a b) at_line t (left, right) h =
    emit-solid a at_back (b';' ∷ emit b at_line t) left refl
emit-solid (list a b) at_exec t good h = refl
emit-solid (list a b) at_pipe t good h = refl
emit-solid (list a b) at_back t good h = refl
emit-solid (back c) at_line t good h = emit-solid c at_back (b'&' ∷ t) good refl
emit-solid (back c) at_back t good h = emit-solid c at_back (b'&' ∷ t) good refl
emit-solid (back c) at_exec t good h = refl
emit-solid (back c) at_pipe t good h = refl

-- What `gettoken` leaves behind a symbol.
pub gettoken-symbol :
    (b : ℕ) (s : List ℕ)
    → (is_one_of (b'|' ∷ b'&' ∷ b';' ∷ b'(' ∷ b')' ∷ []) b ≡ true)
    → skip s ≡ s
    → (gettoken (b ∷ s)).2 ≡ s
unfolding gettoken
gettoken-symbol b s sym_ h =
    let blank : is_space b ≡ false = ground arith in
    let great : (b == b'>') ≡ false = ground arith in
    let symbol : is_symbol b ≡ true = ground arith in rw (blank, great, symbol, h) refl
