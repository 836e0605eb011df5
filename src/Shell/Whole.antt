-- ===== src/Shell/Whole.antt =====
-- Every command the parser can make is read back from its printed text.
use os_fcfs_prirority.Base.{ℕ, suc, ◌+◌, ◌*◌, ◌≤◌, List, ◌∷◌, length, arith}
use os_fcfs_prirority.Shell.{Cmd, exec, redir, pipe, list, back}
use os_fcfs_prirority.Shell.Printer.{
  at_line, at_back, at_pipe, at_exec, put_words, emit, IsWord, IsCommand, IsKind, size,
}
use os_fcfs_prirority.Shell.Levels.{
  ReadsExec, ReadsPipe, ReadsBacks, ReadsLine, exec-ReadsPipe, pipe-ReadsBacks, backs-ReadsLine,
  emit-solid,
}
use os_fcfs_prirority.Shell.Parse.{
  bar-ReadsPipe, semicolon-ReadsLine, block-ReadsExec, words-ReadsExec,
}

-- What the four functions read of a command, each with the fuel it takes.
abbrev Reads : Cmd → Type 0
Reads c =
    ReadsExec (8 * size c) (emit c at_exec) c
    × ReadsPipe (8 * size c + 1) (emit c at_pipe) c
    × ReadsBacks (8 * size c + 2) (emit c at_back) c
    × ReadsLine (8 * size c + 3) (emit c at_line) c

-- More fuel than is needed does no harm.
more-ReadsExec :
    (m n : ℕ) (text : List ℕ → List ℕ) (c : Cmd) → m ≤ n → ReadsExec m text c → ReadsExec n text c
more-ReadsExec m n text c le reads f rs t rr h enough = reads f rs t rr h (omega arith)

more-ReadsPipe :
    (m n : ℕ) (text : List ℕ → List ℕ) (c : Cmd) → m ≤ n → ReadsPipe m text c → ReadsPipe n text c
more-ReadsPipe m n text c le reads f t h enough = reads f t h (omega arith)

more-ReadsBacks :
    (m n : ℕ) (text : List ℕ → List ℕ) (c : Cmd) → m ≤ n → ReadsBacks m text c → ReadsBacks n text c
more-ReadsBacks m n text c le reads f k t h enough = reads f k t h (omega arith)

more-ReadsLine :
    (m n : ℕ) (text : List ℕ → List ℕ) (c : Cmd) → m ≤ n → ReadsLine m text c → ReadsLine n text c
more-ReadsLine m n text c le reads f t h enough = reads f t h (omega arith)

-- A text that `parsepipe` reads is read as a line.
pipe-ReadsLine :
    (n : ℕ) (text : List ℕ → List ℕ) (c : Cmd) → ReadsPipe n text c → ReadsLine (suc n) text c
pipe-ReadsLine n text c reads =
    more-ReadsLine (suc (n + 0)) (suc n) text c (omega arith)
      (backs-ReadsLine 0 n text c (pipe-ReadsBacks n text c reads))

-- A text that `parseexec` reads is read at every level.
all-Reads :
    (n : ℕ) (text : List ℕ → List ℕ) (c : Cmd)
    → ReadsExec n text c
    → ReadsExec n text c
      × ReadsPipe (n + 1) text c
      × ReadsBacks (n + 2) text c
      × ReadsLine (n + 3) text c
all-Reads n text c reads =
    let piped = exec-ReadsPipe n text c reads in
    (
      reads,
      more-ReadsPipe (suc n) (n + 1) text c (omega arith) piped,
      more-ReadsBacks (suc n) (n + 2) text c (omega arith) (pipe-ReadsBacks (suc n) text c piped),
      more-ReadsLine (suc (suc n)) (n + 3) text c (omega arith)
          (pipe-ReadsLine (suc n) text c piped),
    )

exec-Reads : (args : List (List ℕ)) → IsCommand (exec args) → Reads (exec args)
exec-Reads args (wr, few) = all-Reads (8 * size (exec args)) (put_words args) (exec args) (
    more-ReadsExec (suc (suc (length args))) (8 * size (exec args)) (put_words args) (exec args)
      (omega arith) (words-ReadsExec args (put_words args) wr few))

redir-Reads :
    (c : Cmd) (file : List ℕ) (mode fd : ℕ)
    → IsWord file
    → IsKind mode fd
    → Reads c
    → Reads (redir c file mode fd)
redir-Reads c file mode fd word kind (reads, _, _, _) =
    all-Reads (8 * size (redir c file mode fd)) (emit (redir c file mode fd) at_exec)
      (redir c file mode fd)
      (λ f rs t rr h enough. reads f ((file, mode, fd) ∷ rs) t (word, kind, rr) h (omega arith))

pipe-Reads : (a b : Cmd) → IsCommand b → Reads a → Reads b → IsCommand a → Reads (pipe a b)
pipe-Reads a b right (reads_a, _, _, _) (_, reads_b, _, _) left =
    let c = pipe a b in
    let text = emit c at_pipe in
    let m = suc (8 * size a + (8 * size b + 1)) in
    let piped =
      bar-ReadsPipe (8 * size a) (8 * size b + 1) (emit a at_exec) (emit b at_pipe) a b
        (λ t h. emit-solid b at_pipe t right h) reads_a reads_b in
    let line = pipe-ReadsLine m text c piped in
    let block =
      block-ReadsExec (suc m) text c (λ t h. emit-solid c at_pipe t (left, right) h) line in
    (
      more-ReadsExec (suc (suc (suc m))) (8 * size c) (emit c at_exec) c (omega arith) block,
      more-ReadsPipe m (8 * size c + 1) text c (omega arith) piped,
      more-ReadsBacks m (8 * size c + 2) text c (omega arith) (pipe-ReadsBacks m text c piped),
      more-ReadsLine (suc m) (8 * size c + 3) text c (omega arith) line,
    )

list-Reads : (a b : Cmd) → IsCommand a → IsCommand b → Reads a → Reads b → Reads (list a b)
list-Reads a b left right (_, _, reads_a, _) (_, _, _, reads_b) =
    let c = list a b in
    let text = emit c at_line in
    let m = suc (8 * size a + 2 + (8 * size b + 3)) in
    let line =
      semicolon-ReadsLine (8 * size a + 2) (8 * size b + 3) (emit a at_back) (emit b at_line) a b
        (λ t h. emit-solid b at_line t right h) reads_a reads_b in
    let block = block-ReadsExec m text c (λ t h. emit-solid c at_line t (left, right) h) line in
    let (by_exec, by_pipe, by_backs, _) =
      all-Reads (8 * size c) (emit c at_exec) c
        (more-ReadsExec (suc (suc m)) (8 * size c) (emit c at_exec) c (omega arith) block) in
    (by_exec, by_pipe, by_backs, more-ReadsLine m (8 * size c + 3) text c (omega arith) line)

back-Reads : (c : Cmd) → IsCommand c → Reads c → Reads (back c)
back-Reads c good (_, _, reads, _) =
    let d = back c in
    let text = emit d at_line in
    let m = suc (8 * size c + 2 + 1) in
    let line = backs-ReadsLine 1 (8 * size c + 2) (emit c at_back) c reads in
    let block = block-ReadsExec m text d (λ t h. emit-solid d at_line t good h) line in
    let (by_exec, by_pipe, _, _) =
      all-Reads (8 * size d) (emit d at_exec) d
        (more-ReadsExec (suc (suc m)) (8 * size d) (emit d at_exec) d (omega arith) block) in
    (
      by_exec,
      by_pipe,
      (λ f n t h enough. reads f (suc n) t h (omega arith)),
      more-ReadsLine m (8 * size d + 3) text d (omega arith) line,
    )

pub command-Reads : (c : Cmd) → IsCommand c → Reads c
command-Reads (exec args) good = exec-Reads args good
command-Reads (redir c file mode fd) (good, word, kind) =
    redir-Reads c file mode fd word kind (command-Reads c good)
command-Reads (pipe a b) (left, right) =
    pipe-Reads a b right (command-Reads a left) (command-Reads b right) left
command-Reads (list a b) (left, right) =
    list-Reads a b left right (command-Reads a left) (command-Reads b right)
command-Reads (back c) good = back-Reads c good (command-Reads c good)
