-- ===== src/Shell.antt =====
-- sh.c: the parser of commands. What is left of the text is a list of bytes; a word is its bytes, which
-- are what `nulterminate` makes of its two pointers.
pub mod Printer
pub mod Tokens
pub mod Words
pub mod Levels
pub mod Parse
pub mod Whole
pub mod RoundTrip
pub mod Lengths
pub mod Returns
pub mod Total
mod Examples
use os_fcfs_prirority.Base.{
  ℕ, zero, suc, ◌+◌, ◌*◌, Bool, true, false, not, ◌&&◌, ◌||◌, List, [], ◌∷◌, ◌++◌, length, leb,
  ◌==◌, if◌then◌else◌,
}

-- `struct cmd` and the structs that it stands for. A redirection has its file, mode and descriptor.
pub data Cmd : Type 0 where
  exec : List (List ℕ) → Cmd
  redir : Cmd → List ℕ → ℕ → ℕ → Cmd
  pipe : Cmd → Cmd → Cmd
  list : Cmd → Cmd → Cmd
  back : Cmd → Cmd

abbrev pub maxargs : ℕ
maxargs = 10

abbrev pub o_rdonly : ℕ
o_rdonly = 0

-- `O_WRONLY|O_CREATE`.
abbrev pub o_create : ℕ
o_create = 513

-- `strchr(toks, c)`.
abbrev pub is_one_of : List ℕ → ℕ → Bool
is_one_of [] c = false
is_one_of (t ∷ ts) c = t == c || is_one_of ts c

abbrev pub is_space : ℕ → Bool
is_space c = is_one_of (b' ' ∷ b'\t' ∷ b'\r' ∷ b'\n' ∷ 11 ∷ []) c

abbrev pub is_symbol : ℕ → Bool
is_symbol c = is_one_of (b'<' ∷ b'|' ∷ b'>' ∷ b'&' ∷ b';' ∷ b'(' ∷ b')' ∷ []) c

-- `while(s < es && strchr(whitespace, *s)) s++;`
abbrev pub skip : List ℕ → List ℕ
skip [] = []
skip (c ∷ s) = let rest = skip s in if is_space c then rest else c ∷ s

-- The word at the start, and what is after it.
abbrev pub span : List ℕ → List ℕ × List ℕ
span [] = ([], [])
span (c ∷ s) =
    let more = span s in if is_space c || is_symbol c then ([], c ∷ s) else (c ∷ more.0, more.1)

-- The token at the start, which is no space: what `gettoken` returns, the word, and what is left.
abbrev pub token_at : List ℕ → ℕ × List ℕ × List ℕ
token_at [] = (0, [], [])
token_at (c ∷ s) =
    if c == b'>'
    then elim s [
      | [] ↦ (b'>', [], [])
      | d ∷ s' ↦ if d == b'>' then (b'+', [], s') else (b'>', [], d ∷ s')
    ]
    else (if is_symbol c then (c, [], s) else (b'a', (span (c ∷ s)).0, (span (c ∷ s)).1))

unfoldable pub gettoken : List ℕ → ℕ × List ℕ × List ℕ
gettoken s = let (t, w, rest) = token_at (skip s) in (t, w, skip rest)

abbrev pub starts_with : List ℕ → List ℕ → Bool
starts_with toks [] = false
starts_with toks (c ∷ s) = is_one_of toks c

-- `peek`: what it returns, and what is left.
unfoldable pub peek : List ℕ → List ℕ → Bool × List ℕ
peek toks s = (starts_with toks (skip s), skip s)

-- What a call of the parser returns with what is left; or a panic; or it has no fuel left.
pub data Parsed : Type 0 where
  parsed : Cmd → List ℕ → Parsed
  panics : Parsed
  out_of_fuel : Parsed

abbrev pub then_parse : Parsed → (Cmd → List ℕ → Parsed) → Parsed
then_parse (parsed c s) k = k c s
then_parse panics k = panics
then_parse out_of_fuel k = out_of_fuel

-- `redircmd` for the token.
abbrev pub redirected : ℕ → Cmd → List ℕ → Cmd
redirected tok c file = if tok == b'<' then redir c file o_rdonly 0 else redir c file o_create 1

unfoldable pub parseredirs : ℕ → Cmd → List ℕ → Parsed
parseredirs zero c s = out_of_fuel
parseredirs (suc fuel) c s =
    let (more, s0) = peek (b'<' ∷ b'>' ∷ []) s in
    let (tok, _, s1) = gettoken s0 in
    let (t, file, s2) = gettoken s1 in
    let rest = parseredirs fuel (redirected tok c file) s2 in
    if more then (if t == b'a' then rest else panics) else parsed c s0

-- `cmd->argv[argc] = q`, in the command that the redirections stand around.
abbrev pub add_arg : Cmd → List ℕ → Cmd
add_arg (exec args) w = exec (args ++ (w ∷ []))
add_arg (redir c file mode fd) w = redir (add_arg c w) file mode fd
add_arg (pipe a b) w = pipe a b
add_arg (list a b) w = list a b
add_arg (back c) w = back c

-- The loop of `parseexec`, with `argc` arguments read.
unfoldable pub parseargs : ℕ → ℕ → Cmd → List ℕ → Parsed
parseargs zero argc c s = out_of_fuel
parseargs (suc fuel) argc c s =
    let (stop, s0) = peek (b'|' ∷ b')' ∷ b'&' ∷ b';' ∷ []) s in
    let (tok, w, s1) = gettoken s0 in
    let rest = then_parse (parseredirs fuel (add_arg c w) s1) (parseargs fuel (suc argc)) in
    if stop
    then parsed c s0
    else (if tok == 0
        then parsed c s1
        else (if not (tok == b'a')
            then panics
            else (if leb maxargs (suc argc) then panics else rest)))

-- `while(peek(ps, es, "&")) { gettoken(ps, es, 0, 0); cmd = backcmd(cmd); }`
unfoldable pub parsebacks : ℕ → Cmd → List ℕ → Parsed
parsebacks zero c s = out_of_fuel
parsebacks (suc fuel) c s =
    let (more, s0) = peek (b'&' ∷ []) s in
    let rest = parsebacks fuel (back c) (gettoken s0).2 in if more then rest else parsed c s0

unfoldable mutual
  pub parseline : ℕ → List ℕ → Parsed
  parseline zero s = out_of_fuel
  parseline (suc fuel) s = then_parse (parsepipe fuel s) (λ c s1.
      then_parse (parsebacks fuel c s1) (λ c' s2.
        let (more, s3) = peek (b';' ∷ []) s2 in
        let rest = then_parse (parseline fuel (gettoken s3).2) (λ d s4. parsed (list c' d) s4) in
        if more then rest else parsed c' s3))

  pub parsepipe : ℕ → List ℕ → Parsed
  parsepipe zero s = out_of_fuel
  parsepipe (suc fuel) s = then_parse (parseexec fuel s) (λ c s1.
      let (more, s2) = peek (b'|' ∷ []) s1 in
      let rest = then_parse (parsepipe fuel (gettoken s2).2) (λ d s3. parsed (pipe c d) s3) in
      if more then rest else parsed c s2)

  pub parseexec : ℕ → List ℕ → Parsed
  parseexec zero s = out_of_fuel
  parseexec (suc fuel) s =
      let (block, s0) = peek (b'(' ∷ []) s in
      let inner = parseblock fuel s0 in
      let simple = then_parse (parseredirs fuel (exec []) s0) (parseargs fuel 0) in
      if block then inner else simple

  pub parseblock : ℕ → List ℕ → Parsed
  parseblock zero s = out_of_fuel
  parseblock (suc fuel) s =
      let (here, s0) = peek (b'(' ∷ []) s in
      let inner = then_parse (parseline fuel (gettoken s0).2) (λ c s1.
        let (closed, s2) = peek (b')' ∷ []) s1 in
        let rest = parseredirs fuel c (gettoken s2).2 in if closed then rest else panics) in
      if here then inner else panics

-- `parsecmd`. Each call of the parser takes one unit of fuel, and so does each round of its loops.
unfoldable pub parsecmd : List ℕ → Parsed
parsecmd s =
    then_parse (parseline (16 * length s + 16) s)
      (λ c rest. elim (peek [] rest).1 [ [] ↦ parsed c [] | b ∷ bs ↦ panics ])
