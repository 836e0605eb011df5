-- ===== src/Shell/Tokens.antt =====
-- Tokens of printed commands.
use os_fcfs_prirority.Base.{ℕ, ◌≡◌, refl, true, false, List, [], ◌∷◌, arith, ◌==◌}
use os_fcfs_prirority.Shell.{
  is_one_of, is_space, is_symbol, skip, span, gettoken, starts_with, peek,
}
use os_fcfs_prirority.Shell.Printer.{
  Level, at_line, at_back, at_pipe, at_exec, put_word, IsPlain, IsWord, stops, follows,
}

pub skip-follows : (lv : Level) (t : List ℕ) → follows lv t ≡ true → skip t ≡ t
skip-follows lv [] h = refl
skip-follows lv (c ∷ t) h = let plain : is_space c ≡ false = by_level lv c h in rw plain refl
  where
    by_level : (lv : Level) (c : ℕ) → is_one_of (stops lv) c ≡ true → is_space c ≡ false
    by_level at_line c h = ground arith
    by_level at_back c h = ground arith
    by_level at_pipe c h = ground arith
    by_level at_exec c h = ground arith

-- A word does not start with a blank or a symbol.
pub skip-word : (w t : List ℕ) → IsWord w → skip (put_word w t) ≡ put_word w t
skip-word [] t h = absurd h
skip-word (c ∷ w) t (p, h) = let plain : is_space c ≡ false = ground arith in rw plain refl

span-word : (w t : List ℕ) → IsPlain w → span (put_word w t) ≡ (w, b' ' ∷ t)
span-word [] t h = refl
span-word (c ∷ w) t (p, h) = rw (p, span-word w t h) refl

pub gettoken-word : (w t : List ℕ) → IsWord w → gettoken (put_word w t) ≡ (b'a', w, skip t)
unfolding gettoken
gettoken-word [] t h = absurd h
gettoken-word (c ∷ w) t (p, h) =
    let blank : is_space c ≡ false = ground arith in
    let symbol : is_symbol c ≡ false = ground arith in
    let great : (c == b'>') ≡ false = ground arith in
    rw (blank, great, symbol, span-word w t h, blank) refl

-- What `peek` says of a text that starts with no blank.
pub peek-solid : (toks s : List ℕ) → skip s ≡ s → peek toks s ≡ (starts_with toks s, s)
unfolding peek
peek-solid toks s h = rw h refl

pub gettoken-less :
    (w t : List ℕ) → IsWord w → gettoken (b'<' ∷ put_word w t) ≡ (b'<', [], put_word w t)
unfolding gettoken
gettoken-less w t h = rw (skip-word w t h) refl

pub gettoken-greater :
    (w t : List ℕ) → IsWord w → gettoken (b'>' ∷ put_word w t) ≡ (b'>', [], put_word w t)
unfolding gettoken
gettoken-greater [] t h = absurd h
gettoken-greater (c ∷ w) t (p, h) =
    let blank : is_space c ≡ false = ground arith in
    let great : (c == b'>') ≡ false = ground arith in rw (great, blank) refl

pub follows-no_arrow :
    (t : List ℕ) → follows at_exec t ≡ true → starts_with (b'<' ∷ b'>' ∷ []) t ≡ false
follows-no_arrow [] h = refl
follows-no_arrow (c ∷ t) h = ground arith

pub follows-no_paren : (t : List ℕ) → follows at_exec t ≡ true → starts_with (b'(' ∷ []) t ≡ false
follows-no_paren [] h = refl
follows-no_paren (c ∷ t) h = ground arith

-- A word starts with none of the symbols.
pub word-no_arrow :
    (w t : List ℕ) → IsWord w → starts_with (b'<' ∷ b'>' ∷ []) (put_word w t) ≡ false
word-no_arrow [] t h = absurd h
word-no_arrow (c ∷ w) t (p, h) = ground arith

pub word-no_paren : (w t : List ℕ) → IsWord w → starts_with (b'(' ∷ []) (put_word w t) ≡ false
word-no_paren [] t h = absurd h
word-no_paren (c ∷ w) t (p, h) = ground arith

pub word-no_stop :
    (w t : List ℕ) → IsWord w → starts_with (b'|' ∷ b')' ∷ b'&' ∷ b';' ∷ []) (put_word w t) ≡ false
word-no_stop [] t h = absurd h
word-no_stop (c ∷ w) t (p, h) = ground arith
