-- ===== src/Shell/Lengths.antt =====
-- How much of the text a token takes.
use os_fcfs_prirority.Base.{
  ℕ, ◌≤◌, ◌<◌, ◌≡◌, ◌⊎◌, inl, inr, refl, sym, ◌∙◌, true, false, ◌||◌, List, [], ◌∷◌, Bool-cases,
  length, arith, ◌==◌,
}
use os_fcfs_prirority.Shell.{is_space, is_symbol, skip, span, token_at, gettoken, peek}

length-skip : (s : List ℕ) → length (skip s) ≤ length s
length-skip [] = omega arith
length-skip (c ∷ s) = elim (Bool-cases (is_space c)) [
  | inl e ↦ rw e (omega (arith, length-skip s))
  | inr e ↦ rw e (omega arith)
]

length-span : (s : List ℕ) → length (span s).1 ≤ length s
length-span [] = omega arith
length-span (c ∷ s) = elim (Bool-cases (is_space c || is_symbol c)) [
  | inl e ↦ rw e (omega arith)
  | inr e ↦ rw e (omega (arith, length-span s))
]

-- A token that does not end the text takes a byte of it at least.
length-token_at : (c : ℕ) (s : List ℕ) → is_space c ≡ false → length (token_at (c ∷ s)).2 ≤ length s
length-token_at c [] blank = elim (Bool-cases (c == b'>')) [
  | inl e ↦ rw e (omega arith)
  | inr e ↦ elim (Bool-cases (is_symbol c)) [
    | inl e' ↦ rw (e, e') (omega arith)
    | inr e' ↦ rw (e, e', blank) (omega arith)
  ]
]
length-token_at c (d ∷ s) blank = elim (Bool-cases (c == b'>')) [
  | inl e ↦ elim (Bool-cases (d == b'>')) [
    | inl e' ↦ rw (e, e') (omega arith)
    | inr e' ↦ rw (e, e') (omega arith)
  ]
  | inr e ↦ elim (Bool-cases (is_symbol c)) [
    | inl e' ↦ rw (e, e') (omega arith)
    | inr e' ↦ rw (e, e', blank) (length-span (d ∷ s))
  ]
]

skip-skip : (s : List ℕ) → skip (skip s) ≡ skip s
skip-skip [] = refl
skip-skip (c ∷ s) = elim (Bool-cases (is_space c)) [
  | inl e ↦ rw e (skip-skip s)
  | inr e ↦ rw (e, e) refl
]

-- Either only blanks are left, or a token leaves a shorter text.
length-gettoken : (s : List ℕ) → (skip s ≡ []) ⊎ (length (gettoken s).2 < length s)
unfolding gettoken
length-gettoken [] = inl refl
length-gettoken (c ∷ s) = elim (Bool-cases (is_space c)) [
  | inl e ↦ elim (length-gettoken s) [ inl h ↦ rw e (inl h) | inr lt ↦ rw e (inr (omega arith)) ]
  | inr e ↦
      let taken = length-token_at c s e in
      rw e (inr (omega (arith, length-skip (token_at (c ∷ s)).2)))
]

-- Behind a symbol that `peek` saw the text is shorter.
pub peek-shorter :
    (toks s : List ℕ) → (peek toks s).0 ≡ true → length (gettoken (peek toks s).1).2 < length s
unfolding peek
peek-shorter toks s seen = elim (length-gettoken (skip s)) [
  | inl h ↦
      let none_left : skip s ≡ [] = sym (skip-skip s) ∙ h in
      let gone : false ≡ true = rw none_left at seen in absurd (ground arith)
  | inr lt ↦ omega (arith, length-skip s)
]

pub length-peek : (toks s : List ℕ) → length (peek toks s).1 ≤ length s
unfolding peek
length-peek toks s = length-skip s

pub gettoken-shorter : (s : List ℕ) → length (gettoken s).2 ≤ length s
unfolding gettoken
gettoken-shorter s = elim (length-gettoken s) [ inl h ↦ rw h (omega arith) | inr lt ↦ omega arith ]

pub word-shorter : (s : List ℕ) → ((gettoken s).0 == b'a') ≡ true → length (gettoken s).2 < length s
unfolding gettoken
word-shorter s seen = elim (length-gettoken s) [
  | inl h ↦ let gone : false ≡ true = rw h at seen in absurd (ground arith)
  | inr lt ↦ lt
]
