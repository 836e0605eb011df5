-- ===== src/Grep/Match.antt =====
-- What patterns match.
use mathlib.Core.List.{append_assoc}
use os_fcfs_prirority.Base.{
  ℕ, ◌≡◌, ◌↔◌, ◌⊎◌, inl, inr, refl, sym, ap, ◌∙◌, Bool, true, false, ◌||◌, List, [], ◌∷◌, ◌++◌,
  Bool-cases, arith, ◌==◌, if◌then◌else◌,
}
use os_fcfs_prirority.Grep.{fits, is_nil, matchstar, match_one, matchhere, match_from, match}

-- A pattern is pieces, each of which takes one byte or any number of bytes that fit.
pub data Piece : Type 0 where
  one many : ℕ → Piece

-- The pieces of a pattern, and whether a `$` at its end ties it to the end of the line.
abbrev pub pieces : List ℕ → List Piece × Bool
pieces [] = ([], false)
pieces (c ∷ []) = if c == b'$' then ([], true) else (one c ∷ [], false)
pieces (c ∷ d ∷ re) =
    let starred = pieces re in
    let plain = pieces (d ∷ re) in
    if d == b'*' then (many c ∷ starred.0, starred.1) else (one c ∷ plain.0, plain.1)

abbrev pub AllFit : ℕ → List ℕ → Type 0
AllFit c [] = Unit {0}
AllFit c (d ∷ ds) = (fits c d ≡ true) × AllFit c ds

-- The texts of a list of pieces.
abbrev pub IsOf : List Piece → List ℕ → Type 0
IsOf [] w = w ≡ []
IsOf (one c ∷ ps) w = (d : ℕ) × (w' : List ℕ) × (w ≡ d ∷ w') × (fits c d ≡ true) × IsOf ps w'
IsOf (many c ∷ ps) w = (ds : List ℕ) × (w' : List ℕ) × (w ≡ ds ++ w') × AllFit c ds × IsOf ps w'

-- A text starts with one of the pieces' texts; with the tie nothing is behind it.
abbrev pub StartsWith : List Piece × Bool → List ℕ → Type 0
StartsWith (ps, tied) text =
    (w : List ℕ) × (rest : List ℕ) × (text ≡ w ++ rest) × IsOf ps w × (tied ≡ true → rest ≡ [])

-- The line has a part that the pattern describes, at its start where the pattern begins with `^`.
abbrev pub IsMatch : List ℕ → List ℕ → Type 0
IsMatch [] text = Unit {0}
IsMatch (c ∷ re) text =
    if c == b'^'
    then StartsWith (pieces re) text
    else ((before : List ℕ) × (rest : List ℕ) × (text ≡ before ++ rest)
        × StartsWith (pieces (c ∷ re)) rest)

or_cases : (a b : Bool) → (a || b) ≡ true → (a ≡ true) ⊎ (b ≡ true)
or_cases true b h = inl refl
or_cases false b h = inr h

matchstar_iff :
    (c : ℕ) (here : List ℕ → Bool) (text : List ℕ)
    → (matchstar c here text ≡ true)
      ↔ ((ds : List ℕ) × (rest : List ℕ) × (text ≡ ds ++ rest) × AllFit c ds × (here rest ≡ true))
unfolding matchstar
matchstar_iff c here text =
    (finds text, λ (ds, rest, whole, fit, h). rw whole (takes ds rest fit h))
  where
    finds :
        (text : List ℕ)
        → matchstar c here text ≡ true
        → (ds : List ℕ) × (rest : List ℕ) × (text ≡ ds ++ rest) × AllFit c ds × (here rest ≡ true)
    finds [] h = ([], [], refl, tt, h)
    finds (d ∷ text) h = elim (or_cases (here (d ∷ text)) _ h) [
      | inl now ↦ ([], d ∷ text, refl, tt, now)
      | inr later ↦ elim (Bool-cases (fits c d)) [
        | inl fit ↦
            let (ds, rest, whole, all, found) = finds text (rw fit at later) in
            (d ∷ ds, rest, ap (λ t. d ∷ t) whole, (fit, all), found)
        | inr bad ↦ let gone : false ≡ true = rw bad at later in absurd (ground arith)
      ]
    ]

    takes :
        (ds rest : List ℕ) → AllFit c ds → here rest ≡ true → matchstar c here (ds ++ rest) ≡ true
    takes [] [] fit h = h
    takes [] (d ∷ rest) fit h = rw h refl
    takes (d ∷ ds) rest (fit, all) h = rw (fit, takes ds rest all h) (ground arith)

is_nil→[] : (text : List ℕ) → is_nil text ≡ true → text ≡ []
is_nil→[] [] h = refl
is_nil→[] (d ∷ text) h = absurd (ground arith)

-- One byte, and then what `here` finds.
match_one→ :
    (c : ℕ) (here : List ℕ → Bool) (text : List ℕ)
    → match_one c here text ≡ true
    → (d : ℕ) × (rest : List ℕ) × (text ≡ d ∷ rest) × (fits c d ≡ true) × (here rest ≡ true)
match_one→ c here [] h = absurd (ground arith)
match_one→ c here (d ∷ text) h = elim (Bool-cases (fits c d)) [
  | inl fit ↦ (d, text, refl, fit, rw fit at h)
  | inr bad ↦ let gone : false ≡ true = rw bad at h in absurd (ground arith)
]

matchhere→StartsWith : (re text : List ℕ) → matchhere re text ≡ true → StartsWith (pieces re) text
unfolding matchhere
matchhere→StartsWith [] text h = ([], text, refl, refl, λ tied. absurd (ground arith))
matchhere→StartsWith (c ∷ []) text h = elim (Bool-cases (c == b'$')) [
  | inl e ↦ rw e ([], [], is_nil→[] text (rw e at h), refl, λ tied. refl)
  | inr e ↦
      let (d, rest, whole, fit, _) = match_one→ c (λ rest. true) text (rw e at h) in
      rw e (d ∷ [], rest, whole, (d, [], refl, fit, refl), λ tied. absurd (ground arith))
]
matchhere→StartsWith (c ∷ d ∷ re) text h = elim (Bool-cases (d == b'*')) [
  | inl e ↦
      let (ds, rest, whole, all, found) = (matchstar_iff c (matchhere re) text).0 (rw e at h) in
      let (w, behind, whole', of, tie) = matchhere→StartsWith re rest found in
      rw e (
        ds ++ w,
        behind,
        whole ∙ ap (λ t. ds ++ t) whole' ∙ sym (append_assoc ds w behind),
        (ds, w, refl, all, of),
        tie,
      )
  | inr e ↦
      let (b, rest, whole, fit, found) = match_one→ c (matchhere (d ∷ re)) text (rw e at h) in
      let (w, behind, whole', of, tie) = matchhere→StartsWith (d ∷ re) rest found in
      rw e (b ∷ w, behind, whole ∙ ap (λ t. b ∷ t) whole', (b, w, refl, fit, of), tie)
]

StartsWith→matchhere : (re text : List ℕ) → StartsWith (pieces re) text → matchhere re text ≡ true
unfolding matchhere
StartsWith→matchhere [] text h = refl
StartsWith→matchhere (c ∷ []) text h = elim (Bool-cases (c == b'$')) [
  | inl e ↦
      let found_at : StartsWith ([], true) text = rw e at h in
      let (w, rest, whole, of, tie) = found_at in
      let empty : text ≡ [] = whole ∙ ap (λ t. t ++ rest) of ∙ tie refl in rw (e, empty) refl
  | inr e ↦
      let found_at : StartsWith (one c ∷ [], false) text = rw e at h in
      let (w, rest, whole, (d, w', first, fit, _), tie) = found_at in
      let starts : text ≡ d ∷ (w' ++ rest) = whole ∙ ap (λ t. t ++ rest) first in
      rw (e, starts, fit) refl
]
StartsWith→matchhere (c ∷ d ∷ re) text h = elim (Bool-cases (d == b'*')) [
  | inl e ↦
      let found_at : StartsWith (many c ∷ (pieces re).0, (pieces re).1) text = rw e at h in
      let (w, rest, whole, (ds, w', first, all, of), tie) = found_at in
      let found = StartsWith→matchhere re (w' ++ rest) (w', rest, refl, of, tie) in
      let starts : text ≡ ds ++ (w' ++ rest) =
        whole ∙ ap (λ t. t ++ rest) first ∙ append_assoc ds w' rest in
      rw e ((matchstar_iff c (matchhere re) text).1 (ds, w' ++ rest, starts, all, found))
  | inr e ↦
      let found_at : StartsWith (one c ∷ (pieces (d ∷ re)).0, (pieces (d ∷ re)).1) text =
        rw e at h in
      let (w, rest, whole, (b, w', first, fit, of), tie) = found_at in
      let found = StartsWith→matchhere (d ∷ re) (w' ++ rest) (w', rest, refl, of, tie) in
      let starts : text ≡ b ∷ (w' ++ rest) = whole ∙ ap (λ t. t ++ rest) first in
      rw (e, starts, fit) found
]

match_from_iff :
    (here : List ℕ → Bool) (text : List ℕ)
    → (match_from here text ≡ true)
      ↔ ((before : List ℕ) × (rest : List ℕ) × (text ≡ before ++ rest) × (here rest ≡ true))
match_from_iff here text = (finds text, λ (before, rest, whole, h). rw whole (takes before rest h))
  where
    finds :
        (text : List ℕ)
        → match_from here text ≡ true
        → (before : List ℕ) × (rest : List ℕ) × (text ≡ before ++ rest) × (here rest ≡ true)
    finds [] h = ([], [], refl, h)
    finds (d ∷ text) h = elim (or_cases (here (d ∷ text)) _ h) [
      | inl now ↦ ([], d ∷ text, refl, now)
      | inr later ↦
          let (before, rest, whole, found) = finds text later in
          (d ∷ before, rest, ap (λ t. d ∷ t) whole, found)
    ]

    takes : (before rest : List ℕ) → here rest ≡ true → match_from here (before ++ rest) ≡ true
    takes [] [] h = h
    takes [] (d ∷ rest) h = rw h refl
    takes (d ∷ before) rest h = rw (takes before rest h) (ground arith)

-- `match` says yes exactly where a part of the line is described by the pattern: the part starts the
-- line where the pattern begins with `^`, and ends it where the pattern ends in `$`.
pub match_iff : (re text : List ℕ) → (match re text ≡ true) ↔ IsMatch re text
unfolding match
match_iff [] text = (
  λ h. tt,
  λ h. (match_from_iff (matchhere []) text).1 ([], text, refl, unfold matchhere in refl),
)
match_iff (c ∷ re) text = elim (Bool-cases (c == b'^')) [
  | inl e ↦ rw e (matchhere→StartsWith re text, StartsWith→matchhere re text)
  | inr e ↦
      let loop = match_from_iff (matchhere (c ∷ re)) text in
      rw e (
        (λ h.
            let (before, rest, whole, found) = loop.0 h in
            (before, rest, whole, matchhere→StartsWith (c ∷ re) rest found)),
        (λ (before, rest, whole, starts).
            loop.1 (before, rest, whole, StartsWith→matchhere (c ∷ re) rest starts)),
      )
]
