-- ===== src/Grep/Lines.antt =====
-- `grep`, read by read, as a function of the lines of the whole input.
use mathlib.Core.List.{append_assoc, append-nil}
use os_fcfs_prirority.Base.{
  ℕ, zero, suc, ◌≡◌, ◌≢◌, ◌≤◌, ◌<◌, inl, inr, refl, sym, ap, ◌∙◌, Bool, true, false, ◌||◌, List, [],
  ◌∷◌, ◌++◌, Bool-cases, Option-cases, subst, length, arith, ◌==◌, if◌then◌else◌, Option, none,
  some,
}
use os_fcfs_prirority.Grep.{match, put_byte_on, find_newline, grep_lines, grep}

-- The lines of a text that end in a newline, without it, and what is behind the last one.
abbrev pub on_first : ℕ → List (List ℕ) × List ℕ → List (List ℕ) × List ℕ
on_first c ([], tail) = ([], c ∷ tail)
on_first c (line ∷ lines, tail) = ((c ∷ line) ∷ lines, tail)

abbrev pub split : List ℕ → List (List ℕ) × List ℕ
split [] = ([], [])
split (c ∷ s) = let r = split s in if c == b'\n' then ([] ∷ r.0, r.1) else on_first c r

-- The lines that match, each with its newline.
abbrev pub chosen : List ℕ → List (List ℕ) → List ℕ
chosen re [] = []
chosen re (line ∷ lines) = (if match re line then line ++ (b'\n' ∷ []) else []) ++ chosen re lines

abbrev pub IsText : List ℕ → Type 0
IsText [] = Unit {0}
IsText (c ∷ s) = (c ≢ 0) × IsText s

abbrev pub has_newline : List ℕ → Bool
has_newline [] = false
has_newline (c ∷ s) = c == b'\n' || has_newline s

-- Each read has a newline, and no NUL.
abbrev pub IsInput : List (List ℕ) → Type 0
IsInput [] = Unit {0}
IsInput (bytes ∷ reads) = IsText bytes × (has_newline bytes ≡ true) × IsInput reads

abbrev pub join : List (List ℕ) → List ℕ
join [] = []
join (bytes ∷ reads) = bytes ++ join reads

chosen-append :
    (re : List ℕ) (a b : List (List ℕ)) → chosen re (a ++ b) ≡ chosen re a ++ chosen re b
chosen-append re [] b = refl
chosen-append re (line ∷ a) b =
    let first = if match re line then line ++ (b'\n' ∷ []) else [] in
    ap (λ t. first ++ t) (chosen-append re a b)
    ∙ sym (append_assoc first (chosen re a) (chosen re b))

-- The lines of `tail ++ b` behind those before them.
abbrev go_on : List (List ℕ) × List ℕ → List ℕ → List (List ℕ) × List ℕ
go_on (lines, tail) b = (lines ++ (split (tail ++ b)).0, (split (tail ++ b)).1)

on_first-go_on :
    (c : ℕ) (lines : List (List ℕ)) (tail b : List ℕ)
    → (c == b'\n') ≡ false
    → on_first c (go_on (lines, tail) b) ≡ go_on (on_first c (lines, tail)) b
on_first-go_on c [] tail b h = rw h refl
on_first-go_on c (line ∷ lines) tail b h = refl

split-append : (a b : List ℕ) → split (a ++ b) ≡ go_on (split a) b
split-append [] b = refl
split-append (c ∷ a) b = elim (Bool-cases (c == b'\n')) [
  | inl e ↦ rw (e, split-append a b) refl
  | inr e ↦ let r = split a in rw (e, split-append a b) (on_first-go_on c r.0 r.1 b e)
]

length-on_first : (c : ℕ) (r : List (List ℕ) × List ℕ) → length (on_first c r).1 ≤ suc (length r.1)
length-on_first c ([], tail) = omega arith
length-on_first c (line ∷ lines, tail) = omega arith

length-split : (s : List ℕ) → length (split s).1 ≤ length s
length-split [] = omega arith
length-split (c ∷ s) = elim (Bool-cases (c == b'\n')) [
  | inl e ↦ rw e (omega (arith, length-split s))
  | inr e ↦ rw e (omega (arith, length-split s, length-on_first c (split s)))
]

-- A newline leaves less behind it.
split-shorter : (s : List ℕ) → has_newline s ≡ true → length (split s).1 < length s
split-shorter [] h = absurd (ground arith)
split-shorter (c ∷ s) h = elim (Bool-cases (c == b'\n')) [
  | inl e ↦ rw e (omega (arith, length-split s))
  | inr e ↦ rw e (omega (arith, split-shorter s (rw e at h), length-on_first c (split s)))
]

has_newline-append : (a b : List ℕ) → has_newline b ≡ true → has_newline (a ++ b) ≡ true
has_newline-append [] b h = h
has_newline-append (c ∷ a) b h = rw (has_newline-append a b h) (ground arith)

IsText-append : (a b : List ℕ) → IsText a → IsText b → IsText (a ++ b)
IsText-append [] b ta tb = tb
IsText-append (c ∷ a) b (nz, ta) tb = (nz, IsText-append a b ta tb)

IsText-on_first :
    (c : ℕ) (r : List (List ℕ) × List ℕ) → c ≢ 0 → IsText r.1 → IsText (on_first c r).1
IsText-on_first c ([], tail) nz t = (nz, t)
IsText-on_first c (line ∷ lines, tail) nz t = t

IsText-split : (s : List ℕ) → IsText s → IsText (split s).1
IsText-split [] t = tt
IsText-split (c ∷ s) (nz, t) = elim (Bool-cases (c == b'\n')) [
  | inl e ↦ rw e (IsText-split s t)
  | inr e ↦ rw e (IsText-on_first c (split s) nz (IsText-split s t))
]

-- Behind the last newline there is no line.
on_first-tail :
    (c : ℕ) (r : List (List ℕ) × List ℕ)
    → (c == b'\n') ≡ false
    → split r.1 ≡ ([], r.1)
    → split (on_first c r).1 ≡ ([], (on_first c r).1)
on_first-tail c ([], tail) e h = rw (e, h) refl
on_first-tail c (line ∷ lines, tail) e h = h

split-tail : (s : List ℕ) → split (split s).1 ≡ ([], (split s).1)
split-tail [] = refl
split-tail (c ∷ s) = elim (Bool-cases (c == b'\n')) [
  | inl e ↦ rw e (split-tail s)
  | inr e ↦ rw e (on_first-tail c (split s) e (split-tail s))
]

-- What `strchr` finds is the first line.
abbrev Found : List ℕ → Option (List ℕ × List ℕ) → Type 0
Found s none = split s ≡ ([], s)
Found s (some (line, rest)) =
    (split s ≡ (line ∷ (split rest).0, (split rest).1)) × IsText rest × (length rest < length s)

find_newline-Found : (s : List ℕ) → IsText s → Found s (find_newline s)
find_newline-Found [] t = refl
find_newline-Found (c ∷ s) (nz, t) = elim (Bool-cases (c == b'\n')) [
  | inl e ↦ rw (e, e) (refl, t, omega arith)
  | inr e ↦
      let zero_not : (c == 0) ≡ false = ground arith in
      rw (e, zero_not) (further (find_newline s) (find_newline-Found s t) e)
]
  where
    further :
        (o : Option (List ℕ × List ℕ))
        → Found s o
        → (c == b'\n') ≡ false
        → Found (c ∷ s) (put_byte_on c o)
    further none h e = rw (e, h) refl
    further (some (line, rest)) (h, tx, lt) e = (rw (e, h) refl, tx, omega arith)

-- The loop on the lines writes those that match and leaves what is behind the last newline.
grep_lines-split :
    (fuel : ℕ) (re s : List ℕ)
    → IsText s
    → length s ≤ fuel
    → grep_lines fuel re s ≡ (chosen re (split s).0, (split s).1)
unfolding grep_lines
grep_lines-split zero re [] t enough = refl
grep_lines-split zero re (c ∷ s) t enough = absurd (omega arith)
grep_lines-split (suc fuel) re s t enough = elim (Option-cases (find_newline s)) [
  | inl e ↦
      let whole : split s ≡ ([], s) = subst (Found s) e (find_newline-Found s t) in
      rw (grep_lines, e, whole) refl
  | inr ((line, rest), e) ↦
      let (first, text, lt) = subst (Found s) e (find_newline-Found s t) in
      rw (grep_lines, e, first, grep_lines-split fuel re rest text (omega arith)) refl
]

-- With `held` in the buffer `grep` writes the lines that match of what it holds and of all that it reads.
grep-held :
    (re held : List ℕ) (reads : List (List ℕ))
    → IsText held
    → (split held).0 ≡ []
    → IsInput reads
    → grep re held reads ≡ chosen re (split (held ++ join reads)).0
unfolding grep
grep-held re held [] th none_yet input = rw (append-nil held, none_yet) refl
grep-held re held ([] ∷ reads) th none_yet (tb, some_line, input) = absurd (ground arith)
grep-held re held ((b ∷ bytes) ∷ reads) th none_yet (tb, some_line, input) =
    let buf = held ++ (b ∷ bytes) in
    let lines = (split buf).0 in
    let tail = (split buf).1 in
    let loop : grep_lines (length buf) re buf ≡ (chosen re lines, tail) =
      grep_lines-split (length buf) re buf (IsText-append held (b ∷ bytes) th tb) (omega arith) in
    let shorter : length tail < length buf =
      split-shorter buf (has_newline-append held (b ∷ bytes) some_line) in
    let moved : (length tail == length buf) ≡ false = ground arith in
    let behind : (split tail).0 ≡ [] = ap (λ r. r.0) (split-tail buf) in
    let again =
      grep-held re tail reads (IsText-split buf (IsText-append held (b ∷ bytes) th tb)) behind
        input in
    let whole : split (held ++ ((b ∷ bytes) ++ join reads)) ≡ go_on (split buf) (join reads) =
      ap split (sym (append_assoc held (b ∷ bytes) (join reads))) ∙ split-append buf (join reads) in
    rw (loop, moved, again)
      (sym (ap (λ r. chosen re r.0) whole ∙ chosen-append re lines (split (tail ++ join reads)).0))

-- `grep` writes the lines of its input that match, where every read ends some line and holds no NUL.
-- The line that has no newline at the end of the input is not written.
pub grep-chosen :
    (re : List ℕ) (reads : List (List ℕ))
    → IsInput reads
    → grep re [] reads ≡ chosen re (split (join reads)).0
grep-chosen re reads input = grep-held re [] reads tt refl input
