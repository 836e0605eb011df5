-- ===== src/Text/Uniq/Lines.antt =====
-- `uniq1` as a function of the lines of a text.
use os_fcfs_prirority.Base.{
  ℕ, suc, ◌<◌, ◌≡◌, inl, inr, refl, ◌||◌, List, [], ◌∷◌, ◌++◌, Bool-cases, length, arith, ◌==◌,
  if◌then◌else◌,
}
use os_fcfs_prirority.Cstring.{strncmp, strncpy}
use os_fcfs_prirority.Text.Strings.{IsText}
use os_fcfs_prirority.Text.Uniq.{line_size, Printed, line, numbered, Uniq, lower_from, line_end}
use os_fcfs_prirority.Text.Uniq.Same.{
  Holds, IsBytes, same_text, strncmp-nil, strncmp-same_text, strncpy-Holds, lower_text,
  length-lower_text, lower_text-IsText, lower_text-IsBytes, lower_from-Holds,
}

-- One line after `prev`, with the count before it: what is printed, and the line and the count that
-- are kept.
abbrev pub uniq_line : ℕ → List ℕ → List ℕ → ℕ → List Printed × List ℕ × ℕ
uniq_line flag text prev count =
    if flag == 1
    then (if same_text prev (lower_text text)
        then ([], prev, count)
        else (line text ∷ [], lower_text text, count))
    else (if flag == 2
        then (if same_text prev text
            then (if suc count == 1 then line text ∷ [] else [], text, suc count)
            else ([], text, 0))
        else (if flag == 3
            then (if same_text prev text || same_text prev []
                then ([], text, suc count)
                else (numbered count text ∷ [], text, 1))
            else (if same_text text prev
                then ([], prev, count)
                else (line text ∷ [], text, count))))

abbrev pub uniq_lines : ℕ → List (List ℕ) → List ℕ → ℕ → List Printed
uniq_lines flag [] prev count = []
uniq_lines flag (text ∷ texts) prev count =
    let r = uniq_line flag text prev count in r.0 ++ uniq_lines flag texts r.1 r.2

-- The array holds a line.
pub record IsHeld (t : ℕ → ℕ) (bs : List ℕ) : Type 0 where
  pub holds : Holds t 0 bs
  pub text : IsText bs
  pub bytes : IsBytes bs
  pub short : length bs < line_size

copied-IsHeld : (s t : ℕ → ℕ) (bs : List ℕ) → IsHeld t bs → IsHeld (strncpy s t line_size) bs
copied-IsHeld s t bs h = record {
  holds = strncpy-Holds s t line_size bs h.text h.short h.holds;
  text = h.text;
  bytes = h.bytes;
  short = h.short;
}

lowered-IsHeld :
    (t : ℕ → ℕ) (bs : List ℕ) → IsHeld t bs → IsHeld (lower_from line_size 0 t) (lower_text bs)
lowered-IsHeld t bs h = record {
  holds = lower_from-Holds line_size 0 t bs h.text h.short h.holds;
  text = lower_text-IsText bs h.text;
  bytes = lower_text-IsBytes bs h.bytes;
  short = omega (arith, length-lower_text bs, h.short);
}

compared :
    (s t : ℕ → ℕ) (xs ys : List ℕ)
    → IsHeld s xs
    → IsHeld t ys
    → (strncmp s t line_size == 0) ≡ same_text xs ys
compared s t xs ys h k =
    strncmp-same_text line_size s t xs ys h.text k.text h.bytes k.bytes h.holds k.holds h.short

-- What `line_end` does is what `uniq_line` says.
pub record IsEnded (r : List Printed × Uniq) (said : List Printed × List ℕ × ℕ) : Type 0 where
  pub out : r.0 ≡ said.0
  pub previous : IsHeld r.1.previous said.1
  pub count : r.1.count ≡ said.2

pub line_end-IsEnded :
    (flag : ℕ) (text prev : List ℕ) (current : ℕ → ℕ) (u : Uniq)
    → IsHeld current text
    → IsHeld u.previous prev
    → IsEnded (line_end flag text current u) (uniq_line flag text prev u.count)
unfolding line_end
line_end-IsEnded flag text prev current u h l =
    let next = copied-IsHeld u.previous current text h in
    let against = compared u.previous current prev text l h in
    elim (Bool-cases (flag == 1)) [
      | inl one ↦
          let low =
            lowered-IsHeld (strncpy (λ p. 0) current line_size) text
              (copied-IsHeld (λ p. 0) current text h) in
          let cmp = lower_from line_size 0 (strncpy (λ p. 0) current line_size) in
          let test = compared u.previous cmp prev (lower_text text) l low in
          elim (Bool-cases (same_text prev (lower_text text))) [
            | inl same ↦ rw (one, test, same) (record { out = refl; previous = l; count = refl })
            | inr new ↦
                rw (one, test, new)
                  (record {
                    out = refl;
                    previous = copied-IsHeld u.previous cmp (lower_text text) low;
                    count = refl;
                  })
          ]
      | inr not_one ↦ elim (Bool-cases (flag == 2)) [
        | inl two ↦ elim (Bool-cases (same_text prev text)) [
          | inl same ↦
              rw (not_one, two, against, same)
                (record { out = refl; previous = next; count = refl })
          | inr new ↦
              rw (not_one, two, against, new) (record { out = refl; previous = next; count = refl })
        ]
        | inr not_two ↦ elim (Bool-cases (flag == 3)) [
          | inl three ↦
              let empty = strncmp-nil 3 u.previous (λ p. 0) prev l.text l.bytes l.holds refl in
              elim (Bool-cases (same_text prev text || same_text prev [])) [
                | inl same ↦
                    rw (not_one, not_two, three, against, empty, same)
                      (record { out = refl; previous = next; count = refl })
                | inr new ↦
                    rw (not_one, not_two, three, against, empty, new)
                      (record { out = refl; previous = next; count = refl })
              ]
          | inr not_three ↦
              let test = compared current u.previous text prev h l in
              elim (Bool-cases (same_text text prev)) [
                | inl same ↦
                    rw (not_one, not_two, not_three, test, same)
                      (record { out = refl; previous = l; count = refl })
                | inr new ↦
                    rw (not_one, not_two, not_three, test, new)
                      (record { out = refl; previous = next; count = refl })
              ]
        ]
      ]
    ]
