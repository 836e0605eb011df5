-- ===== src/Shell/Returns.antt =====
-- `parsecmd` returns on every text.
use os_fcfs_prirority.Base.{
  ℕ, zero, suc, ◌≤◌, ◌<◌, inl, inr, List, [], ◌∷◌, Bool-cases, length, arith, ◌==◌, leb,
}
use os_fcfs_prirority.Shell.{
  Cmd, back, gettoken, peek, Parsed, parsed, panics, out_of_fuel, then_parse, maxargs, redirected,
  add_arg, parseredirs, parseargs, parsebacks,
}
use os_fcfs_prirority.Shell.Lengths.{peek-shorter, length-peek, gettoken-shorter, word-shorter}

-- A call ends with no more text than `n` bytes, or with a panic.
abbrev pub IsDone : ℕ → Parsed → Type 0
IsDone n (parsed c s) = length s ≤ n
IsDone n panics = Unit {0}
IsDone n out_of_fuel = ⊥

pub more-IsDone : (m n : ℕ) (p : Parsed) → m ≤ n → IsDone m p → IsDone n p
more-IsDone m n (parsed c s) le h = omega arith
more-IsDone m n panics le h = tt
more-IsDone m n out_of_fuel le h = h

pub then_parse-IsDone :
    (m n : ℕ) (p : Parsed) (k : Cmd → List ℕ → Parsed)
    → IsDone m p
    → ((c : Cmd) (s : List ℕ) → length s ≤ m → IsDone n (k c s))
    → IsDone n (then_parse p k)
then_parse-IsDone m n (parsed c s) k h next = next c s h
then_parse-IsDone m n panics k h next = tt
then_parse-IsDone m n out_of_fuel k h next = absurd h

-- The loops end.
pub parseredirs-IsDone :
    (f : ℕ) (c : Cmd) (s : List ℕ) → length s < f → IsDone (length s) (parseredirs f c s)
unfolding parseredirs
parseredirs-IsDone zero c s enough = absurd (omega arith)
parseredirs-IsDone (suc f) c s enough =
    let toks : List ℕ = b'<' ∷ b'>' ∷ [] in
    let s0 = (peek toks s).1 in
    let tok = gettoken s0 in
    let file = gettoken tok.2 in
    elim (Bool-cases (peek toks s).0) [
      | inl e ↦ elim (Bool-cases (file.0 == b'a')) [
        | inl e' ↦
            let lt : length file.2 < length s =
              omega (arith, peek-shorter toks s e, gettoken-shorter tok.2) in
            let rest = parseredirs-IsDone f (redirected tok.0 c file.1) file.2 (omega arith) in
            rw (e, e')
              (more-IsDone (length file.2) (length s)
                (parseredirs f (redirected tok.0 c file.1) file.2) (omega arith) rest)
        | inr e' ↦ rw (e, e') tt
      ]
      | inr e ↦ rw e (length-peek toks s)
    ]

pub parseargs-IsDone :
    (f argc : ℕ) (c : Cmd) (s : List ℕ) → length s < f → IsDone (length s) (parseargs f argc c s)
unfolding parseargs
parseargs-IsDone zero argc c s enough = absurd (omega arith)
parseargs-IsDone (suc f) argc c s enough =
    let toks : List ℕ = b'|' ∷ b')' ∷ b'&' ∷ b';' ∷ [] in
    let s0 = (peek toks s).1 in
    let tok = gettoken s0 in
    elim (Bool-cases (peek toks s).0) [
      | inl e ↦ rw e (length-peek toks s)
      | inr e ↦ elim (Bool-cases (tok.0 == 0)) [
        | inl e' ↦ rw (e, e') (omega (arith, length-peek toks s, gettoken-shorter s0))
        | inr e' ↦ elim (Bool-cases (tok.0 == b'a')) [
          | inr e2 ↦ rw (e, e', e2) tt
          | inl e2 ↦ elim (Bool-cases (leb maxargs (suc argc))) [
            | inl e3 ↦ rw (e, e', e2, e3) tt
            | inr e3 ↦
                let lt : length tok.2 < length s =
                  omega (arith, length-peek toks s, word-shorter s0 e2) in
                let redirs = parseredirs-IsDone f (add_arg c tok.1) tok.2 (omega arith) in
                rw (e, e', e2, e3)
                  (then_parse-IsDone (length tok.2) (length s)
                    (parseredirs f (add_arg c tok.1) tok.2) (parseargs f (suc argc)) redirs
                    (λ c' s' le.
                      more-IsDone (length s') (length s) (parseargs f (suc argc) c' s')
                        (omega arith) (parseargs-IsDone f (suc argc) c' s' (omega arith))))
          ]
        ]
      ]
    ]

pub parsebacks-IsDone :
    (f : ℕ) (c : Cmd) (s : List ℕ) → length s < f → IsDone (length s) (parsebacks f c s)
unfolding parsebacks
parsebacks-IsDone zero c s enough = absurd (omega arith)
parsebacks-IsDone (suc f) c s enough =
    let toks : List ℕ = b'&' ∷ [] in
    let s1 = (gettoken (peek toks s).1).2 in
    elim (Bool-cases (peek toks s).0) [
      | inl e ↦
          let lt : length s1 < length s = peek-shorter toks s e in
          rw e (
            more-IsDone (length s1) (length s) (parsebacks f (back c) s1) (omega arith)
              (parsebacks-IsDone f (back c) s1 (omega arith)))
      | inr e ↦ rw e (length-peek toks s)
    ]
