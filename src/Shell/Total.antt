-- ===== src/Shell/Total.antt =====
-- `parsecmd` returns on every text, with a command or a panic.
use os_fcfs_prirority.Base.{
  ℕ, zero, suc, ◌+◌, ◌*◌, ◌≤◌, ◌<◌, inl, inr, subst, List, [], ◌∷◌, Bool-cases, length, arith, ◌≢◌,
}
use os_fcfs_prirority.Shell.{
  Cmd, exec, pipe, list, gettoken, peek, parsed, panics, out_of_fuel, parseredirs, parseargs,
  parsebacks, parseline, parsepipe, parseexec, parseblock, parsecmd,
}
use os_fcfs_prirority.Shell.Lengths.{peek-shorter, length-peek}
use os_fcfs_prirority.Shell.Returns.{
  IsDone, more-IsDone, then_parse-IsDone, parseredirs-IsDone, parseargs-IsDone, parsebacks-IsDone,
}

-- The four functions that call each other, with fuel for the text.
abbrev AllDone : ℕ → Type 0
AllDone f =
    ((s : List ℕ) → 4 * length s + 3 < f → IsDone (length s) (parseline f s))
    × ((s : List ℕ) → 4 * length s + 2 < f → IsDone (length s) (parsepipe f s))
    × ((s : List ℕ) → 4 * length s + 1 < f → IsDone (length s) (parseexec f s))
    × ((s : List ℕ) → 4 * length s < f → IsDone (length s) (parseblock f s))

line_step :
    (f : ℕ) (s : List ℕ)
    → AllDone f
    → 4 * length s + 3 < suc f
    → IsDone (length s) (parseline (suc f) s)
unfolding parseline
line_step f s (by_line, by_pipe, _, _) enough =
    then_parse-IsDone (length s) (length s) (parsepipe f s) _ (by_pipe s (omega arith)) (λ c s1 le1.
      then_parse-IsDone (length s) (length s) (parsebacks f c s1) _
        (more-IsDone (length s1) (length s) (parsebacks f c s1) le1
          (parsebacks-IsDone f c s1 (omega arith)))
        (λ c' s2 le2.
          let s4 = (gettoken (peek (b';' ∷ []) s2).1).2 in
          elim (Bool-cases (peek (b';' ∷ []) s2).0) [
            | inl e ↦
                let lt : length s4 < length s2 = peek-shorter (b';' ∷ []) s2 e in
                rw e (
                  then_parse-IsDone (length s4) (length s) (parseline f s4)
                    (λ d s5. parsed (list c' d) s5) (by_line s4 (omega arith))
                    (λ d s5 le5. omega arith))
            | inr e ↦ rw e (omega (arith, length-peek (b';' ∷ []) s2))
          ]))

pipe_step :
    (f : ℕ) (s : List ℕ)
    → AllDone f
    → 4 * length s + 2 < suc f
    → IsDone (length s) (parsepipe (suc f) s)
unfolding parsepipe
pipe_step f s (_, by_pipe, by_exec, _) enough =
    then_parse-IsDone (length s) (length s) (parseexec f s) _ (by_exec s (omega arith)) (λ c s1 le1.
      let s3 = (gettoken (peek (b'|' ∷ []) s1).1).2 in
      elim (Bool-cases (peek (b'|' ∷ []) s1).0) [
        | inl e ↦
            let lt : length s3 < length s1 = peek-shorter (b'|' ∷ []) s1 e in
            rw e (
              then_parse-IsDone (length s3) (length s) (parsepipe f s3)
                (λ d s4. parsed (pipe c d) s4) (by_pipe s3 (omega arith)) (λ d s4 le4. omega arith))
        | inr e ↦ rw e (omega (arith, length-peek (b'|' ∷ []) s1))
      ])

exec_step :
    (f : ℕ) (s : List ℕ)
    → AllDone f
    → 4 * length s + 1 < suc f
    → IsDone (length s) (parseexec (suc f) s)
unfolding parseexec
exec_step f s (_, _, _, by_block) enough =
    let s0 = (peek (b'(' ∷ []) s).1 in
    let le : length s0 ≤ length s = length-peek (b'(' ∷ []) s in
    elim (Bool-cases (peek (b'(' ∷ []) s).0) [
      | inl e ↦
          rw e (more-IsDone (length s0) (length s) (parseblock f s0) le (by_block s0 (omega arith)))
      | inr e ↦ rw e (
          then_parse-IsDone (length s0) (length s) (parseredirs f (exec []) s0) (parseargs f 0)
            (parseredirs-IsDone f (exec []) s0 (omega arith))
            (λ c s1 le1.
              more-IsDone (length s1) (length s) (parseargs f 0 c s1) (omega arith)
                (parseargs-IsDone f 0 c s1 (omega arith))))
    ]

block_step :
    (f : ℕ) (s : List ℕ)
    → AllDone f
    → 4 * length s < suc f
    → IsDone (length s) (parseblock (suc f) s)
unfolding parseblock
block_step f s (by_line, _, _, _) enough =
    let s1 = (gettoken (peek (b'(' ∷ []) s).1).2 in
    elim (Bool-cases (peek (b'(' ∷ []) s).0) [
      | inl e ↦
          let lt : length s1 < length s = peek-shorter (b'(' ∷ []) s e in
          rw e (
            then_parse-IsDone (length s1) (length s) (parseline f s1) _ (by_line s1 (omega arith))
              (λ c s2 le2.
                let s3 = (gettoken (peek (b')' ∷ []) s2).1).2 in
                elim (Bool-cases (peek (b')' ∷ []) s2).0) [
                  | inl e' ↦
                      let lt' : length s3 < length s2 = peek-shorter (b')' ∷ []) s2 e' in
                      rw e' (
                        more-IsDone (length s3) (length s) (parseredirs f c s3) (omega arith)
                          (parseredirs-IsDone f c s3 (omega arith)))
                  | inr e' ↦ rw e' tt
                ]))
      | inr e ↦ rw e tt
    ]

all_done : (f : ℕ) → AllDone f
all_done zero = (
  (λ s h. absurd (omega arith)),
  (λ s h. absurd (omega arith)),
  (λ s h. absurd (omega arith)),
  (λ s h. absurd (omega arith)),
)
all_done (suc f) =
    let before = all_done f in
    (
      (λ s. line_step f s before),
      (λ s. pipe_step f s before),
      (λ s. exec_step f s before),
      (λ s. block_step f s before),
    )

-- What `parsecmd` leaves is nothing.
pub parsecmd-IsDone : (s : List ℕ) → IsDone 0 (parsecmd s)
unfolding parsecmd
parsecmd-IsDone s =
    let (by_line, _, _, _) = all_done (16 * length s + 16) in
    then_parse-IsDone (length s) 0 (parseline (16 * length s + 16) s) _ (by_line s (omega arith))
      (λ c rest le. no_leftovers c (peek [] rest).1)
  where
    no_leftovers :
        (c : Cmd) (left : List ℕ) → IsDone 0 (elim left [ [] ↦ parsed c [] | b ∷ bs ↦ panics ])
    no_leftovers c [] = omega arith
    no_leftovers c (b ∷ bs) = tt

-- `parsecmd` returns a command or panics on every text: the fuel that it is given is enough.
pub parsecmd-returns : (s : List ℕ) → parsecmd s ≢ out_of_fuel
parsecmd-returns s stuck = subst (IsDone 0) stuck (parsecmd-IsDone s)
