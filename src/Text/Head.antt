-- ===== src/Text/Head.antt =====
-- `head1` prints the first lines of a text.
use os_fcfs_prirority.Base.{
  ℕ, zero, suc, ◌+◌, ◌-◌, ◌≤◌, ◌<◌, ◌≡◌, ◌≢◌, inl, inr, refl, sym, ap, ◌∙◌, fun_ext, false, some,
  List, [], ◌∷◌, ◌++◌, Bool-cases, update, length, take, take-nil, bytes_at, arith, ◌==◌,
}
use os_fcfs_prirority.Cstring.{strncpy}
use os_fcfs_prirority.Syscall.{User, argint, argstr}
use os_fcfs_prirority.Syscall.Checks.{argstr-some_iff}
use os_fcfs_prirority.Text.Strings.{
  lines_of, IsText, held, IsText-append, length-append, held-append, first_at, later_at,
  c_string-held, length-bytes_at, bytes_at-IsText, field_byte,
}
use os_fcfs_prirority.Text.{newline, c_string, head_size, head_from, sys_head1}

-- The NULs after the text.
head_from_quiet :
    (n i j count : ℕ) (t f : ℕ → ℕ) (k : ℕ)
    → ((p : ℕ) → p < n → t (i + p) ≡ 0)
    → count ≢ k
    → head_from n i j count t f k ≡ some []
unfolding head_from
head_from_quiet zero i j count t f k zeros ne = refl
head_from_quiet (suc n) i j count t f k zeros ne =
    let z : t i ≡ 0 = first_at t i 0 (zeros 0 (omega arith)) in
    let plain : (t i == newline) ≡ false = ground arith in
    let on : (count == k) ≡ false = ground arith in
    rw (plain, on)
      (head_from_quiet n (suc i) (suc j) count t (update f j (t i)) k
        (λ p lt. later_at t i p 0 (zeros (suc p) (omega arith))) ne)

held_zero : (bs : List ℕ) (p : ℕ) → held bs (0 + p) ≡ held bs p
held_zero bs p = let e : 0 + p ≡ p = omega arith in ap (held bs) e

take_first :
    (k count : ℕ) (l : List ℕ) (ls : List (List ℕ))
    → count < k
    → take (k - count) (l ∷ ls) ≡ l ∷ take (k - suc count) ls
take_first k count l ls lt = let e : k - count ≡ suc (k - suc count) = omega arith in rw e refl

-- The loop with `cur` in `file2`, and `bs` left of the text.
head_from-lines_of :
    (n i count : ℕ) (t : ℕ → ℕ) (cur bs : List ℕ) (k : ℕ)
    → IsText cur
    → IsText bs
    → length cur + length bs < head_size
    → length bs ≤ n
    → ((p : ℕ) → p < n → t (i + p) ≡ held bs p)
    → count < k
    → head_from n i (length cur) count t (held cur) k ≡ some (take (k - count) (lines_of cur bs))
unfolding head_from
head_from-lines_of n i count t cur [] k tc tx fits le same lt =
    head_from_quiet n i (length cur) count t (held cur) k same (omega arith)
    ∙ ap some (sym (take-nil (k - count)))
head_from-lines_of zero i count t cur (b ∷ bs) k tc tx fits le same lt = absurd (omega arith)
head_from-lines_of (suc n) i count t cur (b ∷ bs) k tc (nb, tx) fits le same lt =
    let at : t i ≡ b = first_at t i b (same 0 (omega arith)) in
    let line = cur ++ (b ∷ []) in
    let f : update (held cur) (length cur) b ≡ held line = fun_ext (λ p. held-append cur b p) in
    let tl = IsText-append cur b tc nb in
    let size = length-append cur b in
    let short : length bs ≤ n = omega arith in
    let on = λ (p : ℕ) (h : p < n). later_at t i p (held bs p) (same (suc p) (omega arith)) in
    elim (Bool-cases (b == newline)) [
      | inr plain ↦
          let going : (count == k) ≡ false = ground arith in
          let rest =
            head_from-lines_of n (suc i) count t line bs k tl tx (omega (arith, size)) short on
              lt in
          rw (at, plain, going, f, ← size) rest
      | inl ends ↦
          let shown : c_string head_size (held line) 0 ≡ some line =
            c_string-held head_size 0 (held line) line tl (omega (arith, size))
              (λ p _. held_zero line p) in
          elim (Bool-cases (suc count == k)) [
            | inl last ↦
                let one : k - count ≡ 1 = ground arith in rw (at, ends, f, shown, last, one) refl
            | inr going ↦
                let rest =
                  head_from-lines_of n (suc i) (suc count) t [] bs k tt tx (omega arith) short on
                    (ground arith) in
                rw (at, ends, f, shown, going, take_first k count line (lines_of [] bs) lt, rest)
                  refl
          ]
    ]

-- `head1` of a text that fits into its buffer with the NUL, for any number of lines but 0: it returns
-- 0, reads no array past its end, and prints that many of the lines that end in a newline, from the
-- first on, or all of them where there are no more; a negative number prints all.
pub head1_lem :
    (u : User) (a len k : ℕ)
    → argstr u 0 ≡ some (a, len)
    → argint u 1 ≡ some k
    → len < head_size
    → k ≢ 0
    → sys_head1 u ≡ some (take k (lines_of [] (bytes_at u.mem a len)), 0)
unfolding sys_head1
head1_lem u a len k text number fits some_lines =
    let st = ((argstr-some_iff u 0 a len).0 text).1 in
    let file1 = strncpy (λ p. 0) (λ p. u.mem (a + p)) head_size in
    let bs = bytes_at u.mem a len in
    let all = length-bytes_at u.mem a len in
    let loop =
      head_from-lines_of head_size 0 0 file1 [] bs k tt (bytes_at-IsText u.mem a len st.body)
        (omega (arith, all)) (omega (arith, all)) (λ p lt. field_byte u a len head_size p st lt)
        (omega arith) in
    let e : k - 0 ≡ k = omega arith in rw (sys_head1, text, number, loop, e) refl
