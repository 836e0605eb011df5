-- ===== src/Text/Uniq/Loop.antt =====
-- The loop of `uniq1`, line by line.
use os_fcfs_prirority.Base.{
  ℕ, zero, suc, ◌+◌, ◌≤◌, ◌<◌, ◌≡◌, inl, inr, refl, sym, ap, ap₂, ◌∙◌, true, false, some, List, [],
  ◌∷◌, ◌++◌, Bool-cases, update, length, bytes_at, arith, ltb, ◌==◌,
}
use os_fcfs_prirority.Cstring.{strncpy}
use os_fcfs_prirority.Syscall.{User, argint, argstr}
use os_fcfs_prirority.Syscall.Checks.{IsUser, argstr-some_iff}
use os_fcfs_prirority.Text.{newline}
use os_fcfs_prirority.Text.Strings.{
  lines_of, IsText, held, IsText-append, length-append, held-append, first_at, later_at,
  c_string-held, length-bytes_at, bytes_at-IsText, field_byte,
}
use os_fcfs_prirority.Text.Uniq.{
  line_size, Printed, Uniq, line_end, uniq_byte, uniq_from, sys_uniq1,
}
use os_fcfs_prirority.Text.Uniq.Lines.{uniq_line, uniq_lines, IsHeld, line_end-IsEnded}
use os_fcfs_prirority.Text.Uniq.Same.{Holds, IsBytes, at_zero}

IsBytes-append : (cur : List ℕ) (b : ℕ) → IsBytes cur → b < 256 → IsBytes (cur ++ (b ∷ []))
IsBytes-append [] b bx lt = (lt, tt)
IsBytes-append (c ∷ cur) b (lc, bx) lt = (lc, IsBytes-append cur b bx lt)

-- `currentLine` with the bytes of `cur`, one more, and the NUL.
abbrev with_end : (ℕ → ℕ) → List ℕ → ℕ → ℕ → ℕ
with_end current cur b = update (update current (length cur) b) (suc (length cur)) 0

abbrev Starts : (ℕ → ℕ) → List ℕ → Type 0
Starts t cur = (p : ℕ) → p < length cur → t p ≡ held cur p

Starts-append :
    (t : ℕ → ℕ) (cur : List ℕ) (b : ℕ)
    → Starts t cur
    → Starts (update t (length cur) b) (cur ++ (b ∷ []))
Starts-append t cur b h p lt = same ∙ held-append cur b p
  where
    same : update t (length cur) b p ≡ update (held cur) (length cur) b p
    same = elim (Bool-cases (length cur == p)) [
      | inl here ↦ rw here refl
      | inr other ↦ rw other (h p (ground (arith, length-append cur b)))
    ]

held_end : (bs : List ℕ) → held bs (length bs) ≡ 0
held_end [] = refl
held_end (b ∷ bs) = held_end bs

with_end-Holds :
    (t : ℕ → ℕ) (cur : List ℕ) (b : ℕ) → Starts t cur → Holds (with_end t cur b) 0 (cur ++ (b ∷ []))
with_end-Holds t cur b h p le = at_zero (with_end t cur b) p ∙ by_case
  where
    next : List ℕ
    next = cur ++ (b ∷ [])

    by_case : with_end t cur b p ≡ held (cur ++ (b ∷ [])) p
    by_case = elim (Bool-cases (suc (length cur) == p)) [
      | inl last ↦
          let e : length next ≡ p = ground (arith, length-append cur b) in
          rw last (sym (held_end next) ∙ ap (held next) e)
      | inr before ↦ rw before (Starts-append t cur b h p (ground (arith, length-append cur b)))
    ]

-- A round of the loop.
uniq_from-step :
    (n i value value' : ℕ) (current current' : ℕ → ℕ) (u u' : Uniq) (file : ℕ → ℕ) (flag : ℕ)
    (out rest : List Printed)
    → uniq_byte flag (file i) value current u ≡ some (out, value', current', u')
    → uniq_from n (suc i) value' current' u' file flag ≡ some rest
    → uniq_from (suc n) i value current u file flag ≡ some (out ++ rest)
unfolding uniq_from
uniq_from-step n i value value' current current' u u' file flag out rest e r =
    rw (uniq_from, e, r) refl

uniq_byte_plain :
    (flag b value : ℕ) (current : ℕ → ℕ) (u : Uniq)
    → (b == newline) ≡ false
    → uniq_byte flag b value current u ≡ some ([], suc value, update current value b, u)
unfolding uniq_byte
uniq_byte_plain flag b value current u e = rw e refl

uniq_byte_ends :
    (flag b : ℕ) (cur : List ℕ) (current : ℕ → ℕ) (u : Uniq)
    → (b == newline) ≡ true
    → suc (length cur) < line_size
    → IsHeld (with_end current cur b) (cur ++ (b ∷ []))
    → uniq_byte flag b (length cur) current u
      ≡ some (
        (line_end flag (cur ++ (b ∷ [])) (with_end current cur b) u).0,
        0,
        with_end current cur b,
        (line_end flag (cur ++ (b ∷ [])) (with_end current cur b) u).1,
      )
unfolding uniq_byte
uniq_byte_ends flag b cur current u e lt h =
    let room : ltb (suc (length cur)) line_size ≡ true = ground arith in
    let shown =
      c_string-held line_size 0 (with_end current cur b) (cur ++ (b ∷ [])) h.text h.short h.holds in
    rw (e, room, shown) refl

-- The NULs after the text.
uniq_from_quiet :
    (n i value : ℕ) (current : ℕ → ℕ) (u : Uniq) (file : ℕ → ℕ) (flag : ℕ)
    → ((p : ℕ) → p < n → file (i + p) ≡ 0)
    → uniq_from n i value current u file flag ≡ some []
unfolding uniq_from
uniq_from_quiet zero i value current u file flag zeros = refl
uniq_from_quiet (suc n) i value current u file flag zeros =
    let z : file i ≡ 0 = first_at file i 0 (zeros 0 (omega arith)) in
    let byte : uniq_byte flag (file i) value current u
        ≡ some ([], suc value, update current value 0, u) =
      rw z (uniq_byte_plain flag 0 value current u refl) in
    uniq_from-step n i value (suc value) current (update current value 0) u u file flag [] [] byte (
      uniq_from_quiet n (suc i) (suc value) (update current value 0) u file flag
        (λ p lt. later_at file i p 0 (zeros (suc p) (omega arith))))

-- The loop with `cur` in `currentLine`, and `bs` left of the text.
uniq_from-uniq_lines :
    (n i : ℕ) (cur bs prev : List ℕ) (current : ℕ → ℕ) (u : Uniq) (file : ℕ → ℕ) (flag : ℕ)
    → IsText cur
    → IsBytes cur
    → Starts current cur
    → IsText bs
    → IsBytes bs
    → length cur + length bs < line_size
    → length bs ≤ n
    → ((p : ℕ) → p < n → file (i + p) ≡ held bs p)
    → IsHeld u.previous prev
    → uniq_from n i (length cur) current u file flag
      ≡ some (uniq_lines flag (lines_of cur bs) prev u.count)
unfolding uniq_from
uniq_from-uniq_lines n i cur [] prev current u file flag tc bc st tx bx fits le same l =
    uniq_from_quiet n i (length cur) current u file flag same
uniq_from-uniq_lines zero i cur (b ∷ bs) prev current u file flag tc bc st tx bx fits le same l =
    absurd (omega arith)
uniq_from-uniq_lines (suc n) i cur (b ∷ bs) prev current u file flag tc bc st (nb, tx) (lb, bx) fits
      le same l =
    let at : file i ≡ b = first_at file i b (same 0 (omega arith)) in
    let next = cur ++ (b ∷ []) in
    let size = length-append cur b in
    let tn = IsText-append cur b tc nb in
    let bn = IsBytes-append cur b bc lb in
    let short : length bs ≤ n = omega arith in
    let on = λ (p : ℕ) (h : p < n). later_at file i p (held bs p) (same (suc p) (omega arith)) in
    elim (Bool-cases (b == newline)) [
      | inr plain ↦
          let rest =
            uniq_from-uniq_lines n (suc i) next bs prev (update current (length cur) b) u file flag
              tn bn (Starts-append current cur b st) tx bx (omega (arith, size)) short on l in
          let byte =
            ap (λ c. uniq_byte flag c (length cur) current u) at
            ∙ uniq_byte_plain flag b (length cur) current u plain in
          rw plain (
            uniq_from-step n i (length cur) (suc (length cur)) current
              (update current (length cur) b) u u file flag []
              (uniq_lines flag (lines_of next bs) prev u.count) byte (rw size at rest))
      | inl ends ↦
          let full = with_end current cur b in
          let holds = with_end-Holds current cur b st in
          let h : IsHeld full next = record {
            holds = holds;
            text = tn;
            bytes = bn;
            short = omega (arith, size);
          } in
          let done = line_end-IsEnded flag next prev full u h l in
          let r = line_end flag next full u in
          let said = uniq_line flag next prev u.count in
          let rest =
            uniq_from-uniq_lines n (suc i) [] bs said.1 full r.1 file flag tt tt
              (λ p lt. absurd (omega arith)) tx bx (omega arith) short on done.previous in
          let byte =
            ap (λ c. uniq_byte flag c (length cur) current u) at
            ∙ uniq_byte_ends flag b cur current u ends (omega arith) h in
          rw ends (
            uniq_from-step n i (length cur) 0 current full u r.1 file flag r.0
              (uniq_lines flag (lines_of [] bs) said.1 r.1.count) byte rest
            ∙ ap₂ (λ o c. some (o ++ uniq_lines flag (lines_of [] bs) said.1 c)) done.out
                done.count)
    ]

bytes_at-IsBytes : (u : User) (i n : ℕ) → IsUser u → IsBytes (bytes_at u.mem i n)
bytes_at-IsBytes u i zero h = tt
bytes_at-IsBytes u i (suc n) h = (h.bytes i, bytes_at-IsBytes u (suc i) n h)

-- `uniq1` of a text that fits into its buffer with the NUL: it returns 0, stays within its arrays, and
-- prints what the lines that end in a newline give one after the other. With flag 1 a line is printed
-- unless it is, in lower case, the one printed before; with flag 2 when it repeats its predecessor for
-- the first time in a row; with flag 3, and the count of the lines before it, when it differs from its
-- predecessor; otherwise unless it is the one printed before.
pub uniq1_lem :
    (u : User) (a len flag : ℕ)
    → IsUser u
    → argstr u 0 ≡ some (a, len)
    → argint u 1 ≡ some flag
    → len < line_size
    → sys_uniq1 u ≡ some (uniq_lines flag (lines_of [] (bytes_at u.mem a len)) [] 0, 0)
unfolding sys_uniq1
uniq1_lem u a len flag h text number fits =
    let st = ((argstr-some_iff u 0 a len).0 text).1 in
    let file = strncpy (λ p. 0) (λ p. u.mem (a + p)) line_size in
    let bs = bytes_at u.mem a len in
    let all = length-bytes_at u.mem a len in
    let start : Uniq = record { previous = λ p. 0; count = 0 } in
    let none_before : IsHeld (λ p. 0) [] = record {
      holds = λ p le. ground arith;
      text = tt;
      bytes = tt;
      short = omega arith;
    } in
    let loop =
      uniq_from-uniq_lines line_size 0 [] bs [] (λ p. 0) start file flag tt tt
        (λ p lt. absurd (omega arith)) (bytes_at-IsText u.mem a len st.body)
        (bytes_at-IsBytes u a len h) (omega (arith, all)) (omega (arith, all))
        (λ p lt. field_byte u a len line_size p st lt) none_before in
    rw (sys_uniq1, text, number, loop) refl
