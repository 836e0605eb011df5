-- ===== src/Text/Strings.antt =====
-- Texts: lists of bytes without NULs, and arrays that hold them.
use os_fcfs_prirority.Base.{
  ℕ, zero, suc, ◌+◌, ◌≤◌, ◌<◌, ◌≡◌, ◌≢◌, inl, inr, refl, sym, ap, ◌∙◌, subst, true, false, some,
  List, [], ◌∷◌, ◌++◌, Bool-cases, update, get_or, length, bytes_at, arith, ltb, ◌==◌,
  if◌then◌else◌,
}
use os_fcfs_prirority.Cstring.{strncpy}
use os_fcfs_prirority.Cstring.Names.{ended, padded, over_pad, strncpy-padded}
use os_fcfs_prirority.Syscall.{User}
use os_fcfs_prirority.Syscall.Checks.{IsString}
use os_fcfs_prirority.Text.{newline, c_string}

-- The lines of a text that end in a newline, each with it; `cur` is what there is of the first one.
abbrev pub lines_of : List ℕ → List ℕ → List (List ℕ)
lines_of cur [] = []
lines_of cur (b ∷ bs) =
    let line = cur ++ (b ∷ []) in
    let next = lines_of [] bs in
    let more = lines_of line bs in if b == newline then line ∷ next else more

-- A text has no NUL.
abbrev pub IsText : List ℕ → Type 0
IsText [] = Unit {0}
IsText (b ∷ bs) = (b ≢ 0) × IsText bs

-- An array with a text at its start and NULs after it.
abbrev pub held : List ℕ → ℕ → ℕ
held bs p = get_or bs p 0

pub IsText-append : (cur : List ℕ) (b : ℕ) → IsText cur → b ≢ 0 → IsText (cur ++ (b ∷ []))
IsText-append [] b t nb = (nb, tt)
IsText-append (c ∷ cur) b (nc, t) nb = (nc, IsText-append cur b t nb)

pub length-append : (cur : List ℕ) (b : ℕ) → length (cur ++ (b ∷ [])) ≡ suc (length cur)
length-append [] b = refl
length-append (c ∷ cur) b = ap suc (length-append cur b)

pub held-append :
    (cur : List ℕ) (b p : ℕ) → update (held cur) (length cur) b p ≡ held (cur ++ (b ∷ [])) p
held-append [] b zero = refl
held-append [] b (suc p) = ground arith
held-append (c ∷ cur) b zero = ground arith
held-append (c ∷ cur) b (suc p) =
    let e : (suc (length cur) == suc p) ≡ (length cur == p) = ground arith in
    rw e (held-append cur b p)

-- The first byte of an array that agrees with a list from `i` on, and those after it.
pub first_at : (t : ℕ → ℕ) (i v : ℕ) → t (i + 0) ≡ v → t i ≡ v
first_at t i v h = let e : i ≡ i + 0 = omega arith in ap t e ∙ h

pub later_at : (t : ℕ → ℕ) (i p v : ℕ) → t (i + suc p) ≡ v → t (suc i + p) ≡ v
later_at t i p v h = let e : suc i + p ≡ i + suc p = omega arith in ap t e ∙ h

pub c_string-held :
    (n i : ℕ) (t : ℕ → ℕ) (bs : List ℕ)
    → IsText bs
    → length bs < n
    → ((p : ℕ) → p ≤ length bs → t (i + p) ≡ held bs p)
    → c_string n t i ≡ some bs
unfolding c_string
c_string-held zero i t bs tx lt same = absurd (omega arith)
c_string-held (suc n) i t [] tx lt same =
    let at : t i ≡ 0 = first_at t i 0 (same 0 (omega arith)) in
    let z : (t i == 0) ≡ true = ground arith in rw z refl
c_string-held (suc n) i t (b ∷ bs) (nb, tx) lt same =
    let at : t i ≡ b = first_at t i b (same 0 (omega arith)) in
    let z : (t i == 0) ≡ false = ground arith in
    let short : length bs < n = omega arith in
    let rest : c_string n t (suc i) ≡ some bs =
      c_string-held n (suc i) t bs tx short
        (λ p le. later_at t i p (held bs p) (same (suc p) (omega arith))) in
    rw (z, rest) (ap (λ c. some (c ∷ bs)) at)

pub get_or-bytes_at :
    (t : ℕ → ℕ) (i n p : ℕ) → held (bytes_at t i n) p ≡ (if ltb p n then t (i + p) else 0)
get_or-bytes_at t i zero p = ground arith
get_or-bytes_at t i (suc n) zero =
    let e : i ≡ i + 0 = omega arith in
    let test : ltb 0 (suc n) ≡ true = ground arith in rw test (ap t e)
get_or-bytes_at t i (suc n) (suc p) =
    let test : ltb (suc p) (suc n) ≡ ltb p n = ground arith in
    let e : i + suc p ≡ suc i + p = omega arith in rw (test, e) (get_or-bytes_at t (suc i) n p)

pub length-bytes_at : (t : ℕ → ℕ) (i n : ℕ) → length (bytes_at t i n) ≡ n
length-bytes_at t i zero = refl
length-bytes_at t i (suc n) = ap suc (length-bytes_at t (suc i) n)

pub bytes_at-IsText :
    (t : ℕ → ℕ) (i n : ℕ) → ((p : ℕ) → p < n → t (i + p) ≢ 0) → IsText (bytes_at t i n)
bytes_at-IsText t i zero body = tt
bytes_at-IsText t i (suc n) body = (
  λ z. body 0 (omega arith) (let e : i + 0 ≡ i = omega arith in ap t e ∙ z),
  bytes_at-IsText t (suc i) n (λ p lt z.
      body (suc p) (omega arith) (let e : i + suc p ≡ suc i + p = omega arith in ap t e ∙ z)),
)

-- The string in a field.
pub going_on :
    (u : User) (a len : ℕ)
    → IsString u a len
    → (i : ℕ) → i ≤ len
    → ended (λ p. u.mem (a + p)) i ≡ false
going_on u a len st zero le = refl
going_on u a len st (suc i) le =
    let b = st.body i (omega arith) in
    let nul : (u.mem (a + i) == 0) ≡ false = ground arith in
    rw (going_on u a len st i (omega arith), nul) refl

pub field_at :
    (u : User) (a len p : ℕ)
    → IsString u a len
    → padded (λ q. u.mem (a + q)) p ≡ (if ltb p len then u.mem (a + p) else 0)
field_at u a len p st = elim (Bool-cases (ltb p len)) [
  | inl body ↦ rw (going_on u a len st p (ground arith), body) refl
  | inr not_body ↦ elim (Bool-cases (p == len)) [
    | inl nul ↦
        let at : len ≡ p = ground arith in
        let z : u.mem (a + p) ≡ 0 = subst (λ q. u.mem (a + q) ≡ 0) at st.ended in
        rw (going_on u a len st p (omega arith), not_body) z
    | inr past ↦
        let nul : (u.mem (a + len) == 0) ≡ true = ground (arith, st.ended) in
        let over : ended (λ q. u.mem (a + q)) (suc len) ≡ true =
          rw (going_on u a len st len (omega arith), nul) refl in
        rw not_body (over_pad (λ q. u.mem (a + q)) len p over (ground arith))
  ]
]

string_field :
    (u : User) (a len p : ℕ)
    → IsString u a len
    → padded (λ q. u.mem (a + q)) p ≡ held (bytes_at u.mem a len) p
string_field u a len p st = field_at u a len p st ∙ sym (get_or-bytes_at u.mem a len p)

-- The field that `strncpy` fills.
pub field_byte :
    (u : User) (a len n p : ℕ)
    → IsString u a len
    → p < n
    → strncpy (λ q. 0) (λ q. u.mem (a + q)) n (0 + p) ≡ held (bytes_at u.mem a len) p
field_byte u a len n p st lt =
    let e : 0 + p ≡ p = omega arith in
    let test : ltb p n ≡ true = ground arith in
    rw e (strncpy-padded (λ q. 0) (λ q. u.mem (a + q)) n p ∙ rw test (string_field u a len p st))
