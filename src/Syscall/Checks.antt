-- ===== src/Syscall/Checks.antt =====
-- What the checks of the arguments let pass.
use os_fcfs_prirority.Base.{
  ℕ, ◌+◌, ◌-◌, ◌*◌, ◌^◌, ◌≤◌, ◌<◌, ◌≡◌, ◌≢◌, ◌↔◌, inl, inr, refl, ap, ◌∙◌, subst, Bool, false, ◌||◌,
  some, Option-cases, Bool-cases, some_inj, first, first-some, first-none, u32, signed_ltb, arith,
  ltb, leb, ◌==◌,
}
use os_fcfs_prirority.Kalloc.{kernbase}
use os_fcfs_prirority.Syscall.{User, int_at, fetchint, fetchstr, argint, argptr, argstr}

-- The memory of a process is below the kernel, and of bytes.
pub record IsUser (u : User) : Type 0 where
  pub below : u.sz ≤ kernbase
  pub bytes : (a : ℕ) → u.mem a < 256

int_fits : (u : User) (a : ℕ) → IsUser u → int_at u.mem a < 2 ^ 32
int_fits u a h = omega (arith, h.bytes a, h.bytes (a + 1), h.bytes (a + 2), h.bytes (a + 3))

argint_fits : (u : User) (n a : ℕ) → IsUser u → argint u n ≡ some a → a < 2 ^ 32
unfolding argint fetchint
argint_fits u n a h e =
    let addr = u32 (u.esp + 4 + 4 * n) in
    elim (Bool-cases (leb u.sz addr || ltb u.sz (u32 (addr + 4)))) [
      | inl out ↦ cc (rw out at e)
      | inr here ↦ subst (λ v. v < 2 ^ 32) (some_inj (rw here at e)) (int_fits u addr h)
    ]

-- The test of `argptr` does not go wrong at a sum that wraps.
abbrev refused_ptr : User → ℕ → ℕ → Bool
refused_ptr u size i = signed_ltb size 0 || (leb u.sz i || ltb u.sz (u32 (i + size)))

accepted_ptr :
    (u : User) (size a : ℕ)
    → IsUser u
    → size < 2 ^ 32
    → refused_ptr u size a ≡ false
    → (size < 2 ^ 31) × (a < u.sz) × (a + size ≤ u.sz)
accepted_ptr u size a h fits e =
    let small : size < 2 ^ 31 = ground arith in
    let low : a < u.sz = ground arith in
    let exact : u32 (a + size) ≡ a + size = omega (arith, h.below) in (small, low, ground arith)

unrefused_ptr :
    (u : User) (size a : ℕ)
    → IsUser u
    → size < 2 ^ 31
    → a < u.sz
    → a + size ≤ u.sz
    → refused_ptr u size a ≡ false
unrefused_ptr u size a h small low inside =
    let exact : u32 (a + size) ≡ a + size = omega (arith, h.below) in
    let pos : signed_ltb size 0 ≡ false = ground arith in rw (pos, exact) (ground arith)

argptr-inside :
    (u : User) (n size a : ℕ)
    → IsUser u
    → size < 2 ^ 32
    → argptr u n size ≡ some a
    → (argint u n ≡ some a) × (size < 2 ^ 31) × (a < u.sz) × (a + size ≤ u.sz)
unfolding argptr
argptr-inside u n size a h fits e = elim (Option-cases (argint u n)) [
  | inl gone ↦ cc (rw (argptr, gone) at e)
  | inr (i, q) ↦ elim (Bool-cases (refused_ptr u size i)) [
    | inl bad ↦ cc (rw (argptr, q, bad) at e)
    | inr ok ↦
        let here = some_inj (rw (argptr, q, ok) at e) in
        let (small, low, inside) = accepted_ptr u size a h fits (rw (← here) ok) in
        (q ∙ ap some here, small, low, inside)
  ]
]

-- `argptr` returns the argument exactly when it is a pointer to `size` bytes, not a negative number,
-- that starts in the memory of the process and lies in it to its end.
pub argptr-some_iff :
    (u : User) (n size a : ℕ)
    → IsUser u
    → size < 2 ^ 32
    → (argptr u n size ≡ some a)
      ↔ ((argint u n ≡ some a) × (size < 2 ^ 31) × (a < u.sz) × (a + size ≤ u.sz))
unfolding argptr
argptr-some_iff u n size a h fits = (
  argptr-inside u n size a h fits,
  λ (q, small, low, inside). rw (argptr, q, unrefused_ptr u size a h small low inside) refl,
)

-- A string of `len` bytes, and its NUL, in the memory of the process.
pub record IsString (u : User) (a len : ℕ) : Type 0 where
  pub inside : a + len < u.sz
  pub ended : u.mem (a + len) ≡ 0
  pub body : (i : ℕ) → i < len → u.mem (a + i) ≢ 0

fetchstr-IsString :
    (u : User) (addr a len : ℕ) → fetchstr u addr ≡ some (a, len) → (addr ≡ a) × IsString u a len
unfolding fetchstr
fetchstr-IsString u addr a len e = elim (Bool-cases (leb u.sz addr)) [
  | inl out ↦ cc (rw out at e)
  | inr here ↦ elim (Option-cases (first (λ s. u.mem s == 0) (u.sz - addr) addr)) [
    | inl none_there ↦ cc (rw (here, none_there) at e)
    | inr (s, q) ↦
        let f = first-some (λ s. u.mem s == 0) (u.sz - addr) addr s q in
        let pair : (addr, s - addr) ≡ (a, len) = some_inj (rw (here, q) at e) in
        let at_a : addr ≡ a = ap (λ t. t.0) pair in
        let at_len : s - addr ≡ len = ap (λ t. t.1) pair in
        let at_end : a + len ≡ s = omega (arith, f.above) in
        (
          at_a,
          record {
            inside = ground (arith, f.below);
            ended = rw at_end (ground (arith, f.hit));
            body = λ i lt z.
                let miss = f.misses (a + i) (omega arith) (omega arith) in
                absurd (ground (arith, miss));
          },
        )
  ]
]

string-first :
    (u : User) (a len : ℕ)
    → IsString u a len
    → first (λ s. u.mem s == 0) (u.sz - a) a ≡ some (a + len)
string-first u a len st = elim (Option-cases (first (λ s. u.mem s == 0) (u.sz - a) a)) [
  | inl gone ↦
      let miss =
        first-none (λ s. u.mem s == 0) (u.sz - a) a gone (a + len) (omega arith)
          (omega (arith, st.inside)) in
      absurd (ground (arith, miss, st.ended))
  | inr (s, q) ↦
      let f = first-some (λ s. u.mem s == 0) (u.sz - a) a s q in
      let le : s ≤ a + len = elim (Bool-cases (leb s (a + len))) [
        | inl le ↦ ground arith
        | inr later ↦
            let miss = f.misses (a + len) (omega arith) (ground arith) in
            absurd (ground (arith, miss, st.ended))
      ] in
      let ge : a + len ≤ s = elim (Bool-cases (leb (a + len) s)) [
        | inl ge ↦ ground arith
        | inr sooner ↦
            let at : a + (s - a) ≡ s = omega (arith, f.above) in
            absurd (st.body (s - a) (ground arith) (rw at (ground (arith, f.hit))))
      ] in
      let e : s ≡ a + len = omega arith in q ∙ ap some e
]

argstr-IsString :
    (u : User) (n a len : ℕ) → argstr u n ≡ some (a, len) → (argint u n ≡ some a) × IsString u a len
unfolding argstr
argstr-IsString u n a len e = elim (Option-cases (argint u n)) [
  | inl gone ↦ cc (rw (argstr, gone) at e)
  | inr (i, q) ↦
      let (at, st) = fetchstr-IsString u i a len (rw (argstr, q) at e) in (q ∙ ap some at, st)
]

-- `argstr` returns a pointer and a length exactly when the argument is the pointer, and a string of
-- that length and its NUL lie there in the memory of the process.
pub argstr-some_iff :
    (u : User) (n a len : ℕ)
    → (argstr u n ≡ some (a, len)) ↔ ((argint u n ≡ some a) × IsString u a len)
unfolding argstr fetchstr
argstr-some_iff u n a len = (
  argstr-IsString u n a len,
  λ (q, st).
      let low : leb u.sz a ≡ false = ground (arith, st.inside) in
      let at : a + len - a ≡ len = omega arith in
      rw (argstr, q, fetchstr, low, string-first u a len st, at) refl,
)
