-- ===== src/Spin/Nest.antt =====
-- `pushcli` and `popcli` nest.
use os_fcfs_prirority.Base.{
  ℕ, zero, suc, ◌+◌, ◌-◌, ◌≡◌, refl, ◌<◌, ap, ◌∙◌, Bool, true, false, Option, none, some, arith,
  ◌==◌, if◌then◌else◌,
}
use os_fcfs_prirority.Spin.{Cpu, pushcli, popcli}

-- Inside a pair of calls interrupts are off.
pub record IsQuiet (c : Cpu) : Type 0 where
  pub quiet : 0 < c.ncli → c.enabled ≡ false

unfoldable pub pushes : ℕ → Cpu → Cpu
pushes zero c = c
pushes (suc n) c = pushcli (pushes n c)

unfoldable pub pops : ℕ → Cpu → Option Cpu
pops zero c = some c
pops (suc n) c = elim (popcli c) [ none ↦ none | some c' ↦ pops n c' ]

-- One pair of calls, by the fields of the processor.
pair_of :
    (n : ℕ) (i e : Bool)
    → (0 < n → e ≡ false)
    → popcli (pushcli (record { ncli = n; intena = i; enabled = e }))
      ≡ some (record { ncli = n; intena = if n == 0 then e else i; enabled = e })
unfolding popcli pushcli
pair_of zero i true q = refl
pair_of zero i false q = refl
pair_of (suc n) i e q =
    let off : e ≡ false = q (omega arith) in
    let some_left : (suc n == 0) ≡ false = ground arith in
    let one_more : (suc n + 1 == 0) ≡ false = ground arith in
    let back : suc n + 1 - 1 ≡ suc n = omega arith in rw (off, one_more, back, some_left) refl

-- `popcli` after `pushcli` does not panic, and leaves the flag and the depth as they were.
pub popcli-pushcli :
    (c : Cpu)
    → IsQuiet c
    → popcli (pushcli c) ≡ some (record c { intena = if c.ncli == 0 then c.enabled else c.intena })
popcli-pushcli c h = pair_of c.ncli c.intena c.enabled h.quiet

inner_pair : (c : Cpu) → IsQuiet c → 0 < c.ncli → popcli (pushcli c) ≡ some c
inner_pair c h lt =
    let t : (c.ncli == 0) ≡ false = ground arith in
    popcli-pushcli c h ∙ ap (λ b. some (record c { intena = if b then c.enabled else c.intena })) t

pushes-IsQuiet : (n : ℕ) (c : Cpu) → IsQuiet c → IsQuiet (pushes n c)
unfolding pushes pushcli
pushes-IsQuiet zero c h = h
pushes-IsQuiet (suc n) c h = record { quiet = λ lt. refl }

deeper : (n : ℕ) (c : Cpu) → (pushes n c).ncli ≡ c.ncli + n
unfolding pushes pushcli
deeper zero c = omega arith
deeper (suc n) c = omega (arith, deeper n c)

-- After any number of calls of `pushcli`, as many of `popcli` do not panic, and then the depth and the
-- interrupt flag are what they were before; where interrupts are off inside a pair.
pub pops-pushes :
    (n : ℕ) (c : Cpu)
    → IsQuiet c
    → (c' : Cpu) × (pops n (pushes n c) ≡ some c') × (c'.ncli ≡ c.ncli) × (c'.enabled ≡ c.enabled)
unfolding pops pushes
pops-pushes zero c h = (c, refl, refl, refl)
pops-pushes (suc zero) c h = (
  record c { intena = if c.ncli == 0 then c.enabled else c.intena },
  rw (pops, popcli-pushcli c h) refl,
  refl,
  refl,
)
pops-pushes (suc (suc n)) c h =
    let d = pushes (suc n) c in
    let (c', e, depth, flag) = pops-pushes (suc n) c h in
    let inner = inner_pair d (pushes-IsQuiet (suc n) c h) (omega (arith, deeper (suc n) c)) in
    (c', rw (pops, inner) e, depth, flag)
