-- ===== src/Spin/Calls.antt =====
-- The calls on a lock, as a processor sees them.
use os_fcfs_prirority.Base.{
  ℕ, ◌+◌, ◌-◌, ◌<◌, ◌≡◌, inl, inr, refl, sym, ap, ◌∙◌, subst, Bool, true, false, ◌&&◌, none, some,
  some_inj, Bool-cases, points_to, arith, ◌==◌, if◌then◌else◌,
}
use os_fcfs_prirority.Spin.{
  Cpu, Spinlock, pushcli, popcli, holding, begin_acquire, begin_release, end_release,
}
use os_fcfs_prirority.Spin.Nest.{IsQuiet, popcli-pushcli}

-- The calls on the processor's own fields, where interrupts are off inside a pair.
holding_lem :
    (lk : Spinlock) (me : ℕ) (c : Cpu)
    → IsQuiet c
    → (c' : Cpu) × (holding lk me c ≡ some (lk.locked && points_to lk.cpu me, c'))
      × (c'.ncli ≡ c.ncli)
      × IsQuiet c'
unfolding holding
holding_lem lk me c h =
    let c' : Cpu = record c { intena = if c.ncli == 0 then c.enabled else c.intena } in
    (c', rw (holding, popcli-pushcli c h) refl, refl, record { quiet = h.quiet })

pub begin_acquire_lem :
    (lk : Spinlock) (me : ℕ) (c : Cpu)
    → (c' : Cpu) × (begin_acquire lk me c
        ≡ (if lk.locked && points_to lk.cpu me then none else some c'))
      × (c'.ncli ≡ c.ncli + 1)
      × IsQuiet c'
unfolding begin_acquire pushcli
begin_acquire_lem lk me c =
    let (c', e, depth, q) = holding_lem lk me (pushcli c) (record { quiet = λ lt. refl }) in
    (c', rw (begin_acquire, e) refl, depth, q)

pub begin_release_lem :
    (lk : Spinlock) (me : ℕ) (c : Cpu)
    → IsQuiet c
    → (c' : Cpu) × (begin_release lk me c
        ≡ (if lk.locked && points_to lk.cpu me then some (record lk { cpu = none }, c') else none))
      × (c'.ncli ≡ c.ncli)
      × IsQuiet c'
unfolding begin_release
begin_release_lem lk me c h =
    let (c', e, depth, q) = holding_lem lk me c h in (c', rw (begin_release, e) refl, depth, q)

popcli_of :
    (n : ℕ) (i e : Bool)
    → e ≡ false
    → 0 < n
    → popcli (record { ncli = n; intena = i; enabled = e })
      ≡ some (record { ncli = n - 1; intena = i; enabled = if n - 1 == 0 && i then true else e })
unfolding popcli
popcli_of n i true off lt = cc
popcli_of n i false off lt = let deep : (n == 0) ≡ false = ground arith in rw deep refl

pub popcli_lem :
    (c : Cpu)
    → IsQuiet c
    → 0 < c.ncli
    → (c' : Cpu) × (popcli c ≡ some c') × (c'.ncli ≡ c.ncli - 1) × IsQuiet c'
popcli_lem c h lt =
    let off = h.quiet lt in
    let c' : Cpu = record c {
      ncli = c.ncli - 1;
      enabled = if c.ncli - 1 == 0 && c.intena then true else c.enabled;
    } in
    (c', popcli_of c.ncli c.intena c.enabled off lt, refl, record { quiet = λ lq. ground arith })

-- What a call that has returned has done.
pub begin_acquire_returned :
    (lk : Spinlock) (me : ℕ) (c c' : Cpu)
    → begin_acquire lk me c ≡ some c'
    → (c'.ncli ≡ c.ncli + 1) × IsQuiet c'
begin_acquire_returned lk me c c' e =
    let (c1, said, depth, q) = begin_acquire_lem lk me c in
    elim (Bool-cases (lk.locked && points_to lk.cpu me)) [
      | inl held ↦ cc (rw held at (sym said ∙ e))
      | inr not_held ↦
          subst (λ (d : Cpu). (d.ncli ≡ c.ncli + 1) × IsQuiet d)
            (some_inj (rw not_held at (sym said ∙ e))) (depth, q)
    ]

pub begin_release_returned :
    (lk lk' : Spinlock) (me : ℕ) (c c' : Cpu)
    → IsQuiet c
    → begin_release lk me c ≡ some (lk', c')
    → (lk' ≡ record lk { cpu = none }) × (c'.ncli ≡ c.ncli) × IsQuiet c'
begin_release_returned lk lk' me c c' h e =
    let (c1, said, depth, q) = begin_release_lem lk me c h in
    elim (Bool-cases (lk.locked && points_to lk.cpu me)) [
      | inr not_held ↦ cc (rw not_held at (sym said ∙ e))
      | inl held ↦
          let same = some_inj (rw held at (sym said ∙ e)) in
          (
            sym (ap (λ r. r.0) same),
            sym (ap (λ (r : Spinlock × Cpu). r.1.ncli) same) ∙ depth,
            subst (λ (r : Spinlock × Cpu). IsQuiet r.1) same q,
          )
    ]

pub popcli_returned :
    (c c' : Cpu) → IsQuiet c → 0 < c.ncli → popcli c ≡ some c' → (c'.ncli ≡ c.ncli - 1) × IsQuiet c'
popcli_returned c c' h lt e =
    let (c1, said, depth, q) = popcli_lem c h lt in
    subst (λ (d : Cpu). (d.ncli ≡ c.ncli - 1) × IsQuiet d) (some_inj (sym said ∙ e)) (depth, q)

pub end_release_returned :
    (lk lk' : Spinlock) (c c' : Cpu)
    → IsQuiet c
    → 0 < c.ncli
    → end_release lk c ≡ some (lk', c')
    → (lk' ≡ record lk { locked = false }) × (c'.ncli ≡ c.ncli - 1) × IsQuiet c'
unfolding end_release
end_release_returned lk lk' c c' h lt e =
    let (c1, said, depth, q) = popcli_lem c h lt in
    let same = some_inj (rw (end_release, said) at e) in
    (
      sym (ap (λ r. r.0) same),
      sym (ap (λ (r : Spinlock × Cpu). r.1.ncli) same) ∙ depth,
      subst (λ (r : Spinlock × Cpu). IsQuiet r.1) same q,
    )
