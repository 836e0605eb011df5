-- ===== src/Cstring/Names.antt =====
-- `strncpy` and `strncmp`: names that may fill their field.
use os_fcfs_prirority.Base.{
  ℕ, zero, suc, ◌+◌, ◌-◌, ◌≤◌, ◌<◌, ◌≡◌, ◌↔◌, inl, inr, subst, sym, refl, ◌∙◌, Bool, true, false,
  not, ◌&&◌, ◌||◌, update, ltb, leb, sub32, arith, ◌==◌, if◌then◌else◌, Bool-cases,
}
use os_fcfs_prirority.Cstring.{pad_from, strncpy_from, strncpy, strncmp_from, strncmp}
use os_fcfs_prirority.Cstring.Move.{sub_ne}

-- Whether the string ends before offset `i`.
abbrev pub ended : (ℕ → ℕ) → ℕ → Bool
ended t zero = false
ended t (suc i) = ended t i || t i == 0

-- The string with NULs after its end.
abbrev pub padded : (ℕ → ℕ) → ℕ → ℕ
padded t i = if ended t i then 0 else t i

ended-later : (t : ℕ → ℕ) (i d : ℕ) → ended t i ≡ true → ended t (i + d) ≡ true
ended-later t i zero h = let e : i + 0 ≡ i = omega arith in rw e h
ended-later t i (suc d) h =
    let e : i + suc d ≡ suc (i + d) = omega arith in rw e (ground (arith, ended-later t i d h))

ended_after : (t : ℕ → ℕ) (i k : ℕ) → ended t i ≡ true → i ≤ k → ended t k ≡ true
ended_after t i k h le =
    let e : i + (k - i) ≡ k = omega arith in
    subst (λ j. ended t j ≡ true) e (ended-later t i (k - i) h)

pad_from-at :
    (n i : ℕ) (s : ℕ → ℕ) (k : ℕ) → pad_from n i s k ≡ (if leb i k && ltb k (i + n) then 0 else s k)
unfolding pad_from
pad_from-at zero i s k = ground arith
pad_from-at (suc n) i s k = ground (arith, pad_from-at n (suc i) (update s i 0) k)

pub over_pad : (t : ℕ → ℕ) (i k : ℕ) → ended t (suc i) ≡ true → i < k → padded t k ≡ 0
over_pad t i k over lt = let e = ended_after t (suc i) k over (omega arith) in rw e refl

-- The byte that a round writes, and those after it.
step_more :
    (n i : ℕ) (s t : ℕ → ℕ) (k : ℕ)
    → ended t i ≡ false
    → (if leb (suc i) k && ltb k (suc i + n) then padded t k else update s i (t i) k)
      ≡ (if leb i k && ltb k (i + suc n) then padded t k else s k)
step_more n i s t k h = elim (Bool-cases (i == k)) [
  | inl here ↦
      let at : i ≡ k = ground arith in
      let late : (leb (suc i) k && ltb k (suc i + n)) ≡ false = ground arith in
      let inside : (leb i k && ltb k (i + suc n)) ≡ true = ground arith in
      let now : padded t k ≡ t i = subst (λ j. padded t j ≡ t i) at (rw h refl) in
      rw (late, here, inside) (sym now)
  | inr other ↦
      let same : (leb (suc i) k && ltb k (suc i + n)) ≡ (leb i k && ltb k (i + suc n)) =
        ground arith in
      rw (same, other) refl
]

step_at :
    (n i : ℕ) (s t : ℕ → ℕ) (k : ℕ)
    → ended t i ≡ false
    → (i < k → 0 ≡ padded t k)
    → (if leb (suc i) k && ltb k (suc i + n) then 0 else update s i (t i) k)
      ≡ (if leb i k && ltb k (i + suc n) then padded t k else s k)
step_at n i s t k h zeros = elim (Bool-cases (leb (suc i) k && ltb k (suc i + n))) [
  | inl late ↦
      let inside : (leb i k && ltb k (i + suc n)) ≡ true = ground arith in
      rw (late, inside) (zeros (ground arith))
  | inr not_late ↦ rw not_late (rw not_late at (step_more n i s t k h))
]

strncpy_from-at :
    (n i : ℕ) (s t : ℕ → ℕ) (k : ℕ)
    → ended t i ≡ false
    → strncpy_from n i s t k ≡ (if leb i k && ltb k (i + n) then padded t k else s k)
unfolding strncpy_from
strncpy_from-at zero i s t k h = ground arith
strncpy_from-at (suc n) i s t k h = elim (Bool-cases (t i == 0)) [
  | inl nul ↦
      let over : ended t (suc i) ≡ true = ground arith in
      rw nul (
        pad_from-at n (suc i) (update s i (t i)) k
        ∙ step_at n i s t k h (λ lt. sym (over_pad t i k over lt)))
  | inr more ↦
      let going : ended t (suc i) ≡ false = ground arith in
      rw more (strncpy_from-at n (suc i) (update s i (t i)) t k going ∙ step_more n i s t k h)
]

-- `strncpy` fills the field with the name and NULs, and writes nothing after it.
pub strncpy-padded :
    (s t : ℕ → ℕ) (n k : ℕ) → strncpy s t n k ≡ (if ltb k n then padded t k else s k)
unfolding strncpy
strncpy-padded s t n k = strncpy_from-at n 0 s t k refl ∙ ground arith

stopped_zero :
    (a b : ℕ)
    → a < 256
    → b < 256
    → (not (a == 0) && a == b) ≡ false
    → sub32 a b ≡ 0
    → (a ≡ 0) × (b ≡ 0)
stopped_zero a b ha hb stop e = (ground (arith, sub_ne a b), ground (arith, sub_ne a b))

stopped_same : (a b : ℕ) → a ≡ b → (not (a == 0) && a == b) ≡ false → sub32 a b ≡ 0
stopped_same a b e stop = ground arith

both_ended :
    (p q : ℕ → ℕ) (i k : ℕ)
    → ended p i ≡ false
    → ended q i ≡ false
    → (p i ≡ 0) × (q i ≡ 0)
    → i ≤ k
    → padded p k ≡ padded q k
both_ended p q i k np nq (ep, eq) lo = elim (Bool-cases (i == k)) [
  | inl here ↦
      let at : i ≡ k = ground arith in
      subst (λ j. padded p j ≡ padded q j) at (rw (np, nq) (ep ∙ sym eq))
  | inr other ↦
      over_pad p i k (ground arith) (ground arith)
      ∙ sym (over_pad q i k (ground arith) (ground arith))
]

strncmp_from_iff :
    (n i : ℕ) (p q : ℕ → ℕ)
    → ((k : ℕ) → p k < 256)
    → ((k : ℕ) → q k < 256)
    → ended p i ≡ false
    → ended q i ≡ false
    → (strncmp_from n i p q ≡ 0) ↔ ((k : ℕ) → i ≤ k → k < i + n → padded p k ≡ padded q k)
unfolding strncmp_from
strncmp_from_iff zero i p q hp hq np nq = (λ e k lo hi. absurd (omega arith), λ all. refl)
strncmp_from_iff (suc n) i p q hp hq np nq = elim (Bool-cases (not (p i == 0) && p i == q i)) [
  | inl on ↦
      let rest = strncmp_from_iff n (suc i) p q hp hq (ground arith) (ground arith) in
      (
        λ e k lo hi. elim (Bool-cases (i == k)) [
          | inl here ↦
              let at : i ≡ k = ground arith in
              subst (λ j. padded p j ≡ padded q j) at (rw (np, nq) (ground arith))
          | inr other ↦ rest.0 (rw on at e) k (ground arith) (omega arith)
        ],
        λ all. rw on (rest.1 (λ k lo hi. all k (omega arith) (omega arith))),
      )
  | inr stop ↦ (
    λ e k lo hi.
        both_ended p q i k np nq (stopped_zero (p i) (q i) (hp i) (hq i) stop (rw stop at e)) lo,
    λ all.
        rw stop
          (stopped_same (p i) (q i) (rw (np, nq) at (all i (omega arith) (omega arith))) stop),
  )
]

-- `strncmp` of arrays of bytes is 0 exactly when the two names, cut off at `n` and padded, agree.
pub strncmp_iff :
    (p q : ℕ → ℕ) (n : ℕ)
    → ((k : ℕ) → p k < 256)
    → ((k : ℕ) → q k < 256)
    → (strncmp p q n ≡ 0) ↔ ((k : ℕ) → k < n → padded p k ≡ padded q k)
unfolding strncmp
strncmp_iff p q n hp hq =
    let all = strncmp_from_iff n 0 p q hp hq refl refl in
    (λ e k lt. all.0 e k (omega arith) (omega arith), λ h. all.1 (λ k lo hi. h k (omega arith)))

ended-padded :
    (t : ℕ → ℕ) (f : ℕ → ℕ) (k : ℕ) → ((j : ℕ) → j < k → f j ≡ padded t j) → ended f k ≡ ended t k
ended-padded t f zero same = refl
ended-padded t f (suc k) same =
    ground (arith, ended-padded t f k (λ j lt. same j (omega arith)), same k (omega arith))

-- Padding a padded name changes nothing.
pub padded_idem :
    (t f : ℕ → ℕ) (n k : ℕ) → ((j : ℕ) → j < n → f j ≡ padded t j) → k < n → padded f k ≡ padded t k
padded_idem t f n k same lt =
    ground (arith, ended-padded t f k (λ j h. same j (omega arith)), same k lt)

strncmp_from-same :
    (n i : ℕ) (p q r : ℕ → ℕ)
    → ((k : ℕ) → i ≤ k → k < i + n → q k ≡ r k)
    → strncmp_from n i p q ≡ strncmp_from n i p r
unfolding strncmp_from
strncmp_from-same zero i p q r same = refl
strncmp_from-same (suc n) i p q r same = ground (
  arith,
  same i (omega arith) (omega arith),
  strncmp_from-same n (suc i) p q r (λ k lo hi. same k (omega arith) (omega arith)),
)

-- Only the first `n` bytes matter.
pub strncmp-same :
    (p q r : ℕ → ℕ) (n : ℕ) → ((k : ℕ) → k < n → q k ≡ r k) → strncmp p q n ≡ strncmp p r n
unfolding strncmp
strncmp-same p q r n same = strncmp_from-same n 0 p q r (λ k lo hi. same k (omega arith))
