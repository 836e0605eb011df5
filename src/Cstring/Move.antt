-- ===== src/Cstring/Move.antt =====
-- `memmove` and `memcmp`.
use os_fcfs_prirority.Base.{
  ℕ, zero, suc, ◌+◌, ◌-◌, ◌≤◌, ◌<◌, ◌≡◌, ◌≢◌, ◌↔◌, ◌⊎◌, ap, refl, ◌∙◌, true, false, ◌&&◌, update,
  ltb, leb, sub32, arith, ◌==◌, if◌then◌else◌, Bool-cases, subst, inl, inr,
}
use os_fcfs_prirority.Cstring.{move_down, move_up, memmove, memcmp_from, memcmp}

-- The bytes that `n` bytes at `s`, copied to `d`, leave in memory `m`.
abbrev pub moved : ℕ → ℕ → ℕ → (ℕ → ℕ) → ℕ → ℕ
moved n d s m a = if leb d a && ltb a (d + n) then m (s + (a - d)) else m a

move_down-moved : (n d s : ℕ) (m : ℕ → ℕ) (a : ℕ) → s < d → move_down n d s m a ≡ moved n d s m a
unfolding move_down
move_down-moved zero d s m a lt = ground arith
move_down-moved (suc n) d s m a lt =
    move_down-moved n d s (update m (d + n) (m (s + n))) a lt
    ∙ elim (Bool-cases (leb d a && ltb a (d + n))) [
      | inl early ↦
          let other : (d + n == s + (a - d)) ≡ false = ground arith in
          let inside : (leb d a && ltb a (d + suc n)) ≡ true = ground arith in
          rw (early, other, inside) refl
      | inr not_early ↦ elim (Bool-cases (d + n == a)) [
        | inl last ↦
            let inside : (leb d a && ltb a (d + suc n)) ≡ true = ground arith in
            let at : s + n ≡ s + (a - d) = ground arith in rw (not_early, last, inside) (ap m at)
        | inr other ↦
            let out : (leb d a && ltb a (d + suc n)) ≡ false = ground arith in
            rw (not_early, other, out) refl
      ]
    ]

move_up-moved :
    (n d s : ℕ) (m : ℕ → ℕ) (a : ℕ) → (d ≤ s) ⊎ (s + n ≤ d) → move_up n d s m a ≡ moved n d s m a
unfolding move_up
move_up-moved zero d s m a h = ground arith
move_up-moved (suc n) d s m a h =
    move_up-moved n (suc d) (suc s) (update m d (m s)) a (later h)
    ∙ elim (Bool-cases (leb (suc d) a && ltb a (suc d + n))) [
      | inl late ↦
          let other : (d == suc s + (a - suc d)) ≡ false = ground arith in
          let inside : (leb d a && ltb a (d + suc n)) ≡ true = ground arith in
          let at : suc s + (a - suc d) ≡ s + (a - d) = ground arith in
          rw (late, other, inside) (ap m at)
      | inr not_late ↦ elim (Bool-cases (d == a)) [
        | inl now ↦
            let inside : (leb d a && ltb a (d + suc n)) ≡ true = ground arith in
            let at : s ≡ s + (a - d) = ground arith in rw (not_late, now, inside) (ap m at)
        | inr other ↦
            let out : (leb d a && ltb a (d + suc n)) ≡ false = ground arith in
            rw (not_late, other, out) refl
      ]
    ]
  where
    later : (d ≤ s) ⊎ (s + suc n ≤ d) → (suc d ≤ suc s) ⊎ (suc s + n ≤ suc d)
    later (inl le) = inl (omega arith)
    later (inr gt) = inr (omega arith)

-- `memmove` copies as if through another buffer: where the two ranges overlap too, each byte of the
-- destination is the one that the source had, and no other byte is changed.
pub memmove_lem :
    (m : ℕ → ℕ) (dst src n a : ℕ)
    → memmove m dst src n a ≡ (if leb dst a && ltb a (dst + n) then m (src + (a - dst)) else m a)
unfolding memmove
memmove_lem m dst src n a = elim (Bool-cases (ltb src dst && ltb dst (src + n))) [
  | inl down ↦ rw down (move_down-moved n dst src m a (ground arith))
  | inr up ↦ rw up (move_up-moved n dst src m a (ground arith))
]

pub sub_ne : (a b : ℕ) → a < 256 → b < 256 → a ≢ b → sub32 a b ≢ 0
sub_ne a b ha hb ne = ground arith

ne_all : (a b : ℕ) → (a == b) ≡ false → a ≢ b
ne_all a b h = ground arith

memcmp_from_iff :
    (n i : ℕ) (s t : ℕ → ℕ)
    → ((k : ℕ) → s k < 256)
    → ((k : ℕ) → t k < 256)
    → (memcmp_from n i s t ≡ 0) ↔ ((k : ℕ) → i ≤ k → k < i + n → s k ≡ t k)
unfolding memcmp_from
memcmp_from_iff zero i s t hs ht = (λ e k lo hi. absurd (omega arith), λ all. refl)
memcmp_from_iff (suc n) i s t hs ht =
    let rest = memcmp_from_iff n (suc i) s t hs ht in
    elim (Bool-cases (s i == t i)) [
      | inl same ↦ (
        λ e k lo hi. elim (Bool-cases (i == k)) [
          | inl here ↦ let at : i ≡ k = ground arith in subst (λ j. s j ≡ t j) at (ground arith)
          | inr other ↦ rest.0 (rw same at e) k (ground arith) (omega arith)
        ],
        λ all. rw same (rest.1 (λ k lo hi. all k (omega arith) (omega arith))),
      )
      | inr differ ↦ (
        λ e. absurd (sub_ne (s i) (t i) (hs i) (ht i) (ground arith) (rw differ at e)),
        λ all. absurd (ne_all (s i) (t i) differ (all i (omega arith) (omega arith))),
      )
    ]

-- `memcmp` is 0 exactly when the two arrays of bytes agree up to `n`.
pub memcmp_iff :
    (s t : ℕ → ℕ) (n : ℕ)
    → ((k : ℕ) → s k < 256)
    → ((k : ℕ) → t k < 256)
    → (memcmp s t n ≡ 0) ↔ ((k : ℕ) → 0 ≤ k → k < 0 + n → s k ≡ t k)
unfolding memcmp
memcmp_iff s t n hs ht = memcmp_from_iff n 0 s t hs ht
