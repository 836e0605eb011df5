-- ===== src/Base/Loops.antt =====
-- Counted loops: a search for the first hit, and a loop that updates its state.
use Prim.Native.Nat.{ℕ, zero, suc, ◌+◌, ◌≤◌, ◌<◌}
use mathlib.Core.Path.{◌≡◌}
use mathlib.Core.Logic.{inl, inr}
use mathlib.Core.Bool.{Bool, true, false, ◌&&◌}
use mathlib.Core.Option.{Option, none, some}
use native.Mathlib.Decide.{ℕ_discrete}
use native.Mathlib.Omega.{arith}
use os_fcfs_prirority.Base.Tests.{Bool-cases, ltb, leb, ◌==◌, if◌then◌else◌}

-- `for(k = i; k < i + n; k++) if(test(k)) goto found;`
unfoldable pub first : (ℕ → Bool) → ℕ → ℕ → Option ℕ
first test zero i = none
first test (suc n) i = let rest = first test n (suc i) in if test i then some i else rest

-- What a search that ends at `j` has seen.
pub record IsFirst (test : ℕ → Bool) (i n j : ℕ) : Type 0 where
  pub hit : test j ≡ true
  pub above : i ≤ j
  pub below : j < i + n
  pub misses : (k : ℕ) → i ≤ k → k < j → test k ≡ false

pub first-some : (test : ℕ → Bool) (n i j : ℕ) → first test n i ≡ some j → IsFirst test i n j
unfolding first
first-some test zero i j h = cc
first-some test (suc n) i j h = elim (Bool-cases (test i)) [
  | inl e ↦ here e (ground arith)
  | inr e ↦ later e (first-some test n (suc i) j (rw e at h))
]
  where
    here : test i ≡ true → i ≡ j → IsFirst test i (suc n) j
    here e q = record {
      hit = rw (← q) e;
      above = omega arith;
      below = omega arith;
      misses = λ k lo hi. absurd (omega arith);
    }

    later : test i ≡ false → IsFirst test (suc i) n j → IsFirst test i (suc n) j
    later e f = record {
      hit = f.hit;
      above = omega arith;
      below = omega arith;
      misses = λ k lo hi. elim (ℕ_discrete i k) [
        | yes q ↦ rw (← q) e
        | no q ↦ f.misses k (omega arith) hi
      ];
    }

pub first-none :
    (test : ℕ → Bool) (n i : ℕ)
    → first test n i ≡ none
    → (k : ℕ) → i ≤ k
    → k < i + n
    → test k ≡ false
unfolding first
first-none test zero i h k lo hi = absurd (omega arith)
first-none test (suc n) i h k lo hi = elim (Bool-cases (test i)) [
  | inl e ↦ cc (rw e at h)
  | inr e ↦ elim (ℕ_discrete i k) [
    | yes q ↦ rw (← q) e
    | no q ↦ first-none test n (suc i) (rw e at h) k (omega arith) (omega arith)
  ]
]

-- `for(k = i; k < i + n; k++) s = body(k, s);`
unfoldable pub for_range {ℓ} : {S : Type ℓ} → ℕ → ℕ → (ℕ → S → S) → S → S
for_range zero i body s = s
for_range (suc n) i body s = for_range n (suc i) body (body i s)

-- The invariant rule. The end `j` is a variable with an equation.
pub for_range_inv {ℓ κ} :
    {S : Type ℓ} (P : ℕ → S → Type κ) (body : ℕ → S → S) (j n i : ℕ)
    → i + n ≡ j
    → ((k : ℕ) (s : S) → i ≤ k → k < j → P k s → P (suc k) (body k s))
    → (s : S) → P i s
    → P j (for_range n i body s)
unfolding for_range
for_range_inv P body j zero i e keep s h = let q : i ≡ j = omega arith in rw (← q) h
for_range_inv P body j (suc n) i e keep s h =
    for_range_inv P body j n (suc i) (omega arith) (λ k s' lo hi. keep k s' (omega arith) hi)
      (body i s) (keep i s (omega arith) (omega arith) h)

-- A loop that touches slot `i` alone in round `i` does the same to every slot of its range.
pub each-at {ℓ} :
    {A : Type ℓ} (body : ℕ → (ℕ → A) → ℕ → A) (f : ℕ → A → A)
    → ((i : ℕ) (t : ℕ → A) (k : ℕ) → body i t k ≡ (if i == k then f i (t i) else t k))
    → (n i : ℕ) (t : ℕ → A) (k : ℕ)
    → for_range n i body t k ≡ (if leb i k && ltb k (i + n) then f k (t k) else t k)
unfolding for_range
each-at body f h zero i t k = ground arith
each-at body f h (suc n) i t k = ground (arith, each-at body f h n (suc i) (body i t) k, h i t k)
