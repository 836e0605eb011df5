-- ===== src/Base/Tables.antt =====
-- A fixed array of structs as a total function on its indices.
use Prim.Native.Nat.{ℕ, zero, suc}
use mathlib.Core.Path.{◌≡◌, refl}
use mathlib.Core.Logic.{◌≢◌}
use mathlib.Core.List.{List, [], ◌∷◌}
use native.Mathlib.Omega.{arith}
use os_fcfs_prirority.Base.Tests.{◌==◌, if◌then◌else◌}

module _ {ℓ} {A : Type ℓ} where
  -- `t[i] = v`.
  abbrev pub update : (ℕ → A) → ℕ → A → ℕ → A
  update t i v j = if i == j then v else t j

  pub update_self : (t : ℕ → A) (i : ℕ) (v : A) → update t i v i ≡ v
  update_self t i v = ground arith

  pub update_ne : (t : ℕ → A) (i : ℕ) (v : A) (j : ℕ) → i ≢ j → update t i v j ≡ t j
  update_ne t i v j h = ground arith

  abbrev pub length : List A → ℕ
  length [] = 0
  length (x ∷ xs) = suc (length xs)

  abbrev pub get_or : List A → ℕ → A → A
  get_or [] i d = d
  get_or (x ∷ xs) zero d = x
  get_or (x ∷ xs) (suc i) d = get_or xs i d

  abbrev pub take : ℕ → List A → List A
  take zero xs = []
  take (suc n) [] = []
  take (suc n) (x ∷ xs) = x ∷ take n xs

  abbrev pub drop : ℕ → List A → List A
  drop zero xs = xs
  drop (suc n) [] = []
  drop (suc n) (x ∷ xs) = drop n xs

  pub take-nil : (n : ℕ) → ◌≡◌ {A = List A} (take n []) []
  take-nil zero = refl
  take-nil (suc n) = refl

  pub drop-nil : (n : ℕ) → ◌≡◌ {A = List A} (drop n []) []
  drop-nil zero = refl
  drop-nil (suc n) = refl

-- The `n` bytes of an array from offset `i` on.
abbrev pub bytes_at : (ℕ → ℕ) → ℕ → ℕ → List ℕ
bytes_at src i zero = []
bytes_at src i (suc n) = src i ∷ bytes_at src (suc i) n
