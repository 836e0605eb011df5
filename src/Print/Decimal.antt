-- ===== src/Print/Decimal.antt =====
-- What `printint` prints in base 10 is read back by `atoi`.
use os_fcfs_prirority.Base.{
  ℕ, zero, suc, ◌+◌, ◌-◌, ◌*◌, ◌/◌, ◌%◌, ◌≤◌, Bool, List, [], ◌∷◌, ◌++◌, u32, sub32, ◌==◌,
  if◌then◌else◌,
}
use os_fcfs_prirority.Print.{digit, is_negative}

-- The digits of a number, the highest first.
digits_of : ℕ → ℕ → ℕ → List ℕ
digits_of zero base x = []
digits_of (suc fuel) base x =
    let more = digits_of fuel base (x / base) in
    (if x / base == 0 then [] else more) ++ (digit (x % base) ∷ [])

-- `atoi` as a function of the text.
reads : ℕ → List ℕ → ℕ
reads n [] = n
reads n (c ∷ cs) = reads (u32 (n * 10 + c - b'0')) cs

abbrev ten_to : ℕ → ℕ
ten_to zero = 1
ten_to (suc n) = 10 * ten_to n

-- Digits only.
abbrev pub IsNumber : List ℕ → Type 0
IsNumber [] = Unit {0}
IsNumber (c ∷ cs) = (b'0' ≤ c) × (c ≤ b'9') × IsNumber cs

-- What is printed without its sign.
abbrev pub magnitude : Bool → ℕ → ℕ
magnitude sign xx = if is_negative sign xx then sub32 0 xx else xx
