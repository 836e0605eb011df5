-- ===== src/Fs/Bits.antt =====
-- The bits of a byte, as fs.c handles them with `m = 1 << k`.
use os_fcfs_prirority.Base.{
  ℕ, zero, suc, ◌+◌, ◌*◌, ◌/◌, ◌%◌, ◌≡◌, ◌∙◌, Bool, not, ◌&&◌, ◌||◌, arith, ◌==◌,
}

-- `(x & m) != 0`.
unfoldable pub has_bit : ℕ → ℕ → Bool
has_bit x zero = x % 2 == 1
has_bit x (suc k) = has_bit (x / 2) k

-- `x | m`.
unfoldable pub set_bit : ℕ → ℕ → ℕ
set_bit x zero = x / 2 * 2 + 1
set_bit x (suc k) = set_bit (x / 2) k * 2 + x % 2

-- `x & ~m`.
unfoldable pub clear_bit : ℕ → ℕ → ℕ
clear_bit x zero = x / 2 * 2
clear_bit x (suc k) = clear_bit (x / 2) k * 2 + x % 2

pub has_bit-set_bit : (x k j : ℕ) → has_bit (set_bit x k) j ≡ (k == j || has_bit x j)
unfolding has_bit set_bit
has_bit-set_bit x zero zero = ground arith
has_bit-set_bit x zero (suc j) =
    let e : (x / 2 * 2 + 1) / 2 ≡ x / 2 = omega arith in rw e (ground arith)
has_bit-set_bit x (suc k) zero = ground arith
has_bit-set_bit x (suc k) (suc j) =
    let e : (set_bit (x / 2) k * 2 + x % 2) / 2 ≡ set_bit (x / 2) k = omega arith in
    rw e (has_bit-set_bit (x / 2) k j ∙ ground arith)

pub has_bit-clear_bit : (x k j : ℕ) → has_bit (clear_bit x k) j ≡ (not (k == j) && has_bit x j)
unfolding has_bit clear_bit
has_bit-clear_bit x zero zero = ground arith
has_bit-clear_bit x zero (suc j) =
    let e : x / 2 * 2 / 2 ≡ x / 2 = omega arith in rw e (ground arith)
has_bit-clear_bit x (suc k) zero = ground arith
has_bit-clear_bit x (suc k) (suc j) =
    let e : (clear_bit (x / 2) k * 2 + x % 2) / 2 ≡ clear_bit (x / 2) k = omega arith in
    rw e (has_bit-clear_bit (x / 2) k j ∙ ground arith)
