-- ===== src/Print/Examples.antt =====
-- The number -7.
use os_fcfs_prirority.Base.{ℕ, ◌-◌, ◌^◌, ◌≡◌, refl, true, false, [], ◌∷◌}
use os_fcfs_prirority.Print.{put_digits, put_back, fill_buf, printint}

abbrev minus_seven : ℕ
minus_seven = 2 ^ 32 - 7

abbrev page : ℕ → ℕ
page i = 99

seven_printed : printint 7 10 false page ≡ b'7' ∷ []
unfolding printint fill_buf put_digits put_back
seven_printed = refl

minus_seven_printed : printint minus_seven 10 true page ≡ b'-' ∷ b'7' ∷ []
unfolding printint fill_buf put_digits put_back
minus_seven_printed = refl
