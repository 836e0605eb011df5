-- ===== src/Cstring/Examples.antt =====
-- Overlapping moves, and names.
use os_fcfs_prirority.Base.{ℕ, ◌+◌, ◌-◌, ◌*◌, ◌^◌, ◌≡◌, refl, ◌&&◌, leb, ltb, ◌==◌, if◌then◌else◌}
use os_fcfs_prirority.Cstring.{
  memmove, move_down, move_up, strncpy, strncpy_from, pad_from, strncmp, strncmp_from, memcmp,
  memcmp_from,
}
use os_fcfs_prirority.Cstring.Move.{memmove_lem}

abbrev squares : ℕ → ℕ
squares a = 10 * a

-- Five bytes are moved up by two, and down by two.
memmove_runs : (memmove squares 4 2 5 8 ≡ 60) × (memmove squares 2 4 5 2 ≡ 40)
unfolding memmove move_down move_up
memmove_runs = (refl, refl)

memmove_lem_example :
    memmove squares 4 2 5 8
    ≡ (if leb 4 8 && ltb 8 (4 + 5) then squares (2 + (8 - 4)) else squares 8)
memmove_lem_example = memmove_lem squares 4 2 5 8

strncpy_runs :
    (strncpy (λ i. 7) (λ i. if i == 1 then 0 else 65) 4 3 ≡ 0)
    × (strncmp (λ i. 65) (λ i. if i == 1 then 0 else 65) 1 ≡ 0)
unfolding strncpy strncpy_from pad_from strncmp strncmp_from
strncpy_runs = (refl, refl)

memcmp_runs : memcmp (λ i. 65) (λ i. 66) 3 ≡ 2 ^ 32 - 1
unfolding memcmp memcmp_from
memcmp_runs = refl
