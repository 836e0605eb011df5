-- ===== src/Cstring.antt =====
-- string.c. A `char` array is a total function from offsets to bytes. The memory of `memmove` is one
-- such function, over addresses; elsewhere source and destination are distinct objects.
pub mod Move
pub mod Names
mod Examples
use os_fcfs_prirority.Base.{
  ℕ, zero, suc, ◌+◌, Bool, not, ◌&&◌, update, ltb, sub32, ◌==◌, if◌then◌else◌,
}

-- The loop `while(--n > 0 && (*s++ = *t++) != 0)` of `safestrcpy` with the final `*s = 0`, entered
-- at offset `i` with `n` bytes of room left, the one for the NUL not counted.
unfoldable pub copy_from : ℕ → ℕ → (ℕ → ℕ) → (ℕ → ℕ) → ℕ → ℕ
copy_from zero i s t = update s i 0
copy_from (suc n) i s t =
    let rest = copy_from n (suc i) (update s i (t i)) t in
    if t i == 0 then update (update s i (t i)) (suc i) 0 else rest

-- `safestrcpy(s, t, n)`.
unfoldable pub safestrcpy : (ℕ → ℕ) → (ℕ → ℕ) → ℕ → ℕ → ℕ
unfolding copy_from
safestrcpy s t zero = s
safestrcpy s t (suc n) = copy_from n 0 s t

-- The loop of `memcmp` from offset `i` on; the result is the bit pattern of the difference.
unfoldable pub memcmp_from : ℕ → ℕ → (ℕ → ℕ) → (ℕ → ℕ) → ℕ
memcmp_from zero i s t = 0
memcmp_from (suc n) i s t =
    let rest = memcmp_from n (suc i) s t in if s i == t i then rest else sub32 (s i) (t i)

unfoldable pub memcmp : (ℕ → ℕ) → (ℕ → ℕ) → ℕ → ℕ
unfolding memcmp_from
memcmp s t n = memcmp_from n 0 s t

-- The two loops of `memmove`, in one memory: backward from the ends, and forward.
unfoldable pub move_down : ℕ → ℕ → ℕ → (ℕ → ℕ) → ℕ → ℕ
move_down zero d s m = m
move_down (suc n) d s m = move_down n d s (update m (d + n) (m (s + n)))

unfoldable pub move_up : ℕ → ℕ → ℕ → (ℕ → ℕ) → ℕ → ℕ
move_up zero d s m = m
move_up (suc n) d s m = move_up n (suc d) (suc s) (update m d (m s))

-- `memmove(dst, src, n)`.
unfoldable pub memmove : (ℕ → ℕ) → ℕ → ℕ → ℕ → ℕ → ℕ
memmove m dst src n =
    if ltb src dst && ltb dst (src + n) then move_down n dst src m else move_up n dst src m

-- `strncmp` from offset `i` on.
unfoldable pub strncmp_from : ℕ → ℕ → (ℕ → ℕ) → (ℕ → ℕ) → ℕ
strncmp_from zero i p q = 0
strncmp_from (suc n) i p q =
    let rest = strncmp_from n (suc i) p q in
    if not (p i == 0) && p i == q i then rest else sub32 (p i) (q i)

unfoldable pub strncmp : (ℕ → ℕ) → (ℕ → ℕ) → ℕ → ℕ
unfolding strncmp_from
strncmp p q n = strncmp_from n 0 p q

-- The second loop of `strncpy`, and the first with the second after it.
unfoldable pub pad_from : ℕ → ℕ → (ℕ → ℕ) → ℕ → ℕ
pad_from zero i s = s
pad_from (suc n) i s = pad_from n (suc i) (update s i 0)

unfoldable pub strncpy_from : ℕ → ℕ → (ℕ → ℕ) → (ℕ → ℕ) → ℕ → ℕ
unfolding pad_from
strncpy_from zero i s t = s
strncpy_from (suc n) i s t =
    let rest = strncpy_from n (suc i) (update s i (t i)) t in
    if t i == 0 then pad_from n (suc i) (update s i (t i)) else rest

unfoldable pub strncpy : (ℕ → ℕ) → (ℕ → ℕ) → ℕ → ℕ → ℕ
unfolding strncpy_from
strncpy s t n = strncpy_from n 0 s t
