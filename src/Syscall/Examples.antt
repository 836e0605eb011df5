-- ===== src/Syscall/Examples.antt =====
-- Arguments on the stack of a small process.
use os_fcfs_prirority.Base.{◌+◌, ◌^◌, ◌≤◌, ◌<◌, ◌≡◌, ◌↔◌, refl, some, arith, ◌==◌, if◌then◌else◌}
use os_fcfs_prirority.Syscall.{User, fetchint, argint, argptr, argstr}
use os_fcfs_prirority.Syscall.Checks.{IsUser, IsString, argptr-some_iff, argstr-some_iff}

-- The first argument, at 104, is 20, where there is the string `hi`.
abbrev small_user : User
small_user = record {
  mem = λ a. if a == 104 then 20 else (if a == 20 then b'h' else (if a == 21 then b'i' else 0));
  sz = 200;
  esp = 100;
}

small_user-IsUser : IsUser small_user
small_user-IsUser = record { below = omega arith; bytes = λ a. ground arith }

argptr-some_iff_example : (argptr small_user 0 180 ≡ some 20) ↔ (
    (argint small_user 0 ≡ some 20)
    × (180 < 2 ^ 31)
    × (20 < small_user.sz)
    × (20 + 180 ≤ small_user.sz))
argptr-some_iff_example = argptr-some_iff small_user 0 180 20 small_user-IsUser (omega arith)

argptr_runs : argptr small_user 0 180 ≡ some 20
unfolding argptr argint fetchint
argptr_runs = refl

argstr-some_iff_example :
    (argstr small_user 0 ≡ some (20, 2))
    ↔ ((argint small_user 0 ≡ some 20) × IsString small_user 20 2)
argstr-some_iff_example = argstr-some_iff small_user 0 20 2
