-- ===== src/Text/Examples.antt =====
-- Runs on a short text.
use os_fcfs_prirority.Base.{
  ◌≡◌, refl, some, [], ◌∷◌, take, bytes_at, get_or, ltb, arith, if◌then◌else◌, ◌==◌, first, ◌-◌,
}
use os_fcfs_prirority.Syscall.{User, fetchint, fetchstr, argint, argstr}
use os_fcfs_prirority.Text.{sys_head1}
use os_fcfs_prirority.Syscall.Checks.{IsUser}
use os_fcfs_prirority.Text.Uniq.{sys_uniq1, line, numbered}
use os_fcfs_prirority.Text.Uniq.Lines.{uniq_lines}
use os_fcfs_prirority.Text.Uniq.Loop.{uniq1_lem}
use os_fcfs_prirority.Text.Strings.{lines_of}
use os_fcfs_prirority.Text.Head.{head1_lem}

-- The text at 20 has two lines, and the start of a third; the arguments are 20 and 1.
abbrev two_lines : User
two_lines = record {
  mem = λ a.
      if a == 104
      then 20
      else (if a == 108
          then 1
          else (if ltb a 20
              then 0
              else get_or (b'a' ∷ 10 ∷ b'b' ∷ b'c' ∷ 10 ∷ b'd' ∷ []) (a - 20) 0));
  sz = 200;
  esp = 100;
}

text_read : argstr two_lines 0 ≡ some (20, 6)
unfolding argstr argint fetchint fetchstr first
text_read = refl

number_read : argint two_lines 1 ≡ some 1
unfolding argint fetchint
number_read = refl

head1_lem_example :
    sys_head1 two_lines ≡ some (take 1 (lines_of [] (bytes_at two_lines.mem 20 6)), 0)
head1_lem_example =
    head1_lem two_lines 20 6 1 text_read number_read (omega arith) (λ e. absurd (omega arith))

two_lines_cut :
    lines_of [] (bytes_at two_lines.mem 20 6) ≡ (b'a' ∷ 10 ∷ []) ∷ (b'b' ∷ b'c' ∷ 10 ∷ []) ∷ []
two_lines_cut = refl

-- Two lines that differ in case only, with the flag 1.
abbrev two_same : User
two_same = record {
  mem = λ a.
      if a == 104
      then 20
      else (if a == 108
          then 1
          else (if ltb a 20
              then 0
              else (if ltb a 24
                  then (if a == 20 then b'A' else (if a == 22 then b'a' else 10))
                  else 0)));
  sz = 200;
  esp = 100;
}

two_same-IsUser : IsUser two_same
two_same-IsUser = record { below = omega arith; bytes = λ a. ground arith }

two_same_read : argstr two_same 0 ≡ some (20, 4)
unfolding argstr argint fetchint fetchstr first
two_same_read = refl

flag_read : argint two_same 1 ≡ some 1
unfolding argint fetchint
flag_read = refl

uniq1_lem_example :
    sys_uniq1 two_same ≡ some (uniq_lines 1 (lines_of [] (bytes_at two_same.mem 20 4)) [] 0, 0)
uniq1_lem_example = uniq1_lem two_same 20 4 1 two_same-IsUser two_same_read flag_read (omega arith)

-- The first is printed.
one_printed :
    uniq_lines 1 (lines_of [] (bytes_at two_same.mem 20 4)) [] 0 ≡ line (b'A' ∷ 10 ∷ []) ∷ []
one_printed = refl

-- With the flag 3, one line twice and then another: the count of the first is printed beside the second.
count_beside_next :
    uniq_lines 3 ((b'x' ∷ 10 ∷ []) ∷ (b'x' ∷ 10 ∷ []) ∷ (b'y' ∷ 10 ∷ []) ∷ []) [] 0
    ≡ numbered 2 (b'y' ∷ 10 ∷ []) ∷ []
count_beside_next = refl
