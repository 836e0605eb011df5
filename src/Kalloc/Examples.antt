-- ===== src/Kalloc/Examples.antt =====
-- Two pages at the bottom of the kernel's memory.
use os_fcfs_prirority.Base.{
  ℕ, [], ◌∷◌, ◌+◌, ◌≡◌, refl, Bool, true, false, ◌||◌, ◌&&◌, update, arith, ◌==◌, Option, some, leb,
  ltb, if◌then◌else◌,
}
use os_fcfs_prirority.Kalloc.Ranges.{in_range, outside, IsDone, freerange-frees}
use os_fcfs_prirority.Kalloc.{page_round_up, Kmem, kernbase, kfree, kalloc, freerange, free_from}
use os_fcfs_prirority.Kalloc.Owned.{IsPage, Reached, opens, frees}
use os_fcfs_prirority.Kalloc.Safe.{kalloc-IsFresh, kfree-kalloc, then_kalloc}

abbrev low : ℕ
low = kernbase

abbrev next : ℕ
next = kernbase + 4096

abbrev both : ℕ → Bool
both p = p == low || p == next

both-IsPage : (p : ℕ) → both p ≡ true → IsPage low p
both-IsPage p h = record {
  aligned = grind (arith, h);
  above = grind (arith, h);
  below = grind (arith, h);
}

abbrev empty : Kmem
empty = record { word = λ a. 0; freelist = 0 }

empty-Reached : Reached low (omega arith) empty both
empty-Reached = opens (λ a. 0) both both-IsPage

-- `freerange` from one byte after the bottom leaves the first page out.
ranged : Option ℕ
ranged = then_kalloc (freerange low (low + 1) (low + 12288) empty)

ranged_runs : ranged ≡ some (low + 8192)
unfolding ranged freerange free_from kfree kalloc
ranged_runs = refl

next_comes_back : then_kalloc (kfree low next empty) ≡ some next
next_comes_back = kfree-kalloc low (omega arith) next empty-Reached refl

-- The second page is free.
abbrev one_free : Kmem
one_free = record {
  word = update (λ a. if leb next a && ltb a (next + 4096) then 16843009 else 0) next 0;
  freelist = next;
}

one_free-Reached : Reached low (omega arith) one_free (update both next false)
unfolding kfree
one_free-Reached = frees next empty-Reached refl refl

kalloc-IsFresh_example :
    (update both next false (kalloc one_free).0 ≡ false) × IsPage low (kalloc one_free).0
unfolding kalloc
kalloc-IsFresh_example = kalloc-IsFresh low (omega arith) one_free-Reached (omega arith)

-- `freerange` from one byte after the bottom frees the second page.
both_whole : (q : ℕ) → in_range (page_round_up (low + 1)) (low + 8192) q ≡ true → both q ≡ true
both_whole q h = ground arith

freerange-frees_example :
    IsDone low
      (omega arith)
      (freerange low (low + 1) (low + 8192) empty)
      (outside (page_round_up (low + 1)) (low + 8192) both)
      (next ∷ [])
freerange-frees_example =
    freerange-frees low (omega arith) (low + 1) (low + 8192) [] empty-Reached refl (omega arith)
      (omega arith) both_whole
