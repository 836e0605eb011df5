-- ===== src/Kalloc.antt =====
-- kalloc.c: the list of free pages, which is linked through the pages themselves.
pub mod Owned
pub mod Safe
pub mod Ranges
mod Examples
use os_fcfs_prirority.Base.{
  ℕ, zero, suc, ◌+◌, ◌-◌, ◌*◌, ◌^◌, ◌%◌, ◌/◌, Bool, true, false, not, ◌&&◌, ◌||◌, update, u32,
  sub32, ltb, leb, ◌==◌, if◌then◌else◌, Option, some, none,
}

abbrev pub page_size : ℕ
page_size = 4096

abbrev pub kernbase : ℕ
kernbase = 2147483648

abbrev pub phystop : ℕ
phystop = 234881024

-- `kmem`, without its lock, and the memory, as the word at each address.
pub record Kmem : Type 0 where
  pub word : ℕ → ℕ
  pub freelist : ℕ

-- `memset(v, 1, PGSIZE)`.
abbrev pub junk : ℕ → (ℕ → ℕ) → ℕ → ℕ
junk v word a = if leb v a && ltb a (v + page_size) then 16843009 else word a

-- `kfree(v)`; none is the panic. `kend` is the address of `end`.
unfoldable pub kfree : ℕ → ℕ → Kmem → Option Kmem
kfree kend v k =
    if not (v % page_size == 0) || (ltb v kend || leb phystop (sub32 v kernbase))
    then none
    else some (record { word = update (junk v k.word) v k.freelist; freelist = v })

unfoldable pub kalloc : Kmem → ℕ × Kmem
kalloc k =
    if k.freelist == 0 then (0, k) else (k.freelist, record k { freelist = k.word k.freelist })

-- `PGROUNDUP(a)`.
abbrev pub page_round_up : ℕ → ℕ
page_round_up a = u32 (a + page_size - 1) / page_size * page_size

-- The loop of `freerange` from `p` on; none is a panic, or too little fuel.
unfoldable pub free_from : ℕ → ℕ → ℕ → ℕ → Kmem → Option Kmem
free_from zero kend vend p k = none
free_from (suc fuel) kend vend p k =
    if leb (u32 (p + page_size)) vend
    then elim (kfree kend p k) [
      | none ↦ none
      | some k' ↦ free_from fuel kend vend (u32 (p + page_size)) k'
    ]
    else some k

-- `freerange`, with a round for each page that there can be.
unfoldable pub freerange : ℕ → ℕ → ℕ → Kmem → Option Kmem
freerange kend vstart vend k = free_from (2 ^ 20) kend vend (page_round_up vstart) k
