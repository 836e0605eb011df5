-- ===== src/Fs/Contents.antt =====
-- One round of the loops of `readi` and `writei`, on the contents.
use os_fcfs_prirority.Base.{
  ℕ, ◌-◌, ◌/◌, ◌%◌, ◌≤◌, ◌<◌, ◌≡◌, ◌≢◌, inl, inr, refl, sym, ap, ◌∙◌, subst, false, Bool-cases,
  update, update_ne, update_self, arith, ◌==◌, if◌then◌else◌,
}
use os_fcfs_prirority.Fs.{Blocks, bsize, Superblock}
use os_fcfs_prirority.Fs.Alloc.{used, IsData}
use os_fcfs_prirority.Fs.Inode.{Inode, ndirect, maxfile}
use os_fcfs_prirority.Fs.Owner.{owned, slot_of, byte_of, max_bytes, IsSized, IsOwner}
use os_fcfs_prirority.Fs.Slots.{get_word-same}
use os_fcfs_prirority.Fs.Bmap.{used-same}

-- Byte `o` of the contents of an inode.
abbrev pub byte : Inode → Blocks → ℕ → ℕ
byte ip s o = byte_of (owned ip s) s o

module _ (sb : Superblock) (sized : IsSized sb) where
  pub moved-IsOwner :
      (f f' : ℕ → ℕ) (s s' : Blocks)
      → IsOwner sb f s
      → ((j : ℕ) → j ≤ maxfile → f' j ≡ f j)
      → ((b : ℕ) → b < sb.size → used sb s' b ≡ used sb s b)
      → IsOwner sb f' s'
  moved-IsOwner f f' s s' own e u = record {
    laid = record { meta = λ b h. u b (omega (arith, h, sized.tight)) ∙ own.laid.meta b h };
    after = λ j hj there. rw (e j hj) (own.after j hj (λ z. there (e j hj ∙ z)));
    inside = λ j hj. rw (e j hj) (own.inside j hj);
    taken = λ j hj there.
        rw (e j hj) (u (f j) (own.inside j hj) ∙ own.taken j hj (λ z. there (e j hj ∙ z)));
    apart = λ i j hi hj ne there.
        rw (e i hi, e j hj) (own.apart i j hi hj ne (λ z. there (e i hi ∙ z)));
  }

  module _ (ip : Inode) (s : Blocks) (bn a : ℕ) (own : IsOwner sb (owned ip s) s)
      (inside : bn < maxfile) (at : owned ip s (slot_of bn) ≡ a) (there : a ≢ 0) (blk : ℕ → ℕ) where
    slot_lt : slot_of bn ≤ maxfile
    slot_lt = ground arith

    some_slot : owned ip s (slot_of bn) ≢ 0
    some_slot z = there (sym at ∙ z)

    ne_other : (j : ℕ) → j ≤ maxfile → j ≢ slot_of bn → owned ip s j ≢ 0 → a ≢ owned ip s j
    ne_other j hj ne other e = own.apart j (slot_of bn) hj slot_lt ne other (sym e ∙ sym at)

    pub written-owned : (j : ℕ) → j ≤ maxfile → owned ip (update s a blk) j ≡ owned ip s j
    written-owned j hj =
        ground (arith, get_word-same s (update s a blk) (ip.addrs ndirect) (j - 13), same)
      where
        same :
            ip.addrs ndirect ≢ 0
            → (o : ℕ) → update s a blk (ip.addrs ndirect) o ≡ s (ip.addrs ndirect) o
        same z o =
            let ne : a ≢ ip.addrs ndirect = ne_other ndirect (omega arith) (ground arith) z in
            ap (λ f. f o) (update_ne s a blk (ip.addrs ndirect) ne)

    written-used : (b : ℕ) → b < sb.size → used sb (update s a blk) b ≡ used sb s b
    written-used b lt =
        used-same sb s (update s a blk) a b
          (subst (IsData sb) at (own.after (slot_of bn) slot_lt some_slot)) lt
          (λ c o ne. ap (λ f. f o) (update_ne s a blk c (λ e. ne (sym e))))

    pub written-IsOwner : IsOwner sb (owned ip (update s a blk)) (update s a blk)
    written-IsOwner =
        moved-IsOwner (owned ip s) (owned ip (update s a blk)) s (update s a blk) own written-owned
          written-used

    pub written-byte :
        (p : ℕ)
        → p < max_bytes
        → byte ip (update s a blk) p ≡ (if p / bsize == bn then blk (p % bsize) else byte ip s p)
    written-byte p lt = elim (Bool-cases (p / bsize == bn)) [
      | inl here ↦
          let e : p / bsize ≡ bn = ground arith in
          let some_block : (a == 0) ≡ false = ground arith in
          rw (here, written-owned (slot_of (p / bsize)) (ground arith), e, at, some_block)
            (ap (λ f. f (p % bsize)) (update_self s a blk))
      | inr other ↦
          let j = slot_of (p / bsize) in
          let hj : j ≤ maxfile = ground arith in
          elim (Bool-cases (owned ip s j == 0)) [
            | inl gap ↦ rw (other, written-owned j hj, gap) refl
            | inr block ↦
                let ne = ne_other j hj (ground arith) (ground arith) in
                rw (other, written-owned j hj, block)
                  (ap (λ f. f (p % bsize)) (update_ne s a blk (owned ip s j) ne))
          ]
    ]
