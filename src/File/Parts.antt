-- ===== src/File/Parts.antt =====
-- Bytes put into a file in parts.
use os_fcfs_prirority.Base.{
  ℕ, ◌+◌, ◌-◌, ◌≤◌, ◌<◌, ◌≡◌, inl, inr, refl, ◌∙◌, ◌&&◌, Bool-cases, arith, ltb, leb, if◌then◌else◌,
}
use os_fcfs_prirority.Fs.{Blocks, Superblock}
use os_fcfs_prirority.Fs.Inode.{Inode}
use os_fcfs_prirority.Fs.Files.{Devices}
use os_fcfs_prirority.Fs.Owner.{max_bytes, IsSized}
use os_fcfs_prirority.Fs.Contents.{byte}
use os_fcfs_prirority.Fs.Stored.{IsStored, Put}

module _ (sb : Superblock) (sized : IsSized sb) (dev : Devices) where
  -- One part after another is the whole.
  pub Put-Put :
      (ip0 ip1 ip2 : Inode) (s0 s1 s2 : Blocks) (src : ℕ → ℕ) (off i m n : ℕ)
      → i + m ≤ n
      → Put sb sized dev ip0 s0 (λ k. src (i + k)) off m m ip1 s1
      → Put sb sized dev ip1 s1 (λ k. src (i + m + k)) (off + m) (n - (i + m)) (n - (i + m)) ip2 s2
      → Put sb sized dev ip0 s0 (λ k. src (i + k)) off (n - i) (n - i) ip2 s2
  Put-Put ip0 ip1 ip2 s0 s1 s2 src off i m n le a b = record {
    result = refl;
    same = (b.same.0 ∙ a.same.0, b.same.1 ∙ a.same.1);
    stored = b.stored;
    length = ground (arith, a.length, b.length);
    bytes = λ p lt. b.bytes p lt ∙ both p lt (a.bytes p lt);
  }
    where
      both :
          (p : ℕ)
          → p < max_bytes
          → byte ip1 s1 p
            ≡ (if leb off p && ltb p (off + m) then src (i + (p - off)) else byte ip0 s0 p)
          → (if leb (off + m) p && ltb p (off + m + (n - (i + m)))
              then src (i + m + (p - (off + m)))
              else byte ip1 s1 p)
            ≡ (if leb off p && ltb p (off + (n - i)) then src (i + (p - off)) else byte ip0 s0 p)
      both p lt h = elim (Bool-cases (leb (off + m) p)) [
        | inl late ↦
            let at : i + m + (p - (off + m)) ≡ i + (p - off) = ground arith in
            rw (at, h) (ground arith)
        | inr early ↦ rw (early, h) (ground arith)
      ]

  pub Put-nil :
      (ip : Inode) (s : Blocks) (src : ℕ → ℕ) (off n : ℕ)
      → n ≡ 0
      → IsStored sb sized ip s
      → off ≤ ip.size
      → Put sb sized dev ip s src off n n ip s
  Put-nil ip s src off n z st le = record {
    result = refl;
    same = (refl, refl);
    stored = st;
    length = ground arith;
    bytes = λ p lt. ground arith;
  }
