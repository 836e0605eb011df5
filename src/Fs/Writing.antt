-- ===== src/Fs/Writing.antt =====
-- `writei`: what a file holds after it.
use os_fcfs_prirority.Base.{
  ℕ, zero, suc, ◌+◌, ◌-◌, ◌/◌, ◌%◌, ◌≤◌, ◌<◌, ◌≡◌, ◌≢◌, inl, inr, refl, sym, ap, ◌∙◌, subst, false,
  ◌&&◌, some, Option-cases, Bool-cases, some_inj, update, update_ne, arith, ltb, leb, ◌==◌,
  if◌then◌else◌,
}
use os_fcfs_prirority.Fs.{Blocks, bsize, Superblock}
use os_fcfs_prirority.Fs.Inode.{Inode, maxfile, min, copy, bmap, write_loop}
use os_fcfs_prirority.Fs.Owner.{owned, slot_of, max_bytes, IsSized, IsOwner}
use os_fcfs_prirority.Fs.Slots.{Got}
use os_fcfs_prirority.Fs.Bmap.{bmap-Got}
use os_fcfs_prirority.Fs.Contents.{byte, written-IsOwner, written-byte, written-owned}

module _ (sb : Superblock) (sized : IsSized sb) where
  -- `n` bytes of `src` from `tot` on are in the contents from `off` on; all else is as it was.
  pub record Wrote (ip : Inode) (s : Blocks) (off tot n : ℕ) (src : ℕ → ℕ) (ip' : Inode)
      (s' : Blocks) : Type 0 where
    pub own : IsOwner sb (owned ip' s') s'
    pub bytes :
        (p : ℕ)
        → p < max_bytes
        → byte ip' s' p
          ≡ (if leb off p && ltb p (off + n) then src (tot + (p - off)) else byte ip s p)
    pub kept : (j : ℕ) → j ≤ maxfile → owned ip s j ≢ 0 → owned ip' s' j ≡ owned ip s j
    pub mapped : (p : ℕ) → off ≤ p → p < off + n → owned ip' s' (slot_of (p / bsize)) ≢ 0
    pub only : ip' ≡ record ip { addrs = ip'.addrs }
    pub meta : (b o : ℕ) → b < sb.bmapstart → s' b o ≡ s b o

  old_byte :
      (ip : Inode) (s : Blocks) (bn a p : ℕ)
      → owned ip s (slot_of bn) ≡ a
      → a ≢ 0
      → p / bsize ≡ bn
      → s a (p % bsize) ≡ byte ip s p
  old_byte ip s bn a p at there e =
      let some_block : (a == 0) ≡ false = ground arith in rw (e, at, some_block) refl

  none_left :
      (ip : Inode) (s : Blocks) (off tot : ℕ) (src : ℕ → ℕ)
      → IsOwner sb (owned ip s) s
      → Wrote ip s off tot 0 src ip s
  none_left ip s off tot src own = record {
    own = own;
    bytes = λ p lt. ground arith;
    kept = λ j hj some_block. refl;
    mapped = λ p lo hi. absurd (omega arith);
    only = refl;
    meta = λ b o lt. refl;
  }

  two_parts :
      (off tot m n p : ℕ) (src : ℕ → ℕ) (v : ℕ)
      → m ≤ n
      → (if leb (off + m) p && ltb p (off + m + (n - m))
          then src (tot + m + (p - (off + m)))
          else (if leb off p && ltb p (off + m) then src (tot + (p - off)) else v))
        ≡ (if leb off p && ltb p (off + n) then src (tot + (p - off)) else v)
  two_parts off tot m n p src v le = ground arith

  one_round :
      (ip ip1 : Inode) (s s1 : Blocks) (off tot m a : ℕ) (src : ℕ → ℕ)
      → off + m ≤ max_bytes
      → 0 < m
      → off % bsize + m ≤ bsize
      → Got sb ip s (slot_of (off / bsize)) a ip1 s1
      → (p : ℕ) → p < max_bytes
      → byte ip1 (update s1 a (copy (s1 a) (off % bsize) src tot m)) p
        ≡ (if leb off p && ltb p (off + m) then src (tot + (p - off)) else byte ip s p)
  unfolding copy
  one_round ip ip1 s s1 off tot m a src room some_bytes fit got p lt =
      let bn = off / bsize in
      let blk = copy (s1 a) (off % bsize) src tot m in
      let new = written-byte sb sized ip1 s1 bn a got.own (omega arith) got.at got.there blk p lt in
      elim (Bool-cases (p / bsize == bn)) [
        | inr other ↦
            let out : (leb off p && ltb p (off + m)) ≡ false = ground arith in
            new ∙ rw (other, out) (got.same p lt)
        | inl here ↦
            let e : p / bsize ≡ bn = ground arith in
            let within : (leb (off % bsize) (p % bsize) && ltb (p % bsize) (off % bsize + m))
                ≡ (leb off p && ltb p (off + m)) =
              ground arith in
            elim (Bool-cases (leb off p && ltb p (off + m))) [
              | inl hit ↦
                  let at : tot + (p % bsize - off % bsize) ≡ tot + (p - off) = ground arith in
                  new ∙ rw (here, within, hit) (ap src at)
              | inr miss ↦
                  new
                  ∙ rw (here, within, miss)
                      (old_byte ip1 s1 bn a p got.at got.there e ∙ got.same p lt)
            ]
      ]

  -- A round of the loop: `m` bytes into block `a`, and then the rest.
  round_lem :
      (ip ip1 ip2 : Inode) (s s1 s2 : Blocks) (off tot m n a : ℕ) (src : ℕ → ℕ)
      → off + n ≤ max_bytes
      → 0 < m
      → m ≤ n
      → off % bsize + m ≤ bsize
      → Got sb ip s (slot_of (off / bsize)) a ip1 s1
      → Wrote ip1
          (update s1 a (copy (s1 a) (off % bsize) src tot m))
          (off + m)
          (tot + m)
          (n - m)
          src
          ip2
          s2
      → Wrote ip s off tot n src ip2 s2
  round_lem ip ip1 ip2 s s1 s2 off tot m n a src room some_bytes le fit got w =
      let bn = off / bsize in
      let blk = copy (s1 a) (off % bsize) src tot m in
      let in_range : bn < maxfile = omega arith in
      record {
        own = w.own;
        bytes = λ p lt.
            let before =
              one_round ip ip1 s s1 off tot m a src (omega arith) some_bytes fit got p lt in
            w.bytes p lt
            ∙ ap
                (λ z.
                  if leb (off + m) p && ltb p (off + m + (n - m))
                  then src (tot + m + (p - (off + m)))
                  else z)
                before
            ∙ two_parts off tot m n p src (byte ip s p) le;
        kept = λ j hj some_block.
            let still = λ (i : ℕ) (hi : i ≤ maxfile).
              written-owned sb sized ip1 s1 bn a got.own in_range got.at got.there blk i hi in
            let e = got.kept j hj some_block in
            w.kept j hj (λ z. some_block (sym e ∙ sym (still j hj) ∙ z)) ∙ still j hj ∙ e;
        mapped = λ p lo hi. elim (Bool-cases (leb (off + m) p)) [
          | inl later ↦ w.mapped p (ground arith) (omega arith)
          | inr now ↦
              let here : p / bsize ≡ bn = ground arith in
              let hj : slot_of bn ≤ maxfile = ground arith in
              let still =
                written-owned sb sized ip1 s1 bn a got.own in_range got.at got.there blk
                  (slot_of bn) hj in
              let some_block = λ (z : owned ip1 (update s1 a blk) (slot_of bn) ≡ 0).
                got.there (sym got.at ∙ sym still ∙ z) in
              rw here (λ z. some_block (sym (w.kept (slot_of bn) hj some_block) ∙ z))
        ];
        only = w.only ∙ ap (λ (r : Inode). record r { addrs = ip2.addrs }) got.only;
        meta = λ b o lt.
            let after =
              got.own.after (slot_of bn) (ground arith) (λ z. got.there (sym got.at ∙ z)) in
            let apart : a ≢ b = λ e. absurd (omega (arith, after, got.at)) in
            w.meta b o lt ∙ ap (λ f. f o) (update_ne s1 a blk b apart) ∙ got.meta b o lt;
      }

  pub write_loop-Wrote :
      (fuel : ℕ) (ip ip' : Inode) (s s' : Blocks) (off tot n : ℕ) (src : ℕ → ℕ)
      → n ≤ fuel
      → off + n ≤ max_bytes
      → IsOwner sb (owned ip s) s
      → write_loop sb fuel ip off tot n src s ≡ some (ip', s')
      → Wrote ip s off tot n src ip' s'
  unfolding write_loop
  write_loop-Wrote zero ip ip' s s' off tot n src enough room own h =
      let e : n ≡ 0 = omega arith in
      subst (λ r. Wrote ip s off tot n src r.0 r.1) (some_inj h)
        (rw e (none_left ip s off tot src own))
  write_loop-Wrote (suc fuel) ip ip' s s' off tot n src enough room own h =
      elim (Bool-cases (n == 0)) [
        | inl done ↦
            let e : n ≡ 0 = ground arith in
            subst (λ r. Wrote ip s off tot n src r.0 r.1) (some_inj (rw done at h))
              (rw e (none_left ip s off tot src own))
        | inr more ↦ elim (Option-cases (bmap sb ip (off / bsize) s)) [
          | inl e ↦ cc (rw (more, e) at h)
          | inr ((a, ip1, s1), e) ↦
              let m = min n (bsize - off % bsize) in
              let some_bytes : 0 < m = ground arith in
              let le : m ≤ n = ground arith in
              let fit : off % bsize + m ≤ bsize = ground arith in
              let got = bmap-Got sb sized ip ip1 s s1 (off / bsize) a own e in
              let blk = copy (s1 a) (off % bsize) src tot m in
              let in_range : off / bsize < maxfile = omega arith in
              let own1 =
                written-IsOwner sb sized ip1 s1 (off / bsize) a got.own in_range got.at got.there
                  blk in
              round_lem ip ip1 ip' s s1 s' off tot m n a src room some_bytes le fit got (
                write_loop-Wrote fuel ip1 ip' (update s1 a blk) s' (off + m) (tot + m) (n - m) src
                  (omega arith) (omega arith) own1 (rw (more, e) at h))
        ]
      ]
