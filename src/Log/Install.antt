-- ===== src/Log/Install.antt =====
-- What the loops of log.c leave on the disk.
use os_fcfs_prirority.Base.{
  ℕ, zero, suc, ◌+◌, ◌≤◌, ◌<◌, ◌≡◌, ◌⊎◌, inl, inr, refl, ◌∙◌, true, List, [], ◌∷◌, length, take,
  arith, if◌then◌else◌,
}
use os_fcfs_prirority.Log.{Disk, to_block, mem, apply, apply_all, write_log, install_trans}

-- The blocks that are no part of the log, `size` blocks from `start` on.
abbrev pub IsHome : ℕ → ℕ → ℕ → Type 0
IsHome start size x = (x < start) ⊎ (start + size ≤ x)

-- All blocks of the list are home blocks.
abbrev pub AllHome : ℕ → ℕ → List ℕ → Type 0
AllHome start size [] = Unit {0}
AllHome start size (b ∷ bs) = IsHome start size b × AllHome start size bs

module _ {D : Type 0} (start size : ℕ) (cache : ℕ → D) where
  -- The log blocks from `tail` on hold the cached contents of the listed blocks.
  abbrev pub LogHolds : ℕ → List ℕ → Disk D → Type 0
  LogHolds tail [] d = Unit {0}
  LogHolds tail (b ∷ bs) d = (d.block (start + tail + 1) ≡ cache b) × LogHolds (suc tail) bs d

  -- Writing to the log leaves the home blocks and the header alone, also where it is cut short.
  pub write_log-home :
      (tail : ℕ) (lh : List ℕ) (m : ℕ) (d : Disk D) (x : ℕ)
      → tail + length lh < size
      → IsHome start size x
      → ((apply_all (take m (write_log start cache tail lh)) d).block x ≡ d.block x)
        × ((apply_all (take m (write_log start cache tail lh)) d).head ≡ d.head)
  unfolding apply_all write_log apply
  write_log-home tail lh zero d x room home = (refl, refl)
  write_log-home tail [] (suc m) d x room home = (refl, refl)
  write_log-home tail (b ∷ bs) (suc m) d x room home =
      let (a, h) =
        write_log-home (suc tail) bs m (apply (to_block (start + tail + 1) (cache b)) d) x
          (omega arith) home in
      (ground (arith, a), h)

  -- A later part of the loop leaves the earlier log blocks alone.
  write_log-earlier :
      (tail : ℕ) (lh : List ℕ) (d : Disk D) (x : ℕ)
      → x < start + tail + 1
      → (apply_all (write_log start cache tail lh) d).block x ≡ d.block x
  unfolding apply_all write_log apply
  write_log-earlier tail [] d x lt = refl
  write_log-earlier tail (b ∷ bs) d x lt =
      ground
        (arith, write_log-earlier (suc tail) bs (apply (to_block (start + tail + 1) (cache b)) d) x)

  pub write_log-LogHolds :
      (tail : ℕ) (lh : List ℕ) (d : Disk D)
      → LogHolds tail lh (apply_all (write_log start cache tail lh) d)
  unfolding apply_all write_log apply
  write_log-LogHolds tail [] d = tt
  write_log-LogHolds tail (b ∷ bs) d = (
    ground (
      arith,
      write_log-earlier (suc tail) bs (apply (to_block (start + tail + 1) (cache b)) d)
          (start + tail + 1),
    ),
    write_log-LogHolds (suc tail) bs (apply (to_block (start + tail + 1) (cache b)) d),
  )

  pub LogHolds-agree :
      (tail : ℕ) (bs : List ℕ) (d e : Disk D)
      → tail + length bs < size
      → ((y : ℕ) → start ≤ y → y < start + size → e.block y ≡ d.block y)
      → LogHolds tail bs d
      → LogHolds tail bs e
  LogHolds-agree tail [] d e room same h = tt
  LogHolds-agree tail (b ∷ bs) d e room same (h, hs) = (
    same (start + tail + 1) (omega arith) (omega arith) ∙ h,
    LogHolds-agree (suc tail) bs d e (omega arith) same hs,
  )

  -- Writing a home block leaves the log alone.
  step_same :
      (b : ℕ) (v : D) (d : Disk D) (y : ℕ)
      → IsHome start size b
      → start ≤ y
      → y < start + size
      → (apply (to_block b v) d).block y ≡ d.block y
  unfolding apply
  step_same b v d y home lo hi = ground arith

  head_same : (b : ℕ) (v : D) (d : Disk D) → (apply (to_block b v) d).head ≡ d.head
  unfolding apply
  head_same b v d = refl

  step_LogHolds :
      (tail : ℕ) (b : ℕ) (bs : List ℕ) (v : D) (d : Disk D)
      → suc tail + length bs < size
      → IsHome start size b
      → LogHolds (suc tail) bs d
      → LogHolds (suc tail) bs (apply (to_block b v) d)
  step_LogHolds tail b bs v d room home hs =
      LogHolds-agree (suc tail) bs d (apply (to_block b v) d) room
        (λ y lo hi. step_same b v d y home lo hi) hs

  -- A part of the installation leaves the log and the header alone.
  pub install_trans-log :
      (tail : ℕ) (bs : List ℕ) (m : ℕ) (d : Disk D) (y : ℕ)
      → AllHome start size bs
      → start ≤ y
      → y < start + size
      → ((apply_all (take m (install_trans start tail bs d)) d).block y ≡ d.block y)
        × ((apply_all (take m (install_trans start tail bs d)) d).head ≡ d.head)
  unfolding apply_all install_trans
  install_trans-log tail bs zero d y home lo hi = (refl, refl)
  install_trans-log tail [] (suc m) d y home lo hi = (refl, refl)
  install_trans-log tail (b ∷ bs) (suc m) d y (hb, home) lo hi =
      let v = d.block (start + tail + 1) in
      let (a, h) = install_trans-log (suc tail) bs m (apply (to_block b v) d) y home lo hi in
      (a ∙ step_same b v d y hb lo hi, h ∙ head_same b v d)

  cut_step :
      (b : ℕ) (bs : List ℕ) (v : D) (d : Disk D) (x : ℕ) {w : D}
      → v ≡ cache b
      → (w ≡ (apply (to_block b v) d).block x) ⊎ ((mem x bs ≡ true) × (w ≡ cache x))
      → (w ≡ d.block x) ⊎ ((mem x (b ∷ bs) ≡ true) × (w ≡ cache x))
  unfolding apply
  cut_step b bs v d x h (inl e) = grind (arith, h, e)
  cut_step b bs v d x h (inr (i, e)) = inr (grind (arith, i), e)

  home_step :
      (b : ℕ) (bs : List ℕ) (v : D) (d : Disk D) (x : ℕ)
      → v ≡ cache b
      → ◌≡◌ {A = D}
          (if mem x bs then cache x else (apply (to_block b v) d).block x)
          (if mem x (b ∷ bs) then cache x else d.block x)
  unfolding apply
  home_step b bs v d x h = grind (arith, h)

  -- Where the installation is cut short, each block is as it was or is a listed one with its new contents.
  pub install_trans-cut :
      (tail : ℕ) (bs : List ℕ) (m : ℕ) (d : Disk D) (x : ℕ)
      → tail + length bs < size
      → AllHome start size bs
      → LogHolds tail bs d
      → ((apply_all (take m (install_trans start tail bs d)) d).block x ≡ d.block x)
        ⊎ ((mem x bs ≡ true)
            × ((apply_all (take m (install_trans start tail bs d)) d).block x ≡ cache x))
  unfolding apply_all install_trans
  install_trans-cut tail bs zero d x room home hs = inl refl
  install_trans-cut tail [] (suc m) d x room home hs = inl refl
  install_trans-cut tail (b ∷ bs) (suc m) d x room (hb, home) (h, hs) =
      let v = d.block (start + tail + 1) in
      let rest =
        install_trans-cut (suc tail) bs m (apply (to_block b v) d) x (omega arith) home
          (step_LogHolds tail b bs v d (omega arith) hb hs) in
      cut_step b bs v d x h rest

  -- The whole installation.
  pub install_trans-home :
      (tail : ℕ) (bs : List ℕ) (d : Disk D) (x : ℕ)
      → tail + length bs < size
      → AllHome start size bs
      → LogHolds tail bs d
      → (apply_all (install_trans start tail bs d) d).block x
        ≡ (if mem x bs then cache x else d.block x)
  unfolding apply_all install_trans
  install_trans-home tail [] d x room home hs = refl
  install_trans-home tail (b ∷ bs) d x room (hb, home) (h, hs) =
      let v = d.block (start + tail + 1) in
      install_trans-home (suc tail) bs (apply (to_block b v) d) x (omega arith) home
        (step_LogHolds tail b bs v d (omega arith) hb hs)
      ∙ home_step b bs v d x h
