-- ===== src/Log/Recover.antt =====
-- Recovery by `recover_from_log` after an installation that is cut short.
use os_fcfs_prirority.Base.{
  ℕ, zero, suc, ◌-◌, ◌≤◌, ◌<◌, ◌≡◌, ◌⊎◌, inl, inr, refl, ap, ◌∙◌, true, List, [], ◌∷◌, ◌++◌, length,
  take, take-nil, arith, if◌then◌else◌, leb, Bool-cases,
}
use os_fcfs_prirority.Log.{
  Disk, Write, to_head, mem, apply, apply_all, write_log, install_trans, recover_from_log,
}
use os_fcfs_prirority.Log.Install.{
  AllHome, LogHolds, install_trans-log, LogHolds-agree, install_trans-cut, install_trans-home,
}

module _ {A : Type 0} where
  pub take-before : (m : ℕ) (xs ys : List A) → m ≤ length xs → take m (xs ++ ys) ≡ take m xs
  take-before zero xs ys h = refl
  take-before (suc m) [] ys h = grind arith
  take-before (suc m) (x ∷ xs) ys h = ap (λ l. x ∷ l) (take-before m xs ys (omega arith))

  pub take-length : (xs : List A) → take (length xs) xs ≡ xs
  take-length [] = refl
  take-length (x ∷ xs) = ap (λ l. x ∷ l) (take-length xs)

  -- The list is cut after its first part.
  pub take-after :
      (m : ℕ) (xs : List A) (y : A) (ys : List A)
      → length xs < m
      → take m (xs ++ (y ∷ ys)) ≡ xs ++ (y ∷ take (m - length xs - 1) ys)
  take-after zero xs y ys h = grind arith
  take-after (suc m) [] y ys h = grind arith
  take-after (suc m) (x ∷ xs) y ys h =
      ap (λ l. x ∷ l) (take-after m xs y ys (omega arith))
      ∙ ap (λ n. x ∷ (xs ++ (y ∷ take n ys))) (omega arith)

module _ {D : Type 0} where
  pub apply_all-append :
      (ws vs : List (Write D)) (d : Disk D) → apply_all (ws ++ vs) d ≡ apply_all vs (apply_all ws d)
  unfolding apply_all
  apply_all-append [] vs d = refl
  apply_all-append (w ∷ ws) vs d = apply_all-append ws vs (apply w d)

  pub length-write_log :
      (start : ℕ) (cache : ℕ → D) (tail : ℕ) (bs : List ℕ)
      → length (write_log start cache tail bs) ≡ length bs
  unfolding write_log
  length-write_log start cache tail [] = refl
  length-write_log start cache tail (b ∷ bs) = ap suc (length-write_log start cache (suc tail) bs)

  -- Recovery at a header of `lh` installs it.
  pub recover-block :
      (start : ℕ) (e : Disk D) (lh : List ℕ) (x : ℕ)
      → e.head ≡ lh
      → (recover_from_log start e).block x ≡ (apply_all (install_trans start 0 lh e) e).block x
  unfolding recover_from_log apply
  recover-block start e lh x h = ap (λ l. (apply_all (install_trans start 0 l e) e).block x) h

  installed_nil :
      (start : ℕ) (e : Disk D) (x : ℕ)
      → (apply_all (install_trans start 0 [] e) e).block x ≡ e.block x
  unfolding apply_all install_trans
  installed_nil start e x = refl

  pub recover-blank :
      (start : ℕ) (e : Disk D) (x : ℕ)
      → e.head ≡ []
      → (recover_from_log start e).block x ≡ e.block x
  recover-blank start e x h = recover-block start e [] x h ∙ installed_nil start e x

module _ {D : Type 0} (start size : ℕ) (cache : ℕ → D) (lh : List ℕ) (room : length lh < size)
    (home : AllHome start size lh) where
  same_after :
      {x : ℕ} {v w : D}
      → (w ≡ v) ⊎ ((mem x lh ≡ true) × (w ≡ cache x))
      → ◌≡◌ {A = D} (if mem x lh then cache x else w) (if mem x lh then cache x else v)
  same_after cut = grind (arith, cut)

  cleared : (e : Disk D) → (apply_all (to_head [] ∷ []) e).head ≡ []
  unfolding apply_all apply
  cleared e = refl

  cleared_block : (e : Disk D) (x : ℕ) → (apply_all (to_head [] ∷ []) e).block x ≡ e.block x
  unfolding apply_all apply
  cleared_block e x = refl

  -- Recovery after an installation that was cut short finishes it.
  pub recover-cut :
      (k : ℕ) (d : Disk D) (x : ℕ)
      → d.head ≡ lh
      → LogHolds start size cache 0 lh d
      → (recover_from_log start (apply_all (take k (install_trans start 0 lh d)) d)).block x
        ≡ (if mem x lh then cache x else d.block x)
  recover-cut k d x h hs =
      let e = apply_all (take k (install_trans start 0 lh d)) d in
      let head =
        (install_trans-log start size cache 0 lh k d start home (omega arith) (omega arith)).1 in
      let held =
        LogHolds-agree start size cache 0 lh d e (omega arith)
          (λ y lo hi. (install_trans-log start size cache 0 lh k d y home lo hi).0) hs in
      let cut = install_trans-cut start size cache 0 lh k d x (omega arith) home hs in
      recover-block start e lh x (head ∙ h)
      ∙ install_trans-home start size cache 0 lh e x (omega arith) home held
      ∙ same_after cut

  -- The same, with the write that clears the header after it.
  pub recover-installed :
      (k : ℕ) (d : Disk D) (x : ℕ)
      → d.head ≡ lh
      → LogHolds start size cache 0 lh d
      → (recover_from_log start
            (apply_all (take k (install_trans start 0 lh d ++ to_head [] ∷ [])) d)).block
          x
        ≡ (if mem x lh then cache x else d.block x)
  recover-installed k d x h hs =
      let ws = install_trans start 0 lh d in
      elim (Bool-cases (leb k (length ws))) [
        | inl short ↦ rw (take-before k ws (to_head [] ∷ []) (grind arith)) (recover-cut k d x h hs)
        | inr long ↦
            rw
              (
                take-after k ws (to_head []) [] (grind arith),
                take-nil {A = Write D} (k - length ws - 1),
                apply_all-append ws (to_head [] ∷ []) d,
              )
              (recover-blank start (apply_all (to_head [] ∷ []) (apply_all ws d)) x
                  (cleared (apply_all ws d))
                ∙ cleared_block (apply_all ws d) x
                ∙ install_trans-home start size cache 0 lh d x (omega arith) home hs)
      ]
