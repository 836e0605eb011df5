-- ===== src/Log/Crash.antt =====
-- Crashes in `commit`, and recovery.
use os_fcfs_prirority.Base.{
  ℕ, ◌+◌, ◌-◌, ◌≤◌, ◌<◌, ◌≡◌, inl, inr, refl, ap, ◌∙◌, sym, Bool, true, false, ◌||◌, List, [], ◌∷◌,
  ◌++◌, length, take, take-nil, arith, if◌then◌else◌, leb, ltb, fun_ext, subst, Option, some, none,
  Bool-cases,
}
use os_fcfs_prirority.Log.{
  Disk, to_head, mem, apply, apply_all, write_log, install_trans, commit, recover_from_log,
}
use os_fcfs_prirority.Log.Install.{
  IsHome, AllHome, LogHolds, write_log-home, write_log-LogHolds, LogHolds-agree,
}
use os_fcfs_prirority.Log.Recover.{
  take-before, take-length, take-after, apply_all-append, length-write_log, recover-blank,
  recover-installed,
}

-- Whether block `x` is outside the log's `size` blocks from `start` on.
abbrev pub is_home : ℕ → ℕ → ℕ → Bool
is_home start size x = ltb x start || leb (start + size) x

is_home-IsHome : (start size x : ℕ) → is_home start size x ≡ true → IsHome start size x
is_home-IsHome start size x h = grind arith

-- What the file system sees of the disk: the blocks outside the log.
abbrev pub home_blocks : {D : Type 0} → ℕ → ℕ → Disk D → ℕ → Option D
home_blocks start size d x = if is_home start size x then some (d.block x) else none

-- The disk with the cached contents of the listed blocks.
abbrev pub updated : {D : Type 0} → (ℕ → D) → List ℕ → Disk D → Disk D
updated cache lh d = record d { block = λ x. if mem x lh then cache x else d.block x }

home_blocks-same :
    {D : Type 0} (start size : ℕ) (d e : Disk D)
    → ((x : ℕ) → IsHome start size x → d.block x ≡ e.block x)
    → home_blocks start size d ≡ home_blocks start size e
home_blocks-same start size d e same = fun_ext (λ x. elim (Bool-cases (is_home start size x)) [
  | inl is ↦ rw is (ap some (same x (is_home-IsHome start size x is)))
  | inr isnt ↦ rw isnt refl
])

module _ {D : Type 0} (start size : ℕ) (cache : ℕ → D) (d : Disk D) where
  -- A crash before the header is written.
  crash_early :
      (lh : List ℕ) (m : ℕ) (x : ℕ)
      → d.head ≡ []
      → length lh < size
      → IsHome start size x
      → (recover_from_log start (apply_all (take m (write_log start cache 0 lh)) d)).block x
        ≡ d.block x
  crash_early lh m x blank room home =
      let (same, head) = write_log-home start size cache 0 lh m d x (omega arith) home in
      recover-blank start (apply_all (take m (write_log start cache 0 lh)) d) x (head ∙ blank)
      ∙ same

  -- The disk when the header is written.
  abbrev headed : List ℕ → Disk D
  headed lh = apply (to_head lh) (apply_all (write_log start cache 0 lh) d)

  headed-block :
      (lh : List ℕ) (x : ℕ)
      → length lh < size
      → IsHome start size x
      → (headed lh).block x ≡ d.block x
  unfolding apply
  headed-block lh x room home =
      let ws = write_log start cache 0 lh in
      subst (λ vs. (apply_all vs d).block x ≡ d.block x) (take-length ws)
        (write_log-home start size cache 0 lh (length ws) d x (omega arith) home).0

  headed-head : (lh : List ℕ) → (headed lh).head ≡ lh
  unfolding apply
  headed-head lh = refl

  headed-LogHolds : (lh : List ℕ) → length lh < size → LogHolds start size cache 0 lh (headed lh)
  unfolding apply
  headed-LogHolds lh room =
      let e = apply_all (write_log start cache 0 lh) d in
      LogHolds-agree start size cache 0 lh e (apply (to_head lh) e) (omega arith) (λ y lo hi. refl)
        (write_log-LogHolds start size cache 0 lh d)

  -- A crash after the header is written.
  crash_late :
      (lh : List ℕ) (k : ℕ) (x : ℕ)
      → length lh < size
      → AllHome start size lh
      → IsHome start size x
      → (recover_from_log start (
            apply_all
              (take k (install_trans start 0 lh (headed lh) ++ to_head [] ∷ []))
              (headed lh))).block
          x
        ≡ (if mem x lh then cache x else d.block x)
  crash_late lh k x room all home = rw (sym (headed-block lh x room home)) (
      recover-installed start size cache lh room all k (headed lh) x (headed-head lh)
        (headed-LogHolds lh room))

  -- The disk when `commit` is cut off after `m` writes.
  abbrev pub crashed : List ℕ → ℕ → Disk D
  crashed lh m = apply_all (take m (commit start cache lh d)) d

  crashed_early :
      (lh : List ℕ) (m : ℕ)
      → m ≤ length lh
      → crashed lh m ≡ apply_all (take m (write_log start cache 0 lh)) d
  unfolding commit write_log
  crashed_early [] m short = refl
  crashed_early (b ∷ bs) m short =
      let lh = b ∷ bs in
      ap (λ ws. apply_all ws d)
        (take-before m (write_log start cache 0 lh) _
          (rw (length-write_log start cache 0 lh) short))

  crashed_late :
      (b : ℕ) (bs : List ℕ) (m : ℕ)
      → length (b ∷ bs) < m
      → crashed (b ∷ bs) m
        ≡ apply_all
            (take
              (m - length (b ∷ bs) - 1)
              (install_trans start 0 (b ∷ bs) (headed (b ∷ bs)) ++ to_head [] ∷ []))
            (headed (b ∷ bs))
  unfolding commit apply_all
  crashed_late b bs m long =
      let ws = write_log start cache 0 (b ∷ bs) in
      let n = length-write_log start cache 0 (b ∷ bs) in
      let vs = install_trans start 0 (b ∷ bs) (headed (b ∷ bs)) ++ to_head [] ∷ [] in
      ap (λ us. apply_all us d) (take-after m ws (to_head (b ∷ bs)) vs (omega arith))
      ∙ apply_all-append ws (to_head (b ∷ bs) ∷ take (m - length ws - 1) vs) d
      ∙ ap (λ k. apply_all (take (m - k - 1) vs) (headed (b ∷ bs))) n

  crashed_nil : (m : ℕ) → crashed [] m ≡ d
  unfolding commit apply_all
  crashed_nil m = ap (λ ws. apply_all ws d) (take-nil m)

  same_either : (t : Bool) (x : ℕ) → d.block x ≡ (if t then d else updated cache [] d).block x
  same_either true x = refl
  same_either false x = refl

  -- The home blocks after a crash and recovery, one by one.
  crashed-block :
      (lh : List ℕ) (m : ℕ) (x : ℕ)
      → d.head ≡ []
      → length lh < size
      → AllHome start size lh
      → IsHome start size x
      → (recover_from_log start (crashed lh m)).block x
        ≡ (if leb m (length lh) then d else updated cache lh d).block x
  crashed-block [] m x blank room all home =
      rw (crashed_nil m) (recover-blank start d x blank ∙ same_either (leb m 0) x)
  crashed-block (b ∷ bs) m x blank room all home =
      let lh = b ∷ bs in
      elim (Bool-cases (leb m (length lh))) [
        | inl short ↦
            rw (short, crashed_early lh m (grind arith)) (crash_early lh m x blank room home)
        | inr long ↦
            rw (long, crashed_late b bs m (grind arith))
              (crash_late lh (m - length lh - 1) x room all home)
      ]

-- A crash at any point of `commit`, and a recovery after it, leave the blocks outside the log as they
-- were before, if at most all log blocks are written, and with all the transaction's blocks updated if
-- the header is written too: where no committed transaction was in the log, and the transaction's
-- blocks fit into the log and are outside it.
pub commit_atomic :
    {D : Type 0} (start size : ℕ) (cache : ℕ → D) (d : Disk D) (lh : List ℕ) (m : ℕ)
    → d.head ≡ []
    → length lh < size
    → AllHome start size lh
    → home_blocks start size
        (recover_from_log start (apply_all (take m (commit start cache lh d)) d))
      ≡ home_blocks start size (if leb m (length lh) then d else updated cache lh d)
commit_atomic start size cache d lh m blank room all =
    home_blocks-same start size (recover_from_log start (crashed start size cache d lh m))
      (if leb m (length lh) then d else updated cache lh d)
      (λ x home. crashed-block start size cache d lh m x blank room all home)
