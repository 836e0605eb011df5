-- ===== src/Fs/Path.antt =====
-- The elements of a path: `skipelem`.
use os_fcfs_prirority.Base.{
  ℕ, zero, suc, ◌+◌, ◌-◌, ◌≤◌, ◌<◌, ◌≡◌, inl, inr, refl, sym, ap, subst, ◌∙◌, Bool, true, false,
  not, ◌&&◌, Option, none, some, Bool-cases, update, arith, ltb, leb, ◌==◌, if◌then◌else◌,
}
use os_fcfs_prirority.Fs.Inode.{copy}
use os_fcfs_prirority.Fs.Dir.{dirsiz, slash, skip_slashes, skip_name, skipelem}

abbrev pub is_slash : ℕ → Bool
is_slash b = b == slash

-- A byte of an element.
abbrev pub is_part : ℕ → Bool
is_part b = not (b == slash) && not (b == 0)

-- From `p` to before `e` the bytes pass the test, and the one at `e` does not.
pub record IsRun (test : ℕ → Bool) (text : ℕ → ℕ) (p e : ℕ) : Type 0 where
  pub order : p ≤ e
  pub hits : (k : ℕ) → p ≤ k → k < e → test (text k) ≡ true
  pub stop : test (text e) ≡ false

module _ (text : ℕ → ℕ) where
  stop_here : (test : ℕ → Bool) (p : ℕ) → test (text p) ≡ false → IsRun test text p p
  stop_here test p h = record {
    order = omega arith;
    hits = λ k lo hi. absurd (omega arith);
    stop = h;
  }

  go_on :
      (test : ℕ → Bool) (p e : ℕ)
      → test (text p) ≡ true
      → IsRun test text (suc p) e
      → IsRun test text p e
  go_on test p e h r = record {
    order = omega (arith, r.order);
    hits = λ k lo hi. elim (Bool-cases (p == k)) [
      | inl here ↦ let at : p ≡ k = ground arith in subst (λ j. test (text j) ≡ true) at h
      | inr other ↦ r.hits k (ground arith) hi
    ];
    stop = r.stop;
  }

  skip_slashes-IsRun :
      (fuel p z : ℕ)
      → text z ≡ 0
      → p ≤ z
      → z < p + fuel
      → IsRun is_slash text p (skip_slashes fuel text p)
  unfolding skip_slashes
  skip_slashes-IsRun zero p z nul lo hi = absurd (omega arith)
  skip_slashes-IsRun (suc fuel) p z nul lo hi = elim (Bool-cases (text p == slash)) [
    | inr other ↦ rw other (stop_here is_slash p other)
    | inl on ↦ rw on (
        go_on is_slash p (skip_slashes fuel text (suc p)) on
          (skip_slashes-IsRun fuel (suc p) z nul (before p z on nul lo) (omega arith)))
  ]
    where
      before : (p z : ℕ) → (text p == slash) ≡ true → text z ≡ 0 → p ≤ z → suc p ≤ z
      before p z on nul lo = elim (Bool-cases (p == z)) [
        | inl same ↦ let at : p ≡ z = ground arith in cc (rw (ap text at ∙ nul) at on)
        | inr other ↦ ground arith
      ]

  skip_name-IsRun :
      (fuel p z : ℕ)
      → text z ≡ 0
      → p ≤ z
      → z < p + fuel
      → IsRun is_part text p (skip_name fuel text p)
  unfolding skip_name
  skip_name-IsRun zero p z nul lo hi = absurd (omega arith)
  skip_name-IsRun (suc fuel) p z nul lo hi = elim (Bool-cases (is_part (text p))) [
    | inr other ↦ rw other (stop_here is_part p other)
    | inl on ↦ rw on (
        go_on is_part p (skip_name fuel text (suc p)) on
          (skip_name-IsRun fuel (suc p) z nul (before p z on nul lo) (omega arith)))
  ]
    where
      before : (p z : ℕ) → is_part (text p) ≡ true → text z ≡ 0 → p ≤ z → suc p ≤ z
      before p z on nul lo = elim (Bool-cases (p == z)) [
        | inl same ↦ let at : p ≡ z = ground arith in cc (rw (ap text at ∙ nul) at on)
        | inr other ↦ ground arith
      ]

  -- A run does not pass a NUL.
  run_le :
      (test : ℕ → Bool) (p e z : ℕ)
      → test 0 ≡ false
      → text z ≡ 0
      → p ≤ z
      → IsRun test text p e
      → e ≤ z
  run_le test p e z zero_fails nul lo r = elim (Bool-cases (leb e z)) [
    | inl le ↦ ground arith
    | inr past ↦
        let hit = r.hits z lo (ground arith) in cc (sym zero_fails ∙ ap test (sym nul) ∙ hit)
  ]

  -- The element that starts at `start` and ends before `end`, and what `name` holds of it.
  pub record IsElem (path : ℕ) (name : ℕ → ℕ) (rest : ℕ) (name' : ℕ → ℕ) (start end : ℕ)
      : Type 0 where
    pub leading : IsRun is_slash text path start
    pub element : IsRun is_part text start end
    pub some_bytes : start < end
    pub trailing : IsRun is_slash text end rest
    pub copied :
        (k : ℕ)
        → k < dirsiz
        → name' k ≡ (
            if ltb k (end - start)
            then text (start + k)
            else (if k == end - start then 0 else name k))

  -- What `skipelem` gives: an element, or that there are only slashes.
  abbrev pub Outcome : ℕ → (ℕ → ℕ) → Option (ℕ × (ℕ → ℕ)) → Type 0
  Outcome path name none = (start : ℕ) × IsRun is_slash text path start × (text start ≡ 0)
  Outcome path name (some (rest, name')) =
      (start : ℕ) × (end : ℕ) × IsElem path name rest name' start end

  copied_name :
      (name : ℕ → ℕ) (start len k : ℕ)
      → k < dirsiz
      → (if leb dirsiz len
            then copy name 0 text start dirsiz
            else update (copy name 0 text start len) len 0)
          k
        ≡ (if ltb k len then text (start + k) else (if k == len then 0 else name k))
  unfolding copy
  copied_name name start len k lt =
      let e : k - 0 ≡ k = omega arith in
      elim (Bool-cases (leb dirsiz len)) [
        | inl long ↦
            let all : (leb 0 k && ltb k (0 + dirsiz)) ≡ true = ground arith in
            let inside : ltb k len ≡ true = ground arith in
            rw (long, all, inside) (ap (λ j. text (start + j)) e)
        | inr short ↦ elim (Bool-cases (ltb k len)) [
          | inl inside ↦
              let other : (len == k) ≡ false = ground arith in
              let within : (leb 0 k && ltb k (0 + len)) ≡ true = ground arith in
              rw (short, other, within, inside) (ap (λ j. text (start + j)) e)
          | inr past ↦
              let out : (leb 0 k && ltb k (0 + len)) ≡ false = ground arith in
              let flip : (len == k) ≡ (k == len) = ground arith in rw (short, flip, out, past) refl
        ]
      ]

  -- `skipelem` at a path that ends in a NUL, with fuel up to it: past the slashes, the element is what
  -- comes before the next slash or the end, and is not empty; its bytes are in `name`, as many as there
  -- is room for, with a NUL after them if there is room, and the rest of the path starts after the
  -- slashes that follow. Or there are only slashes.
  pub skipelem_outcome :
      (fuel path z : ℕ) (name : ℕ → ℕ)
      → text z ≡ 0
      → path ≤ z
      → z < path + fuel
      → Outcome path name (skipelem fuel text path name)
  unfolding skipelem
  skipelem_outcome fuel path z name nul lo hi =
      let start = skip_slashes fuel text path in
      let r1 = skip_slashes-IsRun fuel path z nul lo hi in
      let le1 = run_le is_slash path start z refl nul lo r1 in
      elim (Bool-cases (text start == 0)) [
        | inl over ↦ rw over (start, r1, ground arith)
        | inr more ↦
            let end = skip_name fuel text start in
            let r2 = skip_name-IsRun fuel start z nul le1 (omega (arith, r1.order)) in
            let le2 = run_le is_part start end z refl nul le1 r2 in
            let r3 = skip_slashes-IsRun fuel end z nul le2 (omega (arith, r1.order, r2.order)) in
            rw more (
              start,
              end,
              record {
                leading = r1;
                element = r2;
                some_bytes = longer start end r1.stop more r2;
                trailing = r3;
                copied = λ k lt. copied_name name start (end - start) k lt;
              },
            )
      ]
    where
      longer :
          (start end : ℕ)
          → is_slash (text start) ≡ false
          → (text start == 0) ≡ false
          → IsRun is_part text start end
          → start < end
      longer start end no_slash no_nul r = elim (Bool-cases (start == end)) [
        | inr other ↦ ground (arith, r.order)
        | inl same ↦
            let at : start ≡ end = ground arith in
            let stop : is_part (text start) ≡ false =
              subst (λ j. is_part (text j) ≡ false) (sym at) r.stop in
            cc (rw (no_slash, no_nul) at stop)
      ]
