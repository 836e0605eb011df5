-- ===== src/Fs/Refs.antt =====
-- The table of inodes: one entry for an inode.
use os_fcfs_prirority.Base.{
  ℕ, zero, suc, ◌+◌, ◌<◌, ◌≡◌, ◌≢◌, inl, inr, refl, sym, subst, ◌∙◌, false, ◌&&◌, Option, none,
  some, Bool-cases, update, update_self, update_ne, arith, ltb, ◌==◌,
}
use os_fcfs_prirority.Fs.Inode.{Inode}
use os_fcfs_prirority.Fs.Cache.{ninode, Seen, cached, vacant, full, remember, iget_scan, iget}

-- No inode has two entries that are referred to.
abbrev pub IsSingle : (ℕ → Inode) → Type 0
IsSingle c =
    (i j : ℕ)
    → i < ninode
    → j < ninode
    → 0 < (c i).ref
    → 0 < (c j).ref
    → (c i).inum ≡ (c j).inum
    → i ≡ j

-- The remembered entry is empty.
abbrev Vacancy : (ℕ → Inode) → Option ℕ → Type 0
Vacancy c none = Unit {0}
Vacancy c (some e) = (e < ninode) × ((c e).ref ≡ 0)

-- What the loop of `iget` says.
abbrev Says : ℕ → (ℕ → Inode) → Seen → Type 0
Says inum c (cached k) = (k < ninode) × (0 < (c k).ref) × ((c k).inum ≡ inum)
Says inum c (vacant k) =
    (k < ninode) × ((c k).ref ≡ 0) × ((j : ℕ) → j < ninode → 0 < (c j).ref → (c j).inum ≢ inum)
Says inum c full = (j : ℕ) → j < ninode → ((c j).ref ≢ 0) × ((c j).inum ≢ inum)

remember-Vacancy :
    (empty : Option ℕ) (i : ℕ) (c : ℕ → Inode)
    → i < ninode
    → Vacancy c empty
    → Vacancy c (remember empty i (c i))
remember-Vacancy none i c lt v = elim (Bool-cases ((c i).ref == 0)) [
  | inl e ↦ rw e (lt, ground arith)
  | inr e ↦ rw e tt
]
remember-Vacancy (some e) i c lt v = v

remember-busy :
    (empty : Option ℕ) (i : ℕ) (c : ℕ → Inode)
    → (empty ≡ none → (j : ℕ) → j < i → (c j).ref ≢ 0)
    → remember empty i (c i) ≡ none
    → (j : ℕ) → j < suc i
    → (c j).ref ≢ 0
remember-busy none i c busy h j lt = elim (Bool-cases ((c i).ref == 0)) [
  | inl e ↦ cc (rw e at h)
  | inr e ↦ elim (Bool-cases (j == i)) [
    | inl same ↦ let at : i ≡ j = ground arith in subst (λ k. (c k).ref ≢ 0) at (ground arith)
    | inr other ↦ busy refl j (ground arith)
  ]
]
remember-busy (some e) i c busy h j lt = cc

iget_scan-Says :
    (inum n i : ℕ) (empty : Option ℕ) (c : ℕ → Inode)
    → i + n ≡ ninode
    → Vacancy c empty
    → ((j : ℕ) → j < i → 0 < (c j).ref → (c j).inum ≢ inum)
    → (empty ≡ none → (j : ℕ) → j < i → (c j).ref ≢ 0)
    → Says inum c (iget_scan inum n i empty c)
unfolding iget_scan
iget_scan-Says inum zero i none c e v old busy =
    λ j lt. let there = busy refl j (omega arith) in (there, old j (omega arith) (omega arith))
iget_scan-Says inum zero i (some k) c e v old busy = (v.0, v.1, λ j lt. old j (omega arith))
iget_scan-Says inum (suc n) i empty c e v old busy =
    elim (Bool-cases (ltb 0 (c i).ref && (c i).inum == inum)) [
      | inl hit ↦ rw hit (omega arith, ground arith, ground arith)
      | inr miss ↦ rw miss (
          iget_scan-Says inum n (suc i) (remember empty i (c i)) c (omega arith)
            (remember-Vacancy empty i c (omega arith) v)
            (λ j lt there. elim (Bool-cases (j == i)) [
              | inl same ↦
                  let at : i ≡ j = ground arith in
                  let none_here : 0 < (c i).ref → (c i).inum ≢ inum = λ t. ground arith in
                  subst (λ k. 0 < (c k).ref → (c k).inum ≢ inum) at none_here there
              | inr other ↦ old j (ground arith) there
            ])
            (remember-busy empty i c busy))
    ]

-- The entry that `iget` returns: the inode's, with a reference more and nothing else changed; or one
-- that was empty, made the inode's, to be read again, where no entry was the inode's.
pub data Entered (inum : ℕ) (c : ℕ → Inode) (i : ℕ) (ip : Inode) : Type 0 where
  shared :
      0 < (c i).ref
      → (c i).inum ≡ inum
      → ip ≡ record (c i) { ref = (c i).ref + 1 }
      → Entered inum c i ip
  made :
      (c i).ref ≡ 0
      → ((j : ℕ) → j < ninode → 0 < (c j).ref → (c j).inum ≢ inum)
      → ip ≡ record (c i) { inum = inum; ref = 1; valid = false }
      → Entered inum c i ip

-- What `iget` of inode `inum` leaves: entry `i` is the inode's, and all others are as they were.
pub record IsGot (inum : ℕ) (c : ℕ → Inode) (i : ℕ) (c' : ℕ → Inode) : Type 0 where
  pub inside : i < ninode
  pub entry : Entered inum c i (c' i)
  pub single : IsSingle c'
  pub others : (j : ℕ) → j ≢ i → c' j ≡ c j

-- An entry is replaced by one whose inode no other entry has.
update-IsSingle :
    (c : ℕ → Inode) (i : ℕ) (ip : Inode)
    → i < ninode
    → IsSingle c
    → ((j : ℕ) → j < ninode → j ≢ i → 0 < (c j).ref → (c j).inum ≢ ip.inum)
    → IsSingle (update c i ip)
update-IsSingle c i ip lt single alone j k hj hk tj tk e = elim (Bool-cases (i == j)) [
  | inl ej ↦ elim (Bool-cases (i == k)) [
    | inl ek ↦ ground arith
    | inr nk ↦ absurd (alone k hk (ground arith) (rw nk at tk) (sym (rw (ej, nk) at e)))
  ]
  | inr nj ↦ elim (Bool-cases (i == k)) [
    | inl ek ↦ absurd (alone j hj (ground arith) (rw nj at tj) (rw (nj, ek) at e))
    | inr nk ↦ single j k hj hk (rw nj at tj) (rw nk at tk) (rw (nj, nk) at e)
  ]
]

iget_case :
    (inum : ℕ) (c : ℕ → Inode) (i : ℕ) (ip : Inode)
    → i < ninode
    → IsSingle c
    → ip.inum ≡ inum
    → Entered inum c i ip
    → ((j : ℕ) → j < ninode → j ≢ i → 0 < (c j).ref → (c j).inum ≢ inum)
    → IsGot inum c i (update c i ip)
iget_case inum c i ip lt single e entered alone = record {
  inside = lt;
  entry = subst (Entered inum c i) (sym (update_self c i ip)) entered;
  single = update-IsSingle c i ip lt single (λ j hj ne there q. alone j hj ne there (q ∙ e));
  others = λ j ne. update_ne c i ip j (λ q. ne (sym q));
}

-- What the outcome of `iget` says.
abbrev pub Outcome : ℕ → (ℕ → Inode) → Option (ℕ × (ℕ → Inode)) → Type 0
Outcome inum c none = (j : ℕ) → j < ninode → ((c j).ref ≢ 0) × ((c j).inum ≢ inum)
Outcome inum c (some (i, c')) = IsGot inum c i c'

abbrev taken : ℕ → (ℕ → Inode) → Seen → Option (ℕ × (ℕ → Inode))
taken inum c (cached i) = some (i, update c i (record (c i) { ref = (c i).ref + 1 }))
taken inum c (vacant i) =
    some (i, update c i (record (c i) { inum = inum; ref = 1; valid = false }))
taken inum c full = none

taken-Outcome :
    (inum : ℕ) (c : ℕ → Inode) (r : Seen)
    → IsSingle c
    → Says inum c r
    → Outcome inum c (taken inum c r)
taken-Outcome inum c (cached i) single (lt, there, e) =
    iget_case inum c i (record (c i) { ref = (c i).ref + 1 }) lt single e (shared there e refl)
      (λ j hj ne tj q. ne (single j i hj lt tj there (q ∙ sym e)))
taken-Outcome inum c (vacant i) single (lt, gone, alone) =
    iget_case inum c i (record (c i) { inum = inum; ref = 1; valid = false }) lt single refl
      (made gone alone refl) (λ j hj ne tj. alone j hj tj)
taken-Outcome inum c full single says = says

iget_taken :
    (inum : ℕ) (c : ℕ → Inode) → iget inum c ≡ taken inum c (iget_scan inum ninode 0 none c)
unfolding iget
iget_taken inum c = by_case (iget_scan inum ninode 0 none c)
  where
    by_case :
        (r : Seen)
        → ◌≡◌ {A = Option (ℕ × (ℕ → Inode))}
            (elim r [
              | cached i ↦ some (i, update c i (record (c i) { ref = (c i).ref + 1 }))
              | vacant i ↦
                  some (i, update c i (record (c i) { inum = inum; ref = 1; valid = false }))
              | full ↦ none
            ])
            (taken inum c r)
    by_case (cached i) = refl
    by_case (vacant i) = refl
    by_case full = refl

-- `iget` on a table with one entry at most for an inode: it returns the inode's entry with
-- one reference more and no other change, if there is one, and else an empty entry that is made the
-- inode's and is to be read again; the table still has one entry at most for an inode, and all other
-- entries are as they were. Or it panics, and no entry is empty and none is the inode's.
pub iget_outcome : (inum : ℕ) (c : ℕ → Inode) → IsSingle c → Outcome inum c (iget inum c)
iget_outcome inum c single = subst (Outcome inum c) (sym (iget_taken inum c)) (
    taken-Outcome inum c (iget_scan inum ninode 0 none c) single (
      iget_scan-Says inum ninode 0 none c refl tt (λ j lt. absurd (omega arith))
        (λ _ j lt. absurd (omega arith))))
