-- ===== src/Fs/Update.antt =====
-- The bytes of an inode on the disk: what `iupdate` puts there.
use os_fcfs_prirority.Base.{
  ℕ, ◌+◌, ◌*◌, ◌^◌, ◌≤◌, ◌<◌, ◌≡◌, ◌≢◌, ◌⊎◌, inl, inr, refl, ◌∙◌, for_range, for_range_inv, arith,
  ◌==◌, if◌then◌else◌,
}
use os_fcfs_prirority.Fs.{Blocks, get_word, put, put_word, get_short, put_short}
use os_fcfs_prirority.Fs.Inode.{Inode, ndirect}
use os_fcfs_prirority.Fs.Slots.{get_word-put_word}

-- Byte `o` of block `c` is outside the bytes `lo` to `hi` of block `b`.
abbrev pub Outside : ℕ → ℕ → ℕ → ℕ → ℕ → Type 0
Outside b lo hi c o = (c ≢ b) ⊎ ((o < lo) ⊎ (hi ≤ o))

put_word-Outside :
    (s : Blocks) (b i v c o : ℕ) → Outside b (4 * i) (4 * i + 4) c o → put_word s b i v c o ≡ s c o
unfolding put_word put
put_word-Outside s b i v c o out = ground arith

put_short-Outside :
    (s : Blocks) (b i v c o : ℕ) → Outside b (2 * i) (2 * i + 2) c o → put_short s b i v c o ≡ s c o
unfolding put_short put
put_short-Outside s b i v c o out = ground arith

get_short-put_short :
    (s : Blocks) (b i v j : ℕ)
    → v < 2 ^ 16
    → get_short (put_short s b i v) b j ≡ (if j == i then v else get_short s b j)
unfolding get_short put_short put
get_short-put_short s b i v j lt = ground arith

get_short-same :
    (s s' : Blocks) (b i : ℕ)
    → s' b (2 * i) ≡ s b (2 * i)
    → s' b (2 * i + 1) ≡ s b (2 * i + 1)
    → get_short s' b i ≡ get_short s b i
unfolding get_short
get_short-same s s' b i e f = omega (arith, e, f)

get_word-near :
    (s s' : Blocks) (b i : ℕ)
    → ((o : ℕ) → o < 4 * i + 4 → s' b o ≡ s b o)
    → get_word s' b i ≡ get_word s b i
unfolding get_word
get_word-near s s' b i same =
    omega (arith, same (4 * i), same (4 * i + 1), same (4 * i + 2), same (4 * i + 3))

-- The loop over the addresses of an inode at place `q` of block `b`.
abbrev pub put_addrs : ℕ → ℕ → (ℕ → ℕ) → Blocks → Blocks
put_addrs b q f t = for_range (ndirect + 1) 0 (λ i s. put_word s b (16 * q + 3 + i) (f i)) t

put_addrs-Outside :
    (b q : ℕ) (f : ℕ → ℕ) (t : Blocks) (c o : ℕ)
    → Outside b (64 * q + 12) (64 * q + 64) c o
    → put_addrs b q f t c o ≡ t c o
put_addrs-Outside b q f t c o out =
    for_range_inv (λ _ s. s c o ≡ t c o) (λ i s. put_word s b (16 * q + 3 + i) (f i)) 13 13 0 refl
      (λ k s lo hi e. put_word-Outside s b (16 * q + 3 + k) (f k) c o (within out k hi) ∙ e) t refl
  where
    within :
        Outside b (64 * q + 12) (64 * q + 64) c o
        → (k : ℕ) → k < 13
        → Outside b (4 * (16 * q + 3 + k)) (4 * (16 * q + 3 + k) + 4) c o
    within (inl ne) k hi = inl ne
    within (inr (inl lt)) k hi = inr (inl (omega arith))
    within (inr (inr ge)) k hi = inr (inr (omega arith))

pub put_addrs-get :
    (b q : ℕ) (f : ℕ → ℕ) (t : Blocks) (i : ℕ)
    → ((k : ℕ) → f k < 2 ^ 32)
    → i < 13
    → get_word (put_addrs b q f t) b (16 * q + 3 + i) ≡ f i
put_addrs-get b q f t i fits lt =
    for_range_inv (λ k s. (j : ℕ) → j < k → get_word s b (16 * q + 3 + j) ≡ f j)
      (λ i s. put_word s b (16 * q + 3 + i) (f i)) 13 13 0 refl
      (λ k s lo hi e j hj.
        get_word-put_word s b (16 * q + 3 + k) (f k) (16 * q + 3 + j) (fits k)
        ∙ ground (arith, e j))
      t (λ j hj. absurd (omega arith)) i lt

-- The fields of `ip` fit into those on the disk.
pub record IsFitting (ip : Inode) : Type 0 where
  pub kind : ip.kind < 2 ^ 16
  pub major : ip.major < 2 ^ 16
  pub minor : ip.minor < 2 ^ 16
  pub nlink : ip.nlink < 2 ^ 16
  pub size : ip.size < 2 ^ 32
  pub addrs : (k : ℕ) → ip.addrs k < 2 ^ 32

-- The part of `iupdate` before the addresses.
abbrev pub put_shorts : ℕ → ℕ → Inode → Blocks → Blocks
put_shorts b q ip s =
    put_short
      (put_short (put_short (put_short s b (32 * q) ip.kind) b (32 * q + 1) ip.major) b (32 * q + 2)
        ip.minor)
      b (32 * q + 3) ip.nlink

abbrev pub put_head : ℕ → ℕ → Inode → Blocks → Blocks
put_head b q ip s = put_word (put_shorts b q ip s) b (16 * q + 2) ip.size

module _ (b q : ℕ) (ip : Inode) (s : Blocks) where
  put_head-Outside :
      (c o : ℕ) → Outside b (64 * q) (64 * q + 12) c o → put_head b q ip s c o ≡ s c o
  unfolding put_word put_short put
  put_head-Outside c o out = ground arith

  put_head-short :
      (j : ℕ)
      → j < 4
      → get_short (put_head b q ip s) b (32 * q + j)
        ≡ get_short (put_shorts b q ip s) b (32 * q + j)
  put_head-short j lt =
      let t = put_shorts b q ip s in
      get_short-same t (put_head b q ip s) b (32 * q + j)
        (put_word-Outside t b (16 * q + 2) ip.size b (2 * (32 * q + j)) (inr (inl (omega arith))))
        (put_word-Outside t b (16 * q + 2) ip.size b (2 * (32 * q + j) + 1)
          (inr (inl (omega arith))))

  put_shorts-get :
      (fits : IsFitting ip) (j : ℕ)
      → j < 4
      → get_short (put_shorts b q ip s) b (32 * q + j) ≡ (
          if j == 0
          then ip.kind
          else (if j == 1 then ip.major else (if j == 2 then ip.minor else ip.nlink)))
  put_shorts-get fits j lt =
      let s1 = put_short s b (32 * q) ip.kind in
      let s2 = put_short s1 b (32 * q + 1) ip.major in
      let s3 = put_short s2 b (32 * q + 2) ip.minor in
      ground (
        arith,
        get_short-put_short s b (32 * q) ip.kind (32 * q + j) fits.kind,
        get_short-put_short s1 b (32 * q + 1) ip.major (32 * q + j) fits.major,
        get_short-put_short s2 b (32 * q + 2) ip.minor (32 * q + j) fits.minor,
        get_short-put_short s3 b (32 * q + 3) ip.nlink (32 * q + j) fits.nlink,
      )

  -- The whole of what is put, seen through the loop over the addresses.
  abbrev pub put_all : Blocks
  put_all = put_addrs b q ip.addrs (put_head b q ip s)

  pub put_all-short :
      (fits : IsFitting ip) (j : ℕ)
      → j < 4
      → get_short put_all b (32 * q + j) ≡ (
          if j == 0
          then ip.kind
          else (if j == 1 then ip.major else (if j == 2 then ip.minor else ip.nlink)))
  put_all-short fits j lt =
      let t = put_head b q ip s in
      get_short-same t put_all b (32 * q + j)
        (put_addrs-Outside b q ip.addrs t b (2 * (32 * q + j)) (inr (inl (omega arith))))
        (put_addrs-Outside b q ip.addrs t b (2 * (32 * q + j) + 1) (inr (inl (omega arith))))
      ∙ put_head-short j lt
      ∙ put_shorts-get fits j lt

  pub put_all-size : (fits : IsFitting ip) → get_word put_all b (16 * q + 2) ≡ ip.size
  put_all-size fits =
      let t = put_head b q ip s in
      get_word-near t put_all b (16 * q + 2)
        (λ o hi. put_addrs-Outside b q ip.addrs t b o (inr (inl (omega arith))))
      ∙ get_word-put_word (put_shorts b q ip s) b (16 * q + 2) ip.size (16 * q + 2) fits.size
      ∙ ground arith

  pub put_all-Outside : (c o : ℕ) → Outside b (64 * q) (64 * q + 64) c o → put_all c o ≡ s c o
  put_all-Outside c o (inl ne) =
      put_addrs-Outside b q ip.addrs (put_head b q ip s) c o (inl ne)
      ∙ put_head-Outside c o (inl ne)
  put_all-Outside c o (inr (inl lt)) =
      put_addrs-Outside b q ip.addrs (put_head b q ip s) c o (inr (inl (omega arith)))
      ∙ put_head-Outside c o (inr (inl lt))
  put_all-Outside c o (inr (inr ge)) =
      put_addrs-Outside b q ip.addrs (put_head b q ip s) c o (inr (inr ge))
      ∙ put_head-Outside c o (inr (inr (omega arith)))

  pub put_all-addr :
      (fits : IsFitting ip) (i : ℕ) → i < 13 → get_word put_all b (16 * q + 3 + i) ≡ ip.addrs i
  put_all-addr fits i lt = put_addrs-get b q ip.addrs (put_head b q ip s) i fits.addrs lt
