-- ===== src/Pipe/Ring.antt =====
-- The ring holds a queue of bytes.
use mathlib.Core.List.{append-nil, append_assoc}
use os_fcfs_prirority.Base.{
  ℕ, zero, suc, ◌+◌, ◌-◌, ◌%◌, ◌^◌, ◌≤◌, ◌<◌, ◌≡◌, ◌≢◌, refl, ap, ap₂, ◌↔◌, ◌∙◌, u32, sub32, List,
  [], ◌∷◌, ◌++◌, update, update_self, update_ne, take, drop, length, arith, take-nil, drop-nil,
  ◌==◌, Bool-cases, inl, inr, true, false,
}
use os_fcfs_prirority.Pipe.{Pipe, pipesize, is_full, put_byte, fill, drain}

-- `n` bytes of the ring from counter `s` on.
abbrev pub bytes : (ℕ → ℕ) → ℕ → ℕ → List ℕ
bytes buf s zero = []
bytes buf s (suc n) = buf (s % pipesize) ∷ bytes buf (u32 (s + 1)) n

-- How many bytes the pipe holds.
abbrev pub used : Pipe → ℕ
used p = sub32 p.nwrite p.nread

-- The bytes that it holds, oldest first.
abbrev pub contents : Pipe → List ℕ
contents p = bytes p.buf p.nread (used p)

pub record IsValid (p : Pipe) : Type 0 where
  pub read_word : p.nread < 2 ^ 32
  pub write_word : p.nwrite < 2 ^ 32
  pub within : used p ≤ pipesize

length-bytes : (buf : ℕ → ℕ) (s n : ℕ) → length (bytes buf s n) ≡ n
length-bytes buf s zero = refl
length-bytes buf s (suc n) = ap suc (length-bytes buf (u32 (s + 1)) n)

-- Writing just past a stretch of fewer than 512 bytes extends it by that byte.
bytes-update :
    (buf : ℕ → ℕ) (b n s w : ℕ)
    → n < pipesize
    → s < 2 ^ 32
    → w ≡ u32 (s + n)
    → bytes (update buf (w % pipesize) b) s (suc n) ≡ bytes buf s n ++ b ∷ []
bytes-update buf b zero s w lt ls e =
    let q : w % pipesize ≡ s % pipesize = omega arith in
    rw q (ap (λ x. x ∷ []) (update_self buf (s % pipesize) b))
bytes-update buf b (suc n) s w lt ls e =
    ap₂ ◌∷◌ (update_ne buf (w % pipesize) b (s % pipesize) (omega arith))
      (bytes-update buf b n (u32 (s + 1)) w (omega arith) (omega arith) (omega arith))

put_byte-IsValid : (b : ℕ) (p : Pipe) → IsValid p → used p < pipesize → IsValid (put_byte b p)
unfolding put_byte
put_byte-IsValid b p v lt = omega arith

used-put_byte :
    (b : ℕ) (p : Pipe) → IsValid p → used p < pipesize → used (put_byte b p) ≡ suc (used p)
unfolding put_byte
used-put_byte b p v lt = omega arith

-- A byte that is written goes to the end of the queue.
contents-put_byte :
    (b : ℕ) (p : Pipe)
    → IsValid p
    → used p < pipesize
    → contents (put_byte b p) ≡ contents p ++ b ∷ []
unfolding put_byte
contents-put_byte b p v lt =
    let e : used (put_byte b p) ≡ suc (used p) = omega arith in
    rw e (bytes-update p.buf b (used p) p.nread p.nwrite lt v.read_word (omega arith))

-- The pipe is full exactly when it holds 512 bytes.
is_full-used : (p : Pipe) → IsValid p → (is_full p ≡ true) ↔ (used p ≡ pipesize)
is_full-used p v = ground arith

-- What the loop of `pipewrite` has done when it stops.
pub record IsFilled (bs : List ℕ) (p : Pipe) (out : Pipe × List ℕ) : Type 0 where
  pub valid : IsValid out.0
  pub stored : contents out.0 ≡ contents p ++ take (pipesize - used p) bs
  pub left : out.1 ≡ drop (pipesize - used p) bs
  pub same_ends : (out.0.readopen ≡ p.readopen) × (out.0.writeopen ≡ p.writeopen)

-- The loop stores as many bytes as there is room for, in order, and keeps the others to write.
pub fill-IsFilled : (bs : List ℕ) (p : Pipe) → IsValid p → IsFilled bs p (fill bs p)
unfolding fill
fill-IsFilled [] p v = record {
  valid = v;
  stored = rw (take-nil (pipesize - used p), append-nil);
  left = rw (drop-nil (pipesize - used p));
  same_ends = (refl, refl);
}
fill-IsFilled (b ∷ bs) p v = elim (Bool-cases (is_full p)) [
  | inl e ↦
      rw (fill, e)
        (let none_left : pipesize - used p ≡ 0 = omega (arith, (is_full-used p v).0 e) in
          record {
            valid = v;
            stored = rw (none_left, append-nil);
            left = rw none_left;
            same_ends = (refl, refl);
          })
  | inr e ↦
      rw (fill, e)
        (more (room e) (fill-IsFilled bs (put_byte b p) (put_byte-IsValid b p v (room e))))
]
  where
    room : is_full p ≡ false → used p < pipesize
    room e = ground (arith, is_full-used p v)

    more :
        used p < pipesize
        → IsFilled bs (put_byte b p) (fill bs (put_byte b p))
        → IsFilled (b ∷ bs) p (fill bs (put_byte b p))
    more lt r =
        let step : pipesize - used p ≡ suc (pipesize - used (put_byte b p)) =
          omega (arith, used-put_byte b p v lt) in
        record {
          valid = r.valid;
          stored = rw step (
              r.stored
              ∙ rw (contents-put_byte b p v lt)
                  (append_assoc (contents p) (b ∷ []) (take (pipesize - used (put_byte b p)) bs)));
          left = rw step r.left;
          same_ends = unfold put_byte in r.same_ends;
        }

-- The loop leaves bytes only when the pipe is full.
pub fill-full :
    (bs : List ℕ) (p : Pipe) → IsValid p → (fill bs p).1 ≢ [] → used (fill bs p).0 ≡ pipesize
unfolding fill
fill-full [] p v left = absurd (left refl)
fill-full (b ∷ bs) p v left = elim (Bool-cases (is_full p)) [
  | inl e ↦ rw (fill, e) ((is_full-used p v).0 e)
  | inr e ↦
      let lt : used p < pipesize = ground (arith, is_full-used p v) in
      rw (fill, e) (fill-full bs (put_byte b p) (put_byte-IsValid b p v lt) (rw (fill, e) at left))
]

-- What the copying loop of `piperead` has done when it stops.
pub record IsDrained (n : ℕ) (p : Pipe) (out : List ℕ × Pipe) : Type 0 where
  pub valid : IsValid out.1
  pub copied : out.0 ≡ take n (contents p)
  pub rest : contents out.1 ≡ drop n (contents p)

pub drain-IsDrained : (n : ℕ) (p : Pipe) → IsValid p → IsDrained n p (drain n p)
unfolding drain
drain-IsDrained zero p v = record { valid = v; copied = refl; rest = refl }
drain-IsDrained (suc n) p v = elim (Bool-cases (p.nread == p.nwrite)) [
  | inl e ↦
      rw (drain, e)
        (let none_left : used p ≡ 0 = ground arith in
          record { valid = v; copied = rw none_left; rest = rw none_left })
  | inr e ↦ rw (drain, e) (more (drain-IsDrained n next (ground arith)) (ground arith))
]
  where
    next : Pipe
    next = record p { nread = u32 (p.nread + 1) }

    more :
        IsDrained n next (drain n next)
        → used p ≡ suc (used next)
        → IsDrained (suc n) p (p.buf (p.nread % pipesize) ∷ (drain n next).0, (drain n next).1)
    more r step = record {
      valid = r.valid;
      copied = rw step (ap (λ xs. p.buf (p.nread % pipesize) ∷ xs) r.copied);
      rest = rw step r.rest;
    }
