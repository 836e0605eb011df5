-- ===== src/Pipe/Stream.antt =====
-- A pipe as a stream: what the readers get is what the writers gave, in order.
use mathlib.Core.List.{append-nil, append_assoc, append_cancel_right}
use os_fcfs_prirority.Base.{
  ℕ, zero, suc, ◌+◌, ◌-◌, ◌≤◌, ◌<◌, ◌≡◌, ◌≢◌, refl, ap, ap₂, ◌∙◌, sym, Bool, true, false, List, [],
  ◌∷◌, ◌++◌, take, drop, length, arith, ◌==◌, ◌&&◌, Bool-cases, inl, inr,
}
use os_fcfs_prirority.Pipe.{Pipe, pipesize, finished, waits, fill, pipewrite, piperead, pipeclose}
use os_fcfs_prirority.Pipe.Ring.{IsValid, used, contents, fill-IsFilled, fill-full, drain-IsDrained}

-- From pipe `p`, rounds of calls in any order lead to `q`; `ins` are the bytes that the writing rounds
-- have put in, which is what they had to write less what they still have, and `outs` are those that
-- the reading rounds have returned.
pub data Flow (p : Pipe) : List ℕ → List ℕ → Pipe → Type 0 where
  idle : Flow p [] [] p
  wrote :
      {ins outs : List ℕ} {q : Pipe}
      → Flow p ins outs q
      → (killed : Bool) (bs acc : List ℕ) → acc ++ (pipewrite killed bs q).2 ≡ bs
      → Flow p (ins ++ acc) outs (pipewrite killed bs q).1
  did_read :
      {ins outs : List ℕ} {q : Pipe}
      → Flow p ins outs q
      → (killed : Bool) (n : ℕ)
      → Flow p ins (outs ++ (piperead killed n q).1) (piperead killed n q).2
  closed :
      {ins outs : List ℕ} {q : Pipe}
      → Flow p ins outs q
      → (writable : Bool) → Flow p ins outs (pipeclose writable q).0

take-append-drop : (n : ℕ) (xs : List ℕ) → take n xs ++ drop n xs ≡ xs
take-append-drop zero xs = refl
take-append-drop (suc n) [] = refl
take-append-drop (suc n) (x ∷ xs) = ap (λ l. x ∷ l) (take-append-drop n xs)

drop-all : (n : ℕ) (xs : List ℕ) → length xs ≤ n → drop n xs ≡ []
drop-all zero [] h = refl
drop-all zero (x ∷ xs) h = absurd (omega arith)
drop-all (suc n) [] h = refl
drop-all (suc n) (x ∷ xs) h = drop-all n xs (omega arith)

take_of-append-drop : (m : ℕ) (bs acc : List ℕ) → acc ++ drop m bs ≡ bs → acc ≡ take m bs
take_of-append-drop m bs acc e =
    append_cancel_right acc (take m bs) (drop m bs) (e ∙ sym (take-append-drop m bs))

pipewrite-fill :
    (killed : Bool) (bs : List ℕ) (p : Pipe)
    → ((pipewrite killed bs p).1 ≡ (fill bs p).0) × ((pipewrite killed bs p).2 ≡ (fill bs p).1)
unfolding pipewrite
pipewrite-fill killed bs p = ground arith

-- A round of `piperead` returns the first bytes of the queue, none if it waits, and takes them off.
pub record IsRead (p : Pipe) (out : List ℕ) (q : Pipe) : Type 0 where
  pub valid : IsValid q
  pub split : out ++ contents q ≡ contents p

piperead-IsRead :
    (killed : Bool) (n : ℕ) (p : Pipe)
    → IsValid p
    → IsRead p (piperead killed n p).1 (piperead killed n p).2
unfolding piperead
piperead-IsRead killed n p v = elim (Bool-cases (p.nread == p.nwrite && p.writeopen)) [
  | inl e ↦ rw (piperead, e) (record { valid = v; split = refl })
  | inr e ↦
      let d = drain-IsDrained n p v in
      rw (piperead, e)
        (record {
          valid = d.valid;
          split = rw (d.copied, d.rest) (take-append-drop n (contents p));
        })
]

pipeclose_keeps :
    (writable : Bool) (q : Pipe)
    → IsValid q
    → IsValid (pipeclose writable q).0 × (contents (pipeclose writable q).0 ≡ contents q)
unfolding pipeclose
pipeclose_keeps true q v =
    (record { read_word = v.read_word; write_word = v.write_word; within = v.within }, refl)
pipeclose_keeps false q v =
    (record { read_word = v.read_word; write_word = v.write_word; within = v.within }, refl)

-- No byte is lost, doubled or moved: after any rounds on a valid pipe, what was returned followed by
-- what the pipe holds is what it held at first followed by what was put in.
pub Flow-fifo :
    {p q : Pipe} {ins outs : List ℕ}
    → IsValid p
    → Flow p ins outs q
    → IsValid q × (outs ++ contents q ≡ contents p ++ ins)
Flow-fifo v idle = (v, sym (append-nil _))
Flow-fifo {p = p} v (wrote {ins = ins} {outs = outs} {q = q} f killed bs acc e) =
    let (vq, fifo) = Flow-fifo v f in
    let (same, left) = pipewrite-fill killed bs q in
    let r = fill-IsFilled bs q vq in
    let given : acc ≡ take (pipesize - used q) bs =
      take_of-append-drop (pipesize - used q) bs acc (rw (left, r.left) at e) in
    rw same (
      r.valid,
      ap (λ l. outs ++ l) r.stored
          ∙ sym (append_assoc outs (contents q) (take (pipesize - used q) bs))
          ∙ ap₂ ◌++◌ fifo (sym given)
          ∙ append_assoc (contents p) ins acc,
    )
Flow-fifo v (did_read {outs = outs} {q = q} f killed n) =
    let (vq, fifo) = Flow-fifo v f in
    let r = piperead-IsRead killed n q vq in
    (r.valid, append_assoc outs _ _ ∙ ap (λ l. outs ++ l) r.split ∙ fifo)
Flow-fifo v (closed {outs = outs} {q = q} f writable) =
    let (vq, fifo) = Flow-fifo v f in
    let (vc, same) = pipeclose_keeps writable q vq in (vc, rw same fifo)

-- A round of `pipewrite` that has room for all its bytes finishes, whoever is killed or has closed.
pub pipewrite-finished :
    (killed : Bool) (bs : List ℕ) (p : Pipe)
    → IsValid p
    → length bs + used p ≤ pipesize
    → (pipewrite killed bs p).0 ≡ finished
unfolding pipewrite
pipewrite-finished killed bs p v room =
    let r = fill-IsFilled bs p v in
    let none_left : (fill bs p).1 ≡ [] = r.left ∙ drop-all (pipesize - used p) bs (omega arith) in
    rw (pipewrite, none_left)

-- A round of `pipewrite` sleeps only on a full pipe with an open reader, and only with bytes left.
pub pipewrite-waits :
    (killed : Bool) (bs : List ℕ) (p : Pipe)
    → IsValid p
    → (pipewrite killed bs p).0 ≡ waits
    → (p.readopen ≡ true)
      × (killed ≡ false)
      × ((pipewrite killed bs p).2 ≢ [])
      × (used (pipewrite killed bs p).1 ≡ pipesize)
unfolding pipewrite
pipewrite-waits killed bs p v h =
    let r = fill-IsFilled bs p v in ground (arith, r.same_ends, fill-full bs p v)

-- A round of `piperead` at a pipe that holds bytes returns at once, with the first `n` of them or all.
pub piperead-finished :
    (killed : Bool) (n : ℕ) (p : Pipe)
    → IsValid p
    → 0 < used p
    → ((piperead killed n p).0 ≡ finished) × ((piperead killed n p).1 ≡ take n (contents p))
unfolding piperead
piperead-finished killed n p v some_bytes =
    let e : (p.nread == p.nwrite && p.writeopen) ≡ false = ground arith in
    rw (piperead, e) (refl, (drain-IsDrained n p v).copied)
