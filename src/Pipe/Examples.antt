-- ===== src/Pipe/Examples.antt =====
-- A pipe whose counters wrap, and rounds of calls on it.
use os_fcfs_prirority.Base.{◌-◌, ◌^◌, ◌≡◌, refl, true, false, [], ◌∷◌, ◌++◌, update, arith, take}
use os_fcfs_prirority.Pipe.{Pipe, fresh, finished, put_byte, fill, pipewrite, drain, piperead}
use os_fcfs_prirority.Pipe.Ring.{used, IsValid, contents}
use os_fcfs_prirority.Pipe.Stream.{
  Flow, idle, wrote, did_read, Flow-fifo, pipewrite-finished, pipewrite-waits, piperead-finished,
}

-- One byte, 5, is held, and the write counter has wrapped.
abbrev wrapped : Pipe
wrapped = record (fresh (update (λ i. 0) 511 5)) { nread = 2 ^ 32 - 1; nwrite = 0 }

wrapped-IsValid : IsValid wrapped
wrapped-IsValid = omega arith

wrapped_runs :
    (contents wrapped ≡ 5 ∷ [])
    × ((piperead false 3 (pipewrite false (6 ∷ 7 ∷ 8 ∷ []) wrapped).1).1 ≡ 5 ∷ 6 ∷ 7 ∷ [])
unfolding pipewrite fill put_byte piperead drain
wrapped_runs = (refl, refl)

-- Three bytes are written, and three are read: the first is the one that was there.
abbrev later : Pipe
later = (pipewrite false (6 ∷ 7 ∷ 8 ∷ []) wrapped).1

exchange : Flow wrapped (6 ∷ 7 ∷ 8 ∷ []) (piperead false 3 later).1 (piperead false 3 later).2
unfolding pipewrite fill put_byte
exchange = did_read (wrote idle false (6 ∷ 7 ∷ 8 ∷ []) (6 ∷ 7 ∷ 8 ∷ []) refl) false 3

Flow-fifo_example :
    IsValid (piperead false 3 later).2
    × ((piperead false 3 later).1 ++ contents (piperead false 3 later).2
        ≡ contents wrapped ++ (6 ∷ 7 ∷ 8 ∷ []))
Flow-fifo_example = Flow-fifo wrapped-IsValid exchange

wrapped_finishes : (pipewrite true (6 ∷ 7 ∷ 8 ∷ []) wrapped).0 ≡ finished
wrapped_finishes = pipewrite-finished true (6 ∷ 7 ∷ 8 ∷ []) wrapped wrapped-IsValid (omega arith)

-- A full pipe with an open reader: the round sleeps.
abbrev full_pipe : Pipe
full_pipe = record (fresh (λ i. 9)) { nwrite = 512 }

full_pipe_stays : used (pipewrite false (3 ∷ []) full_pipe).1 ≡ 512
unfolding pipewrite fill
full_pipe_stays = (pipewrite-waits false (3 ∷ []) full_pipe (omega arith) refl).3

wrapped_read :
    ((piperead true 3 wrapped).0 ≡ finished)
    × ((piperead true 3 wrapped).1 ≡ take 3 (contents wrapped))
wrapped_read = piperead-finished true 3 wrapped wrapped-IsValid (omega arith)
