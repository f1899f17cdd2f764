-- ===== src/Filelog/File/Fifo.antt =====
-- The file of blocks is a queue: what is appended is read once, in order.
use ws_cluster.Common.{ℕ, ◌≡◌, refl, ap, true, false, List, [], ◌∷◌, All, arith, ◌==◌, map}
use ws_cluster.Filelog.File.{FileLog, Reply, append_block, get_block, Calls, get_uint32}
use ws_cluster.Filelog.File.{new_file_log, read_failed, waiting}
use ws_cluster.Filelog.File.Layout.{
  Call, append, get, run_call, fifo_call, IsSound, log_at, empty_log, Holds, fresh, laid_out,
}
use ws_cluster.Filelog.File.Appending.{append-Holds, append-fresh}
use ws_cluster.Filelog.File.Getting.{get-Holds, get_block-none}

-- Every call does on the file what it does on the queue.
pub call-Holds :
    (c : Call) (flog : FileLog) (q : List (List ℕ))
    → IsSound c
    → Holds flog q
    → ((run_call c flog).0 ≡ (fifo_call c q).0) × Holds (run_call c flog).1 (fifo_call c q).1
call-Holds (append o o' b) flog q h (fresh e d) = rw (e, d) (append-fresh o o' b h)
call-Holds (get calls) flog q h (fresh e d) =
    rw (e, d) (unfold get_block in (refl, fresh refl refl))
call-Holds (append o o' b) flog q h (laid_out readblock head old junk hs os sizes e) =
    rw e (append-Holds readblock head old q junk hs os sizes o o' b h)
call-Holds (get calls) flog [] h (laid_out readblock head old junk hs os sizes e) = rw e (
    rw (get_block-none calls (log_at readblock head old [] junk) refl (omega arith))
      (refl, laid_out readblock head old junk hs os tt refl))
call-Holds (get calls) flog (b ∷ q) h (laid_out readblock head old junk hs os sizes e) =
    rw e (get-Holds readblock head old b q junk hs os sizes.0 sizes.1 calls h)

abbrev pub run_calls : List Call → FileLog → List Reply
run_calls [] flog = []
run_calls (c ∷ cs) flog = (run_call c flog).0 ∷ run_calls cs (run_call c flog).1

abbrev pub fifo_calls : List Call → List (List ℕ) → List Reply
fifo_calls [] q = []
fifo_calls (c ∷ cs) q = (fifo_call c q).0 ∷ fifo_calls cs (fifo_call c q).1

calls-Holds :
    (cs : List Call) (flog : FileLog) (q : List (List ℕ))
    → All IsSound cs
    → Holds flog q
    → run_calls cs flog ≡ fifo_calls cs q
calls-Holds [] flog q h v = refl
calls-Holds (c ∷ cs) flog q h v =
    let (e, w) = call-Holds c flog q h.0 v in
    rw (e, calls-Holds cs (run_call c flog).1 (fifo_call c q).1 h.1 w)

-- On a file that is empty at first, any calls that append whole blocks and read, whose reads do not
-- fail, return what they return on a queue of blocks: each block that is stored is read once, in
-- order, whatever becomes of the writes.
pub run_calls-fifo_calls :
    (cs : List Call) → All IsSound cs → run_calls cs (new_file_log []) ≡ fifo_calls cs []
unfolding new_file_log get_uint32
run_calls-fifo_calls cs h = calls-Holds cs empty_log [] h (fresh refl refl)

call_waits : (c : Call) (flog : FileLog) → flog.locked ≡ true → run_call c flog ≡ (waiting, flog)
unfolding append_block get_block
call_waits (append o o' b) flog l = rw l
call_waits (get calls) flog l = rw l

all_wait :
    (cs : List Call) (flog : FileLog)
    → flog.locked ≡ true
    → run_calls cs flog ≡ map (λ c. waiting) cs
all_wait [] flog l = refl
all_wait (c ∷ cs) flog l = rw (call_waits c flog l) (ap (λ t. waiting ∷ t) (all_wait cs flog l))

-- Once a read of the file fails, every later call waits for ever for the lock.
pub read_fault_waits :
    (calls : Calls) (flog : FileLog) (cs : List Call)
    → flog.locked ≡ false
    → (flog.readblock == flog.writeblock) ≡ false
    → calls.reads ≡ false
    → run_calls (get calls ∷ cs) flog ≡ read_failed ∷ map (λ c. waiting) cs
unfolding get_block
read_fault_waits calls flog cs l e f =
    rw (l, e, f) (ap (λ t. read_failed ∷ t) (all_wait cs (record flog { locked = true }) refl))
