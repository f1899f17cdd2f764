-- ===== src/Filelog/Loops.antt =====
-- filelog/filelog.go: writeloop, which gathers log records in a block and appends the block to the
-- file, and readloop, which reads blocks and hands their records to SubFunc.
pub mod Stored
pub mod OnWay
pub mod Rounds
pub mod Events
pub mod Delivery
use ws_cluster.Common.{
  replicate, ℕ, ◌+◌, ◌%◌, ◌^◌, Bool, true, false, List, [], ◌∷◌, ◌++◌, length, Option, none, some,
  Result, ok, err, Error, panicked, blocked, M, ◌>>=◌, ◌>>◌, pure, ltb, if◌then◌else◌,
}
use ws_cluster.Filelog.Block.{
  Block, new_block, mode_read, mode_write, has_space, write, reset, read_records,
}
use ws_cluster.Filelog.File.{
  FileLog, Outcome, Calls, Reply, waiting, got, append_block, get_block, next_block, new_file_log,
  block_size,
}

-- `answers` are the errors sent to the callers of Write, and `given` the lists that SubFunc is called
-- with: a record that cannot be read is nil there.
pub record Loops : Type 0 where
  pub block : Block
  pub flog : FileLog
  pub answers : List (Result (Unit {0}))
  pub given : List (List (Option (List ℕ)))

-- The start of both loops over a file, with the block of writeloop.
unfoldable pub start_loops : FileLog → Option (Result Block) → Option (Result Loops)
start_loops flog none = none
start_loops flog (some (err e)) = some (err e)
start_loops flog (some (ok block)) =
    some (ok (record { block = block; flog = flog; answers = []; given = [] }))

unfoldable pub open_log : List ℕ → Option (Result Loops)
unfolding start_loops
open_log file = start_loops (new_file_log file) (new_block (replicate block_size 0) mode_write)

unfoldable pub reset_block : M Loops (Unit {0})
reset_block s = let (r, block) = reset s.block in (r, record s { block = block })

-- An error of appendBlock is only logged; a wait for the lock never ends.
unfoldable pub flushed : Reply → FileLog → M Loops (Unit {0})
unfolding reset_block
flushed waiting flog s = (err blocked, s)
flushed reply flog s = reset_block (record s { flog = flog })

unfoldable pub flush : Outcome → Outcome → M Loops (Unit {0})
unfolding flushed
flush o o' s = let (reply, flog) = append_block o o' s.block.buf s.flog in flushed reply flog s

-- `err := block.write(wlog.bytes); wlog.err <- err`
unfoldable pub answer_write : Result (Unit {0}) × Block → M Loops (Unit {0})
answer_write (err panicked, block) s = (err panicked, s)
answer_write (r, block) s = (ok tt, record s { block = block; answers = s.answers ++ (r ∷ []) })

-- The case of writeloop for a record.
unfoldable pub log_record : Outcome → Outcome → List ℕ → M Loops (Unit {0})
unfolding flush answer_write
log_record o o' b = do
  (λ s. if has_space ((length b + 2) % 2 ^ 16) s.block then (ok tt, s) else flush o o' s)
  (λ s. answer_write (write b s.block) s)

-- The case of writeloop for a tick.
unfoldable pub log_tick : Outcome → Outcome → M Loops (Unit {0})
unfolding flush
log_tick o o' s = if ltb 0 s.block.count then flush o o' s else (ok tt, s)

unfoldable pub hand_over : Result (List (Option (List ℕ))) × Block → M Loops (Unit {0})
hand_over (ok bufs, block) s = (ok tt, record s { given = s.given ++ (bufs ∷ []) })
hand_over (err e, block) s = (err e, s)

unfoldable pub read_block : Option (Result Block) → M Loops (Unit {0})
unfolding hand_over
read_block (some (ok block)) s = hand_over (read_records block.count block) s
read_block (some (err e)) s = (err e, s)
read_block none s = (err panicked, s)

unfoldable pub receive_block : Reply → FileLog → M Loops (Unit {0})
unfolding read_block
receive_block (got buf) flog s = read_block (new_block buf mode_read) (record s { flog = flog })
receive_block waiting flog s = (err blocked, s)
receive_block reply flog s = (ok tt, record s { flog = flog })

-- One round of readloop.
unfoldable pub read_round : Calls → M Loops (Unit {0})
unfolding receive_block
read_round calls s =
    let (reply, flog) = get_block calls s.flog in
    if s.flog.locked
    then (err blocked, s)
    else if next_block s.flog
    then receive_block reply flog s
    else (ok tt, s)
