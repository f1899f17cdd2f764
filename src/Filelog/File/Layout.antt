-- ===== src/Filelog/File/Layout.antt =====
-- How the blocks lie in the file, and the queue that they are.
use ws_cluster.Common.{
  ℕ, ◌+◌, ◌*◌, ◌≡◌, ap, Bool, true, false, List, [], ◌∷◌, ◌++◌, length, All, arith, ◌==◌,
}
use ws_cluster.Filelog.File.{
  block_size, FileLog, Outcome, complete, short, Reply, appended, write_failed, number_failed, got,
  no_more_block, append_block, get_block, Calls,
}

-- The two calls that the loops make, and how the file's part in them ends.
pub data Call : Type 0 where
  append : Outcome → Outcome → List ℕ → Call
  get : Calls → Call

abbrev pub run_call : Call → FileLog → Reply × FileLog
run_call (append o o' b) flog = append_block o o' b flog
run_call (get calls) flog = get_block calls flog

-- The same calls on a queue.
abbrev pub fifo_call : Call → List (List ℕ) → Reply × List (List ℕ)
fifo_call (append complete complete b) q = (appended, q ++ (b ∷ []))
fifo_call (append complete (short n) b) q = (number_failed, q ++ (b ∷ []))
fifo_call (append (short n) o' b) q = (write_failed, q)
fifo_call (get calls) [] = (no_more_block, [])
fifo_call (get calls) (b ∷ q) = (got b, q)

-- An append of a whole block; a read that does not fail.
abbrev pub IsSound : Call → Type 0
IsSound (append o o' b) = length b ≡ block_size
IsSound (get calls) = calls.reads ≡ true

abbrev pub blocks_bytes : List (List ℕ) → List ℕ
blocks_bytes [] = []
blocks_bytes (b ∷ q) = b ++ blocks_bytes q

abbrev pub IsBlock : List ℕ → Type 0
IsBlock b = length b ≡ block_size

abbrev pub log_at : ℕ → List ℕ → List ℕ → List (List ℕ) → List ℕ → FileLog
log_at readblock head old q junk = record {
  writeblock = readblock + length q;
  readblock = readblock;
  file = head ++ (old ++ (blocks_bytes q ++ junk));
  locked = false;
}

abbrev pub empty_log : FileLog
empty_log = record { writeblock = 0; readblock = 0; file = []; locked = false }

-- The blocks that are in the file and are not read yet: behind the 8 bytes of the two numbers and
-- the blocks that are read.
pub data Holds (flog : FileLog) (q : List (List ℕ)) : Type 0 where
  fresh : flog ≡ empty_log → q ≡ [] → Holds flog q
  laid_out :
      (readblock : ℕ) (head old junk : List ℕ)
      → length head ≡ 8
      → length old ≡ readblock * block_size
      → All IsBlock q
      → flog ≡ log_at readblock head old q junk
      → Holds flog q

pub same_log :
    (w v r : ℕ) (f g : List ℕ) (l : Bool)
    → w ≡ v
    → f ≡ g
    → Path FileLog
        (record { writeblock = w; readblock = r; file = f; locked = l })
        (record { writeblock = v; readblock = r; file = g; locked = l })
same_log w v r f g l e d = rw (e, d)

pub Holds-locked : {flog : FileLog} {q : List (List ℕ)} → Holds flog q → flog.locked ≡ false
Holds-locked (fresh e d) = rw e
Holds-locked (laid_out readblock head old junk hs os sizes e) = rw e

pub Holds-none : {flog : FileLog} → Holds flog [] → flog.writeblock ≡ flog.readblock
Holds-none (fresh e d) = rw e
Holds-none (laid_out readblock head old junk hs os sizes e) = rw e (omega arith)

pub Holds-some :
    {flog : FileLog} {b : List ℕ} {q : List (List ℕ)}
    → Holds flog (b ∷ q)
    → (flog.readblock == flog.writeblock) ≡ false
Holds-some {b = b} {q = q} (fresh e d) =
    let none_left : length (b ∷ q) ≡ 0 = ap (λ (x : List (List ℕ)). length x) d in ground arith
Holds-some (laid_out readblock head old junk hs os sizes e) = rw e (ground arith)
