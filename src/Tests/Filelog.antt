-- ===== src/Tests/Filelog.antt =====
-- A block of the message log at concrete inputs.
use ws_cluster.Common.{ℕ, ◌≡◌, List, [], ◌∷◌, length, ok, some, map, for_each, arith}
use ws_cluster.Filelog.Block.{Block, new_block, write, read_records, mode_read, mode_write}
use ws_cluster.Filelog.Block.RoundTrip.{write-read}

abbrev records : List (List ℕ)
records = (1 ∷ 2 ∷ 3 ∷ []) ∷ (4 ∷ []) ∷ []

abbrev zeros : List ℕ
zeros = 0 ∷ 0 ∷ 0 ∷ 0 ∷ 0 ∷ 0 ∷ 0 ∷ 0 ∷ 0 ∷ 0 ∷ []

write-read_example :
    (start written filled last : Block) × (new_block (0 ∷ 0 ∷ zeros) mode_write ≡ some (ok start))
    × (for_each records write start ≡ (ok tt, written))
    × (new_block written.buf mode_read ≡ some (ok filled))
    × (filled.count ≡ length records)
    × (read_records (length records) filled ≡ (ok (map some records), last))
write-read_example =
    write-read records zeros (omega arith, (omega arith, tt)) (omega arith) (omega arith)
