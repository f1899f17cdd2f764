-- ===== src/Tests/LogFile.antt =====
-- The file of the message log, and the two loops, at concrete inputs.
use ws_cluster.Common.{
  ℕ, ◌≡◌, refl, true, false, List, [], ◌∷◌, ◌++◌, length, ok, some, map, arith, replicate,
  length-replicate,
}
use ws_cluster.Filelog.File.{
  complete, short, Calls, new_file_log, append_block, get_block, count_read, get_uint32, put_uint32,
  overwrite, write_at,
}
use ws_cluster.Filelog.File.Layout.{Call, append, get}
use ws_cluster.Filelog.File.Fifo.{run_calls, fifo_calls, run_calls-fifo_calls}
use ws_cluster.Filelog.File.Reopen.{after_calls, new_file_log-after_calls}
use ws_cluster.Filelog.Loops.{Loops, open_log}
use ws_cluster.Filelog.Loops.Delivery.{run_events-delivers}
use ws_cluster.Filelog.Loops.Events.{LogEvent, record_comes, ticks, reads, run_events, no_errors}
use ws_cluster.Filelog.Loops.OnWay.{flat}

abbrev block : ℕ → List ℕ
block n = replicate 4096 n

length-block : (n : ℕ) → length (block n) ≡ 4096
length-block n = length-replicate 4096 n

abbrev pub good : Calls
good = record { reads = true; resets = complete; truncates = true; counts = complete }

-- A write of a number is cut short, and a truncation fails.
abbrev bad : Calls
bad = record { reads = true; resets = short 1; truncates = false; counts = short 3 }

abbrev five_calls : List Call
five_calls =
    append complete complete (block 1)
    ∷ append complete (short 2) (block 2)
    ∷ get bad
    ∷ get bad
    ∷ get good
    ∷ []

run_calls-fifo_calls_example : run_calls five_calls (new_file_log []) ≡ fifo_calls five_calls []
run_calls-fifo_calls_example =
    run_calls-fifo_calls five_calls (length-block 1, (length-block 2, (refl, (refl, (refl, tt)))))

abbrev three_calls : List Call
three_calls =
    append complete complete (block 1) ∷ append complete complete (block 2) ∷ get good ∷ []

one_read : (after_calls three_calls (new_file_log [])).readblock ≡ 1
unfolding new_file_log append_block get_block count_read get_uint32 put_uint32 write_at overwrite
one_read = refl

two_written : (after_calls three_calls (new_file_log [])).writeblock ≡ 2
unfolding new_file_log append_block get_block count_read get_uint32 put_uint32 write_at overwrite
two_written = refl

new_file_log-after_calls_example :
    new_file_log (after_calls three_calls (new_file_log [])).file
    ≡ after_calls three_calls (new_file_log [])
new_file_log-after_calls_example =
    new_file_log-after_calls three_calls (length-block 1, (length-block 2, (refl, tt)))
      (tt, (tt, ((refl, refl, refl), tt))) (omega (arith, one_read)) (omega (arith, two_written))

abbrev arrivals : List LogEvent
arrivals =
    record_comes complete (1 ∷ 2 ∷ [])
    ∷ reads good
    ∷ record_comes (short 1) (replicate 4000 3)
    ∷ record_comes complete (replicate 100 4)
    ∷ ticks complete
    ∷ reads bad
    ∷ []

abbrev arrived : List (List ℕ)
arrived = (1 ∷ 2 ∷ []) ∷ replicate 4000 3 ∷ replicate 100 4 ∷ []

abbrev eight_rounds : List Calls
eight_rounds = replicate 8 good

run_events-delivers_example :
    (start s : Loops) × (open_log [] ≡ some (ok start))
    × (run_events (arrivals ++ (ticks complete ∷ map reads eight_rounds)) start ≡ (ok tt, s))
    × (s.answers ≡ no_errors arrived)
    × (flat s.given ≡ map some arrived)
run_events-delivers_example =
    run_events-delivers arrivals complete eight_rounds
      (
        (omega arith, omega arith),
        (refl, ((omega arith, omega arith), ((omega arith, omega arith), (tt, (refl, tt))))),
      )
      (refl, (refl, (refl, (refl, (refl, (refl, (refl, (refl, tt)))))))) (omega arith)
