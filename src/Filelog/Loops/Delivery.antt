-- ===== src/Filelog/Loops/Delivery.antt =====
-- The two loops from the start, in every interleaving.
use ws_cluster.Common.{
  bind_result, bind_result_assoc, ℕ, ◌+◌, ◌≤◌, ◌≡◌, refl, sym, ◌∙◌, true, List, [], ◌∷◌, ◌++◌,
  append-nil, length, some, map, ok, All, arith,
}
use ws_cluster.Filelog.File.{Outcome, Calls}
use ws_cluster.Filelog.Loops.{Loops, open_log}
use ws_cluster.Filelog.Loops.OnWay.{flat, IsOnWay}
use ws_cluster.Filelog.Loops.Rounds.{log_tick-IsOnWay, read_round-IsOnWay}
use ws_cluster.Filelog.Loops.Events.{
  LogEvent, ticks, reads, run_event, run_events, IsSoundEvent, records, no_errors, open_log-IsOnWay,
  events-IsOnWay,
}

-- From the start on an empty file, whatever records of 1 to 4092 bytes come, whenever the ticks come and readloop
-- makes its rounds, and however the writes of the two numbers end, as long as the blocks themselves
-- are written and read: no record is refused, and those that were given to SubFunc are the first of
-- those that came, in their order and none of them nil.
pub run_events-prefix :
    (es : List LogEvent)
    → All IsSoundEvent es
    → (start s : Loops) × (on_way : List (List ℕ)) × (open_log [] ≡ some (ok start))
      × (run_events es start ≡ (ok tt, s))
      × (s.answers ≡ no_errors (records es))
      × (flat s.given ++ map some on_way ≡ map some (records es))
run_events-prefix es h =
    let (start, opens, answers0, given0, w0) = open_log-IsOnWay in
    let (s, stored, rs, e, answers, all_, more, w) = events-IsOnWay es start [] [] h w0 in
    (start, s, flat stored ++ rs, opens, e, answers ∙ rw answers0, all_ ∙ rw given0)

-- Rounds of readloop empty the file.
rounds-IsOnWay :
    (cs : List Calls) (s : Loops) (stored : List (List (List ℕ)))
    → All (λ c. c.reads ≡ true) cs
    → length stored ≤ length cs
    → IsOnWay s stored []
    → (s' : Loops) × (run_events (map reads cs) s ≡ (ok tt, s'))
      × (s'.answers ≡ s.answers)
      × (flat s'.given ≡ flat s.given ++ map some (flat stored))
rounds-IsOnWay [] s [] h less w = (s, refl, refl, sym (append-nil (flat s.given)))
rounds-IsOnWay [] s (x ∷ stored) h less w = absurd (omega (arith, less))
rounds-IsOnWay (c ∷ cs) s stored h less w =
    let (s1, stored1, e1, answers1, handed, less1, w1) = read_round-IsOnWay c s stored [] h.0 w in
    let (s', e, answers, given) = rounds-IsOnWay cs s1 stored1 h.1 (omega arith) w1 in
    (s', rw e1 e, answers ∙ answers1, given ∙ handed)

run_events-append :
    (xs ys : List LogEvent) (s : Loops)
    → run_events (xs ++ ys) s ≡ bind_result (run_events xs s) (λ _. run_events ys)
run_events-append [] ys s = refl
run_events-append (x ∷ xs) ys s =
    (λ i. bind_result (run_event x s) (λ _ t. run_events-append xs ys t i))
    ∙ sym (bind_result_assoc (run_event x s) (λ _. run_events xs) (λ _. run_events ys))

-- From the start on an empty file, after any order of records of 1 to 4092 bytes, ticks and rounds
-- of readloop, a tick and at least one more round than there were events give SubFunc every record
-- that came, once each and in their order, and every record was answered with no error: as long as
-- the blocks are written and read, and however the writes of the two numbers end.
pub run_events-delivers :
    (es : List LogEvent) (o : Outcome) (cs : List Calls)
    → All IsSoundEvent es
    → All (λ c. c.reads ≡ true) cs
    → length es + 1 ≤ length cs
    → (start s : Loops) × (open_log [] ≡ some (ok start))
      × (run_events (es ++ (ticks o ∷ map reads cs)) start ≡ (ok tt, s))
      × (s.answers ≡ no_errors (records es))
      × (flat s.given ≡ map some (records es))
run_events-delivers es o cs h g enough =
    let (start, opens, answers0, given0, w0) = open_log-IsOnWay in
    let (s1, stored1, rs1, e1, answers1, all1, more1, w1) = events-IsOnWay es start [] [] h w0 in
    let (s2, stored2, e2, answers2, given2, flushes, more2, w2) =
      log_tick-IsOnWay o s1 stored1 rs1 w1 in
    let (s, e, answers, given) = rounds-IsOnWay cs s2 stored2 g (omega arith) w2 in
    (
      start,
      s,
      opens,
      run_events-append es (ticks o ∷ map reads cs) start ∙ rw e1 (rw e2 e),
      answers ∙ answers2 ∙ answers1 ∙ rw answers0,
      rw (given, given2, flushes, all1, given0),
    )
