-- ===== src/Filelog/Loops/Events.antt =====
-- What happens to the two loops, in any order, and the records that came.
use ws_cluster.Common.{
  ℕ, ◌+◌, ◌≤◌, ◌≡◌, refl, sym, ◌∙◌, ap, true, List, [], ◌∷◌, ◌++◌, append_assoc, append-nil, length,
  Option, some, map, Result, ok, All, arith, M, ◌>>◌, replicate,
}
use ws_cluster.Filelog.Block.{new_block, mode_write}
use ws_cluster.Filelog.Block.Writing.{block_at}
use ws_cluster.Filelog.Block.RoundTrip.{new_block-le}
use ws_cluster.Filelog.File.{Outcome, complete, Calls, new_file_log, block_size, get_uint32}
use ws_cluster.Filelog.File.Layout.{fresh}
use ws_cluster.Filelog.Loops.{Loops, open_log, start_loops, log_record, log_tick, read_round}
use ws_cluster.Filelog.Loops.Stored.{IsRecord}
use ws_cluster.Filelog.Loops.OnWay.{flat, IsOnWay, log_record-IsOnWay}
use ws_cluster.Filelog.Loops.Rounds.{map_append, log_tick-IsOnWay, read_round-IsOnWay}

-- What the loops do next: a record comes, with how the write of the number of blocks ends if the
-- block is appended; a tick comes; readloop makes a round.
pub data LogEvent : Type 0 where
  record_comes : Outcome → List ℕ → LogEvent
  ticks : Outcome → LogEvent
  reads : Calls → LogEvent

abbrev pub run_event : LogEvent → M Loops (Unit {0})
run_event (record_comes o b) = log_record complete o b
run_event (ticks o) = log_tick complete o
run_event (reads calls) = read_round calls

abbrev pub run_events : List LogEvent → M Loops (Unit {0})
run_events [] s = (ok tt, s)
run_events (e ∷ es) s = (do run_event e; run_events es) s

abbrev pub IsSoundEvent : LogEvent → Type 0
IsSoundEvent (record_comes o b) = IsRecord b
IsSoundEvent (ticks o) = Unit {0}
IsSoundEvent (reads calls) = calls.reads ≡ true

abbrev pub event_records : LogEvent → List (List ℕ)
event_records (record_comes o b) = b ∷ []
event_records (ticks o) = []
event_records (reads calls) = []

abbrev pub records : List LogEvent → List (List ℕ)
records [] = []
records (e ∷ es) = event_records e ++ records es

abbrev pub no_errors : List (List ℕ) → List (Result (Unit {0}))
no_errors bs = map (λ b. ok tt) bs

start_block :
    new_block (replicate block_size 0) mode_write
    ≡ some (ok (block_at mode_write 0 [] (replicate 4094 0) block_size))
start_block =
    new_block-le 0 (replicate 4094 0) mode_write block_size (omega arith) refl (omega arith)

pub open_log-IsOnWay :
    (s : Loops) × (open_log [] ≡ some (ok s)) × (s.answers ≡ []) × (s.given ≡ []) × IsOnWay s [] []
unfolding open_log start_loops new_file_log get_uint32
open_log-IsOnWay = (
  record {
    block = block_at mode_write 0 [] (replicate 4094 0) block_size;
    flog = new_file_log [];
    answers = [];
    given = [];
  },
  rw start_block,
  refl,
  refl,
  record {
    blocks = [];
    is_open = record { rest = replicate 4094 0; state = refl; size = refl; full = tt };
    holds = fresh refl refl;
    all_stored = tt;
  },
)

-- The records that were given to SubFunc, and behind them those on their way.
abbrev pub all_records : Loops → List (List (List ℕ)) → List (List ℕ) → List (Option (List ℕ))
all_records s stored rs = flat s.given ++ map some (flat stored ++ rs)

on_way_joins :
    (given xs ys : List (List ℕ)) (g : List (Option (List ℕ)))
    → xs ≡ given ++ ys
    → g ++ map some xs ≡ (g ++ map some given) ++ map some ys
on_way_joins given xs ys g e =
    rw (e, map_append some given ys) (sym (append_assoc g (map some given) (map some ys)))

event-IsOnWay :
    (e : LogEvent) (s : Loops) (stored : List (List (List ℕ))) (rs : List (List ℕ))
    → IsSoundEvent e
    → IsOnWay s stored rs
    → (s' : Loops) × (stored' : List (List (List ℕ))) × (rs' : List (List ℕ)) × (run_event e s
        ≡ (ok tt, s'))
      × (s'.answers ≡ s.answers ++ no_errors (event_records e))
      × (all_records s' stored' rs' ≡ all_records s stored rs ++ map some (event_records e))
      × (length stored' ≤ length stored + 1)
      × IsOnWay s' stored' rs'
event-IsOnWay (record_comes o b) s stored rs h w =
    let (s', stored', rs', e, answers, given, joined, more, w') =
      log_record-IsOnWay o b s stored rs h w in
    (
      s',
      stored',
      rs',
      e,
      answers,
      rw given
          (on_way_joins (flat stored ++ rs) (flat stored' ++ rs') (b ∷ []) (flat s.given) joined),
      more,
      w',
    )
event-IsOnWay (ticks o) s stored rs h w =
    let (s', stored', e, answers, given, joined, more, w') = log_tick-IsOnWay o s stored rs w in
    (
      s',
      stored',
      [],
      e,
      answers ∙ sym (append-nil s.answers),
      rw given (
          on_way_joins (flat stored ++ rs) (flat stored' ++ []) [] (flat s.given)
            (ap (λ t. t ++ []) joined)),
      more,
      w',
    )
event-IsOnWay (reads calls) s stored rs h w =
    let (s', stored', e, answers, handed, less, w') = read_round-IsOnWay calls s stored rs h w in
    (
      s',
      stored',
      rs,
      e,
      answers ∙ sym (append-nil s.answers),
      on_way_joins (flat stored') (flat stored' ++ rs) rs (flat s'.given) refl
          ∙ ap (λ t. t ++ map some rs) handed
          ∙ sym (on_way_joins (flat stored) (flat stored ++ rs) rs (flat s.given) refl)
          ∙ sym (append-nil (all_records s stored rs)),
      omega (arith, less),
      w',
    )

joins :
    {A B : Type 0} (f : A → B) (before now after : List B) (xs ys : List A)
    → now ≡ before ++ map f xs
    → after ≡ now ++ map f ys
    → after ≡ before ++ map f (xs ++ ys)
joins f before now after xs ys e d =
    rw (d, e, map_append f xs ys) (append_assoc before (map f xs) (map f ys))

pub events-IsOnWay :
    (es : List LogEvent) (s : Loops) (stored : List (List (List ℕ))) (rs : List (List ℕ))
    → All IsSoundEvent es
    → IsOnWay s stored rs
    → (s' : Loops) × (stored' : List (List (List ℕ))) × (rs' : List (List ℕ)) × (run_events es s
        ≡ (ok tt, s'))
      × (s'.answers ≡ s.answers ++ no_errors (records es))
      × (all_records s' stored' rs' ≡ all_records s stored rs ++ map some (records es))
      × (length stored' ≤ length stored + length es)
      × IsOnWay s' stored' rs'
events-IsOnWay [] s stored rs h w = (
  s,
  stored,
  rs,
  refl,
  sym (append-nil s.answers),
  sym (append-nil (all_records s stored rs)),
  omega arith,
  w,
)
events-IsOnWay (x ∷ es) s stored rs h w =
    let (s1, stored1, rs1, e1, answers1, all1, more1, w1) = event-IsOnWay x s stored rs h.0 w in
    let (s', stored', rs', e, answers, all_, more, w') = events-IsOnWay es s1 stored1 rs1 h.1 w1 in
    let bs = event_records x in
    let cs = records es in
    (
      s',
      stored',
      rs',
      rw e1 e,
      joins (λ b. ok tt) s.answers s1.answers s'.answers bs cs answers1 answers,
      joins some (all_records s stored rs) (all_records s1 stored1 rs1) (all_records s' stored' rs')
          bs cs all1 all_,
      omega arith,
      w',
    )
