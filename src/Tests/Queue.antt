-- ===== src/Tests/Queue.antt =====
-- The queue of packets at a concrete run.
use ws_cluster.Common.{ℕ, true, ◌≡◌, ◌≢◌, refl, [], ◌∷◌, ◌++◌, some, none, false}
use ws_cluster.Queue.{
  Queue, Reach, here, next, queues, takes_relay, start, queue_packet, take_relay, take_done,
  send_done,
}
use ws_cluster.Queue.Order.{Reach-order, in_flight}
use ws_cluster.Queue.Progress.{Works, Reach-drained}

-- 5 and 6 have come in, and 5 is being handled.
abbrev busy_queue : Queue ℕ
busy_queue = record {
  pending = 6 ∷ [];
  waiting = true;
  relay = none;
  busy = some 5;
  finished = false;
  taken = 5 ∷ 6 ∷ [];
  handled = [];
}

busy_queue-Reach : Reach busy_queue
unfolding start queue_packet take_relay
busy_queue-Reach = next (next (next here (queues 5 refl)) (queues 6 refl)) (takes_relay refl)

Reach-order_example :
    (busy_queue.taken
      ≡ busy_queue.handled ++ (in_flight busy_queue.relay busy_queue.busy ++ busy_queue.pending))
    × ((p : ℕ) → queue_packet p busy_queue ≢ none)
    × (busy_queue.finished ≡ true → take_done busy_queue ≢ none)
    × ((a : ℕ) → busy_queue.relay ≡ some a → take_relay busy_queue ≢ none)
    × ((a : ℕ) → busy_queue.busy ≡ some a → send_done busy_queue ≢ none)
Reach-order_example = Reach-order busy_queue-Reach

Reach-drained_example :
    (r : Queue ℕ) × Works busy_queue r × (r.handled ≡ busy_queue.taken) × (r.pending ≡ [])
Reach-drained_example = Reach-drained busy_queue-Reach
