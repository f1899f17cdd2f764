-- ===== src/Tests/Intake.antt =====
-- A message that comes to the hub's queue at concrete inputs.
use ws_cluster.Common.{ℕ, ◌≡◌, ◌⊎◌, refl, List, [], ◌∷◌, ◌++◌, none, some, Error, ok, err, M}
use ws_cluster.Wire.Message.RoundTrip.{message_bytes}
use ws_cluster.Hub.State.{Packet, relay_message, answered}
use ws_cluster.Hub.Intake.{Intake, take_packet, status_exception, log_before_queue}
use ws_cluster.Queue.{start, here}
use ws_cluster.Tests.Wire.{client, hello}

-- A log that takes every record.
abbrev keep : List ℕ → M (List (List ℕ)) (Unit {0})
keep b log = (ok tt, log ++ (b ∷ []))

abbrev hello_packet : Packet
hello_packet = record { from = client; content = relay_message hello; resp = some 8 }

abbrev idle_intake : Intake (List (List ℕ))
idle_intake = record { log = some []; queue = start; answers = [] }

log_before_queue_example :
    ((l : List (List ℕ)) × (s : Intake (List (List ℕ))) × (keep (message_bytes hello) []
        ≡ (ok tt, l))
      × (take_packet keep hello_packet idle_intake ≡ some s)
      × (s.log ≡ some l)
      × (s.queue.taken ≡ idle_intake.queue.taken ++ (hello_packet ∷ []))
      × (s.answers ≡ []))
    ⊎ (((x : Error) × (l : List (List ℕ)) × (c : ℕ) × (s : Intake (List (List ℕ))) × (keep
              (message_bytes hello)
              []
            ≡ (err x, l))
          × (hello_packet.resp ≡ some c)
          × (take_packet keep hello_packet idle_intake ≡ some s)
          × (s.queue ≡ idle_intake.queue)
          × (s.answers ≡ answered c status_exception ∷ []))
        ⊎ ((x : Error) × (l : List (List ℕ)) × (keep (message_bytes hello) [] ≡ (err x, l))
            × (hello_packet.resp ≡ none)
            × (take_packet keep hello_packet idle_intake ≡ none)))
log_before_queue_example = log_before_queue keep hello_packet hello [] idle_intake here refl refl
