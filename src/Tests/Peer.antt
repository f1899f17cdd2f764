-- ===== src/Tests/Peer.antt =====
-- Frames: the theorems of peer/peer.go at concrete inputs.
use ws_cluster.Common.{ℕ, ◌≡◌, refl, All, List, [], ◌∷◌, ◌++◌, some, map, arith}
use ws_cluster.Wire.Message.{Message}
use ws_cluster.Peer.Inbound.{frame_messages, set_source, frame_bytes, frame_messages-frame_bytes}
use mathlib.Core.List.{Perm}
use ws_cluster.Peer.Calls.{no_calls, next_call, FrameCalls, FrameCalls-frame_bytes}
use ws_cluster.Peer.Outbound.Delivery.{with_seq-IsMessage}
use ws_cluster.Peer.Inbound.WellFormed.{frame_messages-IsMessage}
use ws_cluster.Wire.Message.RoundTrip.{IsMessage, message_bytes}
use ws_cluster.Tests.Wire.{client, hello, hello-IsMessage}

-- The second of two messages is handed to OnMessage first.
abbrev other : Message
other = record hello { header = record (hello.header) { seq = 9 } }

other-IsMessage : IsMessage other
other-IsMessage = with_seq-IsMessage 9 hello (omega arith) hello-IsMessage

abbrev frame : List ℕ
frame = frame_bytes (hello ∷ other ∷ []) ++ (1 ∷ 2 ∷ [])

abbrev swapped : List Message
swapped = set_source client other ∷ set_source client hello ∷ []

swapped-FrameCalls : FrameCalls client frame swapped
swapped-FrameCalls = record {
  started = map (set_source client) (hello ∷ other ∷ []);
  starts =
      frame_messages-frame_bytes client (hello ∷ other ∷ []) (1 ∷ 2 ∷ [])
        (hello-IsMessage, (other-IsMessage, tt)) (omega arith);
  called =
      next_call (set_source client hello ∷ []) (set_source client other) []
        (set_source client hello ∷ []) (next_call [] (set_source client hello) [] [] no_calls);
}

FrameCalls-frame_bytes_example :
    (frame_messages client frame ≡ some (map (set_source client) (hello ∷ other ∷ [])))
    × Perm (map (set_source client) (hello ∷ other ∷ [])) swapped
FrameCalls-frame_bytes_example =
    FrameCalls-frame_bytes client (hello ∷ other ∷ []) (1 ∷ 2 ∷ []) swapped
      (hello-IsMessage, (other-IsMessage, tt)) (omega arith) swapped-FrameCalls

-- A message, and one byte more.
frame_messages-IsMessage_example :
    (ms : List Message) × (frame_messages client (message_bytes hello ++ (9 ∷ [])) ≡ some ms)
    × All IsMessage ms
frame_messages-IsMessage_example =
    frame_messages-IsMessage client (message_bytes hello ++ (9 ∷ [])) refl (ground arith)
