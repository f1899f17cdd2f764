-- ===== src/Tests/Connection.antt =====
-- The connection of a peer at concrete inputs.
use ws_cluster.Common.{
  ◌+◌, ◌≤◌, ◌≡◌, refl, true, [], ◌∷◌, map, none, some, ok, for_each, All, arith,
}
use ws_cluster.Wire.Message.{Message}
use ws_cluster.Wire.Message.RoundTrip.{IsMessage}
use ws_cluster.Peer.Inbound.{set_source}
use ws_cluster.Peer.Connection.{
  PeerState, new_peer, is_connected, set_connection, start_handlers, close, ping_fails, read_fails,
  connection_closed, Reach, here, next, sets_connection, read_failed,
}
use ws_cluster.Peer.Connection.Ends.{live, Reach-ends}
use ws_cluster.Peer.Outbound.{Sender, write_message, read_frames, with_seq}
use ws_cluster.Peer.Outbound.Delivery.{sound, write_messages-read_frames, with_seq-IsMessage}
use ws_cluster.Peer.Cleaning.{clean_pending, clean_pending-ends}
use ws_cluster.Tests.Wire.{client, hello, hello-IsMessage}

-- A peer whose connection is open, and the same peer when the other side has closed it.
abbrev open_peer : PeerState
open_peer = record new_peer { connected = 1; readers = 1; writers = 1; queues = 1; starts = 1 }

abbrev lost_peer : PeerState
lost_peer = record open_peer { connected = 2; readers = 0; signals = 1; disconnects = 1 }

open_peer-Reach : Reach new_peer open_peer
unfolding set_connection start_handlers
open_peer-Reach = next here (sets_connection refl)

lost_peer-Reach : Reach new_peer lost_peer
unfolding read_fails connection_closed
lost_peer-Reach = next open_peer-Reach (read_failed refl)

open_peer-connected : is_connected open_peer ≡ true
unfolding is_connected
open_peer-connected = refl

-- The ping fails behind Close.
abbrev forgotten : PeerState
forgotten = record open_peer { connected = 2; writers = 0; close_packets = 1 }

forgotten-ping : ping_fails (close open_peer) ≡ some forgotten
unfolding ping_fails close is_connected connection_closed
forgotten-ping = refl

Reach-ends_example :
    (lost_peer.starts ≡ lost_peer.conn_closes + lost_peer.disconnects + live lost_peer)
    × (lost_peer.disconnects ≤ 1)
    × (live lost_peer ≤ 1)
    × (lost_peer.queues ≡ lost_peer.signals + live lost_peer)
Reach-ends_example = Reach-ends lost_peer lost_peer-Reach

abbrev unnumbered : Message
unnumbered = with_seq 0 hello

unnumbered-IsMessage : All IsMessage (unnumbered ∷ unnumbered ∷ [])
unnumbered-IsMessage = (
  with_seq-IsMessage 0 hello (omega arith) hello-IsMessage,
  (with_seq-IsMessage 0 hello (omega arith) hello-IsMessage, tt),
)

write_messages-read_frames_example :
    (p : Sender) × (for_each
        (hello ∷ unnumbered ∷ [])
        (write_message sound)
        (record { auto_seq = 4; frames = [] })
      ≡ (ok tt, p))
    × (p.auto_seq ≡ 5)
    × (read_frames 1024 client p.frames
        ≡ some (map (set_source client) (hello ∷ with_seq 5 hello ∷ [])))
write_messages-read_frames_example =
    write_messages-read_frames 1024 client (hello ∷ unnumbered ∷ []) 4
      (hello-IsMessage, unnumbered-IsMessage.1)

clean_pending-ends_example : (clean_pending 9 [] ≡ some []) × (clean_pending 9 (1 ∷ 2 ∷ []) ≡ none)
clean_pending-ends_example = clean_pending-ends 9 1 (2 ∷ [])
