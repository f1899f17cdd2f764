-- ===== src/Peer/Connection.antt =====
-- peer/peer.go: the states of a peer's connection, and the goroutines that end it.
pub mod Ends
pub mod Forever
use ws_cluster.Common.{
  ℕ, ◌+◌, ◌-◌, ◌≡◌, Bool, true, false, List, [], ◌∷◌, Option, none, some, ltb, ◌==◌, ◌&&◌,
  if◌then◌else◌,
}

abbrev pub unconnected : ℕ
unconnected = 0

abbrev pub open_ : ℕ
open_ = 1

abbrev pub closing : ℕ
closing = 2

-- Peer: `connected`, the goroutines inMessageHandler (`readers`), packetHandler (`writers`) and
-- packetQueueHandler (`queues`) that run, the close packets on their way to packetHandler, and the
-- signals on connclosed that are sent, or wait to be, and are not received. The last three count the
-- connections that were started, those that the peer closed, and the calls of OnDisconnect.
pub record PeerState : Type 0 where
  pub connected : ℕ
  pub readers : ℕ
  pub writers : ℕ
  pub queues : ℕ
  pub close_packets : ℕ
  pub signals : ℕ
  pub starts : ℕ
  pub conn_closes : ℕ
  pub disconnects : ℕ

-- NewPeer
abbrev pub new_peer : PeerState
new_peer = record {
  connected = unconnected;
  readers = 0;
  writers = 0;
  queues = 0;
  close_packets = 0;
  signals = 0;
  starts = 0;
  conn_closes = 0;
  disconnects = 0;
}

unfoldable pub is_connected : PeerState → Bool
is_connected p = p.connected == open_

unfoldable pub start_handlers : PeerState → PeerState
start_handlers p = record p {
  readers = p.readers + 1;
  writers = p.writers + 1;
  queues = p.queues + 1;
  starts = p.starts + 1;
}

unfoldable pub set_connection : PeerState → PeerState
unfolding start_handlers
set_connection p =
    if p.connected == unconnected then start_handlers (record p { connected = open_ }) else p

-- Close: its two tests of `connected` are one.
unfoldable pub close : PeerState → PeerState
unfolding is_connected
close p =
    if is_connected p
    then record p { connected = closing; close_packets = p.close_packets + 1 }
    else p

unfoldable pub close_connect : PeerState → PeerState
close_connect p =
    if p.connected == closing
    then record p {
      connected = unconnected;
      conn_closes = p.conn_closes + 1;
      signals = p.signals + 1;
    }
    else p

unfoldable pub connection_closed : PeerState → PeerState
connection_closed p =
    if p.connected == open_
    then record p { connected = closing; signals = p.signals + 1; disconnects = p.disconnects + 1 }
    else p

-- packetHandler receives a close packet; its ping fails; a read fails in inMessageHandler; and
-- packetQueueHandler receives from connclosed. Each goroutine ends by it. `none`: there is nothing
-- to receive, or no such goroutine.
unfoldable pub take_close : PeerState → Option PeerState
unfolding close_connect
take_close p =
    if ltb 0 p.writers && ltb 0 p.close_packets
    then some
        (close_connect (record p { writers = p.writers - 1; close_packets = p.close_packets - 1 }))
    else none

unfoldable pub ping_fails : PeerState → Option PeerState
unfolding connection_closed
ping_fails p =
    if ltb 0 p.writers
    then some (connection_closed (record p { writers = p.writers - 1 }))
    else none

unfoldable pub read_fails : PeerState → Option PeerState
unfolding connection_closed
read_fails p =
    if ltb 0 p.readers
    then some (connection_closed (record p { readers = p.readers - 1 }))
    else none

unfoldable pub take_signal : PeerState → Option PeerState
take_signal p =
    if ltb 0 p.queues && ltb 0 p.signals
    then some (record p { queues = p.queues - 1; signals = p.signals - 1 })
    else none

-- What happens to a peer, in any order.
pub data Happens (p r : PeerState) : Type 0 where
  sets_connection : set_connection p ≡ r → Happens p r
  closes : close p ≡ r → Happens p r
  takes_close : take_close p ≡ some r → Happens p r
  ping_failed : ping_fails p ≡ some r → Happens p r
  read_failed : read_fails p ≡ some r → Happens p r
  takes_signal : take_signal p ≡ some r → Happens p r

-- The states that a peer reaches from another.
pub data Reach (p : PeerState) : PeerState → Type 0 where
  here : Reach p p
  next : {q r : PeerState} → Reach p q → Happens q r → Reach p r
