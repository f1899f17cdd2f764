-- ===== src/Hub/Peers.antt =====
-- hub/clent_peer.go and hub/server_peer.go: OnMessage and OnDisconnect, which the goroutines of a peer
-- call, up to the answer of the hub.
pub mod Conns
pub mod Learning
pub mod Delivery
pub mod Remote
pub mod Moved
pub mod Groups
pub mod Spreading
use ws_cluster.Common.{ℕ, Bool, ok, M, ◌>>=◌, ◌>>◌, pure, if◌then◌else◌}
use ws_cluster.Wire.Addr.{Addr, addr_is_empty}
use ws_cluster.Wire.Message.{Message, make_empty_resp_message}
use ws_cluster.Hub.State.{
  Hub, Handler, ClientPeer, ServerPeer, relay_message, del_client_peer, del_server_peer,
}
use ws_cluster.Hub.Output.{push_message}
use ws_cluster.Hub.Answer.{ask_as}

-- A message without a destination is for the server.
unfoldable pub addressed : Addr → Message → Message
addressed self msg =
    if addr_is_empty msg.header.dest
    then record msg { header = record (msg.header) { dest = self } }
    else msg

unfoldable pub client_on_message : ℕ → ℕ → ClientPeer → Message → Handler
unfolding addressed ask_as push_message make_empty_resp_message
client_on_message now c p message h =
    let msg = addressed h.server.addr message in
    (do
      resp ← ask_as p.addr now c (relay_message msg)
      push_message p.conn (make_empty_resp_message msg.header resp.status))
      h

unfoldable pub client_on_disconnect : ℕ → ℕ → ClientPeer → Handler
unfolding ask_as
client_on_disconnect now c p = do resp ← ask_as p.addr now c (del_client_peer p); pure tt

unfoldable pub server_on_message : ℕ → ℕ → ServerPeer → Message → Handler
unfolding ask_as
server_on_message now c p message = do resp ← ask_as p.addr now c (relay_message message); pure tt

unfoldable pub server_on_disconnect : ℕ → ℕ → ServerPeer → Handler
unfolding ask_as
server_on_disconnect now c p = do resp ← ask_as p.addr now c (del_server_peer p); pure tt
