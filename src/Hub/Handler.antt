-- ===== src/Hub/Handler.antt =====
-- hub/hub.go, packetHandler: one packet.
use ws_cluster.Common.{ℕ, Option, ◌>>=◌, ◌>>◌, pure, gets, same, ◌&&◌, if◌then◌else◌}
use ws_cluster.Wire.Addr.{Addr, addr_client, addr_server}
use ws_cluster.Wire.Message.{Message}
use ws_cluster.Hub.State.{
  Handler, Packet, Content, add_client_peer, del_client_peer, add_server_peer, del_server_peer,
  relay_message,
}
use ws_cluster.Hub.Regist.{
  handle_client_peer_regist, handle_client_peer_unregist, handle_server_peer_regist,
  handle_server_peer_unregist,
}
use ws_cluster.Hub.Relay.{is_type, record_session, record_location, handle_relay}
use ws_cluster.Hub.Logic.{handle_logic}

-- A message that a server passes on for a client tells where that client is.
unfoldable pub handle_message : Addr → Message → Option ℕ → Handler
handle_message from msg resp = do
  let header = msg.header
  record_session from header
  (if is_type from addr_server && is_type header.source addr_client
      then record_location from header
      else pure tt)
  self ← gets (λ h. h.server.addr)
  if same header.dest self then handle_logic msg resp else handle_relay from msg resp

unfoldable pub handle_content : ℕ → Addr → Content → Option ℕ → Handler
unfolding handle_message
handle_content now from (add_client_peer peer) resp = handle_client_peer_regist now peer resp
handle_content now from (del_client_peer peer) resp = handle_client_peer_unregist peer resp
handle_content now from (add_server_peer peer) resp = handle_server_peer_regist peer resp
handle_content now from (del_server_peer peer) resp = handle_server_peer_unregist peer resp
handle_content now from (relay_message msg) resp = handle_message from msg resp

unfoldable pub handle_packet : ℕ → Packet → Handler
unfolding handle_content
handle_packet now packet = handle_content now packet.from packet.content packet.resp
