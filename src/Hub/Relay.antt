-- ===== src/Hub/Relay.antt =====
-- hub/hub.go: sessions, locations, and the relay of messages to other peers.
pub mod Local
use ws_cluster.Common.{
  ℕ, Bool, true, false, List, [], ◌∷◌, Option, none, some, lookup, insert, has, M, ◌>>=◌, ◌>>◌,
  pure, modify, gets, ok, ◌==◌, ◌&&◌, if◌then◌else◌,
}
use ws_cluster.Wire.Addr.{Addr, addr_type, addr_client, addr_server, addr_group, addr_broadcast}
use ws_cluster.Wire.Body.{loc}
use ws_cluster.Wire.Message.{Header, Message, make_empty_header_message}
use ws_cluster.Hub.State.{Hub, Handler, Resp, RespError, peer_no_found, message}
use ws_cluster.Hub.Session.{add_session}
use ws_cluster.Hub.Output.{
  push_message, reply, broadcast, send_group, send_to_domain, update_client,
}

unfoldable pub is_type : Addr → ℕ → Bool
is_type addr typ = addr_type addr == typ

unfoldable pub record_session : Addr → Header → Handler
unfolding is_type update_client
record_session from header = do
  self ← gets (λ h. h.server.addr)
  (if is_type header.source addr_client
      then update_client header.source (λ p. (add_session header.dest self p).0)
      else pure tt)
  (if is_type header.dest addr_client
      then (if is_type from addr_client
          then update_client header.dest (λ p. (add_session header.source self p).0)
          else update_client header.dest (λ p. (add_session header.source from p).0))
      else pure tt)

unfoldable pub loc_message : Addr → Addr → Addr → Addr → Message
unfolding make_empty_header_message
loc_message target peer self dest =
    let m =
      make_empty_header_message 9 (loc (record { target = target; peer = peer; server = self })) in
    record m { header = record (m.header) { source = self; dest = dest } }

-- A first message of a client on another server: its location is noted, and if the client that it
-- is for is here, the other server is told where that is.
unfoldable pub note_location : Addr → Header → Handler
unfolding loc_message push_message
note_location from header h =
    let h' = record h { location = insert header.source from h.location } in
    if has header.dest h.client_peers
    then elim (lookup from h.server_peers) [
      | none ↦ (ok tt, h')
      | some speer ↦
          push_message speer.conn (loc_message header.source header.dest h.server.addr from) h'
    ]
    else (ok tt, h')

unfoldable pub record_location : Addr → Header → Handler
unfolding note_location
record_location from header h =
    if has header.source h.location then (ok tt, h) else note_location from header h

-- The message is for a client. The result is the error of the response.
unfoldable pub relay_to_client : Addr → Message → M Hub (Option RespError)
unfolding is_type broadcast push_message
relay_to_client from msg h =
    let dest = msg.header.dest in
    elim (lookup dest h.client_peers) [
      | some cpeer ↦ (do push_message cpeer.conn msg; pure none) h
      | none ↦
          if is_type from addr_server
          then (ok (some peer_no_found), h)
          else elim (lookup dest h.location) [
            | none ↦ (do broadcast msg; pure (some peer_no_found)) h
            | some server_addr ↦ elim (lookup server_addr h.server_peers) [
              | none ↦ (ok (some peer_no_found), h)
              | some speer ↦ (do push_message speer.conn msg; pure (some peer_no_found)) h
            ]
          ]
    ]

-- The message is for a group, a domain or a server.
unfoldable pub relay_to_others : Addr → Message → M Hub (Option RespError)
unfolding is_type broadcast send_group send_to_domain
relay_to_others from msg = do
  let dest = msg.header.dest
  (if is_type from addr_client then broadcast msg else pure tt)
  (if is_type dest addr_group
      then send_group dest (message msg)
      else if is_type dest addr_broadcast
      then send_to_domain dest msg
      else pure tt)
  pure none

unfoldable pub handle_relay : Addr → Message → Option ℕ → Handler
unfolding relay_to_client relay_to_others
handle_relay from msg resp = do
  error ←
      (if is_type msg.header.dest addr_client
        then relay_to_client from msg
        else relay_to_others from msg)
  reply resp (record { status = 200; error = error; body = none })
