-- ===== src/Hub/Peers/Moved.antt =====
-- A client that has moved to another server.
use ws_cluster.Common.{ℕ, ◌≡◌, refl, true, [], ◌∷◌, ◌++◌, none, some, lookup, Dict, ok, has}
use ws_cluster.Wire.Addr.{Addr, addr_client, addr_server}
use ws_cluster.Wire.Message.{Message, make_empty_resp_message}
use ws_cluster.Hub.State.{Hub, ClientPeer, ServerPeer, pushed, answered}
use ws_cluster.Hub.Output.Open.{AllOpen, sending, reply-some}
use ws_cluster.Hub.Relay.{is_type, handle_relay, relay_to_client}
use ws_cluster.Hub.Logic.Located.{done, not_here}
use ws_cluster.Hub.Handler.{handle_packet, handle_content, handle_message}
use ws_cluster.Hub.Answer.{ask_as, awaited-last}
use ws_cluster.Hub.Peers.{client_on_message, server_on_message}
use ws_cluster.Hub.Peers.Conns.{
  SameConns, with_clients, record_session-SameConns, record_location-known, record_location-away,
}
use ws_cluster.Hub.Peers.Delivery.{clients_only, handle_relay-here, awaited-second}
use ws_cluster.Hub.Peers.Remote.{client_message_leaves}

-- A message of a client whose location is noted arrives, and the location stays.
server_message_known :
    (now c : ℕ) (from : ServerPeer) (q : ClientPeer) (msg : Message) (h : Hub)
    → AllOpen h
    → is_type h.server.addr addr_server ≡ true
    → is_type from.addr addr_server ≡ true
    → is_type msg.header.source addr_client ≡ true
    → is_type msg.header.dest addr_client ≡ true
    → lookup msg.header.dest h.client_peers ≡ some q
    → has msg.header.source h.location ≡ true
    → (clients : Dict ClientPeer) × SameConns h.client_peers clients
      × (server_on_message now c from msg h
          ≡ (ok tt, sending (with_clients h clients) (pushed q.conn msg ∷ answered c done ∷ [])))
unfolding server_on_message ask_as handle_packet handle_content handle_message
server_message_known now c from q msg h open_all s f source d found known =
    let (not_own, _, _) = clients_only msg.header.source msg.header.dest h.server.addr d source s in
    let (clients, e1, k) = record_session-SameConns from.addr msg.header h in
    let (q', here, same_conn, _) = k.here msg.header.dest q found in
    let h1 = with_clients h clients in
    (
      clients,
      k,
      rw e1 (
          rw (f, source, record_location-known from.addr msg.header h1 known)
            (rw not_own (
              rw (handle_relay-here from.addr msg c h1 q' open_all d here)
                (rw (awaited-second c q'.conn msg done h.sent h1 refl) (rw same_conn refl))))),
    )

handle_relay-dropped :
    (from : Addr) (msg : Message) (c : ℕ) (h : Hub)
    → is_type from addr_server ≡ true
    → is_type msg.header.dest addr_client ≡ true
    → lookup msg.header.dest h.client_peers ≡ none
    → handle_relay from msg (some c) h ≡ (ok tt, sending h (answered c not_here ∷ []))
unfolding handle_relay relay_to_client
handle_relay-dropped from msg c h f d away =
    rw d (rw (away, relay_to_client) (rw f (reply-some c not_here h)))

-- A message for a client that is not here goes no further.
server_message_dropped :
    (now c : ℕ) (from : ServerPeer) (msg : Message) (h : Hub)
    → is_type h.server.addr addr_server ≡ true
    → is_type from.addr addr_server ≡ true
    → is_type msg.header.source addr_client ≡ true
    → is_type msg.header.dest addr_client ≡ true
    → lookup msg.header.dest h.client_peers ≡ none
    → (h' : Hub) × (server_on_message now c from msg h ≡ (ok tt, h'))
      × (h'.sent ≡ h.sent ++ (answered c not_here ∷ []))
unfolding server_on_message ask_as handle_packet handle_content handle_message
server_message_dropped now c from msg h s f source d away =
    let (not_own, _, _) = clients_only msg.header.source msg.header.dest h.server.addr d source s in
    let (clients, e1, k) = record_session-SameConns from.addr msg.header h in
    let h1 = with_clients h clients in
    let (location, e2) =
      record_location-away from.addr msg.header h1 (k.away msg.header.dest away) in
    let h2 = record h1 { location = location } in
    (
      sending h2 (answered c not_here ∷ []),
      rw e1 (
          rw (f, source)
            (rw e2 (
              rw not_own (
                rw (handle_relay-dropped from.addr msg c h2 f d (k.away msg.header.dest away))
                  (rw (awaited-last c not_here h.sent h2 refl) refl))))),
      refl,
    )

-- The client x has moved away from server b, where server a still has it noted, and is now at a third
-- one. Its message, which comes from there, reaches the client of a that it is for, but a keeps b as the
-- location; so the reply of that client goes to b alone, and b drops it, while the response to the reply
-- has the status 200. All connections of a are open.
pub moved_client_lost :
    (now c d e : ℕ) (p : ClientPeer) (from_third from_a to_b : ServerPeer) (first reply : Message)
    (a b : Hub)
    → AllOpen a
    → is_type a.server.addr addr_server ≡ true
    → is_type b.server.addr addr_server ≡ true
    → is_type from_third.addr addr_server ≡ true
    → is_type from_a.addr addr_server ≡ true
    → is_type p.addr addr_client ≡ true
    → is_type first.header.source addr_client ≡ true
    → is_type first.header.dest addr_client ≡ true
    → is_type reply.header.source addr_client ≡ true
    → reply.header.dest ≡ first.header.source
    → lookup first.header.dest a.client_peers ≡ some p
    → lookup first.header.source a.client_peers ≡ none
    → lookup first.header.source a.location ≡ some b.server.addr
    → lookup b.server.addr a.server_peers ≡ some to_b
    → lookup first.header.source b.client_peers ≡ none
    → (a1 : Hub) × (server_on_message now c from_third first a ≡ (ok tt, a1))
      × (a1.sent ≡ a.sent ++ (pushed p.conn first ∷ answered c done ∷ []))
      × (a2 : Hub) × (client_on_message now d p reply a1 ≡ (ok tt, a2))
      × (a2.sent
          ≡ a1.sent
            ++ (pushed to_b.conn reply
                ∷ answered d not_here
                ∷ pushed p.conn (make_empty_resp_message reply.header 200)
                ∷ []))
      × (b1 : Hub) × (server_on_message now e from_a reply b ≡ (ok tt, b1))
      × (b1.sent ≡ b.sent ++ (answered e not_here ∷ []))
moved_client_lost now c d e p from_third from_a to_b first reply a b open_all sa sb st sf sp source
      dest from_p to_x found away located peer gone =
    let known : has first.header.source a.location ≡ true = rw (located, has) refl in
    let (clients, k, arrives) =
      server_message_known now c from_third p first a open_all sa st source dest found known in
    let a1 = sending (with_clients a clients) (pushed p.conn first ∷ answered c done ∷ []) in
    let (a2, leaves, sent) =
      client_message_leaves now d p to_b b.server.addr reply a1 open_all sa sp (rw to_x source)
        (rw to_x (k.away first.header.source away)) (rw to_x located) peer in
    let (b1, dropped, silent) =
      server_message_dropped now e from_a reply b sb sf from_p (rw to_x source) (rw to_x gone) in
    (a1, arrives, refl, a2, leaves, sent, b1, dropped, silent)
