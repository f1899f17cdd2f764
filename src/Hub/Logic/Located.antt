-- ===== src/Hub/Logic/Located.antt =====
-- How the servers learn where a client is, and what they do once they know.
use ws_cluster.Common.{
  ℕ, true, false, ◌≡◌, ◌∙◌, [], ◌∷◌, append_assoc, none, some, Dict, lookup, insert, has,
  lookup-insert, same→eq, ok, err, panicked, arith, pure, ◌>>◌,
}
use ws_cluster.Wire.Addr.{Addr, addr_client, addr_server}
use ws_cluster.Wire.Body.{loc, MsgLoc}
use ws_cluster.Wire.Message.{Header, Message}
use ws_cluster.Hub.State.{Hub, pushed, answered, ClientPeer, ServerPeer, Resp, peer_no_found}
use ws_cluster.Hub.Session.{add_session}
use ws_cluster.Hub.Output.{push_message, update_client}
use ws_cluster.Hub.Output.Open.{AllOpen, sending, push_message-open, reply-some}
use ws_cluster.Hub.Relay.{
  is_type, handle_relay, relay_to_client, record_location, note_location, loc_message,
}
use ws_cluster.Hub.Logic.{handle_logic, answer_command, logic_loc}

logic_loc-absent :
    (m : MsgLoc) (h : Hub)
    → lookup m.target h.client_peers ≡ none
    → logic_loc m h ≡ (err panicked, record h { location = insert m.peer m.server h.location })
unfolding logic_loc
logic_loc-absent m h e = rw (e, logic_loc)

update_client-some :
    (addr : Addr) (change : ClientPeer → ClientPeer) (h : Hub) (p : ClientPeer)
    → lookup addr h.client_peers ≡ some p
    → update_client addr change h
      ≡ (ok tt, record h { client_peers = insert addr (change p) h.client_peers })
unfolding update_client
update_client-some addr change h p e = rw (e, update_client)

-- The answer to a message that the server has dealt with itself, and the one to a message whose
-- client is elsewhere.
abbrev pub done : Resp
done = record { status = 200; error = none; body = none }

abbrev pub not_here : Resp
not_here = record { status = 200; error = some peer_no_found; body = none }

-- A locating message whose target is not logged in here notes the location, is answered as one that
-- succeeded, and then crashes the server: the session is added to a nil peer.
pub handle_logic_loc_panics :
    (msg : Message) (m : MsgLoc) (c : ℕ) (h : Hub)
    → msg.header.command ≡ 9
    → msg.body ≡ loc m
    → lookup m.target h.client_peers ≡ none
    → handle_logic msg (some c) h ≡ (
      err panicked,
      sending (record h { location = insert m.peer m.server h.location }) (answered c done ∷ []),
    )
unfolding handle_logic answer_command
handle_logic_loc_panics msg m c h cmd b e =
    rw (cmd, b)
      (rw (logic_loc-absent m h e)
        (rw (reply-some c done (record h { location = insert m.peer m.server h.location }))))

-- The hub that has learned from a locating message.
abbrev pub learned : MsgLoc → ClientPeer → Hub → Hub
learned m target h = record h {
  location = insert m.peer m.server h.location;
  client_peers = insert m.target (add_session m.peer m.server target).0 h.client_peers;
}

logic_loc-learned :
    (m : MsgLoc) (target : ClientPeer) (h : Hub)
    → lookup m.target h.client_peers ≡ some target
    → logic_loc m h ≡ (ok tt, learned m target h)
unfolding logic_loc
logic_loc-learned m target h e =
    rw (e, logic_loc)
      (update_client-some m.target (λ p. (add_session m.peer m.server p).0)
        (record h { location = insert m.peer m.server h.location }) target e)

pub handle_logic-learned :
    (msg : Message) (m : MsgLoc) (target : ClientPeer) (c : ℕ) (h : Hub)
    → msg.header.command ≡ 9
    → msg.body ≡ loc m
    → lookup m.target h.client_peers ≡ some target
    → handle_logic msg (some c) h ≡ (ok tt, sending (learned m target h) (answered c done ∷ []))
unfolding handle_logic answer_command
handle_logic-learned msg m target c h cmd b e =
    rw (cmd, b) (rw (logic_loc-learned m target h e) (reply-some c done (learned m target h)))

-- A message for a client whose location is known goes to that server and to no other.
pub relay_located :
    (from : Addr) (msg : Message) (server_addr : Addr) (speer : ServerPeer) (c : ℕ) (h : Hub)
    → AllOpen h
    → is_type from addr_server ≡ false
    → is_type msg.header.dest addr_client ≡ true
    → lookup msg.header.dest h.client_peers ≡ none
    → lookup msg.header.dest h.location ≡ some server_addr
    → lookup server_addr h.server_peers ≡ some speer
    → handle_relay from msg (some c) h
      ≡ (ok tt, sending h (pushed speer.conn msg ∷ answered c not_here ∷ []))
unfolding handle_relay
relay_located from msg server_addr speer c h open_all f d n l s = rw d (
    rw (routed, push_message-open speer.conn msg h open_all)
      (reply-some c not_here (sending h (pushed speer.conn msg ∷ [])) ∙ rw append_assoc))
  where
    routed :
        relay_to_client from msg h ≡ (do push_message speer.conn msg; pure (some peer_no_found)) h
    routed = rw (n, relay_to_client) (rw f (rw (l, relay_to_client) (rw (s, relay_to_client))))

pub record_location-tells :
    (from : Addr) (header : Header) (speer : ServerPeer) (h : Hub)
    → AllOpen h
    → has header.source h.location ≡ false
    → has header.dest h.client_peers ≡ true
    → lookup from h.server_peers ≡ some speer
    → record_location from header h ≡ (
      ok tt,
      sending
          (record h { location = insert header.source from h.location })
          (pushed speer.conn (loc_message header.source header.dest h.server.addr from) ∷ []),
    )
unfolding record_location note_location
record_location-tells from header speer h open_all unknown here peer = rw unknown (
    rw here (
      rw (peer, note_location)
        (push_message-open speer.conn _
          (record h { location = insert header.source from h.location }) open_all)))

pub still_away :
    (k j : Addr) (p q : ClientPeer) (clients : Dict ClientPeer)
    → lookup k clients ≡ some q
    → lookup j clients ≡ none
    → lookup j (insert k p clients) ≡ none
still_away k j p q clients known away = lookup-insert k j p clients ∙ ground (arith, same→eq k j)
