-- ===== src/Hub/Peers/Delivery.antt =====
-- A message from one client to another on the same server.
use ws_cluster.Common.{
  ℕ, ◌≡◌, refl, ◌∙◌, ap, true, false, inl, inr, List, [], ◌∷◌, ◌++◌, append_assoc, length, drop,
  drop-append, some, Bool-cases, lookup, ok, same, same→eq, arith,
}
use ws_cluster.Wire.Addr.{Addr, addr_type, addr_client, addr_server, addr_is_empty}
use ws_cluster.Wire.Message.{Message, make_empty_resp_message}
use ws_cluster.Hub.State.{Hub, ClientPeer, Output, pushed, answered, Resp}
use ws_cluster.Hub.Output.Open.{AllOpen, sending, reply-some, push_message-open}
use ws_cluster.Hub.Relay.{is_type, handle_relay, relay_to_client}
use ws_cluster.Hub.Logic.Located.{done}
use ws_cluster.Hub.Handler.{handle_packet, handle_content, handle_message}
use ws_cluster.Hub.Answer.{ask_as, awaited, find_answer, find_answer-first}
use ws_cluster.Hub.Peers.Conns.{with_clients, record_session-SameConns}
use ws_cluster.Hub.Peers.{addressed, client_on_message}

-- What the addresses of two clients and a server are not.
pub clients_only :
    (from dest self : Addr)
    → is_type dest addr_client ≡ true
    → is_type from addr_client ≡ true
    → is_type self addr_server ≡ true
    → (same dest self ≡ false) × (is_type from addr_server ≡ false) × (addr_is_empty dest ≡ false)
unfolding is_type addr_type addr_is_empty
clients_only from dest self d f s = (
  elim (Bool-cases (same dest self)) [
    | inl e ↦ absurd (ground (arith, ap addr_type (same→eq dest self e), d, s))
    | inr e ↦ e
  ],
  ground (arith, f),
  ground (arith, d),
)

pub handle_relay-here :
    (from : Addr) (msg : Message) (c : ℕ) (h : Hub) (q : ClientPeer)
    → AllOpen h
    → is_type msg.header.dest addr_client ≡ true
    → lookup msg.header.dest h.client_peers ≡ some q
    → handle_relay from msg (some c) h
      ≡ (ok tt, sending h (pushed q.conn msg ∷ answered c done ∷ []))
unfolding handle_relay relay_to_client
handle_relay-here from msg c h q open_all d found = rw d (
    rw (found, relay_to_client)
      (rw (push_message-open q.conn msg h open_all) (
        rw (reply-some c done (sending h (pushed q.conn msg ∷ [])))
          (rw (append_assoc h.sent (pushed q.conn msg ∷ []) (answered c done ∷ []))))))

pub awaited-second :
    (c conn : ℕ) (msg : Message) (r : Resp) (before : List Output) (h : Hub)
    → h.sent ≡ before
    → awaited c (length before) (ok tt, sending h (pushed conn msg ∷ answered c r ∷ []))
      ≡ (ok r, sending h (pushed conn msg ∷ answered c r ∷ []))
unfolding awaited
awaited-second c conn msg r before h e =
    let sent = pushed conn msg ∷ answered c r ∷ [] in
    let found : find_answer c (drop (length before) (h.sent ++ sent)) ≡ some r =
      ap (λ s. find_answer c (drop (length before) (s ++ sent))) e
      ∙ ap (find_answer c) (drop-append (length before) before sent refl)
      ∙ find_answer-first c r [] in
    rw (found, awaited)

-- A message of a client for a client that is logged in at the same server, where all connections are
-- open, is pushed to the
-- one that it is for; then the hub's answer comes, and last the response that names the number of the
-- message is pushed to its sender. Nothing else is sent.
pub client_message_delivered :
    (now c : ℕ) (p q : ClientPeer) (msg : Message) (h : Hub)
    → AllOpen h
    → is_type h.server.addr addr_server ≡ true
    → is_type p.addr addr_client ≡ true
    → is_type msg.header.dest addr_client ≡ true
    → lookup msg.header.dest h.client_peers ≡ some q
    → (h' : Hub) × (client_on_message now c p msg h ≡ (ok tt, h'))
      × (h'.sent
          ≡ h.sent
            ++ (pushed q.conn msg
                ∷ answered c done
                ∷ pushed p.conn (make_empty_resp_message msg.header 200)
                ∷ []))
unfolding client_on_message addressed ask_as handle_packet handle_content handle_message
client_message_delivered now c p q msg h open_all s f d found =
    let (not_own, not_server, not_empty) =
      clients_only p.addr msg.header.dest h.server.addr d f s in
    let (clients, e2, k) = record_session-SameConns p.addr msg.header h in
    let (q', here, same_conn, _) = k.here msg.header.dest q found in
    let h2 = with_clients h clients in
    let sent = pushed q'.conn msg ∷ answered c done ∷ [] in
    let resp = make_empty_resp_message msg.header 200 in
    (
      sending (sending h2 sent) (pushed p.conn resp ∷ []),
      rw (not_empty, e2)
          (rw (not_server, not_own)
            (rw (handle_relay-here p.addr msg c h2 q' open_all d here) (
              rw (awaited-second c q'.conn msg done h.sent h2 refl)
                (push_message-open p.conn resp (sending h2 sent) open_all)))),
      append_assoc h.sent sent (pushed p.conn resp ∷ []) ∙ rw (same_conn),
    )
