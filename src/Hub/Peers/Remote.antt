-- ===== src/Hub/Peers/Remote.antt =====
-- A message from a client to a client on another server.
use ws_cluster.Common.{
  ℕ, ◌^◌, ◌+◌, ◌%◌, ◌≤◌, for_each, ◌==◌, ◌≡◌, refl, ◌∙◌, ap, Bool, true, false, inl, inr, List, [],
  ◌∷◌, ◌++◌, append_assoc, length, length-append, ltb, drop, drop-append, none, some, Bool-cases,
  lookup, ok, same, arith,
}
use ws_cluster.Wire.Addr.{Addr, addr_type, addr_client, addr_server}
use ws_cluster.Wire.Message.{Message, make_empty_resp_message}
use ws_cluster.Wire.Message.RoundTrip.{IsMessage, message_bytes}
use ws_cluster.Wire.Io.Laws.{length-le_bytes}
use ws_cluster.Peer.Inbound.{set_source}
use ws_cluster.Peer.Outbound.{Sender, with_seq, write_message, read_frames}
use ws_cluster.Peer.Outbound.Delivery.{sound, write_messages-read_frames}
use ws_cluster.Hub.State.{Hub, ClientPeer, ServerPeer, Output, pushed, answered, Resp}
use ws_cluster.Hub.Output.Open.{AllOpen, sending, pushes, push_message-open}
use ws_cluster.Hub.Relay.{is_type, loc_message}
use ws_cluster.Hub.Logic.Located.{done, not_here, relay_located}
use ws_cluster.Hub.Handler.{handle_packet, handle_content, handle_message}
use ws_cluster.Hub.Answer.{ask_as, awaited, find_answer, find_answer-first, find_answer-pushes}
use ws_cluster.Hub.Peers.{addressed, client_on_message, server_on_message}
use ws_cluster.Hub.Peers.Conns.{
  with_clients, record_session-SameConns, record_location-LocationNoted,
}
use ws_cluster.Hub.Peers.Delivery.{clients_only, handle_relay-here, awaited-second}

-- The message leaves the server of its sender: it goes to the server that is noted for its
-- destination, and the sender gets the response.
pub client_message_leaves :
    (now c : ℕ) (p : ClientPeer) (to_b : ServerPeer) (at_b : Addr) (msg : Message) (a : Hub)
    → AllOpen a
    → is_type a.server.addr addr_server ≡ true
    → is_type p.addr addr_client ≡ true
    → is_type msg.header.dest addr_client ≡ true
    → lookup msg.header.dest a.client_peers ≡ none
    → lookup msg.header.dest a.location ≡ some at_b
    → lookup at_b a.server_peers ≡ some to_b
    → (a' : Hub) × (client_on_message now c p msg a ≡ (ok tt, a'))
      × (a'.sent
          ≡ a.sent
            ++ (pushed to_b.conn msg
                ∷ answered c not_here
                ∷ pushed p.conn (make_empty_resp_message msg.header 200)
                ∷ []))
unfolding client_on_message addressed ask_as handle_packet handle_content handle_message
client_message_leaves now c p to_b at_b msg a open_all s f d away located peer =
    let (not_own, not_server, not_empty) =
      clients_only p.addr msg.header.dest a.server.addr d f s in
    let (clients, e2, k) = record_session-SameConns p.addr msg.header a in
    let a2 = with_clients a clients in
    let sent = pushed to_b.conn msg ∷ answered c not_here ∷ [] in
    let resp = make_empty_resp_message msg.header 200 in
    (
      sending (sending a2 sent) (pushed p.conn resp ∷ []),
      rw (not_empty, e2)
          (rw (not_server, not_own)
            (rw
              (relay_located p.addr msg at_b to_b c a2 open_all not_server d
                (k.away msg.header.dest away) located peer)
              (rw (awaited-second c to_b.conn msg not_here a.sent a2 refl)
                (push_message-open p.conn resp (sending a2 sent) open_all)))),
      append_assoc a.sent sent (pushed p.conn resp ∷ []),
    )

-- The answer behind a notice and a message.
awaited-third :
    (c conn : ℕ) (notice msg : Message) (conns : List ℕ) (r : Resp) (before : List Output) (h : Hub)
    → h.sent ≡ before ++ pushes notice conns
    → awaited c (length before) (ok tt, sending h (pushed conn msg ∷ answered c r ∷ []))
      ≡ (ok r, sending h (pushed conn msg ∷ answered c r ∷ []))
unfolding awaited
awaited-third c conn notice msg conns r before h e =
    let sent = pushed conn msg ∷ answered c r ∷ [] in
    let found : find_answer c (drop (length before) (h.sent ++ sent)) ≡ some r =
      ap (λ s. find_answer c (drop (length before) (s ++ sent))) e
      ∙ ap (λ s. find_answer c (drop (length before) s))
          (append_assoc before (pushes notice conns) sent)
      ∙ ap (find_answer c) (drop-append (length before) before (pushes notice conns ++ sent) refl)
      ∙ find_answer-pushes c notice conns sent
      ∙ find_answer-first c r [] in
    rw (found, awaited)

-- The message comes to the server of its destination.
server_message_arrives :
    (now c : ℕ) (from : ServerPeer) (q : ClientPeer) (msg : Message) (b : Hub)
    → AllOpen b
    → is_type b.server.addr addr_server ≡ true
    → is_type from.addr addr_server ≡ true
    → is_type msg.header.source addr_client ≡ true
    → is_type msg.header.dest addr_client ≡ true
    → lookup msg.header.dest b.client_peers ≡ some q
    → (b' : Hub) × (server_on_message now c from msg b ≡ (ok tt, b'))
      × (conns : List ℕ) × (length conns ≤ 1)
      × (b'.sent
          ≡ b.sent
            ++ (pushes (loc_message msg.header.source msg.header.dest b.server.addr from.addr) conns
                ++ (pushed q.conn msg ∷ answered c done ∷ [])))
unfolding server_on_message ask_as handle_packet handle_content handle_message
server_message_arrives now c from q msg b open_all s f source d found =
    let not_own : same msg.header.dest b.server.addr ≡ false =
      (clients_only msg.header.source msg.header.dest b.server.addr d source s).0 in
    let (clients, e1, k) = record_session-SameConns from.addr msg.header b in
    let (q', here, same_conn, _) = k.here msg.header.dest q found in
    let b1 = with_clients b clients in
    let (b2, e2, l) = record_location-LocationNoted from.addr msg.header b1 open_all in
    let notice = loc_message msg.header.source msg.header.dest b.server.addr from.addr in
    let open2 : AllOpen b2 = λ conn. ap (λ (g : ℕ → Bool). g conn) l.connected ∙ open_all conn in
    let here2 : lookup msg.header.dest b2.client_peers ≡ some q' =
      ap (lookup msg.header.dest) l.clients ∙ here in
    let not_own2 : same msg.header.dest b2.server.addr ≡ false =
      ap (λ x. same msg.header.dest x.addr) l.server ∙ not_own in
    let sent = pushed q'.conn msg ∷ answered c done ∷ [] in
    (
      sending b2 sent,
      rw e1 (
          rw (f, source)
            (rw e2 (
              rw not_own2 (
                rw (handle_relay-here from.addr msg c b2 q' open2 d here2)
                  (rw (awaited-third c q'.conn notice msg l.conns done b.sent b2 l.sent) refl))))),
      l.conns,
      l.few,
      ap (λ x. x ++ sent) l.sent
          ∙ append_assoc b.sent (pushes notice l.conns) sent
          ∙ rw same_conn refl,
    )

-- The number of a message does not change how long it is.
length-with_seq :
    (k : ℕ) (msg : Message) → length (message_bytes (with_seq k msg)) ≡ length (message_bytes msg)
length-with_seq k msg = simp (length-append, length-le_bytes)

-- A message that one server writes to another comes out with a number, and otherwise as it was.
passes :
    (limit : ℕ) (addr : Addr) (n : ℕ) (msg : Message)
    → is_type addr addr_server ≡ true
    → IsMessage msg
    → length (message_bytes msg) ≤ limit
    → (w : Sender) × (for_each
          (msg ∷ [])
          (write_message sound)
          (record { auto_seq = n; frames = [] })
        ≡ (ok tt, w))
      × (k : ℕ) × (read_frames limit addr w.frames ≡ some (with_seq k msg ∷ []))
unfolding set_source is_type
passes limit addr n msg s v short =
    let (w, e, _, frames) = write_messages-read_frames limit addr (msg ∷ []) n (v, tt) in
    let plain : (addr_type addr == addr_client) ≡ false = ground (arith, s) in
    let k = (n + 1) % 2 ^ 32 in
    let fits : ltb limit (length (message_bytes msg)) ≡ false = ground (arith, short) in
    let fits_k : ltb limit (length (message_bytes (with_seq k msg))) ≡ false =
      ap (ltb limit) (length-with_seq k msg) ∙ fits in
    elim (Bool-cases (msg.header.seq == 0)) [
      | inl z ↦ (w, e, k, frames ∙ rw z (rw fits_k (rw plain refl)))
      | inr z ↦ (w, e, msg.header.seq, frames ∙ rw z (rw fits (rw plain refl)))
    ]

-- A client of server a sends a message to a client that is logged in at server b, and a has noted that
-- it is there; all connections of both are open. The message goes to b alone, and its sender gets the
-- response of a. What a's peer writes is read at b as that message, under some number, where it is not
-- longer than the limit of b's peer; there it is
-- pushed to the client that it is for, and b tells at most one connection, and nobody else, where that
-- client is.
pub remote_message_delivered :
    (now c d n limit : ℕ) (p q : ClientPeer) (to_b from_a : ServerPeer) (msg : Message) (a b : Hub)
    → AllOpen a
    → AllOpen b
    → is_type a.server.addr addr_server ≡ true
    → is_type b.server.addr addr_server ≡ true
    → is_type p.addr addr_client ≡ true
    → is_type msg.header.source addr_client ≡ true
    → is_type msg.header.dest addr_client ≡ true
    → IsMessage msg
    → length (message_bytes msg) ≤ limit
    → lookup msg.header.dest a.client_peers ≡ none
    → lookup msg.header.dest a.location ≡ some b.server.addr
    → lookup b.server.addr a.server_peers ≡ some to_b
    → from_a.addr ≡ a.server.addr
    → lookup msg.header.dest b.client_peers ≡ some q
    → (a' : Hub) × (client_on_message now c p msg a ≡ (ok tt, a'))
      × (a'.sent
          ≡ a.sent
            ++ (pushed to_b.conn msg
                ∷ answered c not_here
                ∷ pushed p.conn (make_empty_resp_message msg.header 200)
                ∷ []))
      × (w : Sender) × (for_each
            (msg ∷ [])
            (write_message sound)
            (record { auto_seq = n; frames = [] })
          ≡ (ok tt, w))
      × (k : ℕ) × (read_frames limit a.server.addr w.frames ≡ some (with_seq k msg ∷ []))
      × (b' : Hub) × (server_on_message now d from_a (with_seq k msg) b ≡ (ok tt, b'))
      × (conns : List ℕ) × (length conns ≤ 1)
      × (b'.sent
          ≡ b.sent
            ++ (pushes
                  (loc_message msg.header.source msg.header.dest b.server.addr from_a.addr)
                  conns
                ++ (pushed q.conn (with_seq k msg) ∷ answered d done ∷ [])))
remote_message_delivered now c d n limit p q to_b from_a msg a b open_a open_b sa sb sp source dest
      v short away located peer same_addr found =
    let (a', left, sent) =
      client_message_leaves now c p to_b b.server.addr msg a open_a sa sp dest away located peer in
    let (w, written, k, read) = passes limit a.server.addr n msg sa v short in
    let (b', arrived, conns, few, sent') =
      server_message_arrives now d from_a q (with_seq k msg) b open_b sb (rw same_addr sa) source
        dest found in
    (a', left, sent, w, written, k, read, b', arrived, conns, few, sent')
