-- ===== src/Hub/Peers/Learning.antt =====
-- How a server learns where a client is, and where it then sends the messages for that client.
use ws_cluster.Common.{
  ℕ, ◌≡◌, refl, sym, ◌∙◌, ap, true, false, List, [], ◌∷◌, ◌++◌, append_assoc, append-nil, none,
  some, lookup, has, insert, lookup-insert, ok, same_refl, for_each, All, arith,
}
use ws_cluster.Wire.Addr.{Addr, addr_client, addr_server}
use ws_cluster.Wire.Body.{MsgLoc}
use ws_cluster.Wire.Message.{Message}
use ws_cluster.Peer.Outbound.{with_seq}
use ws_cluster.Hub.State.{Hub, Handler, ClientPeer, ServerPeer, Output, pushed, answered}
use ws_cluster.Hub.Output.Open.{AllOpen, sending}
use ws_cluster.Hub.Relay.{is_type, loc_message, record_session}
use ws_cluster.Hub.Logic.Located.{
  done, not_here, learned, handle_logic-learned, record_location-tells, still_away, relay_located,
}
use ws_cluster.Hub.Handler.{handle_message}
use ws_cluster.Hub.Peers.Conns.{with_clients, record_session-SameConns}
use ws_cluster.Hub.Peers.Delivery.{clients_only, handle_relay-here}

-- The first message of a client on another server for one that is here.
first_message_tells :
    (first : Message) (from : Addr) (to_a : ServerPeer) (q : ClientPeer) (e : ℕ) (b : Hub)
    → AllOpen b
    → is_type b.server.addr addr_server ≡ true
    → is_type from addr_server ≡ true
    → is_type first.header.source addr_client ≡ true
    → is_type first.header.dest addr_client ≡ true
    → has first.header.source b.location ≡ false
    → lookup first.header.dest b.client_peers ≡ some q
    → lookup from b.server_peers ≡ some to_a
    → (b' : Hub) × (handle_message from first (some e) b ≡ (ok tt, b'))
      × (b'.sent
          ≡ b.sent
            ++ (pushed to_a.conn
                  (loc_message first.header.source first.header.dest b.server.addr from)
                ∷ pushed q.conn first
                ∷ answered e done
                ∷ []))
unfolding handle_message
first_message_tells first from to_a q e b open_all s f source d unknown found peer =
    let (not_own, _, _) =
      clients_only first.header.source first.header.dest b.server.addr d source s in
    let (clients, e1, k) = record_session-SameConns from first.header b in
    let (q', here, same_conn, _) = k.here first.header.dest q found in
    let b1 = with_clients b clients in
    let notice = loc_message first.header.source first.header.dest b.server.addr from in
    let there : has first.header.dest b1.client_peers ≡ true = rw (here, has) refl in
    let b2 =
      sending (record b1 { location = insert first.header.source from b1.location })
        (pushed to_a.conn notice ∷ []) in
    (
      sending b2 (pushed q'.conn first ∷ answered e done ∷ []),
      rw e1 (
          rw (f, source)
            (rw (record_location-tells from first.header to_a b1 open_all unknown there peer)
              (rw not_own (handle_relay-here from first e b2 q' open_all d here)))),
      append_assoc b.sent (pushed to_a.conn notice ∷ [])
            (pushed q'.conn first ∷ answered e done ∷ [])
          ∙ rw same_conn refl,
    )

record_session-servers :
    (from : Addr) (msg : Message) (h : Hub)
    → is_type msg.header.source addr_client ≡ false
    → is_type msg.header.dest addr_client ≡ false
    → record_session from msg.header h ≡ (ok tt, h)
unfolding record_session
record_session-servers from msg h s d = rw (s, d) refl

server-client : (addr : Addr) → is_type addr addr_server ≡ true → is_type addr addr_client ≡ false
unfolding is_type
server-client addr s = ground (arith, s)

-- The notice comes to the server that it is for, under any number.
notice_is_taken :
    (target peer : Addr) (b_addr : Addr) (sender : ClientPeer) (k c : ℕ) (a : Hub)
    → is_type a.server.addr addr_server ≡ true
    → is_type b_addr addr_server ≡ true
    → lookup target a.client_peers ≡ some sender
    → let m : MsgLoc = record { target = target; peer = peer; server = b_addr } in
      handle_message b_addr (with_seq k (loc_message target peer b_addr a.server.addr)) (some c) a
      ≡ (ok tt, sending (learned m sender a) (answered c done ∷ []))
unfolding handle_message loc_message
notice_is_taken target peer b_addr sender k c a s f known =
    let notice = with_seq k (loc_message target peer b_addr a.server.addr) in
    let m : MsgLoc = record { target = target; peer = peer; server = b_addr } in
    rw
      (record_session-servers b_addr notice a (server-client b_addr f)
        (server-client a.server.addr s))
      (rw (f, server-client b_addr f)
        (rw (same_refl a.server.addr) (handle_logic-learned notice m sender c a refl refl known)))

-- A message that a client of the server sends to `dest`, with the channel for its answer.
pub record Request : Type 0 where
  pub from : Addr
  pub resp : ℕ
  pub msg : Message

-- The hub handles them one after the other.
abbrev pub handle_requests : List Request → Handler
handle_requests rs = for_each rs (λ r. handle_message r.from r.msg (some r.resp))

-- A request of a client for the client at `dest`.
abbrev pub IsFor : Addr → Request → Type 0
IsFor dest r = (is_type r.from addr_client ≡ true) × (r.msg.header.dest ≡ dest)

-- To one server each, and an answer.
abbrev pub relayed : ServerPeer → List Request → List Output
relayed to [] = []
relayed to (r ∷ rs) = pushed to.conn r.msg ∷ answered r.resp not_here ∷ relayed to rs

-- The client at `dest` is not here, and noted at the server of the peer `to`.
record IsNoted (dest at_b : Addr) (to : ServerPeer) (h : Hub) : Type 0 where
  pub open_all : AllOpen h
  pub self : is_type h.server.addr addr_server ≡ true
  pub away : lookup dest h.client_peers ≡ none
  pub located : lookup dest h.location ≡ some at_b
  pub peer : lookup at_b h.server_peers ≡ some to

request_leaves :
    (r : Request) (dest at_b : Addr) (to : ServerPeer) (h : Hub)
    → is_type dest addr_client ≡ true
    → IsFor dest r
    → IsNoted dest at_b to h
    → (h' : Hub) × (handle_message r.from r.msg (some r.resp) h ≡ (ok tt, h'))
      × IsNoted dest at_b to h'
      × (h'.sent ≡ h.sent ++ (pushed to.conn r.msg ∷ answered r.resp not_here ∷ []))
unfolding handle_message
request_leaves r dest at_b to h d (f, e) n =
    let to_client : is_type r.msg.header.dest addr_client ≡ true =
      ap (λ x. is_type x addr_client) e ∙ d in
    let (not_own, not_server, _) =
      clients_only r.from r.msg.header.dest h.server.addr to_client f n.self in
    let (clients, e1, k) = record_session-SameConns r.from r.msg.header h in
    let h1 = with_clients h clients in
    let away1 : lookup r.msg.header.dest clients ≡ none =
      ap (λ x. lookup x clients) e ∙ k.away dest n.away in
    let located1 : lookup r.msg.header.dest h.location ≡ some at_b =
      ap (λ x. lookup x h.location) e ∙ n.located in
    (
      sending h1 (pushed to.conn r.msg ∷ answered r.resp not_here ∷ []),
      rw e1 (
          rw (not_server, not_own)
            (relay_located r.from r.msg at_b to r.resp h1 n.open_all not_server to_client away1
              located1 n.peer)),
      record {
        open_all = n.open_all;
        self = n.self;
        away = k.away dest n.away;
        located = n.located;
        peer = n.peer;
      },
      refl,
    )

requests_leave :
    (rs : List Request) (dest at_b : Addr) (to : ServerPeer) (h : Hub)
    → is_type dest addr_client ≡ true
    → All (IsFor dest) rs
    → IsNoted dest at_b to h
    → (h' : Hub) × (handle_requests rs h ≡ (ok tt, h')) × (h'.sent ≡ h.sent ++ relayed to rs)
requests_leave [] dest at_b to h d all n = (h, refl, sym (append-nil h.sent))
requests_leave (r ∷ rs) dest at_b to h d (this, all) n =
    let (h1, e1, n1, s1) = request_leaves r dest at_b to h d this n in
    let (h2, e2, s2) = requests_leave rs dest at_b to h1 d all n1 in
    (
      h2,
      rw e1 e2,
      s2
          ∙ ap (λ x. x ++ relayed to rs) s1
          ∙ append_assoc h.sent (pushed to.conn r.msg ∷ answered r.resp not_here ∷ [])
              (relayed to rs),
    )

-- Server b handles the first message of a client of server a for a client that is logged in at b; all
-- connections of both are open, and b has not noted the location of the sender. b pushes the message,
-- and tells a where its client is. a, where the sender is still logged in and the other client is not,
-- and which has b as a peer, handles this notice under whatever number; then any number of messages
-- of a's own clients for that client, with nothing handled between them, go each to b and to no other
-- server.
pub location_is_learned :
    (first : Message) (rs : List Request) (to_a to_b : ServerPeer) (sender : ClientPeer)
    (q : ClientPeer) (k c e : ℕ) (a b : Hub)
    → AllOpen a
    → AllOpen b
    → is_type a.server.addr addr_server ≡ true
    → is_type b.server.addr addr_server ≡ true
    → is_type first.header.source addr_client ≡ true
    → is_type first.header.dest addr_client ≡ true
    → has first.header.source b.location ≡ false
    → lookup first.header.dest b.client_peers ≡ some q
    → lookup a.server.addr b.server_peers ≡ some to_a
    → lookup b.server.addr a.server_peers ≡ some to_b
    → lookup first.header.source a.client_peers ≡ some sender
    → lookup first.header.dest a.client_peers ≡ none
    → All (IsFor first.header.dest) rs
    → let notice = loc_message first.header.source first.header.dest b.server.addr a.server.addr in
      (b' : Hub) × (handle_message a.server.addr first (some e) b ≡ (ok tt, b'))
      × (b'.sent ≡ b.sent ++ (pushed to_a.conn notice ∷ pushed q.conn first ∷ answered e done ∷ []))
      × (a' : Hub) × (handle_message b.server.addr (with_seq k notice) (some c) a ≡ (ok tt, a'))
      × (a'.sent ≡ a.sent ++ (answered c done ∷ []))
      × (a'' : Hub) × (handle_requests rs a' ≡ (ok tt, a''))
      × (a''.sent ≡ a'.sent ++ relayed to_b rs)
location_is_learned first rs to_a to_b sender q k c e a b open_a open_b sa sb source dest unknown
      here pa pb known away all =
    let target = first.header.source in
    let client = first.header.dest in
    let m : MsgLoc = record { target = target; peer = client; server = b.server.addr } in
    let a' : Hub = sending (learned m sender a) (answered c done ∷ []) in
    let (b', tells, sent) =
      first_message_tells first a.server.addr to_a q e b open_b sb sa source dest unknown here pa in
    let noted : IsNoted client b.server.addr to_b a' = record {
      open_all = open_a;
      self = sa;
      away = still_away target client _ sender a.client_peers known away;
      located = lookup-insert client client b.server.addr a.location ∙ rw (same_refl client) refl;
      peer = pb;
    } in
    let (a'', leave, relays) = requests_leave rs client b.server.addr to_b a' dest all noted in
    (
      b',
      tells,
      sent,
      a',
      notice_is_taken target client b.server.addr sender k c a sa sb known,
      refl,
      a'',
      leave,
      relays,
    )
