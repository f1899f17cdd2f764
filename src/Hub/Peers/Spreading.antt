-- ===== src/Hub/Peers/Spreading.antt =====
-- A message of a client for a group.
use ws_cluster.Common.{
  ℕ, ◌≡◌, refl, ◌∙◌, ap, Bool, true, false, inl, inr, List, [], ◌∷◌, ◌++◌, append_assoc, length,
  drop, drop-append, Option, none, some, Bool-cases, Dict, Key, lookup, insert, lookup-insert,
  values, Unique, ok, same, same→eq, same_refl, for_each, All, if◌then◌else◌, arith,
}
use ws_cluster.Wire.Addr.{Addr, addr_type, addr_client, addr_server, addr_group, addr_is_empty}
use ws_cluster.Wire.Message.{Message, make_empty_resp_message}
use ws_cluster.Hub.State.{
  Hub, ClientPeer, Output, Group, GroupPacket, Resp, join, leave, message, pushed, answered,
}
use ws_cluster.Hub.Output.Open.{
  AllOpen, sending, pushes, server_conns, push_message-open, broadcast-open, reply-some,
}
use ws_cluster.Hub.Relay.{is_type, handle_relay, relay_to_others}
use ws_cluster.Hub.Logic.Located.{done}
use ws_cluster.Hub.Group.{group_loop}
use ws_cluster.Hub.Group.FanOut.{IsChange, last_conn, group_loop-FanOut}
use ws_cluster.Hub.Handler.{handle_packet, handle_content, handle_message}
use ws_cluster.Hub.Answer.{ask_as, awaited, find_answer, find_answer-first, find_answer-pushes}
use ws_cluster.Hub.Peers.{addressed, client_on_message}
use ws_cluster.Hub.Peers.Conns.{with_clients, record_session-SameConns}
use ws_cluster.Hub.Peers.Groups.{
  group_at, with_packet, join_message, join_for, send_group-some, client-ne-server, client_joins,
}

group_only :
    (dest self : Addr)
    → is_type dest addr_group ≡ true
    → is_type self addr_server ≡ true
    → (same dest self ≡ false) × (is_type dest addr_client ≡ false) × (addr_is_empty dest ≡ false)
unfolding is_type addr_type addr_is_empty
group_only dest self d s = (
  elim (Bool-cases (same dest self)) [
    | inl e ↦ absurd (ground (arith, ap addr_type (same→eq dest self e), d, s))
    | inr e ↦ e
  ],
  ground (arith, d),
  ground (arith, d),
)

awaited-pushes :
    (c : ℕ) (msg : Message) (conns : List ℕ) (r : Resp) (before : List Output) (h : Hub)
    → h.sent ≡ before ++ pushes msg conns
    → awaited c (length before) (ok tt, sending h (answered c r ∷ []))
      ≡ (ok r, sending h (answered c r ∷ []))
unfolding awaited
awaited-pushes c msg conns r before h e =
    let sent = answered c r ∷ [] in
    let found : find_answer c (drop (length before) (h.sent ++ sent)) ≡ some r =
      ap (λ s. find_answer c (drop (length before) (s ++ sent))) e
      ∙ ap (λ s. find_answer c (drop (length before) s))
          (append_assoc before (pushes msg conns) sent)
      ∙ ap (find_answer c) (drop-append (length before) before (pushes msg conns ++ sent) refl)
      ∙ find_answer-pushes c msg conns sent
      ∙ find_answer-first c r [] in
    rw (found, awaited)

-- The hub, with a message more in the channel of the group.
abbrev with_message : Addr → Message → Group → Hub → Hub
with_message addr msg g h = record h { groups = insert addr (with_packet (message msg) g) h.groups }

handle_relay-group :
    (from : Addr) (msg : Message) (g : Group) (c : ℕ) (h : Hub)
    → AllOpen h
    → is_type from addr_client ≡ true
    → is_type msg.header.dest addr_group ≡ true
    → is_type msg.header.dest addr_client ≡ false
    → lookup msg.header.dest h.groups ≡ some g
    → handle_relay from msg (some c) h ≡ (
      ok tt,
      sending
          (with_message msg.header.dest msg g
            (sending h (pushes msg (server_conns h.server_peers))))
          (answered c done ∷ []),
    )
unfolding handle_relay relay_to_others
handle_relay-group from msg g c h open_all f d n found =
    let h1 = sending h (pushes msg (server_conns h.server_peers)) in
    rw n (
      rw (f, broadcast-open msg h open_all)
        (rw (d, send_group-some msg.header.dest (message msg) g h1 found)
          (reply-some c done (with_message msg.header.dest msg g h1))))

client_message_spreads :
    (now c : ℕ) (p : ClientPeer) (msg : Message) (g : Group) (h : Hub)
    → AllOpen h
    → is_type h.server.addr addr_server ≡ true
    → is_type p.addr addr_client ≡ true
    → is_type msg.header.dest addr_group ≡ true
    → lookup msg.header.dest h.groups ≡ some g
    → (h' : Hub) × (client_on_message now c p msg h ≡ (ok tt, h'))
      × (h'.connected ≡ h.connected)
      × (lookup msg.header.dest h'.groups ≡ some (with_packet (message msg) g))
      × (h'.sent
          ≡ h.sent
            ++ (pushes msg (server_conns h.server_peers)
                ++ (answered c done ∷ pushed p.conn (make_empty_resp_message msg.header 200) ∷ [])))
unfolding client_on_message addressed ask_as handle_packet handle_content handle_message
client_message_spreads now c p msg g h open_all s f d found =
    let (not_own, not_client, not_empty) = group_only msg.header.dest h.server.addr d s in
    let (clients, e1, k) = record_session-SameConns p.addr msg.header h in
    let h1 = with_clients h clients in
    let conns = server_conns h.server_peers in
    let h2 = with_message msg.header.dest msg g (sending h1 (pushes msg conns)) in
    let resp = make_empty_resp_message msg.header 200 in
    (
      sending (sending h2 (answered c done ∷ [])) (pushed p.conn resp ∷ []),
      rw (not_empty, e1)
          (rw (client-ne-server p.addr f, not_own)
            (rw (handle_relay-group p.addr msg g c h1 open_all f d not_client found) (
              rw (awaited-pushes c msg conns done h.sent h2 refl)
                (push_message-open p.conn resp (sending h2 (answered c done ∷ [])) open_all)))),
      refl,
      lookup-insert msg.header.dest msg.header.dest (with_packet (message msg) g) h.groups
          ∙ rw (same_refl msg.header.dest) refl,
      simp append_assoc,
    )

joined_changes :
    (ps : List GroupPacket) (addr : Addr) (conn : ℕ)
    → All IsChange ps
    → All IsChange (ps ++ (join addr conn ∷ []))
joined_changes [] addr conn h = (tt, tt)
joined_changes (p ∷ ps) addr conn h = (h.0, joined_changes ps addr conn h.1)

last_conn-joined :
    (addr : Addr) (conn : ℕ) (ps : List GroupPacket) (before : Option ℕ)
    → last_conn addr (ps ++ (join addr conn ∷ [])) before ≡ some conn
last_conn-joined addr conn [] before = rw (same_refl addr) refl
last_conn-joined addr conn (message msg ∷ ps) before = last_conn-joined addr conn ps before
last_conn-joined addr conn (join a n ∷ ps) before =
    last_conn-joined addr conn ps (if same a addr then some n else before)
last_conn-joined addr conn (leave a n ∷ ps) before =
    last_conn-joined addr conn ps (if same a addr then none else before)

-- A client that is logged in asks over its connection to join a group, and then a client of the same
-- server sends a message to the group; all connections are open, the group has no message in its
-- channel before, and no member twice, or is not there yet. Both requests end without an error, and
-- when the loop of the group has taken what is in the channel, it has pushed the message once to each
-- member: to the client that joined, on its connection, and to those that the earlier joins and leaves
-- give, and to no one else.
pub joined_client_reached :
    (now c d seq : ℕ) (q p : ClientPeer) (msg : Message) (h : Hub)
    → AllOpen h
    → is_type h.server.addr addr_server ≡ true
    → is_type q.addr addr_client ≡ true
    → is_type p.addr addr_client ≡ true
    → is_type msg.header.dest addr_group ≡ true
    → lookup q.addr h.client_peers ≡ some q
    → Unique (group_at msg.header.dest h).members
    → All IsChange (group_at msg.header.dest h).packet
    → let ps = (group_at msg.header.dest h).packet ++ (join q.addr q.conn ∷ []) in
      (h1 : Hub) × (client_on_message now c q (join_message q.addr seq msg.header.dest) h
        ≡ (ok tt, h1))
      × (h2 : Hub) × (client_on_message now d p msg h1 ≡ (ok tt, h2))
      × (h3 : Hub) × (members : Dict ℕ) × (for_each
            (ps ++ (message msg ∷ []))
            (λ _. group_loop msg.header.dest)
            h2
          ≡ (ok tt, h3))
      × (h3.sent ≡ h2.sent ++ pushes msg (values members))
      × Unique members
      × (lookup q.addr members ≡ some q.conn)
      × ((k : Key)
          → lookup k members ≡ last_conn k ps (lookup k (group_at msg.header.dest h).members))
joined_client_reached now c d seq q p msg h open_all s fq fp dest found unique changes =
    let addr = msg.header.dest in
    let g = group_at addr h in
    let ps = g.packet ++ (join q.addr q.conn ∷ []) in
    let (h', joins, j) = client_joins now c seq q addr h open_all s fq found in
    let h1 : Hub = sending h' (
      answered c done
      ∷ pushed q.conn (make_empty_resp_message (join_for h.server.addr q.addr seq addr).header 200)
      ∷ []) in
    let open1 : AllOpen h1 = λ conn. ap (λ (t : ℕ → Bool). t conn) j.connected ∙ open_all conn in
    let self : is_type h1.server.addr addr_server ≡ true =
      ap (λ x. is_type x.addr addr_server) j.server ∙ s in
    let (h2, sends, connected, group, _) =
      client_message_spreads now d p msg (with_packet (join q.addr q.conn) g) h1 open1 self fp dest
        j.group in
    let open2 : AllOpen h2 = λ conn. ap (λ (t : ℕ → Bool). t conn) connected ∙ open1 conn in
    let (h3, members, runs, sent, once, who) =
      group_loop-FanOut addr ps msg []
        (with_packet (message msg) (with_packet (join q.addr q.conn) g)) h2 open2 group unique refl
        (joined_changes g.packet q.addr q.conn changes) in
    (
      h1,
      joins,
      h2,
      sends,
      h3,
      members,
      runs,
      sent,
      once,
      who q.addr ∙ last_conn-joined q.addr q.conn g.packet (lookup q.addr g.members),
      who,
    )
