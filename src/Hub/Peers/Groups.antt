-- ===== src/Hub/Peers/Groups.antt =====
-- A client joins a group over its connection, and a message for the group reaches it.
use ws_cluster.Common.{
  ℕ, ◌≡◌, refl, ◌∙◌, ap, Bool, true, false, inl, inr, [], ◌∷◌, ◌++◌, append_assoc, none, some,
  Option-cases, Dict, lookup, insert, has, lookup-insert, ok, same_refl, arith,
}
use ws_cluster.Wire.Addr.{Addr, empty_addr, addr_client, addr_server, addr_is_empty}
use ws_cluster.Wire.Body.{group_in_out}
use ws_cluster.Wire.Message.{Message, make_empty_resp_message}
use ws_cluster.Hub.State.{Hub, ClientPeer, Group, GroupPacket, join, pushed, answered}
use ws_cluster.Hub.Output.{update_client, send_group}
use ws_cluster.Hub.Output.Open.{AllOpen, sending, push_message-open, reply-some}
use ws_cluster.Hub.Relay.{is_type}
use ws_cluster.Hub.Logic.{
  new_group, set_add, join_group, logic_group_in_out, handle_logic, answer_command,
}
use ws_cluster.Hub.Logic.Located.{done}
use ws_cluster.Hub.Handler.{handle_packet, handle_content, handle_message}
use ws_cluster.Hub.Answer.{ask_as, awaited-last}
use ws_cluster.Hub.Peers.{addressed, client_on_message}
use ws_cluster.Hub.Peers.Conns.{with_clients, record_session-SameConns}

-- The group at an address, a new one where there is none.
abbrev pub group_at : Addr → Hub → Group
group_at addr h = elim (lookup addr h.groups) [ none ↦ new_group addr | some g ↦ g ]

-- A packet more in the channel of the group.
abbrev pub with_packet : GroupPacket → Group → Group
with_packet p g = record g { packet = g.packet ++ (p ∷ []) }

-- The group has one packet more; the connections and the servers stay, and nothing is sent.
pub record IsJoined (addr : Addr) (p : GroupPacket) (h h' : Hub) : Type 0 where
  pub server : h'.server ≡ h.server
  pub server_peers : h'.server_peers ≡ h.server_peers
  pub connected : h'.connected ≡ h.connected
  pub sent : h'.sent ≡ h.sent
  pub group : lookup addr h'.groups ≡ some (with_packet p (group_at addr h))

-- A change of one client.
changes_client :
    (addr : Addr) (change : ClientPeer → ClientPeer) (h : Hub)
    → (clients : Dict ClientPeer) × (update_client addr change h ≡ (ok tt, with_clients h clients))
unfolding update_client
changes_client addr change h = elim (Option-cases (lookup addr h.client_peers)) [
  | inl e ↦ (h.client_peers, rw (e, update_client))
  | inr (p, e) ↦ (insert addr (change p) h.client_peers, rw (e, update_client))
]

pub send_group-some :
    (addr : Addr) (p : GroupPacket) (g : Group) (h : Hub)
    → lookup addr h.groups ≡ some g
    → send_group addr p h ≡ (ok tt, record h { groups = insert addr (with_packet p g) h.groups })
unfolding send_group
send_group-some addr p g h e = rw (e, send_group)

join_group-IsJoined :
    (source : Addr) (conn : ℕ) (addr : Addr) (h : Hub)
    → (h' : Hub) × (join_group source conn addr h ≡ (ok tt, h'))
      × IsJoined addr (join source conn) h h'
unfolding join_group
join_group-IsJoined source conn addr h =
    let (clients, e1) =
      changes_client source (λ p. record p { groups = set_add addr p.groups }) h in
    elim (Option-cases (lookup addr h.groups)) [
      | inl e ↦
          let missing : has addr h.groups ≡ false = rw (e, has) refl in
          let g = new_group addr in
          let h1 = record (with_clients h clients) { groups = insert addr g h.groups } in
          let new : lookup addr h1.groups ≡ some g =
            lookup-insert addr addr g h.groups ∙ rw (same_refl addr) refl in
          (
            record h1 { groups = insert addr (with_packet (join source conn) g) h1.groups },
            rw e1 (rw missing (send_group-some addr (join source conn) g h1 new)),
            record {
              server = refl;
              server_peers = refl;
              connected = refl;
              sent = refl;
              group =
                  lookup-insert addr addr (with_packet (join source conn) g) h1.groups
                  ∙ rw (same_refl addr) (rw (e, group_at) refl);
            },
          )
      | inr (g, e) ↦
          let there : has addr h.groups ≡ true = rw (e, has) refl in
          let h1 = with_clients h clients in
          (
            record h1 { groups = insert addr (with_packet (join source conn) g) h.groups },
            rw e1 (rw there (send_group-some addr (join source conn) g h1 e)),
            record {
              server = refl;
              server_peers = refl;
              connected = refl;
              sent = refl;
              group =
                  lookup-insert addr addr (with_packet (join source conn) g) h.groups
                  ∙ rw (same_refl addr) (rw (e, group_at) refl);
            },
          )
    ]

-- A client asks to join a group: a message for its server, with no destination.
abbrev pub join_message : Addr → ℕ → Addr → Message
join_message source seq group = record {
  header = record {
    source = source;
    dest = empty_addr;
    seq = seq;
    ack_seq = 0;
    command = 5;
    status = 0;
  };
  body = group_in_out (record { in_out = 1; groups = group ∷ [] });
}

-- The same, for the server at an address.
abbrev pub join_for : Addr → Addr → ℕ → Addr → Message
join_for self source seq group =
    let m = join_message source seq group in record m { header = record (m.header) { dest = self } }

handle_logic-joins :
    (self : Addr) (q : ClientPeer) (seq : ℕ) (group : Addr) (c : ℕ) (source : Addr) (h : Hub)
    → lookup source h.client_peers ≡ some q
    → (h' : Hub) × (handle_logic (join_for self source seq group) (some c) h
        ≡ (ok tt, sending h' (answered c done ∷ [])))
      × IsJoined group (join q.addr q.conn) h h'
unfolding handle_logic answer_command logic_group_in_out
handle_logic-joins self q seq group c source h found =
    let (h', e, j) = join_group-IsJoined q.addr q.conn group h in
    (h', rw (found, logic_group_in_out) (rw e (reply-some c done h')), j)

pub client-ne-server : (a : Addr) → is_type a addr_client ≡ true → is_type a addr_server ≡ false
unfolding is_type
client-ne-server a f = ground arith

pub client_joins :
    (now c seq : ℕ) (q : ClientPeer) (group : Addr) (h : Hub)
    → AllOpen h
    → is_type h.server.addr addr_server ≡ true
    → is_type q.addr addr_client ≡ true
    → lookup q.addr h.client_peers ≡ some q
    → (h' : Hub) × (client_on_message now c q (join_message q.addr seq group) h ≡ (
      ok tt,
      sending h' (
          answered c done
          ∷ pushed q.conn
              (make_empty_resp_message (join_for h.server.addr q.addr seq group).header 200)
          ∷ []),
    ))
      × IsJoined group (join q.addr q.conn) h h'
unfolding client_on_message addressed ask_as handle_packet handle_content handle_message
    addr_is_empty
client_joins now c seq q group h open_all s f found =
    let msg = join_for h.server.addr q.addr seq group in
    let not_server : is_type q.addr addr_server ≡ false = client-ne-server q.addr f in
    let (clients, e1, k) = record_session-SameConns q.addr msg.header h in
    let (q', here, same_conn, same_addr) = k.here q.addr q found in
    let h1 = with_clients h clients in
    let (h2, e2, j) = handle_logic-joins h.server.addr q' seq group c q.addr h1 here in
    let resp = make_empty_resp_message msg.header 200 in
    let open2 : AllOpen h2 = λ conn. ap (λ (g : ℕ → Bool). g conn) j.connected ∙ open_all conn in
    (
      h2,
      rw e1 (
          rw (not_server, same_refl h.server.addr)
            (rw e2 (
              rw (awaited-last c done h.sent h2 j.sent) (
                push_message-open q.conn resp (sending h2 (answered c done ∷ [])) open2
                ∙ rw append_assoc)))),
      record {
        server = j.server;
        server_peers = j.server_peers;
        connected = j.connected;
        sent = j.sent;
        group =
            j.group
            ∙ ap (λ p. some (with_packet p (group_at group h)))
                (λ i. join (same_addr i) (same_conn i));
      },
    )
