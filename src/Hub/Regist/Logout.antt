-- ===== src/Hub/Regist/Logout.antt =====
-- A client's connection closes.
use ws_cluster.Common.{
  ℕ, ◌≡◌, refl, ◌∙◌, inl, inr, List, [], ◌∷◌, ◌++◌, append_assoc, append-nil, Option, none, some,
  Option-cases, lookup, remove, insert, lookup-remove, same, same_refl, ok, for_each, if◌then◌else◌,
  Dict, true,
}
use ws_cluster.Wire.Addr.{Addr}
use ws_cluster.Hub.State.{
  Hub, Output, pushed, answered, queued, relay_message, ClientPeer, ServerPeer, Group, GroupPacket,
  leave,
}
use ws_cluster.Hub.Session.{get_all_session_servers}
use ws_cluster.Hub.Output.{emit, send_group}
use ws_cluster.Hub.Output.Open.{AllOpen, sending, push_message-open, reply-some}
use ws_cluster.Hub.Regist.{
  handle_client_peer_unregist, unregist_alive, notice_server, offline_message, status_ok,
}

-- What tells a server of a logout: a message to it where it is a peer, and to the hub itself if not.
abbrev pub notice_by : ClientPeer → Addr → Addr × List Addr → Option ServerPeer → Output
notice_by peer self (server, targets) none = queued (record {
  from = self;
  content = relay_message (offline_message peer self self targets);
  resp = none;
})
notice_by peer self (server, targets) (some speer) =
    pushed speer.conn (offline_message peer self server targets)

abbrev pub notices : ClientPeer → Addr → Dict ServerPeer → Dict (List Addr) → List Output
notices peer self speers [] = []
notices peer self speers (s ∷ ss) =
    notice_by peer self s (lookup s.0 speers) ∷ notices peer self speers ss

notice_server-open :
    (peer : ClientPeer) (s : Addr × List Addr) (h : Hub)
    → AllOpen h
    → notice_server peer s h
      ≡ (ok tt, sending h (notice_by peer h.server.addr s (lookup s.0 h.server_peers) ∷ []))
unfolding notice_server emit
notice_server-open peer (server, targets) h open_all =
    elim (Option-cases (lookup server h.server_peers)) [
      | inl e ↦ rw (e, notice_server)
      | inr (speer, e) ↦ rw (e, notice_server) (push_message-open speer.conn _ h open_all)
    ]

notices-open :
    (peer : ClientPeer) (ss : Dict (List Addr)) (h : Hub)
    → AllOpen h
    → for_each ss (notice_server peer) h
      ≡ (ok tt, sending h (notices peer h.server.addr h.server_peers ss))
notices-open peer [] h open_all = rw append-nil
notices-open peer (s ∷ ss) h open_all = rw (notice_server-open peer s h open_all) (
    notices-open peer ss
      (sending h (notice_by peer h.server.addr s (lookup s.0 h.server_peers) ∷ [])) open_all
    ∙ rw append_assoc)

-- A packet for a group leaves all but the groups as it is.
send_group-groups :
    (addr : Addr) (packet : GroupPacket) (h : Hub)
    → (gs : Dict Group) × (send_group addr packet h ≡ (ok tt, record h { groups = gs }))
unfolding send_group
send_group-groups addr packet h = elim (Option-cases (lookup addr h.groups)) [
  | inl e ↦ (h.groups, rw (e, send_group))
  | inr (g, e) ↦
      (insert addr (record g { packet = g.packet ++ (packet ∷ []) }) h.groups, rw (e, send_group))
]

leaves-groups :
    (peer : ClientPeer) (addrs : List Addr) (h : Hub)
    → (gs : Dict Group) × (for_each addrs (λ addr. send_group addr (leave peer.addr peer.conn)) h
        ≡ (ok tt, record h { groups = gs }))
leaves-groups peer [] h = (h.groups, refl)
leaves-groups peer (addr ∷ addrs) h =
    let (gs, e) = send_group-groups addr (leave peer.addr peer.conn) h in
    let (gs', e') = leaves-groups peer addrs (record h { groups = gs }) in (gs', rw e e')

-- Where all connections are open, the close of the connection that is logged in ends the login: the
-- map no longer holds the address and is unchanged elsewhere, and so are the servers and locations;
-- each server that the client has sessions with is told which clients those are with, and last comes
-- the answer.
pub unregist_logs_out :
    (peer alive : ClientPeer) (c : ℕ) (h : Hub)
    → AllOpen h
    → lookup peer.addr h.client_peers ≡ some alive
    → alive.remote_addr ≡ peer.remote_addr
    → (h' : Hub) × (handle_client_peer_unregist peer (some c) h ≡ (ok tt, h'))
      × ((j : Addr)
          → lookup j h'.client_peers ≡ (if same peer.addr j then none else lookup j h.client_peers))
      × (h'.server_peers ≡ h.server_peers)
      × (h'.location ≡ h.location)
      × (h'.sent
          ≡ h.sent
            ++ (notices peer h.server.addr h.server_peers (get_all_session_servers alive)
                ++ (answered c status_ok ∷ [])))
unfolding handle_client_peer_unregist unregist_alive
unregist_logs_out peer alive c h open_all e same_remote =
    let gone : Hub = record h { client_peers = remove peer.addr h.client_peers } in
    let (gs, left) = leaves-groups peer alive.groups gone in
    let after : Hub = record gone { groups = gs } in
    let hit : same alive.remote_addr peer.remote_addr ≡ true =
      rw same_remote (same_refl peer.remote_addr) in
    let told = notices peer h.server.addr h.server_peers (get_all_session_servers alive) in
    (
      sending (sending after told) (answered c status_ok ∷ []),
      rw (e, handle_client_peer_unregist)
          (rw hit (
            rw left (
              rw (notices-open peer (get_all_session_servers alive) after open_all)
                (reply-some c status_ok (sending after told))))),
      λ j. lookup-remove peer.addr j h.client_peers,
      refl,
      refl,
      append_assoc h.sent told (answered c status_ok ∷ []),
    )
