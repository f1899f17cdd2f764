-- ===== src/Hub/Regist.antt =====
-- hub/hub.go: peers come and go.
pub mod Login
pub mod Logout
use ws_cluster.Common.{
  ℕ, ◌%◌, ◌^◌, Bool, true, false, not, List, [], ◌∷◌, Option, none, some, Dict, lookup, insert,
  remove, has, M, ◌>>=◌, ◌>>◌, pure, modify, gets, for_each, same, if◌then◌else◌,
}
use ws_cluster.Wire.Addr.{Addr}
use ws_cluster.Wire.Body.{kill, offline, MsgOffline}
use ws_cluster.Wire.Message.{Message, make_empty_header_message}
use ws_cluster.Hub.State.{
  Hub, Handler, Resp, Packet, ClientPeer, ServerPeer, queued, leave, relay_message,
}
use ws_cluster.Hub.Session.{get_all_session_servers}
use ws_cluster.Hub.Output.{push_message, reply, must_reply, broadcast, send_group, emit}

-- MsgStatusOk
abbrev pub status_ok : Resp
status_ok = record { status = 200; error = none; body = none }

-- `time.Now().UnixNano() / 1000000` is the argument `now`.
unfoldable pub kill_message : Addr → ℕ → Message
unfolding make_empty_header_message
kill_message addr now =
    let m = make_empty_header_message 7 (kill (record { login_at = now % 2 ^ 64 })) in
    record m { header = record (m.header) { source = addr; dest = addr } }

unfoldable pub handle_client_peer_regist : ℕ → ClientPeer → Option ℕ → Handler
unfolding kill_message
handle_client_peer_regist now peer resp = do
  let packet = kill_message peer.addr now
  old ← gets (λ h. lookup peer.addr h.client_peers)
  elim old [ none ↦ pure tt | some oldpeer ↦ push_message oldpeer.conn packet ]
  broadcast packet
  modify (λ h. record h { client_peers = insert peer.addr peer h.client_peers })
  reply resp status_ok

unfoldable pub offline_message : ClientPeer → Addr → Addr → List Addr → Message
unfolding make_empty_header_message
offline_message peer self dest targets =
    let body : MsgOffline = record {
      peer = peer.addr;
      notice = peer.offline_notice;
      targets = targets;
    } in
    let m = make_empty_header_message 11 (offline body) in
    record m { header = record (m.header) { source = self; dest = dest } }

-- One round of the loop over the servers that a client has sessions with. A server that is no peer
-- is this one, or one that is gone: the message goes to the hub's own queue.
unfoldable pub notice_server : ClientPeer → Addr × List Addr → Handler
unfolding offline_message emit push_message
notice_server peer (server, targets) h =
    let self = h.server.addr in
    elim (lookup server h.server_peers) [
      | none ↦
          emit
            (queued (record {
              from = self;
              content = relay_message (offline_message peer self self targets);
              resp = none;
            }))
            h
      | some speer ↦ push_message speer.conn (offline_message peer self server targets) h
    ]

-- The peer that is alive under the address is the one that leaves: it leaves its groups, and the
-- servers of its sessions are told.
unfoldable pub unregist_alive : ClientPeer → ClientPeer → Handler
unfolding notice_server
unregist_alive alive peer = do
  modify (λ h. record h { client_peers = remove peer.addr h.client_peers })
  for_each alive.groups (λ addr. send_group addr (leave peer.addr peer.conn))
  for_each (get_all_session_servers alive) (notice_server peer)

unfoldable pub handle_client_peer_unregist : ClientPeer → Option ℕ → Handler
unfolding unregist_alive
handle_client_peer_unregist peer resp h = elim (lookup peer.addr h.client_peers) [
  | none ↦ reply resp status_ok h
  | some alive ↦
      if not (same alive.remote_addr peer.remote_addr)
      then must_reply resp status_ok h
      else (do unregist_alive alive peer; reply resp status_ok) h
]

unfoldable pub handle_server_peer_regist : ServerPeer → Option ℕ → Handler
handle_server_peer_regist peer resp = do
  modify (λ h. record h { server_peers = insert peer.addr peer h.server_peers })
  reply resp status_ok

unfoldable pub handle_server_peer_unregist : ServerPeer → Option ℕ → Handler
handle_server_peer_unregist peer resp = do
  modify (λ h. record h { server_peers = remove peer.addr h.server_peers })
  reply resp status_ok
