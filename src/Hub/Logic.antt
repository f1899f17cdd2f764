-- ===== src/Hub/Logic.antt =====
-- hub/hub.go, handleLogicPacket: messages for the server itself.
pub mod Located
pub mod Known
use ws_cluster.Common.{
  ℕ, ◌+◌, suc, ◌%◌, ◌^◌, Bool, true, false, not, List, [], ◌∷◌, ◌++◌, map, length, Option, none,
  some, Dict, Key, lookup, insert, remove, has, values, M, ◌>>=◌, ◌>>◌, pure, throw, modify, gets,
  lift, for_each, Result, ok, err, panicked, same, ltb, ◌==◌, ◌&&◌, if◌then◌else◌, Error,
}
use ws_cluster.Wire.Addr.{Addr}
use ws_cluster.Wire.Addr.Text.{addr_string}
use ws_cluster.Wire.Body.{
  Body, MsgGroupInOut, MsgLoc, MsgOffline, MsgQueryClient, chat, group_in_out, loc, offline,
  query_client, query_servers, offline_notice,
}
use ws_cluster.Wire.Message.{Header, Message, make_empty_header_message}
use ws_cluster.Hub.State.{
  Hub, Handler, Resp, RespError, RespBody, peer_no_found, ClientPeer, Server, ServerPeer,
  ServerInfo, Group, Count, join, leave, query_client_resp, query_servers_resp,
}
use ws_cluster.Hub.Session.{add_session, del_session}
use ws_cluster.Hub.Output.{push_message, reply, send_group, update_client}

-- mapset's Add and Remove, and Contains by value.
unfoldable pub set_contains : Addr → List Addr → Bool
set_contains a [] = false
set_contains a (b ∷ bs) = let later = set_contains a bs in if same b a then true else later

unfoldable pub set_add : Addr → List Addr → List Addr
unfolding set_contains
set_add a as' = if set_contains a as' then as' else as' ++ (a ∷ [])

unfoldable pub set_remove : Addr → List Addr → List Addr
set_remove a [] = []
set_remove a (b ∷ bs) = let rest = set_remove a bs in if same b a then rest else b ∷ rest

-- NewGroup
unfoldable pub new_group : Addr → Group
new_group addr = record {
  addr = addr;
  members = [];
  mem_count = record { joins = 0; leaves = 0 };
  packet = [];
}

-- `g.MemCount == 0`
unfoldable pub is_empty_count : Count → Bool
is_empty_count c = c.joins == c.leaves

unfoldable pub join_group : Addr → ℕ → Addr → Handler
unfolding set_add new_group update_client send_group
join_group source conn group = do
  update_client source (λ p. record p { groups = set_add group p.groups })
  modify (λ h.
      if has group h.groups
      then h
      else record h { groups = insert group (new_group group) h.groups })
  send_group group (join source conn)

-- A group that is empty is stopped and forgotten where there are more than 1000.
unfoldable pub leave_group : Addr → ℕ → Addr → Handler
unfolding set_remove update_client send_group is_empty_count
leave_group source conn group = do
  update_client source (λ p. record p { groups = set_remove group p.groups })
  send_group group (leave source conn)
  modify (λ h. elim (lookup group h.groups) [
    | none ↦ h
    | some g ↦
        if is_empty_count g.mem_count && ltb 1000 (length h.groups)
        then record h { groups = remove group h.groups }
        else h
  ])

-- MsgTypeGroupInOut: 1 is GroupIn, 0 is GroupOut.
unfoldable pub logic_group_in_out : Header → MsgGroupInOut → M Hub (Option RespError)
unfolding join_group leave_group
logic_group_in_out header msg h = elim (lookup header.source h.client_peers) [
  | none ↦ (ok (some peer_no_found), h)
  | some peer ↦
      (do
        for_each msg.groups (λ group.
            if msg.in_out == 1
            then join_group peer.addr peer.conn group
            else if msg.in_out == 0
            then leave_group peer.addr peer.conn group
            else pure tt)
        pure none)
        h
]

-- MsgTypeLoc: where the target is not here, the call on a nil peer panics.
unfoldable pub logic_loc : MsgLoc → Handler
unfolding update_client
logic_loc msg h =
    let h' = record h { location = insert msg.peer msg.server h.location } in
    elim (lookup msg.target h.client_peers) [
      | none ↦ (err panicked, h')
      | some peer ↦ update_client msg.target (λ p. (add_session msg.peer msg.server p).0) h'
    ]

unfoldable pub offline_notice_message : Addr → Addr → Message
unfolding make_empty_header_message
offline_notice_message peer dest =
    let m = make_empty_header_message 13 (offline_notice (record { peer = peer })) in
    record m { header = record (m.header) { dest = dest } }

unfoldable pub notice_target : MsgOffline → Addr → Handler
unfolding offline_notice_message update_client push_message
notice_target msg target h = elim (lookup target h.client_peers) [
  | none ↦ (ok tt, h)
  | some peer ↦
      (do
        update_client target (λ p. (del_session msg.peer p).0)
        if msg.notice == 1
            then push_message peer.conn (offline_notice_message msg.peer target)
            else pure tt)
        h
]

-- MsgTypeOffline
unfoldable pub logic_offline : MsgOffline → Handler
unfolding notice_target
logic_offline msg = do
  modify (λ h. record h { location = remove msg.peer h.location })
  for_each msg.targets (notice_target msg)

-- MsgTypeQueryClient: 0 where the client is not here.
unfoldable pub logic_query_client : MsgQueryClient → Hub → RespBody
logic_query_client query h = elim (lookup query.peer h.client_peers) [
  | none ↦ query_client_resp 0
  | some peer ↦ query_client_resp peer.login_at
]

-- String of a nil URL panics.
unfoldable pub server_info : Server → Result ServerInfo
server_info s = elim (addr_string s.addr) [
  | ok text ↦ elim s.client_url [
    | none ↦ err panicked
    | some url ↦ ok (record { addr = text; client_url = url; server_url = s.server_url })
  ]
  | err e ↦ err e
]

unfoldable pub server_infos : List Server → Result (List ServerInfo)
unfolding server_info
server_infos [] = ok []
server_infos (s ∷ ss) =
    let rest = server_infos ss in
    elim (server_info s) [
      | ok info ↦ elim rest [ ok infos ↦ ok (info ∷ infos) | err e ↦ err e ]
      | err e ↦ err e
    ]

-- MsgTypeQueryServers: this server, and its peers.
unfoldable pub logic_query_servers : Hub → Result RespBody
unfolding server_infos
logic_query_servers h =
    elim (server_infos (h.server ∷ map (λ p. p.server) (values h.server_peers))) [
      | ok infos ↦ ok (query_servers_resp infos)
      | err e ↦ err e
    ]

-- The error and the body of the response. An assertion on a body of another type panics.
unfoldable pub answer_command : ℕ → Header → Body → M Hub (Option RespError × Option RespBody)
answer_command command header body =
    if command == 5
    then elim body [
      | group_in_out m ↦ (do error ← logic_group_in_out header m; pure (error, none))
      | _ ↦ throw panicked
    ]
    else if command == 9
    then elim body [ loc m ↦ (do logic_loc m; pure (none, none)) | _ ↦ throw panicked ]
    else if command == 11
    then elim body [ offline m ↦ (do logic_offline m; pure (none, none)) | _ ↦ throw panicked ]
    else if command == 15
    then elim body [
      | query_client m ↦ (do answer ← gets (logic_query_client m); pure (none, some answer))
      | _ ↦ throw panicked
    ]
    else if command == 17
    then (do answer ← (λ h. (logic_query_servers h, h)); pure (none, some answer))
    else pure (none, none)

-- The deferred answer is sent after a panic too, with what the response holds by then.
unfoldable pub deferred_reply :
    Option ℕ → Result (Option RespError × Option RespBody) × Hub → Result (Unit {0}) × Hub
deferred_reply resp (ok (error, body), h) =
    reply resp (record { status = 200; error = error; body = body }) h
deferred_reply resp (err e, h) = elim e [
  | panicked ↦
      (do reply resp (record { status = 200; error = none; body = none }); throw panicked) h
  | other ↦ (err other, h)
]

unfoldable pub handle_logic : Message → Option ℕ → Handler
unfolding deferred_reply
handle_logic msg resp h =
    deferred_reply resp (answer_command msg.header.command msg.header msg.body h)
