-- ===== src/Tests/Hub.antt =====
-- Handlers at concrete inputs.
use ws_cluster.Common.{
  ℕ, Bool, true, false, ◌≡◌, ◌↔◌, refl, List, [], ◌∷◌, ◌++◌, none, some, Dict, lookup, has, same,
  ok, if◌then◌else◌, Unique, for_each, values, Key,
}
use ws_cluster.Wire.Addr.{Addr, addr_client, addr_server, addr_type}
use ws_cluster.Wire.Message.{Message}
use ws_cluster.Hub.State.{
  Hub, ClientPeer, Server, ServerPeer, Group, join, pushed, answered, message, leave, GroupPacket,
}
use ws_cluster.Hub.Session.{get_all_session_servers}
use ws_cluster.Hub.Session.Servers.{peers_on, extend, lookup-get_all_session_servers}
use ws_cluster.Hub.Output.Open.{AllOpen, sending, pushes, server_conns}
use ws_cluster.Hub.Regist.{
  handle_client_peer_regist, handle_client_peer_unregist, kill_message, status_ok,
}
use ws_cluster.Hub.Regist.Login.{conns_at, regist_logs_in, login_survives_logout}
use ws_cluster.Hub.Regist.Logout.{notices, unregist_logs_out}
use ws_cluster.Hub.Relay.{is_type, handle_relay, loc_message}
use ws_cluster.Hub.Relay.Local.{Local, handle_relay-Local}
use ws_cluster.Hub.Logic.Located.{done}
use ws_cluster.Peer.Outbound.{with_seq}
use ws_cluster.Hub.Handler.{handle_message}
use ws_cluster.Hub.Peers.Learning.{Request, handle_requests, relayed, location_is_learned}
use ws_cluster.Hub.Group.{group_apply, group_loop}
use ws_cluster.Hub.Group.FanOut.{group_loop-FanOut, last_conn}
use ws_cluster.Hub.Group.Members.{IsCounted, IsProper, group_apply-IsCounted}
use ws_cluster.Wire.Addr.Fields.{layout}
use ws_cluster.Tests.Wire.{client, server, hello}

abbrev pub other_server : Addr
other_server = layout 2 0 0 (50 ∷ [])

abbrev pub guest : Addr
guest = layout 1 7 2 (103 ∷ [])

-- The peer of a client, by its remote address and the number of its connection.
abbrev pub peer_of : Addr → ℕ → ClientPeer
peer_of addr conn = record {
  addr = addr;
  remote_addr = conn ∷ [];
  conn = conn;
  login_at = 0;
  offline_notice = 1;
  groups = [];
  sessions = (guest, record { peer_addr = guest; server_addr = other_server }) ∷ [];
}

abbrev pub server_at : Addr → Server
server_at addr = record { addr = addr; client_url = some []; server_url = [] }

-- A hub with one other server, on connection 50.
abbrev pub hub_of : Addr → Addr → Dict ClientPeer → (ℕ → Bool) → Hub
hub_of self other clients connected = record {
  server = server_at self;
  client_peers = clients;
  server_peers = (other, record { addr = other; conn = 50; server = server_at other }) ∷ [];
  groups = [];
  location = [];
  connected = connected;
  sent = [];
}

abbrev old_peer : ClientPeer
old_peer = peer_of client 1

abbrev new_conn_peer : ClientPeer
new_conn_peer = peer_of client 2

abbrev hub : Hub
hub = hub_of server other_server ((client, old_peer) ∷ []) (λ _. true)

hub-AllOpen : AllOpen hub
hub-AllOpen conn = refl

old_found : lookup client hub.client_peers ≡ some old_peer
unfolding lookup same
old_found = refl

lookup-get_all_session_servers_example :
    lookup other_server (get_all_session_servers old_peer)
    ≡ extend none (peers_on other_server old_peer.sessions)
lookup-get_all_session_servers_example = lookup-get_all_session_servers other_server old_peer

regist_logs_in_example :
    let msg = kill_message client 1000 in
    (h' : Hub) × (handle_client_peer_regist 1000 new_conn_peer (some 7) hub ≡ (ok tt, h'))
    × ((j : Addr)
        → lookup j h'.client_peers
          ≡ (if same client j then some new_conn_peer else lookup j hub.client_peers))
    × (h'.server_peers ≡ hub.server_peers)
    × (h'.groups ≡ hub.groups)
    × (h'.location ≡ hub.location)
    × (h'.sent
        ≡ hub.sent
          ++ (pushes msg (conns_at client hub)
              ++ (pushes msg (server_conns hub.server_peers) ++ (answered 7 status_ok ∷ []))))
regist_logs_in_example = regist_logs_in 1000 new_conn_peer 7 hub hub-AllOpen

login_survives_logout_example :
    (h' : Hub) × (handle_client_peer_regist 1000 new_conn_peer (some 7) hub ≡ (ok tt, h'))
    × (handle_client_peer_unregist old_peer (some 8) h'
        ≡ (ok tt, sending h' (answered 8 status_ok ∷ [])))
    × (lookup client h'.client_peers ≡ some new_conn_peer)
login_survives_logout_example =
    login_survives_logout 1000 old_peer new_conn_peer 7 8 hub hub-AllOpen refl cc

unregist_logs_out_example :
    (h' : Hub) × (handle_client_peer_unregist old_peer (some 7) hub ≡ (ok tt, h'))
    × ((j : Addr)
        → lookup j h'.client_peers ≡ (if same client j then none else lookup j hub.client_peers))
    × (h'.server_peers ≡ hub.server_peers)
    × (h'.location ≡ hub.location)
    × (h'.sent
        ≡ hub.sent
          ++ (notices old_peer hub.server.addr hub.server_peers (get_all_session_servers old_peer)
              ++ (answered 7 status_ok ∷ [])))
unregist_logs_out_example = unregist_logs_out old_peer old_peer 7 hub hub-AllOpen old_found refl

other_server-server : is_type other_server addr_server ≡ true
unfolding is_type addr_type
other_server-server = refl

handle_relay-Local_example : Local hub (handle_relay other_server hello (some 7) hub)
handle_relay-Local_example = handle_relay-Local other_server hello (some 7) hub other_server-server

guest_absent : lookup guest hub.client_peers ≡ none
unfolding lookup same
guest_absent = refl

-- The client is on `hub` and the guest on this one.
abbrev pub guest_hub : Hub
guest_hub = hub_of other_server server ((guest, peer_of guest 3) ∷ []) (λ _. true)

abbrev to_guest : Message
to_guest = record hello { header = record (hello.header) { source = client; dest = guest } }

abbrev peer_on_50 : Addr → ServerPeer
peer_on_50 addr = record { addr = addr; conn = 50; server = server_at addr }

unknown : has client guest_hub.location ≡ false
unfolding lookup
unknown = refl

guest_here : has guest guest_hub.client_peers ≡ true
unfolding lookup same
guest_here = refl

server_found : lookup server guest_hub.server_peers ≡ some (peer_on_50 server)
unfolding lookup same
server_found = refl

other_found : lookup other_server hub.server_peers ≡ some (peer_on_50 other_server)
unfolding lookup same
other_found = refl

guest-client : is_type guest addr_client ≡ true
unfolding is_type addr_type
guest-client = refl

client-server : is_type client addr_server ≡ false
unfolding is_type addr_type
client-server = refl

server-server : is_type server addr_server ≡ true
unfolding is_type addr_type
server-server = refl

client-client : is_type client addr_client ≡ true
unfolding is_type addr_type
client-client = refl

guest_found : lookup guest guest_hub.client_peers ≡ some (peer_of guest 3)
unfolding lookup same
guest_found = refl

abbrev two_requests : List Request
two_requests =
    record { from = client; resp = 8; msg = to_guest }
    ∷ record { from = client; resp = 9; msg = to_guest }
    ∷ []

location_is_learned_example :
    let notice = loc_message client guest other_server server in
    (b' : Hub) × (handle_message server to_guest (some 6) guest_hub ≡ (ok tt, b'))
    × (b'.sent ≡ guest_hub.sent ++ (pushed 50 notice ∷ pushed 3 to_guest ∷ answered 6 done ∷ []))
    × (a' : Hub) × (handle_message other_server (with_seq 4 notice) (some 7) hub ≡ (ok tt, a'))
    × (a'.sent ≡ hub.sent ++ (answered 7 done ∷ []))
    × (a'' : Hub) × (handle_requests two_requests a' ≡ (ok tt, a''))
    × (a''.sent ≡ a'.sent ++ relayed (peer_on_50 other_server) two_requests)
location_is_learned_example =
    location_is_learned to_guest two_requests (peer_on_50 server) (peer_on_50 other_server) old_peer
      (peer_of guest 3) 4 7 6 hub guest_hub hub-AllOpen hub-AllOpen server-server
      other_server-server client-client guest-client unknown guest_found server_found other_found
      old_found guest_absent ((client-client, refl), ((client-client, refl), tt))

abbrev one_member : Group
one_member = record {
  addr = guest;
  members = (client, 1) ∷ [];
  mem_count = record { joins = 1; leaves = 0 };
  packet = [];
}

one_member-IsCounted : IsCounted one_member
unfolding lookup
one_member-IsCounted = record { unique = (refl, tt); exact = refl }

group_apply-IsCounted_example :
    IsCounted (group_apply (join client 2) one_member) ↔ IsProper (join client 2) one_member
group_apply-IsCounted_example =
    group_apply-IsCounted (join client 2) one_member one_member-IsCounted

abbrev crowd : Group
crowd = record one_member { packet = join (103 ∷ []) 9 ∷ leave client 1 ∷ message hello ∷ [] }

abbrev crowded_hub : Hub
crowded_hub = record hub { groups = (guest, crowd) ∷ [] }

crowd_found : lookup guest crowded_hub.groups ≡ some crowd
unfolding lookup same
crowd_found = refl

crowd-Unique : Unique crowd.members
unfolding lookup
crowd-Unique = (refl, tt)

abbrev changes : List GroupPacket
changes = join (103 ∷ []) 9 ∷ leave client 1 ∷ []

group_loop-FanOut_example :
    (h' : Hub) × (members : Dict ℕ) × (for_each
        (changes ++ (message hello ∷ []))
        (λ _. group_loop guest)
        crowded_hub
      ≡ (ok tt, h'))
    × (h'.sent ≡ crowded_hub.sent ++ pushes hello (values members))
    × Unique members
    × ((k : Key) → lookup k members ≡ last_conn k changes (lookup k crowd.members))
group_loop-FanOut_example =
    group_loop-FanOut guest changes hello [] crowd crowded_hub hub-AllOpen crowd_found crowd-Unique
      refl (tt, (tt, tt))
