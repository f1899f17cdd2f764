-- ===== src/Hub/Session.antt =====
-- hub/clent_peer.go: the sessions of a client's peer.
pub mod Servers
use ws_cluster.Common.{
  ℕ, Bool, true, false, List, [], ◌∷◌, ◌++◌, Option, none, some, Dict, lookup, insert, remove, has,
  if◌then◌else◌,
}
use ws_cluster.Wire.Addr.{Addr}
use ws_cluster.Hub.State.{ClientPeer, Session}

unfoldable pub add_session : Addr → Addr → ClientPeer → ClientPeer × Bool
add_session peer server p =
    let session : Session = record { peer_addr = peer; server_addr = server } in
    if has peer p.sessions
    then (p, false)
    else (record p { sessions = insert peer session p.sessions }, true)

unfoldable pub del_session : Addr → ClientPeer → ClientPeer × Bool
del_session peer p =
    if has peer p.sessions
    then (p, false)
    else (record p { sessions = remove peer p.sessions }, true)

-- `append(servers[k], a)`, where a missing entry is first made empty.
unfoldable pub append_at : Addr → Addr → Dict (List Addr) → Dict (List Addr)
append_at k a servers = elim (lookup k servers) [
  | none ↦ insert k (a ∷ []) servers
  | some as' ↦ insert k (as' ++ (a ∷ [])) servers
]

unfoldable pub session_servers : Dict Session → Dict (List Addr) → Dict (List Addr)
unfolding append_at
session_servers [] servers = servers
session_servers ((k, session) ∷ rest) servers =
    session_servers rest (append_at session.server_addr session.peer_addr servers)

-- getAllSessionServers: the session peers of a client, by the server that each is on.
unfoldable pub get_all_session_servers : ClientPeer → Dict (List Addr)
unfolding session_servers
get_all_session_servers p = session_servers p.sessions []

-- newClientPeer: LoginAt is left zero, and `uint32` of the Unix time of the zero Time is this.
abbrev pub zero_login : ℕ
zero_login = 2288912640

unfoldable pub new_client_peer : Addr → List ℕ → ℕ → ℕ → ClientPeer
new_client_peer addr remote_addr offline_notice conn = record {
  addr = addr;
  remote_addr = remote_addr;
  conn = conn;
  login_at = zero_login;
  offline_notice = offline_notice;
  groups = [];
  sessions = [];
}
