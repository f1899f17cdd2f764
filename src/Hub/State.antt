-- ===== src/Hub/State.antt =====
-- hub/hub.go, hub/clent_peer.go, hub/server_peer.go, hub/group.go: the data of the hub.
-- A pointer to a peer is the number of its connection: what of a peer never changes (its address,
-- remote address and connection) is copied where the program shares it, and what does change (its
-- sessions and groups) is kept in `client_peers` alone, where the program reads and writes it.
use ws_cluster.Common.{ℕ, Bool, List, Option, Dict, M}
use ws_cluster.Wire.Addr.{Addr}
use ws_cluster.Wire.Message.{Message}

-- Session: the key under which it is stored is its PeerAddr.
pub record Session : Type 0 where
  pub peer_addr : Addr
  pub server_addr : Addr

pub record ClientPeer : Type 0 where
  pub addr : Addr
  pub remote_addr : List ℕ
  pub conn : ℕ
  -- `uint32(LoginAt.Unix())`
  pub login_at : ℕ
  pub offline_notice : ℕ
  pub groups : List Addr
  pub sessions : Dict Session

-- Server: the texts of its URLs. AdvertiseClientURL may be nil.
pub record Server : Type 0 where
  pub addr : Addr
  pub client_url : Option (List ℕ)
  pub server_url : List ℕ

pub record ServerPeer : Type 0 where
  pub addr : Addr
  pub conn : ℕ
  pub server : Server

-- GroupPacket: what is sent to a group's loop; a member is its address and connection.
pub data GroupPacket : Type 0 where
  join : Addr → ℕ → GroupPacket
  leave : Addr → ℕ → GroupPacket
  message : Message → GroupPacket

-- MemCount, which goes below zero: joins less leaves.
pub record Count : Type 0 where
  pub joins : ℕ
  pub leaves : ℕ

-- Group: `packet` is what its channel holds, oldest first.
pub record Group : Type 0 where
  pub addr : Addr
  pub members : Dict ℕ
  pub mem_count : Count
  pub packet : List GroupPacket

-- The answers to queries: MsgQueryClientResp and MsgQueryServersResp.
pub record ServerInfo : Type 0 where
  pub addr : List ℕ
  pub client_url : List ℕ
  pub server_url : List ℕ

pub data RespBody : Type 0 where
  query_client_resp : ℕ → RespBody
  query_servers_resp : List ServerInfo → RespBody

-- ErrPeerNoFound, and the errors of the message log.
pub data RespError : Type 0 where
  peer_no_found : RespError
  log_failed : RespError

pub record Resp : Type 0 where
  pub status : ℕ
  pub error : Option RespError
  pub body : Option RespBody

-- Packet: its `use` and `content`. The channel for the answer is a number, or nil.
pub data Content : Type 0 where
  add_client_peer : ClientPeer → Content
  del_client_peer : ClientPeer → Content
  add_server_peer : ServerPeer → Content
  del_server_peer : ServerPeer → Content
  relay_message : Message → Content

pub record Packet : Type 0 where
  pub from : Addr
  pub content : Content
  pub resp : Option ℕ

-- What a handler sends to other goroutines.
pub data Output : Type 0 where
  pushed : ℕ → Message → Output
  answered : ℕ → Resp → Output
  queued : Packet → Output

-- Hub: `connected` is the state of the peers' connections, which other goroutines change, and
-- `sent` records what has been sent, oldest first.
pub record Hub : Type 0 where
  pub server : Server
  pub client_peers : Dict ClientPeer
  pub server_peers : Dict ServerPeer
  pub groups : Dict Group
  pub location : Dict Addr
  pub connected : ℕ → Bool
  pub sent : List Output

-- A handler that panics or blocks for ever returns that error.
abbrev pub Handler : Type 0
Handler = M Hub (Unit {0})
