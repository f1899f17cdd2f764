-- ===== src/Wire/Body.antt =====
-- wire/msg_*.go: the bodies of messages. Each Encode writes to any writer; each Decode fills a
-- receiver from a reader, and MakeEmptyBody's receivers are zero.
pub mod RoundTrip
pub mod Cut
pub mod Takes
pub mod Bounds
use ws_cluster.Common.{
  ℕ, zero, suc, ◌%◌, ◌^◌, List, [], ◌∷◌, length, Result, ok, err, unhandled_type, M, ◌>>=◌, ◌>>◌,
  pure, ignore, ◌==◌, if◌then◌else◌,
}
use ws_cluster.Wire.Io.{
  Writer, read_uint8, read_uint16, read_uint64, read_string, write_uint8, write_uint16,
  write_uint64, write_string,
}
use ws_cluster.Wire.Addr.{Addr, empty_addr, encode_addr, decode_addr}

-- 1: text, 2: image.
pub record Msgchat : Type 0 where
  pub type : ℕ
  pub text : List ℕ
  pub extra : List ℕ

pub record MsgChatResp : Type 0 where
  pub state : ℕ
  pub error : List ℕ

pub record MsgGroupInOut : Type 0 where
  pub in_out : ℕ
  pub groups : List Addr

pub record MsgKill : Type 0 where
  pub login_at : ℕ

pub record MsgLoginAck : Type 0 where
  pub remote_addr : List ℕ
  pub login_at : ℕ

pub record MsgLoc : Type 0 where
  pub target : Addr
  pub peer : Addr
  pub server : Addr

pub record MsgOffline : Type 0 where
  pub peer : Addr
  pub notice : ℕ
  pub targets : List Addr

pub record MsgOfflineNotice : Type 0 where
  pub peer : Addr

pub record MsgQueryClient : Type 0 where
  pub peer : Addr

-- The values of the interface Protocol that MakeEmptyBody makes.
pub data Body : Type 0 where
  chat : Msgchat → Body
  chat_resp : MsgChatResp → Body
  group_in_out : MsgGroupInOut → Body
  kill : MsgKill → Body
  login_ack : MsgLoginAck → Body
  loc : MsgLoc → Body
  offline : MsgOffline → Body
  offline_notice : MsgOfflineNotice → Body
  query_client : MsgQueryClient → Body
  query_servers : Body
  empty : Body

-- MsgTypeChat and the other numbers of the commands.
abbrev pub command_of : Body → ℕ
command_of (login_ack m) = 1
command_of (chat m) = 3
command_of (chat_resp m) = 4
command_of (group_in_out m) = 5
command_of (kill m) = 7
command_of (loc m) = 9
command_of (offline m) = 11
command_of (offline_notice m) = 13
command_of (query_client m) = 15
command_of query_servers = 17
command_of empty = 200

-- MakeEmptyBody
unfoldable pub make_empty_body : ℕ → Result Body
make_empty_body command =
    if command == 3
    then ok (chat (record { type = 0; text = []; extra = [] }))
    else if command == 4
    then ok (chat_resp (record { state = 0; error = [] }))
    else if command == 5
    then ok (group_in_out (record { in_out = 0; groups = [] }))
    else if command == 7
    then ok (kill (record { login_at = 0 }))
    else if command == 1
    then ok (login_ack (record { remote_addr = []; login_at = 0 }))
    else if command == 9
    then ok (loc (record { target = empty_addr; peer = empty_addr; server = empty_addr }))
    else if command == 11
    then ok (offline (record { peer = empty_addr; notice = 0; targets = [] }))
    else if command == 13
    then ok (offline_notice (record { peer = empty_addr }))
    else if command == 15
    then ok (query_client (record { peer = empty_addr }))
    else if command == 17
    then ok query_servers
    else if command == 200
    then ok empty
    else err unhandled_type

unfoldable pub encode_addrs : {W : Type 0} ⦃o : Writer W⦄ → List Addr → M W (Unit {0})
encode_addrs [] = pure tt
encode_addrs (addr ∷ addrs) = do encode_addr addr; encode_addrs addrs

-- The loops that decode `num` fresh addresses.
unfoldable pub decode_addrs : ℕ → M (List ℕ) (List Addr)
decode_addrs zero = pure []
decode_addrs (suc num) = do
  addr ← decode_addr empty_addr
  addrs ← decode_addrs num
  pure (addr ∷ addrs)

module _ {W : Type 0} ⦃o : Writer W⦄ where
  unfoldable pub encode_chat : Msgchat → M W (Unit {0})
  encode_chat m = do write_uint8 m.type; write_string m.text; write_string m.extra

  unfoldable pub encode_chat_resp : MsgChatResp → M W (Unit {0})
  encode_chat_resp m = do write_uint8 m.state; write_string m.error

  -- The number of groups is written as `uint8(len(m.Groups))`.
  unfoldable pub encode_group_in_out : MsgGroupInOut → M W (Unit {0})
  encode_group_in_out m = do
    write_uint8 m.in_out
    write_uint8 (length m.groups % 2 ^ 8)
    encode_addrs m.groups

  unfoldable pub encode_kill : MsgKill → M W (Unit {0})
  encode_kill m = write_uint64 m.login_at

  unfoldable pub encode_login_ack : MsgLoginAck → M W (Unit {0})
  encode_login_ack m = do write_string m.remote_addr; write_uint64 m.login_at

  -- `if m.Target.Encode(w); err != nil` tests an `err` that nothing has set.
  unfoldable pub encode_loc : MsgLoc → M W (Unit {0})
  encode_loc m = do
    ignore tt (encode_addr m.target)
    ignore tt (encode_addr m.peer)
    ignore tt (encode_addr m.server)

  unfoldable pub encode_offline : MsgOffline → M W (Unit {0})
  encode_offline m = do
    ignore tt (encode_addr m.peer)
    write_uint8 m.notice
    write_uint16 (length m.targets % 2 ^ 16)
    encode_addrs m.targets

  unfoldable pub encode_offline_notice : MsgOfflineNotice → M W (Unit {0})
  encode_offline_notice m = ignore tt (encode_addr m.peer)

  unfoldable pub encode_query_client : MsgQueryClient → M W (Unit {0})
  encode_query_client m = ignore tt (encode_addr m.peer)

  -- The method that the body's type has.
  unfoldable pub encode_body : Body → M W (Unit {0})
  encode_body (chat m) = encode_chat m
  encode_body (chat_resp m) = encode_chat_resp m
  encode_body (group_in_out m) = encode_group_in_out m
  encode_body (kill m) = encode_kill m
  encode_body (login_ack m) = encode_login_ack m
  encode_body (loc m) = encode_loc m
  encode_body (offline m) = encode_offline m
  encode_body (offline_notice m) = encode_offline_notice m
  encode_body (query_client m) = encode_query_client m
  encode_body query_servers = pure tt
  encode_body empty = pure tt

unfoldable pub decode_chat : M (List ℕ) Msgchat
decode_chat = do
  type ← read_uint8
  text ← read_string
  extra ← read_string
  pure (record { type = type; text = text; extra = extra })

unfoldable pub decode_chat_resp : M (List ℕ) MsgChatResp
decode_chat_resp = do
  state ← read_uint8
  error ← read_string
  pure (record { state = state; error = error })

-- `num, _ := ReadUint8(r)`: where it fails, `num` is 0.
unfoldable pub decode_group_in_out : M (List ℕ) MsgGroupInOut
decode_group_in_out = do
  in_out ← read_uint8
  num ← ignore 0 read_uint8
  groups ← decode_addrs num
  pure (record { in_out = in_out; groups = groups })

unfoldable pub decode_kill : M (List ℕ) MsgKill
decode_kill = do login_at ← read_uint64; pure (record { login_at = login_at })

unfoldable pub decode_login_ack : M (List ℕ) MsgLoginAck
decode_login_ack = do
  remote_addr ← read_string
  login_at ← read_uint64
  pure (record { remote_addr = remote_addr; login_at = login_at })

-- `if m.Target.Decode(r); err != nil` tests an `err` that nothing has set: where the read fails, the
-- receiver's address stays.
unfoldable pub decode_or_keep : Addr → M (List ℕ) Addr
decode_or_keep addr = ignore addr (decode_addr addr)

unfoldable pub decode_loc : MsgLoc → M (List ℕ) MsgLoc
decode_loc m = do
  target ← decode_or_keep m.target
  peer ← decode_or_keep m.peer
  server ← decode_or_keep m.server
  pure (record { target = target; peer = peer; server = server })

unfoldable pub decode_offline : MsgOffline → M (List ℕ) MsgOffline
decode_offline m = do
  peer ← decode_or_keep m.peer
  notice ← read_uint8
  num ← read_uint16
  targets ← decode_addrs num
  pure (record { peer = peer; notice = notice; targets = targets })

unfoldable pub decode_offline_notice : MsgOfflineNotice → M (List ℕ) MsgOfflineNotice
decode_offline_notice m = do peer ← decode_or_keep m.peer; pure (record { peer = peer })

unfoldable pub decode_query_client : MsgQueryClient → M (List ℕ) MsgQueryClient
decode_query_client m = do peer ← decode_or_keep m.peer; pure (record { peer = peer })

-- The method of the receiver's type.
unfoldable pub decode_body : Body → M (List ℕ) Body
decode_body (chat _) = do m ← decode_chat; pure (chat m)
decode_body (chat_resp _) = do m ← decode_chat_resp; pure (chat_resp m)
decode_body (group_in_out _) = do m ← decode_group_in_out; pure (group_in_out m)
decode_body (kill _) = do m ← decode_kill; pure (kill m)
decode_body (login_ack _) = do m ← decode_login_ack; pure (login_ack m)
decode_body (loc m) = do m' ← decode_loc m; pure (loc m')
decode_body (offline m) = do m' ← decode_offline m; pure (offline m')
decode_body (offline_notice m) = do m' ← decode_offline_notice m; pure (offline_notice m')
decode_body (query_client m) = do m' ← decode_query_client m; pure (query_client m')
decode_body query_servers = pure query_servers
decode_body empty = pure empty
