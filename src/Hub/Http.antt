-- ===== src/Hub/Http.antt =====
-- hub/http_handler.go: the requests of clients and of other servers for a connection, and of programs
-- for messages and answers. A parameter `sum` stands for md5 and hex. The connection that an upgrade
-- gives is a number, and the channel for the hub's answer another.
pub mod Digest
pub mod Login
pub mod Sending
pub mod Query
use ws_cluster.Common.{
  ℕ, ◌+◌, ◌%◌, ◌^◌, Bool, true, false, List, [], ◌∷◌, ◌++◌, length, drop, Option, none, some,
  Result, ok, err, panicked, blocked, M, ◌>>=◌, ◌>>◌, pure, throw, gets, same, ◌==◌, ◌||◌,
  if◌then◌else◌,
}
use ws_cluster.Wire.Addr.{Addr}
use ws_cluster.Wire.Addr.Parse.{parse_addr, parse_client_addr, parse_server_addr}
use ws_cluster.Wire.Body.{Msgchat, chat, login_ack, query_client, query_servers}
use ws_cluster.Wire.Message.{Message, make_empty_header_message}
use ws_cluster.Hub.State.{
  Hub, Output, pushed, answered, queued, Resp, RespBody, query_client_resp, query_servers_resp,
  Content, Packet, Server, ServerPeer, ClientPeer, add_client_peer, add_server_peer, relay_message,
}
use ws_cluster.Hub.Session.{new_client_peer}
use ws_cluster.Hub.Output.{push_message}
use ws_cluster.Hub.Answer.{ask}

-- What a handler does with the ResponseWriter, oldest first.
pub data HttpWrite : Type 0 where
  write_header : ℕ → HttpWrite
  write_text : List ℕ → HttpWrite
  write_body : RespBody → HttpWrite

abbrev pub HttpReply : Type 0
HttpReply = List HttpWrite

-- http.StatusBadRequest, and handleHTTPErr with an error.
abbrev pub bad_request : HttpReply
bad_request = write_header 400 ∷ []

pub record ClientRequest : Type 0 where
  pub addr : List ℕ
  pub nonce : List ℕ
  pub digest : List ℕ
  pub notice : List ℕ
  pub remote_addr : List ℕ

abbrev pub is_empty_text : List ℕ → Bool
is_empty_text [] = true
is_empty_text (c ∷ s) = false

pub record ServerRequest : Type 0 where
  pub addr : List ℕ
  -- None where url.Parse fails.
  pub server_url : Option (List ℕ)
  pub client_url : Option (List ℕ)
  pub digest : List ℕ

-- Whether a request is let in, with its peer.
pub data Admission (P : Type 0) : Type 0 where
  refused : HttpReply → Admission P
  admitted : P → Admission P

-- Beside the answer, a failed upgrade has written its own.
unfoldable pub upgrade_client : Option ℕ → ClientRequest → Result Addr → Admission ClientPeer
unfolding new_client_peer
upgrade_client upgrade r (err e) = refused bad_request
upgrade_client none r (ok addr) = refused bad_request
upgrade_client (some conn) r (ok addr) =
    let notice = if same r.notice (b'1' ∷ []) then 1 else 0 in
    admitted (new_client_peer addr r.remote_addr notice conn)

-- bindServerPeer, on the connection of an upgrade.
unfoldable pub upgrade_server : Option ℕ → Server → Admission ServerPeer
upgrade_server none server = refused []
upgrade_server (some conn) server =
    admitted (record { addr = server.addr; conn = conn; server = server })

unfoldable pub login_ack_message : ClientPeer → ℕ → Message
unfolding make_empty_header_message
login_ack_message peer now =
    make_empty_header_message 1
      (login_ack (record { remote_addr = peer.remote_addr; login_at = now % 2 ^ 64 }))

-- An error of the hub goes to handleHTTPErr as a nil error, and nothing is written.
unfoldable pub welcome : ℕ → ClientPeer → Resp → M Hub HttpReply
unfolding login_ack_message push_message
welcome now peer resp = elim resp.error [
  | some e ↦ pure []
  | none ↦ (do push_message peer.conn (login_ack_message peer now); pure [])
]

module _ (sum : List ℕ → List ℕ) where
  unfoldable pub check_digest : List ℕ → List ℕ → List ℕ → Bool
  check_digest secret text digest = same digest (sum (text ++ secret))

  -- The peer that handleClientWebSocket makes, if it lets the request in. `upgrade` is the connection
  -- that the upgrade gives.
  unfoldable pub admit_client : List ℕ → Option ℕ → ClientRequest → Admission ClientPeer
  unfolding check_digest upgrade_client
  admit_client token upgrade r =
      if is_empty_text r.addr || is_empty_text r.nonce || is_empty_text r.digest
      then refused bad_request
      else if check_digest token (r.addr ++ r.nonce) r.digest
      then upgrade_client upgrade r (parse_client_addr r.addr)
      else refused bad_request

  unfoldable pub handle_client_web_socket :
      List ℕ → Option ℕ → ℕ → ℕ → ClientRequest → M Hub HttpReply
  unfolding admit_client ask welcome
  handle_client_web_socket token upgrade now c r = elim (admit_client token upgrade r) [
    | refused reply ↦ pure reply
    | admitted peer ↦ (do resp ← ask now c (add_client_peer peer); welcome now peer resp)
  ]

  unfoldable pub admit_server : List ℕ → Option ℕ → ServerRequest → Admission ServerPeer
  unfolding check_digest upgrade_server
  admit_server token upgrade r = elim r.server_url [
    | none ↦ refused bad_request
    | some server_url ↦ elim r.client_url [
      | none ↦ refused bad_request
      | some client_url ↦ elim (parse_server_addr r.addr) [
        | err e ↦ refused bad_request
        | ok addr ↦
            if check_digest token r.addr r.digest
            then upgrade_server upgrade
                (record { addr = addr; client_url = some client_url; server_url = server_url })
            else refused bad_request
      ]
    ]
  ]

  unfoldable pub handle_server_web_socket :
      List ℕ → Option ℕ → ℕ → ℕ → ServerRequest → M Hub HttpReply
  unfolding admit_server ask
  handle_server_web_socket token upgrade now c r = elim (admit_server token upgrade r) [
    | refused reply ↦ pure reply
    | admitted peer ↦ (do resp ← ask now c (add_server_peer peer); pure [])
  ]

-- MsgBody, decoded from JSON.
pub record MsgBody : Type 0 where
  pub source : List ℕ
  pub dest : List ℕ
  pub type : ℕ
  pub text : List ℕ
  pub extra : List ℕ

unfoldable pub chat_from : MsgBody → Addr → Addr → Message
unfolding make_empty_header_message
chat_from body source dest =
    let m =
      make_empty_header_message 3
        (chat (record { type = body.type; text = body.text; extra = body.extra })) in
    record m { header = record (m.header) { source = source; dest = dest } }

-- The header is written behind the text.
unfoldable pub send_reply : Resp → HttpReply
send_reply resp =
    if resp.status == 200
    then write_text (b'o' ∷ b'k' ∷ []) ∷ []
    else write_text (b'f' ∷ b'a' ∷ b'i' ∷ b'l' ∷ []) ∷ write_header 417 ∷ []

unfoldable pub http_send_msg : ℕ → ℕ → Option MsgBody → M Hub HttpReply
unfolding chat_from ask send_reply
http_send_msg now c none = pure bad_request
http_send_msg now c (some body) = elim (parse_addr body.source) [
  | err e ↦ pure bad_request
  | ok source ↦ elim (parse_addr body.dest) [
    | err e ↦ pure bad_request
    | ok dest ↦ (do
      resp ← ask now c (relay_message (chat_from body source dest))
      pure (send_reply resp))
  ]
]

-- A message of this server to itself.
unfoldable pub own_query : Message → Addr → Content
own_query m self = relay_message (record m { header = record (m.header) { dest = self } })

-- `resp.Body.(*wire.MsgQueryClientResp)`
unfoldable pub client_answer : Resp → M Hub HttpReply
client_answer resp = elim resp.body [
  | none ↦ throw panicked
  | some body ↦ elim body [
    | query_client_resp at ↦ pure (write_body (query_client_resp at) ∷ [])
    | query_servers_resp infos ↦ throw panicked
  ]
]

-- On an address that is none the handler goes on, and panics on the nil pointer.
unfoldable pub http_query_client_online : ℕ → ℕ → List ℕ → M Hub HttpReply
unfolding make_empty_header_message ask own_query client_answer
http_query_client_online now c text h = elim (parse_addr text) [
  | err e ↦ (err panicked, h)
  | ok addr ↦
      (do
        resp ← ask now c (
            own_query (make_empty_header_message 15 (query_client (record { peer = addr })))
              h.server.addr)
        client_answer resp)
        h
]

unfoldable pub servers_answer : Resp → M Hub HttpReply
servers_answer resp = elim resp.body [
  | none ↦ throw panicked
  | some body ↦ elim body [
    | query_client_resp at ↦ throw panicked
    | query_servers_resp infos ↦ pure (write_body (query_servers_resp infos) ∷ [])
  ]
]

unfoldable pub http_query_servers : ℕ → ℕ → M Hub HttpReply
unfolding make_empty_header_message ask own_query servers_answer
http_query_servers now c h =
    (do
      resp ← ask now c (own_query (make_empty_header_message 17 query_servers) h.server.addr)
      servers_answer resp)
      h
