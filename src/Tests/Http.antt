-- ===== src/Tests/Http.antt =====
-- Requests over HTTP at concrete inputs.
use ws_cluster.Common.{lookup, same, ℕ, ◌≡◌, ◌⊎◌, refl, true, List, [], ◌∷◌, ◌++◌, none, some, ok}
use ws_cluster.Wire.Addr.{Addr, new_addr, addr_type, addr_client, addr_server}
use ws_cluster.Hub.Relay.{is_type}
use ws_cluster.Hub.Logic.Located.{not_here}
use ws_cluster.Hub.Http.Sending.{http_send_dropped}
use ws_cluster.Wire.Addr.Parse.{parse_addr}
use ws_cluster.Wire.Addr.Fields.{layout}
use ws_cluster.Wire.Addr.Parse.{parse_client_addr}
use ws_cluster.Hub.State.{Hub, pushed, answered}
use ws_cluster.Hub.Output.Open.{sending}
use ws_cluster.Hub.Regist.Login.{logged_in}
use ws_cluster.Hub.Http.{
  MsgBody, write_text, http_send_msg, ClientRequest, admitted, bad_request, admit_client,
  check_digest, upgrade_client, handle_client_web_socket, login_ack_message,
}
use ws_cluster.Hub.Http.Login.{request_peer, IsAdmitted, client_logs_in}
use ws_cluster.Hub.Http.Digest.{digest_admits_longer_name}
use ws_cluster.Tests.Hub.{hub_of}
use ws_cluster.Tests.Wire.{client, server}

-- A sum that keeps its text.
abbrev pub plain_sum : List ℕ → List ℕ
plain_sum text = 7 ∷ text

-- "/c/1/2/b", and the nonce "ob".
abbrev bob_text : List ℕ
bob_text = 47 ∷ 99 ∷ 47 ∷ 49 ∷ 47 ∷ 50 ∷ 47 ∷ 98 ∷ []

abbrev nonce : List ℕ
nonce = 111 ∷ 98 ∷ []

abbrev pub token : List ℕ
token = 1 ∷ 2 ∷ []

abbrev request : ClientRequest
request = record {
  addr = bob_text;
  nonce = nonce;
  digest = plain_sum ((bob_text ++ nonce) ++ token);
  notice = [];
  remote_addr = 9 ∷ [];
}

abbrev lobby_hub : Hub
lobby_hub = hub_of server client [] (λ conn. true)

client_logs_in_example :
    (handle_client_web_socket plain_sum token (some 5) 3 8 request lobby_hub
      ≡ (ok bad_request, lobby_hub))
    ⊎ ((addr : Addr) × (conn : ℕ) × IsAdmitted plain_sum token (some 5) request addr conn
        × (let peer = request_peer request addr conn in
            handle_client_web_socket plain_sum token (some 5) 3 8 request lobby_hub ≡ (
              ok [],
              sending (logged_in 3 peer 8 lobby_hub) (pushed conn (login_ack_message peer 3) ∷ []),
            )))
client_logs_in_example =
    client_logs_in plain_sum token (some 5) 3 8 request lobby_hub (λ conn. refl)

bob_parses : parse_client_addr bob_text ≡ ok (layout 1 1 2 (98 ∷ []))
unfolding parse_client_addr new_addr
bob_parses = refl

bobo_parses : parse_client_addr (bob_text ++ (111 ∷ [])) ≡ ok (layout 1 1 2 (98 ∷ 111 ∷ []))
unfolding parse_client_addr new_addr
bobo_parses = refl

request-admitted :
    admit_client plain_sum token (some 5) request
    ≡ admitted (request_peer request (layout 1 1 2 (98 ∷ [])) 5)
unfolding admit_client check_digest upgrade_client same
request-admitted = rw bob_parses

digest_admits_longer_name_example :
    admit_client plain_sum token
      (some 5)
      (record request { addr = bob_text ++ (111 ∷ []); nonce = 98 ∷ [] })
    ≡ admitted (request_peer request (layout 1 1 2 (98 ∷ 111 ∷ [])) 5)
digest_admits_longer_name_example =
    digest_admits_longer_name plain_sum token 5 request (111 ∷ []) 98 []
      (request_peer request (layout 1 1 2 (98 ∷ [])) 5) (layout 1 1 2 (98 ∷ 111 ∷ [])) refl
      request-admitted bobo_parses

-- A message in the name of a client on this server, for one that is elsewhere.
abbrev sent_body : MsgBody
sent_body = record {
  source = bob_text;
  dest = bob_text ++ (111 ∷ []);
  type = 1;
  text = 104 ∷ [];
  extra = [];
}

abbrev bob : Addr
bob = layout 1 1 2 (98 ∷ [])

abbrev bobo : Addr
bobo = layout 1 1 2 (98 ∷ 111 ∷ [])

parse_source : parse_addr sent_body.source ≡ ok bob
unfolding parse_addr new_addr
parse_source = refl

parse_dest : parse_addr sent_body.dest ≡ ok bobo
unfolding parse_addr new_addr
parse_dest = refl

bobo_type : is_type bobo addr_client ≡ true
unfolding is_type addr_type
bobo_type = refl

server_type : is_type server addr_server ≡ true
unfolding is_type addr_type
server_type = refl

bobo_elsewhere : lookup bobo lobby_hub.client_peers ≡ none
unfolding lookup
bobo_elsewhere = refl

http_send_dropped_example :
    (h' : Hub) × (http_send_msg 3 8 (some sent_body) lobby_hub
      ≡ (ok (write_text (111 ∷ 107 ∷ []) ∷ []), h'))
    × (h'.sent ≡ answered 8 not_here ∷ [])
http_send_dropped_example =
    http_send_dropped 3 8 sent_body bob bobo lobby_hub parse_source parse_dest bobo_type server_type
      bobo_elsewhere
