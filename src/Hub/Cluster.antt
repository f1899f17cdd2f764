-- ===== src/Hub/Cluster.antt =====
-- hub/hub.go, startCluster; hub/server_peer.go, newServerPeer and connect: the servers of the cluster
-- are downloaded from one of them, and each is dialled. What is dialled is a world `W`: it may change
-- with each call, and gives a connection as a number. `parse_url` gives the text of what url.Parse
-- returns, `sum` stands for md5 and hex, and `download` for http.Get with the decoding of the answer.
pub mod Headers
pub mod Hello
pub mod World
pub mod Meeting
use ws_cluster.Common.{
  ℕ, Bool, true, false, List, [], ◌∷◌, ◌++◌, Option, none, some, Result, ok, err, panicked,
  connect_failed, M, ◌>>=◌, pure, throw, lift, for_each, insert, same, ◌==◌, if◌then◌else◌,
}
use ws_cluster.Wire.Addr.Text.{addr_string}
use ws_cluster.Wire.Addr.Parse.{parse_correct_addr}
use ws_cluster.Hub.State.{Hub, Server, ServerPeer, ServerInfo}
use ws_cluster.Hub.Http.{is_empty_text}

-- The headers of the request for a connection.
pub record ConnectHeader : Type 0 where
  pub addr : List ℕ
  pub server_url : List ℕ
  pub client_url : List ℕ
  pub digest : List ℕ

-- The status of the response, and the connection.
pub record Dialled : Type 0 where
  pub status : ℕ
  pub conn : ℕ

-- A hub that starts.
pub record Start (W : Type 0) : Type 0 where
  pub hub : Hub
  pub world : W

-- An error is logged, and a panic goes on.
unfoldable pub or_log : {S : Type 0} → Result (Unit {0}) × S → Result (Unit {0}) × S
or_log (ok _, s) = (ok tt, s)
or_log (err e, s) = elim e [ panicked ↦ (err panicked, s) | other ↦ (ok tt, s) ]

-- "/server" and "/q/servers"
abbrev pub server_path : List ℕ
server_path = b'/' ∷ b's' ∷ b'e' ∷ b'r' ∷ b'v' ∷ b'e' ∷ b'r' ∷ []

abbrev pub servers_path : List ℕ
servers_path = b'/' ∷ b'q' ∷ b'/' ∷ b's' ∷ b'e' ∷ b'r' ∷ b'v' ∷ b'e' ∷ b'r' ∷ b's' ∷ []

-- A server of the list. The code reads through the pointers that ParseCorrectAddr and
-- url.Parse give, but for the client's URL, without a test for nil.
unfoldable pub listed_server : (List ℕ → Option (List ℕ)) → ServerInfo → Result Server
unfolding parse_correct_addr
listed_server parse_url info = elim (parse_correct_addr info.addr) [
  | none ↦ err panicked
  | some addr ↦ elim (parse_url info.server_url) [
    | none ↦ err panicked
    | some url ↦
        ok (record { addr = addr; client_url = parse_url info.client_url; server_url = url })
  ]
]

module _ (sum : List ℕ → List ℕ) where
  unfoldable pub connect_header : List ℕ → Server → Result ConnectHeader
  connect_header token host = elim (addr_string host.addr) [
    | err e ↦ err e
    | ok text ↦ elim host.client_url [
      | none ↦ err panicked
      | some client_url ↦ ok (record {
        addr = text;
        server_url = host.server_url;
        client_url = client_url;
        digest = sum (text ++ token);
      })
    ]
  ]

  module _ {W : Type 0} (dial : List ℕ → ConnectHeader → M W Dialled) where
    -- The connection of a peer for the server at the URL.
    unfoldable pub connect : List ℕ → Server → List ℕ → M W ℕ
    unfolding connect_header
    connect token host server_url = do
      header ← lift (connect_header token host)
      reply ← dial (server_url ++ server_path) header
      if reply.status == 101 then pure reply.conn else throw connect_failed

    unfoldable pub new_server_peer : List ℕ → Server → Server → M W ServerPeer
    unfolding connect
    new_server_peer token host server = do
      conn ← connect token host server.server_url
      pure (record { addr = server.addr; conn = conn; server = server })

    -- `h.serverPeers[serverPeer.Addr] = serverPeer`
    unfoldable pub enter : Start W → Result ServerPeer × W → Result (Unit {0}) × Start W
    unfolding or_log
    enter s (ok peer, w) = (
      ok tt,
      record {
        hub = record (s.hub) { server_peers = insert peer.addr peer s.hub.server_peers };
        world = w;
      },
    )
    enter s (err e, w) = or_log (err e, record s { world = w })

    module _ (parse_url : List ℕ → Option (List ℕ)) where
      unfoldable pub join_listed : List ℕ → ServerInfo → M (Start W) (Unit {0})
      unfolding listed_server new_server_peer enter
      join_listed token info s = elim (addr_string s.hub.server.addr) [
        | err e ↦ (err e, s)
        | ok self ↦
            if same info.addr self then (ok tt, s) else elim (listed_server parse_url info) [
              | err e ↦ (err e, s)
              | ok server ↦ enter s (new_server_peer token s.hub.server server s.world)
            ]
      ]

      unfoldable pub start_cluster :
          (List ℕ → Result (List ServerInfo)) → List ℕ → List ℕ → M (Start W) (Unit {0})
      unfolding join_listed
      start_cluster download token seed s =
          if is_empty_text seed then (ok tt, s) else elim (download (seed ++ servers_path)) [
            | err e ↦ (err e, s)
            | ok infos ↦ for_each infos (join_listed token) s
          ]
