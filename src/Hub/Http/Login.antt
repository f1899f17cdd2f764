-- ===== src/Hub/Http/Login.antt =====
-- A client logs in over HTTP.
use ws_cluster.Common.{
  ℕ, ◌≡◌, refl, ◌∙◌, ap, ◌||◌, ◌⊎◌, inl, inr, List, [], ◌∷◌, ◌++◌, length, drop, drop-append,
  Option, none, some, Bool-cases, Result, ok, err, same, same→eq, if◌then◌else◌,
}
use ws_cluster.Wire.Addr.{Addr}
use ws_cluster.Wire.Addr.Parse.{parse_client_addr}
use ws_cluster.Hub.State.{Hub, pushed, answered, ClientPeer, add_client_peer}
use ws_cluster.Hub.Session.{new_client_peer}
use ws_cluster.Hub.Output.Open.{AllOpen, sending, pushes, server_conns, push_message-open}
use ws_cluster.Hub.Regist.{status_ok, kill_message}
use ws_cluster.Hub.Regist.Login.{conns_at, logged_in, regist-logged_in}
use ws_cluster.Hub.Handler.{handle_packet, handle_content}
use ws_cluster.Hub.Answer.{find_answer, awaited, ask, find_answer-pushes, find_answer-first}
use ws_cluster.Hub.Http.{
  ClientRequest, refused, admitted, bad_request, check_digest, admit_client, upgrade_client,
  handle_client_web_socket, login_ack_message, welcome, is_empty_text,
}

-- The hub answers a login.
ask-logged_in :
    (now c : ℕ) (peer : ClientPeer) (h : Hub)
    → AllOpen h
    → ask now c (add_client_peer peer) h ≡ (ok status_ok, logged_in now peer c h)
unfolding ask awaited handle_packet handle_content
ask-logged_in now c peer h open_all =
    let msg = kill_message peer.addr now in
    let last = answered c status_ok ∷ [] in
    let answers =
      pushes msg (conns_at peer.addr h) ++ (pushes msg (server_conns h.server_peers) ++ last) in
    let found : find_answer c (drop (length h.sent) (h.sent ++ answers)) ≡ some status_ok =
      ap (find_answer c) (drop-append (length h.sent) h.sent answers refl)
      ∙ find_answer-pushes c msg (conns_at peer.addr h)
          (pushes msg (server_conns h.server_peers) ++ last)
      ∙ find_answer-pushes c msg (server_conns h.server_peers) last
      ∙ find_answer-first c status_ok [] in
    rw (regist-logged_in now peer c h open_all) (rw (found, awaited))

abbrev pub request_peer : ClientRequest → Addr → ℕ → ClientPeer
request_peer r addr conn =
    new_client_peer addr r.remote_addr (if same r.notice (b'1' ∷ []) then 1 else 0) conn

module _ (sum : List ℕ → List ℕ) (token : List ℕ) where
  -- What a request that is let in has.
  pub record IsAdmitted (upgrade : Option ℕ) (r : ClientRequest) (addr : Addr) (conn : ℕ)
      : Type 0 where
    pub digest_ok : r.digest ≡ sum ((r.addr ++ r.nonce) ++ token)
    pub parses : parse_client_addr r.addr ≡ ok addr
    pub upgrades : upgrade ≡ some conn

  upgrade-cases :
      (upgrade : Option ℕ) (r : ClientRequest) (p : Result Addr)
      → (upgrade_client upgrade r p ≡ refused bad_request)
        ⊎ ((addr : Addr) × (conn : ℕ) × (p ≡ ok addr)
            × (upgrade ≡ some conn)
            × (upgrade_client upgrade r p ≡ admitted (request_peer r addr conn)))
  unfolding upgrade_client
  upgrade-cases upgrade r (err e) = inl refl
  upgrade-cases none r (ok addr) = inl refl
  upgrade-cases (some conn) r (ok addr) = inr (addr, conn, refl, refl, refl)

  admit-cases :
      (upgrade : Option ℕ) (r : ClientRequest)
      → (admit_client sum token upgrade r ≡ refused bad_request)
        ⊎ ((addr : Addr) × (conn : ℕ) × IsAdmitted upgrade r addr conn
            × (admit_client sum token upgrade r ≡ admitted (request_peer r addr conn)))
  unfolding admit_client check_digest
  admit-cases upgrade r =
      elim (Bool-cases (is_empty_text r.addr || is_empty_text r.nonce || is_empty_text r.digest)) [
        | inl e ↦ inl (rw e)
        | inr e ↦ elim (Bool-cases (same r.digest (sum ((r.addr ++ r.nonce) ++ token)))) [
          | inr d ↦ inl (rw (e, d))
          | inl d ↦ elim (upgrade-cases upgrade r (parse_client_addr r.addr)) [
            | inl u ↦ inl (rw (e, d) u)
            | inr (addr, conn, p, up, u) ↦ inr (
              addr,
              conn,
              record { digest_ok = same→eq _ _ d; parses = p; upgrades = up },
              rw (e, d) u,
            )
          ]
        ]
      ]

  -- Where all connections are open, a request for a connection either is refused, which leaves the
  -- hub as it is, or has the digest of its address, its nonce and the token, and an address that is
  -- one of a client; then the hub has logged its peer in, and the acknowledgement goes to it last.
  pub client_logs_in :
      (upgrade : Option ℕ) (now c : ℕ) (r : ClientRequest) (h : Hub)
      → AllOpen h
      → (handle_client_web_socket sum token upgrade now c r h ≡ (ok bad_request, h))
        ⊎ ((addr : Addr) × (conn : ℕ) × IsAdmitted upgrade r addr conn
            × (let peer = request_peer r addr conn in
                handle_client_web_socket sum token upgrade now c r h ≡ (
                  ok [],
                  sending (logged_in now peer c h) (pushed conn (login_ack_message peer now) ∷ []),
                )))
  unfolding handle_client_web_socket welcome
  client_logs_in upgrade now c r h open_all = elim (admit-cases upgrade r) [
    | inl e ↦ inl (rw (e, handle_client_web_socket))
    | inr (addr, conn, i, e) ↦ inr (
      addr,
      conn,
      i,
      rw (e, handle_client_web_socket)
          (rw (ask-logged_in now c (request_peer r addr conn) h open_all) (
            rw (
              push_message-open conn (login_ack_message (request_peer r addr conn) now)
                (logged_in now (request_peer r addr conn) c h) open_all))),
    )
  ]
