-- ===== src/Hub/Regist/Login.antt =====
-- A client logs in.
use ws_cluster.Common.{
  ℕ, false, ◌≡◌, ◌≢◌, refl, ◌∙◌, inl, inr, List, [], ◌∷◌, ◌++◌, append_assoc, Option, none, some,
  Option-cases, lookup, insert, lookup-insert, same, same_refl, same→eq, ok, err, blocked,
  if◌then◌else◌, Bool-cases,
}
use ws_cluster.Wire.Addr.{Addr}
use ws_cluster.Hub.State.{Hub, pushed, answered, ClientPeer}
use ws_cluster.Hub.Output.{push_message, must_reply, emit}
use ws_cluster.Hub.Output.Open.{
  AllOpen, sending, pushes, server_conns, push_message-open, broadcast-open, reply-some,
}
use ws_cluster.Hub.Regist.{
  handle_client_peer_regist, handle_client_peer_unregist, kill_message, status_ok,
}

-- The connection that the map holds under an address, if any.
abbrev pub conns_of : Option ClientPeer → List ℕ
conns_of none = []
conns_of (some p) = p.conn ∷ []

abbrev pub conns_at : Addr → Hub → List ℕ
conns_at addr h = conns_of (lookup addr h.client_peers)

-- The hub after a login.
abbrev pub logged_in : ℕ → ClientPeer → ℕ → Hub → Hub
logged_in now peer c h =
    let msg = kill_message peer.addr now in
    record h {
      client_peers = insert peer.addr peer h.client_peers;
      sent =
          h.sent
          ++ (pushes msg (conns_at peer.addr h)
              ++ (pushes msg (server_conns h.server_peers) ++ (answered c status_ok ∷ [])));
    }

pub regist-logged_in :
    (now : ℕ) (peer : ClientPeer) (c : ℕ) (h : Hub)
    → AllOpen h
    → handle_client_peer_regist now peer (some c) h ≡ (ok tt, logged_in now peer c h)
unfolding handle_client_peer_regist
regist-logged_in now peer c h open_all = elim (Option-cases (lookup peer.addr h.client_peers)) [
  | inl e ↦
      simp (e, broadcast-open (kill_message peer.addr now) h open_all, reply-some, append_assoc)
  | inr (p, e) ↦
      let msg = kill_message peer.addr now in
      simp (
        e,
        push_message-open p.conn msg h open_all,
        broadcast-open msg (sending h (pushed p.conn msg ∷ [])) open_all,
        reply-some,
        append_assoc,
      )
]

-- Where all connections are open, a login succeeds. The map then holds the new peer under its address
-- and is unchanged elsewhere, and so are the servers, groups and locations; the kill message goes to
-- the connection that was logged in before, if there was one, then to every server, and last comes
-- the answer.
pub regist_logs_in :
    (now : ℕ) (peer : ClientPeer) (c : ℕ) (h : Hub)
    → AllOpen h
    → let msg = kill_message peer.addr now in
      (h' : Hub) × (handle_client_peer_regist now peer (some c) h ≡ (ok tt, h'))
      × ((j : Addr)
          → lookup j h'.client_peers
            ≡ (if same peer.addr j then some peer else lookup j h.client_peers))
      × (h'.server_peers ≡ h.server_peers)
      × (h'.groups ≡ h.groups)
      × (h'.location ≡ h.location)
      × (h'.sent
          ≡ h.sent
            ++ (pushes msg (conns_at peer.addr h)
                ++ (pushes msg (server_conns h.server_peers) ++ (answered c status_ok ∷ []))))
regist_logs_in now peer c h open_all = (
  logged_in now peer c h,
  regist-logged_in now peer c h open_all,
  λ j. lookup-insert peer.addr j peer h.client_peers,
  refl,
  refl,
  refl,
  refl,
)

same-ne : (xs ys : List ℕ) → xs ≢ ys → same xs ys ≡ false
same-ne xs ys h = elim (Bool-cases (same xs ys)) [
  | inl e ↦ absurd (h (same→eq xs ys e))
  | inr e ↦ e
]

unregist_stale :
    (old alive : ClientPeer) (c : ℕ) (h : Hub)
    → lookup old.addr h.client_peers ≡ some alive
    → alive.remote_addr ≢ old.remote_addr
    → handle_client_peer_unregist old (some c) h ≡ (ok tt, sending h (answered c status_ok ∷ []))
unfolding handle_client_peer_unregist must_reply emit
unregist_stale old alive c h e differ =
    rw (e, handle_client_peer_unregist) (rw (same-ne alive.remote_addr old.remote_addr differ))

-- A client that logs in again from another remote address stays logged in when the connection that
-- it replaced is closed: that only gets its answer.
pub login_survives_logout :
    (now : ℕ) (old peer : ClientPeer) (c d : ℕ) (h : Hub)
    → AllOpen h
    → old.addr ≡ peer.addr
    → peer.remote_addr ≢ old.remote_addr
    → (h' : Hub) × (handle_client_peer_regist now peer (some c) h ≡ (ok tt, h'))
      × (handle_client_peer_unregist old (some d) h'
          ≡ (ok tt, sending h' (answered d status_ok ∷ [])))
      × (lookup peer.addr h'.client_peers ≡ some peer)
login_survives_logout now old peer c d h open_all e differ =
    let found : lookup peer.addr (logged_in now peer c h).client_peers ≡ some peer =
      lookup-insert peer.addr peer.addr peer h.client_peers ∙ rw (same_refl peer.addr) in
    (
      logged_in now peer c h,
      regist-logged_in now peer c h open_all,
      unregist_stale old peer d (logged_in now peer c h) (rw e found) differ,
      found,
    )

-- While the connection that a new login replaces is closing, the login never ends: the kill message
-- is pushed to a peer that is not open, whose error has no channel to go to.
pub regist_blocked :
    (now : ℕ) (peer old : ClientPeer) (resp : Option ℕ) (h : Hub)
    → lookup peer.addr h.client_peers ≡ some old
    → h.connected old.conn ≡ false
    → handle_client_peer_regist now peer resp h ≡ (err blocked, h)
unfolding handle_client_peer_regist push_message
regist_blocked now peer old resp h e closed = simp (e, closed)
