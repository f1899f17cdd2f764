-- ===== src/Hub/Session/Servers.antt =====
-- The sessions of a client, by server; and what becomes of a session.
use ws_cluster.Common.{
  ◌≡◌, refl, sym, ◌∙◌, ap, inl, inr, List, [], ◌∷◌, ◌++◌, append_assoc, append-nil, Option, none,
  some, Option-cases, Dict, lookup, has, lookup-insert, lookup-remove, same, same→eq, if◌then◌else◌,
  arith, Bool-cases,
}
use ws_cluster.Wire.Addr.{Addr}
use ws_cluster.Hub.State.{ClientPeer, Session}
use ws_cluster.Hub.Session.{
  add_session, del_session, append_at, session_servers, get_all_session_servers,
}

-- The peers of the sessions that are on a server, in the order of the sessions.
abbrev pub peers_on : Addr → Dict Session → List Addr
peers_on server [] = []
peers_on server ((k, s) ∷ ss) =
    if same s.server_addr server then s.peer_addr ∷ peers_on server ss else peers_on server ss

-- More peers behind those that an entry holds: an entry comes to be with its first.
abbrev pub extend : Option (List Addr) → List Addr → Option (List Addr)
extend none [] = none
extend none (a ∷ as') = some (a ∷ as')
extend (some bs) as' = some (bs ++ as')

extend-cons :
    (o : Option (List Addr)) (a : Addr) (as' : List Addr)
    → extend (extend o (a ∷ [])) as' ≡ extend o (a ∷ as')
extend-cons none a as' = refl
extend-cons (some bs) a as' = ap some append_assoc'
  where
    append_assoc' : (bs ++ (a ∷ [])) ++ as' ≡ bs ++ (a ∷ as')
    append_assoc' = append_assoc bs (a ∷ []) as'

extend-nil : (o : Option (List Addr)) → extend o [] ≡ o
extend-nil none = refl
extend-nil (some bs) = rw append-nil

lookup-append_at :
    (k j a : Addr) (m : Dict (List Addr))
    → lookup j (append_at k a m) ≡ (if same k j then extend (lookup j m) (a ∷ []) else lookup j m)
unfolding append_at
lookup-append_at k j a m = elim (Option-cases (lookup k m)) [
  | inl e ↦ rw (e, append_at) (lookup-insert k j (a ∷ []) m ∙ ground (arith, same→eq k j))
  | inr (bs, e) ↦
      rw (e, append_at) (lookup-insert k j (bs ++ (a ∷ [])) m ∙ ground (arith, same→eq k j))
]

lookup-session_servers :
    (j : Addr) (ss : Dict Session) (m : Dict (List Addr))
    → lookup j (session_servers ss m) ≡ extend (lookup j m) (peers_on j ss)
unfolding session_servers
lookup-session_servers j [] m = sym (extend-nil (lookup j m))
lookup-session_servers j ((k, s) ∷ ss) m = elim (Bool-cases (same s.server_addr j)) [
  | inl e ↦
      lookup-session_servers j ss (append_at s.server_addr s.peer_addr m)
      ∙ rw (lookup-append_at s.server_addr j s.peer_addr m, e)
          (extend-cons (lookup j m) s.peer_addr (peers_on j ss))
  | inr e ↦
      lookup-session_servers j ss (append_at s.server_addr s.peer_addr m)
      ∙ rw (lookup-append_at s.server_addr j s.peer_addr m, e)
]

-- A server has an entry exactly if some session is on it, and the entry holds the peers of all such
-- sessions, in their order, and no others.
pub lookup-get_all_session_servers :
    (server : Addr) (p : ClientPeer)
    → lookup server (get_all_session_servers p) ≡ extend none (peers_on server p.sessions)
unfolding get_all_session_servers lookup
lookup-get_all_session_servers server p = lookup-session_servers server p.sessions []

-- A session once added stays with the server that it was first added with: `add_session` adds where
-- there is none, and never moves one.
lookup-add_session :
    (peer server j : Addr) (p : ClientPeer)
    → lookup j (add_session peer server p).0.sessions ≡ (
        if has peer p.sessions
        then lookup j p.sessions
        else if same peer j
        then some (record { peer_addr = peer; server_addr = server })
        else lookup j p.sessions)
unfolding add_session
lookup-add_session peer server j p =
    ground
      (arith, lookup-insert peer j (record { peer_addr = peer; server_addr = server }) p.sessions)

-- `del_session` takes no session away, whether or not there is one: its test is the wrong way round.
lookup-del_session :
    (peer j : Addr) (p : ClientPeer)
    → lookup j (del_session peer p).0.sessions ≡ lookup j p.sessions
unfolding del_session
lookup-del_session peer j p = ground (arith, lookup-remove peer j p.sessions, same→eq peer j)

-- What the handlers do to the sessions of a peer.
pub data SessionCall : Type 0 where
  adds : Addr → Addr → SessionCall
  deletes : Addr → SessionCall

abbrev pub run_sessions : List SessionCall → ClientPeer → ClientPeer
run_sessions [] p = p
run_sessions (adds peer server ∷ calls) p = run_sessions calls (add_session peer server p).0
run_sessions (deletes peer ∷ calls) p = run_sessions calls (del_session peer p).0

-- The session with a peer: the one there is, or else the first that is added.
abbrev pub first_added : Addr → List SessionCall → Option Session → Option Session
first_added j calls (some s) = some s
first_added j [] none = none
first_added j (adds peer server ∷ calls) none =
    if same peer j
    then some (record { peer_addr = peer; server_addr = server })
    else first_added j calls none
first_added j (deletes peer ∷ calls) none = first_added j calls none

first_added-adds :
    (j peer server : Addr) (calls : List SessionCall) (o : Option Session)
    → first_added j calls (elim o [
      | some s ↦ some s
      | none ↦
          if same peer j then some (record { peer_addr = peer; server_addr = server }) else none
    ])
      ≡ first_added j (adds peer server ∷ calls) o
first_added-adds j peer server calls (some s) = refl
first_added-adds j peer server calls none = elim (Bool-cases (same peer j)) [
  | inl e ↦ rw e
  | inr e ↦ rw e
]

first_added-deletes :
    (j peer : Addr) (calls : List SessionCall) (o : Option Session)
    → first_added j calls o ≡ first_added j (deletes peer ∷ calls) o
first_added-deletes j peer calls (some s) = refl
first_added-deletes j peer calls none = refl

lookup-add_session_or :
    (peer server j : Addr) (p : ClientPeer)
    → lookup j (add_session peer server p).0.sessions ≡ (elim (lookup j p.sessions) [
      | some s ↦ some s
      | none ↦
          if same peer j then some (record { peer_addr = peer; server_addr = server }) else none
    ])
lookup-add_session_or peer server j p =
    ground (arith, lookup-add_session peer server j p, same→eq peer j)

-- A peer that a client has a session with stays with the server that it was first added with, however
-- often sessions are added and deleted: no call of `add_session` moves a session, and none of
-- `del_session` takes one away.
pub lookup-run_sessions :
    (j : Addr) (calls : List SessionCall) (p : ClientPeer)
    → lookup j (run_sessions calls p).sessions ≡ first_added j calls (lookup j p.sessions)
lookup-run_sessions j [] p = go (lookup j p.sessions)
  where
    go : (o : Option Session) → o ≡ first_added j [] o
    go none = refl
    go (some s) = refl
lookup-run_sessions j (adds peer server ∷ calls) p =
    lookup-run_sessions j calls (add_session peer server p).0
    ∙ rw (lookup-add_session_or peer server j p)
        (first_added-adds j peer server calls (lookup j p.sessions))
lookup-run_sessions j (deletes peer ∷ calls) p =
    lookup-run_sessions j calls (del_session peer p).0
    ∙ rw (lookup-del_session peer j p) (first_added-deletes j peer calls (lookup j p.sessions))
