-- ===== src/Hub/Peers/Conns.antt =====
-- What the recording of sessions and locations leaves as it is.
use mathlib.Core.Option.{some-injective}
use ws_cluster.Common.{
  ℕ, ◌≡◌, refl, sym, ◌∙◌, ap, Bool, true, false, inl, inr, List, [], ◌∷◌, ◌++◌, append-nil, length,
  ◌≤◌, none, some, Option-cases, Bool-cases, Dict, lookup, insert, has, lookup-insert, ok, same,
  same→eq, if◌then◌else◌, pure, arith,
}
use ws_cluster.Wire.Addr.{Addr, addr_client}
use ws_cluster.Wire.Message.{Header}
use ws_cluster.Hub.State.{Hub, ClientPeer, pushed}
use ws_cluster.Hub.Session.{add_session}
use ws_cluster.Hub.Output.{update_client}
use ws_cluster.Hub.Output.Open.{AllOpen, sending, pushes, push_message-open}
use ws_cluster.Hub.Relay.{is_type, record_session, record_location, note_location, loc_message}

-- The same clients are logged in, under the same addresses and on the same connections.
pub record SameConns (m n : Dict ClientPeer) : Type 0 where
  pub away : (j : Addr) → lookup j m ≡ none → lookup j n ≡ none
  pub here :
      (j : Addr) (q : ClientPeer)
      → lookup j m ≡ some q
      → (q' : ClientPeer) × (lookup j n ≡ some q') × (q'.conn ≡ q.conn) × (q'.addr ≡ q.addr)

pub SameConns-refl : (m : Dict ClientPeer) → SameConns m m
SameConns-refl m = record { away = λ j e. e; here = λ j q e. (q, e, refl, refl) }

pub SameConns-trans : {m n o : Dict ClientPeer} → SameConns m n → SameConns n o → SameConns m o
SameConns-trans f g = record {
  away = λ j e. g.away j (f.away j e);
  here = λ j q e.
      let (q1, e1, c1, a1) = f.here j q e in
      let (q2, e2, c2, a2) = g.here j q1 e1 in (q2, e2, c2 ∙ c1, a2 ∙ a1);
}

add_session-conn : (a s : Addr) (p : ClientPeer) → (add_session a s p).0.conn ≡ p.conn
unfolding add_session
add_session-conn a s p = ground arith

add_session-addr : (a s : Addr) (p : ClientPeer) → (add_session a s p).0.addr ≡ p.addr
unfolding add_session
add_session-addr a s p = ground arith

pub insert-SameConns :
    (k : Addr) (p p' : ClientPeer) (m : Dict ClientPeer)
    → lookup k m ≡ some p
    → p'.conn ≡ p.conn
    → p'.addr ≡ p.addr
    → SameConns m (insert k p' m)
insert-SameConns k p p' m found same_conn same_addr = record {
  away = λ j e. lookup-insert k j p' m ∙ ground (arith, same→eq k j);
  here = λ j q e. elim (Bool-cases (same k j)) [
    | inl t ↦
        let found_j : lookup j m ≡ some p = ap (λ x. lookup x m) (sym (same→eq k j t)) ∙ found in
        (
          p',
          lookup-insert k j p' m ∙ rw t refl,
          same_conn ∙ ap (λ (x : ClientPeer). x.conn) (some-injective p q (sym found_j ∙ e)),
          same_addr ∙ ap (λ (x : ClientPeer). x.addr) (some-injective p q (sym found_j ∙ e)),
        )
    | inr t ↦ (q, lookup-insert k j p' m ∙ rw t e, refl, refl)
  ];
}

-- A change of the clients alone.
abbrev pub with_clients : Hub → Dict ClientPeer → Hub
with_clients h clients = record h { client_peers = clients }

maybe_update-SameConns :
    (b : Bool) (addr a s : Addr) (h : Hub)
    → (clients : Dict ClientPeer) × ((if b
            then update_client addr (λ p. (add_session a s p).0)
            else pure tt)
          h
        ≡ (ok tt, with_clients h clients))
      × SameConns h.client_peers clients
unfolding update_client
maybe_update-SameConns false addr a s h = (h.client_peers, refl, SameConns-refl h.client_peers)
maybe_update-SameConns true addr a s h = elim (Option-cases (lookup addr h.client_peers)) [
  | inl e ↦ (h.client_peers, rw (e, update_client), SameConns-refl h.client_peers)
  | inr (p, e) ↦ (
    insert addr (add_session a s p).0 h.client_peers,
    rw (e, update_client),
    insert-SameConns addr p (add_session a s p).0 h.client_peers e (add_session-conn a s p)
        (add_session-addr a s p),
  )
]

-- The recording of sessions changes the peers of clients alone, and none of their connections.
pub record_session-SameConns :
    (from : Addr) (header : Header) (h : Hub)
    → (clients : Dict ClientPeer) × (record_session from header h ≡ (ok tt, with_clients h clients))
      × SameConns h.client_peers clients
unfolding record_session
record_session-SameConns from header h =
    let self = h.server.addr in
    let (m1, e1, s1) =
      maybe_update-SameConns (is_type header.source addr_client) header.source header.dest self h in
    elim (Bool-cases (is_type header.dest addr_client)) [
      | inr d ↦ (m1, rw d (rw e1 refl), s1)
      | inl d ↦ elim (Bool-cases (is_type from addr_client)) [
        | inl f ↦
            let (m2, e2, s2) =
              maybe_update-SameConns true header.dest header.source self (with_clients h m1) in
            (m2, rw (d, f) (rw e1 e2), SameConns-trans s1 s2)
        | inr f ↦
            let (m2, e2, s2) =
              maybe_update-SameConns true header.dest header.source from (with_clients h m1) in
            (m2, rw (d, f) (rw e1 e2), SameConns-trans s1 s2)
      ]
    ]

-- What the recording of a location does: only `location` changes, and at most the locating message is
-- pushed to one connection.
pub record LocationNoted (from : Addr) (header : Header) (h h' : Hub) : Type 0 where
  pub server : h'.server ≡ h.server
  pub clients : h'.client_peers ≡ h.client_peers
  pub connected : h'.connected ≡ h.connected
  pub conns : List ℕ
  pub few : length conns ≤ 1
  pub sent :
      h'.sent ≡ h.sent ++ pushes (loc_message header.source header.dest h.server.addr from) conns

pub record_location-LocationNoted :
    (from : Addr) (header : Header) (h : Hub)
    → AllOpen h
    → (h' : Hub) × (record_location from header h ≡ (ok tt, h')) × LocationNoted from header h h'
unfolding record_location note_location
record_location-LocationNoted from header h open_all =
    elim (Bool-cases (has header.source h.location)) [
      | inl known ↦ (h, rw known refl, quiet h refl refl refl refl)
      | inr unknown ↦
          let h1 = record h { location = insert header.source from h.location } in
          elim (Bool-cases (has header.dest h.client_peers)) [
            | inr away ↦ (h1, rw (unknown, away) refl, quiet h1 refl refl refl refl)
            | inl here ↦ elim (Option-cases (lookup from h.server_peers)) [
              | inl e ↦ (
                h1,
                rw (unknown, here) (rw (e, note_location) refl),
                quiet h1 refl refl refl refl,
              )
              | inr (speer, e) ↦
                  let notice = loc_message header.source header.dest h.server.addr from in
                  (
                    sending h1 (pushed speer.conn notice ∷ []),
                    rw (unknown, here)
                        (rw (e, note_location) (push_message-open speer.conn notice h1 open_all)),
                    record {
                      server = refl;
                      clients = refl;
                      connected = refl;
                      conns = speer.conn ∷ [];
                      few = omega arith;
                      sent = refl;
                    },
                  )
            ]
          ]
    ]
  where
    quiet :
        (h' : Hub)
        → h'.server ≡ h.server
        → h'.client_peers ≡ h.client_peers
        → h'.connected ≡ h.connected
        → h'.sent ≡ h.sent
        → LocationNoted from header h h'
    quiet h' a b c d = record {
      server = a;
      clients = b;
      connected = c;
      conns = [];
      few = omega arith;
      sent = d ∙ sym (append-nil h.sent);
    }

-- A location that is noted stays.
pub record_location-known :
    (from : Addr) (header : Header) (h : Hub)
    → has header.source h.location ≡ true
    → record_location from header h ≡ (ok tt, h)
unfolding record_location
record_location-known from header h known = rw known refl

-- For a client that is not here nobody is told.
pub record_location-away :
    (from : Addr) (header : Header) (h : Hub)
    → lookup header.dest h.client_peers ≡ none
    → (location : Dict Addr) × (record_location from header h
        ≡ (ok tt, record h { location = location }))
unfolding record_location note_location
record_location-away from header h e =
    let away : has header.dest h.client_peers ≡ false = rw (e, has) refl in
    elim (Bool-cases (has header.source h.location)) [
      | inl known ↦ (h.location, rw known refl)
      | inr unknown ↦ (insert header.source from h.location, rw (unknown, away) refl)
    ]
