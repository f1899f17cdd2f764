-- ===== src/Hub/Cluster/Meeting.antt =====
-- A server that starts meets the servers that its seed knows.
use ws_cluster.Common.{
  ℕ, ◌≡◌, refl, sym, ◌∙◌, ap, ◌⊎◌, inl, inr, false, List, [], ◌∷◌, ◌++◌, map, Option, none, some,
  Bool-cases, Result, ok, err, bind_result, ok-injective, ◌>>=◌, connect_failed, M, lookup, insert,
  values, same, same→eq, same_refl, All, for_each,
}
use mathlib.Core.Path.{subst}
use ws_cluster.Wire.Addr.Text.{addr_string}
use ws_cluster.Wire.Addr.Parse.{parse_addr}
use ws_cluster.Hub.State.{Hub, Server, ServerPeer, answered, ServerInfo, query_servers_resp}
use ws_cluster.Hub.Output.{reply, emit}
use ws_cluster.Hub.Output.Open.{sending}
use ws_cluster.Hub.Regist.{status_ok, handle_server_peer_regist}
use ws_cluster.Hub.Handler.{handle_packet, handle_content}
use ws_cluster.Hub.Answer.{ask, ask_as, awaited-last}
use ws_cluster.Hub.Http.{
  Admission, refused, admitted, admit_server, handle_server_web_socket, is_empty_text,
}
use ws_cluster.Hub.Logic.{server_infos, logic_query_servers}
use ws_cluster.Hub.Logic.Known.{server_infos-cons, servers-answer}
use ws_cluster.Hub.Cluster.{
  ConnectHeader, Dialled, Start, connect, listed_server, new_server_peer, enter, join_listed,
  start_cluster, servers_path,
}
use ws_cluster.Hub.Cluster.World.{
  AtAddr, Knows, Meets, Exists, World, dialled_url, Grows, Grows-refl, Grows-trans, insert-Entry,
  insert-Entry_self,
}
use ws_cluster.Hub.Cluster.Headers.{IsVisible}
use ws_cluster.Hub.Cluster.Hello.{
  IsServer, server_text, server-addr_string, server-parse_addr, request_read, server_peer,
  admit_server-host_header, host_header, IsVisibleServer, connect_header-host_header,
  listed-server_info,
}

module _ (parse_url : List ℕ → Option (List ℕ)) (sum : List ℕ → List ℕ) (token : List ℕ)
    -- The connection that a call of a URL gives, and the channel for the answer at the other end.
    (conn_of : List ℕ → ℕ) (now c : ℕ) where
  -- A server with the same token is given the request.
  taken : List ℕ → World → Admission ServerPeer → Hub → Result Dialled × World
  taken url w (refused reply) h = (err connect_failed, w)
  taken url w (admitted peer) h = (ok (record { status = 101; conn = conn_of url }), insert url h w)

  pub call : List ℕ → ConnectHeader → M World Dialled
  unfolding taken
  call url header w = elim (lookup url w) [
    | none ↦ (err connect_failed, w)
    | some h ↦
        taken url w (admit_server sum token (some (conn_of url)) (request_read parse_url header))
          (handle_server_web_socket sum token (some (conn_of url)) now c
            (request_read parse_url header) h).1
  ]

  module _ {host : Server} (i : IsServer parse_url host) (v : IsVisibleServer i)
      (sums : (t : List ℕ) → All IsVisible (sum t)) where
    entered : ℕ → Hub → Hub
    entered conn h =
        sending
          (record h { server_peers = insert host.addr (server_peer conn host) h.server_peers })
          (answered c status_ok ∷ [])

    admits :
        (conn : ℕ)
        → admit_server sum token (some conn) (request_read parse_url (host_header sum token i))
          ≡ admitted (server_peer conn host)
    admits conn =
        admit_server-host_header sum token i v sums token conn
        ∙ rw (same_refl (sum (server_text i ++ token))) refl

    web_socket-entered :
        (conn : ℕ) (h : Hub)
        → handle_server_web_socket sum token
            (some conn)
            now
            c
            (request_read parse_url (host_header sum token i))
            h
          ≡ (ok [], entered conn h)
    unfolding handle_server_web_socket entered handle_packet handle_content ask ask_as
        handle_server_peer_regist reply emit
    web_socket-entered conn h =
        rw (admits conn, handle_server_web_socket)
          (ap (λ p. bind_result p (λ resp s. (ok [], s)))
            (awaited-last c status_ok h.sent
              (record h { server_peers = insert host.addr (server_peer conn host) h.server_peers })
              refl))

    call-entered :
        (url : List ℕ) (w : World) (h : Hub)
        → lookup url w ≡ some h
        → call url (host_header sum token i) w ≡ (
          ok (record { status = 101; conn = conn_of url }),
          insert url (entered (conn_of url) h) w,
        )
    unfolding call taken
    call-entered url w h e =
        rw (e, call) (rw (admits (conn_of url), web_socket-entered (conn_of url) h))

    entered-Knows : (conn : ℕ) (h : Hub) → Knows host.addr (entered conn h)
    unfolding entered
    entered-Knows conn h = insert-Entry_self AtAddr host.addr _ h.server_peers refl

    -- After a server of the list is joined.
    joined : Server → Hub → Start World → Start World
    joined t h s = record {
      hub = record (s.hub) {
        server_peers = insert t.addr (server_peer (conn_of (dialled_url t)) t) s.hub.server_peers;
      };
      world = insert (dialled_url t) (entered (conn_of (dialled_url t)) h) s.world;
    }

    new_server_peer-joined :
        (t : Server) (w : World) (h : Hub)
        → lookup (dialled_url t) w ≡ some h
        → new_server_peer sum call token host t w ≡ (
          ok (server_peer (conn_of (dialled_url t)) t),
          insert (dialled_url t) (entered (conn_of (dialled_url t)) h) w,
        )
    unfolding new_server_peer connect
    new_server_peer-joined t w h e =
        simp (connect_header-host_header sum token i, call-entered (dialled_url t) w h e)

    joined-Grows : (t : Server) (h : Hub) (s : Start World) → Grows host.addr s (joined t h s)
    unfolding joined
    joined-Grows t h s = record {
      server = refl;
      knows = insert-Entry _ t.addr _ _ refl;
      exists = insert-Entry _ (dialled_url t) _ _ tt;
      meets = insert-Entry _ (dialled_url t) _ _ (entered-Knows (conn_of (dialled_url t)) h);
    }

    -- What a server of the list is to the one that starts.
    abbrev pub IsMet : Start World → Server → Type 0
    IsMet s t =
        (t.addr ≡ host.addr) ⊎ (Knows t.addr s.hub × Meets host.addr (dialled_url t) s.world)

    grown-IsMet : {s s' : Start World} (t : Server) → Grows host.addr s s' → IsMet s t → IsMet s' t
    grown-IsMet t g (inl e) = inl e
    grown-IsMet t g (inr (k, m)) = inr (g.knows t.addr k, g.meets (dialled_url t) m)

    join_listed-IsMet :
        (t : Server) (it : IsServer parse_url t) (info : ServerInfo) (s : Start World)
        → info.addr ≡ server_text it
        → listed_server parse_url info ≡ ok t
        → s.hub.server ≡ host
        → Exists (dialled_url t) s.world
        → (s' : Start World) × (join_listed sum call parse_url token info s ≡ (ok tt, s'))
          × Grows host.addr s s'
          × IsMet s' t
    unfolding join_listed enter joined
    join_listed-IsMet t it info s text listed self (h, e, _) =
        let own : addr_string s.hub.server.addr ≡ ok (server_text i) =
          rw self (server-addr_string i) in
        let test : same info.addr (server_text i) ≡ same (server_text it) (server_text i) =
          ap (λ x. same x (server_text i)) text in
        let url = dialled_url t in
        let peer : new_server_peer sum call token s.hub.server t s.world
            ≡ (ok (server_peer (conn_of url) t), insert url (entered (conn_of url) h) s.world) =
          rw self (new_server_peer-joined t s.world h e) in
        elim (Bool-cases (same (server_text it) (server_text i))) [
          | inl eq ↦ (
            s,
            rw (own, join_listed) (rw (test ∙ eq) refl),
            Grows-refl host.addr s,
            inl (
                ok-injective (
                  sym (server-parse_addr it)
                  ∙ ap parse_addr (same→eq _ _ eq)
                  ∙ server-parse_addr i)),
          )
          | inr ne ↦ (
            joined t h s,
            rw (own, join_listed)
                (rw (test ∙ ne) (rw (listed, join_listed) (rw (peer, enter) refl))),
            joined-Grows t h s,
            inr (
              insert-Entry_self AtAddr t.addr _ _ refl,
              insert-Entry_self (λ k h. Knows host.addr h) url _ _ (entered-Knows (conn_of url) h),
            ),
          )
        ]

    -- What is asked of a server that is to be met: it is as NewHub makes one, and is there.
    abbrev pub IsThere : World → Server → Type 0
    IsThere w t = IsServer parse_url t × Exists (dialled_url t) w

    grown-IsThere :
        {s s' : Start World} (ts : List Server)
        → Grows host.addr s s'
        → All (IsThere s.world) ts
        → All (IsThere s'.world) ts
    grown-IsThere [] g a = tt
    grown-IsThere {s} {s'} (t ∷ ts) g ((it, e), a) =
        ((it, g.exists (dialled_url t) e), grown-IsThere {s = s} {s' = s'} ts g a)

    join_list-IsMet :
        (ts : List Server) (infos : List ServerInfo) (s : Start World)
        → s.hub.server ≡ host
        → All (IsThere s.world) ts
        → server_infos ts ≡ ok infos
        → (s' : Start World) × (for_each infos (join_listed sum call parse_url token) s
            ≡ (ok tt, s'))
          × Grows host.addr s s'
          × All (IsMet s') ts
    unfolding server_infos
    join_list-IsMet [] infos s self there answer = (
      s,
      subst (λ x. for_each x (join_listed sum call parse_url token) s ≡ (ok tt, s))
          (ok-injective answer) refl,
      Grows-refl host.addr s,
      tt,
    )
    join_list-IsMet (t ∷ ts) infos s self ((it, e), there) answer =
        let (info, found, text, listed) = listed-server_info it in
        let (rest, answered_rest, split) = server_infos-cons t ts info infos found answer in
        let (s1, e1, g1, met) = join_listed-IsMet t it info s text listed self e in
        let (s2, e2, g2, all_met) =
          join_list-IsMet ts rest s1 (g1.server ∙ self)
            (grown-IsThere {s = s} {s' = s1} ts g1 there) answered_rest in
        (s2, rw split (rw (e1, ◌>>=◌) e2), Grows-trans g1 g2, (grown-IsMet t g2 met, all_met))

    -- A server that starts has a name and URLs with visible ASCII characters only, as the hashes have,
    -- which net/http sends as they are. It downloads the list of the servers that its seed answers with, the seed first.
    -- Where each of them is as NewHub makes one, and answers at its URL with the same token, the start
    -- ends without an error, and each of them but the one that starts, by its address, is then a peer
    -- of it, and has it as a peer. The download is assumed to give back the list that was encoded.
    pub start_cluster-meets :
        (download : List ℕ → Result (List ServerInfo)) (url : List ℕ) (seed : Hub)
        (infos : List ServerInfo) (s : Start World)
        → s.hub.server ≡ host
        → is_empty_text url ≡ false
        → All (IsThere s.world) (seed.server ∷ map (λ p. p.server) (values seed.server_peers))
        → logic_query_servers seed ≡ ok (query_servers_resp infos)
        → download (url ++ servers_path) ≡ ok infos
        → (s' : Start World) × (start_cluster sum call parse_url download token url s ≡ (ok tt, s'))
          × All (IsMet s') (seed.server ∷ map (λ p. p.server) (values seed.server_peers))
    unfolding start_cluster logic_query_servers
    start_cluster-meets download url seed infos s self text there answer downloads =
        let ts = seed.server ∷ map (λ p. p.server) (values seed.server_peers) in
        let (s', e, g, met) =
          join_list-IsMet ts infos s self there (servers-answer seed infos answer) in
        (s', rw (text, downloads) e, met)
