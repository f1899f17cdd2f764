-- ===== src/Hub/Output/Open.antt =====
-- What is sent where every connection is open.
use ws_cluster.Common.{
  ℕ, true, ◌≡◌, refl, ◌∙◌, List, [], ◌∷◌, ◌++◌, map, append_assoc, append-nil, values, Dict, ok,
  ◌==◌, if◌then◌else◌, Bool-cases, inl, inr, some,
}
use ws_cluster.Wire.Addr.{Addr, addr_domain}
use ws_cluster.Wire.Message.{Message}
use ws_cluster.Hub.State.{Hub, Output, pushed, answered, ServerPeer, ClientPeer, Resp}
use ws_cluster.Hub.Output.{
  push_message, push_servers, broadcast, push_domain, send_to_domain, emit, reply,
}

abbrev pub AllOpen : Hub → Type 0
AllOpen h = (conn : ℕ) → h.connected conn ≡ true

-- The hub, having sent more.
abbrev pub sending : Hub → List Output → Hub
sending h os = record h { sent = h.sent ++ os }

pub push_message-open :
    (conn : ℕ) (msg : Message) (h : Hub)
    → AllOpen h
    → push_message conn msg h ≡ (ok tt, sending h (pushed conn msg ∷ []))
unfolding push_message emit
push_message-open conn msg h open_all = rw (open_all conn)

-- One message to several connections.
abbrev pub pushes : Message → List ℕ → List Output
pushes msg [] = []
pushes msg (conn ∷ conns) = pushed conn msg ∷ pushes msg conns

abbrev pub server_conns : Dict ServerPeer → List ℕ
server_conns peers = map (λ p. p.conn) (values peers)

push_servers-open :
    (msg : Message) (peers : Dict ServerPeer) (h : Hub)
    → AllOpen h
    → push_servers msg peers h ≡ (ok tt, sending h (pushes msg (server_conns peers)))
unfolding push_servers
push_servers-open msg [] h open_all = rw append-nil
push_servers-open msg ((k, p) ∷ peers) h open_all =
    rw (push_message-open p.conn msg h open_all)
      (push_servers-open msg peers (sending h (pushed p.conn msg ∷ [])) open_all ∙ rw append_assoc)

pub broadcast-open :
    (msg : Message) (h : Hub)
    → AllOpen h
    → broadcast msg h ≡ (ok tt, sending h (pushes msg (server_conns h.server_peers)))
unfolding broadcast
broadcast-open msg h open_all = push_servers-open msg h.server_peers h open_all

-- The connections of the clients of a domain.
abbrev pub domain_conns : ℕ → Dict ClientPeer → List ℕ
domain_conns domain [] = []
domain_conns domain ((addr, p) ∷ peers) =
    if addr_domain addr == domain
    then p.conn ∷ domain_conns domain peers
    else domain_conns domain peers

push_domain-open :
    (domain : ℕ) (msg : Message) (peers : Dict ClientPeer) (h : Hub)
    → AllOpen h
    → push_domain domain msg peers h ≡ (ok tt, sending h (pushes msg (domain_conns domain peers)))
unfolding push_domain
push_domain-open domain msg [] h open_all = rw append-nil
push_domain-open domain msg ((addr, p) ∷ peers) h open_all =
    elim (Bool-cases (addr_domain addr == domain)) [
      | inl e ↦
          rw (e, push_message-open p.conn msg h open_all)
            (push_domain-open domain msg peers (sending h (pushed p.conn msg ∷ [])) open_all
              ∙ rw append_assoc)
      | inr e ↦ rw e (push_domain-open domain msg peers h open_all)
    ]

pub send_to_domain-open :
    (dest : Addr) (msg : Message) (h : Hub)
    → AllOpen h
    → send_to_domain dest msg h
      ≡ (ok tt, sending h (pushes msg (domain_conns (addr_domain dest) h.client_peers)))
unfolding send_to_domain
send_to_domain-open dest msg h open_all =
    push_domain-open (addr_domain dest) msg h.client_peers h open_all

pub reply-some :
    (c : ℕ) (r : Resp) (h : Hub) → reply (some c) r h ≡ (ok tt, sending h (answered c r ∷ []))
unfolding reply emit
reply-some c r h = refl
