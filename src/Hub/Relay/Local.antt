-- ===== src/Hub/Relay/Local.antt =====
-- A message that another server has passed on stays on this server.
use ws_cluster.Common.{
  ℕ, true, false, ◌≡◌, refl, sym, ◌∙◌, ◌⊎◌, inl, inr, List, [], ◌∷◌, ◌++◌, append_assoc, append-nil,
  Bool-cases, Option, none, some, Option-cases, Dict, lookup, Result, ok, err, M, bind_result, All,
  ◌==◌, if◌then◌else◌, arith, pure,
}
use ws_cluster.Wire.Addr.{Addr, addr_domain, addr_client, addr_server, addr_group, addr_broadcast}
use ws_cluster.Wire.Message.{Message}
use ws_cluster.Hub.State.{
  Hub, Output, pushed, answered, queued, ClientPeer, Resp, GroupPacket, message,
}
use ws_cluster.Hub.Output.{push_message, push_domain, send_to_domain, emit, reply, send_group}
use ws_cluster.Hub.Relay.{is_type, relay_to_client, relay_to_others, handle_relay}

-- The connection is that of a client in the map.
abbrev pub Among : ℕ → Dict ClientPeer → Type 0
Among conn [] = ⊥
Among conn ((k, p) ∷ peers) = (p.conn ≡ conn) ⊎ Among conn peers

-- An answer, or a message to a client in the map.
abbrev pub IsLocal : Dict ClientPeer → Output → Type 0
IsLocal clients (pushed conn msg) = Among conn clients
IsLocal clients (answered c r) = Unit {0}
IsLocal clients (queued packet) = ⊥

-- From `h` on, a step has sent only local output, and left the clients alone.
pub record Local {A : Type 0} (h : Hub) (p : Result A × Hub) : Type 0 where
  pub new : List Output
  pub grew : p.1.sent ≡ h.sent ++ new
  pub is_local : All (IsLocal h.client_peers) new
  pub kept : p.1.client_peers ≡ h.client_peers

All-append {ℓ κ} :
    {A : Type ℓ} (P : A → Type κ) (xs ys : List A) → All P xs → All P ys → All P (xs ++ ys)
All-append P [] ys hx hy = hy
All-append P (x ∷ xs) ys hx hy = (hx.0, All-append P xs ys hx.1 hy)

none-Local : {A : Type 0} (r : Result A) (h : Hub) → Local h (r, h)
none-Local r h = record { new = []; grew = sym (append-nil h.sent); is_local = tt; kept = refl }

bind-Local :
    {A B : Type 0} (h : Hub) (p : Result A × Hub) (f : A → M Hub B)
    → Local h p
    → ((a : A) (s : Hub) → s.client_peers ≡ h.client_peers → Local s (f a s))
    → Local h (bind_result p f)
bind-Local h (ok a, s) f l k =
    let next = k a s l.kept in
    record {
      new = l.new ++ next.new;
      grew = next.grew ∙ rw (l.grew, append_assoc);
      is_local =
          All-append (IsLocal h.client_peers) l.new next.new l.is_local
            (rw l.kept at next.is_local);
      kept = next.kept ∙ l.kept;
    }
bind-Local h (err e, s) f l k = record {
  new = l.new;
  grew = l.grew;
  is_local = l.is_local;
  kept = l.kept;
}

push-Local :
    (conn : ℕ) (msg : Message) (h : Hub)
    → Among conn h.client_peers
    → Local h (push_message conn msg h)
unfolding push_message emit
push-Local conn msg h m = elim (Bool-cases (h.connected conn)) [
  | inl e ↦
      rw e (record { new = pushed conn msg ∷ []; grew = refl; is_local = (m, tt); kept = refl })
  | inr e ↦ rw e (none-Local _ h)
]

reply-Local : (resp : Option ℕ) (r : Resp) (h : Hub) → Local h (reply resp r h)
unfolding reply emit
reply-Local none r h = none-Local (ok tt) h
reply-Local (some c) r h = record {
  new = answered c r ∷ [];
  grew = refl;
  is_local = (tt, tt);
  kept = refl;
}

lookup-Among :
    (k : Addr) (peers : Dict ClientPeer) (p : ClientPeer)
    → lookup k peers ≡ some p
    → Among p.conn peers
unfolding lookup
lookup-Among k [] p e = cc
lookup-Among k ((j, q) ∷ peers) p e = ground (arith, lookup-Among k peers p)

push_domain-Local :
    (domain : ℕ) (msg : Message) (peers : Dict ClientPeer) (h : Hub)
    → ((conn : ℕ) → Among conn peers → Among conn h.client_peers)
    → Local h (push_domain domain msg peers h)
unfolding push_domain
push_domain-Local domain msg [] h sub = none-Local (ok tt) h
push_domain-Local domain msg ((addr, p) ∷ peers) h sub =
    bind-Local h _ _ (first (Bool-cases (addr_domain addr == domain)))
      (λ _ s e. push_domain-Local domain msg peers s (λ conn m. rw e (sub conn (inr m))))
  where
    first :
        ((addr_domain addr == domain) ≡ true) ⊎ ((addr_domain addr == domain) ≡ false)
        → Local h ((if addr_domain addr == domain then push_message p.conn msg else pure tt) h)
    first (inl e) = rw e (push-Local p.conn msg h (sub p.conn (inl refl)))
    first (inr e) = rw e (none-Local (ok tt) h)

client-Local :
    (from : Addr) (msg : Message) (h : Hub)
    → is_type from addr_server ≡ true
    → Local h (relay_to_client from msg h)
unfolding relay_to_client
client-Local from msg h server = elim (Option-cases (lookup msg.header.dest h.client_peers)) [
  | inl e ↦ rw (e, relay_to_client) (rw server (none-Local _ h))
  | inr (p, e) ↦
      rw (e, relay_to_client)
        (bind-Local h (push_message p.conn msg h) (λ _. pure none)
          (push-Local p.conn msg h (lookup-Among msg.header.dest h.client_peers p e))
          (λ _ s _. none-Local _ s))
]

send_group-Local :
    (addr : Addr) (packet : GroupPacket) (h : Hub) → Local h (send_group addr packet h)
unfolding send_group
send_group-Local addr packet h = elim (Option-cases (lookup addr h.groups)) [
  | inl e ↦ rw (e, send_group) (none-Local _ h)
  | inr (g, e) ↦
      rw (e, send_group)
        (record { new = []; grew = sym (append-nil h.sent); is_local = tt; kept = refl })
]

server-not-client :
    (from : Addr) → is_type from addr_server ≡ true → is_type from addr_client ≡ false
unfolding is_type
server-not-client from h = ground arith

send_to_domain-Local : (dest : Addr) (msg : Message) (h : Hub) → Local h (send_to_domain dest msg h)
unfolding send_to_domain
send_to_domain-Local dest msg h =
    push_domain-Local (addr_domain dest) msg h.client_peers h (λ conn m. m)

others-Local :
    (from : Addr) (msg : Message) (h : Hub)
    → is_type from addr_server ≡ true
    → Local h (relay_to_others from msg h)
unfolding relay_to_others
others-Local from msg h server = rw (server-not-client from server) (
    bind-Local h (by_type h) _
      (split (Bool-cases (is_type dest addr_group)) (Bool-cases (is_type dest addr_broadcast)))
      (λ _ s _. none-Local (ok none) s))
  where
    dest : Addr
    dest = msg.header.dest

    by_type : M Hub (Unit {0})
    by_type =
        if is_type dest addr_group
        then send_group dest (message msg)
        else if is_type dest addr_broadcast
        then send_to_domain dest msg
        else pure tt

    split :
        (is_type dest addr_group ≡ true) ⊎ (is_type dest addr_group ≡ false)
        → (is_type dest addr_broadcast ≡ true) ⊎ (is_type dest addr_broadcast ≡ false)
        → Local h (by_type h)
    split (inl g) _ = rw g (send_group-Local dest (message msg) h)
    split (inr g) (inl b) = rw (g, b) (send_to_domain-Local dest msg h)
    split (inr g) (inr b) = rw (g, b) (none-Local (ok tt) h)

-- Whatever becomes of it, the relay of a message that a server has passed on sends nothing but
-- answers and messages to clients of this server: it never goes on to a server, nor back.
pub handle_relay-Local :
    (from : Addr) (msg : Message) (resp : Option ℕ) (h : Hub)
    → is_type from addr_server ≡ true
    → Local h (handle_relay from msg resp h)
unfolding handle_relay
handle_relay-Local from msg resp h server =
    bind-Local h _ _ (split (Bool-cases (is_type msg.header.dest addr_client)))
      (λ error s _. reply-Local resp _ s)
  where
    split :
        (is_type msg.header.dest addr_client ≡ true) ⊎ (is_type msg.header.dest addr_client ≡ false)
        → Local h (
            (if is_type msg.header.dest addr_client
                then relay_to_client from msg
                else relay_to_others from msg)
              h)
    split (inl e) = rw e (client-Local from msg h server)
    split (inr e) = rw e (others-Local from msg h server)
