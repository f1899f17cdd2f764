-- ===== src/Hub/Http/Sending.antt =====
-- A message that is sent over HTTP.
use mathlib.Core.Option.{none-ne-some}
use ws_cluster.Common.{
  ℕ, ◌≡◌, refl, sym, ◌∙◌, ap, Bool, true, false, ◌&&◌, inl, inr, [], ◌∷◌, ◌++◌, none, some,
  Option-cases, Bool-cases, lookup, insert, has, lookup-insert, ok, same, same→eq, if◌then◌else◌,
  arith, pure,
}
use ws_cluster.Wire.Addr.{Addr, addr_type, addr_client, addr_server}
use ws_cluster.Wire.Addr.Parse.{parse_addr}
use ws_cluster.Wire.Message.{Message, Header}
use ws_cluster.Hub.State.{Hub, ClientPeer, answered, relay_message}
use ws_cluster.Hub.Session.{add_session}
use ws_cluster.Hub.Output.{update_client}
use ws_cluster.Hub.Output.Open.{sending, reply-some}
use ws_cluster.Hub.Relay.{
  is_type, record_session, record_location, note_location, handle_relay, relay_to_client,
}
use ws_cluster.Hub.Logic.Located.{not_here}
use ws_cluster.Hub.Handler.{handle_packet, handle_content, handle_message}
use ws_cluster.Hub.Answer.{ask, awaited-last}
use ws_cluster.Hub.Http.{MsgBody, write_text, chat_from, send_reply, http_send_msg}

-- Nothing is sent, and the client at `dest` is not logged in.
record IsQuiet (h h' : Hub) (dest : Addr) : Type 0 where
  pub server : h'.server ≡ h.server
  pub sent : h'.sent ≡ h.sent
  pub absent : lookup dest h'.client_peers ≡ none

update_client-IsQuiet :
    (addr dest : Addr) (change : ClientPeer → ClientPeer) (h : Hub)
    → lookup dest h.client_peers ≡ none
    → (h' : Hub) × (update_client addr change h ≡ (ok tt, h')) × IsQuiet h h' dest
unfolding update_client
update_client-IsQuiet addr dest change h a = elim (Option-cases (lookup addr h.client_peers)) [
  | inl e ↦ (h, rw (e, update_client), record { server = refl; sent = refl; absent = a })
  | inr (p, e) ↦
      let other : same addr dest ≡ false = elim (Bool-cases (same addr dest)) [
        | inl s ↦ absurd (
            none-ne-some _
              (sym a ∙ ap (λ k. lookup k h.client_peers) (sym (same→eq addr dest s)) ∙ e))
        | inr s ↦ s
      ] in
      (
        record h { client_peers = insert addr (change p) h.client_peers },
        rw (e, update_client),
        record {
          server = refl;
          sent = refl;
          absent = lookup-insert addr dest (change p) h.client_peers ∙ rw other a;
        },
      )
]

maybe_update-IsQuiet :
    (b : Bool) (addr dest : Addr) (change : ClientPeer → ClientPeer) (h : Hub)
    → lookup dest h.client_peers ≡ none
    → (h' : Hub) × ((if b then update_client addr change else pure tt) h ≡ (ok tt, h'))
      × IsQuiet h h' dest
maybe_update-IsQuiet true addr dest change h a = update_client-IsQuiet addr dest change h a
maybe_update-IsQuiet false addr dest change h a =
    (h, refl, record { server = refl; sent = refl; absent = a })

both-IsQuiet :
    {h h' h'' : Hub} {dest : Addr} → IsQuiet h h' dest → IsQuiet h' h'' dest → IsQuiet h h'' dest
both-IsQuiet q r = record {
  server = r.server ∙ q.server;
  sent = r.sent ∙ q.sent;
  absent = r.absent;
}

record_session-IsQuiet :
    (header : Header) (h : Hub)
    → is_type header.dest addr_client ≡ true
    → is_type h.server.addr addr_client ≡ false
    → lookup header.dest h.client_peers ≡ none
    → (h' : Hub) × (record_session h.server.addr header h ≡ (ok tt, h')) × IsQuiet h h' header.dest
unfolding record_session
record_session-IsQuiet header h d f a =
    let self = h.server.addr in
    let (h1, e1, q1) =
      maybe_update-IsQuiet (is_type header.source addr_client) header.source header.dest
        (λ p. (add_session header.dest self p).0) h a in
    let (h2, e2, q2) =
      update_client-IsQuiet header.dest header.dest (λ p. (add_session header.source self p).0) h1
        q1.absent in
    (h2, rw (d, f) (rw e1 e2), both-IsQuiet q1 q2)

record_location-IsQuiet :
    (from : Addr) (header : Header) (h : Hub)
    → lookup header.dest h.client_peers ≡ none
    → (h' : Hub) × (record_location from header h ≡ (ok tt, h')) × IsQuiet h h' header.dest
unfolding record_location note_location
record_location-IsQuiet from header h a =
    let missing : has header.dest h.client_peers ≡ false = rw (a, has) in
    elim (Bool-cases (has header.source h.location)) [
      | inl e ↦ (h, rw e, record { server = refl; sent = refl; absent = a })
      | inr e ↦ (
        record h { location = insert header.source from h.location },
        rw e (rw missing),
        record { server = refl; sent = refl; absent = a },
      )
    ]

maybe_location-IsQuiet :
    (b : Bool) (from : Addr) (header : Header) (h : Hub)
    → lookup header.dest h.client_peers ≡ none
    → (h' : Hub) × ((if b then record_location from header else pure tt) h ≡ (ok tt, h'))
      × IsQuiet h h' header.dest
maybe_location-IsQuiet true from header h a = record_location-IsQuiet from header h a
maybe_location-IsQuiet false from header h a =
    (h, refl, record { server = refl; sent = refl; absent = a })

-- A client's address is not that of a server.
not_self :
    (dest self : Addr)
    → is_type dest addr_client ≡ true
    → is_type self addr_server ≡ true
    → (same dest self ≡ false) × (is_type self addr_client ≡ false)
unfolding is_type
not_self dest self d f = (
  elim (Bool-cases (same dest self)) [
    | inl s ↦ absurd (ground (arith, ap addr_type (same→eq dest self s), d, f))
    | inr s ↦ s
  ],
  ground (arith, f),
)

handle_relay-absent :
    (from : Addr) (msg : Message) (c : ℕ) (h : Hub)
    → is_type msg.header.dest addr_client ≡ true
    → is_type from addr_server ≡ true
    → lookup msg.header.dest h.client_peers ≡ none
    → handle_relay from msg (some c) h ≡ (ok tt, sending h (answered c not_here ∷ []))
unfolding handle_relay relay_to_client
handle_relay-absent from msg c h d f a =
    rw d (rw (a, relay_to_client) (rw f (reply-some c not_here h)))

-- The packet of a message for a client that is not here: the hub answers that it is not, and that is
-- all.
elsewhere :
    (now c : ℕ) (msg : Message) (h : Hub)
    → is_type msg.header.dest addr_client ≡ true
    → is_type h.server.addr addr_server ≡ true
    → lookup msg.header.dest h.client_peers ≡ none
    → (h' : Hub) × (ask now c (relay_message msg) h ≡ (ok not_here, h'))
      × (h'.sent ≡ h.sent ++ (answered c not_here ∷ []))
unfolding ask handle_packet handle_content handle_message
elsewhere now c msg h d f a =
    let self = h.server.addr in
    let (not_own, no_client) = not_self msg.header.dest self d f in
    let (h1, e1, q1) = record_session-IsQuiet msg.header h d no_client a in
    let (h2, e2, q2) =
      maybe_location-IsQuiet (is_type self addr_server && is_type msg.header.source addr_client)
        self msg.header h1 q1.absent in
    let q = both-IsQuiet q1 q2 in
    let not_own2 : same msg.header.dest h2.server.addr ≡ false =
      ap (λ s. same msg.header.dest s.addr) q.server ∙ not_own in
    (
      sending h2 (answered c not_here ∷ []),
      rw e1 (
          rw e2 (
            rw not_own2 (
              rw (handle_relay-absent self msg c h2 d f q.absent)
                (awaited-last c not_here h.sent h2 q.sent)))),
      ap (λ s. s ++ (answered c not_here ∷ [])) q.sent,
    )

-- A message sent over HTTP, between two texts that are addresses, for a client that is not logged in
-- at this server goes to no one, whatever the hub knows of where that client is, and the request is
-- answered with "ok".
pub http_send_dropped :
    (now c : ℕ) (body : MsgBody) (source dest : Addr) (h : Hub)
    → parse_addr body.source ≡ ok source
    → parse_addr body.dest ≡ ok dest
    → is_type dest addr_client ≡ true
    → is_type h.server.addr addr_server ≡ true
    → lookup dest h.client_peers ≡ none
    → (h' : Hub) × (http_send_msg now c (some body) h
        ≡ (ok (write_text (b'o' ∷ b'k' ∷ []) ∷ []), h'))
      × (h'.sent ≡ h.sent ++ (answered c not_here ∷ []))
unfolding http_send_msg chat_from send_reply
http_send_dropped now c body source dest h s p d f a =
    let (h', e, sent) = elsewhere now c (chat_from body source dest) h d f a in
    (h', rw (s, http_send_msg) (rw (p, http_send_msg) (rw e)), sent)
