-- ===== src/Hub/Output.antt =====
-- hub/hub.go: what the handlers send: messages to peers, answers, packets to groups.
pub mod Open
use ws_cluster.Common.{
  ℕ, Bool, true, false, List, [], ◌∷◌, ◌++◌, Option, none, some, Dict, lookup, insert, values, has,
  M, ◌>>=◌, ◌>>◌, pure, throw, blocked, ok, err, modify, gets, for_each, ◌==◌, if◌then◌else◌,
}
use ws_cluster.Wire.Addr.{Addr, addr_domain}
use ws_cluster.Wire.Message.{Message}
use ws_cluster.Hub.State.{
  Hub, Handler, Output, pushed, answered, queued, Resp, Packet, Group, GroupPacket, message,
  ClientPeer, ServerPeer,
}

unfoldable pub emit : Output → Handler
emit o = modify (λ h. record h { sent = h.sent ++ (o ∷ []) })

-- peer.go, PushMessage with a nil channel for the result: where the connection is not open, the
-- error is sent on that channel, and a send on a nil channel never ends.
unfoldable pub push_message : ℕ → Message → Handler
unfolding emit
push_message conn msg h = if h.connected conn then emit (pushed conn msg) h else (err blocked, h)

-- `if resp != nil { resp <- … }`
unfoldable pub reply : Option ℕ → Resp → Handler
unfolding emit
reply none r = pure tt
reply (some c) r = emit (answered c r)

-- `resp <- …` with no test.
unfoldable pub must_reply : Option ℕ → Resp → Handler
unfolding emit
must_reply none r = throw blocked
must_reply (some c) r = emit (answered c r)

unfoldable pub push_servers : Message → Dict ServerPeer → Handler
unfolding push_message
push_servers msg peers = for_each (values peers) (λ speer. push_message speer.conn msg)

-- Hub.broadcast
unfoldable pub broadcast : Message → Handler
unfolding push_servers
broadcast msg h = push_servers msg h.server_peers h

unfoldable pub push_domain : ℕ → Message → Dict ClientPeer → Handler
push_domain domain msg [] = pure tt
push_domain domain msg ((addr, cpeer) ∷ rest) = do
  (if addr_domain addr == domain then push_message cpeer.conn msg else pure tt)
  push_domain domain msg rest

-- Hub.sendToDomain
unfoldable pub send_to_domain : Addr → Message → Handler
unfolding push_domain
send_to_domain dest msg h = push_domain (addr_domain dest) msg h.client_peers h

-- `group.packet <- packet` for the group at an address, if there is one. The send waits while the
-- channel is full; the group's loop empties it.
unfoldable pub send_group : Addr → GroupPacket → Handler
send_group addr packet h = elim (lookup addr h.groups) [
  | none ↦ (ok tt, h)
  | some g ↦ (
    ok tt,
    record h { groups = insert addr (record g { packet = g.packet ++ (packet ∷ []) }) h.groups },
  )
]

-- A change of the peer that `client_peers` holds under an address, if there is one.
unfoldable pub update_client : Addr → (ClientPeer → ClientPeer) → Handler
update_client addr change h = elim (lookup addr h.client_peers) [
  | none ↦ (ok tt, h)
  | some p ↦ (ok tt, record h { client_peers = insert addr (change p) h.client_peers })
]
