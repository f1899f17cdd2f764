-- ===== src/Hub/Group.antt =====
-- hub/group.go: the loop of a group, one packet at a time.
pub mod Members
pub mod FanOut
use ws_cluster.Common.{
  ℕ, ◌+◌, List, [], ◌∷◌, Option, none, some, Dict, lookup, insert, remove, values, M, ◌>>=◌, ◌>>◌,
  pure, modify, for_each, ok,
}
use ws_cluster.Wire.Addr.{Addr}
use ws_cluster.Wire.Message.{Message}
use ws_cluster.Hub.State.{Hub, Handler, Group, GroupPacket, join, leave, message}
use ws_cluster.Hub.Output.{push_message}

-- What a packet does to the group; a message changes nothing.
unfoldable pub group_apply : GroupPacket → Group → Group
group_apply (message msg) g = g
group_apply (join addr conn) g = record g {
  members = insert addr conn g.members;
  mem_count = record (g.mem_count) { joins = g.mem_count.joins + 1 };
}
group_apply (leave addr conn) g = record g {
  members = remove addr g.members;
  mem_count = record (g.mem_count) { leaves = g.mem_count.leaves + 1 };
}

-- What a packet makes the group send.
unfoldable pub group_send : GroupPacket → Group → Handler
group_send (message msg) g = for_each (values g.members) (λ conn. push_message conn msg)
group_send (join addr conn) g = pure tt
group_send (leave addr conn) g = pure tt

unfoldable pub group_receive : Addr → Group → List GroupPacket → Handler
unfolding group_apply group_send
group_receive addr g [] = pure tt
group_receive addr g (packet ∷ rest) = do
  modify (λ h. record h {
    groups = insert addr (record (group_apply packet g) { packet = rest }) h.groups;
  })
  group_send packet g

-- One round of the loop of the group at an address; with no packet it waits.
unfoldable pub group_loop : Addr → Handler
unfolding group_receive
group_loop addr h = elim (lookup addr h.groups) [
  | none ↦ (ok tt, h)
  | some g ↦ group_receive addr g g.packet h
]
