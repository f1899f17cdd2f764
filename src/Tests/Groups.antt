-- ===== src/Tests/Groups.antt =====
-- Groups over the connections of clients, at concrete inputs.
use ws_cluster.Common.{
  ℕ, ◌≡◌, refl, [], ◌∷◌, ◌++◌, some, Dict, Key, lookup, values, Unique, ok, same, for_each, All,
  true,
}
use ws_cluster.Wire.Addr.{addr_type, addr_client, addr_group}
use ws_cluster.Hub.State.{Hub, join, message}
use ws_cluster.Hub.Output.Open.{pushes}
use ws_cluster.Hub.Relay.{is_type}
use ws_cluster.Hub.Logic.{new_group}
use ws_cluster.Hub.Group.{group_loop}
use ws_cluster.Hub.Group.FanOut.{last_conn, IsChange}
use ws_cluster.Hub.Peers.{client_on_message}
use ws_cluster.Hub.Peers.Groups.{group_at, join_message}
use ws_cluster.Hub.Peers.Spreading.{joined_client_reached}
use ws_cluster.Tests.Hub.{peer_of, guest}
use ws_cluster.Tests.Wire.{client}
use ws_cluster.Tests.Store.{from_to, sport}
use ws_cluster.Tests.Delivery.{shared_hub, server_here, client_here}

guest_client : is_type guest addr_client ≡ true
unfolding is_type addr_type
guest_client = refl

sport_group : is_type sport addr_group ≡ true
unfolding is_type addr_type
sport_group = refl

guest_in : lookup guest shared_hub.client_peers ≡ some (peer_of guest 3)
unfolding lookup same
guest_in = refl

no_members : Unique (group_at sport shared_hub).members
unfolding lookup new_group
no_members = tt

no_packets : All IsChange (group_at sport shared_hub).packet
unfolding lookup new_group
no_packets = tt

joined_client_reached_example :
    let msg = from_to client sport in
    let ps = (group_at sport shared_hub).packet ++ (join guest 3 ∷ []) in
    (h1 : Hub) × (client_on_message 4 8 (peer_of guest 3) (join_message guest 5 sport) shared_hub
      ≡ (ok tt, h1))
    × (h2 : Hub) × (client_on_message 4 9 (peer_of client 1) msg h1 ≡ (ok tt, h2))
    × (h3 : Hub) × (members : Dict ℕ) × (for_each
          (ps ++ (message msg ∷ []))
          (λ _. group_loop sport)
          h2
        ≡ (ok tt, h3))
    × (h3.sent ≡ h2.sent ++ pushes msg (values members))
    × Unique members
    × (lookup guest members ≡ some 3)
    × ((k : Key) → lookup k members ≡ last_conn k ps (lookup k (group_at sport shared_hub).members))
joined_client_reached_example =
    joined_client_reached 4 8 9 5 (peer_of guest 3) (peer_of client 1) (from_to client sport)
      shared_hub (λ conn. refl) server_here guest_client client_here sport_group guest_in no_members
      no_packets
