-- ===== src/Tests/Delivery.antt =====
-- A message between two clients at concrete inputs.
use ws_cluster.Common.{
  ℕ, ◌≡◌, ◌≤◌, refl, true, List, [], ◌∷◌, ◌++◌, length, none, some, ok, lookup, same, for_each,
  arith,
}
use ws_cluster.Wire.Addr.{addr_type, addr_client, addr_server}
use ws_cluster.Wire.Message.{Message, make_empty_resp_message}
use ws_cluster.Wire.Addr.{Addr}
use ws_cluster.Wire.Addr.Fields.{layout}
use ws_cluster.Wire.Message.RoundTrip.{IsMessage}
use ws_cluster.Peer.Outbound.{Sender, with_seq, write_message, read_frames}
use ws_cluster.Peer.Outbound.Delivery.{sound}
use ws_cluster.Hub.State.{Hub, ServerPeer, pushed, answered}
use ws_cluster.Hub.Output.Open.{pushes}
use ws_cluster.Hub.Peers.Remote.{remote_message_delivered}
use ws_cluster.Hub.Peers.Moved.{moved_client_lost}
use ws_cluster.Hub.Relay.{is_type, loc_message}
use ws_cluster.Hub.Logic.Located.{done, not_here}
use ws_cluster.Hub.Peers.{client_on_message, server_on_message}
use ws_cluster.Hub.Peers.Delivery.{client_message_delivered}
use ws_cluster.Tests.Wire.{client, server}
use ws_cluster.Tests.Hub.{hub_of, peer_of, guest, other_server, server_at}
use ws_cluster.Tests.Store.{from_to}

abbrev message : Message
message = from_to client guest

abbrev pub shared_hub : Hub
shared_hub =
    hub_of server other_server ((client, peer_of client 1) ∷ (guest, peer_of guest 3) ∷ [])
      (λ conn. true)

pub server_here : is_type shared_hub.server.addr addr_server ≡ true
unfolding is_type addr_type
server_here = refl

pub client_here : is_type (peer_of client 1).addr addr_client ≡ true
unfolding is_type addr_type
client_here = refl

guest_here : is_type message.header.dest addr_client ≡ true
unfolding is_type addr_type
guest_here = refl

guest_found : lookup message.header.dest shared_hub.client_peers ≡ some (peer_of guest 3)
unfolding lookup same
guest_found = refl

client_message_delivered_example :
    (h' : Hub) × (client_on_message 4 8 (peer_of client 1) message shared_hub ≡ (ok tt, h'))
    × (h'.sent
        ≡ pushed 3 message
          ∷ answered 8 done
          ∷ pushed 1 (make_empty_resp_message message.header 200)
          ∷ [])
client_message_delivered_example =
    client_message_delivered 4 8 (peer_of client 1) (peer_of guest 3) message shared_hub
      (λ conn. refl) server_here client_here guest_here guest_found

-- Two servers: the client is at the first, which has noted that the guest is at the second.
abbrev near : Hub
near = record (hub_of server other_server ((client, peer_of client 1) ∷ []) (λ conn. true)) {
  location = (guest, other_server) ∷ [];
}

abbrev far : Hub
far = hub_of other_server server ((guest, peer_of guest 3) ∷ []) (λ conn. true)

abbrev peer_at : Addr → ServerPeer
peer_at addr = record { addr = addr; conn = 50; server = server_at addr }

message-IsMessage : IsMessage message
message-IsMessage = record {
  header_ok = record {
    source_size = refl;
    dest_size = refl;
    seq_bound = omega arith;
    ack_seq_bound = omega arith;
  };
  body_ok = (omega arith, omega arith);
  command_ok = refl;
}

near_type : is_type near.server.addr addr_server ≡ true
unfolding is_type addr_type
near_type = refl

far_type : is_type far.server.addr addr_server ≡ true
unfolding is_type addr_type
far_type = refl

guest_away : lookup guest near.client_peers ≡ none
unfolding lookup same
guest_away = refl

guest_noted : lookup guest near.location ≡ some far.server.addr
unfolding lookup same
guest_noted = refl

far_known : lookup far.server.addr near.server_peers ≡ some (peer_at other_server)
unfolding lookup same
far_known = refl

guest_there : lookup guest far.client_peers ≡ some (peer_of guest 3)
unfolding lookup same
guest_there = refl

remote_message_delivered_example :
    (a' : Hub) × (client_on_message 4 8 (peer_of client 1) message near ≡ (ok tt, a'))
    × (a'.sent
        ≡ pushed 50 message
          ∷ answered 8 not_here
          ∷ pushed 1 (make_empty_resp_message message.header 200)
          ∷ [])
    × (w : Sender) × (for_each
          (message ∷ [])
          (write_message sound)
          (record { auto_seq = 6; frames = [] })
        ≡ (ok tt, w))
    × (k : ℕ) × (read_frames 10240 server w.frames ≡ some (with_seq k message ∷ []))
    × (b' : Hub) × (server_on_message 4 9 (peer_at server) (with_seq k message) far ≡ (ok tt, b'))
    × (conns : List ℕ) × (length conns ≤ 1)
    × (b'.sent
        ≡ pushes (loc_message client guest other_server server) conns
          ++ (pushed 3 (with_seq k message) ∷ answered 9 done ∷ []))
remote_message_delivered_example =
    remote_message_delivered 4 8 9 6 10240 (peer_of client 1) (peer_of guest 3)
      (peer_at other_server) (peer_at server) message near far (λ conn. refl) (λ conn. refl)
      near_type far_type client_here client_here guest_here message-IsMessage (omega arith)
      guest_away guest_noted far_known refl guest_there

-- The guest has left the second server, and writes from a third one.
abbrev third_server : Addr
third_server = layout 2 0 0 (51 ∷ [])

third_type : is_type third_server addr_server ≡ true
unfolding is_type addr_type
third_type = refl

abbrev left : Hub
left = hub_of other_server server [] (λ conn. true)

client_found : lookup client near.client_peers ≡ some (peer_of client 1)
unfolding lookup same
client_found = refl

guest_gone : lookup guest left.client_peers ≡ none
unfolding lookup
guest_gone = refl

abbrev news : Message
news = from_to guest client

moved_client_lost_example :
    (a1 : Hub) × (server_on_message 4 7 (peer_at third_server) news near ≡ (ok tt, a1))
    × (a1.sent ≡ pushed 1 news ∷ answered 7 done ∷ [])
    × (a2 : Hub) × (client_on_message 4 8 (peer_of client 1) message a1 ≡ (ok tt, a2))
    × (a2.sent
        ≡ a1.sent
          ++ (pushed 50 message
              ∷ answered 8 not_here
              ∷ pushed 1 (make_empty_resp_message message.header 200)
              ∷ []))
    × (b1 : Hub) × (server_on_message 4 9 (peer_at server) message left ≡ (ok tt, b1))
    × (b1.sent ≡ answered 9 not_here ∷ [])
moved_client_lost_example =
    moved_client_lost 4 7 8 9 (peer_of client 1) (peer_at third_server) (peer_at server)
      (peer_at other_server) news message near left (λ conn. refl) near_type far_type third_type
      near_type client_here guest_here client_here client_here refl client_found guest_away
      guest_noted far_known guest_gone
