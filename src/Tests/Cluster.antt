-- ===== src/Tests/Cluster.antt =====
-- Servers that start, at concrete inputs.
use ws_cluster.Common.{
  ℕ, ◌≡◌, refl, true, List, [], ◌∷◌, ◌++◌, map, some, lookup, ok, same, if◌then◌else◌, arith, All,
}
use ws_cluster.Wire.Addr.Fields.{layout}
use ws_cluster.Wire.Addr.Text.{addr_string, type_char, decimal}
use ws_cluster.Wire.Addr.{addr_type, addr_address, addr_domain, addr_device}
use ws_cluster.Hub.State.{Hub, Server, ServerInfo, query_servers_resp}
use ws_cluster.Hub.Logic.{server_infos, logic_query_servers}
use ws_cluster.Hub.Http.{admitted, refused, bad_request, admit_server}
use ws_cluster.Hub.Cluster.{ConnectHeader, Start, connect_header, start_cluster}
use ws_cluster.Hub.Cluster.Headers.{IsVisible, header_value}
use ws_cluster.Hub.Cluster.Hello.{
  IsServer, IsVisibleServer, server_text, request_read, server_peer, hello_admitted,
}
use ws_cluster.Hub.Cluster.World.{World, dialled_url}
use ws_cluster.Hub.Cluster.Meeting.{call, IsMet, start_cluster-meets}
use ws_cluster.Tests.Http.{token}
use ws_cluster.Tests.Chat.{digit_sum}

abbrev at : ℕ → Server
at n = record {
  addr = layout 2 0 0 (n ∷ []);
  client_url = some (99 ∷ n ∷ []);
  server_url = 115 ∷ n ∷ [];
}

abbrev sound_at : (n : ℕ) → IsServer some (at n)
sound_at n = record {
  domain = 0;
  name = n ∷ [];
  url = 99 ∷ n ∷ [];
  domain_lt = omega arith;
  name_le = omega arith;
  has_addr = refl;
  has_url = refl;
  reads_client = refl;
  reads_server = refl;
}

sound_at-IsVisibleServer : IsVisibleServer (sound_at 49)
sound_at-IsVisibleServer = record {
  name_visible = ((omega arith, omega arith), tt);
  url_visible = ((omega arith, omega arith), ((omega arith, omega arith), tt));
  server_url_visible = ((omega arith, omega arith), ((omega arith, omega arith), tt));
}

digit_sum-visible : (t : List ℕ) → All IsVisible (digit_sum t)
digit_sum-visible t = ((omega arith, omega arith), tt)

-- A name with a blank at its end is sent without it.
blank_is_lost : header_value (b'/' ∷ b'a' ∷ b' ' ∷ []) ≡ b'/' ∷ b'a' ∷ []
unfolding header_value
blank_is_lost = refl

hello_admitted_example :
    (header : ConnectHeader) × (connect_header digit_sum token (at 49) ≡ ok header)
    × (admit_server digit_sum token (some 6) (request_read some header) ≡ (
        if same
          (digit_sum (server_text (sound_at 49) ++ token))
          (digit_sum (server_text (sound_at 49) ++ token))
        then admitted (server_peer 6 (at 49))
        else refused bad_request))
hello_admitted_example =
    hello_admitted digit_sum token (sound_at 49) sound_at-IsVisibleServer digit_sum-visible token 6

abbrev hub_with : ℕ → List ℕ → Hub
hub_with n peers = record {
  server = at n;
  client_peers = [];
  server_peers = map (λ p. ((at p).addr, server_peer p (at p))) peers;
  groups = [];
  location = [];
  connected = λ conn. true;
  sent = [];
}

-- Server 1 starts, with server 2 as its seed, which knows server 3.
abbrev starting : Start World
starting = record {
  hub = hub_with 49 [];
  world =
      (dialled_url (at 50), hub_with 50 (51 ∷ []))
      ∷ (dialled_url (at 51), hub_with 51 (50 ∷ []))
      ∷ [];
}

-- "/s/0/0/" and the name.
abbrev info_at : ℕ → ServerInfo
info_at n = record {
  addr = 47 ∷ 115 ∷ 47 ∷ 48 ∷ 47 ∷ 48 ∷ 47 ∷ n ∷ [];
  client_url = 99 ∷ n ∷ [];
  server_url = 115 ∷ n ∷ [];
}

abbrev listed : List ServerInfo
listed = info_at 50 ∷ info_at 51 ∷ []

seed_answers : logic_query_servers (hub_with 50 (51 ∷ [])) ≡ ok (query_servers_resp listed)
unfolding logic_query_servers server_infos addr_string addr_type addr_address type_char decimal
    addr_domain addr_device
seed_answers = refl

found_second : lookup (dialled_url (at 50)) starting.world ≡ some (hub_with 50 (51 ∷ []))
unfolding lookup same
found_second = refl

found_third : lookup (dialled_url (at 51)) starting.world ≡ some (hub_with 51 (50 ∷ []))
unfolding lookup same
found_third = refl

start_cluster-meets_example :
    (s' : Start World) × (start_cluster digit_sum
        (call some digit_sum token (λ url. 6) 3 8)
        some
        (λ url. ok listed)
        token
        (1 ∷ [])
        starting
      ≡ (ok tt, s'))
    × All
        (IsMet some digit_sum token
          (λ url. 6)
          3
          8
          (sound_at 49)
          sound_at-IsVisibleServer
          digit_sum-visible
          s')
        (at 50 ∷ at 51 ∷ [])
start_cluster-meets_example =
    start_cluster-meets some digit_sum token (λ url. 6) 3 8 (sound_at 49) sound_at-IsVisibleServer
      digit_sum-visible (λ url. ok listed) (1 ∷ []) (hub_with 50 (51 ∷ [])) listed starting refl
      refl
      (
        (sound_at 50, (hub_with 50 (51 ∷ []), found_second, tt)),
        ((sound_at 51, (hub_with 51 (50 ∷ []), found_third, tt)), tt),
      )
      seed_answers refl
