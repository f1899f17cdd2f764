-- ===== src/Tests/Start.antt =====
-- The start of a server, and its command line, at concrete inputs.
use ws_cluster.Common.{
  ℕ, ◌≡◌, ◌⊎◌, ◌↔◌, refl, true, false, List, [], ◌∷◌, ◌++◌, none, some, ok, err, panicked, lookup,
  insert, same, pure,
}
use mathlib.Core.Option
use ws_cluster.Wire.Addr.{new_server_addr}
use ws_cluster.Queue
use ws_cluster.Queue.{queue_packet}
use ws_cluster.Hub.State.{Packet, add_server_peer}
use ws_cluster.Hub.Intake.{Intake, take_packet}
use ws_cluster.Hub.Config.Flags.{
  codes, parse_flags, text_var, int_var, duration_var, get_text, get_number,
}
use ws_cluster.Hub.Config.{Machine, load_config, listen_port}
use ws_cluster.Hub.Cluster.Hello.{server_peer}
use ws_cluster.Hub.Start.{Started, main_hub, check_origin}
use ws_cluster.Hub.Start.Origins.{check_origin_iff}
use ws_cluster.Hub.Start.Outcome.{main_hub-logs_nothing}

-- A machine with a network, whose clock is at 7, and on which every text is a URL.
abbrev machine : Machine
machine = record {
  client_ksuid = codes "kc";
  server_ksuid = codes "ks";
  now = 7;
  int_value = λ t. none;
  duration_value = λ t. none;
  parse_url = some;
  format_url = λ scheme host. scheme ++ (codes "://" ++ host);
  outbound_ip = some (codes "10.0.0.1");
  join_path = λ dir name. dir ++ (b'/' ∷ name);
  has_file = λ dir. false;
  can_make = λ dir. true;
}

abbrev args : List (List ℕ × List ℕ)
args = (codes "db-source", codes "root@db") ∷ (codes "server-id", codes "1") ∷ []

started : (s : Started (List ℕ)) × (main_hub {S = ℕ} machine (λ source. ok 1) some args ≡ ok s)
unfolding main_hub load_config lookup insert same parse_flags text_var int_var duration_var get_text
    get_number listen_port new_server_addr
started = (_, refl)

abbrev relay : Packet
relay = record {
  from = [];
  content = add_server_peer (server_peer 1 started.0.hub.server);
  resp = none;
}

abbrev idle : Intake (List ℕ)
idle = record { log = started.0.log; queue = Queue.start; answers = [] }

main_hub-logs_nothing_example :
    take_packet (λ bytes. pure tt) relay idle
    ≡ Option.map (λ q. record idle { queue = q }) (queue_packet relay idle.queue)
main_hub-logs_nothing_example =
    main_hub-logs_nothing machine (λ source. ok 1) some args started.0 started.1 (λ bytes. pure tt)
      relay idle refl

-- A part of the only site that is meant.
check_origin_iff_example : (check_origin (codes "http://a.example") (codes "http://a") ≡ true) ↔ (
    (codes "http://a.example" ≡ b'*' ∷ [])
    ⊎ ((before : List ℕ) × (rest : List ℕ) × (codes "http://a.example"
          ≡ before ++ (codes "http://a" ++ rest))))
check_origin_iff_example = check_origin_iff (codes "http://a.example") (codes "http://a")

-- Without a colon in the host, LoadConfig panics.
no_port :
    main_hub {S = ℕ} machine (λ source. ok 1) some ((codes "listen-host", codes "8380") ∷ [])
    ≡ err panicked
unfolding main_hub load_config lookup insert same parse_flags text_var int_var duration_var get_text
    get_number listen_port new_server_addr
no_port = refl
