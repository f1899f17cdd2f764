-- ===== src/Hub/Config.antt =====
-- hub/config.go, LoadConfig, with what it uses of the package flag: each flag is a variable, which
-- holds the default until flag.Parse has read the command line.
pub mod Flags
use ws_cluster.Common.{
  ℕ, ◌*◌, ◌^◌, List, [], ◌∷◌, ◌++◌, Option, none, some, Result, ok, err, panicked, invalid_url,
  no_directory, M, ◌>>=◌, ◌>>◌, pure, lift, Bool, if◌then◌else◌, get_elem?, length,
}
use ws_cluster.Wire.Addr.Text.{decimal}
use ws_cluster.Wire.Addr.Parse.{split_n}
use ws_cluster.Hub.Http.{is_empty_text}
use ws_cluster.Hub.Config.Flags.{
  codes, FlagSet, text_var, int_var, duration_var, get_text, get_number, parse_flags,
}

-- The URLs are texts. `group_buffer_size` and the numbers of PeerConfig are 64-bit patterns.
pub record ServerConfig : Type 0 where
  pub id : List ℕ
  pub listen_host : List ℕ
  pub client_url : List ℕ
  pub server_url : List ℕ
  pub client_token : List ℕ
  pub server_token : List ℕ
  pub cluster_seed_url : List ℕ
  pub origins : List ℕ
  pub message_file : List ℕ
  pub group_buffer_size : ℕ

pub record PeerConfig : Type 0 where
  pub max_message_size : ℕ
  pub write_wait : ℕ
  pub pong_wait : ℕ
  pub ping_period : ℕ

pub record DatabaseConfig : Type 0 where
  pub db_driver : List ℕ
  pub db_source : List ℕ

-- Config. Its `ms` is set by Main alone.
pub record Config : Type 0 where
  pub sc : ServerConfig
  pub dc : Option DatabaseConfig
  pub cpc : PeerConfig
  pub data_dir : List ℕ

-- What the machine and the packages give: two new ksuids, the clock in seconds, the values of a number
-- and of a duration in a text, the text of a parsed URL and of one of a scheme and a host, the
-- address of GetOutboundIP, where there is a network, and what os and filepath do.
pub record Machine : Type 0 where
  pub client_ksuid : List ℕ
  pub server_ksuid : List ℕ
  pub now : ℕ
  pub int_value : List ℕ → Option ℕ
  pub duration_value : List ℕ → Option ℕ
  pub parse_url : List ℕ → Option (List ℕ)
  pub format_url : List ℕ → List ℕ → List ℕ
  pub outbound_ip : Option (List ℕ)
  pub join_path : List ℕ → List ℕ → List ℕ
  pub has_file : List ℕ → Bool
  pub can_make : List ℕ → Bool

-- `strings.Split(conf.sc.ListenHost, ":")[1]`
unfoldable pub listen_port : List ℕ → Result (List ℕ)
unfolding split_n
listen_port host = elim (get_elem? (split_n b':' (length host) host) 1) [
  | none ↦ err panicked
  | some port ↦ ok port
]

module _ (m : Machine) where
  -- The flags, up to flag.Parse; the value is what `dbsource` gets.
  unfoldable pub declare_flags : M FlagSet (List ℕ)
  declare_flags = do
    text_var (codes "server-id") []
    text_var (codes "listen-host") (codes "0.0.0.0:8380")
    text_var (codes "origins") (codes "*")
    text_var (codes "client-token") m.client_ksuid
    text_var (codes "server-token") m.server_ksuid
    text_var (codes "cluster-seed-url") []
    int_var (codes "group-buffer-size") 10
    text_var (codes "advertise-client-url") []
    text_var (codes "advertise-server-url") []
    int_var (codes "client-max-msg-size") 2048
    duration_var (codes "client-write-wait") (10 * 10 ^ 9)
    duration_var (codes "client-ping-period") (10 * 10 ^ 9)
    duration_var (codes "client-pong-wait") (10 * 10 ^ 9)
    text_var (codes "db-source") []
    dbsource ← get_text (codes "db-source")
    text_var (codes "data-dir") (codes "./data")
    pure dbsource

  -- A URL of the command line, or the one of this machine. GetOutboundIP panics without a network.
  unfoldable pub advertised : List ℕ → List ℕ → Result (List ℕ)
  advertised url port =
      if is_empty_text url
      then elim m.outbound_ip [
        | none ↦ err panicked
        | some ip ↦ ok (m.format_url (codes "ws") (ip ++ (b':' ∷ port)))
      ]
      else elim (m.parse_url url) [ none ↦ err invalid_url | some text ↦ ok text ]

  unfoldable pub make_data_dir : List ℕ → Result (Unit {0})
  make_data_dir dir =
      if m.has_file dir then ok tt else if m.can_make dir then ok tt else err no_directory

  unfoldable pub or_time : List ℕ → List ℕ
  or_time id = if is_empty_text id then decimal m.now else id

  unfoldable pub server_config : M FlagSet ServerConfig
  unfolding listen_port advertised make_data_dir or_time
  server_config = do
    host ← get_text (codes "listen-host")
    port ← lift (listen_port host)
    client ← get_text (codes "advertise-client-url")
    client_url ← lift (advertised client port)
    server ← get_text (codes "advertise-server-url")
    server_url ← lift (advertised server port)
    dir ← get_text (codes "data-dir")
    lift (make_data_dir dir)
    id ← get_text (codes "server-id")
    client_token ← get_text (codes "client-token")
    server_token ← get_text (codes "server-token")
    seed ← get_text (codes "cluster-seed-url")
    origins ← get_text (codes "origins")
    size ← get_number (codes "group-buffer-size")
    pure (record {
      id = or_time id;
      listen_host = host;
      client_url = client_url;
      server_url = server_url;
      client_token = client_token;
      server_token = server_token;
      cluster_seed_url = seed;
      origins = origins;
      message_file = m.join_path dir (codes "message.log");
      group_buffer_size = size;
    })

  unfoldable pub peer_config : M FlagSet PeerConfig
  peer_config = do
    size ← get_number (codes "client-max-msg-size")
    write ← get_number (codes "client-write-wait")
    pong ← get_number (codes "client-pong-wait")
    ping ← get_number (codes "client-ping-period")
    pure (record {
      max_message_size = size;
      write_wait = write;
      pong_wait = pong;
      ping_period = ping;
    })

  -- The flag for the driver is declared behind flag.Parse, and keeps its default.
  unfoldable pub database_config : List ℕ → M FlagSet (Option DatabaseConfig)
  database_config dbsource = if is_empty_text dbsource then pure none else (do
    text_var (codes "db-driver") (codes "mysql")
    driver ← get_text (codes "db-driver")
    pure (some (record { db_driver = driver; db_source = dbsource })))

  -- The command line as pairs of a flag and the text of its value.
  unfoldable pub load_config : List (List ℕ × List ℕ) → M FlagSet Config
  unfolding declare_flags server_config peer_config database_config
  load_config args = do
    dbsource ← declare_flags
    parse_flags m.int_value m.duration_value args
    sc ← server_config
    cpc ← peer_config
    dc ← database_config dbsource
    dir ← get_text (codes "data-dir")
    pure (record { sc = sc; dc = dc; cpc = cpc; data_dir = dir })
