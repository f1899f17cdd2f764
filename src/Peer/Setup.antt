-- ===== src/Peer/Setup.antt =====
-- peer/peer.go, NewPeer: the settings of a peer. Durations are numbers of nanoseconds below
-- 2 ^ 63 / 9, where the code's arithmetic on them does not overflow.
use ws_cluster.Common.{ℕ, ◌*◌, ◌/◌, ◌^◌, ◌<◌, ◌≤◌, ◌≡◌, ◌≢◌, leb, ◌==◌, if◌then◌else◌, arith}

-- Config, but for the listeners.
pub record Config : Type 0 where
  pub write_wait : ℕ
  pub pong_wait : ℕ
  pub ping_period : ℕ
  pub max_message_size : ℕ

abbrev pub default_write_wait : ℕ
default_write_wait = 10 * 10 ^ 9

abbrev pub default_pong_wait : ℕ
default_pong_wait = 20 * 10 ^ 9

abbrev pub default_ping_period : ℕ
default_ping_period = 10 * 10 ^ 9

abbrev pub default_max_message_size : ℕ
default_max_message_size = 1024

-- A field that is zero takes its default.
abbrev pub or_default : ℕ → ℕ → ℕ
or_default default_ n = if n == 0 then default_ else n

abbrev pub ping_below : ℕ → ℕ → ℕ
ping_below pong ping = if leb pong ping then pong * 9 / 10 else ping

unfoldable pub new_config : Config → Config
new_config config =
    let pong = or_default default_pong_wait config.pong_wait in
    record {
      write_wait = or_default default_write_wait config.write_wait;
      pong_wait = pong;
      ping_period = ping_below pong (or_default default_ping_period config.ping_period);
      max_message_size = or_default default_max_message_size config.max_message_size;
    }

same_config :
    (a b c d a' b' c' d' : ℕ)
    → a ≡ a'
    → b ≡ b'
    → c ≡ c'
    → d ≡ d'
    → Path Config
        (record { write_wait = a; pong_wait = b; ping_period = c; max_message_size = d })
        (record { write_wait = a'; pong_wait = b'; ping_period = c'; max_message_size = d' })
same_config a b c d a' b' c' d' e f g h = rw (e, f, g, h)

or_default-positive : (d n : ℕ) → 0 < d → 0 < or_default d n
or_default-positive d n h = ground arith

or_default-kept : (d n : ℕ) → 0 < n → or_default d n ≡ n
or_default-kept d n h = ground arith

ping_below-less : (pong ping : ℕ) → 0 < pong → ping_below pong ping < pong
ping_below-less pong ping h = ground arith

ping_below-positive : (pong ping : ℕ) → 2 ≤ pong → 0 < ping → 0 < ping_below pong ping
ping_below-positive pong ping h g = ground arith

ping_below-kept : (pong ping : ℕ) → ping < pong → ping_below pong ping ≡ ping
ping_below-kept pong ping h = ground arith

ping_below-again :
    (p x : ℕ)
    → 0 < p
    → 0 < x
    → x < p
    → ping_below (or_default default_pong_wait p) (or_default default_ping_period x) ≡ x
ping_below-again p x hp hx less =
    rw (or_default-kept default_pong_wait p hp, or_default-kept default_ping_period x hx)
      (ping_below-kept p x less)

-- Unless the wait for a pong is 1 nanosecond, NewPeer makes settings that are all positive, with
-- pings sooner than that wait, and the settings of one peer, given to another, stay the same.
pub new_config-bounds :
    (config : Config)
    → config.pong_wait ≢ 1
    → (0 < (new_config config).write_wait)
      × (0 < (new_config config).ping_period)
      × ((new_config config).ping_period < (new_config config).pong_wait)
      × (0 < (new_config config).max_message_size)
      × (new_config (new_config config) ≡ new_config config)
unfolding new_config
new_config-bounds config h =
    let write = or_default-positive default_write_wait config.write_wait (omega arith) in
    let pong = or_default-positive default_pong_wait config.pong_wait (omega arith) in
    let size = or_default-positive default_max_message_size config.max_message_size (omega arith) in
    let p = or_default default_pong_wait config.pong_wait in
    let q = or_default default_ping_period config.ping_period in
    let less = ping_below-less p q pong in
    let two : 2 ≤ p = ground arith in
    let ping =
      ping_below-positive p q two
        (or_default-positive default_ping_period config.ping_period (omega arith)) in
    (
      write,
      ping,
      less,
      size,
      same_config _ _ _ _ _ _ _ _ (or_default-kept _ _ write) (or_default-kept _ _ pong)
          (ping_below-again p (ping_below p q) pong ping less) (or_default-kept _ _ size),
    )
