-- ===== src/Database/Redis.antt =====
-- database/redis_cache.go: the caches of clients and servers on redis. The redis client is a parameter
-- over a world `W`, and so is the JSON of a client and of a server.
pub mod Expiry
use ws_cluster.Common.{
  ℕ, ◌+◌, ◌-◌, ◌*◌, ◌^◌, Bool, true, false, List, [], ◌∷◌, ◌++◌, Option, none, some, Result, ok,
  err, M, ◌>>=◌, ◌>>◌, pure, throw, lift, for_each, ignore, leb, ltb, ◌==◌, ◌&&◌, ◌||◌,
  if◌then◌else◌,
}
use ws_cluster.Wire.Addr.Text.{decimal}

-- The calls of *redis.Client that the caches make; times are seconds.
pub record RedisClient (W : Type 0) : Type 0 where
  pub set : List ℕ → List ℕ → ℕ → M W (Unit {0})
  pub get : List ℕ → M W (List ℕ)
  pub del : List ℕ → M W ℕ
  pub exists_ : List ℕ → M W ℕ
  pub s_add : List ℕ → List ℕ → M W (Unit {0})
  pub s_move : List ℕ → List ℕ → List ℕ → M W (Unit {0})
  pub s_members : List ℕ → M W (List (List ℕ))

-- `json.Marshal`, of which the code does not read the error, and `json.Unmarshal`.
pub record Json (A : Type 0) : Type 0 where
  pub marshal : A → List ℕ
  pub unmarshal : List ℕ → Result A

-- Client and Server of database/entity.go.
pub record CachedClient : Type 0 where
  pub id : List ℕ
  pub peer_id : List ℕ
  pub server_id : List ℕ
  pub login_at : ℕ

pub record CachedServer : Type 0 where
  pub id : List ℕ
  pub host : List ℕ
  pub port : ℕ
  pub client_num : ℕ
  pub start_at : ℕ
  pub out_servers : List (List ℕ × List ℕ)

-- "Client_" and "Server_" before an ID, and the names of the two sets.
unfoldable pub client_key : List ℕ → List ℕ
client_key id = b'C' ∷ b'l' ∷ b'i' ∷ b'e' ∷ b'n' ∷ b't' ∷ b'_' ∷ id

unfoldable pub server_key : List ℕ → List ℕ
server_key id = b'S' ∷ b'e' ∷ b'r' ∷ b'v' ∷ b'e' ∷ b'r' ∷ b'_' ∷ id

abbrev pub servers_redis : List ℕ
servers_redis = b'S' ∷ b'e' ∷ b'r' ∷ b'v' ∷ b'e' ∷ b'r' ∷ b'_' ∷ b'L' ∷ b'i' ∷ b's' ∷ b't' ∷ []

abbrev pub servers_down_redis : List ℕ
servers_down_redis =
    b'S' ∷ b'e' ∷ b'r' ∷ b'v' ∷ b'e' ∷ b'r' ∷ b'_' ∷ b'D' ∷ b'o' ∷ b'w' ∷ b'n' ∷ b'_' ∷ b'L' ∷ b'i'
    ∷ b's' ∷ b't' ∷ []

-- A digit in the bases up to 16, or none.
abbrev pub digit_value : ℕ → Option ℕ
digit_value c =
    if leb b'0' c && leb c b'9'
    then some (c - b'0')
    else if leb b'a' c && leb c b'z'
    then some (c - b'a' + 10)
    else if leb b'A' c && leb c b'Z'
    then some (c - b'A' + 10)
    else none

-- The value so far on a syntax error is 0, and out of range the largest uint64.
unfoldable pub scan_base : ℕ → ℕ → List ℕ → ℕ
scan_base base n [] = n
scan_base base n (c ∷ s) = elim (digit_value c) [
  | none ↦ 0
  | some d ↦ if leb base d then 0 else elim (leb (2 ^ 64) (n * base + d)) [
    | true ↦ 2 ^ 64 - 1
    | false ↦ scan_base base (n * base + d) s
  ]
]

abbrev pub is_hex_mark : ℕ → Bool
is_hex_mark c = c == b'x' || c == b'X'

-- The value of `strconv.ParseUint(s, 0, 64)` (go 1.12), whatever its error.
unfoldable pub parse_id : List ℕ → ℕ
unfolding scan_base
parse_id [] = 0
parse_id (c ∷ []) = scan_base (if c == b'0' then 8 else 10) 0 (if c == b'0' then [] else c ∷ [])
parse_id (c ∷ d ∷ s) =
    if c == b'0'
    then elim (is_hex_mark d) [
      | true ↦ elim s [ [] ↦ 0 | e ∷ digits ↦ scan_base 16 0 (e ∷ digits) ]
      | false ↦ scan_base 8 0 (d ∷ s)
    ]
    else scan_base 10 0 (c ∷ d ∷ s)

module _ {W : Type 0} (client : RedisClient W) (json : Json CachedClient) where
  unfoldable pub add_client : CachedClient → M W (Unit {0})
  unfolding client_key
  add_client c = client.set (client_key c.id) (json.marshal c) (6 * 3600)

  unfoldable pub del_client : List ℕ → M W ℕ
  unfolding client_key
  del_client id = client.del (client_key id)

  unfoldable pub get_client : List ℕ → M W CachedClient
  unfolding client_key
  get_client id = do str ← client.get (client_key id); lift (json.unmarshal str)

module _ {W : Type 0} (client : RedisClient W) (json : Json CachedServer) where
  -- An entry lasts nine seconds.
  unfoldable pub set_server : CachedServer → M W (Unit {0})
  unfolding server_key
  set_server server = do
    client.s_add servers_redis server.id
    client.set (server_key server.id) (json.marshal server) 9

  -- The result of SMove is not read.
  abbrev move_down : List ℕ → M W (Unit {0})
  move_down id = ignore tt (client.s_move servers_redis servers_down_redis id)

  -- The server of an entry; none where it is empty.
  unfoldable pub read_server : List ℕ → List ℕ → M W (Option CachedServer)
  read_server id [] = do move_down id; pure none
  read_server id (c ∷ res) = do server ← lift (json.unmarshal (c ∷ res)); pure (some server)

  unfoldable pub get_server : ℕ → M W (Option CachedServer)
  unfolding server_key read_server decimal
  get_server id = do res ← client.get (server_key (decimal id)); read_server (decimal id) res

  unfoldable pub del_server : ℕ → M W (Unit {0})
  unfolding server_key decimal
  del_server id = do
    move_down (decimal id)
    affected ← client.del (server_key (decimal id))
    pure tt

  abbrev add_found : Option CachedServer → List CachedServer → List CachedServer
  add_found none servers = servers
  add_found (some server) servers = server ∷ servers

  -- Of the IDs in the set, the servers that have an entry; an error of GetServer is passed over.
  unfoldable pub collect_servers : List (List ℕ) → M W (List CachedServer)
  unfolding get_server parse_id
  collect_servers [] = pure []
  collect_servers (id ∷ ids) = do
    server ← ignore none (get_server (parse_id id))
    servers ← collect_servers ids
    pure (add_found server servers)

  unfoldable pub get_servers : M W (List CachedServer)
  unfolding collect_servers
  get_servers = do ids ← client.s_members servers_redis; collect_servers ids

  -- An error of Exists counts as 0.
  unfoldable pub clean_server : List ℕ → M W (Unit {0})
  unfolding server_key
  clean_server id = do
    val ← ignore 0 (client.exists_ (server_key id))
    if val == 0 then move_down id else pure tt

  unfoldable pub clean_servers : M W (Unit {0})
  unfolding clean_server
  clean_servers = do
    ids ← client.s_members servers_redis
    for_each ids clean_server
    affected ← ignore 0 (client.del servers_down_redis)
    pure tt
