-- ===== src/Database/Redis/Expiry.antt =====
-- What the caches on redis promise, of a redis whose calls do what its documentation says.
use ws_cluster.Common.{
  ℕ, ◌≡◌, refl, ◌∙◌, ap, List, ◌∷◌, Option, none, some, Result, ok, err, redis_nil, same, same_refl,
  if◌then◌else◌,
}
use ws_cluster.Wire.Addr.Text.{decimal}
use ws_cluster.Database.Redis.{
  RedisClient, Json, CachedServer, server_key, servers_redis, set_server, read_server, get_server,
}

abbrev pub value_or_nil : Option (List ℕ) → Result (List ℕ)
value_or_nil none = err redis_nil
value_or_nil (some v) = ok v

-- The value under a key, and how the calls read and change it. A missing key is the error redis.Nil.
pub record Keeps {W : Type 0} (client : RedisClient W) : Type 0 where
  pub value : W → List ℕ → Option (List ℕ)
  pub get_reads : (k : List ℕ) (w : W) → client.get k w ≡ (value_or_nil (value w k), w)
  pub set_writes :
      (k v : List ℕ) (t : ℕ) (w : W)
      → (w' : W) × (client.set k v t w ≡ (ok tt, w'))
        × ((j : List ℕ) → value w' j ≡ (if same k j then some v else value w j))
  pub s_add_adds : (k v : List ℕ) (w : W) → (w' : W) × (client.s_add k v w ≡ (ok tt, w'))

module _ {W : Type 0} (client : RedisClient W) (json : Json CachedServer)
    (keeps : Keeps client) where
  -- GetServer returns a server that SetServer has set, as long as its entry lasts.
  pub get_server-set_server :
      (server : CachedServer) (id c : ℕ) (text : List ℕ) (w : W)
      → server.id ≡ decimal id
      → json.marshal server ≡ c ∷ text
      → json.unmarshal (c ∷ text) ≡ ok server
      → (w' : W) × (set_server client json server w ≡ (ok tt, w'))
        × (get_server client json id w' ≡ (ok (some server), w'))
  unfolding set_server get_server read_server
  get_server-set_server server id c text w is_id marshals unmarshals =
      let (w1, adds) = keeps.s_add_adds servers_redis server.id w in
      let (w2, sets, values) = keeps.set_writes (server_key server.id) (json.marshal server) 9 w1 in
      let key = server_key (decimal id) in
      let there : keeps.value w2 key ≡ some (c ∷ text) =
        values key ∙ rw marshals (rw (ap server_key is_id) (rw (same_refl key) refl)) in
      (w2, rw (adds, sets) refl, rw (keeps.get_reads key w2, there) (rw unmarshals refl))

  -- A server whose entry is gone is the error redis.Nil, and no ID is moved from one set to the other:
  -- the branch for an empty result is not reached for a missing key.
  pub get_server_expired :
      (id : ℕ) (w : W)
      → keeps.value w (server_key (decimal id)) ≡ none
      → get_server client json id w ≡ (err redis_nil, w)
  unfolding get_server
  get_server_expired id w gone = rw (keeps.get_reads (server_key (decimal id)) w, gone) refl
