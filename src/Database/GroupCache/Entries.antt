-- ===== src/Database/GroupCache/Entries.antt =====
-- One change of the cache, seen from one client and one group.
use ws_cluster.Common.{
  Bool, true, false, ◌≡◌, refl, ◌&&◌, List, [], ◌∷◌, Option, none, some, Option-cases, inl, inr,
  Dict, Key, lookup, insert, remove, has, lookup-insert, lookup-remove, same, same→eq,
  if◌then◌else◌, arith,
}
use ws_cluster.Database.GroupCache.{
  CachedGroup, Cache, join_cached, join_one, leave_one, over_groups, keys, get_group_members,
}

abbrev pub contains : Key → List Key → Bool
contains k [] = false
contains k (j ∷ js) = if same j k then true else contains k js

-- Whether a client is in the group, if there is one.
abbrev pub in_entry : Key → Option CachedGroup → Bool
in_entry client none = false
in_entry client (some g) = has client g.clients

has-insert :
    (k j : Key) (v : Bool) (m : Dict Bool)
    → has j (insert k v m) ≡ (if same k j then true else has j m)
has-insert k j v m = ground (arith, lookup-insert k j v m)

has-remove :
    (k j : Key) (m : Dict Bool) → has j (remove k m) ≡ (if same k j then false else has j m)
has-remove k j m = ground (arith, lookup-remove k j m)

contains-keys : (k : Key) (m : Dict Bool) → contains k (keys m) ≡ has k m
unfolding keys lookup
contains-keys k [] = refl
contains-keys k ((j, v) ∷ m) = ground (arith, contains-keys k m)

pub contains-get_group_members :
    (group client : Key) (c : Cache)
    → contains client (get_group_members group c) ≡ in_entry client (lookup group c)
unfolding get_group_members
contains-get_group_members group client c = elim (Option-cases (lookup group c)) [
  | inl e ↦ rw (e, get_group_members)
  | inr (g, e) ↦ rw (e, get_group_members) (contains-keys client g.clients)
]

has-join_cached :
    (k j : Key) (g : CachedGroup)
    → has j (join_cached k g).clients ≡ (if same k j then true else has j g.clients)
unfolding join_cached
has-join_cached k j g = ground (arith, has-insert k j true g.clients, same→eq k j)

pub in_entry-join_one :
    (k group client g : Key) (c : Cache)
    → in_entry client (lookup g (join_one k group c))
      ≡ (if same group g && same k client then true else in_entry client (lookup g c))
unfolding join_one lookup
in_entry-join_one k group client g c = elim (Option-cases (lookup group c)) [
  | inl e ↦
      rw (e, join_one)
        (ground (
          arith,
          lookup-insert group g (join_cached k (record { name = group; clients = [] })) c,
          has-join_cached k client (record { name = group; clients = [] }),
          same→eq group g,
        ))
  | inr (old, e) ↦
      rw (e, join_one)
        (ground (
          arith,
          lookup-insert group g (join_cached k old) c,
          has-join_cached k client old,
          same→eq group g,
        ))
]

pub in_entry-leave_one :
    (k group client g : Key) (c : Cache)
    → in_entry client (lookup g (leave_one k group c))
      ≡ (if same group g && same k client then false else in_entry client (lookup g c))
unfolding leave_one
in_entry-leave_one k group client g c = elim (Option-cases (lookup group c)) [
  | inl e ↦ rw (e, leave_one) (ground (arith, same→eq group g))
  | inr (old, e) ↦
      rw (e, leave_one)
        (ground (
          arith,
          lookup-insert group g (record old { clients = remove k old.clients }) c,
          has-remove k client old.clients,
          same→eq group g,
          same→eq k client,
        ))
]

-- A change that settles one client in one group settles it in each group of a list.
pub in_entry-over_groups :
    (k client g : Key) (v : Bool) (change : Key → Cache → Cache) (groups : List Key) (c : Cache)
    → ((group : Key) (d : Cache)
        → in_entry client (lookup g (change group d))
          ≡ (if same group g && same k client then v else in_entry client (lookup g d)))
    → in_entry client (lookup g (over_groups change groups c))
      ≡ (if contains g groups && same k client then v else in_entry client (lookup g c))
unfolding over_groups
in_entry-over_groups k client g v change [] c one = refl
in_entry-over_groups k client g v change (group ∷ groups) c one =
    ground
      (arith, one group c, in_entry-over_groups k client g v change groups (change group c) one)
