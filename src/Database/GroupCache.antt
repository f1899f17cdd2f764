-- ===== src/Database/GroupCache.antt =====
-- database/mem_cache.go, MemGroupCache: which clients are in which group, changed by events that one
-- goroutine handles in turn.
pub mod Entries
pub mod Cleaning
pub mod Names
pub mod Membership
use ws_cluster.Common.{
  ℕ, Bool, true, false, List, [], ◌∷◌, ◌++◌, Option, none, some, Dict, Key, lookup, insert, remove,
  has, ◌==◌, if◌then◌else◌,
}

-- Group: its name is the key under which it is stored, and its clients are the keys of a map.
pub record CachedGroup : Type 0 where
  pub name : Key
  pub clients : Dict Bool

-- oper: 1 is a join and 2 a leave.
pub record Oper : Type 0 where
  pub op : ℕ
  pub groups : List Key
  pub client_id : Key

-- What the goroutine receives: an event, or the hour's tick.
pub data Event : Type 0 where
  event : Oper → Event
  tick : Event

abbrev pub Cache : Type 0
Cache = Dict CachedGroup

unfoldable pub join_cached : Key → CachedGroup → CachedGroup
join_cached client g =
    if has client g.clients then g else record g { clients = insert client true g.clients }

unfoldable pub join_one : Key → Key → Cache → Cache
unfolding join_cached
join_one client group c = elim (lookup group c) [
  | none ↦ insert group (join_cached client (record { name = group; clients = [] })) c
  | some g ↦ insert group (join_cached client g) c
]

unfoldable pub leave_one : Key → Key → Cache → Cache
leave_one client group c = elim (lookup group c) [
  | none ↦ c
  | some g ↦
      if has client g.clients
      then insert group (record g { clients = remove client g.clients }) c
      else c
]

unfoldable pub over_groups : (Key → Cache → Cache) → List Key → Cache → Cache
over_groups change [] c = c
over_groups change (group ∷ groups) c = over_groups change groups (change group c)

unfoldable pub handle_oper : Oper → Cache → Cache
unfolding over_groups
handle_oper ev c =
    if ev.op == 1
    then over_groups (join_one ev.client_id) ev.groups c
    else if ev.op == 2
    then over_groups (leave_one ev.client_id) ev.groups c
    else c

abbrev pub is_empty : CachedGroup → Bool
is_empty g = elim g.clients [ [] ↦ true | x ∷ xs ↦ false ]

-- The tick deletes the groups that are empty.
unfoldable pub clean_over : Cache → Cache → Cache
clean_over [] c = c
clean_over ((name, g) ∷ rest) c = clean_over rest (if is_empty g then remove name c else c)

unfoldable pub clean : Cache → Cache
unfolding clean_over
clean c = clean_over c c

unfoldable pub handle_event : Event → Cache → Cache
handle_event (event ev) c = handle_oper ev c
handle_event tick c = clean c

-- Join, Leave, JoinMany and LeaveMany: the events that they send.
unfoldable pub join : Key → Key → Event
join group client = event (record { op = 1; groups = group ∷ []; client_id = client })

unfoldable pub leave : Key → Key → Event
leave group client = event (record { op = 2; groups = group ∷ []; client_id = client })

unfoldable pub join_many : Key → List Key → Event
join_many client groups = event (record { op = 1; groups = groups; client_id = client })

unfoldable pub leave_many : Key → List Key → Event
leave_many client groups = event (record { op = 2; groups = groups; client_id = client })

unfoldable pub keys : Dict Bool → List Key
keys [] = []
keys ((k, v) ∷ m) = k ∷ keys m

unfoldable pub get_group_members : Key → Cache → List Key
unfolding keys
get_group_members group c = elim (lookup group c) [ none ↦ [] | some g ↦ keys g.clients ]

unfoldable pub get_groups : Cache → List Key
get_groups [] = []
get_groups ((k, g) ∷ c) = k ∷ get_groups c
