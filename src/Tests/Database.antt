-- ===== src/Tests/Database.antt =====
-- The group cache at concrete inputs.
use ws_cluster.Common.{false, ◌≡◌, List, [], ◌∷◌, Key}
use ws_cluster.Database.GroupCache.{Event, tick, join, leave, join_many, get_group_members}
use ws_cluster.Database.GroupCache.Entries.{contains}
use ws_cluster.Database.GroupCache.Membership.{run, last_word, get_group_members-run}

abbrev lobby : Key
lobby = 114 ∷ []

abbrev ann : Key
ann = 97 ∷ []

abbrev events : List Event
events = join lobby ann ∷ join_many (98 ∷ []) (lobby ∷ ann ∷ []) ∷ tick ∷ leave lobby ann ∷ []

get_group_members-run_example :
    contains ann (get_group_members lobby (run events [])) ≡ last_word lobby ann events false
get_group_members-run_example = get_group_members-run lobby ann events
