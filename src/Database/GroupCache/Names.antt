-- ===== src/Database/GroupCache/Names.antt =====
-- No two groups of the cache have one name.
use ws_cluster.Common.{
  List, [], ◌∷◌, Option-cases, inl, inr, Key, lookup, remove, has, Unique, insert-Unique,
  remove-Unique, ◌==◌, Bool-cases,
}
use ws_cluster.Database.GroupCache.{
  Event, event, tick, Cache, join_one, leave_one, over_groups, handle_oper, clean, clean_over,
  is_empty, handle_event,
}

-- Each event keeps the names of the groups apart.
join_one-Unique : (k group : Key) (c : Cache) → Unique c → Unique (join_one k group c)
unfolding join_one
join_one-Unique k group c u = elim (Option-cases (lookup group c)) [
  | inl e ↦ rw (e, join_one) (insert-Unique group _ c u)
  | inr (old, e) ↦ rw (e, join_one) (insert-Unique group _ c u)
]

leave_one-Unique : (k group : Key) (c : Cache) → Unique c → Unique (leave_one k group c)
unfolding leave_one
leave_one-Unique k group c u = elim (Option-cases (lookup group c)) [
  | inl e ↦ rw (e, leave_one) u
  | inr (old, e) ↦
      rw (e, leave_one)
        (elim (Bool-cases (has k old.clients)) [
          | inl f ↦ rw f (insert-Unique group _ c u)
          | inr f ↦ rw f u
        ])
]

over_groups-Unique :
    (change : Key → Cache → Cache) (groups : List Key) (c : Cache)
    → ((group : Key) (d : Cache) → Unique d → Unique (change group d))
    → Unique c
    → Unique (over_groups change groups c)
unfolding over_groups
over_groups-Unique change [] c one u = u
over_groups-Unique change (group ∷ groups) c one u =
    over_groups-Unique change groups (change group c) one (one group c u)

clean_over-Unique : (xs c : Cache) → Unique c → Unique (clean_over xs c)
unfolding clean_over
clean_over-Unique [] c u = u
clean_over-Unique ((n, y) ∷ xs) c u = elim (Bool-cases (is_empty y)) [
  | inl e ↦ rw e (clean_over-Unique xs (remove n c) (remove-Unique n c u))
  | inr e ↦ rw e (clean_over-Unique xs c u)
]

pub handle_event-Unique : (ev : Event) (c : Cache) → Unique c → Unique (handle_event ev c)
unfolding handle_event handle_oper clean
handle_event-Unique (event o) c u = elim (Bool-cases (o.op == 1)) [
  | inl e ↦ rw e (over_groups-Unique _ o.groups c (join_one-Unique o.client_id) u)
  | inr e ↦ rw e (elim (Bool-cases (o.op == 2)) [
    | inl f ↦ rw f (over_groups-Unique _ o.groups c (leave_one-Unique o.client_id) u)
    | inr f ↦ rw f u
  ])
]
handle_event-Unique tick c u = clean_over-Unique c c u
