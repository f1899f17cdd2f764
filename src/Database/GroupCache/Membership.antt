-- ===== src/Database/GroupCache/Membership.antt =====
-- Who is in which group after any events.
use ws_cluster.Common.{
  Bool, true, false, ◌≡◌, refl, ◌∙◌, ap, ◌&&◌, List, [], ◌∷◌, inl, inr, Key, lookup, same, Unique,
  ◌==◌, if◌then◌else◌, arith, Bool-cases,
}
use ws_cluster.Database.GroupCache.{
  Event, event, tick, Cache, join_one, leave_one, handle_oper, clean, handle_event,
  get_group_members,
}
use ws_cluster.Database.GroupCache.Entries.{
  contains, in_entry, contains-get_group_members, in_entry-join_one, in_entry-leave_one,
  in_entry-over_groups,
}
use ws_cluster.Database.GroupCache.Cleaning.{Unique-Gone, in_entry-clean_over}
use ws_cluster.Database.GroupCache.Names.{handle_event-Unique}

-- What an event says of a client and a group, where before it the client was in the group or not.
abbrev pub says : Key → Key → Event → Bool → Bool
says group client tick before = before
says group client (event o) before =
    if contains group o.groups && same o.client_id client
    then (if o.op == 1 then true else if o.op == 2 then false else before)
    else before

in_entry-handle_event :
    (group client : Key) (ev : Event) (c : Cache)
    → Unique c
    → in_entry client (lookup group (handle_event ev c))
      ≡ says group client ev (in_entry client (lookup group c))
unfolding handle_event handle_oper clean
in_entry-handle_event group client tick c u =
    in_entry-clean_over client group c c (Unique-Gone client c u)
in_entry-handle_event group client (event o) c u = elim (Bool-cases (o.op == 1)) [
  | inl e ↦ rw e (
      in_entry-over_groups o.client_id client group true (join_one o.client_id) o.groups c
        (λ g d. in_entry-join_one o.client_id g client group d))
  | inr e ↦ elim (Bool-cases (o.op == 2)) [
    | inl f ↦
        rw (e, f)
          (in_entry-over_groups o.client_id client group false (leave_one o.client_id) o.groups c
            (λ g d. in_entry-leave_one o.client_id g client group d))
    | inr f ↦ rw (e, f) (ground arith)
  ]
]

-- The cache after some events, and what the last of them to name a client and a group says.
abbrev pub run : List Event → Cache → Cache
run [] c = c
run (ev ∷ evs) c = run evs (handle_event ev c)

abbrev pub last_word : Key → Key → List Event → Bool → Bool
last_word group client [] before = before
last_word group client (ev ∷ evs) before = last_word group client evs (says group client ev before)

run-last_word :
    (group client : Key) (evs : List Event) (c : Cache)
    → Unique c
    → in_entry client (lookup group (run evs c))
      ≡ last_word group client evs (in_entry client (lookup group c))
run-last_word group client [] c u = refl
run-last_word group client (ev ∷ evs) c u =
    run-last_word group client evs (handle_event ev c) (handle_event-Unique ev c u)
    ∙ ap (last_word group client evs) (in_entry-handle_event group client ev c u)

-- After any events on an empty cache, GetGroupMembers lists a client for a group exactly if the last
-- event that names both is a join; the hourly deletion of empty groups never changes that.
pub get_group_members-run :
    (group client : Key) (evs : List Event)
    → contains client (get_group_members group (run evs [])) ≡ last_word group client evs false
unfolding lookup
get_group_members-run group client evs =
    contains-get_group_members group client (run evs []) ∙ run-last_word group client evs [] tt
