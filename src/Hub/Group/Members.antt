-- ===== src/Hub/Group/Members.antt =====
-- MemCount against the members of a group.
use ws_cluster.Common.{
  ℕ, ◌+◌, ◌≡◌, ◌≢◌, ◌↔◌, refl, [], ◌∷◌, Option, none, some, Dict, Key, lookup, insert, remove,
  length, same→eq, arith, inl, inr, Option-cases, Unique, insert-Unique, remove-Unique,
}
use ws_cluster.Hub.State.{Group, GroupPacket, join, leave, message}
use ws_cluster.Hub.Group.{group_apply}

-- The count is the number of members.
pub record IsCounted (g : Group) : Type 0 where
  pub unique : Unique g.members
  pub exact : g.mem_count.leaves + length g.members ≡ g.mem_count.joins

-- A join of one who is no member, a leave of one who is, or a message.
abbrev pub IsProper : GroupPacket → Group → Type 0
IsProper (message msg) g = Unit {0}
IsProper (join addr conn) g = lookup addr g.members ≡ none
IsProper (leave addr conn) g = lookup addr g.members ≢ none

abbrev count_if : Option ℕ → ℕ
count_if none = 0
count_if (some v) = 1

length-insert :
    (k : Key) (v : ℕ) (m : Dict ℕ) → length (insert k v m) + count_if (lookup k m) ≡ length m + 1
unfolding insert lookup
length-insert k v [] = refl
length-insert k v ((j, w) ∷ m) = ground (arith, length-insert k v m)

remove_absent : (k : Key) (m : Dict ℕ) → lookup k m ≡ none → remove k m ≡ m
unfolding remove lookup
remove_absent k [] e = refl
remove_absent k ((j, w) ∷ m) e = ground (arith, remove_absent k m)

length-remove :
    (k : Key) (m : Dict ℕ) → Unique m → length (remove k m) + count_if (lookup k m) ≡ length m
unfolding remove lookup
length-remove k [] u = refl
length-remove k ((j, w) ∷ m) u =
    ground (arith, same→eq j k, remove_absent k m, length-remove k m u.1)

-- Where MemCount is the number of members, it still is after a packet exactly if the packet is
-- proper: it goes wrong when a member joins again, and when one leaves who is no member.
pub group_apply-IsCounted :
    (p : GroupPacket) (g : Group) → IsCounted g → IsCounted (group_apply p g) ↔ IsProper p g
unfolding group_apply
group_apply-IsCounted (message msg) g v = (λ _. tt, λ _. v)
group_apply-IsCounted (join addr conn) g v = (
  λ w. ground (arith, length-insert addr conn g.members, w.exact),
  λ fresh. record {
    unique = insert-Unique addr conn g.members v.unique;
    exact = ground (arith, length-insert addr conn g.members);
  },
)
group_apply-IsCounted (leave addr conn) g v = (
  λ w gone. ground (arith, length-remove addr g.members v.unique, w.exact),
  λ present. record {
    unique = remove-Unique addr g.members v.unique;
    exact = elim (Option-cases (lookup addr g.members)) [
      | inl e ↦ absurd (present e)
      | inr (c, e) ↦ ground (arith, length-remove addr g.members v.unique)
    ];
  },
)
