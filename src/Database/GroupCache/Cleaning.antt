-- ===== src/Database/GroupCache/Cleaning.antt =====
-- The hourly deletion of empty groups takes no client out of a group.
use ws_cluster.Common.{
  Bool, true, false, ◌≡◌, refl, ◌∙◌, [], ◌∷◌, none, inl, inr, Dict, Key, lookup, remove, has,
  lookup-remove, same→eq, same_refl, Unique, arith, Bool-cases, same_sym,
}
use ws_cluster.Database.GroupCache.{CachedGroup, Cache, clean_over, is_empty}
use ws_cluster.Database.GroupCache.Entries.{in_entry}

is_empty-has : (client : Key) (g : CachedGroup) → is_empty g ≡ true → has client g.clients ≡ false
unfolding lookup
is_empty-has client g e = go g.clients e
  where
    go : (m : Dict Bool) → (elim m [ [] ↦ true | x ∷ xs ↦ false ]) ≡ true → has client m ≡ false
    go [] e = refl
    go (x ∷ xs) e = cc

-- The client is in none of the groups of a list that are empty.
abbrev Gone : Key → Cache → Cache → Type 0
Gone client [] c = Unit {0}
Gone client ((n, g) ∷ xs) c =
    (is_empty g ≡ true → in_entry client (lookup n c) ≡ false) × Gone client xs c

Gone-remove : (client n : Key) (xs c : Cache) → Gone client xs c → Gone client xs (remove n c)
Gone-remove client n [] c h = tt
Gone-remove client n ((j, g) ∷ xs) c h =
    (λ e. ground (arith, h.0 e, lookup-remove n j c), Gone-remove client n xs c h.1)

Gone-cons :
    (client n : Key) (g : CachedGroup) (xs c : Cache)
    → lookup n xs ≡ none
    → Gone client xs c
    → Gone client xs ((n, g) ∷ c)
unfolding lookup
Gone-cons client n g [] c absent h = tt
Gone-cons client n g ((j, y) ∷ xs) c absent h = (
  λ e. ground (arith, h.0 e, same_sym n j, same_sym j n),
  Gone-cons client n g xs c (ground arith) h.1,
)

pub Unique-Gone : (client : Key) (c : Cache) → Unique c → Gone client c c
unfolding lookup
Unique-Gone client [] u = tt
Unique-Gone client ((n, g) ∷ c) u = (
  λ e. rw (same_refl n) (is_empty-has client g e),
  Gone-cons client n g c c u.0 (Unique-Gone client c u.1),
)

pub in_entry-clean_over :
    (client g : Key) (xs c : Cache)
    → Gone client xs c
    → in_entry client (lookup g (clean_over xs c)) ≡ in_entry client (lookup g c)
unfolding clean_over
in_entry-clean_over client g [] c h = refl
in_entry-clean_over client g ((n, y) ∷ xs) c h = elim (Bool-cases (is_empty y)) [
  | inl e ↦ rw e (
      in_entry-clean_over client g xs (remove n c) (Gone-remove client n xs c h.1)
      ∙ ground (arith, h.0 e, lookup-remove n g c, same→eq n g))
  | inr e ↦ rw e (in_entry-clean_over client g xs c h.1)
]
