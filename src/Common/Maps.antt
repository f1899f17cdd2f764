-- ===== src/Common/Maps.antt =====
-- Go maps whose keys are byte strings or addresses, as association lists. `range` over a Go map goes
-- in no fixed order; here it goes in the order of the list, and nothing is said of that order.
use ws_cluster.Common.Tests.{same, same→eq, same_refl, if◌then◌else◌}
use Prim.Native.Nat.{ℕ}
use mathlib.Core.Path.{◌≡◌, refl}
use mathlib.Core.Bool.{Bool, true, false}
use mathlib.Core.Option.{Option, none, some}
use mathlib.Core.List.{List, [], ◌∷◌}
use native.Mathlib.Omega.{arith}

abbrev pub Key : Type 0
Key = List ℕ

abbrev pub Dict {ℓ} : Type ℓ → Type ℓ
Dict V = List (Key × V)

module _ {ℓ} {V : Type ℓ} where
  unfoldable pub lookup : Key → Dict V → Option V
  lookup k [] = none
  lookup k ((j, v) ∷ m) = if same j k then some v else lookup k m

  -- `m[k] = v`
  unfoldable pub insert : Key → V → Dict V → Dict V
  insert k v [] = (k, v) ∷ []
  insert k v ((j, w) ∷ m) = if same j k then (k, v) ∷ m else (j, w) ∷ insert k v m

  -- `delete(m, k)`
  unfoldable pub remove : Key → Dict V → Dict V
  remove k [] = []
  remove k ((j, w) ∷ m) = let rest = remove k m in if same j k then rest else (j, w) ∷ rest

  abbrev pub values : Dict V → List V
  values [] = []
  values ((k, v) ∷ m) = v ∷ values m

  abbrev pub has : Key → Dict V → Bool
  has k m = elim (lookup k m) [ none ↦ false | some v ↦ true ]

pub same_sym : (j k : Key) → same k j ≡ true → same j k ≡ true
same_sym j k e = rw (same→eq k j e) (same_refl j)

module _ {ℓ} {V : Type ℓ} where
  pub lookup-insert :
      (k j : Key) (v : V) (m : Dict V)
      → lookup j (insert k v m) ≡ (if same k j then some v else lookup j m)
  unfolding lookup insert
  lookup-insert k j v [] = refl
  lookup-insert k j v ((i, w) ∷ m) =
      ground (arith, same→eq i k, same→eq k j, same→eq i j, same_refl k, lookup-insert k j v m)

  pub lookup-remove :
      (k j : Key) (m : Dict V) → lookup j (remove k m) ≡ (if same k j then none else lookup j m)
  unfolding lookup remove
  lookup-remove k j [] = ground arith
  lookup-remove k j ((i, w) ∷ m) =
      ground (arith, same→eq i k, same→eq k j, same→eq i j, same_refl k, lookup-remove k j m)

  -- No key twice.
  abbrev pub Unique : Dict V → Type ℓ
  Unique [] = Unit {ℓ}
  Unique ((k, v) ∷ m) = (lookup k m ≡ none) × Unique m

  pub insert-Unique : (k : Key) (v : V) (m : Dict V) → Unique m → Unique (insert k v m)
  unfolding insert lookup
  insert-Unique k v [] u = (refl, tt)
  insert-Unique k v ((j, w) ∷ m) u =
      ground (arith, same→eq j k, insert-Unique k v m u.1, lookup-insert k j v m, same_sym j k)

  pub remove-Unique : (k : Key) (m : Dict V) → Unique m → Unique (remove k m)
  unfolding remove
  remove-Unique k [] u = tt
  remove-Unique k ((j, w) ∷ m) u = ground (arith, remove-Unique k m u.1, lookup-remove k j m)
