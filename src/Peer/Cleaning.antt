-- ===== src/Peer/Cleaning.antt =====
-- peer/peer.go, the end of packetQueueHandler: the loop that empties the list of pending packets.
-- A list of the package container/list is the list of its elements, each a pointer, here a number.
use ws_cluster.Common.{
  ℕ, zero, suc, ◌≡◌, refl, List, [], ◌∷◌, Option, none, some, ◌==◌, if◌then◌else◌,
}

-- `Front`: nil for an empty list.
abbrev pub first_pending : List ℕ → Option ℕ
first_pending [] = none
first_pending (e ∷ es) = some e

-- `Remove`, which does nothing for an element that is not in the list.
unfoldable pub list_remove : ℕ → List ℕ → List ℕ
list_remove e [] = []
list_remove e (x ∷ xs) = let later = x ∷ list_remove e xs in if x == e then xs else later

-- The rounds of the loop, of which `fuel` may be made: `none` says that they were not enough.
unfoldable pub clean_rounds : ℕ → Option ℕ → List ℕ → Option (List ℕ)
unfolding list_remove
clean_rounds fuel none pending = some pending
clean_rounds zero (some next) pending = none
clean_rounds (suc fuel) (some next) pending =
    clean_rounds fuel (some next) (list_remove next pending)

unfoldable pub clean_pending : ℕ → List ℕ → Option (List ℕ)
unfolding clean_rounds
clean_pending fuel pending = clean_rounds fuel (first_pending pending) pending

clean_rounds-none :
    (fuel next : ℕ) (pending : List ℕ) → clean_rounds fuel (some next) pending ≡ none
unfolding clean_rounds
clean_rounds-none zero next pending = refl
clean_rounds-none (suc fuel) next pending = clean_rounds-none fuel next (list_remove next pending)

-- The loop ends at once where no packet is pending, and never ends where one is, whatever number of
-- rounds it makes.
pub clean_pending-ends :
    (fuel next : ℕ) (pending : List ℕ)
    → (clean_pending fuel [] ≡ some []) × (clean_pending fuel (next ∷ pending) ≡ none)
unfolding clean_pending clean_rounds
clean_pending-ends fuel next pending = (refl, clean_rounds-none fuel next (next ∷ pending))
