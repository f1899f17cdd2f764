-- ===== src/Hub/Http/Query/Plain.antt =====
-- Queries of plain texts.
use ws_cluster.Common.{
  ℕ, ◌≡◌, ◌≢◌, refl, ◌∙◌, Bool, false, List, [], ◌∷◌, ◌++◌, some, All, same, same_refl, ◌==◌, ◌||◌,
  ◌≤◌, arith,
}
use ws_cluster.Wire.Addr.Parse.{split_n}
use ws_cluster.Hub.Http.Query.{
  unescape, no_escape, query_parts, part_value, first_value, query_get, or_later, value_if,
  pair_text,
}

-- A character that a URL holds as it is, in a value of its query: a printing one, and none of
-- "&", ";", "%", "+", "=" and "#".
abbrev pub IsPlain : ℕ → Type 0
IsPlain c =
    (33 ≤ c)
    × (c ≤ 126)
    × (c ≢ b'&')
    × (c ≢ b';')
    × (c ≢ b'%')
    × (c ≢ b'+')
    × (c ≢ b'=')
    × (c ≢ b'#')

-- A character of a name or a value that stands for itself.
plain-not : (c : ℕ) → IsPlain c → ((c == b'%') ≡ false) × ((c == b'+') ≡ false)
plain-not c h = (ground (arith, h), ground (arith, h))

pub unescape-plain : (s : List ℕ) → All IsPlain s → unescape no_escape s ≡ some s
unfolding unescape
unescape-plain [] h = refl
unescape-plain (c ∷ s) h =
    let (percent, space) = plain-not c h.0 in
    rw (percent, unescape) (rw (space, unescape-plain s h.1))

-- A character that is in no name and no value of the query.
abbrev is_cut : ℕ → Bool
is_cut c = c == b'&' || c == b';'

-- The parts of a query are cut where the first "&" is.
parts-cut :
    (s t : List ℕ)
    → All (λ c. is_cut c ≡ false) s
    → query_parts (s ++ (b'&' ∷ t)) ≡ s ∷ query_parts t
unfolding query_parts
parts-cut [] t h = refl
parts-cut (c ∷ s) t h = rw (h.0, parts-cut s t h.1)

parts-none : (s : List ℕ) → All (λ c. is_cut c ≡ false) s → query_parts s ≡ s ∷ []
unfolding query_parts
parts-none [] h = refl
parts-none (c ∷ s) h = rw (h.0, parts-none s h.1)

plain-is_cut : (s : List ℕ) → All IsPlain s → All (λ c. is_cut c ≡ false) s
plain-is_cut [] h = tt
plain-is_cut (c ∷ s) h = (ground (arith, h.0), plain-is_cut s h.1)

pair-is_cut :
    (n v : List ℕ) → All IsPlain n → All IsPlain v → All (λ c. is_cut c ≡ false) (pair_text n v)
pair-is_cut [] v h g = (refl, plain-is_cut v g)
pair-is_cut (c ∷ n) v h g = (ground (arith, h.0), pair-is_cut n v h.1 g)

pair-split : (n v : List ℕ) → All IsPlain n → split_n b'=' 1 (pair_text n v) ≡ n ∷ v ∷ []
unfolding split_n
pair-split [] [] h = refl
pair-split [] (c ∷ v) h = refl
pair-split (c ∷ n) v h =
    let here : (c == b'=') ≡ false = ground (arith, h.0) in rw (here, pair-split n v h.1)

part_value-pair :
    (name n v : List ℕ)
    → n ≢ []
    → All IsPlain n
    → All IsPlain v
    → part_value name (pair_text n v) ≡ value_if name (some n) (some v)
unfolding part_value
part_value-pair name [] v ne h g = absurd (ne refl)
part_value-pair name (c ∷ n) v ne h g =
    rw (pair-split (c ∷ n) v h, part_value) (rw (unescape-plain (c ∷ n) h, unescape-plain v g))

module _ (n v : List ℕ) (ne : n ≢ []) (hn : All IsPlain n) (hv : All IsPlain v) where
  get-next :
      (rest name : List ℕ)
      → query_get (pair_text n v ++ (b'&' ∷ rest)) name
        ≡ or_later (value_if name (some n) (some v)) (query_get rest name)
  unfolding query_get first_value
  get-next rest name =
      rw (parts-cut (pair_text n v) rest (pair-is_cut n v hn hv))
        (rw (part_value-pair name n v ne hn hv))

  -- The value of the first name.
  pub get-here : (rest : List ℕ) → query_get (pair_text n v ++ (b'&' ∷ rest)) n ≡ v
  get-here rest = get-next rest n ∙ rw (same_refl n) refl

  -- Of another name, the value is in the rest.
  pub get-later :
      (rest name : List ℕ)
      → same n name ≡ false
      → query_get (pair_text n v ++ (b'&' ∷ rest)) name ≡ query_get rest name
  get-later rest name other = get-next rest name ∙ rw other refl

  pub get-last : query_get (pair_text n v) n ≡ v
  unfolding query_get first_value
  get-last =
      rw (parts-none (pair_text n v) (pair-is_cut n v hn hv))
        (rw (part_value-pair n n v ne hn hv) (rw (same_refl n) refl))
