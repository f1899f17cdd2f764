-- ===== src/Hub/Cluster/Headers.antt =====
-- hub/server_peer.go, connect: how the headers of its request are sent.
use ws_cluster.Common.{
  ℕ, ◌^◌, ◌≤◌, ◌<◌, ◌≡◌, refl, ◌∙◌, ap, Bool, false, List, [], ◌∷◌, ◌++◌, map, All, ◌==◌, ◌||◌,
  if◌then◌else◌, arith,
}
use ws_cluster.Wire.Addr.Text.{decimal, decimal_digits}
use ws_cluster.Wire.Addr.Parse.Digits.{IsDigit, decimal_digits-spelled}

-- What net/http makes of the value of a header that is sent: line ends become blanks, and there are no
-- blanks at its ends.
unfoldable pub is_blank : ℕ → Bool
is_blank c = c == b' ' || c == 9 || c == 10 || c == 13

unfoldable pub trim_end : List ℕ → List ℕ
unfolding is_blank
trim_end [] = []
trim_end (c ∷ s) =
    let rest = trim_end s in
    if is_blank c then (elim rest [ [] ↦ [] | d ∷ r ↦ c ∷ d ∷ r ]) else c ∷ rest

unfoldable pub trim_start : List ℕ → List ℕ
unfolding is_blank
trim_start [] = []
trim_start (c ∷ s) = let rest = trim_start s in if is_blank c then rest else c ∷ s

abbrev pub newline_to_space : ℕ → ℕ
newline_to_space c = if c == 10 || c == 13 then b' ' else c

unfoldable pub header_value : List ℕ → List ℕ
unfolding trim_start trim_end
header_value t = trim_start (trim_end (map newline_to_space t))

-- A character that is printed, and no blank.
abbrev pub IsVisible : ℕ → Type 0
IsVisible c = (33 ≤ c) × (c ≤ 126)

visible-not : (c : ℕ) → IsVisible c → (is_blank c ≡ false) × (newline_to_space c ≡ c)
unfolding is_blank
visible-not c h = (ground (arith, h), ground (arith, h))

map-newline_to_space : (t : List ℕ) → All IsVisible t → map newline_to_space t ≡ t
map-newline_to_space [] h = refl
map-newline_to_space (c ∷ t) h = rw ((visible-not c h.0).1, map-newline_to_space t h.1) refl

trim_end-visible : (t : List ℕ) → All IsVisible t → trim_end t ≡ t
unfolding trim_end
trim_end-visible [] h = refl
trim_end-visible (c ∷ t) h = rw ((visible-not c h.0).0, trim_end-visible t h.1) refl

trim_start-visible : (t : List ℕ) → All IsVisible t → trim_start t ≡ t
unfolding trim_start
trim_start-visible [] h = refl
trim_start-visible (c ∷ t) h = rw ((visible-not c h.0).0) refl

-- A text of visible characters is sent as it is.
pub header_value-visible : (t : List ℕ) → All IsVisible t → header_value t ≡ t
unfolding header_value
header_value-visible t h =
    ap (λ x. trim_start (trim_end x)) (map-newline_to_space t h)
    ∙ ap trim_start (trim_end-visible t h)
    ∙ trim_start-visible t h

visible_digits : (s : List ℕ) → All IsDigit s → All IsVisible s
visible_digits [] d = tt
visible_digits (c ∷ s) d = (omega (arith, d.0), visible_digits s d.1)

pub visible_append : (s t : List ℕ) → All IsVisible s → All IsVisible t → All IsVisible (s ++ t)
visible_append [] t h g = g
visible_append (c ∷ s) t h g = (h.0, visible_append s t h.1 g)

pub visible_decimal : (n : ℕ) → n < 2 ^ 32 → All IsVisible (decimal n)
unfolding decimal
visible_decimal n h =
    visible_digits (decimal_digits 20 n) (decimal_digits-spelled 19 n (omega arith)).0
