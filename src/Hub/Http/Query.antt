-- ===== src/Hub/Http/Query.antt =====
-- hub/http_handler.go: what handleClientWebSocket reads from the query of its request, with what
-- `Query` and `Get` of net/url do (go 1.12).
pub mod Plain
use ws_cluster.Common.{
  ℕ, ◌+◌, ◌-◌, ◌*◌, Bool, true, false, List, [], ◌∷◌, ◌++◌, Option, none, some, leb, same, ◌==◌,
  ◌&&◌, ◌||◌, if◌then◌else◌,
}
use ws_cluster.Wire.Addr.Parse.{onto_first, split_n}
use ws_cluster.Hub.Http.{ClientRequest}

-- Behind a percent sign, the digits that are read.
pub data Escape : Type 0 where
  no_escape percent : Escape
  high_digit : ℕ → Escape

abbrev pub hex_digit : ℕ → Option ℕ
hex_digit c =
    if leb b'0' c && leb c b'9'
    then some (c - b'0')
    else if leb b'a' c && leb c b'f'
    then some (c - b'a' + 10)
    else if leb b'A' c && leb c b'F'
    then some (c - b'A' + 10)
    else none

abbrev pub onto : ℕ → Option (List ℕ) → Option (List ℕ)
onto c none = none
onto c (some s) = some (c ∷ s)

-- `url.QueryUnescape`: none is its error.
unfoldable pub unescape : Escape → List ℕ → Option (List ℕ)
unescape no_escape [] = some []
unescape percent [] = none
unescape (high_digit h) [] = none
unescape no_escape (c ∷ s) = elim (c == b'%') [
  | true ↦ unescape percent s
  | false ↦ onto (if c == b'+' then b' ' else c) (unescape no_escape s)
]
unescape percent (c ∷ s) = elim (hex_digit c) [ none ↦ none | some h ↦ unescape (high_digit h) s ]
unescape (high_digit h) (c ∷ s) = elim (hex_digit c) [
  | none ↦ none
  | some l ↦ onto (h * 16 + l) (unescape no_escape s)
]

-- The parts between the characters "&" and ";".
unfoldable pub query_parts : List ℕ → List (List ℕ)
query_parts [] = [] ∷ []
query_parts (c ∷ s) =
    let later = query_parts s in if c == b'&' || c == b';' then [] ∷ later else onto_first c later

-- The value, if the name is the one asked for.
abbrev pub value_if : List ℕ → Option (List ℕ) → Option (List ℕ) → Option (List ℕ)
value_if name none v = none
value_if name (some n) v = if same n name then v else none

-- An empty part is skipped, and one with a bad escape; one without "=" has the empty value.
unfoldable pub part_value : List ℕ → List ℕ → Option (List ℕ)
unfolding unescape split_n
part_value name [] = none
part_value name (c ∷ s) = elim (split_n b'=' 1 (c ∷ s)) [
  | n ∷ v ∷ _ ↦ value_if name (unescape no_escape n) (unescape no_escape v)
  | n ∷ [] ↦ value_if name (unescape no_escape n) (some [])
  | [] ↦ none
]

abbrev pub or_later : Option (List ℕ) → List ℕ → List ℕ
or_later (some v) later = v
or_later none later = later

unfoldable pub first_value : List ℕ → List (List ℕ) → List ℕ
unfolding part_value
first_value name [] = []
first_value name (p ∷ ps) = or_later (part_value name p) (first_value name ps)

-- `r.URL.Query().Get(name)`: the first value, or the empty text.
unfoldable pub query_get : List ℕ → List ℕ → List ℕ
unfolding query_parts first_value
query_get query name = first_value name (query_parts query)

-- A name and its value.
abbrev pub pair_text : List ℕ → List ℕ → List ℕ
pair_text n v = n ++ (b'=' ∷ v)

-- "addr", "nonce", "digest" and "notice"
abbrev pub addr_name : List ℕ
addr_name = b'a' ∷ b'd' ∷ b'd' ∷ b'r' ∷ []

abbrev pub nonce_name : List ℕ
nonce_name = b'n' ∷ b'o' ∷ b'n' ∷ b'c' ∷ b'e' ∷ []

abbrev pub digest_name : List ℕ
digest_name = b'd' ∷ b'i' ∷ b'g' ∷ b'e' ∷ b's' ∷ b't' ∷ []

abbrev pub notice_name : List ℕ
notice_name = b'n' ∷ b'o' ∷ b't' ∷ b'i' ∷ b'c' ∷ b'e' ∷ []

unfoldable pub read_request : List ℕ → List ℕ → ClientRequest
unfolding query_get
read_request remote query = record {
  addr = query_get query addr_name;
  nonce = query_get query nonce_name;
  digest = query_get query digest_name;
  notice = query_get query notice_name;
  remote_addr = remote;
}
