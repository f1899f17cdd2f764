-- ===== src/Wire/Addr/Parse.antt =====
-- wire/common.go: ParseAddr, ParseClientAddr, ParseGroupAddr, ParseServerAddr and ParseCorrectAddr,
-- with what they use of the packages strings and strconv. A Go `int` is its 64-bit pattern.
pub mod Digits
pub mod RoundTrip
use ws_cluster.Common.{
  ℕ, zero, suc, ◌+◌, ◌-◌, ◌*◌, ◌%◌, ◌^◌, List, [], ◌∷◌, Option, none, some, Result, ok, err,
  invalid_address, leb, ltb, ◌==◌, ◌||◌, if◌then◌else◌,
}
use ws_cluster.Wire.Addr.{
  Addr, new_addr, addr_client, addr_server, addr_group, addr_broadcast, addr_virtual,
}

abbrev pub onto_first : ℕ → List (List ℕ) → List (List ℕ)
onto_first c [] = (c ∷ []) ∷ []
onto_first c (p ∷ ps) = (c ∷ p) ∷ ps

-- `strings.SplitN(s, sep, n + 1)`: at most `n` cuts, at the first separators.
unfoldable pub split_n : ℕ → ℕ → List ℕ → List (List ℕ)
split_n sep zero [] = [] ∷ []
split_n sep zero (c ∷ s) = (c ∷ s) ∷ []
split_n sep (suc n) [] = [] ∷ []
split_n sep (suc n) (c ∷ s) =
    let after = split_n sep n s in
    let later = split_n sep (suc n) s in if c == sep then [] ∷ after else onto_first c later

-- `strconv.ParseUint(s, 10, 64)`: `none` is a syntax error; out of range it is the largest value.
unfoldable pub scan_uint : ℕ → List ℕ → Option ℕ
scan_uint n [] = some n
scan_uint n (c ∷ s) =
    let m = n * 10 + (c - b'0') in
    let rest = scan_uint m s in
    if ltb c b'0' || ltb b'9' c then none else if leb (2 ^ 64) m then some (2 ^ 64 - 1) else rest

unfoldable pub parse_uint : List ℕ → Option ℕ
unfolding scan_uint
parse_uint [] = none
parse_uint (c ∷ s) = scan_uint 0 (c ∷ s)

-- The value of a number without and with a minus sign, 0 on a syntax error.
unfoldable pub positive : Option ℕ → ℕ
positive none = 0
positive (some n) = if leb (2 ^ 63) n then 2 ^ 63 - 1 else n

unfoldable pub negative : Option ℕ → ℕ
negative none = 0
negative (some n) = if leb (2 ^ 63) n then 2 ^ 63 else (2 ^ 64 - n) % 2 ^ 64

-- `n, _ := strconv.Atoi(s)`
unfoldable pub atoi : List ℕ → ℕ
unfolding parse_uint positive negative
atoi [] = 0
atoi (c ∷ s) =
    if c == b'-'
    then negative (parse_uint s)
    else if c == b'+'
    then positive (parse_uint s)
    else positive (parse_uint (c ∷ s))

-- AddrReMap, where a missing key is 0.
unfoldable pub char_type : List ℕ → ℕ
char_type (c ∷ []) =
    if c == b'c'
    then addr_client
    else if c == b's'
    then addr_server
    else if c == b'g'
    then addr_group
    else if c == b'b'
    then addr_broadcast
    else 0
char_type _ = 0

-- The parts of the text, of which there must be five.
unfoldable pub parse_parts : (List ℕ → ℕ) → List (List ℕ) → Result Addr
unfolding atoi
parse_parts typ (_ ∷ kind ∷ domain ∷ device ∷ name ∷ []) =
    new_addr (typ kind) (atoi domain % 2 ^ 32) (atoi device % 256) name
parse_parts typ _ = err invalid_address

unfoldable pub parse_addr : List ℕ → Result Addr
unfolding split_n parse_parts char_type
parse_addr addr = parse_parts char_type (split_n b'/' 4 addr)

unfoldable pub parse_client_addr : List ℕ → Result Addr
unfolding split_n parse_parts
parse_client_addr addr = parse_parts (λ kind. addr_client) (split_n b'/' 4 addr)

unfoldable pub parse_group_addr : List ℕ → Result Addr
unfolding split_n parse_parts
parse_group_addr addr = parse_parts (λ kind. addr_group) (split_n b'/' 4 addr)

unfoldable pub parse_server_addr : List ℕ → Result Addr
unfolding split_n parse_parts
parse_server_addr addr = parse_parts (λ kind. addr_server) (split_n b'/' 4 addr)

-- ParseCorrectAddr: nil where the text is no address.
unfoldable pub parse_correct_addr : List ℕ → Option Addr
unfolding parse_addr
parse_correct_addr addr = elim (parse_addr addr) [ ok a ↦ some a | err e ↦ none ]
