-- ===== src/Tests/Parse.antt =====
-- The texts of addresses: runs, and the theorems at concrete inputs.
use ws_cluster.Common.{ℕ, ◌-◌, ◌^◌, ◌≡◌, refl, List, [], ◌∷◌, ok, arith}
use ws_cluster.Wire.Addr.{Addr, new_addr}
use ws_cluster.Wire.Addr.Text.{addr_string}
use ws_cluster.Wire.Addr.Parse.{parse_addr, atoi}
use ws_cluster.Wire.Addr.Parse.RoundTrip.{parse_addr-addr_string}

-- "a/b"
abbrev a_b : List ℕ
a_b = 97 ∷ 47 ∷ 98 ∷ []

-- "-12"
minus_twelve : atoi (45 ∷ 49 ∷ 50 ∷ []) ≡ 2 ^ 64 - 12
unfolding atoi
minus_twelve = refl

parse_addr-addr_string_example :
    (addr : Addr) × (text : List ℕ) × (new_addr 3 12 5 a_b ≡ ok addr)
    × (addr_string addr ≡ ok text)
    × (parse_addr text ≡ ok addr)
parse_addr-addr_string_example =
    parse_addr-addr_string 3 12 5 a_b (omega arith) (omega arith) (omega arith) (omega arith)
