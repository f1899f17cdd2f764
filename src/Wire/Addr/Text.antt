-- ===== src/Wire/Addr/Text.antt =====
-- wire/common.go, Addr.String: the text of an address, "/c/<domain>/<device>/<name>".
use ws_cluster.Common.{
  ℕ, zero, suc, ◌+◌, ◌/◌, ◌%◌, List, [], ◌∷◌, ◌++◌, Result, ok, err, ltb, ◌==◌, if◌then◌else◌,
}
use ws_cluster.Wire.Addr.{
  Addr, addr_type, addr_domain, addr_device, addr_address, addr_client, addr_server, addr_group,
  addr_broadcast,
}

-- fmt's `%v` of an unsigned integer of at most 20 digits, as every uint64 is.
unfoldable pub decimal_digits : ℕ → ℕ → List ℕ
decimal_digits zero n = []
decimal_digits (suc fuel) n =
    let front = decimal_digits fuel (n / 10) in
    if ltb n 10 then (48 + n) ∷ [] else front ++ ((48 + n % 10) ∷ [])

unfoldable pub decimal : ℕ → List ℕ
unfolding decimal_digits
decimal n = decimal_digits 20 n

-- AddrMap; fmt's `%c` of the missing entry, 0, is one zero byte.
unfoldable pub type_char : ℕ → ℕ
type_char typ =
    if typ == addr_client
    then b'c'
    else if typ == addr_server
    then b's'
    else if typ == addr_group
    then b'g'
    else if typ == addr_broadcast
    then b'b'
    else 0

unfoldable pub addr_string : Addr → Result (List ℕ)
addr_string addr =
    let head = b'/' ∷ type_char (addr_type addr) ∷ b'/' ∷ decimal (addr_domain addr) in
    if addr_type addr == addr_broadcast then ok head else elim (addr_address addr) [
      | ok name ↦ ok (head ++ (b'/' ∷ (decimal (addr_device addr) ++ (b'/' ∷ name))))
      | err e ↦ err e
    ]
