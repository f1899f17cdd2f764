-- ===== src/Wire/Addr.antt =====
-- wire/common.go: the 32-byte address. Its first byte holds the type in the top 3 bits and the
-- length of the name in the others; then 4 bytes of domain, 1 of device, and 26 of name.
-- A Go `byte` argument is a number below 256.
pub mod Fields
pub mod Text
pub mod Parse
use ws_cluster.Common.{
  ℕ, zero, suc, ◌+◌, ◌-◌, ◌*◌, ◌/◌, ◌%◌, ◌≡◌, Bool, List, [], ◌∷◌, ◌++◌, length, take, drop,
  replicate, Result, ok, err, addr_overflow, panicked, M, ltb, ◌==◌, ◌||◌, if◌then◌else◌, ◌>>=◌,
  pure,
}
use ws_cluster.Wire.Io.{le_bytes, le_value, copy_at, overlay, read, Writer}
use Prim.Native.Nat.{bit_or, bit_and}

-- `[32]byte`, compared by value: a map's key.
abbrev pub Addr : Type 0
Addr = List ℕ

abbrev pub IsAddr : Addr → Type 0
IsAddr addr = length addr ≡ 32

abbrev pub addr_virtual : ℕ
addr_virtual = 0

abbrev pub addr_client : ℕ
addr_client = 1

abbrev pub addr_server : ℕ
addr_server = 2

abbrev pub addr_group : ℕ
addr_group = 3

abbrev pub addr_broadcast : ℕ
addr_broadcast = 4

-- `new(Addr)`
abbrev pub empty_addr : Addr
empty_addr = replicate 32 0

-- `b[i]` of an array whose length is known to pass `i`.
abbrev pub byte_at : List ℕ → ℕ → ℕ
byte_at [] i = 0
byte_at (b ∷ bs) zero = b
byte_at (b ∷ bs) (suc i) = byte_at bs i

unfoldable pub new_addr : ℕ → ℕ → ℕ → List ℕ → Result Addr
new_addr typ domain device address =
    let addrlen = length address in
    let first = bit_or (typ * 32 % 256) (addrlen % 256) in
    let addr1 = copy_at 0 (first ∷ []) empty_addr in
    let addr2 = copy_at 1 (le_bytes 4 domain) addr1 in
    let addr3 = copy_at 5 (device ∷ []) addr2 in
    if ltb 26 addrlen then err addr_overflow else ok (copy_at 6 address addr3)

unfoldable pub new_group_addr : ℕ → List ℕ → Result Addr
unfolding new_addr
new_group_addr domain address = new_addr addr_group domain 0 address

unfoldable pub new_server_addr : ℕ → List ℕ → Result Addr
unfolding new_addr
new_server_addr domain address = new_addr addr_server domain 0 address

-- Addr.Type: `addr[0] >> 5`
unfoldable pub addr_type : Addr → ℕ
addr_type addr = byte_at addr 0 / 32

-- Addr.Len: `addr[0] & ^byte(3<<5)`, and `^byte(3<<5)` is 0x9f.
unfoldable pub addr_len : Addr → ℕ
addr_len addr = bit_and (byte_at addr 0) 0x9f

unfoldable pub addr_domain : Addr → ℕ
addr_domain addr = le_value (take 4 (drop 1 addr))

unfoldable pub addr_device : Addr → ℕ
addr_device addr = byte_at addr 5

-- Addr.Address: `addr[6 : addr.Len()+6]`, a slice of an array of 32 that panics out of its bounds.
-- The upper bound is computed in a byte.
unfoldable pub addr_address : Addr → Result (List ℕ)
unfolding addr_len
addr_address addr =
    let high = (addr_len addr + 6) % 256 in
    if ltb high 6 || ltb 32 high then err panicked else ok (take (high - 6) (drop 6 addr))

-- Addr.IsEmpty: `addr[0] == 0`
unfoldable pub addr_is_empty : Addr → Bool
addr_is_empty addr = byte_at addr 0 == 0

-- Addr.Decode: one `Read` into the receiver. A short read overwrites its front and is no error.
unfoldable pub decode_addr : Addr → M (List ℕ) Addr
unfolding read
decode_addr addr = do bytes ← read 32; pure (overlay bytes addr)

-- Addr.Encode
unfoldable pub encode_addr : {W : Type 0} ⦃o : Writer W⦄ → Addr → M W (Unit {0})
encode_addr ⦃o⦄ addr = o.write addr
