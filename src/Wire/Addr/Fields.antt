-- ===== src/Wire/Addr/Fields.antt =====
-- What NewAddr stores is what the accessors of an address give back.
use ws_cluster.Common.{
  ℕ, zero, suc, ◌+◌, ◌-◌, ◌*◌, ◌/◌, ◌%◌, ◌^◌, ◌≤◌, ◌<◌, ◌≡◌, refl, arith, ◌∷◌, ◌++◌, [], List, Bool,
  true, ◌==◌, if◌then◌else◌, length, length-append, length-replicate, take-append, replicate, ok,
  err, addr_overflow, panicked, ◌&&◌, ap, ltb, ◌⊎◌, inl, inr,
}
use ws_cluster.Wire.Io.{overlay, le_bytes}
use ws_cluster.Wire.Io.Laws.{le_value-le_bytes}
use ws_cluster.Wire.Addr.{Addr, IsAddr, new_addr, addr_type, addr_domain, addr_device, addr_address}
use native.Mathlib.Decide.{dec_le}
use Prim.Native.Nat.{bit_or, bit_and}

-- Facts about one byte, by a table of its values.
module _ (f g : ℕ → ℕ) where
  agree_below : ℕ → Bool
  agree_below zero = true
  agree_below (suc n) = f n == g n && agree_below n

  agree_below→eq : (n : ℕ) → agree_below n ≡ true → (i : ℕ) → i < n → f i ≡ g i
  unfolding agree_below
  agree_below→eq zero e i h = absurd (omega arith)
  agree_below→eq (suc n) e i h = ground (arith, agree_below→eq n (ground arith) i)

-- `Typ<<5 | len` as a sum.
pub join_first : (x : ℕ) → x < 256 → bit_or (x / 32 * 32) (x % 32) ≡ x
unfolding agree_below
join_first = agree_below→eq (λ x. bit_or (x / 32 * 32) (x % 32)) (λ x. x) 256 refl

-- Addr.Len keeps the top bit of the byte, and drops the next two.
pub mask_len : (x : ℕ) → x < 256 → bit_and x 0x9f ≡ x / 128 * 128 + x % 32
unfolding agree_below
mask_len = agree_below→eq _ _ 256 refl

pub first_byte : (typ n : ℕ) → n ≤ 26 → bit_or (typ * 32 % 256) (n % 256) ≡ typ % 8 * 32 + n
first_byte typ n h = rw (split_type, split_len) (join_first (typ % 8 * 32 + n) (omega arith))
  where
    split_type : typ * 32 % 256 ≡ (typ % 8 * 32 + n) / 32 * 32
    split_type = omega arith

    split_len : n % 256 ≡ (typ % 8 * 32 + n) % 32
    split_len = omega arith

pub overlay-replicate :
    (n : ℕ) (bs : List ℕ)
    → length bs ≤ n
    → overlay bs (replicate n 0) ≡ bs ++ replicate (n - length bs) 0
overlay-replicate n [] h = ap (λ k. replicate k 0) (omega arith)
overlay-replicate zero (b ∷ bs) h = absurd (omega arith)
overlay-replicate (suc n) (b ∷ bs) h =
    rw (overlay-replicate n bs (omega arith)) (ap (λ k. b ∷ (bs ++ replicate k 0)) (omega arith))

-- The layout of an address.
abbrev pub layout : ℕ → ℕ → ℕ → List ℕ → Addr
layout typ domain device address =
    (typ % 8 * 32 + length address)
    ∷ (le_bytes 4 domain ++ (device ∷ (address ++ replicate (26 - length address) 0)))

pub new_addr-layout :
    (typ domain device : ℕ) (address : List ℕ)
    → length address ≤ 26
    → new_addr typ domain device address ≡ ok (layout typ domain device address)
unfolding new_addr
new_addr-layout typ domain device address h =
    ground (arith, first_byte typ (length address) h, overlay-replicate 26 address h)

layout-IsAddr :
    (typ domain device : ℕ) (address : List ℕ)
    → length address ≤ 26
    → IsAddr (layout typ domain device address)
layout-IsAddr typ domain device address h = omega (
  arith,
  length-append address (replicate (26 - length address) 0),
  length-replicate (26 - length address) (let z : ℕ = 0 in z),
)

pub layout-address :
    (typ domain device : ℕ) (address : List ℕ)
    → length address ≤ 26
    → addr_address (layout typ domain device address)
      ≡ (if ltb (typ % 8) 4 then ok address else err panicked)
unfolding addr_address
layout-address typ domain device address h = ground (
  arith,
  mask_len (typ % 8 * 32 + length address) (omega arith),
  take-append (length address) address (replicate (26 - length address) 0) refl,
)

-- NewAddr fails exactly on a name of more than 26 bytes. Otherwise the address has 32 bytes, and
-- its type (mod 8), domain, device are those given; its name is the one given if the type is
-- below 4, and reading the name panics if it is not (the broadcast type, 4, is such a type).
pub new_addr_fields :
    (typ domain device : ℕ) (address : List ℕ)
    → domain < 2 ^ 32
    → ((26 < length address) × (new_addr typ domain device address ≡ err addr_overflow))
      ⊎ ((length address ≤ 26)
          × ((addr : Addr) × (new_addr typ domain device address ≡ ok addr)
              × IsAddr addr
              × (addr_type addr ≡ typ % 8)
              × (addr_domain addr ≡ domain)
              × (addr_device addr ≡ device)
              × (addr_address addr ≡ (if ltb (typ % 8) 4 then ok address else err panicked))))
unfolding addr_type addr_domain addr_device
new_addr_fields typ domain device address h = elim (dec_le (length address) 26) [
  | yes p ↦ inr (
    p,
    (
      layout typ domain device address,
      new_addr-layout typ domain device address p,
      layout-IsAddr typ domain device address p,
      omega arith,
      le_value-le_bytes 4 domain (omega arith),
      refl,
      layout-address typ domain device address p,
    ),
  )
  | no p ↦ inl (omega arith, unfold new_addr in ground arith)
]
