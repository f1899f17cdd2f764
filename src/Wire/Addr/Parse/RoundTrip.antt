-- ===== src/Wire/Addr/Parse/RoundTrip.antt =====
-- The text of an address is read back as that address.
use ws_cluster.Common.{
  ℕ, zero, suc, ◌%◌, ◌^◌, ◌≤◌, ◌<◌, ◌≡◌, ◌≢◌, refl, ◌∙◌, List, [], ◌∷◌, ◌++◌, ok, err,
  invalid_address, All, length, ltb, ◌==◌, arith, true, false,
}
use ws_cluster.Wire.Addr.{
  Addr, new_addr, addr_type, addr_domain, addr_device, addr_address, addr_broadcast,
}
use ws_cluster.Wire.Io.Laws.{le_value-le_bytes}
use ws_cluster.Wire.Addr.Fields.{layout, new_addr-layout, layout-address}
use ws_cluster.Wire.Addr.Text.{addr_string, decimal, type_char, decimal_digits}
use ws_cluster.Wire.Addr.Parse.{split_n, parse_parts, parse_addr, char_type, atoi}
use ws_cluster.Wire.Addr.Parse.Digits.{IsDigit, atoi-decimal, decimal_digits-spelled}

split_n-cut :
    (sep n : ℕ) (p s : List ℕ)
    → All (λ c. c ≢ sep) p
    → split_n sep (suc n) (p ++ (sep ∷ s)) ≡ p ∷ split_n sep n s
unfolding split_n
split_n-cut sep n [] s h = ground arith
split_n-cut sep n (c ∷ p) s h = ground (arith, split_n-cut sep n p s h.1, h.0)

split_n-rest : (sep : ℕ) (s : List ℕ) → split_n sep 0 s ≡ s ∷ []
unfolding split_n
split_n-rest sep [] = refl
split_n-rest sep (c ∷ s) = refl

no_slash : (s : List ℕ) → All IsDigit s → All (λ c. c ≢ b'/') s
no_slash [] d = tt
no_slash (c ∷ s) d = (λ e. omega (arith, d.0, e), no_slash s d.1)

decimal-no_slash : (n : ℕ) → n < 2 ^ 32 → All (λ c. c ≢ b'/') (decimal n)
unfolding decimal
decimal-no_slash n h = no_slash (decimal_digits 20 n) (decimal_digits-spelled 19 n (omega arith)).0

char_type-type_char : (typ : ℕ) → typ < 4 → char_type (type_char typ ∷ []) ≡ typ
unfolding char_type type_char
char_type-type_char typ h = ground arith

-- The five parts of a text.
split_n-parts :
    (kind : ℕ) (domain device name : List ℕ)
    → kind ≢ b'/'
    → All (λ c. c ≢ b'/') domain
    → All (λ c. c ≢ b'/') device
    → split_n b'/' 4 (b'/' ∷ kind ∷ b'/' ∷ (domain ++ (b'/' ∷ (device ++ (b'/' ∷ name)))))
      ≡ [] ∷ (kind ∷ []) ∷ domain ∷ device ∷ name ∷ []
split_n-parts kind domain device name hk hd hv = rw (
  split_n-cut b'/' 3 [] (kind ∷ b'/' ∷ (domain ++ (b'/' ∷ (device ++ (b'/' ∷ name))))) tt,
  split_n-cut b'/' 2 (kind ∷ []) (domain ++ (b'/' ∷ (device ++ (b'/' ∷ name)))) (hk, tt),
  split_n-cut b'/' 1 domain (device ++ (b'/' ∷ name)) hd,
  split_n-cut b'/' 0 device name hv,
  split_n-rest b'/' name,
)

type_char-ne-slash : (typ : ℕ) → type_char typ ≢ b'/'
unfolding type_char
type_char-ne-slash typ e = ground arith

-- What String gives for an address that NewAddr makes of a type below 4.
addr_string-layout :
    (typ domain device : ℕ) (name : List ℕ) (addr : Addr)
    → typ < 4
    → addr_type addr ≡ typ
    → addr_domain addr ≡ domain
    → addr_device addr ≡ device
    → addr_address addr ≡ ok name
    → addr_string addr
      ≡ ok (
          b'/'
          ∷ type_char typ
          ∷ b'/'
          ∷ (decimal domain ++ (b'/' ∷ (decimal device ++ (b'/' ∷ name)))))
unfolding addr_string
addr_string-layout typ domain device name addr h t d v a =
    let plain : (addr_type addr == addr_broadcast) ≡ false = rw t (ground arith) in
    rw plain (rw (a, addr_string) (rw (t, d, v)))

module _ (typ domain device : ℕ) (name : List ℕ) where
  layout-type : typ < 4 → length name ≤ 26 → addr_type (layout typ domain device name) ≡ typ
  unfolding addr_type
  layout-type h hn = omega arith

  layout-domain : domain < 2 ^ 32 → addr_domain (layout typ domain device name) ≡ domain
  unfolding addr_domain
  layout-domain h = le_value-le_bytes 4 domain (omega arith)

  layout-device : addr_device (layout typ domain device name) ≡ device
  unfolding addr_device
  layout-device = refl

  layout-name : typ < 4 → length name ≤ 26 → addr_address (layout typ domain device name) ≡ ok name
  layout-name h hn =
      let small : ltb (typ % 8) 4 ≡ true = ground arith in
      layout-address typ domain device name hn ∙ rw small

split_n-none : (sep n : ℕ) (p : List ℕ) → All (λ c. c ≢ sep) p → split_n sep n p ≡ p ∷ []
unfolding split_n
split_n-none sep zero [] h = refl
split_n-none sep zero (c ∷ p) h = refl
split_n-none sep (suc n) [] h = refl
split_n-none sep (suc n) (c ∷ p) h = ground (arith, split_n-none sep (suc n) p h.1, h.0)

-- The three parts of the text of a broadcast address.
split_n-short :
    (kind : ℕ) (domain : List ℕ)
    → kind ≢ b'/'
    → All (λ c. c ≢ b'/') domain
    → split_n b'/' 4 (b'/' ∷ kind ∷ b'/' ∷ domain) ≡ [] ∷ (kind ∷ []) ∷ domain ∷ []
split_n-short kind domain hk hd = rw (
  split_n-cut b'/' 3 [] (kind ∷ b'/' ∷ domain) tt,
  split_n-cut b'/' 2 (kind ∷ []) domain (hk, tt),
  split_n-none b'/' 2 domain hd,
)

broadcast-text :
    (addr : Addr)
    → addr_type addr ≡ addr_broadcast
    → addr_string addr ≡ ok (b'/' ∷ type_char addr_broadcast ∷ b'/' ∷ decimal (addr_domain addr))
unfolding addr_string
broadcast-text addr t = rw t

-- The text of the address with the layout.
abbrev pub spelled : ℕ → ℕ → ℕ → List ℕ → List ℕ
spelled typ domain device name =
    b'/' ∷ type_char typ ∷ b'/' ∷ (decimal domain ++ (b'/' ∷ (decimal device ++ (b'/' ∷ name))))

module _ (typ domain device : ℕ) (name : List ℕ) (ht : typ < 4) (hd : domain < 2 ^ 32) where
  pub addr_string-spelled :
      length name ≤ 26
      → addr_string (layout typ domain device name) ≡ ok (spelled typ domain device name)
  addr_string-spelled hn =
      addr_string-layout typ domain device name (layout typ domain device name) ht
        (layout-type typ domain device name ht hn) (layout-domain typ domain device name hd)
        (layout-device typ domain device name) (layout-name typ domain device name ht hn)

  pub parse_parts-spelled :
      (kind : List ℕ → ℕ)
      → kind (type_char typ ∷ []) ≡ typ
      → device < 256
      → length name ≤ 26
      → parse_parts kind (split_n b'/' 4 (spelled typ domain device name))
        ≡ ok (layout typ domain device name)
  unfolding parse_parts
  parse_parts-spelled kind hk hv hn =
      let domain_back : atoi (decimal domain) % 2 ^ 32 ≡ domain =
        rw (atoi-decimal domain hd) (omega arith) in
      let device_back : atoi (decimal device) % 256 ≡ device =
        rw (atoi-decimal device (omega arith)) (omega arith) in
      rw
        (split_n-parts (type_char typ) (decimal domain) (decimal device) name
          (type_char-ne-slash typ) (decimal-no_slash domain hd)
          (decimal-no_slash device (omega arith)))
        (rw (hk, domain_back, device_back) (new_addr-layout typ domain device name hn))

-- NewAddr makes an address of a type below 4, a domain below 2 ^ 32, a device below 256 and a name of
-- at most 26 bytes; it has a text, and ParseAddr gives the same address for that text, whatever bytes
-- the name holds, slashes included.
pub parse_addr-addr_string :
    (typ domain device : ℕ) (name : List ℕ)
    → typ < 4
    → domain < 2 ^ 32
    → device < 256
    → length name ≤ 26
    → (addr : Addr) × (text : List ℕ) × (new_addr typ domain device name ≡ ok addr)
      × (addr_string addr ≡ ok text)
      × (parse_addr text ≡ ok addr)
unfolding parse_addr
parse_addr-addr_string typ domain device name h hd hv hn = (
  layout typ domain device name,
  spelled typ domain device name,
  new_addr-layout typ domain device name hn,
  addr_string-spelled typ domain device name h hd hn,
  parse_parts-spelled typ domain device name h hd char_type (char_type-type_char typ h) hv hn,
)

-- The text of a broadcast address, with a domain below 2 ^ 32, is not read back: ParseAddr refuses it.
pub parse_addr-broadcast :
    (addr : Addr)
    → addr_type addr ≡ addr_broadcast
    → addr_domain addr < 2 ^ 32
    → (text : List ℕ) × (addr_string addr ≡ ok text) × (parse_addr text ≡ err invalid_address)
unfolding parse_addr parse_parts
parse_addr-broadcast addr t h =
    let domain = decimal (addr_domain addr) in
    (
      b'/' ∷ type_char addr_broadcast ∷ b'/' ∷ domain,
      broadcast-text addr t,
      rw (
          split_n-short (type_char addr_broadcast) domain (type_char-ne-slash addr_broadcast)
            (decimal-no_slash (addr_domain addr) h)),
    )
