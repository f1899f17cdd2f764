-- ===== src/Wire/Body/Cut.antt =====
-- Bodies that do not come back whole: too many groups for a byte, and input that ends early.
use ws_cluster.Common.{
  ℕ, ◌%◌, ◌^◌, ◌≡◌, refl, List, [], ◌∷◌, ◌++◌, length, take, drop, All, ok, arith, ◌⊎◌, inl, inr,
}
use ws_cluster.Wire.Io.{buffer}
use ws_cluster.Wire.Io.Laws
use ws_cluster.Wire.Addr.{Addr, IsAddr, decode_addr, empty_addr}
use ws_cluster.Wire.Body.{
  Body, MsgGroupInOut, MsgLoc, encode_group_in_out, decode_group_in_out, decode_or_keep, decode_loc,
  decode_body, decode_offline_notice, decode_query_client, make_empty_body, loc, offline_notice,
  query_client,
}
use ws_cluster.Wire.Body.RoundTrip.{emits, concat, decode_addrs-take, read_body}

-- The number of groups is written in one byte: of any list of groups, the first `length % 256` come
-- back, and the addresses of the others are left in the input.
pub group_in_out_wraps :
    (m : MsgGroupInOut) (rest : List ℕ)
    → All IsAddr m.groups
    → (bs : List ℕ) × (encode_group_in_out m [] ≡ (ok tt, bs))
      × (decode_group_in_out (bs ++ rest) ≡ (
        ok (record m { groups = take (length m.groups % 2 ^ 8) m.groups }),
        concat (drop (length m.groups % 2 ^ 8) m.groups) ++ rest,
      ))
unfolding encode_group_in_out decode_group_in_out
group_in_out_wraps m rest h = (
  m.in_out ∷ ((length m.groups % 2 ^ 8) ∷ concat m.groups),
  simp emits,
  simp
      (Laws.uint8-Reads, decode_addrs-take (length m.groups % 2 ^ 8) m.groups rest h (omega arith)),
)

-- A read whose error is dropped succeeds.
keep-ok :
    (old : Addr) (r : List ℕ)
    → (addr : Addr) × (rest : List ℕ) × (decode_or_keep old r ≡ (ok addr, rest))
unfolding decode_or_keep decode_addr
keep-ok old [] = (old, [], refl)
keep-ok old (b ∷ bs) = (_, _, refl)

-- The bodies whose every error is dropped.
abbrev pub Lenient : ℕ → Type 0
Lenient command = (command ≡ 9) ⊎ ((command ≡ 13) ⊎ (command ≡ 15))

loc-ok :
    (old : MsgLoc) (r : List ℕ) → (m : MsgLoc) × (rest : List ℕ) × (decode_loc old r ≡ (ok m, rest))
unfolding decode_loc
loc-ok old r =
    let (target, r1, e1) = keep-ok old.target r in
    let (peer, r2, e2) = keep-ok old.peer r1 in
    let (server, r3, e3) = keep-ok old.server r2 in
    (record { target = target; peer = peer; server = server }, r3, rw (e1, e2) (rw e3))

pub read_body-Lenient :
    (command : ℕ) (r : List ℕ)
    → Lenient command
    → (b : Body) × (rest : List ℕ) × (read_body command r ≡ (ok b, rest))
unfolding make_empty_body decode_body decode_offline_notice decode_query_client
read_body-Lenient command r (inl e) =
    let (m, rest, p) =
      loc-ok (record { target = empty_addr; peer = empty_addr; server = empty_addr }) r in
    (loc m, rest, rw e (rw p))
read_body-Lenient command r (inr (inl e)) =
    let (peer, rest, p) = keep-ok empty_addr r in
    (offline_notice (record { peer = peer }), rest, rw e (rw p))
read_body-Lenient command r (inr (inr e)) =
    let (peer, rest, p) = keep-ok empty_addr r in
    (query_client (record { peer = peer }), rest, rw e (rw p))
