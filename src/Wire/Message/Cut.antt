-- ===== src/Wire/Message/Cut.antt =====
-- Messages whose input ends early.
use ws_cluster.Wire.Body.Takes.{addr-exact, body-Takes}
use ws_cluster.Wire.Io.Takes.{read_full-exact}
use ws_cluster.Common.{
  ℕ, ◌+◌, ◌≤◌, ◌≡◌, List, ◌++◌, length, ok, arith, bind_result, bind_result-ok, ◌∙◌, ap, lift, pure,
}
use ws_cluster.Wire.Io.{read_full, read_uint32, read_uint8, le_value}
use ws_cluster.Wire.Addr.{decode_addr}
use ws_cluster.Wire.Body.{Body, decode_body, make_empty_body}
use ws_cluster.Wire.Body.Cut.{Lenient, read_body-Lenient}
use ws_cluster.Wire.Message.{Header, Message, empty_header, decode_header, decode_message}
use ws_cluster.Wire.Message.RoundTrip.{IsHeader, header_bytes, decode_message-header}

-- After the header of a locating, offline-notice or query message, any input at all is accepted as
-- the body, the empty one included.
pub decode_message-Lenient :
    (h : Header) (r : List ℕ)
    → IsHeader h
    → Lenient h.command
    → (b : Body) × (rest : List ℕ) × (decode_message (header_bytes h ++ r)
        ≡ (ok (record { header = h; body = b }), rest))
decode_message-Lenient h r v l =
    let (b, rest, e) = read_body-Lenient h.command r l in
    (b, rest, decode_message-header h r v ∙ rw e)

-- A header that is read takes 74 bytes exactly: an address that is cut short leaves nothing for the
-- fields that follow it.
le-exact :
    (n : ℕ) (r rest : List ℕ) (v : ℕ)
    → bind_result (read_full n r) (λ bytes. pure (le_value bytes)) ≡ (ok v, rest)
    → length rest + n ≡ length r
le-exact n r rest v e =
    let (bytes, s, p, q) = bind_result-ok (read_full n r) _ v rest e in
    omega (arith, read_full-exact n r s bytes p, ap (λ p. length p.1) q)

header-exact :
    (h x : Header) (r rest : List ℕ)
    → decode_header h r ≡ (ok x, rest)
    → length rest + 74 ≡ length r
unfolding decode_header read_uint32 read_uint8
header-exact h x r rest e =
    let (source, r1, p1, e1) = bind_result-ok (decode_addr h.source r) _ x rest e in
    let (dest, r2, p2, e2) = bind_result-ok (decode_addr h.dest r1) _ x rest e1 in
    let (seq, r3, p3, e3) = bind_result-ok (read_uint32 r2) _ x rest e2 in
    let (ack_seq, r4, p4, e4) = bind_result-ok (read_uint32 r3) _ x rest e3 in
    let (command, r5, p5, e5) = bind_result-ok (read_uint8 r4) _ x rest e4 in
    let (status, r6, p6, e6) = bind_result-ok (read_uint8 r5) _ x rest e5 in
    omega (
      arith,
      addr-exact h.source r r1 source p1,
      addr-exact h.dest r1 r2 dest p2,
      le-exact 4 r2 r3 seq p3,
      le-exact 4 r3 r4 ack_seq p4,
      le-exact 1 r4 r5 command p5,
      le-exact 1 r5 r6 status p6,
      ap (λ p. length p.1) e6,
    )

-- A message that Decode returns takes 74 bytes at least: shorter input is an error, whatever it is.
pub decode_message_takes :
    (r rest : List ℕ) (m : Message) → decode_message r ≡ (ok m, rest) → length rest + 74 ≤ length r
unfolding decode_message
decode_message_takes r rest m e =
    let (h, r1, p1, e1) = bind_result-ok (decode_header empty_header r) _ m rest e in
    let (old, r2, p2, e2) = bind_result-ok (lift (make_empty_body h.command) r1) _ m rest e1 in
    let (b, r3, p3, e3) = bind_result-ok (decode_body old r2) _ m rest e2 in
    omega (
      arith,
      header-exact empty_header h r r1 p1,
      ap (λ p. length p.1) p2,
      (body-Takes old).taken r2 r3 b p3,
      ap (λ p. length p.1) e3,
    )
