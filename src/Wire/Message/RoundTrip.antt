-- ===== src/Wire/Message/RoundTrip.antt =====
-- Messages are read back from the bytes that they are written as, whatever follows them.
use ws_cluster.Common.{
  ℕ, ◌^◌, ◌<◌, ◌≡◌, refl, List, [], ◌∷◌, ◌++◌, append_assoc, ok, M, pure, ◌∙◌, sym, bind_result,
  bind_result_assoc, lift,
}
use ws_cluster.Wire.Io.{buffer, le_bytes}
use ws_cluster.Wire.Io.Laws
use ws_cluster.Wire.Io.Laws.{Emits, Reads}
use ws_cluster.Wire.Addr.{IsAddr, empty_addr}
use ws_cluster.Wire.Body.{Body, command_of, make_empty_body, decode_body}
use ws_cluster.Wire.Body.RoundTrip.{
  IsBody, read_body, body_bytes, body-Emits, body-Reads, addr-Emits, addr-Reads,
}
use ws_cluster.Wire.Message.{
  Header, Message, empty_header, encode_header, decode_header, encode_message, decode_message,
}

-- The fields of a header fit the bytes that they are written to.
pub record IsHeader (h : Header) : Type 0 where
  pub source_size : IsAddr h.source
  pub dest_size : IsAddr h.dest
  pub seq_bound : h.seq < 2 ^ 32
  pub ack_seq_bound : h.ack_seq < 2 ^ 32

-- A message whose header names the type of its body.
pub record IsMessage (m : Message) : Type 0 where
  pub header_ok : IsHeader m.header
  pub body_ok : IsBody m.body
  pub command_ok : m.header.command ≡ command_of m.body

abbrev pub header_bytes : Header → List ℕ
header_bytes h =
    h.source
    ++ (h.dest ++ (le_bytes 4 h.seq ++ (le_bytes 4 h.ack_seq ++ (h.command ∷ (h.status ∷ [])))))

abbrev pub message_bytes : Message → List ℕ
message_bytes m = header_bytes m.header ++ body_bytes m.body

header-Emits : (h : Header) → Emits (encode_header h) (header_bytes h)
unfolding encode_header
header-Emits h w = simp (addr-Emits, Laws.uint32-Emits, Laws.uint8-Emits, append_assoc)

pub message-Emits : (m : Message) → Emits (encode_message m) (message_bytes m)
unfolding encode_message
message-Emits m w = simp (header-Emits, body-Emits, append_assoc)

pub header-Reads : (h : Header) → IsHeader h → Reads (decode_header empty_header) (header_bytes h) h
unfolding decode_header
header-Reads h v rest = simp (
  append_assoc,
  addr-Reads h.source empty_addr v.source_size refl,
  addr-Reads h.dest empty_addr v.dest_size refl,
  Laws.uint32-Reads h.seq v.seq_bound,
  Laws.uint32-Reads h.ack_seq v.ack_seq_bound,
  Laws.uint8-Reads,
)

-- The end of Decode.
abbrev pub finish : Header → Body → M (List ℕ) Message
finish h body = pure (record { header = h; body = body })

-- After a whole header, Decode reads the body that the header's command names.
pub decode_message-header :
    (h : Header) (r : List ℕ)
    → IsHeader h
    → decode_message (header_bytes h ++ r) ≡ bind_result (read_body h.command r) (finish h)
unfolding decode_message
decode_message-header h r v =
    rw (header-Reads h v r)
      (sym (bind_result_assoc (lift (make_empty_body h.command) r) decode_body (finish h)))

pub message-Reads : (m : Message) → IsMessage m → Reads decode_message (message_bytes m) m
message-Reads m v rest = rw (append_assoc (header_bytes m.header) (body_bytes m.body) rest) (
    decode_message-header m.header _ v.header_ok
    ∙ rw v.command_ok (rw (body-Reads m.body v.body_ok rest)))

-- A message with fields in range, whose command is that of its body, is appended to a buffer by
-- Encode, without an error, and Decode reads exactly it back, leaving whatever follows.
pub decode_message-encode_message :
    (m : Message) (buf rest : List ℕ)
    → IsMessage m
    → (encode_message m buf ≡ (ok tt, buf ++ message_bytes m))
      × (decode_message (message_bytes m ++ rest) ≡ (ok m, rest))
decode_message-encode_message m buf rest v = (message-Emits m buf, message-Reads m v rest)
