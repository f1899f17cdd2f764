-- ===== src/Wire/Message/Bounds.antt =====
-- A message that is decoded is well-formed, so that it can be passed on.
use ws_cluster.Common.{
  ℕ, ◌≡◌, refl, sym, ◌∙◌, List, ◌++◌, ok, lift, Ensures, ensures-ok, ensures_next, ensures_pure,
  ensures_lift, arith,
}
use ws_cluster.Wire.Io.{read_uint8, read_uint32, buffer}
use ws_cluster.Wire.Io.Bounds.{IsBytes, uint8-Ensures, uint32-Ensures}
use ws_cluster.Wire.Addr.{decode_addr}
use ws_cluster.Wire.Body.{Body, command_of, make_empty_body, decode_body}
use ws_cluster.Wire.Body.Bounds.{IsReceiver, addr-Ensures, body-Ensures}
use ws_cluster.Wire.Message.{Message, empty_header, decode_header, decode_message, encode_message}
use ws_cluster.Wire.Message.RoundTrip.{
  IsHeader, IsMessage, message_bytes, decode_message-encode_message,
}

decode_header-Ensures : Ensures IsBytes (decode_header empty_header) IsHeader
unfolding decode_header
decode_header-Ensures =
    ensures_next (decode_addr empty_header.source) _ (addr-Ensures empty_header.source refl)
      λ source hs.
        ensures_next (decode_addr empty_header.dest) _ (addr-Ensures empty_header.dest refl)
          λ dest hd. ensures_next read_uint32 _ uint32-Ensures λ seq hq.
            ensures_next read_uint32 _ uint32-Ensures λ ack ha.
              ensures_next read_uint8 _ uint8-Ensures λ command hc.
                ensures_next read_uint8 _ uint8-Ensures λ status ht.
                  ensures_pure (record {
                    source_size = hs;
                    dest_size = hd;
                    seq_bound = hq;
                    ack_seq_bound = ha;
                  })

-- The receiver for a command.
make_empty_body-IsReceiver :
    (command : ℕ) (b : Body)
    → make_empty_body command ≡ ok b
    → IsReceiver b × (command_of b ≡ command)
unfolding make_empty_body
make_empty_body-IsReceiver command b e = ground arith

pub decode_message-Ensures : Ensures IsBytes decode_message IsMessage
unfolding decode_message
decode_message-Ensures =
    ensures_next (decode_header empty_header) IsHeader decode_header-Ensures λ h hh.
      ensures_next (lift (make_empty_body h.command))
        (λ b. IsReceiver b × (command_of b ≡ h.command))
        (ensures_lift _ (make_empty_body-IsReceiver h.command))
        λ old r. ensures_next (decode_body old) _ (body-Ensures old r.0) λ b hb.
          ensures_pure (record { header_ok = hh; body_ok = hb.0; command_ok = sym (hb.1 ∙ r.1) })

-- Whatever bytes come, a message that Decode returns is well-formed: its addresses have 32 bytes, its
-- numbers and lengths fit their fields, and its body is of the type that its command names. So it can
-- be passed on: Encode appends it to any buffer without an error, and Decode, with anything behind it,
-- gives the same message.
pub decoded_message_forwards :
    (r rest buf after : List ℕ) (m : Message)
    → IsBytes r
    → decode_message r ≡ (ok m, rest)
    → IsMessage m
      × (encode_message m buf ≡ (ok tt, buf ++ message_bytes m))
      × (decode_message (message_bytes m ++ after) ≡ (ok m, after))
decoded_message_forwards r rest buf after m bytes e =
    let (v, _) = ensures-ok r decode_message-Ensures bytes e in
    let (written, read) = decode_message-encode_message m buf after v in (v, written, read)
