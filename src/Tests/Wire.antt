-- ===== src/Tests/Wire.antt =====
-- Addresses and messages: runs, and the theorems of the package wire at concrete inputs.
use ws_cluster.Wire.Io.{buffer}
use ws_cluster.Wire.Message.Cut.{decode_message-Lenient}
use ws_cluster.Wire.Message.RoundTrip.{IsHeader, header_bytes}
use ws_cluster.Common.{
  inl, ℕ, ◌≤◌, ◌<◌, ◌≡◌, ◌⊎◌, refl, List, [], ◌∷◌, ◌++◌, ok, err, panicked, arith, addr_overflow,
}
use ws_cluster.Wire.Addr.{
  Addr, IsAddr, new_addr, addr_type, addr_len, addr_domain, addr_device, addr_address,
}
use ws_cluster.Wire.Addr.Fields.{new_addr_fields, layout}
use ws_cluster.Wire.Body.{Body, chat}
use ws_cluster.Wire.Message.{Header, Message, empty_header, encode_message, decode_message}
use ws_cluster.Wire.Message.RoundTrip.{
  IsMessage, message_bytes, decode_message-encode_message, message-Reads,
}
use ws_cluster.Wire.Message.Bounds.{decoded_message_forwards}

-- "sys"
abbrev pub sys : List ℕ
sys = 115 ∷ 121 ∷ 115 ∷ []

abbrev pub client : Addr
client = layout 1 7 2 sys

abbrev pub server : Addr
server = layout 2 0 0 (49 ∷ [])

abbrev pub everyone : Addr
everyone = layout 4 7 0 sys

new_client : new_addr 1 7 2 sys ≡ ok client
unfolding new_addr
new_client = refl

-- The length of a broadcast address is read with the top bit of its type.
broadcast_len : addr_len everyone ≡ 131
unfolding addr_len
broadcast_len = refl

broadcast_address : addr_address everyone ≡ err panicked
unfolding addr_address
broadcast_address = refl

abbrev pub hello : Message
hello = record {
  header = record {
    source = client;
    dest = server;
    seq = 300;
    ack_seq = 0;
    command = 3;
    status = 0;
  };
  body = chat (record { type = 1; text = 104 ∷ 105 ∷ []; extra = [] });
}

abbrev locating : Header
locating = record empty_header { source = server; dest = server; command = 9 }

pub hello-IsMessage : IsMessage hello
hello-IsMessage = record {
  header_ok = record {
    source_size = refl;
    dest_size = refl;
    seq_bound = omega arith;
    ack_seq_bound = omega arith;
  };
  body_ok = omega arith;
  command_ok = refl;
}

new_addr_fields_example :
    ((26 < 3) × (new_addr 4 7 0 sys ≡ err addr_overflow))
    ⊎ ((3 ≤ 26)
        × ((addr : Addr) × (new_addr 4 7 0 sys ≡ ok addr)
            × IsAddr addr
            × (addr_type addr ≡ 4)
            × (addr_domain addr ≡ 7)
            × (addr_device addr ≡ 0)
            × (addr_address addr ≡ err panicked)))
new_addr_fields_example = new_addr_fields 4 7 0 sys (omega arith)

decode_message-encode_message_example :
    (encode_message hello (9 ∷ []) ≡ (ok tt, 9 ∷ message_bytes hello))
    × (decode_message (message_bytes hello ++ (8 ∷ [])) ≡ (ok hello, 8 ∷ []))
decode_message-encode_message_example =
    decode_message-encode_message hello (9 ∷ []) (8 ∷ []) hello-IsMessage

decoded_message_forwards_example :
    IsMessage hello
    × (encode_message hello (7 ∷ []) ≡ (ok tt, 7 ∷ message_bytes hello))
    × (decode_message (message_bytes hello ++ (6 ∷ [])) ≡ (ok hello, 6 ∷ []))
decoded_message_forwards_example =
    decoded_message_forwards (message_bytes hello ++ (8 ∷ [])) (8 ∷ []) (7 ∷ []) (6 ∷ []) hello
      (ground arith) (message-Reads hello hello-IsMessage (8 ∷ []))

locating-IsHeader : IsHeader locating
locating-IsHeader = record {
  source_size = refl;
  dest_size = refl;
  seq_bound = omega arith;
  ack_seq_bound = omega arith;
}

-- A locating message without a body.
decode_message-Lenient_example :
    (b : Body) × (rest : List ℕ) × (decode_message (header_bytes locating ++ [])
      ≡ (ok (record { header = locating; body = b }), rest))
decode_message-Lenient_example = decode_message-Lenient locating [] locating-IsHeader (inl refl)
