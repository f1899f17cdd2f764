-- ===== src/Wire/Message.antt =====
-- wire/message.go: headers and messages.
pub mod RoundTrip
pub mod Cut
pub mod Bounds
use ws_cluster.Common.{ℕ, List, [], ◌∷◌, M, ◌>>=◌, ◌>>◌, pure, lift}
use ws_cluster.Wire.Io.{Writer, read_uint8, read_uint32, write_uint8, write_uint32}
use ws_cluster.Wire.Addr.{Addr, empty_addr, encode_addr, decode_addr}
use ws_cluster.Wire.Body.{Body, empty, make_empty_body, encode_body, decode_body}

pub record Header : Type 0 where
  pub source : Addr
  pub dest : Addr
  pub seq : ℕ
  pub ack_seq : ℕ
  pub command : ℕ
  pub status : ℕ

pub record Message : Type 0 where
  pub header : Header
  pub body : Body

-- `&Header{}`
abbrev pub empty_header : Header
empty_header = record {
  source = empty_addr;
  dest = empty_addr;
  seq = 0;
  ack_seq = 0;
  command = 0;
  status = 0;
}

unfoldable pub decode_header : Header → M (List ℕ) Header
decode_header h = do
  source ← decode_addr h.source
  dest ← decode_addr h.dest
  seq ← read_uint32
  ack_seq ← read_uint32
  command ← read_uint8
  status ← read_uint8
  pure (record {
    source = source;
    dest = dest;
    seq = seq;
    ack_seq = ack_seq;
    command = command;
    status = status;
  })

unfoldable pub decode_message : M (List ℕ) Message
decode_message = do
  header ← decode_header empty_header
  body ← lift (make_empty_body header.command)
  body' ← decode_body body
  pure (record { header = header; body = body' })

module _ {W : Type 0} ⦃o : Writer W⦄ where
  unfoldable pub encode_header : Header → M W (Unit {0})
  encode_header h = do
    encode_addr h.source
    encode_addr h.dest
    write_uint32 h.seq
    write_uint32 h.ack_seq
    write_uint8 h.command
    write_uint8 h.status

  unfoldable pub encode_message : Message → M W (Unit {0})
  encode_message m = do encode_header m.header; encode_body m.body

-- MakeEmptyHeaderMessage
unfoldable pub make_empty_header_message : ℕ → Body → Message
make_empty_header_message command body = record {
  header = record empty_header { command = command };
  body = body;
}

-- MakeEmptyRespMessage: the answer goes back to the source, and names the number it answers.
unfoldable pub make_empty_resp_message : Header → ℕ → Message
make_empty_resp_message from status = record {
  header = record {
    source = from.dest;
    dest = from.source;
    seq = 0;
    ack_seq = from.seq;
    command = 200;
    status = status;
  };
  body = empty;
}
