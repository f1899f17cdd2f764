-- ===== src/Peer/Inbound/WellFormed.antt =====
-- What a peer hands to OnMessage is well-formed, whatever is received.
use ws_cluster.Common.{
  ℕ, zero, suc, ◌<◌, ◌≡◌, refl, List, [], ◌∷◌, length, map, some, Result, ok, err, All, Bool-cases,
  inl, inr, arith, Holds, ◌==◌,
}
use ws_cluster.Wire.Io.Bounds.{IsBytes}
use ws_cluster.Wire.Addr.{Addr, IsAddr, addr_type, addr_client}
use ws_cluster.Wire.Message.{Message, decode_message}
use ws_cluster.Wire.Message.RoundTrip.{IsMessage}
use ws_cluster.Wire.Message.Cut.{decode_message_takes}
use ws_cluster.Wire.Message.Bounds.{decode_message-Ensures}
use ws_cluster.Peer.Inbound.{
  decode_frame, decode_frame-ok, decode_frame-err, set_source, frame_messages,
}

decode_frame-IsMessage :
    (fuel : ℕ) (buf : List ℕ)
    → length buf < fuel
    → IsBytes buf
    → (ms : List Message) × (decode_frame fuel buf ≡ some ms) × All IsMessage ms
decode_frame-IsMessage zero buf h bytes = elim h [ ]
decode_frame-IsMessage (suc fuel) buf h bytes =
    step (decode_message buf) refl (decode_message-Ensures.holds buf bytes)
      (decode_frame-IsMessage fuel)
  where
    step :
        (p : Result Message × List ℕ)
        → decode_message buf ≡ p
        → Holds IsBytes IsMessage p
        → ((r : List ℕ)
            → length r < fuel
            → IsBytes r
            → (ms : List Message) × (decode_frame fuel r ≡ some ms) × All IsMessage ms)
        → (ms : List Message) × (decode_frame (suc fuel) buf ≡ some ms) × All IsMessage ms
    step (ok m, rest) e (v, left) next =
        let (ms, q, vs) = next rest (omega (arith, decode_message_takes buf rest m e)) left in
        (m ∷ ms, rw (decode_frame-ok fuel buf rest m e) (rw q), (v, vs))
    step (err x, rest) e left next = ([], decode_frame-err fuel buf rest x e, tt)

set_source-IsMessage :
    (addr : Addr) (m : Message) → IsAddr addr → IsMessage m → IsMessage (set_source addr m)
unfolding set_source
set_source-IsMessage addr m a v = elim (Bool-cases (addr_type addr == addr_client)) [
  | inl t ↦ rw t (record {
    header_ok = record {
      source_size = a;
      dest_size = v.header_ok.dest_size;
      seq_bound = v.header_ok.seq_bound;
      ack_seq_bound = v.header_ok.ack_seq_bound;
    };
    body_ok = v.body_ok;
    command_ok = v.command_ok;
  })
  | inr t ↦ rw t v
]

map-set_source-IsMessage :
    (addr : Addr) (ms : List Message)
    → IsAddr addr
    → All IsMessage ms
    → All IsMessage (map (set_source addr) ms)
map-set_source-IsMessage addr [] a v = tt
map-set_source-IsMessage addr (m ∷ ms) a v =
    (set_source-IsMessage addr m a v.0, map-set_source-IsMessage addr ms a v.1)

-- Whatever bytes a frame holds, the loop over it ends, and each message that it hands to OnMessage is
-- well-formed: addresses of 32 bytes, numbers and lengths that fit their fields, and a body of the type
-- that the command names.
pub frame_messages-IsMessage :
    (addr : Addr) (frame : List ℕ)
    → IsAddr addr
    → IsBytes frame
    → (ms : List Message) × (frame_messages addr frame ≡ some ms) × All IsMessage ms
unfolding frame_messages
frame_messages-IsMessage addr frame a bytes =
    let (ms, e, vs) = decode_frame-IsMessage (suc (length frame)) frame (omega arith) bytes in
    (map (set_source addr) ms, rw e, map-set_source-IsMessage addr ms a vs)
