-- ===== src/Peer/Inbound.antt =====
-- peer/peer.go, inMessageHandler: the messages of one websocket frame.
pub mod WellFormed
use ws_cluster.Common.{
  ℕ, zero, suc, ◌<◌, ◌≡◌, refl, List, [], ◌∷◌, ◌++◌, length, map, Option, none, some, Result, ok,
  err, All, ◌==◌, if◌then◌else◌, arith, append_assoc, length-append, Error,
}
use ws_cluster.Wire.Addr.{Addr, addr_type, addr_client}
use ws_cluster.Wire.Message.{Message, decode_message}
use ws_cluster.Wire.Message.RoundTrip.{IsMessage, message_bytes, message-Reads}
use ws_cluster.Wire.Message.Cut.{decode_message_takes}
use mathlib.Core.Option

-- One round of the inner loop, with what the later rounds give.
unfoldable pub next_messages :
    (List ℕ → Option (List Message)) → Result Message × List ℕ → Option (List Message)
next_messages later (ok m, rest) = Option.map (◌∷◌ m) (later rest)
next_messages later (err e, rest) = some []

-- The inner loop: messages are decoded until one is not. `none` means that the fuel ran out.
unfoldable pub decode_frame : ℕ → List ℕ → Option (List Message)
unfolding next_messages
decode_frame zero buf = none
decode_frame (suc fuel) buf = next_messages (decode_frame fuel) (decode_message buf)

-- A client's peer writes its own address over the source.
unfoldable pub set_source : Addr → Message → Message
set_source addr msg =
    if addr_type addr == addr_client
    then record msg { header = record (msg.header) { source = addr } }
    else msg

-- The messages for which a goroutine is started that calls OnMessage, in the order of the starts, for
-- a frame that the peer at `addr` sent; Peer/Calls has the calls. Each round takes a byte at least, so `length frame + 1` rounds are enough.
unfoldable pub frame_messages : Addr → List ℕ → Option (List Message)
unfolding decode_frame set_source
frame_messages addr frame =
    Option.map (map (set_source addr)) (decode_frame (suc (length frame)) frame)

decode_frame-ok :
    (fuel : ℕ) (buf rest : List ℕ) (m : Message)
    → decode_message buf ≡ (ok m, rest)
    → decode_frame (suc fuel) buf ≡ Option.map (◌∷◌ m) (decode_frame fuel rest)
unfolding decode_frame
decode_frame-ok fuel buf rest m e = rw e

decode_frame-err :
    (fuel : ℕ) (buf rest : List ℕ) (x : Error)
    → decode_message buf ≡ (err x, rest)
    → decode_frame (suc fuel) buf ≡ some []
unfolding decode_frame
decode_frame-err fuel buf rest x e = rw e

decode_frame-total :
    (fuel : ℕ) (buf : List ℕ)
    → length buf < fuel
    → (ms : List Message) × (decode_frame fuel buf ≡ some ms)
decode_frame-total zero buf h = elim h [ ]
decode_frame-total (suc fuel) buf h = step (decode_message buf) refl (decode_frame-total fuel)
  where
    step :
        (p : Result Message × List ℕ)
        → decode_message buf ≡ p
        → ((r : List ℕ) → length r < fuel → (ms : List Message) × (decode_frame fuel r ≡ some ms))
        → (ms : List Message) × (decode_frame (suc fuel) buf ≡ some ms)
    step (ok m, rest) e next =
        let (ms, q) = next rest (omega (arith, decode_message_takes buf rest m e)) in
        (m ∷ ms, rw (decode_frame-ok fuel buf rest m e) (rw q))
    step (err x, rest) e next = ([], decode_frame-err fuel buf rest x e)

-- Whatever a frame holds, its loop ends.
pub frame_messages-total :
    (addr : Addr) (frame : List ℕ) → (ms : List Message) × (frame_messages addr frame ≡ some ms)
unfolding frame_messages
frame_messages-total addr frame =
    let (ms, e) = decode_frame-total (suc (length frame)) frame (omega arith) in
    (map (set_source addr) ms, rw e)

-- The frame that a list of messages is sent as.
abbrev pub frame_bytes : List Message → List ℕ
frame_bytes [] = []
frame_bytes (m ∷ ms) = message_bytes m ++ frame_bytes ms

short-err :
    (r : List ℕ)
    → length r < 74
    → (x : Error) × (rest : List ℕ) × (decode_message r ≡ (err x, rest))
short-err r h = step (decode_message r) refl
  where
    step :
        (p : Result Message × List ℕ)
        → decode_message r ≡ p
        → (x : Error) × (rest : List ℕ) × (decode_message r ≡ (err x, rest))
    step (ok m, rest) e = absurd (omega (arith, decode_message_takes r rest m e))
    step (err x, rest) e = (x, rest, e)

decode_frame-frame_bytes :
    (fuel : ℕ) (ms : List Message) (tail : List ℕ)
    → All IsMessage ms
    → length tail < 74
    → length (frame_bytes ms) < fuel
    → decode_frame fuel (frame_bytes ms ++ tail) ≡ some ms
decode_frame-frame_bytes zero ms tail h t f = elim f [ ]
decode_frame-frame_bytes (suc fuel) [] tail h t f =
    let (x, rest, e) = short-err tail t in decode_frame-err fuel tail rest x e
decode_frame-frame_bytes (suc fuel) (m ∷ ms) tail h t f =
    rw (append_assoc (message_bytes m) (frame_bytes ms) tail) (
      rw
        (decode_frame-ok fuel _ (frame_bytes ms ++ tail) m
          (message-Reads m h.0 (frame_bytes ms ++ tail)))
        (rw (
          decode_frame-frame_bytes fuel ms tail h.1 t (
            omega (
              arith,
              decode_message_takes _ (frame_bytes ms) m (message-Reads m h.0 (frame_bytes ms)),
            )))))

-- A frame that holds the encodings of messages, one after the other, and fewer than 74 bytes more,
-- is decoded to those messages, in their order, each with the source that the peer sets.
pub frame_messages-frame_bytes :
    (addr : Addr) (ms : List Message) (tail : List ℕ)
    → All IsMessage ms
    → length tail < 74
    → frame_messages addr (frame_bytes ms ++ tail) ≡ some (map (set_source addr) ms)
unfolding frame_messages
frame_messages-frame_bytes addr ms tail h t = rw (
    decode_frame-frame_bytes (suc (length (frame_bytes ms ++ tail))) ms tail h t
      (omega (arith, length-append (frame_bytes ms) tail)))
