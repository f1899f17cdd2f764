-- ===== src/Peer/Outbound.antt =====
-- peer/peer.go: writeMessage, which numbers a message and writes it as one websocket frame, and the
-- outer loop of inMessageHandler on the other side, over the frames that come.
pub mod Delivery
use ws_cluster.Common.{
  ℕ, ◌+◌, ◌%◌, ◌^◌, Bool, true, false, List, [], ◌∷◌, ◌++◌, Option, none, some, Result, ok, err,
  write_failed, M, length, ltb, ◌==◌, if◌then◌else◌,
}
use ws_cluster.Wire.Addr.{Addr}
use ws_cluster.Wire.Io.{buffer}
use ws_cluster.Wire.Message.{Message, encode_message}
use ws_cluster.Peer.Inbound.{frame_messages}
use mathlib.Core.Option

-- What writeMessage changes: the peer's `autoSeq`, and the frames that are written to its websocket.
pub record Sender : Type 0 where
  pub auto_seq : ℕ
  pub frames : List (List ℕ)

-- The results of NextWriter and of the writer's Close.
pub record Socket : Type 0 where
  pub opens : Bool
  pub closes : Bool

abbrev pub with_seq : ℕ → Message → Message
with_seq n msg = record msg { header = record (msg.header) { seq = n } }

-- A message without a number is given the next one.
unfoldable pub next_seq : Message → Sender → Message × Sender
next_seq msg p =
    let n = (p.auto_seq + 1) % 2 ^ 32 in
    if msg.header.seq == 0 then (with_seq n msg, record p { auto_seq = n }) else (msg, p)

unfoldable pub write_frame : Bool → Result (Unit {0}) × List ℕ → M Sender (Unit {0})
write_frame closes (err e, bytes) p = (err e, p)
write_frame closes (ok _, bytes) p =
    if closes
    then (ok tt, record p { frames = p.frames ++ (bytes ∷ []) })
    else (err write_failed, p)

unfoldable pub write_message : Socket → Message → M Sender (Unit {0})
unfolding next_seq write_frame
write_message conn message p =
    let (msg, p') = next_seq message p in
    if conn.opens
    then write_frame conn.closes (encode_message msg []) p'
    else (err write_failed, p')

abbrev pub join_messages : Option (List Message) → Option (List Message) → Option (List Message)
join_messages none later = none
join_messages (some ms) later = Option.map (◌++◌ ms) later

-- One frame, with what the later ones give.
unfoldable pub read_frame : Addr → List ℕ → Option (List Message) → Option (List Message)
read_frame addr [] later = later
read_frame addr (b ∷ bs) later = join_messages (frame_messages addr (b ∷ bs)) later

-- The messages of the frames that come, for each of which a goroutine is started, in this order. Behind
-- a frame that is longer than the limit of SetReadLimit, which is above 0, ReadMessage fails, and the
-- loop ends.
unfoldable pub read_frames : ℕ → Addr → List (List ℕ) → Option (List Message)
unfolding read_frame
read_frames limit addr [] = some []
read_frames limit addr (frame ∷ frames) =
    let later = read_frames limit addr frames in
    if ltb limit (length frame) then some [] else read_frame addr frame later
