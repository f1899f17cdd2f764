-- ===== src/Peer/Calls.antt =====
-- peer/peer.go, inMessageHandler: the goroutine that is started for each message, and calls OnMessage.
use mathlib.Core.List.{Perm, perm_middle}
use mathlib.Core.List.Perm
use ws_cluster.Common.{ℕ, ◌<◌, ◌≡◌, sym, ◌∙◌, List, [], ◌∷◌, ◌++◌, length, map, some, All}
use mathlib.Core.Option.{some-injective}
use mathlib.Core.Path.{subst}
use ws_cluster.Wire.Addr.{Addr}
use ws_cluster.Wire.Message.{Message}
use ws_cluster.Wire.Message.RoundTrip.{IsMessage}
use ws_cluster.Peer.Inbound.{frame_messages, set_source, frame_bytes, frame_messages-frame_bytes}

-- Of the goroutines that are started, any one is the next to call OnMessage: the calls, the first one
-- first, that the goroutines for these messages make.
pub data CallOrder : List Message → List Message → Type 0 where
  no_calls : CallOrder [] []
  next_call :
      (before : List Message) (msg : Message) (after calls : List Message)
      → CallOrder (before ++ after) calls
      → CallOrder (before ++ (msg ∷ after)) (msg ∷ calls)

-- The calls of OnMessage for a frame that the peer at `addr` sent.
pub record FrameCalls (addr : Addr) (frame : List ℕ) (calls : List Message) : Type 0 where
  pub started : List Message
  pub starts : frame_messages addr frame ≡ some started
  pub called : CallOrder started calls

pub CallOrder-Perm : {started calls : List Message} → CallOrder started calls → Perm started calls
CallOrder-Perm no_calls = Perm.refl []
CallOrder-Perm (next_call before msg after calls later) =
    Perm.trans (perm_middle before after) (Perm.cons msg (CallOrder-Perm later))

-- For a frame that holds the encodings of messages, one after the other, and fewer than 74 bytes more,
-- a goroutine is started for each of those messages, in their order, with the source that the peer
-- sets. In whatever order the goroutines then call OnMessage, each message is handed to it just once,
-- and no other.
pub FrameCalls-frame_bytes :
    (addr : Addr) (ms : List Message) (tail : List ℕ) (calls : List Message)
    → All IsMessage ms
    → length tail < 74
    → FrameCalls addr (frame_bytes ms ++ tail) calls
    → (frame_messages addr (frame_bytes ms ++ tail) ≡ some (map (set_source addr) ms))
      × Perm (map (set_source addr) ms) calls
FrameCalls-frame_bytes addr ms tail calls h t c =
    let e = frame_messages-frame_bytes addr ms tail h t in
    (
      e,
      subst (λ started. Perm started calls) (some-injective _ _ (sym c.starts ∙ e))
          (CallOrder-Perm c.called),
    )
