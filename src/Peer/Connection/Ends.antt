-- ===== src/Peer/Connection/Ends.antt =====
-- How the connections of a peer end.
use mathlib.Core.Path.{subst}
use mathlib.Core.Option.{some-injective, none-ne-some}
use ws_cluster.Common.{
  ℕ, ◌+◌, ◌-◌, ◌≤◌, ◌≡◌, refl, Bool, true, false, none, some, ltb, ◌==◌, ◌&&◌, if◌then◌else◌, arith,
}
use ws_cluster.Peer.Connection.{
  PeerState, unconnected, open_, closing, new_peer, is_connected, set_connection, start_handlers,
  close, close_connect, connection_closed, take_close, ping_fails, read_fails, take_signal, Happens,
  sets_connection, closes, takes_close, ping_failed, read_failed, takes_signal, Reach, here, next,
}

pub guarded :
    {A : Type 0} {b : Bool} {x r : A} → (if b then some x else none) ≡ some r → (b ≡ true) × (x ≡ r)
guarded {b = true} e = (refl, some-injective _ _ e)
guarded {b = false} e = absurd (none-ne-some _ e)

-- No connection; one that is open; one that the peer is closing; one that the other side has closed.
pub data Inv (p : PeerState) : Type 0 where
  idle :
      p.connected ≡ unconnected
      → p.close_packets ≡ 0
      → p.disconnects ≡ 0
      → p.starts ≡ p.conn_closes
      → p.queues ≡ p.signals
      → p.writers ≡ 0
      → Inv p
  is_open :
      p.connected ≡ open_
      → p.close_packets ≡ 0
      → p.disconnects ≡ 0
      → p.starts ≡ p.conn_closes + 1
      → p.queues ≡ p.signals + 1
      → p.writers ≡ 1
      → Inv p
  is_closing :
      p.connected ≡ closing
      → p.close_packets ≡ 1
      → p.disconnects ≡ 0
      → p.starts ≡ p.conn_closes + 1
      → p.queues ≡ p.signals + 1
      → p.writers ≤ 1
      → Inv p
  is_lost :
      p.connected ≡ closing
      → p.close_packets ≡ 0
      → p.disconnects ≡ 1
      → p.starts ≡ p.conn_closes + 1
      → p.queues ≡ p.signals
      → p.writers ≤ 1
      → Inv p

set_connection-Inv : (p : PeerState) → Inv p → Inv (set_connection p)
unfolding set_connection start_handlers
set_connection-Inv p (idle c k d s q w) =
    let t : (p.connected == unconnected) ≡ true = rw c in
    rw t (is_open refl k d (omega arith) (omega arith) (omega arith))
set_connection-Inv p (is_open c k d s q w) =
    let t : (p.connected == unconnected) ≡ false = rw c in rw t (is_open c k d s q w)
set_connection-Inv p (is_closing c k d s q w) =
    let t : (p.connected == unconnected) ≡ false = rw c in rw t (is_closing c k d s q w)
set_connection-Inv p (is_lost c k d s q w) =
    let t : (p.connected == unconnected) ≡ false = rw c in rw t (is_lost c k d s q w)

close-Inv : (p : PeerState) → Inv p → Inv (close p)
unfolding close is_connected
close-Inv p (idle c k d s q w) =
    let t : (p.connected == open_) ≡ false = rw c in rw t (idle c k d s q w)
close-Inv p (is_open c k d s q w) =
    let t : (p.connected == open_) ≡ true = rw c in
    rw t (is_closing refl (omega arith) d s q (omega arith))
close-Inv p (is_closing c k d s q w) =
    let t : (p.connected == open_) ≡ false = rw c in rw t (is_closing c k d s q w)
close-Inv p (is_lost c k d s q w) =
    let t : (p.connected == open_) ≡ false = rw c in rw t (is_lost c k d s q w)

-- A goroutine that calls connectionClosed has ended first.
connection_closed-Inv :
    (p : PeerState) (r w' : ℕ)
    → Inv p
    → w' ≤ p.writers
    → Inv (connection_closed (record p { readers = r; writers = w' }))
unfolding connection_closed
connection_closed-Inv p r w' (idle c k d s q w) less =
    let t : (p.connected == open_) ≡ false = rw c in rw t (idle c k d s q (omega arith))
connection_closed-Inv p r w' (is_open c k d s q w) less =
    let t : (p.connected == open_) ≡ true = rw c in
    rw t (is_lost refl k (omega arith) s (omega arith) (omega arith))
connection_closed-Inv p r w' (is_closing c k d s q w) less =
    let t : (p.connected == open_) ≡ false = rw c in rw t (is_closing c k d s q (omega arith))
connection_closed-Inv p r w' (is_lost c k d s q w) less =
    let t : (p.connected == open_) ≡ false = rw c in rw t (is_lost c k d s q (omega arith))

take_close-Inv : (p r : PeerState) → Inv p → take_close p ≡ some r → Inv r
unfolding take_close close_connect
take_close-Inv p r i e = let (t, d) = guarded e in subst Inv d (closed p i t)
  where
    closed :
        (p : PeerState)
        → Inv p
        → (ltb 0 p.writers && ltb 0 p.close_packets) ≡ true
        → Inv (
            close_connect
              (record p { writers = p.writers - 1; close_packets = p.close_packets - 1 }))
    closed p (idle c k d s q w) t = absurd (ground arith)
    closed p (is_open c k d s q w) t = absurd (ground arith)
    closed p (is_lost c k d s q w) t = absurd (ground arith)
    closed p (is_closing c k d s q w) t =
        unfold close_connect in
        let u : (p.connected == closing) ≡ true = rw c in
        rw u (idle refl (omega arith) d (omega arith) (omega arith) (omega arith))

take_signal-Inv : (p r : PeerState) → Inv p → take_signal p ≡ some r → Inv r
unfolding take_signal
take_signal-Inv p r i e = let (t, d) = guarded e in subst Inv d (received p i t)
  where
    received :
        (p : PeerState)
        → Inv p
        → (ltb 0 p.queues && ltb 0 p.signals) ≡ true
        → Inv (record p { queues = p.queues - 1; signals = p.signals - 1 })
    received p (idle c k d s q w) t = idle c k d s (omega arith) w
    received p (is_open c k d s q w) t = is_open c k d s (ground arith) w
    received p (is_closing c k d s q w) t = is_closing c k d s (ground arith) w
    received p (is_lost c k d s q w) t = is_lost c k d s (omega arith) w

Happens-Inv : (p r : PeerState) → Inv p → Happens p r → Inv r
unfolding ping_fails read_fails
Happens-Inv p r i (sets_connection e) = subst Inv e (set_connection-Inv p i)
Happens-Inv p r i (closes e) = subst Inv e (close-Inv p i)
Happens-Inv p r i (takes_close e) = take_close-Inv p r i e
Happens-Inv p r i (ping_failed e) =
    subst Inv (guarded e).1 (connection_closed-Inv p p.readers (p.writers - 1) i (omega arith))
Happens-Inv p r i (read_failed e) =
    subst Inv (guarded e).1 (connection_closed-Inv p (p.readers - 1) p.writers i (omega arith))
Happens-Inv p r i (takes_signal e) = take_signal-Inv p r i e

pub Reach-Inv : (p : PeerState) → Reach new_peer p → Inv p
Reach-Inv p here = idle refl refl refl refl refl refl
Reach-Inv p (next {q} h s) = Happens-Inv q p (Reach-Inv q h) s

-- The connections that have not ended: one that is open, or that a close packet is to end.
abbrev pub live : PeerState → ℕ
live p = p.close_packets + (if is_connected p then 1 else 0)

-- Whatever happens to a peer, in whatever order: each connection that was started is live or was
-- ended in one way, by the peer itself or by a call of OnDisconnect, of which there is at most one;
-- at most one connection is live; and of the goroutines that queue packets those that are left are
-- the one of the live connection and one for each signal on its way to end it.
pub Reach-ends :
    (p : PeerState)
    → Reach new_peer p
    → (p.starts ≡ p.conn_closes + p.disconnects + live p)
      × (p.disconnects ≤ 1)
      × (live p ≤ 1)
      × (p.queues ≡ p.signals + live p)
unfolding is_connected
Reach-ends p h = ends p (Reach-Inv p h)
  where
    ends :
        (p : PeerState)
        → Inv p
        → (p.starts ≡ p.conn_closes + p.disconnects + live p)
          × (p.disconnects ≤ 1)
          × (live p ≤ 1)
          × (p.queues ≡ p.signals + live p)
    ends p (idle c k d s q w) = unfold is_connected in ground arith
    ends p (is_open c k d s q w) = unfold is_connected in ground arith
    ends p (is_closing c k d s q w) = unfold is_connected in ground arith
    ends p (is_lost c k d s q w) = unfold is_connected in ground arith
