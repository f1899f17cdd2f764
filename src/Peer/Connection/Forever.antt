-- ===== src/Peer/Connection/Forever.antt =====
-- Closing a connection, and the states of a peer that nothing leads out of.
use mathlib.Core.Path.{subst}
use mathlib.Core.Option.{some-injective}
use ws_cluster.Common.{
  ℕ, ◌+◌, ◌-◌, ◌≤◌, ◌≡◌, ◌⊎◌, inl, inr, refl, sym, ◌∙◌, true, false, some, ltb, ◌==◌, ◌&&◌, arith,
}
use ws_cluster.Peer.Connection.{
  PeerState, unconnected, open_, closing, new_peer, is_connected, set_connection, start_handlers,
  close, close_connect, connection_closed, take_close, ping_fails, read_fails, take_signal, Happens,
  sets_connection, closes, takes_close, ping_failed, read_failed, takes_signal, Reach, here, next,
}
use ws_cluster.Peer.Connection.Ends.{Inv, idle, is_open, is_closing, is_lost, Reach-Inv, guarded}

-- Nothing is done about the connection of a closing peer any more.
record Stays (p r : PeerState) : Type 0 where
  pub connected : r.connected ≡ closing
  pub close_packets : r.close_packets ≡ p.close_packets
  pub starts : r.starts ≡ p.starts
  pub conn_closes : r.conn_closes ≡ p.conn_closes
  pub disconnects : r.disconnects ≡ p.disconnects
  pub writers : r.writers ≤ p.writers

abbrev IsStuck : PeerState → Type 0
IsStuck p = (p.connected ≡ closing) × ((p.close_packets ≡ 0) ⊎ (p.writers ≡ 0))

stays :
    (p : PeerState) (r w q g : ℕ)
    → p.connected ≡ closing
    → w ≤ p.writers
    → Stays p (record p { readers = r; writers = w; queues = q; signals = g })
stays p r w q g c less = record {
  connected = c;
  close_packets = refl;
  starts = refl;
  conn_closes = refl;
  disconnects = refl;
  writers = less;
}

Happens-Stays : (p r : PeerState) → IsStuck p → Happens p r → Stays p r
unfolding set_connection close is_connected take_close ping_fails read_fails take_signal
    connection_closed
Happens-Stays p r (c, u) s = step s
  where
    not_open : (p.connected == open_) ≡ false
    not_open = rw c

    not_unconnected : (p.connected == unconnected) ≡ false
    not_unconnected = rw c

    fewer : p.writers - 1 ≤ p.writers
    fewer = omega arith

    same : p.writers ≤ p.writers
    same = omega arith

    step : Happens p r → Stays p r
    step (sets_connection e) = subst (Stays p) e (
        unfold set_connection in
        rw not_unconnected (stays p p.readers p.writers p.queues p.signals c same))
    step (closes e) = subst (Stays p) e (
        unfold close in
        unfold is_connected in rw not_open (stays p p.readers p.writers p.queues p.signals c same))
    step (takes_close e) = absurd (unfold take_close in ground (arith, u, (guarded e).0))
    step (ping_failed e) =
        unfold ping_fails in
        subst (Stays p) (guarded e).1 (
          unfold connection_closed in
          rw not_open (stays p p.readers (p.writers - 1) p.queues p.signals c fewer))
    step (read_failed e) =
        unfold read_fails in
        subst (Stays p) (guarded e).1 (
          unfold connection_closed in
          rw not_open (stays p (p.readers - 1) p.writers p.queues p.signals c same))
    step (takes_signal e) =
        unfold take_signal in
        subst (Stays p) (guarded e).1
          (stays p p.readers p.writers (p.queues - 1) (p.signals - 1) c same)

Reach-Stays : (p r : PeerState) → IsStuck p → Reach p r → Stays p r
Reach-Stays p r (c, u) here = stays p p.readers p.writers p.queues p.signals c (omega arith)
Reach-Stays p r (c, u) (next {q} h s) =
    let v = Reach-Stays p q (c, u) h in
    let w = Happens-Stays q r (v.connected, ground (arith, u, v.close_packets, v.writers)) s in
    record {
      connected = w.connected;
      close_packets = w.close_packets ∙ v.close_packets;
      starts = w.starts ∙ v.starts;
      conn_closes = w.conn_closes ∙ v.conn_closes;
      disconnects = w.disconnects ∙ v.disconnects;
      writers = omega (arith, w.writers, v.writers);
    }

-- Once OnDisconnect has been called, the peer stays as it is, whatever happens: the connection is
-- not closed on this side, no other is started, and OnDisconnect is not called again.
pub lost_stays :
    (p r : PeerState)
    → Reach new_peer p
    → p.disconnects ≡ 1
    → Reach p r
    → (r.connected ≡ closing)
      × (r.starts ≡ p.starts)
      × (r.conn_closes ≡ p.conn_closes)
      × (r.disconnects ≡ 1)
lost_stays p r h one g = lost (Reach-Inv p h)
  where
    lost :
        Inv p
        → (r.connected ≡ closing)
          × (r.starts ≡ p.starts)
          × (r.conn_closes ≡ p.conn_closes)
          × (r.disconnects ≡ 1)
    lost (idle c k d s q w) = absurd (omega (arith, one, d))
    lost (is_open c k d s q w) = absurd (omega (arith, one, d))
    lost (is_closing c k d s q w) = absurd (omega (arith, one, d))
    lost (is_lost c k d s q w) =
        let v = Reach-Stays p r (c, inl k) g in
        (v.connected, v.starts, v.conn_closes, v.disconnects ∙ one)

opened :
    (p : PeerState)
    → Reach new_peer p
    → is_connected p ≡ true
    → (p.close_packets ≡ 0) × (p.disconnects ≡ 0) × (p.writers ≡ 1)
opened p h e = only_open p (Reach-Inv p h) e
  where
    only_open :
        (p : PeerState)
        → Inv p
        → is_connected p ≡ true
        → (p.close_packets ≡ 0) × (p.disconnects ≡ 0) × (p.writers ≡ 1)
    only_open p (idle c k d s q w) e = absurd (unfold is_connected in ground arith)
    only_open p (is_open c k d s q w) e = (k, d, w)
    only_open p (is_closing c k d s q w) e = absurd (unfold is_connected in ground arith)
    only_open p (is_lost c k d s q w) e = absurd (unfold is_connected in ground arith)

-- A ping that fails after Close has been called, while its packet is still on its way, leaves the
-- connection neither closed nor open for ever, and OnDisconnect is never called.
pub close_forgotten :
    (p q r : PeerState)
    → Reach new_peer p
    → is_connected p ≡ true
    → ping_fails (close p) ≡ some q
    → Reach q r
    → (r.connected ≡ closing) × (r.conn_closes ≡ p.conn_closes) × (r.disconnects ≡ 0)
unfolding is_connected close ping_fails connection_closed
close_forgotten p q r h e d g =
    let (k, z, w) = opened p h e in
    let q0 = record p {
      connected = closing;
      close_packets = p.close_packets + 1;
      writers = p.writers - 1;
    } in
    let some_writer : ltb 0 p.writers ≡ true = ground arith in
    let fails : ping_fails (close p) ≡ some q0 = rw e (rw some_writer) in
    let v =
      Reach-Stays q0 r (refl, inr (omega arith))
        (subst (λ x. Reach x r) (some-injective q q0 (sym d ∙ fails)) g) in
    (v.connected, v.conn_closes, v.disconnects ∙ z)

-- Close, and the receipt of its packet, end an open connection without a call of OnDisconnect, and
-- the peer can be given another.
pub close-ends :
    (p : PeerState)
    → Reach new_peer p
    → is_connected p ≡ true
    → (r : PeerState) × (take_close (close p) ≡ some r)
      × (r.conn_closes ≡ p.conn_closes + 1)
      × (r.disconnects ≡ 0)
      × (is_connected r ≡ false)
      × (is_connected (set_connection r) ≡ true)
unfolding is_connected close take_close close_connect set_connection start_handlers
close-ends p h e =
    let (k, z, w) = opened p h e in
    let both : (ltb 0 p.writers && ltb 0 (p.close_packets + 1)) ≡ true = ground arith in
    (
      record p {
        connected = unconnected;
        conn_closes = p.conn_closes + 1;
        signals = p.signals + 1;
        writers = p.writers - 1;
        close_packets = p.close_packets + 1 - 1;
      },
      rw e (rw both),
      refl,
      z,
      refl,
      refl,
    )
