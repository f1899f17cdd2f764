-- ===== src/Queue/Order.antt =====
-- Packets are handled one at a time, in the order in which they came.
use mathlib.Core.Path.{subst}
use mathlib.Core.Option.{some-injective}
use ws_cluster.Common.{
  true, false, ◌≡◌, ◌≢◌, refl, sym, ◌∙◌, List, [], ◌∷◌, ◌++◌, append_assoc, append-nil, Option,
  none, some, arith,
}
use ws_cluster.Queue.{
  Queue, Step, queues, takes_done, takes_relay, sends_done, Reach, here, next, start, queue_packet,
  take_done, take_relay, send_done,
}

-- What is between the two goroutines: nothing, a packet on its way, one being handled, or the word
-- that one is done.
pub data Inv {A : Type 0} (q : Queue A) : Type 0 where
  idle :
      q.waiting ≡ false
      → q.relay ≡ none
      → q.busy ≡ none
      → q.finished ≡ false
      → q.pending ≡ []
      → q.taken ≡ q.handled
      → Inv q
  relayed :
      (a : A)
      → q.waiting ≡ true
      → q.relay ≡ some a
      → q.busy ≡ none
      → q.finished ≡ false
      → q.taken ≡ q.handled ++ (a ∷ q.pending)
      → Inv q
  handling :
      (a : A)
      → q.waiting ≡ true
      → q.relay ≡ none
      → q.busy ≡ some a
      → q.finished ≡ false
      → q.taken ≡ q.handled ++ (a ∷ q.pending)
      → Inv q
  told :
      q.waiting ≡ true
      → q.relay ≡ none
      → q.busy ≡ none
      → q.finished ≡ true
      → q.taken ≡ q.handled ++ q.pending
      → Inv q

module _ {A : Type 0} where
  -- A packet that comes is never held up, and goes behind those before it.
  queue_packet-Inv :
      (p : A) (q : Queue A) → Inv q → (r : Queue A) × (queue_packet p q ≡ some r) × Inv r
  unfolding queue_packet
  queue_packet-Inv p q (idle w r b f n t) = (
    record q { relay = some p; taken = q.taken ++ (p ∷ []); waiting = true },
    ground arith,
    relayed p refl refl b f (rw (n, t)),
  )
  queue_packet-Inv p q (relayed a w r b f t) = (
    record q { pending = q.pending ++ (p ∷ []); taken = q.taken ++ (p ∷ []); waiting = true },
    ground arith,
    relayed a refl r b f (rw (t, append_assoc)),
  )
  queue_packet-Inv p q (handling a w r b f t) = (
    record q { pending = q.pending ++ (p ∷ []); taken = q.taken ++ (p ∷ []); waiting = true },
    ground arith,
    handling a refl r b f (rw (t, append_assoc)),
  )
  queue_packet-Inv p q (told w r b f t) = (
    record q { pending = q.pending ++ (p ∷ []); taken = q.taken ++ (p ∷ []); waiting = true },
    ground arith,
    told refl r b f (rw (t, append_assoc)),
  )

  -- Nor is the word that a packet is done: the next goes on, or the queue is idle.
  take_done-Inv :
      (q : Queue A) → Inv q → q.finished ≡ true → (r : Queue A) × (take_done q ≡ some r) × Inv r
  unfolding take_done
  take_done-Inv q (idle w r b f n t) d = absurd (cc (f, d))
  take_done-Inv q (relayed a w r b f t) d = absurd (cc (f, d))
  take_done-Inv q (handling a w r b f t) d = absurd (cc (f, d))
  take_done-Inv q (told w r b f t) d = front q.pending refl
    where
      front : (ps : List A) → q.pending ≡ ps → (s : Queue A) × (take_done q ≡ some s) × Inv s
      front [] e = (
        record q { finished = false; waiting = false },
        ground arith,
        idle refl r b refl e (rw (t, e, append-nil)),
      )
      front (p ∷ ps) e = (
        record q { finished = false; pending = ps; relay = some p },
        ground arith,
        relayed p w refl b refl (rw (t, e)),
      )

  take_relay-Inv :
      (q : Queue A) (a : A)
      → Inv q
      → q.relay ≡ some a
      → (r : Queue A) × (take_relay q ≡ some r) × Inv r
  unfolding take_relay
  take_relay-Inv q p (idle w r b f n t) e = absurd (cc (r, e))
  take_relay-Inv q p (relayed a w r b f t) e =
      (record q { relay = none; busy = some a }, ground arith, handling a w refl refl f t)
  take_relay-Inv q p (handling a w r b f t) e = absurd (cc (r, e))
  take_relay-Inv q p (told w r b f t) e = absurd (cc (r, e))

  -- A packet that is handled is never held up either.
  send_done-Inv :
      (q : Queue A) (a : A)
      → Inv q
      → q.busy ≡ some a
      → (r : Queue A) × (send_done q ≡ some r) × (r.handled ≡ q.handled ++ (a ∷ [])) × Inv r
  unfolding send_done
  send_done-Inv q p (idle w r b f n t) e = absurd (cc (b, e))
  send_done-Inv q p (relayed a w r b f t) e = absurd (cc (b, e))
  send_done-Inv q p (handling a w r b f t) e = (
    record q { busy = none; finished = true; handled = q.handled ++ (a ∷ []) },
    ground arith,
    ground arith,
    told w r refl refl (rw (t, append_assoc)),
  )
  send_done-Inv q p (told w r b f t) e = absurd (cc (b, e))

  take_done-needs : (q r : Queue A) → take_done q ≡ some r → q.finished ≡ true
  unfolding take_done
  take_done-needs q r e = ground arith

  take_relay-needs : (q r : Queue A) → take_relay q ≡ some r → (a : A) × (q.relay ≡ some a)
  unfolding take_relay
  take_relay-needs q r e = ground arith

  send_done-needs : (q r : Queue A) → send_done q ≡ some r → (a : A) × (q.busy ≡ some a)
  unfolding send_done
  send_done-needs q r e = ground arith

  -- A step gives what the lemmas above say that it gives.
  same_step : (o : Option (Queue A)) (r s : Queue A) → o ≡ some r → o ≡ some s → Inv r → Inv s
  same_step o r s e d v = subst Inv (some-injective r s (sym e ∙ d)) v

  Step-Inv : {q s : Queue A} → Step q s → Inv q → Inv s
  Step-Inv {q} {s} (queues p e) v =
      let (r, d, w) = queue_packet-Inv p q v in same_step (queue_packet p q) r s d e w
  Step-Inv {q} {s} (takes_done e) v =
      let (r, d, w) = take_done-Inv q v (take_done-needs q s e) in same_step (take_done q) r s d e w
  Step-Inv {q} {s} (takes_relay e) v =
      let (a, f) = take_relay-needs q s e in
      let (r, d, w) = take_relay-Inv q a v f in same_step (take_relay q) r s d e w
  Step-Inv {q} {s} (sends_done e) v =
      let (a, f) = send_done-needs q s e in
      let (r, d, h, w) = send_done-Inv q a v f in same_step (send_done q) r s d e w

  pub Reach-Inv : {q : Queue A} → Reach q → Inv q
  unfolding start
  Reach-Inv here = idle refl refl refl refl refl refl
  Reach-Inv (next r s) = Step-Inv s (Reach-Inv r)

  -- What has been taken in and is not done, oldest first: the packet between the goroutines, if there
  -- is one, and those that are pending.
  abbrev pub in_flight : Option A → Option A → List A
  in_flight none none = []
  in_flight none (some a) = a ∷ []
  in_flight (some a) none = a ∷ []
  in_flight (some a) (some b) = b ∷ a ∷ []

  Inv-order : (q : Queue A) → Inv q → q.taken ≡ q.handled ++ (in_flight q.relay q.busy ++ q.pending)
  Inv-order q (idle w r b f n t) = rw (r, b, n, append-nil) t
  Inv-order q (relayed a w r b f t) = rw (r, b) t
  Inv-order q (handling a w r b f t) = rw (r, b) t
  Inv-order q (told w r b f t) = rw (r, b) t

  -- In every interleaving the packets are handled in the order in which they came, none is lost or
  -- doubled, and neither goroutine is ever blocked on the two channels between them: a packet that
  -- comes is taken, one that is on its way is received, and the word that a packet is done is sent
  -- and taken.
  pub Reach-order :
      {q : Queue A}
      → Reach q
      → (q.taken ≡ q.handled ++ (in_flight q.relay q.busy ++ q.pending))
        × ((p : A) → queue_packet p q ≢ none)
        × (q.finished ≡ true → take_done q ≢ none)
        × ((a : A) → q.relay ≡ some a → take_relay q ≢ none)
        × ((a : A) → q.busy ≡ some a → send_done q ≢ none)
  Reach-order {q} reach =
      let v = Reach-Inv reach in
      (
        Inv-order q v,
        λ p e. cc (e, (queue_packet-Inv p q v).1),
        λ f e. cc (e, (take_done-Inv q v f).1),
        λ a f e. cc (e, (take_relay-Inv q a v f).1),
        λ a f e. cc (e, (send_done-Inv q a v f).1),
      )
