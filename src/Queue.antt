-- ===== src/Queue.antt =====
-- The two goroutines that hub/hub.go (packetQueueHandler and packetHandler) and peer/peer.go (the two
-- of the same names) run: one takes packets from a channel and hands them to the other, one at a
-- time, over a channel of capacity 1, and is told over a second such channel when a packet is done.
-- The message log of the hub stands before these steps, in Hub/Intake, and the end of a peer's
-- goroutines in Peer/Connection.
pub mod Order
pub mod Progress
use ws_cluster.Common.{
  ℕ, Bool, true, false, ◌≡◌, List, [], ◌∷◌, ◌++◌, Option, none, some, if◌then◌else◌,
}

-- `relay` and `finished` are the two channels, `busy` is the packet that the second goroutine
-- handles. `taken` and `handled` record the packets that have come in and that are done.
pub record Queue (A : Type 0) : Type 0 where
  pub pending : List A
  pub waiting : Bool
  pub relay : Option A
  pub busy : Option A
  pub finished : Bool
  pub taken : List A
  pub handled : List A

module _ {A : Type 0} where
  unfoldable pub start : Queue A
  start = record {
    pending = [];
    waiting = false;
    relay = none;
    busy = none;
    finished = false;
    taken = [];
    handled = [];
  }

  -- `relay <- packet`. A step is `none` while the goroutine that would make it is blocked.
  unfoldable pub send_relay : A → Queue A → Option (Queue A)
  send_relay packet q = elim q.relay [
    | none ↦ some (record q { relay = some packet })
    | some other ↦ none
  ]

  -- The queue's goroutine receives a packet (queuePacket).
  unfoldable pub queue_packet : A → Queue A → Option (Queue A)
  unfolding send_relay
  queue_packet packet q =
      let q' = record q { taken = q.taken ++ (packet ∷ []); waiting = true } in
      if q.waiting
      then some (record q' { pending = q.pending ++ (packet ∷ []) })
      else send_relay packet q'

  -- The front of the list of pending packets, once the packet before it is done.
  unfoldable pub send_front : List A → Queue A → Option (Queue A)
  unfolding send_relay
  send_front [] q = some (record q { waiting = false })
  send_front (next ∷ rest) q = send_relay next (record q { pending = rest })

  -- The queue's goroutine is told that a packet is done.
  unfoldable pub take_done : Queue A → Option (Queue A)
  unfolding send_front
  take_done q = if q.finished then send_front q.pending (record q { finished = false }) else none

  -- The handling goroutine receives a packet.
  unfoldable pub take_relay : Queue A → Option (Queue A)
  take_relay q = elim q.busy [
    | some other ↦ none
    | none ↦ elim q.relay [
      | none ↦ none
      | some packet ↦ some (record q { relay = none; busy = some packet })
    ]
  ]

  -- It is done with the packet: `done <- packet`.
  unfoldable pub send_done : Queue A → Option (Queue A)
  send_done q = elim q.busy [
    | none ↦ none
    | some packet ↦
        if q.finished
        then none
        else some (record q { busy = none; finished = true; handled = q.handled ++ (packet ∷ []) })
  ]

-- The steps of both goroutines, in any interleaving.
pub data Step {A : Type 0} (q r : Queue A) : Type 0 where
  queues : (packet : A) → queue_packet packet q ≡ some r → Step q r
  takes_done : take_done q ≡ some r → Step q r
  takes_relay : take_relay q ≡ some r → Step q r
  sends_done : send_done q ≡ some r → Step q r

pub data Reach {A : Type 0} : Queue A → Type 0 where
  here : Reach start
  next : {q r : Queue A} → Reach q → Step q r → Reach r
