-- ===== src/Hub/Intake.antt =====
-- hub/hub.go, packetQueueHandler: a packet that comes is written to the message log, if there is one,
-- before it is queued. The log's Write is a parameter.
use ws_cluster.Common.{
  ℕ, ◌≡◌, ◌⊎◌, refl, sym, ◌∙◌, ap, true, Bool-cases, inl, inr, List, [], ◌∷◌, ◌++◌, Option, none,
  some, Option-cases, Result, Error, ok, err, M,
}
use ws_cluster.Wire.Io.{buffer}
use ws_cluster.Wire.Message.{Message, encode_message}
use ws_cluster.Wire.Message.RoundTrip.{message_bytes, message-Emits}
use ws_cluster.Hub.State.{Packet, relay_message, Output, answered, Resp, log_failed}
use ws_cluster.Queue.{Queue, Reach, queue_packet, send_relay}
use ws_cluster.Queue.Order.{Reach-order}
use mathlib.Core.Option
use mathlib.Core.Option.{some-injective, none-ne-some}

-- MsgStatusException
abbrev pub status_exception : Resp
status_exception = record { status = 100; error = some log_failed; body = none }

-- The log, the queue, and the answers of this goroutine.
pub record Intake (L : Type 0) : Type 0 where
  pub log : Option L
  pub queue : Queue Packet
  pub answers : List Output

module _ {L : Type 0} where
  unfoldable pub enqueue : Packet → Intake L → Option (Intake L)
  enqueue packet s = Option.map (λ q. record s { queue = q }) (queue_packet packet s.queue)

  -- A packet that the log refuses is answered and not queued. A send on a nil channel never ends.
  unfoldable pub after_write : Packet → Result (Unit {0}) × L → Intake L → Option (Intake L)
  unfolding enqueue
  after_write packet (ok _, l) s = enqueue packet (record s { log = some l })
  after_write packet (err e, l) s = elim packet.resp [
    | none ↦ none
    | some c ↦
        some (record s { log = some l; answers = s.answers ++ (answered c status_exception ∷ []) })
  ]

  unfoldable pub log_packet : (List ℕ → M L (Unit {0})) → Packet → L → Intake L → Option (Intake L)
  unfolding after_write
  log_packet write packet l s = elim packet.content [
    | relay_message msg ↦ after_write packet (write (encode_message msg []).1 l) s
    | _ ↦ enqueue packet s
  ]

  unfoldable pub take_packet : (List ℕ → M L (Unit {0})) → Packet → Intake L → Option (Intake L)
  unfolding log_packet
  take_packet write packet s = elim s.log [
    | none ↦ enqueue packet s
    | some l ↦ log_packet write packet l s
  ]

queue_packet-taken :
    {A : Type 0} (a : A) (q r : Queue A) → queue_packet a q ≡ some r → r.taken ≡ q.taken ++ (a ∷ [])
unfolding queue_packet send_relay
queue_packet-taken a q r e =
    let q' = record q { taken = q.taken ++ (a ∷ []); waiting = true } in
    elim (Bool-cases q.waiting) [
      | inl w ↦
          let queued : queue_packet a q ≡ some (record q' { pending = q.pending ++ (a ∷ []) }) =
            rw w in
          ap (λ (x : Queue _). x.taken) (sym (some-injective _ r (sym queued ∙ e)))
      | inr w ↦ elim (Option-cases q.relay) [
        | inl n ↦
            let sent : queue_packet a q ≡ some (record q' { relay = some a }) =
              rw w (rw (n, send_relay)) in
            ap (λ (x : Queue _). x.taken) (sym (some-injective _ r (sym sent ∙ e)))
        | inr (b, n) ↦
            let held : queue_packet a q ≡ none = rw w (rw (n, send_relay)) in
            absurd (none-ne-some r (sym held ∙ e))
      ]
    ]

queued_now :
    (a : Packet) (q : Queue Packet)
    → Reach q
    → (r : Queue Packet) × (queue_packet a q ≡ some r) × (r.taken ≡ q.taken ++ (a ∷ []))
queued_now a q reach = elim (Option-cases (queue_packet a q)) [
  | inl e ↦ absurd ((Reach-order reach).1 a e)
  | inr (r, e) ↦ (r, e, queue_packet-taken a q r e)
]

written_or_not :
    {L : Type 0} (p : Result (Unit {0}) × L)
    → ((l : L) × (p ≡ (ok tt, l))) ⊎ ((x : Error) × (l : L) × (p ≡ (err x, l)))
written_or_not (ok _, l) = inl (l, refl)
written_or_not (err x, l) = inr (x, l, refl)

module _ {L : Type 0} (write : List ℕ → M L (Unit {0})) where
  write_first :
      (packet : Packet) (msg : Message) (l : L) (s : Intake L)
      → s.log ≡ some l
      → packet.content ≡ relay_message msg
      → take_packet write packet s ≡ after_write packet (write (message_bytes msg) l) s
  unfolding take_packet
  write_first packet msg l s has_log relays =
      let encoded : (encode_message msg []).1 ≡ message_bytes msg =
        ap (λ (x : Result (Unit {0}) × List ℕ). x.1) (message-Emits msg []) in
      let opened : take_packet write packet s
          ≡ after_write packet (write (encode_message msg []).1 l) s =
        simp (has_log, relays, take_packet, log_packet) in
      opened ∙ ap (λ b. after_write packet (write b l) s) encoded

  -- A message that comes while there is a log is written to it first, as its encoding. Where the log
  -- takes it, it is queued and nothing is answered; where the log refuses it, it is not queued, and
  -- either the refusal is answered or, without a channel for the answer, the goroutine never goes on.
  pub log_before_queue :
      (packet : Packet) (msg : Message) (l : L) (s : Intake L)
      → Reach s.queue
      → s.log ≡ some l
      → packet.content ≡ relay_message msg
      → ((l' : L) × (s' : Intake L) × (write (message_bytes msg) l ≡ (ok tt, l'))
          × (take_packet write packet s ≡ some s')
          × (s'.log ≡ some l')
          × (s'.queue.taken ≡ s.queue.taken ++ (packet ∷ []))
          × (s'.answers ≡ s.answers))
        ⊎ (((x : Error) × (l' : L) × (c : ℕ) × (s' : Intake L) × (write (message_bytes msg) l
                ≡ (err x, l'))
              × (packet.resp ≡ some c)
              × (take_packet write packet s ≡ some s')
              × (s'.queue ≡ s.queue)
              × (s'.answers ≡ s.answers ++ (answered c status_exception ∷ [])))
            ⊎ ((x : Error) × (l' : L) × (write (message_bytes msg) l ≡ (err x, l'))
                × (packet.resp ≡ none)
                × (take_packet write packet s ≡ none)))
  unfolding after_write enqueue
  log_before_queue packet msg l s reach has_log relays =
      let e = write_first packet msg l s has_log relays in
      elim (written_or_not (write (message_bytes msg) l)) [
        | inl (l', w) ↦
            let (q, queues, taken) = queued_now packet s.queue reach in
            inl (
              l',
              record s { log = some l'; queue = q },
              w,
              e ∙ rw w (rw queues),
              refl,
              taken,
              refl,
            )
        | inr (x, l', w) ↦ elim (Option-cases packet.resp) [
          | inl n ↦ inr (inr (x, l', w, n, e ∙ rw w (rw (n, after_write))))
          | inr (c, n) ↦ inr (
              inl (
                x,
                l',
                c,
                record s {
                  log = some l';
                  answers = s.answers ++ (answered c status_exception ∷ []);
                },
                w,
                n,
                e ∙ rw w (rw (n, after_write)),
                refl,
                refl,
              ))
        ]
      ]
