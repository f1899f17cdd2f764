-- ===== src/Queue/Progress.antt =====
-- Left alone, the two goroutines finish all that has been taken in.
use ws_cluster.Common.{
  true, false, ◌≡◌, refl, sym, ◌∙◌, List, [], ◌∷◌, ◌++◌, append_assoc, append-nil, none, some,
  arith,
}
use ws_cluster.Queue.{Queue, take_done, take_relay, send_done, send_front, send_relay, Reach}
use ws_cluster.Queue.Order.{idle, relayed, handling, told, Reach-Inv}

module _ {A : Type 0} where
  -- A step of the goroutines with no packet coming in.
  pub data Work (q r : Queue A) : Type 0 where
    done : take_done q ≡ some r → Work q r
    received : take_relay q ≡ some r → Work q r
    sent : send_done q ≡ some r → Work q r

  pub data Works : Queue A → Queue A → Type 0 where
    stop : {q : Queue A} → Works q q
    also : {q r s : Queue A} → Work q r → Works r s → Works q s

  -- Some run of such steps handles all that has been taken in, in order.
  pub Drained : Queue A → Type 0
  Drained q = (r : Queue A) × Works q r × (r.handled ≡ q.taken) × (r.pending ≡ [])

  first_step : {q r : Queue A} → Work q r → r.taken ≡ q.taken → Drained r → Drained q
  unfolding Drained
  first_step w e (s, ws, h, p) = (s, also w ws, h ∙ e, p)

  sent-Drained :
      (q : Queue A) (a : A)
      → q.busy ≡ some a
      → q.finished ≡ false
      → Drained (record q { busy = none; finished = true; handled = q.handled ++ (a ∷ []) })
      → Drained q
  unfolding send_done
  sent-Drained q a b f d = first_step (sent (ground arith)) refl d

  relayed-Drained :
      (q : Queue A) (a : A)
      → q.busy ≡ none
      → q.relay ≡ some a
      → Drained (record q { relay = none; busy = some a })
      → Drained q
  unfolding take_relay
  relayed-Drained q a b r d = first_step (received (ground arith)) refl d

  told-Drained :
      (ps : List A) (q : Queue A)
      → q.pending ≡ ps
      → q.relay ≡ none
      → q.busy ≡ none
      → q.finished ≡ true
      → q.taken ≡ q.handled ++ ps
      → Drained q
  unfolding take_done send_front send_relay Drained
  told-Drained [] q e r b f t = (
    record q { finished = false; waiting = false },
    also (done (ground arith)) stop,
    sym (t ∙ append-nil q.handled),
    e,
  )
  told-Drained (p ∷ ps) q e r b f t =
      let q' : Queue A = record q { finished = false; pending = ps; relay = some p } in
      first_step {r = q'} (done (ground arith)) refl (
        relayed-Drained q' p b refl (
          sent-Drained _ p refl refl
            (told-Drained ps _ refl refl refl refl (t ∙ sym (append_assoc q.handled (p ∷ []) ps)))))

  -- From every state that the goroutines reach there is a run of their own steps, with no packet coming
  -- in, after which all packets that were taken in are handled, in the order in which they came.
  pub Reach-drained :
      {q : Queue A} → Reach q → (r : Queue A) × Works q r × (r.handled ≡ q.taken) × (r.pending ≡ [])
  unfolding Drained
  Reach-drained {q} reach = elim (Reach-Inv reach) [
    | idle w r b f n t ↦ (q, stop, sym t, n)
    | relayed a w r b f t ↦ relayed-Drained q a b r (
        sent-Drained _ a refl f (
          told-Drained q.pending _ refl refl refl refl
            (t ∙ sym (append_assoc q.handled (a ∷ []) q.pending))))
    | handling a w r b f t ↦ sent-Drained q a b f (
        told-Drained q.pending _ refl r refl refl
          (t ∙ sym (append_assoc q.handled (a ∷ []) q.pending)))
    | told w r b f t ↦ told-Drained q.pending q refl r b f t
  ]
