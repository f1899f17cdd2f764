-- ===== src/Chat/Counting.antt =====
-- What main counts of the messages and the peers.
use ws_cluster.Common.{
  ℕ, ◌+◌, ◌-◌, ◌%◌, ◌^◌, ◌<◌, ◌≡◌, Bool-cases, inl, inr, List, [], ◌∷◌, length, none, some, ltb,
  ◌==◌, arith,
}
use ws_cluster.Wire.Addr.{Addr}
use ws_cluster.Chat.{
  Arrival, connected, disconnected, received, tick, Counters, count_arrival, count_arrivals, decr,
}

abbrev one_if_message : Arrival → ℕ
one_if_message (connected p) = 0
one_if_message disconnected = 0
one_if_message (received msg) = 1
one_if_message tick = 0

abbrev messages : List Arrival → ℕ
messages [] = 0
messages (a ∷ arrivals) = one_if_message a + messages arrivals

-- The change of the number of peers, as a 64-bit pattern that is not yet reduced.
abbrev change : Arrival → ℕ
change (connected p) = 1
change disconnected = 2 ^ 64 - 1
change (received msg) = 0
change tick = 0

abbrev changes : List Arrival → ℕ
changes [] = 0
changes (a ∷ arrivals) = change a + changes arrivals

abbrev counted : Counters → ℕ
counted s = s.total_msg_num + s.group_num

arrival_counted :
    (group : Addr) (a : Arrival) (s : Counters)
    → counted s + 1 < 2 ^ 64
    → counted (count_arrival group a s) ≡ counted s + one_if_message a
unfolding count_arrival
arrival_counted group (connected none) s h = omega arith
arrival_counted group (connected (some addr)) s h = omega arith
arrival_counted group disconnected s h = elim (Bool-cases (decr s.total_peer_num == 0)) [
  | inl e ↦ rw e (omega arith)
  | inr e ↦ rw e (omega arith)
]
arrival_counted group (received msg) s h = elim (Bool-cases (ltb 0 msg.header.ack_seq)) [
  | inl e ↦ rw e (omega arith)
  | inr e ↦ rw e (omega arith)
]
arrival_counted group tick s h = omega arith

-- Of the arrivals, each message is counted once, as one that joins or as another, as long as the two
-- numbers stay below 2 ^ 64.
pub arrivals_counted :
    (group : Addr) (arrivals : List Arrival) (s : Counters)
    → counted s + length arrivals < 2 ^ 64
    → counted (count_arrivals group arrivals s) ≡ counted s + messages arrivals
unfolding count_arrivals
arrivals_counted group [] s h = omega arith
arrivals_counted group (a ∷ arrivals) s h =
    let first = arrival_counted group a s (omega arith) in
    let small : one_if_message a < 2 = one a in
    omega (
      arith,
      first,
      small,
      arrivals_counted group arrivals (count_arrival group a s) (omega (arith, first, small)),
    )
  where
    one : (a : Arrival) → one_if_message a < 2
    one (connected p) = omega arith
    one disconnected = omega arith
    one (received msg) = omega arith
    one tick = omega arith

peers_step :
    (group : Addr) (a : Arrival) (s : Counters)
    → (count_arrival group a s).total_peer_num % 2 ^ 64 ≡ (s.total_peer_num + change a) % 2 ^ 64
unfolding count_arrival
peers_step group (connected none) s = omega arith
peers_step group (connected (some addr)) s = omega arith
peers_step group disconnected s = elim (Bool-cases (decr s.total_peer_num == 0)) [
  | inl e ↦ rw e (omega arith)
  | inr e ↦ rw e (omega arith)
]
peers_step group (received msg) s = elim (Bool-cases (ltb 0 msg.header.ack_seq)) [
  | inl e ↦ rw e (omega arith)
  | inr e ↦ rw e (omega arith)
]
peers_step group tick s = omega arith

-- The number of peers is the number before, and the peers that came less those that are gone, which
-- is -1, as a 64-bit pattern, where one is gone whose login was not answered.
pub peers_counted :
    (group : Addr) (arrivals : List Arrival) (s : Counters)
    → (count_arrivals group arrivals s).total_peer_num % 2 ^ 64
      ≡ (s.total_peer_num + changes arrivals) % 2 ^ 64
unfolding count_arrivals
peers_counted group [] s = omega arith
peers_counted group (a ∷ arrivals) s =
    omega (arith, peers_step group a s, peers_counted group arrivals (count_arrival group a s))
