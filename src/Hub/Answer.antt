-- ===== src/Hub/Answer.antt =====
-- A packet that is queued for the hub and waited for: `resp := <-respchan`.
use ws_cluster.Common.{
  ℕ, ◌≡◌, refl, ◌∙◌, ap, true, List, [], ◌∷◌, ◌++◌, length, drop, drop-append, Option, none, some,
  Result, ok, err, blocked, M, ◌==◌, if◌then◌else◌, arith,
}
use ws_cluster.Wire.Addr.{Addr}
use ws_cluster.Wire.Message.{Message}
use ws_cluster.Hub.State.{Hub, Output, pushed, answered, queued, Resp, Content}
use ws_cluster.Hub.Output.Open.{sending, pushes}
use ws_cluster.Hub.Handler.{handle_packet}

-- The answer to a packet on the channel `c`, among what the hub has sent.
abbrev pub find_answer : ℕ → List Output → Option Resp
find_answer c [] = none
find_answer c (answered d r ∷ sent) =
    let later = find_answer c sent in if c == d then some r else later
find_answer c (pushed d m ∷ sent) = find_answer c sent
find_answer c (queued p ∷ sent) = find_answer c sent

unfoldable pub awaited : ℕ → ℕ → Result (Unit {0}) × Hub → Result Resp × Hub
awaited c n (err e, h) = (err e, h)
awaited c n (ok _, h) = elim (find_answer c (drop n h.sent)) [
  | none ↦ (err blocked, h)
  | some r ↦ (ok r, h)
]

-- A packet and its answer: the state is that in which the packet's turn comes. Each use of `c` is a
-- new channel.
unfoldable pub ask_as : Addr → ℕ → ℕ → Content → M Hub Resp
unfolding awaited
ask_as from now c content h =
    awaited c (length h.sent)
      (handle_packet now (record { from = from; content = content; resp = some c }) h)

-- A packet in the name of this server.
unfoldable pub ask : ℕ → ℕ → Content → M Hub Resp
unfolding ask_as
ask now c content h = ask_as h.server.addr now c content h

pub find_answer-pushes :
    (c : ℕ) (msg : Message) (conns : List ℕ) (sent : List Output)
    → find_answer c (pushes msg conns ++ sent) ≡ find_answer c sent
find_answer-pushes c msg [] sent = refl
find_answer-pushes c msg (conn ∷ conns) sent = find_answer-pushes c msg conns sent

pub find_answer-first :
    (c : ℕ) (r : Resp) (sent : List Output) → find_answer c (answered c r ∷ sent) ≡ some r
find_answer-first c r sent = let here : (c == c) ≡ true = ground arith in rw here

pub awaited-last :
    (c : ℕ) (r : Resp) (before : List Output) (h : Hub)
    → h.sent ≡ before
    → awaited c (length before) (ok tt, sending h (answered c r ∷ []))
      ≡ (ok r, sending h (answered c r ∷ []))
unfolding awaited
awaited-last c r before h e =
    let here : (c == c) ≡ true = ground arith in
    let found : find_answer c (drop (length before) (h.sent ++ (answered c r ∷ []))) ≡ some r =
      ap (λ s. find_answer c (drop (length before) (s ++ (answered c r ∷ [])))) e
      ∙ ap (find_answer c) (drop-append (length before) before (answered c r ∷ []) refl)
      ∙ rw here in
    rw (found, awaited)
