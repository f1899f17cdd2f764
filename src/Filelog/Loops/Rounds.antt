-- ===== src/Filelog/Loops/Rounds.antt =====
-- What a tick and a round of readloop do to the records that are on their way.
use ws_cluster.Common.{
  ℕ, ◌+◌, ◌-◌, ◌≤◌, ◌≡◌, refl, sym, ap, true, false, List, [], ◌∷◌, ◌++◌, append_assoc, append-nil,
  length, Option, some, map, ok, arith, ltb, ◌==◌, length-append,
}
use ws_cluster.Filelog.Block.{Block, new_block, mode_read, read_records}
use ws_cluster.Filelog.File.{Outcome, complete, Calls, got, get_block, next_block}
use ws_cluster.Filelog.File.Layout.{get, Holds, Holds-locked, Holds-none, Holds-some}
use ws_cluster.Filelog.File.Fifo.{call-Holds}
use ws_cluster.Filelog.Loops.{Loops, log_tick, read_round, receive_block, read_block, hand_over}
use ws_cluster.Filelog.Loops.Stored.{IsOpen, read-IsStored}
use ws_cluster.Filelog.Loops.OnWay.{flat, flat-append, AllStored, IsOnWay, flush-IsOnWay}

-- A tick leaves the records on their way.
pub log_tick-IsOnWay :
    (o' : Outcome) (s : Loops) (stored : List (List (List ℕ))) (rs : List (List ℕ))
    → IsOnWay s stored rs
    → (s' : Loops) × (stored' : List (List (List ℕ))) × (log_tick complete o' s ≡ (ok tt, s'))
      × (s'.answers ≡ s.answers)
      × (s'.given ≡ s.given)
      × (flat stored' ≡ flat stored ++ rs)
      × (length stored' ≤ length stored + 1)
      × IsOnWay s' stored' []
unfolding log_tick
log_tick-IsOnWay o' s stored rs w = step rs w
  where
    count : (rs : List (List ℕ)) → IsOnWay s stored rs → s.block.count ≡ length rs
    count rs w = ap (λ (x : Block). x.count) w.is_open.state

    step :
        (rs : List (List ℕ))
        → IsOnWay s stored rs
        → (s' : Loops) × (stored' : List (List (List ℕ))) × (log_tick complete o' s ≡ (ok tt, s'))
          × (s'.answers ≡ s.answers)
          × (s'.given ≡ s.given)
          × (flat stored' ≡ flat stored ++ rs)
          × (length stored' ≤ length stored + 1)
          × IsOnWay s' stored' []
    step [] w =
        let idle : ltb 0 s.block.count ≡ false = rw (count [] w) in
        (s, stored, rw idle, refl, refl, sym (append-nil (flat stored)), omega arith, w)
    step (r ∷ rs) w =
        let busy : ltb 0 s.block.count ≡ true = rw (count (r ∷ rs) w) (ground arith) in
        let (s', e, answers, given, (w', _)) = flush-IsOnWay o' s stored (r ∷ rs) w in
        (
          s',
          stored ++ ((r ∷ rs) ∷ []),
          rw busy e,
          answers,
          given,
          flat-append stored (r ∷ rs),
          omega (arith, length-append stored ((r ∷ rs) ∷ [])),
          w',
        )

pub map_append {ℓ ℓ'} :
    {A : Type ℓ} {B : Type ℓ'} (f : A → B) (xs ys : List A)
    → map f (xs ++ ys) ≡ map f xs ++ map f ys
map_append f [] ys = refl
map_append f (x ∷ xs) ys = ap (λ t. f x ∷ t) (map_append f xs ys)

given_next :
    (given : List (List (Option (List ℕ)))) (x : List (List ℕ)) (rss : List (List (List ℕ)))
    → flat (given ++ (map some x ∷ [])) ++ map some (flat rss)
      ≡ flat given ++ map some (x ++ flat rss)
given_next given x rss =
    rw (flat-append given (map some x), map_append some x (flat rss))
      (append_assoc (flat given) (map some x) (map some (flat rss)))

read_round-idle :
    (calls : Calls) (s : Loops)
    → s.flog.locked ≡ false
    → (s.flog.readblock == s.flog.writeblock) ≡ true
    → read_round calls s ≡ (ok tt, s)
unfolding read_round next_block
read_round-idle calls s l n = rw n (rw l)

read_round-got :
    (calls : Calls) (s : Loops) (b : List ℕ) (block last : Block) (bufs : List (Option (List ℕ)))
    → s.flog.locked ≡ false
    → (s.flog.readblock == s.flog.writeblock) ≡ false
    → (get_block calls s.flog).0 ≡ got b
    → new_block b mode_read ≡ some (ok block)
    → read_records block.count block ≡ (ok bufs, last)
    → read_round calls s
      ≡ (ok tt, record s { flog = (get_block calls s.flog).1; given = s.given ++ (bufs ∷ []) })
unfolding read_round next_block receive_block read_block hand_over
read_round-got calls s b block last bufs l n reply opens reads =
    rw (n, reply) (rw opens (rw reads (rw l)))

-- A round of readloop hands over the records of the first block of the file, if there is one.
pub read_round-IsOnWay :
    (calls : Calls) (s : Loops) (stored : List (List (List ℕ))) (rs : List (List ℕ))
    → calls.reads ≡ true
    → IsOnWay s stored rs
    → (s' : Loops) × (stored' : List (List (List ℕ))) × (read_round calls s ≡ (ok tt, s'))
      × (s'.answers ≡ s.answers)
      × (flat s'.given ++ map some (flat stored') ≡ flat s.given ++ map some (flat stored))
      × (length stored' ≡ length stored - 1)
      × IsOnWay s' stored' rs
read_round-IsOnWay calls s stored rs h w = step w.blocks stored w.is_open w.holds w.all_stored
  where
    step :
        (blocks : List (List ℕ)) (stored : List (List (List ℕ)))
        → IsOpen s.block rs
        → Holds s.flog blocks
        → AllStored blocks stored
        → (s' : Loops) × (stored' : List (List (List ℕ))) × (read_round calls s ≡ (ok tt, s'))
          × (s'.answers ≡ s.answers)
          × (flat s'.given ++ map some (flat stored') ≡ flat s.given ++ map some (flat stored))
          × (length stored' ≡ length stored - 1)
          × IsOnWay s' stored' rs
    step [] [] o v a = (
      s,
      [],
      read_round-idle calls s (Holds-locked v) (ground (arith, Holds-none v)),
      refl,
      refl,
      refl,
      record { blocks = []; is_open = o; holds = v; all_stored = tt },
    )
    step [] (x ∷ rss) o v a = absurd a
    step (b ∷ bs) [] o v a = absurd a
    step (b ∷ bs) (x ∷ rss) o v a =
        let (reply, held) = call-Holds (get calls) s.flog (b ∷ bs) h v in
        let (block, last, opens, reads) = read-IsStored b x a.0 in
        let flog = (get_block calls s.flog).1 in
        (
          record s { flog = flog; given = s.given ++ (map some x ∷ []) },
          rss,
          read_round-got calls s b block last (map some x) (Holds-locked v) (Holds-some v) reply
              opens reads,
          refl,
          given_next s.given x rss,
          omega arith,
          record { blocks = bs; is_open = o; holds = held; all_stored = a.1 },
        )
