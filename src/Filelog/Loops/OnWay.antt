-- ===== src/Filelog/Loops/OnWay.antt =====
-- The records that are on their way from writeloop to SubFunc, and what a record does to them.
use ws_cluster.Common.{
  ℕ, ◌+◌, ◌%◌, ◌^◌, ◌<◌, ◌≤◌, ◌≡◌, refl, sym, ◌∙◌, ap, Bool-cases, inl, inr, true, List, [], ◌∷◌,
  ◌++◌, append_assoc, append-nil, length, ok, arith, leb, length-append,
}
use ws_cluster.Filelog.Block.{has_space, write}
use ws_cluster.Filelog.File.{FileLog, Outcome, complete, short, Reply, append_block}
use ws_cluster.Filelog.File.Layout.{append, fifo_call, Holds}
use ws_cluster.Filelog.File.Fifo.{call-Holds}
use ws_cluster.Filelog.Loops.{Loops, flush, flushed, reset_block, log_record, answer_write}
use ws_cluster.Filelog.Loops.Stored.{
  IsRecord, IsStored, IsOpen, IsOpen-IsStored, write-IsOpen, has_space-IsOpen, reset-IsOpen,
}

abbrev pub flat {ℓ} : {A : Type ℓ} → List (List A) → List A
flat [] = []
flat (xs ∷ xss) = xs ++ flat xss

-- Each block of the file with its records.
abbrev pub AllStored : List (List ℕ) → List (List (List ℕ)) → Type 0
AllStored [] [] = Unit {0}
AllStored [] (rs ∷ rss) = ⊥
AllStored (b ∷ bs) [] = ⊥
AllStored (b ∷ bs) (rs ∷ rss) = IsStored b rs × AllStored bs rss

-- On their way are the records of `stored`, a list for each block of the file, and those of `open`,
-- in the block that is written to.
pub record IsOnWay (s : Loops) (stored : List (List (List ℕ))) (open_ : List (List ℕ))
    : Type 0 where
  pub blocks : List (List ℕ)
  pub is_open : IsOpen s.block open_
  pub holds : Holds s.flog blocks
  pub all_stored : AllStored blocks stored

AllStored-append :
    (bs : List (List ℕ)) (rss : List (List (List ℕ))) (b : List ℕ) (rs : List (List ℕ))
    → AllStored bs rss
    → IsStored b rs
    → AllStored (bs ++ (b ∷ [])) (rss ++ (rs ∷ []))
AllStored-append [] [] b rs h i = (i, tt)
AllStored-append [] (x ∷ rss) b rs h i = absurd h
AllStored-append (x ∷ bs) [] b rs h i = absurd h
AllStored-append (x ∷ bs) (y ∷ rss) b rs h i = (h.0, AllStored-append bs rss b rs h.1 i)

flushed-reset :
    (o' : Outcome) (reply : Reply) (flog : FileLog) (s : Loops) (q : List (List ℕ))
    → reply ≡ (fifo_call (append complete o' s.block.buf) q).0
    → flushed reply flog s ≡ reset_block (record s { flog = flog })
unfolding flushed
flushed-reset complete reply flog s q e = rw e
flushed-reset (short n) reply flog s q e = rw e

fifo_append :
    (o' : Outcome) (b : List ℕ) (q : List (List ℕ))
    → (fifo_call (append complete o' b) q).1 ≡ q ++ (b ∷ [])
fifo_append complete b q = refl
fifo_append (short n) b q = refl

-- A flush moves the records of the open block to the file.
pub flush-IsOnWay :
    (o' : Outcome) (s : Loops) (stored : List (List (List ℕ))) (rs : List (List ℕ))
    → IsOnWay s stored rs
    → (s' : Loops) × (flush complete o' s ≡ (ok tt, s'))
      × (s'.answers ≡ s.answers)
      × (s'.given ≡ s.given)
      × ((w : IsOnWay s' (stored ++ (rs ∷ [])) []) × (length w.is_open.rest ≡ 4094))
unfolding flush reset_block
flush-IsOnWay o' s stored rs w =
    let b = s.block.buf in
    let is_stored = IsOpen-IsStored s.block rs w.is_open in
    let (reply, held) = call-Holds (append complete o' b) s.flog w.blocks is_stored.size w.holds in
    let flog = (append_block complete o' b s.flog).1 in
    let (block, e, (o, room)) = reset-IsOpen s.block rs w.is_open in
    (
      record s { flog = flog; block = block },
      rw (flushed-reset o' (append_block complete o' b s.flog).0 flog s w.blocks reply) (rw e),
      refl,
      refl,
      (
        record {
          blocks = w.blocks ++ (b ∷ []);
          is_open = o;
          holds = rw (sym (fifo_append o' b w.blocks)) held;
          all_stored = AllStored-append w.blocks stored b rs w.all_stored is_stored;
        },
        room,
      ),
    )

pub flat-append {ℓ} :
    {A : Type ℓ} (xss : List (List A)) (xs : List A) → flat (xss ++ (xs ∷ [])) ≡ flat xss ++ xs
flat-append [] xs = append-nil xs
flat-append (ys ∷ xss) xs = rw (flat-append xss xs) (sym (append_assoc ys (flat xss) xs))

-- A record for which there is room joins those of the open block.
write-IsOnWay :
    (b : List ℕ) (s : Loops) (stored : List (List (List ℕ))) (rs : List (List ℕ))
    (w : IsOnWay s stored rs)
    → 0 < length b
    → 2 + length b ≤ length w.is_open.rest
    → (s' : Loops) × (answer_write (write b s.block) s ≡ (ok tt, s'))
      × (s'.answers ≡ s.answers ++ (ok tt ∷ []))
      × (s'.given ≡ s.given)
      × IsOnWay s' stored (rs ++ (b ∷ []))
unfolding answer_write
write-IsOnWay b s stored rs w some_bytes fits =
    let (block, e, o) = write-IsOpen s.block rs b w.is_open some_bytes fits in
    (
      record s { block = block; answers = s.answers ++ (ok tt ∷ []) },
      rw e,
      refl,
      refl,
      record { blocks = w.blocks; is_open = o; holds = w.holds; all_stored = w.all_stored },
    )

fits_16 :
    (b : List ℕ) (n : ℕ)
    → length b ≤ 4092
    → leb ((length b + 2) % 2 ^ 16) n ≡ true
    → 2 + length b ≤ n
fits_16 b n h e = ground arith

fits_empty :
    (b : List ℕ) {s : Loops} {stored : List (List (List ℕ))} (w : IsOnWay s stored [])
    → length w.is_open.rest ≡ 4094
    → length b ≤ 4092
    → 2 + length b ≤ length w.is_open.rest
fits_empty b w room h = omega arith

-- A record is answer_write with no error and is on its way, behind those before it.
pub log_record-IsOnWay :
    (o' : Outcome) (b : List ℕ) (s : Loops) (stored : List (List (List ℕ))) (rs : List (List ℕ))
    → IsRecord b
    → IsOnWay s stored rs
    → (s' : Loops) × (stored' : List (List (List ℕ))) × (rs' : List (List ℕ)) × (log_record complete
          o' b s
        ≡ (ok tt, s'))
      × (s'.answers ≡ s.answers ++ (ok tt ∷ []))
      × (s'.given ≡ s.given)
      × (flat stored' ++ rs' ≡ (flat stored ++ rs) ++ (b ∷ []))
      × (length stored' ≤ length stored + 1)
      × IsOnWay s' stored' rs'
unfolding log_record
log_record-IsOnWay o' b s stored rs (some_bytes, short_enough) w =
    let n = (length b + 2) % 2 ^ 16 in
    elim (Bool-cases (has_space n s.block)) [
      | inl room ↦
          let fits : 2 + length b ≤ length w.is_open.rest =
            fits_16 b (length w.is_open.rest) short_enough
              (sym (has_space-IsOpen s.block rs n w.is_open) ∙ room) in
          let (s', e, answers, given, w') = write-IsOnWay b s stored rs w some_bytes fits in
          (
            s',
            stored,
            rs ++ (b ∷ []),
            rw room e,
            answers,
            given,
            sym (append_assoc (flat stored) rs (b ∷ [])),
            omega arith,
            w',
          )
      | inr none_left ↦
          let (s1, flushes, answers1, given1, (w1, room)) = flush-IsOnWay o' s stored rs w in
          let (s', e, answers, given, w') =
            write-IsOnWay b s1 (stored ++ (rs ∷ [])) [] w1 some_bytes
              (fits_empty b w1 room short_enough) in
          (
            s',
            stored ++ (rs ∷ []),
            b ∷ [],
            rw (none_left, flushes) e,
            answers ∙ rw answers1,
            given ∙ given1,
            ap (λ t. t ++ (b ∷ [])) (flat-append stored rs),
            omega (arith, length-append stored (rs ∷ [])),
            w',
          )
    ]
