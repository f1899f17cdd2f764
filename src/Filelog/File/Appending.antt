-- ===== src/Filelog/File/Appending.antt =====
-- An append puts a block at the end of the queue.
use ws_cluster.Common.{
  ℕ, zero, suc, ◌+◌, ◌*◌, ◌≡◌, refl, sym, ◌∙◌, ap, List, [], ◌∷◌, ◌++◌, append_assoc, length,
  length-append, take, drop, All, arith, replicate, append-nil,
}
use ws_cluster.Filelog.File.{
  block_size, Outcome, complete, short, overwrite, write_at, put_uint32, append_block,
}
use ws_cluster.Filelog.File.Bytes.{write_at-append, put_uint32-inside}
use ws_cluster.Filelog.File.Layout.{
  append, fifo_call, blocks_bytes, IsBlock, log_at, empty_log, Holds, laid_out, fresh, same_log,
}

blocks_bytes-append :
    (q : List (List ℕ)) (b : List ℕ) → blocks_bytes (q ++ (b ∷ [])) ≡ blocks_bytes q ++ b
blocks_bytes-append [] b = append-nil b
blocks_bytes-append (c ∷ q) b =
    rw (blocks_bytes-append q b) (sym (append_assoc c (blocks_bytes q) b))

length-blocks_bytes :
    (q : List (List ℕ)) → All IsBlock q → length (blocks_bytes q) ≡ length q * block_size
length-blocks_bytes [] h = refl
length-blocks_bytes (b ∷ q) h =
    omega (arith, length-append b (blocks_bytes q), length-blocks_bytes q h.1, h.0)

All-append-IsBlock :
    (q : List (List ℕ)) (b : List ℕ) → All IsBlock q → IsBlock b → All IsBlock (q ++ (b ∷ []))
All-append-IsBlock [] b h i = (i, tt)
All-append-IsBlock (c ∷ q) b h i = (h.0, All-append-IsBlock q b h.1 i)

module _ (readblock : ℕ) (head old : List ℕ) (q : List (List ℕ)) (junk : List ℕ)
    (head_size : length head ≡ 8) (old_size : length old ≡ readblock * block_size)
    (sizes : All IsBlock q) where
  -- A write behind the last block.
  write_at-end :
      (src : List ℕ)
      → write_at
          ((readblock + length q) * block_size + 8)
          src
          (head ++ (old ++ (blocks_bytes q ++ junk)))
        ≡ head ++ (old ++ (blocks_bytes q ++ (src ++ drop (length src) junk)))
  write_at-end src =
      let pre = head ++ (old ++ blocks_bytes q) in
      let at : (readblock + length q) * block_size + 8 ≡ length pre = omega (
        arith,
        length-append head (old ++ blocks_bytes q),
        length-append old (blocks_bytes q),
        length-blocks_bytes q sizes,
      ) in
      let whole : (rest : List ℕ) → head ++ (old ++ (blocks_bytes q ++ rest)) ≡ pre ++ rest =
        λ rest. simp append_assoc in
      rw at (
        rw (whole junk) (write_at-append pre src junk)
        ∙ sym (whole (src ++ drop (length src) junk)))

  append_complete :
      (o' : Outcome) (b : List ℕ)
      → IsBlock b
      → Holds (append_block complete o' b (log_at readblock head old q junk)).1 (q ++ (b ∷ []))
  unfolding append_block
  append_complete o' b h =
      let next : ℕ = readblock + length q + 1 in
      let junk' = drop (length b) junk in
      let rest = old ++ (blocks_bytes (q ++ (b ∷ [])) ++ junk') in
      let behind : write_at ((readblock + length q) * block_size + 8) b
            (head ++ (old ++ (blocks_bytes q ++ junk)))
          ≡ head ++ rest =
        write_at-end b
        ∙ ap (λ t. head ++ (old ++ t))
            (rw (blocks_bytes-append q b) (sym (append_assoc (blocks_bytes q) b junk'))) in
      let (head', inside, size) = put_uint32-inside o' next 4 head rest (omega arith) in
      laid_out readblock head' old junk' (size ∙ head_size) old_size
        (All-append-IsBlock q b sizes h)
        (same_log _ _ _ _ _ _ (omega (arith, length-append q (b ∷ [])))
          (ap (put_uint32 o' next 4) behind ∙ inside))

  append_short :
      (n : ℕ) (o' : Outcome) (b : List ℕ)
      → Holds (append_block (short n) o' b (log_at readblock head old q junk)).1 q
  unfolding append_block
  append_short n o' b =
      laid_out readblock head old (take n b ++ drop (length (take n b)) junk) head_size old_size
        sizes (same_log _ _ _ _ _ _ refl (write_at-end (take n b)))

  pub append-Holds :
      (o o' : Outcome) (b : List ℕ)
      → IsBlock b
      → ((append_block o o' b (log_at readblock head old q junk)).0
          ≡ (fifo_call (append o o' b) q).0)
        × Holds
            (append_block o o' b (log_at readblock head old q junk)).1
            (fifo_call (append o o' b) q).1
  append-Holds complete complete b h = (unfold append_block in refl, append_complete complete b h)
  append-Holds complete (short m) b h = (unfold append_block in refl, append_complete (short m) b h)
  append-Holds (short n) o' b h = (unfold append_block in refl, append_short n o' b)

drop-nil : (n : ℕ) → drop {A = ℕ} n [] ≡ []
drop-nil zero = refl
drop-nil (suc n) = refl

-- A write to an empty file, of some bytes, leaves zeros before them.
fresh_write :
    (x : ℕ) (src : List ℕ)
    → write_at 8 (x ∷ src) [] ≡ replicate 8 0 ++ ((x ∷ src) ++ drop (length (x ∷ src)) [])
unfolding write_at overwrite
fresh_write x src = refl

fresh_short : (src : List ℕ) → Holds (record empty_log { file = write_at 8 src empty_log.file }) []
unfolding write_at overwrite
fresh_short [] = fresh refl refl
fresh_short (x ∷ src) =
    laid_out 0 (replicate 8 0) [] ((x ∷ src) ++ drop (length (x ∷ src)) []) refl refl tt refl

fresh_complete :
    (o' : Outcome) (b : List ℕ)
    → IsBlock b
    → Holds (append_block complete o' b empty_log).1 (b ∷ [])
unfolding append_block
fresh_complete o' [] h = absurd (omega (arith, h))
fresh_complete o' (x ∷ b) h =
    let (head, inside, size) =
      put_uint32-inside o' 1 4 (replicate 8 0) ((x ∷ b) ++ drop (length (x ∷ b)) [])
        (omega arith) in
    laid_out 0 head [] [] size refl (h, tt)
      (same_log _ _ _ _ _ _ refl
        (ap (put_uint32 o' 1 4) (fresh_write x b) ∙ inside ∙ rw drop-nil (simp (append-nil))))

-- The first append to an empty file leaves zeros before the block, or nothing where nothing is written.
pub append-fresh :
    (o o' : Outcome) (b : List ℕ)
    → IsBlock b
    → ((append_block o o' b empty_log).0 ≡ (fifo_call (append o o' b) []).0)
      × Holds (append_block o o' b empty_log).1 (fifo_call (append o o' b) []).1
append-fresh complete complete b h = (unfold append_block in refl, fresh_complete complete b h)
append-fresh complete (short m) b h = (unfold append_block in refl, fresh_complete (short m) b h)
append-fresh (short n) o' b h =
    (unfold append_block in refl, unfold append_block in fresh_short (take n b))
