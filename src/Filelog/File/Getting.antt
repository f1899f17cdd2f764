-- ===== src/Filelog/File/Getting.antt =====
-- A read takes the first block of the queue.
use ws_cluster.Common.{
  ℕ, suc, ◌+◌, ◌*◌, ◌≡◌, refl, sym, ◌∙◌, ap, Bool, true, false, List, [], ◌∷◌, ◌++◌, append_assoc,
  length, length-append, take, drop, All, arith, drop-append, take-append, ◌==◌, if◌then◌else◌,
  append-nil, Bool-cases, inl, inr,
}
use ws_cluster.Filelog.File.{
  block_size, FileLog, put_uint32, truncate, got, no_more_block, get_block, count_read, Calls,
}
use ws_cluster.Filelog.File.Bytes.{put_uint32-inside, truncate-append}
use ws_cluster.Filelog.File.Layout.{blocks_bytes, IsBlock, log_at, Holds, laid_out, same_log}

truncated :
    (cuts : Bool) (head rest : List ℕ)
    → length head ≡ 8
    → (if cuts then truncate 8 (head ++ rest) else head ++ rest)
      ≡ head ++ (if cuts then [] else rest)
truncated true head rest h = rw (sym h) (truncate-append head rest) ∙ sym (append-nil head)
truncated false head rest h = refl

pub no_more : (r : ℕ) (q : List (List ℕ)) → r + 1 ≡ r + suc (length q) → q ≡ []
no_more r [] e = refl
no_more r (b ∷ q) e = absurd (omega arith)

-- A file all of whose blocks have been read.
starts_over :
    (calls : Calls) (head rest : List ℕ)
    → length head ≡ 8
    → Holds
        (record {
          writeblock = 0;
          readblock = 0;
          file = put_uint32 calls.counts 0 0 (
              if calls.truncates
              then truncate 8 (put_uint32 calls.resets 0 4 (head ++ rest))
              else put_uint32 calls.resets 0 4 (head ++ rest));
          locked = false;
        })
        []
starts_over calls head rest head_size =
    let (head', inside, size) = put_uint32-inside calls.resets 0 4 head rest (omega arith) in
    let kept = if calls.truncates then [] else rest in
    let (front, inside', size') =
      put_uint32-inside calls.counts 0 0 head' kept (omega (arith, size, head_size)) in
    laid_out 0 front [] kept (size' ∙ size ∙ head_size) refl tt (
      same_log _ _ _ _ _ _ refl (
        rw inside (
          ap (put_uint32 calls.counts 0 0) (truncated calls.truncates head' rest (size ∙ head_size))
          ∙ inside')))

-- The first read of a file that holds blocks.
module _ (readblock : ℕ) (head old : List ℕ) (b : List ℕ) (q : List (List ℕ)) (junk : List ℕ)
    (head_size : length head ≡ 8) (old_size : length old ≡ readblock * block_size)
    (b_size : IsBlock b) (sizes : All IsBlock q) where
  first_block :
      take block_size
        (drop (readblock * block_size + 8) (head ++ (old ++ (blocks_bytes (b ∷ q) ++ junk))))
      ≡ b
  first_block =
      let at : readblock * block_size + 8 ≡ length (head ++ old) =
        omega (arith, length-append head old) in
      let whole : head ++ (old ++ (blocks_bytes (b ∷ q) ++ junk))
          ≡ (head ++ old) ++ (b ++ (blocks_bytes q ++ junk)) =
        simp append_assoc in
      rw
        (
          whole,
          at,
          drop-append (length (head ++ old)) (head ++ old) (b ++ (blocks_bytes q ++ junk)) refl,
        )
        (take-append block_size b (blocks_bytes q ++ junk) b_size)

  goes_on :
      (calls : Calls)
      → Holds
          (record {
            writeblock = readblock + length (b ∷ q);
            readblock = readblock + 1;
            file =
                put_uint32 calls.counts
                  (readblock + 1)
                  0
                  (head ++ (old ++ (blocks_bytes (b ∷ q) ++ junk)));
            locked = false;
          })
          q
  goes_on calls =
      let rest = old ++ (blocks_bytes (b ∷ q) ++ junk) in
      let (head', inside, size) =
        put_uint32-inside calls.counts (readblock + 1) 0 head rest (omega arith) in
      laid_out (readblock + 1) head' (old ++ b) junk (size ∙ head_size)
        (omega (arith, length-append old b)) sizes
        (same_log _ _ _ _ _ _ (omega arith) (inside ∙ ap (λ t. head' ++ t) (simp append_assoc)))

  count_read-Holds :
      (calls : Calls) → Holds (count_read calls (log_at readblock head old (b ∷ q) junk)) q
  unfolding count_read
  count_read-Holds calls = elim (Bool-cases (readblock + 1 == readblock + length (b ∷ q))) [
    | inl last ↦ rw last (
        rw (no_more readblock q (ground arith))
          (starts_over calls head (old ++ ((b ++ []) ++ junk)) head_size))
    | inr more ↦ rw more (goes_on calls)
  ]

  pub get_block-first :
      (calls : Calls)
      → calls.reads ≡ true
      → get_block calls (log_at readblock head old (b ∷ q) junk)
        ≡ (got b, count_read calls (log_at readblock head old (b ∷ q) junk))
  unfolding get_block
  get_block-first calls h =
      let behind : (readblock == readblock + length (b ∷ q)) ≡ false = ground arith in
      let whole : (length b == block_size) ≡ true = rw b_size in
      rw behind (rw (h, first_block) (rw whole))

  pub get-Holds :
      (calls : Calls)
      → calls.reads ≡ true
      → ((get_block calls (log_at readblock head old (b ∷ q) junk)).0 ≡ got b)
        × Holds (get_block calls (log_at readblock head old (b ∷ q) junk)).1 q
  get-Holds calls h = rw (get_block-first calls h) (refl, count_read-Holds calls)

-- A read with no block left to read changes nothing.
pub get_block-none :
    (calls : Calls) (flog : FileLog)
    → flog.locked ≡ false
    → flog.writeblock ≡ flog.readblock
    → get_block calls flog ≡ (no_more_block, flog)
unfolding get_block
get_block-none calls flog l e =
    let all_read : (flog.readblock == flog.writeblock) ≡ true = ground arith in rw (l, all_read)
