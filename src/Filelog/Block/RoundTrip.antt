-- ===== src/Filelog/Block/RoundTrip.antt =====
-- Records that are written to a block are read back from its bytes.
use ws_cluster.Common.{
  ℕ, ◌+◌, ◌^◌, ◌<◌, ◌≤◌, ◌≡◌, refl, ◌∙◌, ap, List, [], ◌∷◌, ◌++◌, length, ok, for_each, arith, map,
  some, All, length-append,
}
use ws_cluster.Filelog.Block.{Block, new_block, write, read_records, mode_read, mode_write}
use ws_cluster.Filelog.Block.Writing.{block_at, all_bytes, writes-fit}
use ws_cluster.Filelog.Block.Reading.{reads, length-all_bytes}
use ws_cluster.Wire.Io.{le_bytes}
use ws_cluster.Wire.Io.Laws.{le_value-le_bytes}

same_fields :
    (buf : List ℕ) (offset c d n m mode : ℕ)
    → c ≡ d
    → n ≡ m
    → Path Block
        (record { buf = buf; offset = offset; cap = c; count = n; mode = mode })
        (record { buf = buf; offset = offset; cap = d; count = m; mode = mode })
same_fields buf offset c d n m mode e f = rw (e, f)

-- A block over a buffer of at least two bytes and less than 2 ^ 16.
pub new_block-le :
    (n : ℕ) (tail : List ℕ) (mode c : ℕ)
    → n < 2 ^ 16
    → length tail + 2 ≡ c
    → c < 2 ^ 16
    → new_block (le_bytes 2 n ++ tail) mode ≡ some (ok (block_at mode n [] tail c))
unfolding new_block
new_block-le n tail mode c h e bound =
    ap (λ b. some (ok b)) (same_fields _ _ _ _ _ _ mode (omega arith) (le_value-le_bytes 2 n h))

-- Records that are not empty and that fit in a block, with two bytes before each, are all written to
-- it, and a block over the bytes that it then holds has as many records and reads them all, in their
-- order.
pub write-read :
    (bs : List (List ℕ)) (tail : List ℕ)
    → All (λ b. 0 < length b) bs
    → length (all_bytes bs) ≤ length tail
    → length tail + 2 < 2 ^ 16
    → (start written filled last : Block) × (new_block (0 ∷ 0 ∷ tail) mode_write ≡ some (ok start))
      × (for_each bs write start ≡ (ok tt, written))
      × (new_block written.buf mode_read ≡ some (ok filled))
      × (filled.count ≡ length bs)
      × (read_records (length bs) filled ≡ (ok (map some bs), last))
write-read bs tail full fits bound =
    let c : ℕ = length tail + 2 in
    let (rest, run, sum) = writes-fit bs 0 [] tail c fits (omega arith) bound (omega arith) in
    let count : 0 + length bs ≡ length bs = omega arith in
    (
      block_at mode_write 0 [] tail c,
      block_at mode_write (length bs) (all_bytes bs) rest c,
      block_at mode_read (length bs) [] (all_bytes bs ++ rest) c,
      block_at mode_read 0 (all_bytes bs) rest c,
      new_block-le 0 tail mode_write c (omega arith) refl bound,
      run ∙ ap (λ n. (ok tt, block_at mode_write n (all_bytes bs) rest c)) count,
      new_block-le (length bs) (all_bytes bs ++ rest) mode_read c
          (omega (arith, length-all_bytes bs)) (omega (arith, length-append (all_bytes bs) rest))
          bound,
      refl,
      reads bs [] rest c full (omega arith) bound,
    )
