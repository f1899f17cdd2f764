-- ===== src/Filelog/Block/Reading.antt =====
-- What is read from a block.
use ws_cluster.Common.{
  ℕ, suc, ◌+◌, ◌-◌, ◌%◌, ◌^◌, ◌<◌, ◌≤◌, ◌≡◌, refl, sym, ◌∙◌, ap, true, false, List, [], ◌∷◌, ◌++◌,
  append_assoc, append-nil, length, length-append, take, drop, take-append, drop-append, replicate,
  ok, leb, ◌==◌, ◌&&◌, ◌||◌, arith, map, some, Option, All,
}
use ws_cluster.Wire.Io.{le_bytes, le_value}
use ws_cluster.Wire.Io.Laws.{le_value-le_bytes}
use ws_cluster.Filelog.Block.{
  Block, get_uint16, read, read_record, fill, mode_read, read_records, attempt,
}
use ws_cluster.Filelog.Block.Writing.{
  block_at, record_bytes, all_bytes, same_block, set_count-front,
}

get_uint16-le :
    (pre tail : List ℕ) (v : ℕ) (block : Block) (i : ℕ)
    → block.buf ≡ pre ++ (le_bytes 2 v ++ tail)
    → i ≡ length pre
    → v < 2 ^ 16
    → i + 2 < 2 ^ 16
    → get_uint16 i block ≡ (ok v, block)
unfolding get_uint16
get_uint16-le pre tail v block i e f h bound =
    let wrap : (i + 2) % 2 ^ 16 ≡ i + 2 = omega arith in
    let inside : leb i (i + 2) && leb (i + 2) (length block.buf) ≡ true =
      rw (e, f) (ground (arith, length-append pre (le_bytes 2 v ++ tail))) in
    let value : le_value (take 2 (drop i block.buf)) ≡ v =
      rw (e, f, drop-append (length pre) pre (le_bytes 2 v ++ tail) refl)
        (le_value-le_bytes 2 v h) in
    rw (wrap, inside, value)

fill-over : (b rest : List ℕ) → fill (length b) (b ++ rest) ≡ b
fill-over b rest =
    rw (append_assoc b rest (replicate (length b) 0))
      (take-append (length b) b (rest ++ replicate (length b) 0) refl)

-- The next record is read.
pub read-next :
    (n : ℕ) (front b rest : List ℕ) (c : ℕ)
    → 0 < length b
    → 4 + (length front + length b) ≤ c
    → c < 2 ^ 16
    → n + 1 < 2 ^ 16
    → read (block_at mode_read (n + 1) front (record_bytes b ++ rest) c)
      ≡ (ok b, block_at mode_read n (front ++ record_bytes b) rest c)
unfolding read read_record
read-next n front b rest c some_bytes fits bound less =
    let pre = le_bytes 2 (n + 1) ++ front in
    let i : ℕ = 2 + length front in
    let block = block_at mode_read (n + 1) front (record_bytes b ++ rest) c in
    let more : leb c i || (n + 1 == 0) ≡ false = ground arith in
    let full : (length b == 0) ≡ false = ground arith in
    let pre' = pre ++ le_bytes 2 (length b) in
    let after : (i + 2) % 2 ^ 16 ≡ length pre' =
      ground (arith, length-append front (le_bytes 2 (length b))) in
    let left : drop ((i + 2) % 2 ^ 16) block.buf ≡ b ++ rest = rw after (
      ap (drop (length pre')) (sym (append_assoc pre (le_bytes 2 (length b)) (b ++ rest)))
      ∙ drop-append (length pre') pre' (b ++ rest) refl) in
    let got : fill (length b) (drop ((i + 2) % 2 ^ 16) block.buf) ≡ b =
      rw left (fill-over b rest) in
    let less_one : n + 1 - 1 ≡ n = omega arith in
    rw
      (
        more,
        get_uint16-le pre (b ++ rest) (length b) block i refl (omega arith) (omega arith)
            (omega arith),
      )
      (rw
        (
          full,
          got,
          less_one,
          set_count-front n (n + 1) (front ++ (record_bytes b ++ rest))
              (((i + 2) % 2 ^ 16 + length b) % 2 ^ 16) c mode_read (omega arith),
        )
        (ap (λ block. (ok b, block))
          (same_block _ _ _ _ _ _ c mode_read
            (ap (λ t. le_bytes 2 n ++ t) (sym (append_assoc front (record_bytes b) rest)))
            (ground (arith, length-append front (record_bytes b))) refl)))

read_records-next :
    (n : ℕ) (x y z : Block) (b : List ℕ) (bs : List (Option (List ℕ)))
    → read x ≡ (ok b, y)
    → read_records n y ≡ (ok bs, z)
    → read_records (suc n) x ≡ (ok (some b ∷ bs), z)
unfolding read_records attempt
read_records-next n x y z b bs e f = rw e (rw f)

read_records-zero : (x : Block) → read_records 0 x ≡ (ok [], x)
unfolding read_records
read_records-zero x = refl

pub length-all_bytes : (bs : List (List ℕ)) → length bs ≤ length (all_bytes bs)
length-all_bytes [] = omega arith
length-all_bytes (b ∷ bs) = omega (arith, length-all_bytes bs, length-append b (all_bytes bs))

-- All records of a block are read, in their order.
pub reads :
    (bs : List (List ℕ)) (front rest : List ℕ) (c : ℕ)
    → All (λ b. 0 < length b) bs
    → 2 + (length front + length (all_bytes bs)) ≤ c
    → c < 2 ^ 16
    → read_records (length bs) (block_at mode_read (length bs) front (all_bytes bs ++ rest) c)
      ≡ (ok (map some bs), block_at mode_read 0 (front ++ all_bytes bs) rest c)
reads [] front rest c full fits bound = none_left
  where
    none_left :
        read_records 0 (block_at mode_read 0 front rest c)
        ≡ (ok [], block_at mode_read 0 (front ++ []) rest c)
    none_left = rw append-nil (read_records-zero (block_at mode_read 0 front rest c))
reads (b ∷ bs) front rest c full fits bound =
    let len : suc (length bs) ≡ length bs + 1 = omega arith in
    let lb : length (all_bytes (b ∷ bs)) ≡ 2 + (length b + length (all_bytes bs)) =
      omega (arith, length-append b (all_bytes bs)) in
    read_records-next (length bs)
      (block_at mode_read (suc (length bs)) front (all_bytes (b ∷ bs) ++ rest) c)
      (block_at mode_read (length bs) (front ++ record_bytes b) (all_bytes bs ++ rest) c)
      (block_at mode_read 0 (front ++ all_bytes (b ∷ bs)) rest c) b (map some bs)
      (rw (append_assoc (record_bytes b) (all_bytes bs) rest, len)
        (read-next (length bs) front b (all_bytes bs ++ rest) c full.0 (omega arith) bound
          (omega (arith, length-all_bytes bs))))
      (reads bs (front ++ record_bytes b) rest c full.1
          (omega (arith, length-append front (record_bytes b))) bound
        ∙ ap (λ f. (ok (map some bs), block_at mode_read 0 f rest c))
            (append_assoc front (record_bytes b) (all_bytes bs)))
