-- ===== src/Filelog/Block/Writing.antt =====
-- What is written to a block that has room.
use ws_cluster.Common.{
  ℕ, ◌+◌, ◌-◌, ◌%◌, ◌^◌, ◌<◌, ◌≤◌, ◌≡◌, refl, sym, ◌∙◌, ap, true, false, List, [], ◌∷◌, ◌++◌,
  append_assoc, append-nil, length, length-append, take, drop, ok, for_each, leb, ltb, arith,
  take-append-drop, length-take, length-drop,
}
use ws_cluster.Wire.Io.{le_bytes, copy_at, overlay}
use ws_cluster.Filelog.Block.{Block, put, set_count, put_record, room, write, mode_write}

overlay-over : (src ys zs : List ℕ) → length src ≡ length ys → overlay src (ys ++ zs) ≡ src ++ zs
overlay-over [] [] zs e = refl
overlay-over [] (y ∷ ys) zs e = ground arith
overlay-over (s ∷ src) [] zs e = ground arith
overlay-over (s ∷ src) (y ∷ ys) zs e = ap (λ t. s ∷ t) (overlay-over src ys zs (omega arith))

copy_at-over :
    (pre src ys zs : List ℕ)
    → length src ≡ length ys
    → copy_at (length pre) src (pre ++ (ys ++ zs)) ≡ pre ++ (src ++ zs)
copy_at-over [] src ys zs e = overlay-over src ys zs e
copy_at-over (p ∷ pre) src ys zs e = ap (λ t. p ∷ t) (copy_at-over pre src ys zs e)

-- Bytes are written over as many others.
pub put-over :
    (pre src ys zs : List ℕ) (block : Block) (i : ℕ)
    → block.buf ≡ pre ++ (ys ++ zs)
    → i ≡ length pre
    → length src ≡ length ys
    → put src i block ≡ (ok tt, record block { buf = pre ++ (src ++ zs) })
unfolding put
put-over pre src ys zs block i e f g =
    let fits : leb i (length block.buf) ≡ true =
      rw (e, f) (ground (arith, length-append pre (ys ++ zs))) in
    rw fits (rw (e, f) (rw (copy_at-over pre src ys zs g)))

-- A block of capacity `c` in some mode that has gone past `front`, with `rest` left, and `n` records.
abbrev pub block_at : ℕ → ℕ → List ℕ → List ℕ → ℕ → Block
block_at mode n front rest c = record {
  buf = le_bytes 2 n ++ (front ++ rest);
  offset = 2 + length front;
  cap = c;
  count = n;
  mode = mode;
}

-- The bytes of a record.
abbrev pub record_bytes : List ℕ → List ℕ
record_bytes b = le_bytes 2 (length b) ++ b

pub same_block :
    (x y : List ℕ) (i j n m c mode : ℕ)
    → x ≡ y
    → i ≡ j
    → n ≡ m
    → Path Block
        (record { buf = x; offset = i; cap = c; count = n; mode = mode })
        (record { buf = y; offset = j; cap = c; count = m; mode = mode })
same_block x y i j n m c mode e f g = rw (e, f, g)

-- The count is set at the front of the buffer.
pub set_count-front :
    (n m : ℕ) (tail : List ℕ) (i c mode : ℕ)
    → n < 2 ^ 16
    → set_count n
        (record { buf = le_bytes 2 m ++ tail; offset = i; cap = c; count = m; mode = mode })
      ≡ (ok tt, record { buf = le_bytes 2 n ++ tail; offset = i; cap = c; count = n; mode = mode })
unfolding set_count
set_count-front n m tail i c mode h =
    let e : n % 2 ^ 16 ≡ n = omega arith in
    let block : Block = record {
      buf = le_bytes 2 m ++ tail;
      offset = i;
      cap = c;
      count = n % 2 ^ 16;
      mode = mode;
    } in
    rw (put-over [] (le_bytes 2 (n % 2 ^ 16)) (le_bytes 2 m) tail block 0 refl refl refl) (rw e)

regroup : (xs ys zs ws : List ℕ) → (xs ++ ys) ++ (zs ++ ws) ≡ (xs ++ (ys ++ zs)) ++ ws
regroup xs ys zs ws = simp append_assoc

-- A record is put over as many bytes.
put_record-over :
    (n : ℕ) (front b ra rb rest : List ℕ) (c : ℕ)
    → length ra ≡ 2
    → length rb ≡ length b
    → 4 + (length front + length b) < 2 ^ 16
    → n + 1 < 2 ^ 16
    → put_record (length b) b (block_at mode_write n front (ra ++ (rb ++ rest)) c)
      ≡ (ok tt, block_at mode_write (n + 1) (front ++ record_bytes b) rest c)
unfolding put_record
put_record-over n front b ra rb rest c ha hb bound less =
    let pre = le_bytes 2 n ++ front in
    let i : ℕ = 2 + length front in
    let w0 = block_at mode_write n front (ra ++ (rb ++ rest)) c in
    let pre' = pre ++ le_bytes 2 (length b) in
    let w2 : Block = record w0 {
      buf = pre ++ (le_bytes 2 (length b) ++ (rb ++ rest));
      offset = (i + 2) % 2 ^ 16;
    } in
    rw
      (
        put-over pre (le_bytes 2 (length b)) ra (rb ++ rest) w0 i refl (omega arith) (sym ha),
        put-over pre' b rb rest w2 ((i + 2) % 2 ^ 16)
            (sym (append_assoc pre (le_bytes 2 (length b)) (rb ++ rest)))
            (ground (arith, length-append front (le_bytes 2 (length b)))) (sym hb),
      )
      (set_count-front (n + 1) n ((front ++ le_bytes 2 (length b)) ++ (b ++ rest))
          (((i + 2) % 2 ^ 16 + length b) % 2 ^ 16) c mode_write less
        ∙ ap (λ block. (ok tt, block))
            (same_block _ _ _ _ _ _ c mode_write
              (ap (λ t. le_bytes 2 (n + 1) ++ t) (regroup front (le_bytes 2 (length b)) b rest))
              (ground (arith, length-append front (record_bytes b))) refl))

-- A record that fits is written.
pub write-fits :
    (n : ℕ) (front b rest : List ℕ) (c : ℕ)
    → 2 + length b ≤ length rest
    → c ≡ 2 + (length front + length rest)
    → c < 2 ^ 16
    → n ≤ length front
    → write b (block_at mode_write n front rest c) ≡ (
      ok tt,
      block_at mode_write (n + 1) (front ++ record_bytes b) (drop (length b) (drop 2 rest)) c,
    )
unfolding write room
write-fits n front b rest c fits e bound few =
    let len : length b % 2 ^ 16 ≡ length b = omega arith in
    let free : ltb ((c + 2 ^ 16 - (2 + length front)) % 2 ^ 16) ((length b + 2) % 2 ^ 16) ≡ false =
      ground arith in
    let tail = drop 2 rest in
    let split : rest ≡ take 2 rest ++ (take (length b) tail ++ drop (length b) tail) =
      sym (rw (take-append-drop (length b) tail) (take-append-drop 2 rest)) in
    rw (len, free)
      (ap (λ r. put_record (length b) b (block_at mode_write n front r c)) split
        ∙ put_record-over n front b (take 2 rest) (take (length b) tail) (drop (length b) tail) c
            (length-take 2 rest ∙ ground arith)
            (length-take (length b) tail ∙ ground (arith, length-drop 2 rest)) (omega arith)
            (omega arith))

-- The bytes of several records.
abbrev pub all_bytes : List (List ℕ) → List ℕ
all_bytes [] = []
all_bytes (b ∷ bs) = record_bytes b ++ all_bytes bs

pub writes-fit :
    (bs : List (List ℕ)) (n : ℕ) (front rest : List ℕ) (c : ℕ)
    → length (all_bytes bs) ≤ length rest
    → c ≡ 2 + (length front + length rest)
    → c < 2 ^ 16
    → n ≤ length front
    → (rest' : List ℕ) × (for_each bs write (block_at mode_write n front rest c)
        ≡ (ok tt, block_at mode_write (n + length bs) (front ++ all_bytes bs) rest' c))
      × (length rest' + length (all_bytes bs) ≡ length rest)
writes-fit [] n front rest c fits e bound few =
    let z : n + length {A = List ℕ} [] ≡ n = omega arith in (rest, rw (z, append-nil), omega arith)
writes-fit (b ∷ bs) n front rest c fits e bound few =
    let r = drop (length b) (drop 2 rest) in
    let lr : length r ≡ length rest - 2 - length b =
      rw (length-drop (length b) (drop 2 rest), length-drop 2 rest) in
    let lb : length (all_bytes (b ∷ bs)) ≡ 2 + (length b + length (all_bytes bs)) =
      omega (arith, length-append b (all_bytes bs)) in
    let lf : length (front ++ record_bytes b) ≡ length front + (2 + length b) =
      omega (arith, length-append front (record_bytes b)) in
    let total : n + 1 + length bs ≡ n + length (b ∷ bs) = omega arith in
    let (rest', w, l) =
      writes-fit bs (n + 1) (front ++ record_bytes b) r c (omega arith) (omega arith) bound
        (omega arith) in
    (
      rest',
      rw (write-fits n front b rest c (omega arith) e bound few) (
          w
          ∙ rw total (
              ap (λ f. (ok tt, block_at mode_write (n + length (b ∷ bs)) f rest' c))
                (append_assoc front (record_bytes b) (all_bytes bs)))),
      omega arith,
    )
