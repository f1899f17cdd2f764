-- ===== src/Filelog/Loops/Stored.antt =====
-- A block of records, in the block that is written to and in the file.
use ws_cluster.Common.{
  ℕ, ◌+◌, ◌-◌, ◌%◌, ◌^◌, ◌<◌, ◌≤◌, ◌≡◌, refl, sym, ◌∙◌, ap, List, [], ◌∷◌, ◌++◌, append_assoc,
  append-nil, length, length-append, drop, length-drop, some, map, ok, All, arith, leb,
}
use ws_cluster.Wire.Io.{le_bytes}
use ws_cluster.Filelog.Block.{
  Block, new_block, mode_read, mode_write, has_space, room, write, reset, read_records,
}
use ws_cluster.Filelog.Block.Writing.{
  block_at, record_bytes, all_bytes, write-fits, set_count-front,
}
use ws_cluster.Filelog.Block.Reading.{reads, length-all_bytes}
use ws_cluster.Filelog.Block.RoundTrip.{new_block-le}
use ws_cluster.Filelog.File.{block_size}

abbrev pub IsRecord : List ℕ → Type 0
IsRecord b = (0 < length b) × (length b ≤ 4092)

-- The records are those of the block, one after the other.
pub record IsStored (b : List ℕ) (rs : List (List ℕ)) : Type 0 where
  pub junk : List ℕ
  pub bytes : b ≡ le_bytes 2 (length rs) ++ (all_bytes rs ++ junk)
  pub size : length b ≡ block_size
  pub full : All (λ r. 0 < length r) rs

-- A block that is written to, with the records that it has so far.
pub record IsOpen (b : Block) (rs : List (List ℕ)) : Type 0 where
  pub rest : List ℕ
  pub state : b ≡ block_at mode_write (length rs) (all_bytes rs) rest block_size
  pub size : block_size ≡ 2 + (length (all_bytes rs) + length rest)
  pub full : All (λ r. 0 < length r) rs

pub IsOpen-IsStored : (b : Block) (rs : List (List ℕ)) → IsOpen b rs → IsStored b.buf rs
IsOpen-IsStored b rs o = record {
  junk = o.rest;
  bytes = ap (λ (x : Block). x.buf) o.state;
  size =
      ap (λ (x : Block). length x.buf) o.state
      ∙ omega (arith, length-append (all_bytes rs) o.rest, o.size);
  full = o.full;
}

all_bytes-append :
    (rs : List (List ℕ)) (r : List ℕ) → all_bytes (rs ++ (r ∷ [])) ≡ all_bytes rs ++ record_bytes r
all_bytes-append [] r = append-nil (record_bytes r)
all_bytes-append (x ∷ rs) r =
    rw (all_bytes-append rs r) (sym (append_assoc (record_bytes x) (all_bytes rs) (record_bytes r)))

All-append_record :
    (rs : List (List ℕ)) (r : List ℕ)
    → All (λ x. 0 < length x) rs
    → 0 < length r
    → All (λ x. 0 < length x) (rs ++ (r ∷ []))
All-append_record [] r h g = (g, tt)
All-append_record (x ∷ rs) r h g = (h.0, All-append_record rs r h.1 g)

-- A record for which there is room is written.
pub write-IsOpen :
    (b : Block) (rs : List (List ℕ)) (r : List ℕ) (o : IsOpen b rs)
    → 0 < length r
    → 2 + length r ≤ length o.rest
    → (b' : Block) × (write r b ≡ (ok tt, b')) × IsOpen b' (rs ++ (r ∷ []))
write-IsOpen b rs r o some_bytes fits =
    let rest' = drop (length r) (drop 2 o.rest) in
    (
      block_at mode_write (length (rs ++ (r ∷ []))) (all_bytes (rs ++ (r ∷ []))) rest' block_size,
      rw (o.state, all_bytes-append rs r, length-append rs (r ∷ []))
          (write-fits (length rs) (all_bytes rs) r o.rest block_size fits o.size (omega arith)
            (length-all_bytes rs)),
      record {
        rest = rest';
        state = refl;
        size = rw (all_bytes-append rs r) (
            omega (
              arith,
              o.size,
              length-append (all_bytes rs) (record_bytes r),
              length-drop (length r) (drop 2 o.rest),
              length-drop 2 o.rest,
            ));
        full = All-append_record rs r o.full some_bytes;
      },
    )

pub has_space-IsOpen :
    (b : Block) (rs : List (List ℕ)) (n : ℕ) (o : IsOpen b rs)
    → has_space n b ≡ leb n (length o.rest)
unfolding has_space room
has_space-IsOpen b rs n o =
    let left : (block_size + 2 ^ 16 - (2 + length (all_bytes rs))) % 2 ^ 16 ≡ length o.rest =
      omega (arith, o.size) in
    rw o.state (rw left)

pub reset-IsOpen :
    (b : Block) (rs : List (List ℕ))
    → IsOpen b rs
    → (b' : Block) × (reset b ≡ (ok tt, b')) × ((o : IsOpen b' []) × (length o.rest ≡ 4094))
unfolding reset
reset-IsOpen b rs o =
    let rest = all_bytes rs ++ o.rest in
    let size : length rest ≡ 4094 = omega (arith, length-append (all_bytes rs) o.rest, o.size) in
    (
      block_at mode_write 0 [] rest block_size,
      rw o.state (set_count-front 0 (length rs) rest 2 block_size mode_write (omega arith)),
      (record { rest = rest; state = refl; size = omega arith; full = tt }, size),
    )

-- A block of the file gives its records.
pub read-IsStored :
    (b : List ℕ) (rs : List (List ℕ))
    → IsStored b rs
    → (block last : Block) × (new_block b mode_read ≡ some (ok block))
      × (read_records block.count block ≡ (ok (map some rs), last))
read-IsStored b rs s =
    let size : length (all_bytes rs ++ s.junk) + 2 ≡ block_size =
      omega (arith, ap (λ (x : List ℕ). length x) s.bytes, s.size) in
    (
      block_at mode_read (length rs) [] (all_bytes rs ++ s.junk) block_size,
      block_at mode_read 0 (all_bytes rs) s.junk block_size,
      rw s.bytes (
          new_block-le (length rs) (all_bytes rs ++ s.junk) mode_read block_size
            (omega (arith, length-all_bytes rs, length-append (all_bytes rs) s.junk)) size
            (omega arith)),
      reads rs [] s.junk block_size s.full (omega (arith, length-append (all_bytes rs) s.junk))
          (omega arith),
    )
