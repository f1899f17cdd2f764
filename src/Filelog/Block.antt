-- ===== src/Filelog/Block.antt =====
-- filelog/filelog.go, Block: a buffer that log records are written to and read from. Its fields and
-- the lengths of records are 16 bits wide.
pub mod Writing
pub mod Reading
pub mod RoundTrip
use ws_cluster.Common.{
  ℕ, suc, zero, ◌+◌, ◌-◌, ◌%◌, ◌^◌, Bool, true, false, not, List, [], ◌∷◌, ◌++◌, length, take, drop,
  replicate, Option, none, some, Result, ok, err, panicked, lack_of_space, block_empty,
  block_write_only, block_read_only, M, pure, throw, gets, modify, ◌>>=◌, ◌>>◌, leb, ltb, ◌==◌,
  ◌&&◌, ◌||◌, if◌then◌else◌,
}
use ws_cluster.Wire.Io.{le_bytes, le_value, copy_at}

pub record Block : Type 0 where
  pub buf : List ℕ
  pub offset : ℕ
  pub cap : ℕ
  pub count : ℕ
  pub mode : ℕ

abbrev pub mode_read : ℕ
mode_read = 1

abbrev pub mode_write : ℕ
mode_write = 2

-- newBlock: nil for an empty buffer; one of a single byte panics.
unfoldable pub new_block : List ℕ → ℕ → Option (Result Block)
new_block [] mode = none
new_block (a ∷ []) mode = some (err panicked)
new_block (a ∷ b ∷ bs) mode = some (
    ok (record {
      buf = a ∷ b ∷ bs;
      offset = 2;
      cap = length (a ∷ b ∷ bs) % 2 ^ 16;
      count = le_value (a ∷ b ∷ []);
      mode = mode;
    }))

-- `copy(block.buf[i:], src)`; writeUint16 is this with two bytes.
unfoldable pub put : List ℕ → ℕ → M Block (Unit {0})
put src i block =
    if leb i (length block.buf)
    then (ok tt, record block { buf = copy_at i src block.buf })
    else (err panicked, block)

-- readUint16
unfoldable pub get_uint16 : ℕ → M Block ℕ
get_uint16 i block =
    let j = (i + 2) % 2 ^ 16 in
    if leb i j && leb j (length block.buf)
    then (ok (le_value (take 2 (drop i block.buf))), block)
    else (err panicked, block)

abbrev pub move : ℕ → M Block (Unit {0})
move n = modify (λ block. record block { offset = (block.offset + n) % 2 ^ 16 })

-- `block.length` set, and written to the front of the buffer.
unfoldable pub set_count : ℕ → M Block (Unit {0})
unfolding put
set_count n = do
  modify (λ block. record block { count = n % 2 ^ 16 })
  put (le_bytes 2 (n % 2 ^ 16)) 0

unfoldable pub put_record : ℕ → List ℕ → M Block (Unit {0})
put_record blen b = do
  at ← gets (λ block. block.offset)
  put (le_bytes 2 blen) at
  move 2
  at' ← gets (λ block. block.offset)
  put b at'
  move blen
  n ← gets (λ block. block.count)
  set_count (n + 1)

-- The room that is left, as hasSpace and write compute it.
unfoldable pub room : Block → ℕ
room block = (block.cap + 2 ^ 16 - block.offset) % 2 ^ 16

unfoldable pub has_space : ℕ → Block → Bool
unfolding room
has_space space block = leb space (room block)

unfoldable pub write : List ℕ → M Block (Unit {0})
unfolding put_record
write b block =
    let blen = length b % 2 ^ 16 in
    if not (block.mode == mode_write)
    then (err block_write_only, block)
    else if ltb (room block) ((blen + 2) % 2 ^ 16)
    then (err lack_of_space, block)
    else put_record blen b block

-- `make([]byte, n)` with as much of `src` copied to it as fits.
abbrev pub fill : ℕ → List ℕ → List ℕ
fill n src = take n (src ++ replicate n 0)

unfoldable pub read_record : M Block (List ℕ)
unfolding get_uint16 set_count
read_record = do
  at ← gets (λ block. block.offset)
  blen ← get_uint16 at
  move 2
  (if blen == 0 then throw block_empty else (do
    record_bytes ← gets (λ block. fill blen (drop block.offset block.buf))
    move blen
    n ← gets (λ block. block.count)
    set_count (n - 1)
    pure record_bytes))

unfoldable pub read : M Block (List ℕ)
unfolding read_record
read block =
    if not (block.mode == mode_read)
    then (err block_read_only, block)
    else if leb block.cap block.offset || (block.count == 0)
    then (err block_empty, block)
    else read_record block

unfoldable pub reset : M Block (Unit {0})
reset = do modify (λ block. record block { offset = 2 }); set_count 0

-- What a failed read leaves in the list of the loop of readloop: nothing. A panic goes on.
unfoldable pub attempt : Result (List ℕ) × Block → Result (Option (List ℕ)) × Block
attempt (ok b, block) = (ok (some b), block)
attempt (err e, block) = elim e [ panicked ↦ (err panicked, block) | other ↦ (ok none, block) ]

-- The loop of readloop over the records of a block.
unfoldable pub read_records : ℕ → M Block (List (Option (List ℕ)))
unfolding attempt
read_records zero = pure []
read_records (suc n) = do b ← (λ block. attempt (read block)); bs ← read_records n; pure (b ∷ bs)
