-- ===== src/Wire/Io.antt =====
-- wire/common.go: the Read and Write helpers over io.Reader and io.Writer.
-- A byte slice and a Go string are lists of numbers. A reader is the bytes that are left of a
-- bytes.Reader or bytes.Buffer, the two that the program decodes from.
pub mod Laws
pub mod Takes
pub mod Bounds
use ws_cluster.Common.{
  ℕ, zero, suc, ◌+◌, ◌*◌, ◌/◌, ◌%◌, ◌^◌, List, [], ◌∷◌, ◌++◌, length, take, drop, replicate, M,
  ◌>>=◌, ◌>>◌, pure, ok, err, eof, unexpected_eof, not_ascii, panicked, leb, ltb, if◌then◌else◌,
  Result,
}

-- The `k` bytes of encoding/binary's little-endian form of a number, and back.
abbrev pub le_bytes : ℕ → ℕ → List ℕ
le_bytes zero v = []
le_bytes (suc k) v = (v % 256) ∷ le_bytes k (v / 256)

abbrev pub le_value : List ℕ → ℕ
le_value [] = 0
le_value (b ∷ bs) = b + 256 * le_value bs

-- `copy(dst[i:], src)`: what does not fit is dropped.
abbrev pub overlay : List ℕ → List ℕ → List ℕ
overlay [] dst = dst
overlay (s ∷ ss) [] = []
overlay (s ∷ ss) (d ∷ ds) = s ∷ overlay ss ds

abbrev pub copy_at : ℕ → List ℕ → List ℕ → List ℕ
copy_at zero src dst = overlay src dst
copy_at (suc i) src [] = []
copy_at (suc i) src (d ∷ ds) = d ∷ copy_at i src ds

-- One `Read` into a buffer of `n > 0` bytes: a short read is no error, the end of the input is.
unfoldable pub read : ℕ → M (List ℕ) (List ℕ)
read n [] = (err eof, [])
read n (b ∷ bs) = (ok (take n (b ∷ bs)), drop n (b ∷ bs))

-- io.ReadFull: all `n` bytes or an error, and an error uses the input up.
unfoldable pub read_full : ℕ → M (List ℕ) (List ℕ)
read_full zero r = (ok [], r)
read_full (suc n) [] = (err eof, [])
read_full (suc n) (b ∷ bs) =
    if leb (suc n) (length (b ∷ bs))
    then (ok (take (suc n) (b ∷ bs)), drop (suc n) (b ∷ bs))
    else (err unexpected_eof, [])

unfoldable pub read_uint8 : M (List ℕ) ℕ
read_uint8 = do bytes ← read_full 1; pure (le_value bytes)

unfoldable pub read_uint16 : M (List ℕ) ℕ
read_uint16 = do bytes ← read_full 2; pure (le_value bytes)

unfoldable pub read_uint32 : M (List ℕ) ℕ
read_uint32 = do bytes ← read_full 4; pure (le_value bytes)

unfoldable pub read_uint64 : M (List ℕ) ℕ
read_uint64 = do bytes ← read_full 8; pure (le_value bytes)

unfoldable pub read_bytes : M (List ℕ) (List ℕ)
read_bytes = do len ← read_uint32; read_full len

unfoldable pub read_string : M (List ℕ) (List ℕ)
read_string = do buf ← read_bytes; pure buf

-- io.Writer: what a write does to the writer's state, and whether it fails.
pub record Writer (W : Type 0) : Type 0 where
  pub write : List ℕ → M W (Unit {0})

-- bytes.Buffer: a write appends, and never fails.
instance abbrev pub buffer : Writer (List ℕ)
buffer = record { write = λ bs w. (ok tt, w ++ bs) }

module _ {W : Type 0} ⦃o : Writer W⦄ where
  unfoldable pub write_uint8 : ℕ → M W (Unit {0})
  write_uint8 val = o.write (val ∷ [])

  unfoldable pub write_uint16 : ℕ → M W (Unit {0})
  write_uint16 val = o.write (le_bytes 2 val)

  unfoldable pub write_uint32 : ℕ → M W (Unit {0})
  write_uint32 val = o.write (le_bytes 4 val)

  unfoldable pub write_uint64 : ℕ → M W (Unit {0})
  write_uint64 val = o.write (le_bytes 8 val)

  -- The length is written as `uint32(slen)`.
  unfoldable pub write_bytes : List ℕ → M W (Unit {0})
  unfolding write_uint32
  write_bytes buf = do write_uint32 (length buf % 2 ^ 32); o.write buf

  unfoldable pub write_string : List ℕ → M W (Unit {0})
  unfolding write_bytes
  write_string str = write_bytes str

-- The loop of WriteAscllString: `i` counts the characters. A byte above 127 starts or is no
-- character below 128, and an index past the buffer panics.
unfoldable pub fill_ascii : List ℕ → ℕ → List ℕ → Result (List ℕ)
fill_ascii [] i buf = ok buf
fill_ascii (ch ∷ rest) i buf =
    let next = fill_ascii rest (i + 1) (copy_at i (ch ∷ []) buf) in
    if ltb 127 ch then err not_ascii else if leb (length buf) i then err panicked else next

unfoldable pub write_ascii_string : {W : Type 0} ⦃o : Writer W⦄ → List ℕ → ℕ → M W (Unit {0})
unfolding fill_ascii
write_ascii_string ⦃o⦄ str capacity w = elim (fill_ascii str 0 (replicate capacity 0)) [
  | ok buf ↦ o.write buf w
  | err e ↦ (err e, w)
]

-- The bytes before the first zero.
abbrev pub until_zero : List ℕ → List ℕ
until_zero [] = []
until_zero (zero ∷ bs) = []
until_zero (suc b ∷ bs) = suc b ∷ until_zero bs

-- ReadAscllString: a short read leaves the rest of the buffer zero. A capacity of 0 reads nothing:
-- the reader answers EOF only when it is empty.
unfoldable pub read_ascii_string : ℕ → M (List ℕ) (List ℕ)
read_ascii_string capacity = do
  bytes ← read capacity
  pure (until_zero (overlay bytes (replicate capacity 0)))
