-- ===== src/Wire/Io/Laws.antt =====
-- The helpers of wire/common.go on a buffer and on a reader: what is written is what is read.
use ws_cluster.Common.{
  ℕ, zero, suc, ◌*◌, ◌/◌, ◌%◌, ◌^◌, ◌<◌, ◌≡◌, refl, ap, List, [], ◌∷◌, ◌++◌, append_assoc, length,
  take-append, drop-append, length-append, arith, M, ◌>>=◌, ◌>>◌, pure, ok,
}
use ws_cluster.Wire.Io.{
  le_bytes, le_value, read_full, read_uint8, read_uint16, read_uint32, read_uint64, read_bytes,
  read_string, buffer, write_uint8, write_uint16, write_uint32, write_uint64, write_string,
}
use native.Mathlib.Nat.{pow-suc}

pub length-le_bytes : (k v : ℕ) → length (le_bytes k v) ≡ k
length-le_bytes zero v = refl
length-le_bytes (suc k) v = ap suc (length-le_bytes k (v / 256))

pub le_value-le_bytes : (k v : ℕ) → v < 256 ^ k → le_value (le_bytes k v) ≡ v
le_value-le_bytes zero v h = omega arith
le_value-le_bytes (suc k) v h =
    let less : v < 256 * 256 ^ k = omega (arith, pow-suc 256 k) in
    omega (arith, le_value-le_bytes k (v / 256) (omega arith))

-- An encoder that appends exactly `bs` to a buffer.
abbrev pub Emits : M (List ℕ) (Unit {0}) → List ℕ → Type 0
Emits e bs = (w : List ℕ) → e w ≡ (ok tt, w ++ bs)

-- A decoder that takes exactly `bs` from the front of its input and returns `a`.
abbrev pub Reads : {A : Type 0} → M (List ℕ) A → List ℕ → A → Type 0
Reads d bs a = (rest : List ℕ) → d (bs ++ rest) ≡ (ok a, rest)

pub Emits->> :
    (e k : M (List ℕ) (Unit {0})) (bs cs : List ℕ)
    → Emits e bs
    → Emits k cs
    → Emits (e >> k) (bs ++ cs)
Emits->> e k bs cs he hk w = rw (he w) (rw (hk (w ++ bs)) (rw append_assoc))

pub Reads->>= :
    {A B : Type 0} (d : M (List ℕ) A) (f : A → M (List ℕ) B) (bs cs : List ℕ) (a : A) (b : B)
    → Reads d bs a
    → Reads (f a) cs b
    → Reads (d >>= f) (bs ++ cs) b
Reads->>= d f bs cs a b hd hf rest = rw append_assoc (rw (hd (cs ++ rest)) (hf rest))

pub read_full-Reads : (n : ℕ) (bs : List ℕ) → length bs ≡ n → Reads (read_full n) bs bs
unfolding read_full
read_full-Reads zero [] h rest = refl
read_full-Reads zero (b ∷ bs) h rest = absurd (omega arith)
read_full-Reads (suc n) [] h rest = absurd (omega arith)
read_full-Reads (suc n) (b ∷ bs) h rest =
    ground (arith, length-append bs rest, take-append n bs rest, drop-append n bs rest)

-- An integer of `k` bytes.
read_le-Reads :
    (k v : ℕ) → v < 256 ^ k → Reads (do bytes ← read_full k; pure (le_value bytes)) (le_bytes k v) v
read_le-Reads k v h rest =
    rw (read_full-Reads k (le_bytes k v) (length-le_bytes k v) rest, le_value-le_bytes k v h)

pub uint8-Reads : (v : ℕ) → Reads read_uint8 (v ∷ []) v
unfolding read_uint8
uint8-Reads v rest = rw (read_full-Reads 1 (v ∷ []) refl rest) (ground arith)

pub uint16-Reads : (v : ℕ) → v < 2 ^ 16 → Reads read_uint16 (le_bytes 2 v) v
unfolding read_uint16
uint16-Reads v h = read_le-Reads 2 v h

pub uint32-Reads : (v : ℕ) → v < 2 ^ 32 → Reads read_uint32 (le_bytes 4 v) v
unfolding read_uint32
uint32-Reads v h = read_le-Reads 4 v h

pub uint64-Reads : (v : ℕ) → v < 2 ^ 64 → Reads read_uint64 (le_bytes 8 v) v
unfolding read_uint64
uint64-Reads v h = read_le-Reads 8 v h

pub bytes-Reads :
    (buf : List ℕ)
    → length buf < 2 ^ 32
    → Reads read_bytes (le_bytes 4 (length buf % 2 ^ 32) ++ buf) buf
unfolding read_bytes
bytes-Reads buf h =
    Reads->>= read_uint32 read_full (le_bytes 4 (length buf % 2 ^ 32)) buf (length buf) buf
      (rw (small (length buf) h) (uint32-Reads (length buf) h))
      (read_full-Reads (length buf) buf refl)
  where
    small : (n : ℕ) → n < 2 ^ 32 → n % 2 ^ 32 ≡ n
    small n p = omega arith

-- The encoding of a byte string: its length as a uint32, and its bytes.
abbrev pub counted : List ℕ → List ℕ
counted buf = le_bytes 4 (length buf % 2 ^ 32) ++ buf

pub string-Reads : (str : List ℕ) → length str < 2 ^ 32 → Reads read_string (counted str) str
unfolding read_string
string-Reads str h rest = rw (bytes-Reads str h rest)

pub uint8-Emits : (v : ℕ) → Emits (write_uint8 v) (v ∷ [])
unfolding write_uint8
uint8-Emits v w = refl

pub uint16-Emits : (v : ℕ) → Emits (write_uint16 v) (le_bytes 2 v)
unfolding write_uint16
uint16-Emits v w = refl

pub uint32-Emits : (v : ℕ) → Emits (write_uint32 v) (le_bytes 4 v)
unfolding write_uint32
uint32-Emits v w = refl

pub uint64-Emits : (v : ℕ) → Emits (write_uint64 v) (le_bytes 8 v)
unfolding write_uint64
uint64-Emits v w = refl

pub string-Emits : (str : List ℕ) → Emits (write_string str) (counted str)
unfolding write_string
string-Emits str w = rw append_assoc
