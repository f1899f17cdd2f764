-- ===== src/Wire/Io/Bounds.antt =====
-- What is read from bytes is in the range of its type.
use ws_cluster.Common.{
  ℕ, zero, suc, ◌^◌, ◌≤◌, ◌<◌, ◌≡◌, refl, inl, inr, List, [], ◌∷◌, take, drop, length, length-take,
  All, ◌>>=◌, pure, leb, Bool-cases, Holds, Ensures, ensures_next, ensures_weaken, ensures_pure,
  arith,
}
use native.Mathlib.Nat.{pow-suc}
use ws_cluster.Wire.Io.{
  le_value, read, read_full, read_uint8, read_uint16, read_uint32, read_uint64, read_bytes,
  read_string,
}

abbrev pub IsBytes : List ℕ → Type 0
IsBytes bs = All (λ b. b < 256) bs

pub take-IsBytes : (n : ℕ) (bs : List ℕ) → IsBytes bs → IsBytes (take n bs)
take-IsBytes zero bs h = tt
take-IsBytes (suc n) [] h = tt
take-IsBytes (suc n) (b ∷ bs) h = (h.0, take-IsBytes n bs h.1)

pub drop-IsBytes : (n : ℕ) (bs : List ℕ) → IsBytes bs → IsBytes (drop n bs)
drop-IsBytes zero bs h = h
drop-IsBytes (suc n) [] h = tt
drop-IsBytes (suc n) (b ∷ bs) h = drop-IsBytes n bs h.1

-- One Read: as many bytes as are left, up to those that are asked for.
pub read-Ensures : (n : ℕ) → Ensures IsBytes (read n) (λ bs. length bs ≤ n)
unfolding read
read-Ensures n = record { holds = some_bytes }
  where
    some_bytes : (r : List ℕ) → IsBytes r → Holds IsBytes (λ bs. length bs ≤ n) (read n r)
    some_bytes [] i = tt
    some_bytes (b ∷ bs) i =
        unfold read in (ground (arith, length-take n (b ∷ bs)), drop-IsBytes n (b ∷ bs) i)

-- The bytes that are asked for.
pub read_full-Ensures : (n : ℕ) → Ensures IsBytes (read_full n) (λ bs. (length bs ≡ n) × IsBytes bs)
unfolding read_full
read_full-Ensures zero = record { holds = λ r i. ((refl, tt), i) }
read_full-Ensures (suc n) = record { holds = full }
  where
    full :
        (r : List ℕ)
        → IsBytes r
        → Holds IsBytes (λ bs. (length bs ≡ suc n) × IsBytes bs) (read_full (suc n) r)
    full [] i = tt
    full (b ∷ bs) i = elim (Bool-cases (leb (suc n) (length (b ∷ bs)))) [
      | inl e ↦
          unfold read_full in
          rw e (
            (ground (arith, length-take (suc n) (b ∷ bs)), take-IsBytes (suc n) (b ∷ bs) i),
            drop-IsBytes (suc n) (b ∷ bs) i,
          )
      | inr e ↦ unfold read_full in rw e tt
    ]

le_value-bound : (bs : List ℕ) → IsBytes bs → le_value bs < 256 ^ length bs
le_value-bound [] h = omega arith
le_value-bound (b ∷ bs) h =
    let rest = le_value-bound bs h.1 in omega (arith, pow-suc 256 (length bs))

le-Ensures :
    (n : ℕ) → Ensures IsBytes (do bytes ← read_full n; pure (le_value bytes)) (λ v. v < 256 ^ n)
le-Ensures n =
    ensures_next (read_full n) (λ bs. (length bs ≡ n) × IsBytes bs) (read_full-Ensures n)
      λ bs h. ensures_pure (rw (← h.0) (le_value-bound bs h.1))

pub uint8-Ensures : Ensures IsBytes read_uint8 (λ v. v < 2 ^ 8)
unfolding read_uint8
uint8-Ensures = le-Ensures 1

pub uint16-Ensures : Ensures IsBytes read_uint16 (λ v. v < 2 ^ 16)
unfolding read_uint16
uint16-Ensures = le-Ensures 2

pub uint32-Ensures : Ensures IsBytes read_uint32 (λ v. v < 2 ^ 32)
unfolding read_uint32
uint32-Ensures = le-Ensures 4

pub uint64-Ensures : Ensures IsBytes read_uint64 (λ v. v < 2 ^ 64)
unfolding read_uint64
uint64-Ensures = le-Ensures 8

pub string-Ensures : Ensures IsBytes read_string (λ s. length s < 2 ^ 32)
unfolding read_string read_bytes
string-Ensures =
    ensures_next read_bytes (λ s. length s < 2 ^ 32)
      (ensures_next read_uint32 (λ v. v < 2 ^ 32) uint32-Ensures
        λ len h. ensures_weaken _ (read_full-Ensures len) (λ bs k. omega (arith, k.0)))
      λ buf h. ensures_pure h
