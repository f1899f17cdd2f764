-- ===== src/Filelog/File/Bytes.antt =====
-- What a write changes of a file.
use ws_cluster.Common.{
  ℕ, zero, suc, ◌+◌, ◌≤◌, ◌≡◌, refl, sym, ◌∙◌, ap, List, [], ◌∷◌, ◌++◌, append_assoc, length,
  length-append, drop, length-take, length-drop, arith, ◌%◌, ◌^◌,
}
use ws_cluster.Filelog.File.{
  overwrite, write_at, truncate, Outcome, complete, short, written, put_uint32,
}
use ws_cluster.Wire.Io.{le_bytes}

overwrite-append :
    (pre src rest : List ℕ)
    → overwrite (length pre) src (pre ++ rest) ≡ pre ++ (src ++ drop (length src) rest)
unfolding overwrite
overwrite-append [] src rest = refl
overwrite-append (x ∷ pre) src rest = ap (λ t. x ∷ t) (overwrite-append pre src rest)

pub write_at-append :
    (pre src rest : List ℕ)
    → write_at (length pre) src (pre ++ rest) ≡ pre ++ (src ++ drop (length src) rest)
unfolding write_at
write_at-append pre [] rest = refl
write_at-append pre (b ∷ src) rest = overwrite-append pre (b ∷ src) rest

pub truncate-append : (pre rest : List ℕ) → truncate (length pre) (pre ++ rest) ≡ pre
unfolding truncate
truncate-append [] rest = refl
truncate-append (x ∷ pre) rest = ap (λ t. x ∷ t) (truncate-append pre rest)

pub length-written : (o : Outcome) (src : List ℕ) → length (written o src) ≤ length src
length-written complete src = omega arith
length-written (short n) src = omega (arith, length-take n src)

overwrite-inside :
    (i : ℕ) (src front rest : List ℕ)
    → i + length src ≤ length front
    → (front' : List ℕ) × (overwrite i src (front ++ rest) ≡ front' ++ rest)
      × (length front' ≡ length front)
unfolding overwrite
overwrite-inside zero src front rest h = (
  src ++ drop (length src) front,
  ap (λ t. src ++ t) (drop-inside (length src) front rest (omega arith))
      ∙ sym (append_assoc src (drop (length src) front) rest),
  omega (arith, length-append src (drop (length src) front), length-drop (length src) front),
)
  where
    drop-inside : (n : ℕ) (xs ys : List ℕ) → n ≤ length xs → drop n (xs ++ ys) ≡ drop n xs ++ ys
    drop-inside zero xs ys e = refl
    drop-inside (suc n) [] ys e = absurd (omega arith)
    drop-inside (suc n) (x ∷ xs) ys e = drop-inside n xs ys (omega arith)
overwrite-inside (suc i) src [] rest h = absurd (omega arith)
overwrite-inside (suc i) src (x ∷ front) rest h =
    let (front', e, l) = overwrite-inside i src front rest (omega arith) in
    (x ∷ front', ap (λ t. x ∷ t) e, ap suc l)

-- A write inside the first bytes of a file changes only those.
pub write_at-inside :
    (i : ℕ) (src front rest : List ℕ)
    → i + length src ≤ length front
    → (front' : List ℕ) × (write_at i src (front ++ rest) ≡ front' ++ rest)
      × (length front' ≡ length front)
unfolding write_at
write_at-inside i [] front rest h = (front, refl, refl)
write_at-inside i (b ∷ src) front rest h = overwrite-inside i (b ∷ src) front rest h

-- A number at the front of a file.
pub put_uint32-inside :
    (o : Outcome) (val i : ℕ) (front rest : List ℕ)
    → i + 4 ≤ length front
    → (front' : List ℕ) × (put_uint32 o val i (front ++ rest) ≡ front' ++ rest)
      × (length front' ≡ length front)
unfolding put_uint32
put_uint32-inside o val i front rest h =
    write_at-inside i (written o (le_bytes 4 (val % 2 ^ 32))) front rest
      (omega (arith, length-written o (le_bytes 4 (val % 2 ^ 32))))
