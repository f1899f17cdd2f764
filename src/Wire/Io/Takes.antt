-- ===== src/Wire/Io/Takes.antt =====
-- How many bytes the reading helpers of wire/common.go take from their input.
use ws_cluster.Common.{
  ℕ, zero, suc, ◌+◌, ◌≤◌, ◌≡◌, List, [], ◌∷◌, length, ok, err, M, ◌>>=◌, pure, ignore, bind_result,
  bind_result-ok, length-drop, arith, ap, Result, or_else,
}
use ws_cluster.Wire.Io.{
  read_full, read_uint8, read_uint16, read_uint32, read_uint64, read_bytes, read_string, le_value,
}

-- Where `d` succeeds, it has taken at least `n` bytes; where it fails, it has put none back.
pub record Takes {A : Type 0} (n : ℕ) (d : M (List ℕ) A) : Type 0 where
  pub kept : (r : List ℕ) → length (d r).1 ≤ length r
  pub taken : (r rest : List ℕ) (a : A) → d r ≡ (ok a, rest) → length rest + n ≤ length r

pub pure-Takes : {A : Type 0} (a : A) → Takes 0 (pure a)
pure-Takes a = record {
  kept = λ r. omega arith;
  taken = λ r rest b e. omega (arith, ap (λ p. length p.1) e);
}

pub >>=-Takes :
    {A B : Type 0} (n k : ℕ) (d : M (List ℕ) A) (f : A → M (List ℕ) B)
    → Takes n d
    → ((a : A) → Takes k (f a))
    → Takes (n + k) (d >>= f)
>>=-Takes {A} {B} n k d f hd hf = record {
  kept = λ r. kept (d r) (hd.kept r);
  taken = λ r rest b e.
      let (a, s, p, q) = bind_result-ok (d r) f b rest e in
      omega (arith, hd.taken r s a p, (hf a).taken s rest b q);
}
  where
    kept : (p : Result A × List ℕ) {m : ℕ} → length p.1 ≤ m → length (bind_result p f).1 ≤ m
    kept (ok a, s) h = omega (arith, (hf a).kept s)
    kept (err e, s) h = h

pub ignore-Takes :
    {A : Type 0} (n : ℕ) (a : A) (d : M (List ℕ) A) → Takes n d → Takes 0 (ignore a d)
ignore-Takes {A} n a d h = record {
  kept = λ r. kept (d r) (h.kept r);
  taken = λ r rest b e. omega (arith, kept (d r) (h.kept r), ap (λ p. length p.1) e);
}
  where
    kept : (p : Result A × List ℕ) {m : ℕ} → length p.1 ≤ m → length (or_else a p).1 ≤ m
    kept (ok b, s) g = g
    kept (err e, s) g = g

pub read_full-exact :
    (n : ℕ) (r rest bs : List ℕ) → read_full n r ≡ (ok bs, rest) → length rest + n ≡ length r
unfolding read_full
read_full-exact zero r rest bs e = omega (arith, ap (λ p. length p.1) e)
read_full-exact (suc n) [] rest bs e = cc
read_full-exact (suc n) (b ∷ r) rest bs e = ground (arith, length-drop n r, ap (λ p. length p.1) e)

read_full-kept : (n : ℕ) (r : List ℕ) → length (read_full n r).1 ≤ length r
unfolding read_full
read_full-kept zero r = omega arith
read_full-kept (suc n) [] = omega arith
read_full-kept (suc n) (b ∷ r) = ground (arith, length-drop n r)

pub read_full-Takes : (n : ℕ) → Takes n (read_full n)
read_full-Takes n = record {
  kept = read_full-kept n;
  taken = λ r rest bs e. omega (arith, read_full-exact n r rest bs e);
}

pub weaken : {A : Type 0} (n : ℕ) (d : M (List ℕ) A) → Takes n d → Takes 0 d
weaken n d h = record { kept = h.kept; taken = λ r rest a e. omega (arith, h.taken r rest a e) }

-- An integer of `n` bytes.
read_le-Takes : (n : ℕ) → Takes (n + 0) (do bytes ← read_full n; pure (le_value bytes))
read_le-Takes n =
    >>=-Takes n 0 (read_full n) _ (read_full-Takes n) (λ bytes. pure-Takes (le_value bytes))

pub read_uint8-Takes : Takes 1 read_uint8
unfolding read_uint8
read_uint8-Takes = read_le-Takes 1

pub read_uint16-Takes : Takes 2 read_uint16
unfolding read_uint16
read_uint16-Takes = read_le-Takes 2

pub read_uint32-Takes : Takes 4 read_uint32
unfolding read_uint32
read_uint32-Takes = read_le-Takes 4

pub read_uint64-Takes : Takes 8 read_uint64
unfolding read_uint64
read_uint64-Takes = read_le-Takes 8

pub read_string-Takes : Takes 4 read_string
unfolding read_string read_bytes
read_string-Takes =
    >>=-Takes 4 0 read_bytes pure
      (>>=-Takes 4 0 read_uint32 read_full read_uint32-Takes
        (λ len. weaken len (read_full len) (read_full-Takes len)))
      pure-Takes
