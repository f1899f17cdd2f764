-- ===== src/Wire/Addr/Parse/Digits.antt =====
-- The number that decimal digits spell, and the digits of a number.
use ws_cluster.Common.{
  ℕ, zero, suc, ◌+◌, ◌-◌, ◌*◌, ◌/◌, ◌%◌, ◌^◌, ◌≤◌, ◌<◌, ◌≡◌, ◌≢◌, refl, ◌∙◌, List, [], ◌∷◌, ◌++◌,
  some, All, ltb, arith, Bool-cases, inl, inr, true, false,
}
use native.Mathlib.Nat.{pow-suc}
use ws_cluster.Wire.Addr.Text.{decimal_digits, decimal}
use ws_cluster.Wire.Addr.Parse.{scan_uint, parse_uint, positive, atoi}

abbrev pub IsDigit : ℕ → Type 0
IsDigit c = (b'0' ≤ c) × (c ≤ b'9')

-- What digits spell behind `n`.
abbrev pub spelled : ℕ → List ℕ → ℕ
spelled n [] = n
spelled n (c ∷ s) = spelled (n * 10 + (c - b'0')) s

spelled-append : (n : ℕ) (s t : List ℕ) → spelled n (s ++ t) ≡ spelled (spelled n s) t
spelled-append n [] t = refl
spelled-append n (c ∷ s) t = spelled-append (n * 10 + (c - b'0')) s t

le-spelled : (n : ℕ) (s : List ℕ) → n ≤ spelled n s
le-spelled n [] = omega arith
le-spelled n (c ∷ s) = omega (arith, le-spelled (n * 10 + (c - b'0')) s)

scan_uint-spelled :
    (n : ℕ) (s : List ℕ) → All IsDigit s → spelled n s < 2 ^ 64 → scan_uint n s ≡ some (spelled n s)
unfolding scan_uint
scan_uint-spelled n [] d h = refl
scan_uint-spelled n (c ∷ s) d h =
    ground
      (arith, scan_uint-spelled (n * 10 + (c - b'0')) s d.1, le-spelled (n * 10 + (c - b'0')) s)

All-append_one : (s : List ℕ) (c : ℕ) → All IsDigit s → IsDigit c → All IsDigit (s ++ (c ∷ []))
All-append_one [] c d h = (h, tt)
All-append_one (x ∷ s) c d h = (d.0, All-append_one s c d.1 h)

-- One more digit at the end.
IsDigit-last :
    (s : List ℕ) (q r : ℕ)
    → All IsDigit s
    → spelled 0 s ≡ q
    → r < 10
    → All IsDigit (s ++ ((b'0' + r) ∷ []))
      × (spelled 0 (s ++ ((b'0' + r) ∷ [])) ≡ q * 10 + r)
      × (s ++ ((b'0' + r) ∷ []) ≢ [])
IsDigit-last s q r d e h = (
  All-append_one s (b'0' + r) d (omega arith),
  spelled-append 0 s ((b'0' + r) ∷ []) ∙ rw e (omega arith),
  not_empty s,
)
  where
    not_empty : (xs : List ℕ) → xs ++ ((b'0' + r) ∷ []) ≢ []
    not_empty [] x = cc
    not_empty (y ∷ ys) x = cc

small_digits :
    (fuel n : ℕ)
    → ltb n 10 ≡ true
    → All IsDigit (decimal_digits (suc (suc fuel)) n)
      × (spelled 0 (decimal_digits (suc (suc fuel)) n) ≡ n)
      × (decimal_digits (suc (suc fuel)) n ≢ [])
unfolding decimal_digits
small_digits fuel n small = rw small (((ground arith, ground arith), tt), ground arith, (λ x. cc))

large_digits :
    (fuel n : ℕ)
    → ltb n 10 ≡ false
    → decimal_digits (suc (suc fuel)) n
      ≡ decimal_digits (suc fuel) (n / 10) ++ ((b'0' + n % 10) ∷ [])
unfolding decimal_digits
large_digits fuel n large = rw large

-- The digits of a number are one or more, and spell it.
pub decimal_digits-spelled :
    (fuel n : ℕ)
    → n < 10 ^ suc fuel
    → All IsDigit (decimal_digits (suc fuel) n)
      × (spelled 0 (decimal_digits (suc fuel) n) ≡ n)
      × (decimal_digits (suc fuel) n ≢ [])
decimal_digits-spelled zero n h =
    unfold decimal_digits in rw (small) ((omega arith, tt), omega arith, (λ x. cc))
  where
    small : ltb n 10 ≡ true
    small = ground arith
decimal_digits-spelled (suc fuel) n h = elim (Bool-cases (ltb n 10)) [
  | inl small ↦ small_digits fuel n small
  | inr large ↦
      let (d, e, _) = decimal_digits-spelled fuel (n / 10) (omega (arith, pow-suc 10 (suc fuel))) in
      let (d', e', f') =
        IsDigit-last (decimal_digits (suc fuel) (n / 10)) (n / 10) (n % 10) d e (omega arith) in
      rw (large_digits fuel n large) (d', e' ∙ omega arith, f')
]

-- Digits are read as what they spell.
pub atoi-digits :
    (s : List ℕ) → s ≢ [] → All IsDigit s → spelled 0 s < 2 ^ 63 → atoi s ≡ spelled 0 s
unfolding atoi parse_uint positive
atoi-digits [] ne d h = absurd (ne refl)
atoi-digits (c ∷ s) ne d h = ground (arith, scan_uint-spelled 0 (c ∷ s) d)

-- The text of a uint32 is read back.
pub atoi-decimal : (n : ℕ) → n < 2 ^ 32 → atoi (decimal n) ≡ n
atoi-decimal n h =
    let (d, e, f) = decimal_digits-spelled 19 n (omega arith) in
    unfold decimal in atoi-digits (decimal_digits 20 n) f d (rw e (omega arith)) ∙ e
