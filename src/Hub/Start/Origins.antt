-- ===== src/Hub/Start/Origins.antt =====
-- What CheckOrigin lets in.
use ws_cluster.Common.{
  ℕ, ◌≡◌, ◌⊎◌, ◌↔◌, refl, ◌∙◌, ap, inl, inr, true, false, Bool-cases, List, [], ◌∷◌, ◌++◌, same,
  same→eq, same_refl, arith,
}
use ws_cluster.Hub.Start.{is_prefix, contains_text, check_origin}

is_prefix→append : (xs s : List ℕ) → is_prefix xs s ≡ true → (rest : List ℕ) × (s ≡ xs ++ rest)
unfolding is_prefix
is_prefix→append [] s h = (s, refl)
is_prefix→append (x ∷ xs) [] h = cc
is_prefix→append (x ∷ xs) (y ∷ s) h =
    let (rest, e) = is_prefix→append xs s (ground arith) in (rest, ground arith)

is_prefix-append : (xs rest : List ℕ) → is_prefix xs (xs ++ rest) ≡ true
unfolding is_prefix
is_prefix-append [] rest = refl
is_prefix-append (x ∷ xs) rest = ground (arith, is_prefix-append xs rest)

contains_text→append :
    (s sub : List ℕ)
    → contains_text s sub ≡ true
    → (before : List ℕ) × (rest : List ℕ) × (s ≡ before ++ (sub ++ rest))
unfolding contains_text
contains_text→append [] sub h = let (rest, e) = is_prefix→append sub [] h in ([], rest, e)
contains_text→append (c ∷ s) sub h = elim (Bool-cases (is_prefix sub (c ∷ s))) [
  | inl p ↦ let (rest, e) = is_prefix→append sub (c ∷ s) p in ([], rest, e)
  | inr n ↦
      let (before, rest, e) = contains_text→append s sub (ground arith) in
      (c ∷ before, rest, ap (λ t. c ∷ t) e)
]

contains_text-append :
    (before sub rest : List ℕ) → contains_text (before ++ (sub ++ rest)) sub ≡ true
unfolding contains_text
contains_text-append [] [] [] = refl
contains_text-append [] [] (c ∷ rest) = refl
contains_text-append [] (x ∷ xs) rest = ground (arith, is_prefix-append (x ∷ xs) rest)
contains_text-append (c ∷ before) sub rest = ground (arith, contains_text-append before sub rest)

-- CheckOrigin lets a request in exactly if the setting is the one character "*", or if what the request
-- gives as its origin is any stretch of the setting, such as the empty text or a part of a name.
pub check_origin_iff :
    (origins origin : List ℕ)
    → (check_origin origins origin ≡ true) ↔ (
        (origins ≡ b'*' ∷ [])
        ⊎ ((before : List ℕ) × (rest : List ℕ) × (origins ≡ before ++ (origin ++ rest))))
unfolding check_origin
check_origin_iff origins origin = elim (Bool-cases (same origins (b'*' ∷ []))) [
  | inl all ↦ (λ h. inl (same→eq origins _ all), λ h. rw all)
  | inr some ↦ (
    λ h. inr (contains_text→append origins origin (rw (← found some) h)),
    λ h. elim h [
      | inl e ↦ absurd (cc (some, same→true e))
      | inr (before, rest, e) ↦ found some ∙ rw e (contains_text-append before origin rest)
    ],
  )
]
  where
    same→true : origins ≡ b'*' ∷ [] → same origins (b'*' ∷ []) ≡ true
    same→true e = rw e (same_refl (b'*' ∷ []))

    found :
        same origins (b'*' ∷ []) ≡ false
        → check_origin origins origin ≡ contains_text origins origin
    found e = unfold check_origin in rw e refl
