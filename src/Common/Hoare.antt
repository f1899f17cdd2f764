-- ===== src/Common/Hoare.antt =====
-- What code ensures, in the manner of Hoare: rules for the steps of a `do` block.
use mathlib.Core.Path.{◌≡◌, refl, subst}
use ws_cluster.Common.Effects.{Result, ok, err, M, bind_result, ◌>>=◌, pure, lift, or_else, ignore}

-- What holds of a result: of the state, and of a value that is no error.
abbrev pub Holds : {S A : Type 0} → (S → Type 0) → (A → Type 0) → Result A × S → Type 0
Holds I P (ok a, t) = P a × I t
Holds I P (err e, t) = I t

-- Code that keeps `I` of the state, and gives values of which `P` holds.
pub record Ensures {S A : Type 0} (I : S → Type 0) (m : M S A) (P : A → Type 0) : Type 0 where
  pub holds : (s : S) → I s → Holds I P (m s)

module _ {S : Type 0} (I : S → Type 0) where
  Holds-next :
      {A B : Type 0} (p : Result A × S) (f : A → M S B) (Q : A → Type 0) (P : B → Type 0)
      → Holds I Q p
      → ((a : A) → Q a → Ensures I (f a) P)
      → Holds I P (bind_result p f)
  Holds-next (ok a, t) f Q P h k = (k a h.0).holds t h.1
  Holds-next (err e, t) f Q P h k = h

  Holds-lift :
      {A : Type 0} (r : Result A) (P : A → Type 0) (s : S)
      → ((a : A) → r ≡ ok a → P a)
      → I s
      → Holds I P (r, s)
  Holds-lift (ok a) P s h i = (h a refl, i)
  Holds-lift (err e) P s h i = i

  Holds-or_else :
      {A : Type 0} (d : A) (p : Result A × S) (P : A → Type 0)
      → P d
      → Holds I P p
      → Holds I P (or_else d p)
  Holds-or_else d (ok a, t) P q h = h
  Holds-or_else d (err e, t) P q h = (q, h)

  Holds-weaken :
      {A : Type 0} (p : Result A × S) (Q P : A → Type 0)
      → ((a : A) → Q a → P a)
      → Holds I Q p
      → Holds I P p
  Holds-weaken (ok a, t) Q P k h = (k a h.0, h.1)
  Holds-weaken (err e, t) Q P k h = h

module _ {S : Type 0} {I : S → Type 0} where
  pub ensures-ok :
      {A : Type 0} {m : M S A} {P : A → Type 0} (s : S) {a : A} {t : S}
      → Ensures I m P
      → I s
      → m s ≡ (ok a, t)
      → P a × I t
  ensures-ok {P} s h i e = subst (Holds I P) e (h.holds s i)

  pub ensures_next :
      {A B : Type 0} (m : M S A) {f : A → M S B} (Q : A → Type 0) {P : B → Type 0}
      → Ensures I m Q
      → ((a : A) → Q a → Ensures I (f a) P)
      → Ensures I (m >>= f) P
  ensures_next m {f} Q {P} h k = record { holds = λ s i. Holds-next I (m s) f Q P (h.holds s i) k }

  pub ensures_weaken :
      {A : Type 0} {m : M S A} (Q : A → Type 0) {P : A → Type 0}
      → Ensures I m Q
      → ((a : A) → Q a → P a)
      → Ensures I m P
  ensures_weaken {m} Q {P} h k = record { holds = λ s i. Holds-weaken I (m s) Q P k (h.holds s i) }

  pub ensures_pure : {A : Type 0} {a : A} {P : A → Type 0} → P a → Ensures I (pure a) P
  ensures_pure p = record { holds = λ s i. (p, i) }

  pub ensures_lift :
      {A : Type 0} (r : Result A) {P : A → Type 0}
      → ((a : A) → r ≡ ok a → P a)
      → Ensures I (lift r) P
  ensures_lift r {P} h = record { holds = λ s i. Holds-lift I r P s h i }

  pub ensures_ignore :
      {A : Type 0} (d : A) (m : M S A) {P : A → Type 0}
      → P d
      → Ensures I m P
      → Ensures I (ignore d m) P
  ensures_ignore d m {P} q h = record { holds = λ s i. Holds-or_else I d (m s) P q (h.holds s i) }

-- Where nothing is said of the state, a step may do anything.
abbrev pub AnyState : {S : Type 0} → S → Type 0
AnyState s = Unit {0}

pub Holds-any : {S A : Type 0} (p : Result A × S) → Holds AnyState AnyState p
Holds-any (ok a, t) = (tt, tt)
Holds-any (err e, t) = tt

pub ensures_any :
    {S A B : Type 0} (m : M S A) {f : A → M S B} {P : B → Type 0}
    → ((a : A) → Ensures AnyState (f a) P)
    → Ensures AnyState (m >>= f) P
ensures_any m k = ensures_next m AnyState (record { holds = λ s i. Holds-any (m s) }) (λ a _. k a)
