-- ===== src/Common/Effects.antt =====
-- Go's (value, error) results, and code that changes a state `S` whether or not it fails.
use mathlib.Core.Path.{◌≡◌, refl}
use mathlib.Core.Logic.{◌⊎◌, inl, inr}
use mathlib.Core.List.{List, [], ◌∷◌}

-- The errors of the packages wire, hub and filelog, of io.Reader, of a websocket's Dial, of url.Parse
-- and of os.MkdirAll, of redis and of JSON. `exited` is the end of the process, `panicked` a run-time panic, and `blocked` a
-- channel operation that never ends.
pub data Error : Type 0 where
  eof unexpected_eof : Error
  addr_overflow invalid_address : Error
  not_ascii : Error
  unhandled_type : Error
  write_failed : Error
  redis_nil invalid_json : Error
  connect_failed : Error
  exited invalid_url no_directory : Error
  panicked : Error
  blocked : Error
  lack_of_space block_empty block_write_only block_read_only : Error

pub data Result {ℓ} (A : Type ℓ) : Type ℓ where
  ok : A → Result A
  err : Error → Result A

pub Result-cases {ℓ} :
    {A : Type ℓ} (r : Result A) → ((a : A) × (r ≡ ok a)) ⊎ ((e : Error) × (r ≡ err e))
Result-cases (ok a) = inl (a, refl)
Result-cases (err e) = inr (e, refl)

pub ok-ne-err {ℓ} : {A : Type ℓ} (x : A) (e : Error) → Path (Result A) (ok x) (err e) → ⊥
ok-ne-err x e h = cc

pub ok-injective {ℓ} : {A : Type ℓ} {x y : A} → Path (Result A) (ok x) (ok y) → x ≡ y
ok-injective e = cc

-- The state is returned on failure too: a reader or a writer keeps what happened before it.
abbrev pub M : Type 0 → Type 0 → Type 0
M S A = S → Result A × S

abbrev pub bind_result : {S A B : Type 0} → Result A × S → (A → M S B) → Result B × S
bind_result (ok a, s) f = f a s
bind_result (err e, s) f = (err e, s)

infixl 5 ◌>>=◌ ◌>>◌
abbrev pub ◌>>=◌ : {S A B : Type 0} → M S A → (A → M S B) → M S B
◌>>=◌ m f s = bind_result (m s) f

abbrev pub ◌>>◌ : {S B : Type 0} → M S (Unit {0}) → M S B → M S B
m >> k = m >>= λ _. k

abbrev pub pure : {S A : Type 0} → A → M S A
pure a s = (ok a, s)

abbrev pub throw : {S A : Type 0} → Error → M S A
throw e s = (err e, s)

abbrev pub or_else : {S A : Type 0} → A → Result A × S → Result A × S
or_else d (ok a, s) = (ok a, s)
or_else d (err e, s) = (ok d, s)

-- The code drops the error and goes on with the value that the variable holds.
abbrev pub ignore : {S A : Type 0} → A → M S A → M S A
ignore d m s = or_else d (m s)

-- A computed result inside the code that reads.
abbrev pub lift : {S A : Type 0} → Result A → M S A
lift r s = (r, s)

pub bind_result_assoc :
    {S A B C : Type 0} (p : Result A × S) (f : A → M S B) (g : B → M S C)
    → bind_result (bind_result p f) g ≡ bind_result p (λ a s. bind_result (f a s) g)
bind_result_assoc (ok a, s) f g = refl
bind_result_assoc (err e, s) f g = refl

-- What a step that succeeded ran through.
pub bind_result-ok :
    {S A B : Type 0} (p : Result A × S) (f : A → M S B) (b : B) (t : S)
    → bind_result p f ≡ (ok b, t)
    → (a : A) × (s : S) × (p ≡ (ok a, s)) × (f a s ≡ (ok b, t))
bind_result-ok (ok a, s) f b t h = (a, s, refl, h)
bind_result-ok (err e, s) f b t h = cc

-- The current state, and a change of it.
abbrev pub gets : {S A : Type 0} → (S → A) → M S A
gets f s = (ok (f s), s)

abbrev pub modify : {S : Type 0} → (S → S) → M S (Unit {0})
modify f s = (ok tt, f s)

-- `for _, a := range list`
abbrev pub for_each : {S A : Type 0} → List A → (A → M S (Unit {0})) → M S (Unit {0})
for_each [] body = pure tt
for_each (a ∷ as') body = body a >>= λ _. for_each as' body
