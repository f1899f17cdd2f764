-- ===== src/Hub/Config/Flags.antt =====
-- hub/config.go: what LoadConfig uses of the package flag. A variable is named by its flag, and a
-- number is a 64-bit pattern, of nanoseconds for a duration. LoadConfig declares no flag twice.
use Prim.Native.Char.{code}
use Prim.Native.String.{String}
use mathlib.Core.Option
use ws_cluster.Common.{
  ℕ, List, [], ◌∷◌, Option, none, some, ok, err, exited, panicked, M, modify, Dict, lookup, insert,
}

-- The bytes of an ASCII text.
abbrev pub codes : String → List ℕ
codes String.[] = []
codes (String.◌∷◌ c s) = code c ∷ codes s

pub data Variable : Type 0 where
  text : List ℕ → Variable
  int_number : ℕ → Variable
  duration : ℕ → Variable

abbrev pub FlagSet : Type 0
FlagSet = Dict Variable

-- flag.StringVar and flag.String, flag.IntVar, flag.DurationVar
unfoldable pub text_var : List ℕ → List ℕ → M FlagSet (Unit {0})
text_var name default_ = modify (insert name (text default_))

unfoldable pub int_var : List ℕ → ℕ → M FlagSet (Unit {0})
int_var name default_ = modify (insert name (int_number default_))

unfoldable pub duration_var : List ℕ → ℕ → M FlagSet (Unit {0})
duration_var name default_ = modify (insert name (duration default_))

-- What the variable holds now.
unfoldable pub get_text : List ℕ → M FlagSet (List ℕ)
get_text name flags = elim (lookup name flags) [
  | some v ↦ elim v [ text t ↦ (ok t, flags) | _ ↦ (err panicked, flags) ]
  | none ↦ (err panicked, flags)
]

unfoldable pub get_number : List ℕ → M FlagSet ℕ
get_number name flags = elim (lookup name flags) [
  | some v ↦ elim v [
    | text t ↦ (err panicked, flags)
    | int_number n ↦ (ok n, flags)
    | duration n ↦ (ok n, flags)
  ]
  | none ↦ (err panicked, flags)
]

module _ (int_value duration_value : List ℕ → Option ℕ) where
  unfoldable pub set_value : List ℕ → Variable → Option Variable
  set_value value (text t) = some (text value)
  set_value value (int_number n) = Option.map int_number (int_value value)
  set_value value (duration n) = Option.map duration (duration_value value)

  -- flag.Parse over pairs of a flag and the text of its value: an unknown flag and a value that
  -- cannot be read end the process.
  unfoldable pub parse_flags : List (List ℕ × List ℕ) → M FlagSet (Unit {0})
  unfolding set_value
  parse_flags [] flags = (ok tt, flags)
  parse_flags ((name, value) ∷ args) flags = elim (lookup name flags) [
    | none ↦ (err exited, flags)
    | some v ↦ elim (set_value value v) [
      | none ↦ (err exited, flags)
      | some w ↦ parse_flags args (insert name w flags)
    ]
  ]
