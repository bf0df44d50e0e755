-- ===== src/Flags.antt =====
-- The flags of the commands, as server/command.go, client/command.go and mtls/command.go declare
-- them for github.com/urfave/cli, and what is used of that library to read them.
pub mod Values
use mcptp.Base.{Bool, true, false, Option, none, some, List, [], ◌∷◌, String, Result, ok, ◌≡◌}

-- `cli.StringFlag`, `cli.IntFlag` and `cli.Int64Flag`, less the usage texts; `value` is the default,
-- and E the errors of the validator.
pub record Flag (A E : Type 0) : Type 0 where
  pub name : String
  pub aliases : List String
  pub category : String
  pub only_once : Bool
  pub required : Bool
  pub value : A
  pub validate_defaults : Bool
  pub validator : Option (A → Option E)

-- A flag with no more than a name, an alias, a category and a default.
abbrev pub plain_flag : {A E : Type 0} → String → String → String → A → Flag A E
plain_flag name alias category value = record {
  name = name;
  aliases = alias ∷ [];
  category = category;
  only_once = true;
  required = false;
  value = value;
  validate_defaults = false;
  validator = none;
}

-- The library: the value of a flag, from those that the command line gives it, or its error.
pub record Reader : Type 1 where
  pub read : (A E : Type 0) → Flag A E → List A → Result String A

abbrev pub Passes : {A E : Type 0} → Option (A → Option E) → A → Type 0
Passes none v = Unit
Passes (some f) v = f v ≡ none

-- How a value may come about.
pub data Comes {A E : Type 0} (flag : Flag A E) : List A → A → Type 0 where
  by_default :
      flag.required ≡ false
      → (flag.validate_defaults ≡ true → Passes flag.validator flag.value)
      → Comes flag [] flag.value
  once : (v : A) → Passes flag.validator v → Comes flag (v ∷ []) v
  again :
      (v w : A) (rest : List A)
      → flag.only_once ≡ false
      → Passes flag.validator v
      → Comes flag (w ∷ rest) v

-- Its documentation: a flag that is not given has its default, unless it is required, and the default
-- is validated if the flag says so; a value that is given is validated; and a flag may be given more
-- than once only if it does not say otherwise.
pub record IsReader (R : Reader) : Type 1 where
  pub comes :
      (A E : Type 0) (flag : Flag A E) (given : List A) (v : A)
      → R.read A E flag given ≡ ok v
      → Comes flag given v
