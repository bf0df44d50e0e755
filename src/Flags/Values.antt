-- ===== src/Flags/Values.antt =====
-- What a value that is read satisfies.
use mcptp.Base.{true, false, String, List, [], ◌∷◌, ◌≡◌, ◌⊎◌, inl, inr, refl, Bool-cases}
use mcptp.Flags.{Flag, Passes, Comes, plain_flag, by_default, once, again}

-- It passes the validator, or is the default of a flag whose default is not validated.
pub Comes-Passes :
    {A E : Type 0} {flag : Flag A E} {given : List A} {v : A}
    → Comes flag given v
    → Passes flag.validator v ⊎ ((v ≡ flag.value) × (flag.validate_defaults ≡ false))
Comes-Passes {flag = flag} (by_default r d) = elim (Bool-cases flag.validate_defaults) [
  | inl t ↦ inl (d t)
  | inr f ↦ inr (refl, f)
]
Comes-Passes (once v p) = inl p
Comes-Passes (again v w rest o p) = inl p

-- A required flag that may be given once only is given once.
pub Comes-once :
    {A E : Type 0} {flag : Flag A E} {given : List A} {v : A}
    → Comes flag given v
    → flag.required ≡ true
    → flag.only_once ≡ true
    → given ≡ v ∷ []
Comes-once (by_default r d) q o = cc
Comes-once (once v p) q o = refl
Comes-once (again v w rest n p) q o = cc

-- The value that is given, or the default where none is.
abbrev pub Given : {A : Type 0} → List A → A → A → Type 0
Given given default v = ((given ≡ []) × (v ≡ default)) ⊎ (given ≡ v ∷ [])

pub plain_flag-Given :
    {A E : Type 0} {name alias category : String} {default : A} {given : List A} {v : A}
    → Comes {E = E} (plain_flag name alias category default) given v
    → Given given default v
plain_flag-Given (by_default r d) = inl (refl, refl)
plain_flag-Given (once v p) = inr refl
plain_flag-Given (again v w rest o p) = cc
