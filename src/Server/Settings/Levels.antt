-- ===== src/Server/Settings/Levels.antt =====
-- What the validators are for: a level that they let through is the level of the logger.
use text.Mathlib.TextEquality.{eq_iff}
use mcptp.Base.{
  arith, ◌≡◌, refl, subst, sym, not, Option, Bool, true, false, none, some, String, str_eq,
  if◌then◌else◌, Bool-cases, inl, inr,
}
use mcptp.Server.Settings.{
  FlagError, level_text, get_log_levels, contains, validate_log_level, level_of, create_logger,
}

-- The level of the switch has the text, and is not the default for want of one.
abbrev Found : String → Type 0
Found text = (level_text (level_of text).0 ≡ text) × ((level_of text).2 ≡ false)

subst-Found : (text wanted : String) → Found wanted → str_eq text wanted ≡ true → Found text
subst-Found text wanted f p = subst Found (sym ((eq_iff text wanted).0 p)) f

level_of-Found : (text : String) → contains get_log_levels text ≡ true → Found text
unfolding level_of contains get_log_levels level_text
level_of-Found text h = elim (Bool-cases (str_eq text "DEBUG")) [
  | inl p ↦ subst-Found text "DEBUG" (refl, refl) p
  | inr p ↦ elim (Bool-cases (str_eq text "INFO")) [
    | inl q ↦ subst-Found text "INFO" (refl, refl) q
    | inr q ↦ elim (Bool-cases (str_eq text "WARN")) [
      | inl r ↦ subst-Found text "WARN" (refl, refl) r
      | inr r ↦ elim (Bool-cases (str_eq text "ERROR")) [
        | inl s ↦ subst-Found text "ERROR" (refl, refl) s
        | inr s ↦ ground (arith, h, p, q, r, s)
      ]
    ]
  ]
]

validated :
    (b : Bool) (e : FlagError)
    → ◌≡◌ {A = Option FlagError} (if not b then some e else none) none
    → b ≡ true
validated true e h = refl
validated false e h = cc

-- If the validator lets a level through, the logger has the level whose text is the requested one
-- in upper case, and does not start with the warning; whatever `strings.ToUpper` does.
pub create_logger-validated :
    (upper : String → String) (systemd terminal : Bool) (requested : String)
    → validate_log_level upper requested ≡ none
    → (level_text (create_logger upper systemd terminal requested).level ≡ upper requested)
      × ((create_logger upper systemd terminal requested).warned ≡ false)
unfolding validate_log_level create_logger
create_logger-validated upper systemd terminal requested h =
    level_of-Found (upper requested) (validated (contains get_log_levels (upper requested)) _ h)
