-- ===== src/Client/Settings/Brackets.antt =====
-- What is left of a host without its brackets.
use Prim.Native.Char.{Char, code}
use mcptp.Base.{
  ℕ, ◌==◌, ◌≡◌, refl, ap, ◌∙◌, Bool, true, false, ◌||◌, ◌&&◌, Bool-cases, inl, inr, All, [], ◌∷◌,
  ◌++◌, String, str_eq, Bytes, codes,
}
use text.Mathlib.TextEquality.{eq_iff}
use mcptp.Client.Settings.{is_bracket, trim_left, trim_right}

-- `[` or `]`
abbrev pub bracket : ℕ → Bool
bracket c = c == 91 || c == 93

abbrev pub Bracket : ℕ → Type 0
Bracket c = bracket c ≡ true

-- It does not start with a bracket, and it does not end with one.
abbrev pub StartsBare : Bytes → Type 0
StartsBare [] = Unit
StartsBare (c ∷ cs) = bracket c ≡ false

abbrev pub EndsBare : Bytes → Type 0
EndsBare [] = Unit
EndsBare (c ∷ []) = bracket c ≡ false
EndsBare (c ∷ d ∷ cs) = EndsBare (d ∷ cs)

-- The second text is the first without the brackets at its two ends.
abbrev pub Trimmed : String → String → Type 0
Trimmed whole inner =
    (left : Bytes) × (right : Bytes) × (codes whole ≡ left ++ (codes inner ++ right))
    × All Bracket left
    × All Bracket right
    × StartsBare (codes inner)
    × EndsBare (codes inner)

trim_left-Bare :
    (s : String)
    → (left : Bytes) × (codes s ≡ left ++ codes (trim_left s))
      × All Bracket left
      × StartsBare (codes (trim_left s))
trim_left-Bare String.[] = ([], refl, tt, tt)
trim_left-Bare (String.◌∷◌ c s) = elim (Bool-cases (is_bracket c)) [
  | inl h ↦
      let (left, e, a, b) = trim_left-Bare s in
      (code c ∷ left, rw h (ap (λ x. code c ∷ x) e), (h, a), rw h b)
  | inr h ↦ ([], rw h refl, tt, rw h h)
]

both : (a b : Bool) → (a && b) ≡ true → (a ≡ true) × (b ≡ true)
both true b h = (refl, h)
both false b h = cc

ends_cons :
    (c : Char) (t : String)
    → (is_bracket c && str_eq t "") ≡ false
    → EndsBare (codes t)
    → EndsBare (code c ∷ codes t)
ends_cons c String.[] h b = elim (Bool-cases (is_bracket c)) [
  | inl k ↦ absurd (let h' = rw k at h in cc)
  | inr k ↦ k
]
ends_cons c (String.◌∷◌ d t) h b = b

trim_right-Bare :
    (s : String)
    → (right : Bytes) × (codes s ≡ codes (trim_right s) ++ right)
      × All Bracket right
      × EndsBare (codes (trim_right s))
      × (StartsBare (codes s) → StartsBare (codes (trim_right s)))
trim_right-Bare String.[] = ([], refl, tt, tt, (λ b. b))
trim_right-Bare (String.◌∷◌ c s) =
    let (right, e, a, b, k) = trim_right-Bare s in
    elim (Bool-cases (is_bracket c && str_eq (trim_right s) "")) [
      | inl h ↦
          let (p, q) = both (is_bracket c) _ h in
          let none_left = ap codes ((eq_iff (trim_right s) "").0 q) in
          (
            code c ∷ right,
            rw h (ap (λ x. code c ∷ x) (e ∙ ap (λ x. x ++ right) none_left)),
            (p, a),
            rw h tt,
            (λ t. rw h tt),
          )
      | inr h ↦ (
        right,
        rw h (ap (λ x. code c ∷ x) e),
        a,
        rw h (ends_cons c (trim_right s) h b),
        (λ t. rw h t),
      )
    ]

pub trim-Trimmed : (whole : String) → Trimmed whole (trim_right (trim_left whole))
trim-Trimmed whole =
    let (left, e, a, s) = trim_left-Bare whole in
    let (right, f, b, t, k) = trim_right-Bare (trim_left whole) in
    (left, right, e ∙ ap (λ x. left ++ x) f, a, b, k s, t)
