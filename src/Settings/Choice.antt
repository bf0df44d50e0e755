-- ===== src/Settings/Choice.antt =====
-- When a command uses TLS: with all three flags, and without any it does not.
use text.Mathlib.TextEquality.{eq_iff}
use mcptp.Base.{
  ◌≡◌, ◌≢◌, ◌⊎◌, inl, inr, refl, true, false, Bool, Option, none, some, String, Result, failed, ok,
  str_eq,
}
use mcptp.Settings.{CertFlags, choose_tls, tls_conf}

clash : {b : Bool} → b ≡ true → b ≡ false → ⊥
clash p q = cc

not_empty : (s : String) → str_eq s "" ≡ false → s ≢ ""
not_empty s h p = clash ((eq_iff s "").1 p) h

module _ {Conf : Type 0} where
  -- No flag is set and there is no configuration, or all are set and it is what is built from them.
  abbrev pub Choice :
      (String → String → String → Result String Conf) → CertFlags → Option Conf → Type 0
  Choice build f o =
      ((f.cert ≡ "") × (f.key ≡ "") × (f.ca ≡ "") × (o ≡ none))
      ⊎ ((conf : Conf) × (f.cert ≢ "")
          × (f.key ≢ "")
          × (f.ca ≢ "")
          × (build f.ca f.cert f.key ≡ ok conf)
          × (o ≡ some conf))

  built-ok :
      (built : Result String Conf) (o : Option Conf)
      → choose_tls false false false built ≡ ok o
      → (conf : Conf) × (built ≡ ok conf) × (o ≡ some conf)
  unfolding choose_tls
  built-ok (failed e) o h = cc
  built-ok (ok conf) o h = (conf, refl, cc)

  choose_tls-ok :
      (no_cert no_key no_ca : Bool) (built : Result String Conf) (o : Option Conf)
      → choose_tls no_cert no_key no_ca built ≡ ok o
      → ((no_cert ≡ true) × (no_key ≡ true) × (no_ca ≡ true) × (o ≡ none))
        ⊎ ((conf : Conf) × (no_cert ≡ false)
            × (no_key ≡ false)
            × (no_ca ≡ false)
            × (built ≡ ok conf)
            × (o ≡ some conf))
  unfolding choose_tls
  choose_tls-ok true true true built o h = inl (refl, refl, refl, cc)
  choose_tls-ok false false false built o h =
      let (conf, p, q) = built-ok built o h in inr (conf, refl, refl, refl, p, q)
  choose_tls-ok true true false built o h = cc
  choose_tls-ok true false true built o h = cc
  choose_tls-ok true false false built o h = cc
  choose_tls-ok false true true built o h = cc
  choose_tls-ok false true false built o h = cc
  choose_tls-ok false false true built o h = cc

  pub tls_conf-Choice :
      (build : String → String → String → Result String Conf) (f : CertFlags) (o : Option Conf)
      → tls_conf build f ≡ ok o
      → Choice build f o
  unfolding tls_conf
  tls_conf-Choice build f o h =
      elim (choose_tls-ok (str_eq f.cert "") (str_eq f.key "") (str_eq f.ca "")
        (build f.ca f.cert f.key) o h) [
          | inl (a, b, c, p) ↦
              inl ((eq_iff f.cert "").0 a, (eq_iff f.key "").0 b, (eq_iff f.ca "").0 c, p)
          | inr (conf, a, b, c, p, q) ↦
              inr (conf, not_empty f.cert a, not_empty f.key b, not_empty f.ca c, p, q)
        ]
