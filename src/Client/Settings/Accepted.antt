-- ===== src/Client/Settings/Accepted.antt =====
-- What a command line that the client accepts is, and when a host is taken as a loopback address.
use text.Mathlib.TextEquality.{eq_iff}
use mcptp.Base.{
  ◌≡◌, ◌↔◌, ◌⊎◌, refl, ap, subst, Bool, true, false, inl, inr, All, Option, none, some, List, [],
  ◌∷◌, String, Result, failed, ok, wrap, wrap-ok, >>=-ok, str_eq, Bool-cases, Option-cases,
  if◌then◌else◌,
}
use mcptp.Client.Settings.{
  Net, Settings, SettingsError, compression_for, compression_disabled, the_argument, check_plain,
  check_secure, check_scheme, before, is_loopback_host, host_of, address_loopback,
  resolved_loopback, all_loopback, invalid_url, tls_error,
}
use mcptp.Client.Settings.Brackets.{Trimmed, trim-Trimmed}
use mcptp.Settings.{CertFlags, tls_conf}
use mcptp.Settings.Choice.{Choice, tls_conf-Choice}

-- An address that is a loopback address, or a name that is resolved to such addresses only.
abbrev pub Loopback : Net → String → Type 0
Loopback N host =
    (N.parse_ip host ≡ some true)
    ⊎ ((N.parse_ip host ≡ none)
        × ((ips : List String) × (N.lookup_host host ≡ some ips)
            × All (λ ip. N.parse_ip ip ≡ some true) ips))

both_true :
    (o : Option Bool) (rest : Bool)
    → elim o [ some true ↦ rest | _ ↦ false ] ≡ true
    → (o ≡ some true) × (rest ≡ true)
both_true none rest h = cc
both_true (some false) rest h = cc
both_true (some true) rest h = (refl, h)

of_both :
    (o : Option Bool) (rest : Bool)
    → o ≡ some true
    → rest ≡ true
    → elim o [ some true ↦ rest | _ ↦ false ] ≡ true
of_both none rest p q = cc
of_both (some false) rest p q = cc
of_both (some true) rest p q = q

all_loopback_iff :
    (N : Net) (ips : List String)
    → (all_loopback N ips ≡ true) ↔ All (λ ip. N.parse_ip ip ≡ some true) ips
unfolding all_loopback
all_loopback_iff N [] = ((λ h. tt), (λ h. refl))
all_loopback_iff N (ip ∷ ips) = (
  (λ h.
      let (p, q) = both_true (N.parse_ip ip) (all_loopback N ips) h in
      (p, (all_loopback_iff N ips).0 q)),
  (λ (p, q). of_both (N.parse_ip ip) (all_loopback N ips) p ((all_loopback_iff N ips).1 q)),
)

the_argument-ok : (args : List String) (arg : String) → the_argument args ≡ ok arg → args ≡ arg ∷ []
unfolding the_argument
the_argument-ok [] arg h = cc
the_argument-ok (a ∷ []) arg h = cc
the_argument-ok (a ∷ b ∷ args) arg h = cc

some_injective :
    (xs ys : List String) → ◌≡◌ {A = Option (List String)} (some xs) (some ys) → ys ≡ xs
some_injective xs ys h = cc

resolved_iff :
    (N : Net) (o : Option (List String))
    → (resolved_loopback N o ≡ true)
      ↔ ((ips : List String) × (o ≡ some ips) × All (λ ip. N.parse_ip ip ≡ some true) ips)
unfolding resolved_loopback
resolved_iff N none = ((λ h. cc), (λ (ips, p, q). cc))
resolved_iff N (some ips) = (
  (λ h. (ips, refl, (all_loopback_iff N ips).0 h)),
  (λ (jps, p, q).
      (all_loopback_iff N ips).1
        (subst (All (λ ip. N.parse_ip ip ≡ some true)) (some_injective ips jps p) q)),
)

address_iff :
    (N : Net) (host : String) (o : Option Bool)
    → (address_loopback N host o ≡ true) ↔ (
        (o ≡ some true)
        ⊎ ((o ≡ none)
            × ((ips : List String) × (N.lookup_host host ≡ some ips)
                × All (λ ip. N.parse_ip ip ≡ some true) ips)))
unfolding address_loopback
address_iff N host none = (
  (λ h. inr (refl, (resolved_iff N (N.lookup_host host)).0 h)),
  (λ k. elim k [ inl p ↦ cc | inr (p, q) ↦ (resolved_iff N (N.lookup_host host)).1 q ]),
)
address_iff N host (some b) =
    ((λ h. inl (ap some h)), (λ k. elim k [ inl p ↦ cc | inr (p, q) ↦ cc ]))

-- The host is what `net.SplitHostPort` gives, or the whole where it gives none, without the brackets
-- at its two ends.
abbrev pub Host : Net → String → String → Type 0
Host N host_port host =
    (whole : String) × (((N.split_host_port host_port ≡ some whole)
        ⊎ ((N.split_host_port host_port ≡ none) × (whole ≡ host_port)))
      × Trimmed whole host)

host_of-Host : (N : Net) (host_port : String) → Host N host_port (host_of N host_port)
unfolding host_of
host_of-Host N host_port = elim (Option-cases (N.split_host_port host_port)) [
  | inl e ↦ (host_port, (inr (e, refl), rw e (trim-Trimmed host_port)))
  | inr (whole, e) ↦ (whole, (inl e, rw e (trim-Trimmed whole)))
]

-- A host is taken as a loopback address exactly if, without its port and the brackets at its two
-- ends, it is such an address, or a name that is resolved and to such addresses only.
pub is_loopback_host_iff :
    (N : Net) (host_port : String)
    → (host : String) × Host N host_port host
      × ((is_loopback_host N host_port ≡ true) ↔ Loopback N host)
unfolding is_loopback_host
is_loopback_host_iff N host_port = (
  host_of N host_port,
  host_of-Host N host_port,
  address_iff N (host_of N host_port) (N.parse_ip (host_of N host_port)),
)

compression_for_iff : (b : Bool) → (compression_for b ≡ compression_disabled) ↔ (b ≡ true)
unfolding compression_for
compression_for_iff true = ((λ h. refl), (λ h. refl))
compression_for_iff false = ((λ h. cc), (λ h. cc))

taken :
    {b : Bool} (r s : Result SettingsError Unit)
    → b ≡ true
    → (if b then r else s) ≡ ok tt
    → r ≡ ok tt
taken r s p h = subst (λ x. (if x then r else s) ≡ ok tt) p h

passed :
    {b : Bool} (r s : Result SettingsError Unit)
    → b ≡ false
    → (if b then r else s) ≡ ok tt
    → s ≡ ok tt
passed r s p h = subst (λ x. (if x then r else s) ≡ ok tt) p h

refused :
    (b : Bool) (r : Result SettingsError Unit) (e : SettingsError)
    → b ≡ false
    → (if b then r else failed e) ≡ ok tt
    → ⊥
refused true r e p h = cc
refused false r e p h = cc

module _ {Conf : Type 0} where
  -- The one argument is a URL, and TLS is used exactly if its scheme is wss, which is then asked for
  -- by all three flags; with the scheme ws none is set.
  abbrev pub Accepted :
      Net
      → (String → String → String → Result String Conf)
      → List String
      → CertFlags
      → Settings Conf
      → Type 0
  Accepted N build args flags s =
      ((arg : String) × (args ≡ arg ∷ []) × (N.parse_url arg ≡ ok s.target))
      × Choice build flags s.tls
      × (((s.target.scheme ≡ "ws") × (s.tls ≡ none))
          ⊎ ((conf : Conf) × (s.target.scheme ≡ "wss") × (s.tls ≡ some conf)))
      × ((s.compression ≡ compression_disabled) ↔ (is_loopback_host N s.target.host ≡ true))

  unwrap :
      (x y : Settings Conf) → ◌≡◌ {A = Result SettingsError (Settings Conf)} (ok x) (ok y) → x ≡ y
  unwrap x y h = cc

  plain-ok : (o : Option Conf) → check_plain o ≡ ok tt → o ≡ none
  unfolding check_plain
  plain-ok none h = refl
  plain-ok (some c) h = cc

  secure-ok : (o : Option Conf) → check_secure o ≡ ok tt → (conf : Conf) × (o ≡ some conf)
  unfolding check_secure
  secure-ok none h = cc
  secure-ok (some c) h = (c, refl)

  check_scheme-ok :
      (scheme : String) (o : Option Conf)
      → check_scheme scheme o ≡ ok tt
      → ((scheme ≡ "ws") × (o ≡ none)) ⊎ ((conf : Conf) × (scheme ≡ "wss") × (o ≡ some conf))
  unfolding check_scheme
  check_scheme-ok scheme o h = elim (Bool-cases (str_eq scheme "ws")) [
    | inl p ↦ inl ((eq_iff scheme "ws").0 p, plain-ok o (taken _ _ p h))
    | inr p ↦ elim (Bool-cases (str_eq scheme "wss")) [
      | inl q ↦
          let (conf, r) = secure-ok o (taken _ _ q (passed _ _ p h)) in
          inr (conf, (eq_iff scheme "wss").0 q, r)
      | inr q ↦ absurd (refused _ _ _ q (passed _ _ p h))
    ]
  ]

  -- Settings that `Before` of the client makes are those that the command line asks for: the target
  -- is its one argument; there is a TLS configuration, the one built from the three flags, if the
  -- scheme is wss, and no flag is set and none is there if it is ws; no other scheme is let through;
  -- and compression is off exactly for a host that is taken as a loopback address.
  pub before-Accepted_client :
      (N : Net) (build : String → String → String → Result String Conf) (args : List String)
      (flags : CertFlags) (s : Settings Conf)
      → before N build args flags ≡ ok s
      → Accepted N build args flags s
  unfolding before the_argument
  before-Accepted_client N build args flags s h =
      let (arg, p, h₁) = >>=-ok (the_argument args) _ _ h in
      let (url, q, h₂) = >>=-ok (wrap invalid_url (N.parse_url arg)) _ _ h₁ in
      let (conf, r, h₃) = >>=-ok (wrap tls_error (tls_conf build flags)) _ _ h₂ in
      let (u, t, h₄) = >>=-ok (check_scheme url.scheme conf) _ _ h₃ in
      subst (Accepted N build args flags) (unwrap _ _ h₄) (
        (arg, the_argument-ok args arg p, wrap-ok invalid_url _ _ q),
        tls_conf-Choice build flags conf (wrap-ok tls_error _ _ r),
        check_scheme-ok url.scheme conf t,
        compression_for_iff (is_loopback_host N url.host),
      )
