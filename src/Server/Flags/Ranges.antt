-- ===== src/Server/Flags/Ranges.antt =====
-- What the server runs with, when its command line is accepted.
use mcptp.Base.{
  ℕ, ◌≤◌, ◌≡◌, inl, inr, refl, ap, subst, Bool, false, Option, none, List, [], ◌∷◌, String, Result,
  ok, wrap, wrap-ok, >>=-ok, ℤ, pos, negsuc, arith,
}
use mcptp.Flags.{Reader, IsReader, Comes}
use mcptp.Flags.Values.{Comes-Passes, Comes-once, Given, plain_flag-Given}
use mcptp.Server.Flags.{
  Line, Values, log_level_flag, bind_flag, port_flag, max_connections_flag, cert_flag, key_flag,
  ca_flag, read_flags, ConfigError, bad_flag, refused, configure,
}
use mcptp.Server.Settings.{
  FlagError, level_text, validate_log_level, validate_port, validate_max_connections, Settings,
  before, create_logger,
}
use mcptp.Server.Settings.Accepted.{Accepted, before-Accepted}
use mcptp.Server.Settings.Levels.{create_logger-validated}

validate_port-range :
    (v : ℤ) → validate_port v ≡ none → (n : ℕ) × (v ≡ pos n) × (1 ≤ n) × (n ≤ 65535)
unfolding validate_port
validate_port-range (pos n) h = (n, refl, ground arith, ground arith)
validate_port-range (negsuc n) h = absurd (ground arith)

validate_max_connections-range : (v : ℤ) → validate_max_connections v ≡ none → (n : ℕ) × (v ≡ pos n)
unfolding validate_max_connections
validate_max_connections-range (pos n) h = (n, refl)
validate_max_connections-range (negsuc n) h = absurd (ground arith)

port_flag-range :
    {given : List ℤ} {v : ℤ}
    → Comes port_flag given v
    → (n : ℕ) × (v ≡ pos n) × (1 ≤ n) × (n ≤ 65535)
unfolding port_flag
port_flag-range {v = v} c = elim (Comes-Passes c) [
  | inl p ↦ validate_port-range v p
  | inr (e, f) ↦ cc
]

max_connections_flag-range :
    {given : List ℤ} {v : ℤ} → Comes max_connections_flag given v → (n : ℕ) × (v ≡ pos n)
unfolding max_connections_flag
max_connections_flag-range {v = v} c = elim (Comes-Passes c) [
  | inl p ↦ validate_max_connections-range v p
  | inr (e, f) ↦ (0, e)
]

log_level_flag-valid :
    (upper : String → String) {given : List String} {v : String}
    → Comes (log_level_flag upper) given v
    → validate_log_level upper v ≡ none
unfolding log_level_flag
log_level_flag-valid upper c = elim (Comes-Passes c) [ inl p ↦ p | inr (e, f) ↦ cc ]

bind_flag-once : {given : List String} {v : String} → Comes bind_flag given v → given ≡ v ∷ []
unfolding bind_flag
bind_flag-once c = Comes-once c refl refl

-- The values that the flags may have: a port, a maximum that is no negative number, an address that
-- the command line gives, a level that the logger knows, and the three paths, each the one that is
-- given or empty.
pub record Valid (upper : String → String) (line : Line) (v : Values) : Type 0 where
  pub port : ℕ
  pub port_is : v.port ≡ pos port
  pub port_above : 1 ≤ port
  pub port_below : port ≤ 65535
  pub limit : ℕ
  pub limit_is : v.max_connections ≡ pos limit
  pub bound : line.binds ≡ v.bind_address ∷ []
  pub known : validate_log_level upper v.log_level ≡ none
  pub cert : Given line.certs "" v.certificates.cert
  pub key : Given line.keys "" v.certificates.key
  pub ca : Given line.cas "" v.certificates.ca

unwrap : {A : Type 0} (x y : A) → ◌≡◌ {A = Result String A} (ok x) (ok y) → x ≡ y
unwrap x y h = cc

read_flags-Valid :
    (R : Reader) (upper : String → String) (line : Line) (v : Values)
    → IsReader R
    → read_flags R upper line ≡ ok v
    → Valid upper line v
unfolding read_flags
read_flags-Valid R upper line v i h =
    let (level, e₀, h₁) =
      >>=-ok (R.read String FlagError (log_level_flag upper) line.log_levels) _ _ h in
    let (address, e₁, h₂) = >>=-ok (R.read String FlagError bind_flag line.binds) _ _ h₁ in
    let (port, e₂, h₃) = >>=-ok (R.read ℤ FlagError port_flag line.ports) _ _ h₂ in
    let (limit, e₃, h₄) = >>=-ok (R.read ℤ FlagError max_connections_flag line.limits) _ _ h₃ in
    let (cert, e₄, h₅) = >>=-ok (R.read String FlagError cert_flag line.certs) _ _ h₄ in
    let (key, e₅, h₆) = >>=-ok (R.read String FlagError key_flag line.keys) _ _ h₅ in
    let (ca, e₆, h₇) = >>=-ok (R.read String FlagError ca_flag line.cas) _ _ h₆ in
    let (n, n_is, above, below) =
      port_flag-range (i.comes ℤ FlagError port_flag line.ports port e₂) in
    let (m, m_is) =
      max_connections_flag-range (i.comes ℤ FlagError max_connections_flag line.limits limit e₃) in
    let known =
      log_level_flag-valid upper
        (i.comes String FlagError (log_level_flag upper) line.log_levels level e₀) in
    let given = bind_flag-once (i.comes String FlagError bind_flag line.binds address e₁) in
    subst (Valid upper line) (unwrap _ _ h₇) (record {
      port = n;
      port_is = n_is;
      port_above = above;
      port_below = below;
      limit = m;
      limit_is = m_is;
      bound = given;
      known = known;
      cert = plain_flag-Given (i.comes String FlagError cert_flag line.certs cert e₄);
      key = plain_flag-Given (i.comes String FlagError key_flag line.keys key e₅);
      ca = plain_flag-Given (i.comes String FlagError ca_flag line.cas ca e₆);
    })

unwrap_config : {A : Type 0} (x y : A) → ◌≡◌ {A = Result ConfigError A} (ok x) (ok y) → x ≡ y
unwrap_config x y h = cc

-- When the server accepts its command line, the port is one of 1 to 65535 and the maximum of
-- connections no negative number, also where they are the defaults; the address is the one that the
-- command line gives, and so is each path of a certificate, or empty where it gives none; the logger
-- has the level whose text is the value of the flag in upper case, and does not start with the
-- warning; and the program, its arguments and the TLS configuration are those that the command line
-- asks for. It holds for any library that keeps what is documented of
-- its flags.
pub configure-Valid :
    {Conf : Type 0} (R : Reader) (upper : String → String)
    (look_path : String → String × Option String)
    (build : String → String → String → Result String Conf) (systemd terminal : Bool) (line : Line)
    (v : Values) (s : Settings Conf)
    → IsReader R
    → configure R upper look_path build line ≡ ok (v, s)
    → Valid upper line v
      × (level_text (create_logger upper systemd terminal v.log_level).level ≡ upper v.log_level)
      × ((create_logger upper systemd terminal v.log_level).warned ≡ false)
      × Accepted look_path build line.arguments v.certificates s
unfolding configure
configure-Valid R upper look_path build systemd terminal line v s i h =
    let (v', p, h₁) = >>=-ok (wrap bad_flag (read_flags R upper line)) _ _ h in
    let (s', q, h₂) =
      >>=-ok (wrap refused (before look_path build line.arguments v'.certificates)) _ _ h₁ in
    let same = unwrap_config (v', s') (v, s) h₂ in
    let e : v' ≡ v = ap (λ x. x.0) same in
    let f : s' ≡ s = ap (λ x. x.1) same in
    let valid =
      subst (Valid upper line) e (read_flags-Valid R upper line v' i (wrap-ok bad_flag _ _ p)) in
    let (level, quiet) = create_logger-validated upper systemd terminal v.log_level valid.known in
    let accepted =
      before-Accepted look_path build line.arguments v'.certificates s' (wrap-ok refused _ _ q) in
    (
      valid,
      level,
      quiet,
      subst (λ x. Accepted look_path build line.arguments v.certificates x) f
          (subst (λ x. Accepted look_path build line.arguments x.certificates s') e accepted),
    )
