-- ===== src/Examples/CommandLines.antt =====
-- A library for command lines, and a command line of the server.
use mcptp.Base.{
  ◌≡◌, refl, subst, inl, inr, true, false, Bool-cases, Option, Option-cases, none, some, List, [],
  ◌∷◌, String, Result, ok, failed, if◌then◌else◌, pos,
}
use mcptp.Client.Flags as ClientFlags
use mcptp.Client.Flags.Accepted.{Named, configure-Accepted}
use mcptp.Client.Settings as ClientSettings
use mcptp.Client.Settings.{
  is_loopback_host, host_of, address_loopback, the_argument, check_secure, check_scheme,
  compression_for,
}
use mcptp.Client.Settings.Accepted as ClientAccepted
use mcptp.Examples.Settings.{
  network, client_settings, upper, build, look_path, all_flags, server_settings,
}
use mcptp.Flags.{Flag, Reader, IsReader, Passes, Comes, by_default, once}
use mcptp.Server.Flags.{
  Line, Values, configure, read_flags, log_level_flag, bind_flag, port_flag, max_connections_flag,
}
use mcptp.Server.Flags.Ranges.{Valid, configure-Valid}
use mcptp.Server.Settings as ServerSettings
use mcptp.Server.Settings.{
  level_text, create_logger, validate_log_level, validate_port, validate_max_connections, contains,
  get_log_levels, the_command, found,
}
use mcptp.Server.Settings.Accepted as ServerAccepted
use mcptp.Settings.{choose_tls, tls_conf}

abbrev validated : {A E : Type 0} → Option (A → Option E) → A → Result String A
validated none v = ok v
validated (some f) v = elim (f v) [ none ↦ ok v | some e ↦ failed "invalid value" ]

-- It takes no flag twice.
abbrev read_flag : (A E : Type 0) → Flag A E → List A → Result String A
read_flag A E flag [] =
    if flag.required
    then failed "required"
    else (if flag.validate_defaults then validated flag.validator flag.value else ok flag.value)
read_flag A E flag (v ∷ []) = validated flag.validator v
read_flag A E flag (v ∷ w ∷ rest) = failed "given twice"

library : Reader
library = record { read = read_flag }

validated-Passes :
    {A E : Type 0} (f : Option (A → Option E)) (v w : A)
    → validated f v ≡ ok w
    → Passes f v × (v ≡ w)
validated-Passes none v w h = (tt, cc)
validated-Passes (some f) v w h = elim (Option-cases (f v)) [
  | inl e ↦ (e, (let k = rw e at h in cc))
  | inr (x, e) ↦ absurd (let k = rw e at h in cc)
]

read_flag-Comes :
    (A E : Type 0) (flag : Flag A E) (given : List A) (v : A)
    → read_flag A E flag given ≡ ok v
    → Comes flag given v
read_flag-Comes A E flag [] v h = elim (Bool-cases flag.required) [
  | inl r ↦ absurd (let k = rw r at h in cc)
  | inr r ↦ elim (Bool-cases flag.validate_defaults) [
    | inl d ↦
        let k = rw (r, d) at h in
        let (p, e) = validated-Passes flag.validator flag.value v k in
        subst (Comes flag []) e (by_default r (λ _. p))
    | inr d ↦
        let k = rw (r, d) at h in
        let e : flag.value ≡ v = cc in subst (Comes flag []) e (by_default r (λ t. cc))
  ]
]
read_flag-Comes A E flag (w ∷ []) v h =
    let (p, e) = validated-Passes flag.validator w v h in subst (Comes flag (w ∷ [])) e (once w p)
read_flag-Comes A E flag (w ∷ x ∷ rest) v h = absurd cc

library-IsReader : IsReader library
unfolding library
library-IsReader = record { comes = read_flag-Comes }

-- The port is the default one.
abbrev line : Line
line = record {
  log_levels = "debug" ∷ [];
  binds = "0.0.0.0" ∷ [];
  ports = [];
  limits = pos 2 ∷ [];
  certs = "client.crt" ∷ [];
  keys = "client.key" ∷ [];
  cas = "ca.crt" ∷ [];
  arguments = "server" ∷ "--stdio" ∷ [];
}

abbrev values : Values
values = record {
  log_level = "debug";
  bind_address = "0.0.0.0";
  port = pos 8623;
  max_connections = pos 2;
  certificates = all_flags;
}

configure-Valid_example :
    Valid upper line values
    × (level_text (create_logger upper false true "debug").level ≡ "DEBUG")
    × ((create_logger upper false true "debug").warned ≡ false)
    × ServerAccepted.Accepted look_path build line.arguments all_flags server_settings
unfolding library configure read_flags log_level_flag bind_flag port_flag max_connections_flag
    validate_log_level validate_port validate_max_connections contains get_log_levels level_text
    ServerSettings.before the_command found tls_conf choose_tls
configure-Valid_example =
    configure-Valid library upper look_path build false true line values server_settings
      library-IsReader refl

-- A command line of the client.
abbrev client_line : ClientFlags.Line
client_line = record {
  certs = "client.crt" ∷ [];
  keys = "client.key" ∷ [];
  cas = "ca.crt" ∷ [];
  arguments = "wss" ∷ [];
}

configure-Accepted_example :
    Named client_line all_flags
    × ClientAccepted.Accepted network build client_line.arguments all_flags client_settings
unfolding library ClientFlags.configure ClientFlags.read_flags ClientSettings.before the_argument
    tls_conf choose_tls check_scheme check_secure compression_for is_loopback_host host_of
    address_loopback
configure-Accepted_example =
    configure-Accepted library network build client_line all_flags client_settings library-IsReader
      refl
