-- ===== src/Examples/Settings.antt =====
-- Command lines of both commands.
use mcptp.Base.{
  ◌≡◌, ◌↔◌, refl, Bool, true, false, Option, none, some, List, [], ◌∷◌, String, Result, ok, str_eq,
  if◌then◌else◌,
}
use mcptp.Client.Settings as ClientSettings
use mcptp.Client.Settings.{
  Net, protocol_compression, is_loopback_host, host_of, all_loopback, resolved_loopback,
  address_loopback, the_argument, check_plain, check_secure, check_scheme, compression_for,
}
use mcptp.Client.Settings.Accepted.{Loopback, Host, is_loopback_host_iff}
use mcptp.Server.Settings as ServerSettings
use mcptp.Server.Settings.{
  the_command, found, level_text, create_logger, validate_log_level, contains, get_log_levels,
}
use mcptp.Settings.{CertFlags}

-- A network with one name, and two addresses of it.
abbrev lookup_name : String → Option (List String)
lookup_name name = if str_eq name "localhost" then some ("127.0.0.1" ∷ "::1" ∷ []) else none

abbrev parse_address : String → Option Bool
parse_address text =
    if str_eq text "127.0.0.1"
    then some true
    else (if str_eq text "::1"
        then some true
        else (if str_eq text "10.0.0.7" then some false else none))

abbrev pub network : Net
network = record {
  parse_url = λ text. ok (record { scheme = text; host = "10.0.0.7" });
  split_host_port = λ text. if str_eq text "[::1]:80" then some "::1" else none;
  parse_ip = parse_address;
  lookup_host = lookup_name;
}

is_loopback_host_iff_example :
    (host : String) × Host network "[::1]:80" host
    × ((is_loopback_host network "[::1]:80" ≡ true) ↔ Loopback network host)
is_loopback_host_iff_example = is_loopback_host_iff network "[::1]:80"

-- It is a loopback address; so is the name.
loopback_test : is_loopback_host network "[::1]:80" ≡ true
unfolding is_loopback_host host_of address_loopback
loopback_test = refl

name_test : is_loopback_host network "localhost" ≡ true
unfolding is_loopback_host host_of address_loopback resolved_loopback all_loopback
name_test = refl

abbrev pub build : String → String → String → Result String String
build ca cert key = ok cert

abbrev pub all_flags : CertFlags
all_flags = record { cert = "client.crt"; key = "client.key"; ca = "ca.crt" }

abbrev pub client_settings : ClientSettings.Settings String
client_settings = record {
  target = record { scheme = "wss"; host = "10.0.0.7" };
  tls = some "client.crt";
  compression = protocol_compression;
}

abbrev pub look_path : String → String × Option String
look_path name = ("/usr/bin/server", none)

abbrev pub server_settings : ServerSettings.Settings String
server_settings = record {
  program = "/usr/bin/server";
  arguments = "--stdio" ∷ [];
  tls = some "client.crt";
}

abbrev pub upper : String → String
upper text = if str_eq text "debug" then "DEBUG" else text
