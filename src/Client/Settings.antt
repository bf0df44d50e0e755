-- ===== src/Client/Settings.antt =====
-- client/command.go: `Before`, which reads the command line of the client, and `isLoopbackHost`.
pub mod Accepted
pub mod Brackets
use Prim.Native.Char.{Char, code}
use mcptp.Base.{
  Bool, true, false, ◌||◌, ◌&&◌, Option, none, some, List, [], ◌∷◌, String, Result, failed, ok,
  ◌>>=◌, wrap, str_eq, ◌==◌, if◌then◌else◌,
}
use mcptp.Settings.{CertFlags, TlsError, tls_conf}

-- The parts of `url.URL` that are used.
pub record Url : Type 0 where
  pub scheme : String
  pub host : String

-- What is used of net and net/url: `split_host_port` gives the host, `parse_ip` tells of an address
-- whether it is a loopback address, and `lookup_host` gives the addresses of a name.
pub record Net : Type 0 where
  pub parse_url : String → Result String Url
  pub split_host_port : String → Option String
  pub parse_ip : String → Option Bool
  pub lookup_host : String → Option (List String)

abbrev pub is_bracket : Char → Bool
is_bracket c = code c == 91 || code c == 93

abbrev pub trim_left : String → String
trim_left String.[] = ""
trim_left (String.◌∷◌ c s) = let rest = trim_left s in if is_bracket c then rest else String.◌∷◌ c s

abbrev pub trim_right : String → String
trim_right String.[] = ""
trim_right (String.◌∷◌ c s) =
    let rest = trim_right s in if is_bracket c && str_eq rest "" then "" else String.◌∷◌ c rest

-- `host`: without the port and the brackets.
abbrev or_whole : String → Option String → String
or_whole whole none = whole
or_whole whole (some host) = host

unfoldable pub host_of : Net → String → String
host_of N host_port = trim_right (trim_left (or_whole host_port (N.split_host_port host_port)))

-- The loop over the resolved addresses.
unfoldable pub all_loopback : Net → List String → Bool
all_loopback N [] = true
all_loopback N (ip ∷ ips) =
    let rest = all_loopback N ips in elim (N.parse_ip ip) [ some true ↦ rest | _ ↦ false ]

unfoldable pub resolved_loopback : Net → Option (List String) → Bool
resolved_loopback N none = false
resolved_loopback N (some ips) = all_loopback N ips

unfoldable pub address_loopback : Net → String → Option Bool → Bool
address_loopback N host (some b) = b
address_loopback N host none = resolved_loopback N (N.lookup_host host)

-- `isLoopbackHost`
unfoldable pub is_loopback_host : Net → String → Bool
is_loopback_host N host_port =
    address_loopback N (host_of N host_port) (N.parse_ip (host_of N host_port))

pub data CompressionMode : Type 0 where
  compression_disabled : CompressionMode
  protocol_compression : CompressionMode  -- `protocol.CompressionMode`

unfoldable pub compression_for : Bool → CompressionMode
compression_for loopback = if loopback then compression_disabled else protocol_compression

pub data SettingsError : Type 0 where
  wrong_arguments : SettingsError  -- "expected exactly one argument: the websocket URL"
  invalid_url : String → SettingsError  -- "invalid URL: …"
  tls_error : TlsError → SettingsError
  tls_not_supported : SettingsError  -- "TLS configuration is not supported for ws:// URLs"
  tls_required : SettingsError  -- "TLS configuration is required for wss:// URLs"
  invalid_scheme : String → SettingsError  -- "invalid URL scheme, expecting 'ws' or 'wss': …"

-- The configuration of the package: `target`, `tlsConf` and `compressionMode`.
pub record Settings (Conf : Type 0) : Type 0 where
  pub target : Url
  pub tls : Option Conf
  pub compression : CompressionMode

unfoldable pub the_argument : List String → Result SettingsError String
the_argument (arg ∷ []) = ok arg
the_argument _ = failed wrong_arguments

module _ {Conf : Type 0} where
  -- The switch on the scheme.
  unfoldable pub check_plain : Option Conf → Result SettingsError Unit
  check_plain (some conf) = failed tls_not_supported
  check_plain none = ok tt

  unfoldable pub check_secure : Option Conf → Result SettingsError Unit
  check_secure (some conf) = ok tt
  check_secure none = failed tls_required

  unfoldable pub check_scheme : String → Option Conf → Result SettingsError Unit
  check_scheme scheme conf =
      if str_eq scheme "ws"
      then check_plain conf
      else (if str_eq scheme "wss" then check_secure conf else failed (invalid_scheme scheme))

  -- `Before`
  unfoldable pub before :
      Net
      → (String → String → String → Result String Conf)
      → List String
      → CertFlags
      → Result SettingsError (Settings Conf)
  before N build args flags = do
    arg ← the_argument args
    url ← wrap invalid_url (N.parse_url arg)
    conf ← wrap tls_error (tls_conf build flags)
    _ ← check_scheme url.scheme conf
    ok (record {
      target = url;
      tls = conf;
      compression = compression_for (is_loopback_host N url.host);
    })
