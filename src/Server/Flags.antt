-- ===== src/Server/Flags.antt =====
-- server/command.go: the flags of the server, and the way from a command line to what `Action` finds.
pub mod Ranges
use mcptp.Base.{
  Bool, true, false, Option, none, some, List, [], ◌∷◌, ◌++◌, String, Result, failed, ok, ◌>>=◌,
  wrap, ℤ, pos,
}
use mcptp.Flags.{Flag, Reader, plain_flag}
use mcptp.Server.Settings.{
  Level, info, level_text, FlagError, validate_log_level, validate_port, validate_max_connections,
  Settings, SettingsError, before,
}
use mcptp.Settings.{CertFlags}
use mcptp.Websocket.{default_port}

-- `DefaultLogLevel`
abbrev pub default_log_level : Level
default_log_level = info

-- `upper` is `strings.ToUpper`.
unfoldable pub log_level_flag : (String → String) → Flag String FlagError
unfolding level_text
log_level_flag upper = record {
  name = "log-level";
  aliases = "l" ∷ [];
  category = "";
  only_once = true;
  required = false;
  value = level_text default_log_level;
  validate_defaults = true;
  validator = some (validate_log_level upper);
}

unfoldable pub bind_flag : Flag String FlagError
bind_flag = record (plain_flag "bind" "b" "HTTP server" "") { required = true }

unfoldable pub port_flag : Flag ℤ FlagError
port_flag = record (plain_flag "port" "p" "HTTP server" (pos default_port)) {
  validate_defaults = true;
  validator = some validate_port;
}

unfoldable pub max_connections_flag : Flag ℤ FlagError
max_connections_flag = record (plain_flag "max-connections" "n" "HTTP server" (pos 0)) {
  validator = some validate_max_connections;
}

abbrev pub cert_flag : Flag String FlagError
cert_flag = plain_flag "cert" "c" "mTLS" ""

abbrev pub key_flag : Flag String FlagError
key_flag = plain_flag "key" "k" "mTLS" ""

abbrev pub ca_flag : Flag String FlagError
ca_flag = plain_flag "ca" "a" "mTLS" ""

-- What a command line gives for each flag, in order, and its arguments.
pub record Line : Type 0 where
  pub log_levels : List String
  pub binds : List String
  pub ports : List ℤ
  pub limits : List ℤ
  pub certs : List String
  pub keys : List String
  pub cas : List String
  pub arguments : List String

-- The package's variables `logLevel`, `bindAddress`, `port` and `maxConnections`, and the flags that
-- `Before` reads by name.
pub record Values : Type 0 where
  pub log_level : String
  pub bind_address : String
  pub port : ℤ
  pub max_connections : ℤ
  pub certificates : CertFlags

-- `Flags`
unfoldable pub read_flags : Reader → (String → String) → Line → Result String Values
unfolding log_level_flag bind_flag port_flag max_connections_flag
read_flags R upper line = do
  level ← R.read String FlagError (log_level_flag upper) line.log_levels
  address ← R.read String FlagError bind_flag line.binds
  port ← R.read ℤ FlagError port_flag line.ports
  limit ← R.read ℤ FlagError max_connections_flag line.limits
  cert ← R.read String FlagError cert_flag line.certs
  key ← R.read String FlagError key_flag line.keys
  ca ← R.read String FlagError ca_flag line.cas
  ok (record {
    log_level = level;
    bind_address = address;
    port = port;
    max_connections = limit;
    certificates = record { cert = cert; key = key; ca = ca };
  })

pub data ConfigError : Type 0 where
  bad_flag : String → ConfigError
  refused : SettingsError → ConfigError

module _ {Conf : Type 0} where
  -- The flags, and then `Before`.
  unfoldable pub configure :
      Reader
      → (String → String)
      → (String → String × Option String)
      → (String → String → String → Result String Conf)
      → Line
      → Result ConfigError (Values × Settings Conf)
  configure R upper look_path build line = do
    values ← wrap bad_flag (read_flags R upper line)
    settings ← wrap refused (before look_path build line.arguments values.certificates)
    ok (values, settings)
