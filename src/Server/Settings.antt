-- ===== src/Server/Settings.antt =====
-- server/command.go: the validators of the flags and `Before`; server/logger.go.
pub mod Accepted
pub mod Levels
use mcptp.Base.{
  Bool, true, false, ◌||◌, ◌&&◌, not, Option, none, some, List, [], ◌∷◌, String, Result, failed, ok,
  ◌>>=◌, wrap, str_eq, ℤ, pos, leb_ℤ, if◌then◌else◌,
}
use mcptp.Settings.{CertFlags, TlsError, tls_conf}

-- `slog.Level`: the four that are used.
pub data Level : Type 0 where
  debug info warn error : Level

-- `slog.Level.String`
unfoldable pub level_text : Level → String
level_text debug = "DEBUG"
level_text info = "INFO"
level_text warn = "WARN"
level_text error = "ERROR"

-- `GetLogLevels`
unfoldable pub get_log_levels : List String
unfolding level_text
get_log_levels = level_text debug ∷ level_text info ∷ level_text warn ∷ level_text error ∷ []

-- `slices.Contains`
unfoldable pub contains : List String → String → Bool
contains [] x = false
contains (y ∷ ys) x = str_eq x y || contains ys x

pub data FlagError : Type 0 where
  invalid_log_level : String → FlagError
  too_small too_large : FlagError

-- The validators; `upper` is `strings.ToUpper`.
unfoldable pub validate_log_level : (String → String) → String → Option FlagError
validate_log_level upper value =
    if not (contains get_log_levels (upper value)) then some (invalid_log_level value) else none

unfoldable pub validate_port : ℤ → Option FlagError
validate_port value =
    if not (leb_ℤ (pos 1) value)
    then some too_small
    else (if not (leb_ℤ value (pos 65535)) then some too_large else none)

unfoldable pub validate_max_connections : ℤ → Option FlagError
validate_max_connections value = if not (leb_ℤ (pos 0) value) then some too_small else none

pub data SettingsError : Type 0 where
  no_command : SettingsError  -- "no command to spawn on incoming connections"
  command_not_found : String → String → SettingsError  -- "command … not found: …"; the path, the error
  tls_error : TlsError → SettingsError

pub record Settings (Conf : Type 0) : Type 0 where
  pub program : String
  pub arguments : List String
  pub tls : Option Conf

unfoldable pub the_command : List String → Result SettingsError (String × List String)
the_command [] = failed no_command
the_command (program ∷ arguments) = ok (program, arguments)

-- The assignment of what `exec.LookPath` returns, a path and an error: the message shows the path,
-- which has taken the place of the name.
unfoldable pub found : String × Option String → Result SettingsError String
found (path, some e) = failed (command_not_found path e)
found (path, none) = ok path

module _ {Conf : Type 0} where
  -- `Before`; `look_path` is `exec.LookPath`.
  unfoldable pub before :
      (String → String × Option String)
      → (String → String → String → Result String Conf)
      → List String
      → CertFlags
      → Result SettingsError (Settings Conf)
  before look_path build args flags = do
    (name, arguments) ← the_command args
    program ← found (look_path name)
    conf ← wrap tls_error (tls_conf build flags)
    ok (record { program = program; arguments = arguments; tls = conf })

  -- The scheme that `Action` shows, and whether it listens with TLS.
  unfoldable pub scheme : Option Conf → String
  scheme none = "ws"
  scheme (some conf) = "wss"

pub data Handler : Type 0 where
  journald_handler text_handler json_handler : Handler

-- The logger of `CreateLogger`: `warned` tells whether it starts with the warning that the level is
-- not set or invalid.
pub record Logger : Type 0 where
  pub level : Level
  pub add_source : Bool
  pub warned : Bool
  pub handler : Handler

-- The switch on the level: the level, whether the source is added, and whether it is the default.
unfoldable pub level_of : String → Level × Bool × Bool
unfolding level_text
level_of text =
    if str_eq text (level_text debug)
    then (debug, true, false)
    else (if str_eq text (level_text info)
        then (info, false, false)
        else (if str_eq text (level_text warn)
            then (warn, false, false)
            else (if str_eq text (level_text error)
                then (error, false, false)
                else (info, false, true))))

unfoldable pub handler_for : (systemd terminal : Bool) → Handler
handler_for true terminal = journald_handler
handler_for false true = text_handler
handler_for false false = json_handler

-- `CreateLogger`
unfoldable pub create_logger : (String → String) → (systemd terminal : Bool) → String → Logger
create_logger upper systemd terminal requested =
    let (level, add_source, is_default) = level_of (upper requested) in
    record {
      level = level;
      add_source = add_source;
      warned = is_default;
      handler = handler_for systemd terminal;
    }
