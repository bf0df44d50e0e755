-- ===== src/Client/Flags.antt =====
-- client/command.go: the flags of the client, and the way from a command line to its configuration.
pub mod Accepted
use mcptp.Base.{List, String, Result, ok, ◌>>=◌, wrap}
use mcptp.Client.Settings.{Net, Settings, SettingsError, before}
use mcptp.Flags.{Flag, Reader, plain_flag}
use mcptp.Settings.{CertFlags}

-- None of the flags has a validator.
abbrev pub cert_flag : Flag String ⊥
cert_flag = plain_flag "cert" "c" "mTLS" ""

abbrev pub key_flag : Flag String ⊥
key_flag = plain_flag "key" "k" "mTLS" ""

abbrev pub ca_flag : Flag String ⊥
ca_flag = plain_flag "ca" "a" "mTLS" ""

-- What a command line gives for each flag, and its arguments.
pub record Line : Type 0 where
  pub certs : List String
  pub keys : List String
  pub cas : List String
  pub arguments : List String

unfoldable pub read_flags : Reader → Line → Result String CertFlags
read_flags R line = do
  cert ← R.read String ⊥ cert_flag line.certs
  key ← R.read String ⊥ key_flag line.keys
  ca ← R.read String ⊥ ca_flag line.cas
  ok (record { cert = cert; key = key; ca = ca })

pub data ConfigError : Type 0 where
  bad_flag : String → ConfigError
  refused : SettingsError → ConfigError

module _ {Conf : Type 0} where
  -- The flags, and then `Before`.
  unfoldable pub configure :
      Reader
      → Net
      → (String → String → String → Result String Conf)
      → Line
      → Result ConfigError (CertFlags × Settings Conf)
  configure R N build line = do
    flags ← wrap bad_flag (read_flags R line)
    settings ← wrap refused (before N build line.arguments flags)
    ok (flags, settings)
