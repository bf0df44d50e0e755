-- ===== src/Settings.antt =====
-- client/command.go and server/command.go: the flags --cert, --key and --ca, which both commands
-- read alike.
pub mod Choice
use mcptp.Base.{
  ◌≡◌, ◌≢◌, ◌⊎◌, Bool, true, false, ◌||◌, not, Option, none, some, String, Result, failed, ok, wrap,
  ◌>>=◌, str_eq, if◌then◌else◌,
}

pub record CertFlags : Type 0 where
  pub cert : String
  pub key : String
  pub ca : String

pub data TlsError : Type 0 where
  flags_incomplete : TlsError  -- "--cert, --key and --ca must be specified together"
  config_failed : String → TlsError  -- "failed to generate … TLS configuration: …"

module _ {Conf : Type 0} where
  -- The two tests, on which flags are empty, and the configuration, if it comes to that.
  unfoldable pub choose_tls :
      (no_cert no_key no_ca : Bool) → Result String Conf → Result TlsError (Option Conf)
  choose_tls no_cert no_key no_ca built =
      if not no_cert || not no_key || not no_ca
      then (if no_cert || no_key || no_ca
          then failed flags_incomplete
          else (wrap config_failed built >>= (λ conf. ok (some conf))))
      else ok none

  -- `tlsConf` of a command whose flags are read; the argument builds a configuration from the paths
  -- of the authority, the certificate and the key.
  unfoldable pub tls_conf :
      (String → String → String → Result String Conf) → CertFlags → Result TlsError (Option Conf)
  tls_conf build f =
      choose_tls (str_eq f.cert "") (str_eq f.key "") (str_eq f.ca "") (build f.ca f.cert f.key)
