-- ===== src/Program.antt =====
-- main.go: the commands under one program, what it says its version is, and its exit status.
pub mod Status
pub mod Commands
use mcptp.Base.{ℕ, Bool, Option, none, some, String, ◌<>◌, Result, failed, ok, ℤ, pos, ◌≡◌}
use mcptp.Client.Exit.{ExitError}
use mcptp.Client.Proxy.{Dialled, action}
use mcptp.Json.{Grammar}
use mcptp.Mtls.Certificates.{Crypto}
use mcptp.Mtls.Command as MtlsCommand
use mcptp.Mtls.Command.{Disk, World, ActionError}
use mcptp.Server.Service.{Failure, plain, exit_2}

-- The fields of `debug.BuildInfo` that are used.
pub record BuildInfo : Type 0 where
  pub main_version : String
  pub go_version : String

-- `version`
unfoldable pub version : (goos goarch : String) → Option BuildInfo → String
version goos goarch none = "unknown (" <> goos <> "/" <> goarch <> ")"
version goos goarch (some infos) =
    infos.main_version <> " (" <> infos.go_version <> ", " <> goos <> "/" <> goarch <> ")"

-- The error of a command: a `cli.ExitCoder` with its code, or another one.
pub data CommandError : Type 0 where
  coded : ℤ → CommandError
  uncoded : CommandError

-- How `cmd.Run` ends: the library has ended the process, or it returns nil or an error.
pub data RunEnd : Type 0 where
  exits : ℤ → RunEnd
  returns : Option CommandError → RunEnd

-- What is used of github.com/urfave/cli: `run` is `cmd.Run`, on what the command that it is asked for
-- returns.
abbrev pub Cli : Type 0
Cli = Option CommandError → RunEnd

-- Its documentation: an `ExitCoder` ends the process with its code, and any other result is
-- returned.
pub record IsCli (run : Cli) : Type 0 where
  pub handles : (code : ℤ) → run (some (coded code)) ≡ exits code
  pub passes : run (some uncoded) ≡ returns (some uncoded)
  pub succeeds : run none ≡ returns none

-- The status with which `main` ends the process.
unfoldable pub exit_status : RunEnd → ℤ
exit_status (exits code) = code
exit_status (returns none) = pos 0
exit_status (returns (some e)) = pos 1

-- The client: an error of `Before` is wrapped with the code 1, and `Action` returns its own.
unfoldable pub client_command :
    {E S : Type 0} → Grammar → Result E S → Dialled → Option CommandError
client_command G (failed e) dialled = some (coded (pos 1))
client_command G (ok settings) dialled = some (coded (action G dialled).code)

-- The server: the same, with what `Action` returns.
failure : Option Failure → Option CommandError
failure none = none
failure (some (plain e)) = some uncoded
failure (some (exit_2 e)) = some (coded (pos 2))

unfoldable pub server_command : {E S : Type 0} → Result E S → Option Failure → Option CommandError
unfolding failure
server_command (failed e) result = some (coded (pos 1))
server_command (ok settings) result = failure result

-- mTLS: the errors of its `Action` have no code.
without_code : Option ActionError → Option CommandError
without_code none = none
without_code (some e) = some uncoded

unfoldable pub mtls_command : (C : Crypto) → World C → Disk C → Option CommandError
unfolding without_code
mtls_command C w d = without_code (MtlsCommand.action C w d).1
