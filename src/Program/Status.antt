-- ===== src/Program/Status.antt =====
-- The exit status of each command.
use mcptp.Base.{◌≡◌, ◌↔◌, refl, ap, Option, none, some, Result, failed, ok, ℤ, pos}
use mcptp.Client.Proxy.{Dialled, connected, not_connected, action}
use mcptp.Json.{Grammar}
use mcptp.Mtls.Certificates.{Crypto}
use mcptp.Mtls.Command as MtlsCommand
use mcptp.Mtls.Command.{Disk, World, ActionError}
use mcptp.Program.{
  Cli, IsCli, exit_status, client_command, server_command, mtls_command, without_code,
}
use mcptp.Server.Service.{Failure, plain, exit_2}

-- What a run of the client is told by: its settings, and whether it connects.
abbrev pub client_status_of : {E S : Type 0} → Result E S → Dialled → ℤ
client_status_of (failed e) d = pos 1
client_status_of (ok s) (not_connected e) = pos 2
client_status_of (ok s) (connected read first) = pos 3

-- The client ends with the status 1 if its command line is refused, with 2 if it does not connect,
-- and with 3 once it has connected, however the session ends: never with 0.
pub client_command-status :
    {E S : Type 0} (run : Cli) (G : Grammar) (r : Result E S) (d : Dialled)
    → IsCli run
    → exit_status (run (client_command G r d)) ≡ client_status_of r d
unfolding client_command action exit_status
client_command-status run G (failed e) d c = ap exit_status (c.handles (pos 1))
client_command-status run G (ok s) (not_connected e) c = ap exit_status (c.handles (pos 2))
client_command-status run G (ok s) (connected read first) c = ap exit_status (c.handles (pos 3))

without_code-status :
    (run : Cli) (o : Option ActionError)
    → IsCli run
    → (exit_status (run (without_code o)) ≡ pos 0) ↔ (o ≡ none)
unfolding without_code exit_status
without_code-status run none c = ((λ h. refl), (λ h. ap exit_status c.succeeds))
without_code-status run (some e) c = ((λ h. let k = ap exit_status c.passes in cc), (λ h. cc))

-- The mTLS command ends with the status 0 exactly if its action returns nil.
pub mtls_command-status :
    (run : Cli) (C : Crypto) (w : World C) (d : Disk C)
    → IsCli run
    → (exit_status (run (mtls_command C w d)) ≡ pos 0) ↔ ((MtlsCommand.action C w d).1 ≡ none)
unfolding mtls_command
mtls_command-status run C w d c = without_code-status run (MtlsCommand.action C w d).1 c

abbrev pub server_status_of : {E S : Type 0} → Result E S → Option Failure → ℤ
server_status_of (failed e) o = pos 1
server_status_of (ok s) none = pos 0
server_status_of (ok s) (some (plain e)) = pos 1
server_status_of (ok s) (some (exit_2 e)) = pos 2

-- The server ends with the status 1 if its command line is refused, with 0 if its action returns
-- nil, with 2 if serving fails with a code, and with 1 if its TLS listener cannot be made.
pub server_command-status :
    {E S : Type 0} (run : Cli) (r : Result E S) (o : Option Failure)
    → IsCli run
    → exit_status (run (server_command r o)) ≡ server_status_of r o
unfolding server_command exit_status
server_command-status run (failed e) o c = ap exit_status (c.handles (pos 1))
server_command-status run (ok s) none c = ap exit_status c.succeeds
server_command-status run (ok s) (some (plain e)) c = ap exit_status c.passes
server_command-status run (ok s) (some (exit_2 e)) c = ap exit_status (c.handles (pos 2))
