-- ===== src/Client/Proxy/Exits.antt =====
-- When the workers run, and the exit status of the client.
use mcptp.Base.{◌≡◌, ◌↔◌, refl, Bool, true, false, [], ◌∷◌, Bytes, ℤ, pos, arith}
use mcptp.Json.{Grammar}
use mcptp.Oob.{
  start_ok, start_err, shutdown, server_exited, process_stderr, ReadResult, received, unreadable,
  read_message,
}
use mcptp.Client.Exit.{ExitError, in_proxy}
use mcptp.Client.Proxy.{
  FirstRead, message, failed, First, receiver_first, sender_first, spawn_receiver, Trace, on_start,
  proxy, connected, action,
}
use mcptp.Websocket.{text_type, binary_type, other_type}

abbrev pub spawns : Trace → Bool
spawns [] = false
spawns (spawn_receiver ∷ actions) = true
spawns (_ ∷ actions) = spawns actions

-- The first message tells that the process has started.
abbrev pub Starts : Grammar → FirstRead → Type 0
Starts G read =
    (msg : Bytes) × (pid : ℤ) × (read ≡ message text_type msg)
    × (read_message G msg ≡ received (start_ok pid))

-- The error of the worker that ended first.
abbrev pub error_of : First → ExitError
error_of (receiver_first e) = e
error_of (sender_first e _) = e

on_start-spawns :
    (r : ReadResult) (first : First)
    → (spawns (on_start r first).0 ≡ true) ↔ ((pid : ℤ) × (r ≡ received (start_ok pid)))
unfolding on_start
on_start-spawns (unreadable e) first = (λ h. cc, λ h. absurd (ground arith))
on_start-spawns (received (start_ok pid)) first = (λ _. (pid, refl), λ _. refl)
on_start-spawns (received (start_err e)) first = (λ h. cc, λ h. absurd (ground arith))
on_start-spawns (received shutdown) first = (λ h. cc, λ h. absurd (ground arith))
on_start-spawns (received (server_exited m)) first = (λ h. cc, λ h. absurd (ground arith))
on_start-spawns (received (process_stderr l)) first = (λ h. cc, λ h. absurd (ground arith))

-- The workers are started exactly if the first message tells that the process has started.
pub proxy-Starts_iff :
    (G : Grammar) (read : FirstRead) (first : First)
    → (spawns (proxy G read first).0 ≡ true) ↔ Starts G read
unfolding proxy
proxy-Starts_iff G (failed e) first = (λ h. cc, λ h. absurd (ground arith))
proxy-Starts_iff G (message text_type msg) first =
    let (only, when) = on_start-spawns (read_message G msg) first in
    (λ h. let (pid, e) = only h in (msg, pid, refl, e), λ h. when (h.1, ground arith))
proxy-Starts_iff G (message binary_type msg) first = (λ h. cc, λ h. absurd (ground arith))
proxy-Starts_iff G (message other_type msg) first = (λ h. cc, λ h. absurd (ground arith))

-- Once it has connected and the remote process has started, the client exits with status 3 and the
-- reason of the worker that ended first; the exit code that this worker gives is lost.
pub action-code :
    (G : Grammar) (msg : Bytes) (pid : ℤ) (first : First)
    → read_message G msg ≡ received (start_ok pid)
    → action G (connected (message text_type msg) first)
      ≡ record { reason = in_proxy (error_of first).reason; code = pos 3 }
unfolding action
action-code G msg pid (receiver_first e) h = rw (h, on_start)
action-code G msg pid (sender_first e true) h = rw (h, on_start)
action-code G msg pid (sender_first e false) h = rw (h, on_start)
