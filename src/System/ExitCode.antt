-- ===== src/System/ExitCode.antt =====
-- What the client learns of the exit of the remote process.
use mcptp.Base.{◌≡◌, refl, true, false, List, [], ◌∷◌, ◌++◌, map, Bytes, ℤ, pos}
use mcptp.Client.Sender.{Turn, Written, closed, Sender}
use mcptp.Client.Sender.Endings.{code_of, code_after, last_code}
use mcptp.Client.Sender.Output.{arrives}
use mcptp.Json.{Grammar, fits_int}
use mcptp.Oob.{server_exited, ServerExited, frame}
use mcptp.Oob.RoundTrip.{FitsInt}
use mcptp.Server.Proxy.{First, Waited, no_error, exit_error, wait_error, send, Trace, proxy}
use mcptp.Server.Proxy.Reports.{Tells}
use mcptp.Server.Proxy.Traces.{world}
use mcptp.Websocket.{MessageType, text_type}

-- The exit code of the process is a Go `int`.
abbrev pub FitsWaited : Waited → Type 0
FitsWaited (exit_error exited code e) = fits_int code ≡ true
FitsWaited _ = Unit

pub Tells-FitsInt : (w : Waited) (m : ServerExited) → Tells w m → FitsWaited w → FitsInt m.exit_code
Tells-FitsInt no_error m t f = rw (t.0) refl
Tells-FitsInt (exit_error true code e) m t f = rw (t.0) f
Tells-FitsInt (exit_error false code e) m t f = rw (t.0) tt
Tells-FitsInt (wait_error e) m t f = rw (t.0) tt

pub last_code-append :
    (G : Grammar) (msgs : List (MessageType × Bytes)) (m : MessageType × Bytes) (code : ℤ)
    → last_code G (msgs ++ m ∷ []) code ≡ code_after G m (last_code G msgs code)
last_code-append G [] m code = refl
last_code-append G (x ∷ msgs) m code = last_code-append G msgs m (code_after G x code)

-- A run of the server's proxy that told of the exit: the message, and where it stands in the trace.
abbrev pub ToldBy : ℤ → First → Waited → ServerExited → Type 0
ToldBy pid first w m =
    (before : Trace) × (after : Trace) × ((proxy (world pid first w)).0
      ≡ before ++ send (server_exited m) ∷ after)

pub told_clean : (w : Waited) (m : ServerExited) → w ≡ no_error → Tells w m → code_of m ≡ pos 0
told_clean no_error m e t = rw (t.0)
told_clean (exit_error b code x) m e t = cc
told_clean (wait_error x) m e t = cc

-- What the client reads: some messages, the one that tells of the exit, and the close.
abbrev pub heard : Grammar → List (MessageType × Bytes) → ServerExited → ℤ → Written → List Turn
heard G msgs m status written =
    map arrives (msgs ++ (text_type, frame G (server_exited m)) ∷ [])
    ++ record { incoming = closed status; written = written } ∷ []
