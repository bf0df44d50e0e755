-- ===== src/Server/Connections.antt =====
-- The server as a whole: server/command.go with the handlers of server/proxy.go, and in each of them
-- `proxy` with its process, its pipes and its workers.
pub mod Course
pub mod Ends
pub mod Hang
pub mod Processes
pub mod Progress
pub mod Shutdown
use mathlib.Core.List.{Memᴰ}
use mcptp.Base.{ℕ, Bool, ◌==◌, ◌≡◌, ◌⊎◌, true, Option, none, some, if◌then◌else◌}
use mcptp.Server.Admission.{Handler, proxying}
use mcptp.Server.Pipes
use mcptp.Server.Pipes.{Connection, Actor, by_signal}
use mcptp.Server.Service
use mcptp.Server.Service.{Service}

-- The connection of each handler, by `connection_id`; none before its workers start.
abbrev pub Connections : Type 0
Connections = ℕ → Option Connection

unfoldable pub set : ℕ → Connection → Connections → Connections
set id c connections n = if n == id then some c else connections n

pub record Whole : Type 0 where
  pub service : Service
  pub connections : Connections

abbrev pub start : Whole
start = record { service = Service.start; connections = λ n. none }

-- `handleConnection` returns only after `proxy`: a handler that runs it stays until then.
abbrev pub Keeps : Connections → Service → Service → Type 0
Keeps connections s t =
    (h : Handler) (c : Connection)
    → Memᴰ h s.server.handlers
    → h.phase ≡ proxying
    → connections h.id ≡ some c
    → Memᴰ h t.server.handlers ⊎ (Pipes.is_over c.stage ≡ true)

-- A step of the service, the start of the workers in a handler, or a step of a connection. The
-- context of `proxy` is that of the server, so it ends with the signal.
pub data Step (tls : Bool) (max : ℕ) : Whole → Whole → Type 0 where
  serves :
      (w : Whole) (t : Service)
      → Service.Step tls max w.service t
      → Keeps w.connections w.service t
      → Step tls max w (record w { service = t })
  begins_proxy :
      (w : Whole) (h : Handler)
      → Memᴰ h w.service.server.handlers
      → h.phase ≡ proxying
      → w.connections h.id ≡ none
      → Step tls max w (record w { connections = set h.id Pipes.start w.connections })
  proceeds :
      (w : Whole) (id : ℕ) (a : Actor) (c d : Connection)
      → w.connections id ≡ some c
      → Pipes.Step a c d
      → (a ≡ by_signal → w.service.signalled ≡ true)
      → Step tls max w (record w { connections = set id d w.connections })

pub data Run (tls : Bool) (max : ℕ) : Whole → Whole → Type 0 where
  stop : (w : Whole) → Run tls max w w
  more : {u v w : Whole} → Step tls max u v → Run tls max v w → Run tls max u w

pub data Reach (tls : Bool) (max : ℕ) : Whole → Type 0 where
  here : Reach tls max start
  next : {v w : Whole} → Reach tls max v → Step tls max v w → Reach tls max w
