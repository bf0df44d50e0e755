-- ===== src/Server/Service.antt =====
-- server/command.go, `Action` and `cleanShutdown`, with the handlers of the requests: how the server
-- serves, and how it stops.
pub mod Late
pub mod Shutdown
use mcptp.Base.{ℕ, ◌+◌, ◌-◌, ◌<◌, ◌≡◌, Bool, true, false, Option, none, some, String}
use mcptp.Server.Admission
use mcptp.Server.Admission.{Server, enter}

-- How `net.Listen` and `Serve`, or `ListenAndServe`, end; `server_closed` is `http.ErrServerClosed`.
pub data ServeEnd : Type 0 where
  listen_failed serve_failed : String → ServeEnd
  server_closed : ServeEnd

-- What `Action` returns in place of nil: an error as it is, or `cli.Exit` with the code 2.
pub data Failure : Type 0 where
  plain : String → Failure
  exit_2 : String → Failure

-- The two branches of `tlsConf != nil`.
unfoldable pub serve_error : (tls : Bool) → ServeEnd → Option Failure
serve_error tls server_closed = none
serve_error true (listen_failed e) = some (plain e)
serve_error true (serve_failed e) = some (exit_2 e)
serve_error false (listen_failed e) = some (exit_2 e)
serve_error false (serve_failed e) = some (exit_2 e)

-- Where `Action` stands: it serves, it waits for the requests, or it has returned.
pub data Phase : Type 0 where
  serving waiting : Phase
  returned : Option Failure → Phase

unfoldable pub after_serve : Option Failure → Phase
after_serve none = waiting
after_serve (some e) = returned (some e)

-- `pending` counts the requests whose handler has not reached `inflight.Add(1)`; `signalled` is the
-- end of the context, `closing` tells that `httpServer.Shutdown` has been called, and `seen` is
-- `connIDs` when `requests.Wait` returned.
pub record Service : Type 0 where
  pub server : Server
  pub pending : ℕ
  pub signalled : Bool
  pub closing : Bool
  pub phase : Phase
  pub seen : ℕ

abbrev pub start : Service
start = record {
  server = Admission.start;
  pending = 0;
  signalled = false;
  closing = false;
  phase = serving;
  seen = 0;
}

-- A request comes, on a new connection or on one that is kept; or it goes without a handler.
unfoldable pub connect : Service → Service
connect s = record s { pending = s.pending + 1 }

unfoldable pub drop_request : Service → Service
drop_request s = record s { pending = s.pending - 1 }

-- The handler of a request begins.
unfoldable pub begin_handler : Service → Service
begin_handler s = record s { pending = s.pending - 1; server = enter s.server }

-- `cleanShutdown`: the signal, and the call of `Shutdown` after it.
unfoldable pub signal : Service → Service
signal s = record s { signalled = true }

unfoldable pub shut_down : Service → Service
shut_down s = record s { closing = true }

-- What `Action` does when it no longer serves, and when the count of the requests is zero.
unfoldable pub end_serving : (tls : Bool) → ServeEnd → Service → Service
end_serving tls e s = record s { phase = after_serve (serve_error tls e) }

unfoldable pub end_waiting : Service → Service
end_waiting s = record s { phase = returned none; seen = s.server.conn_ids }

-- One step of `Action`, of `cleanShutdown`, of a handler or of the outside. `Serve` is closed only
-- by `Shutdown`, and takes no request after it. A handler that has begun makes the steps of
-- `Admission.Step`, of which only that of a new handler changes `connIDs`.
pub data Step (tls : Bool) (max : ℕ) : Service → Service → Type 0 where
  connects : (s : Service) → s.closing ≡ false → Step tls max s (connect s)
  drops : (s : Service) → 0 < s.pending → Step tls max s (drop_request s)
  begins : (s : Service) → 0 < s.pending → Step tls max s (begin_handler s)
  works :
      (s : Service) (b : Server)
      → Admission.Step max s.server b
      → b.conn_ids ≡ s.server.conn_ids
      → Step tls max s (record s { server = b })
  signals : (s : Service) → s.signalled ≡ false → Step tls max s (signal s)
  shuts_down : (s : Service) → s.signalled ≡ true → s.closing ≡ false → Step tls max s (shut_down s)
  ends_serving :
      (s : Service) (e : ServeEnd)
      → s.phase ≡ serving
      → (e ≡ server_closed → s.closing ≡ true)
      → Step tls max s (end_serving tls e s)
  ends_waiting :
      (s : Service) → s.phase ≡ waiting → s.server.inflight ≡ 0 → Step tls max s (end_waiting s)

pub data Reach (tls : Bool) (max : ℕ) : Service → Type 0 where
  here : Reach tls max start
  next : {s t : Service} → Reach tls max s → Step tls max s t → Reach tls max t
