-- ===== src/Server/Service/Shutdown.antt =====
-- The end of the service, and how far a service on which Shutdown has been called is from it.
use mcptp.Base.{ℕ, ◌+◌, ◌*◌, ◌<◌, ◌≡◌, inl, inr, ap, Bool, true, false, Option, [], arith}
use mcptp.Server.Admission
use mcptp.Server.Admission.{
  Server, Handler, enter, count, check, leave, entered, counted, refused, proxying,
}
use mcptp.Server.Admission.Limit.{tally, tally-append}
use mcptp.Server.Service.{
  Service, Failure, ServeEnd, server_closed, listen_failed, serve_failed, serve_error, Phase,
  serving, waiting, returned, after_serve, connect, drop_request, begin_handler, signal, shut_down,
  end_serving, end_waiting, Step, connects, drops, begins, works, signals, shuts_down, ends_serving,
  ends_waiting,
}

-- The steps that a handler has before it.
abbrev steps_left : Admission.Phase → ℕ
steps_left entered = 3
steps_left (counted n) = 2
steps_left refused = 1
steps_left proxying = 1

abbrev phase_left : Phase → ℕ
phase_left serving = 2
phase_left waiting = 1
phase_left (returned e) = 0

abbrev signal_left : Bool → ℕ
signal_left true = 0
signal_left false = 1

-- The steps that a closing service has before it, at most.
abbrev pub left : Service → ℕ
left s =
    4 * s.pending
    + tally steps_left s.server.handlers
    + phase_left s.phase
    + signal_left s.signalled

count_left :
    (max : ℕ) (s : Server) (h : Handler)
    → h.phase ≡ entered
    → steps_left (count max s h).1.phase < 3
unfolding count
count_left max s h e = ground arith

check_left : (max total : ℕ) (h : Handler) → steps_left (check max total h).phase ≡ 1
unfolding check
check_left max total h = ground arith

-- A step of a handler that has begun.
Step-left :
    {max : ℕ} {a b : Server}
    → Admission.Step max a b
    → b.conn_ids ≡ a.conn_ids
    → tally steps_left b.handlers < tally steps_left a.handlers
unfolding enter
Step-left (Admission.arrive s) e = absurd (omega arith)
Step-left {max} (Admission.counts s before after h p q) e = omega (
  arith,
  ap (tally steps_left) p,
  ap steps_left q,
  tally-append steps_left before h after,
  tally-append steps_left before (count max s h).1 after,
  count_left max s h q,
)
Step-left {max} (Admission.checks s before after h total p q) e = omega (
  arith,
  ap (tally steps_left) p,
  ap steps_left q,
  tally-append steps_left before h after,
  tally-append steps_left before (check max total h) after,
  check_left max total h,
)
Step-left (Admission.returns s before after h p (inl q)) e =
    omega (arith, ap (tally steps_left) p, ap steps_left q, tally-append steps_left before h after)
Step-left (Admission.returns s before after h p (inr q)) e =
    omega (arith, ap (tally steps_left) p, ap steps_left q, tally-append steps_left before h after)

after_serve_left : (tls : Bool) (e : ServeEnd) → phase_left (after_serve (serve_error tls e)) < 2
unfolding after_serve serve_error
after_serve_left tls server_closed = omega arith
after_serve_left true (listen_failed e) = omega arith
after_serve_left false (listen_failed e) = omega arith
after_serve_left true (serve_failed e) = omega arith
after_serve_left false (serve_failed e) = omega arith

-- A step of a closing service takes it nearer to its end, and it stays closing.
pub closing_step :
    {tls : Bool} {max : ℕ} {s t : Service}
    → Step tls max s t
    → s.closing ≡ true
    → (t.closing ≡ true) × (left t < left s)
unfolding connect drop_request begin_handler signal shut_down end_serving end_waiting enter
closing_step (connects s p) c = cc
closing_step (drops s p) c = (c, omega arith)
closing_step (begins s p) c = (c, omega arith)
closing_step (works s b m p) c = (c, omega (arith, Step-left m p))
closing_step (signals s p) c = (c, omega (arith, ap signal_left p))
closing_step (shuts_down s p q) c = cc
closing_step {tls} (ends_serving s e p q) c =
    (c, omega (arith, ap phase_left p, after_serve_left tls e))
closing_step (ends_waiting s p q) c = (c, omega (arith, ap phase_left p))

pub leave_conn_ids : (max : ℕ) (s : Server) → (leave max s).conn_ids ≡ s.conn_ids
unfolding leave
leave_conn_ids max s = ground arith

-- `Action` has returned, and no request and no handler is left.
abbrev pub Done : Service → Type 0
Done s =
    ((e : Option Failure) × (s.phase ≡ returned e)) × (s.server.handlers ≡ []) × (s.pending ≡ 0)
