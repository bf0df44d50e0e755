-- ===== src/Examples/Servers.antt =====
-- The workers and the proxy of the server.
use mathlib.Core.List.{Memᴰ}
use mcptp.Base.{
  ℕ, ◌≤◌, ◌≡◌, ◌≢◌, ◌↔◌, refl, Bool, ltb, true, false, none, some, List, [], ◌∷◌, ◌++◌, Bytes, pos,
  negsuc, ℤ, arith, length,
}
use mcptp.Examples.Messages.{call_line, call_fields}
use mcptp.Examples.Postfix.{postfix}
use mcptp.Jsonrpc.Accumulator.{AccumulateError}
use mcptp.Oob.{shutdown, frame, start_ok, server_exited, ServerExited}
use mcptp.Server
use mcptp.Server.Admission.{
  Handler, Server, start, enter, count, check, Reach, here, next, arrive, counts, checks, entered,
}
use mcptp.Server.Admission.Limit.{tally, runs, in_counter, Reach-limit}
use mcptp.Server.Close.{CloseError, read_failed, stdout_bad_message, shutdown_acknowledged}
use mcptp.Server.Proxy.{
  receiver_first, no_error, exit_error, World, started, send, await, sender_stdout, sender_stderr,
  wait_process, panics, Trace, proxy,
}
use mcptp.Server.Proxy.Reports.{Tells, sent, proxy-Tells}
use mcptp.Server.Proxy.Traces.{world, proxy_panics_iff, proxy-closes}
use mcptp.Server.Proxy.Waits.{waits, proxy-waits_iff}
use mcptp.Server.Receiver.Endings.{Explains, receive-Explains}
use mcptp.Server.Receiver.Relay.{view, relayed, view-receive}
use mcptp.Server.Stderr.Lines.{turns_from, forward-lines}
use mcptp.Server.Stdout.Frames.{passed}
use mcptp.Server.Stdout.Stops.{forward_stops}
use mcptp.Websocket.{text_type, status_internal_error, status_normal_closure}

abbrev normally : CloseError
normally = record { code = status_normal_closure; reason = shutdown_acknowledged }

-- The receiver acknowledges a shutdown, and the process then exits with 3.
proxy-Tells_example :
    (m : ServerExited) × (before : Trace) × (after : Trace) × ((proxy
        (world (pos 9) (receiver_first (some normally)) (exit_error true (pos 3) (b'x' ∷ [])))).0
      ≡ before ++ send (server_exited m) ∷ after)
    × Tells (exit_error true (pos 3) (b'x' ∷ [])) m
    × (sent before ≡ start_ok (pos 9) ∷ [])
    × (sent after ≡ [])
    × Memᴰ wait_process before
    × Memᴰ (await sender_stdout) before
    × Memᴰ (await sender_stderr) before
proxy-Tells_example =
    proxy-Tells (pos 9) (receiver_first (some normally)) (exit_error true (pos 3) (b'x' ∷ []))
      (λ e. cc)

-- The client closes the websocket with no shutdown message.
abbrev dropped : World
dropped = world (pos 9) (receiver_first none) no_error

proxy_panics_iff_example : ((proxy dropped).1 ≡ panics) ↔ (
    ((pid : ℤ) × (started (pos 9) ≡ started pid))
    × (true ≡ true)
    × (receiver_first none ≡ receiver_first none))
proxy_panics_iff_example = proxy_panics_iff dropped

proxy-waits_iff_example : (waits (proxy dropped).0 ≡ true) ↔ (
    ((pid : ℤ) × (started (pos 9) ≡ started pid))
    × (true ≡ true)
    × (receiver_first none ≢ receiver_first none))
proxy-waits_iff_example = proxy-waits_iff dropped

proxy-closes_example :
    (◌≡◌ {A = List CloseError} [] [])
    × (normally.code ≡ status_normal_closure
        → (no_error ≡ no_error) × (some normally ≡ some normally))
unfolding proxy
proxy-closes_example =
    proxy-closes (world (pos 9) (receiver_first (some normally)) no_error) {c = normally} {cs = []}
      refl

-- The process writes a request of its own.
forward_stops_example :
    (e : AccumulateError) × (s : Server.Stdout.Sender) × (Server.Stdout.forward postfix
        Server.Stdout.start
        (passed (call_line ++ 10 ∷ []) ∷ [])
      ≡ Server.Stdout.finished
          (some (record { code = status_internal_error; reason = stdout_bad_message e }))
          s)
    × (s.frames ≡ (call_line ++ 10 ∷ []) ∷ [])
unfolding call_line postfix
forward_stops_example =
    forward_stops postfix Server.Stdout.start call_line [] call_fields [] refl refl
      (refl, (refl, (refl, tt))) (refl, (refl, (refl, tt)))

-- A first connection runs, and a second handler has counted itself.
abbrev one_enters : Server
one_enters = enter start

abbrev one_in : Handler
one_in = record { id = 1; phase = entered }

abbrev one_counts : Server
one_counts = record (count 1 one_enters one_in).0 { handlers = (count 1 one_enters one_in).1 ∷ [] }

abbrev pub one_runs : Server
one_runs = record one_counts { handlers = check 1 1 (count 1 one_enters one_in).1 ∷ [] }

abbrev pub two_in : Handler
two_in = record { id = 2; phase = entered }

abbrev pub two_enters : Server
two_enters = enter one_runs

abbrev pub two_counts : Server
two_counts = record (count 1 two_enters two_in).0 {
  handlers = (count 1 two_enters two_in).1 ∷ one_runs.handlers;
}

pub two_enters_reached : Reach 1 two_enters
unfolding enter count check
two_enters_reached =
    next
      (next (next (next here (arrive start)) (counts one_enters [] [] one_in refl refl))
        (checks one_counts [] [] (count 1 one_enters one_in).1 1 refl refl))
      (arrive one_runs)

pub two_counts_reached : Reach 1 two_counts
unfolding enter count check
two_counts_reached =
    next two_enters_reached (counts two_enters [] one_runs.handlers two_in refl refl)

Reach-limit_example :
    (tally runs two_counts.handlers ≤ 1)
    × (two_counts.nb_conn ≡ tally (in_counter 1) two_counts.handlers)
    × (two_counts.inflight ≡ length two_counts.handlers)
Reach-limit_example = Reach-limit {max = 1} {s = two_counts} two_counts_reached (omega arith)

-- A read that fails although no close was received.
abbrev fails : Server.Receiver.Turn
fails = record {
  incoming = Server.Receiver.failed (negsuc 0) "reset";
  written = Server.Receiver.all_written;
}

abbrev after_failure : Server.Receiver.Receiver
after_failure = record Server.Receiver.start { stdin_open = false }

abbrev failure : CloseError
failure = record { code = status_internal_error; reason = read_failed "reset" }

receive-Explains_example :
    (t : Server.Receiver.Turn) × Memᴰ t (fails ∷ [])
    × Explains postfix t (some failure)
    × (after_failure.stdin_open ≡ false)
unfolding Server.Receiver.receive
receive-Explains_example =
    receive-Explains postfix Server.Receiver.start (fails ∷ []) {c = some failure}
      {r' = after_failure} refl

view-receive_example :
    view (
      Server.Receiver.receive postfix
        (record Server.Receiver.start { accumulator = 123 ∷ []; log = [] })
        (relayed call_line ∷ fails ∷ []))
    ≡ view (Server.Receiver.receive postfix Server.Receiver.start (relayed call_line ∷ fails ∷ []))
view-receive_example =
    view-receive postfix Server.Receiver.start (123 ∷ []) [] (relayed call_line ∷ fails ∷ [])

-- The shutdown message of a client that has sent two messages.
abbrev quit : Server.Receiver.Turn
quit = record {
  incoming = Server.Receiver.message text_type (frame postfix shutdown);
  written = Server.Receiver.all_written;
}

-- The first message is not sent.
abbrev but_first : ℕ → Bool
but_first n = ltb 0 n

abbrev warnings : Bytes
warnings = 65 ∷ 10 ∷ 10 ∷ 66 ∷ 67 ∷ []

forward-lines_example :
    (s : Server.Stderr.Sender) × (Server.Stderr.forward Server.Stderr.start
        (turns_from Server.Stderr.eof false but_first 0 [] warnings)
      ≡ Server.Stderr.finished s)
    × (s.lines ≡ (65 ∷ []) ∷ (66 ∷ 67 ∷ []) ∷ [])
forward-lines_example = forward-lines Server.Stderr.eof false but_first warnings
