-- ===== src/Server/Proxy/Reports.antt =====
-- What a connection tells the client, and in which order.
use mathlib.Core.List.{Memᴰ}
use mcptp.Base.{◌≡◌, ◌≢◌, refl, true, false, Option, none, some, List, [], ◌∷◌, ◌++◌, ℤ, pos}
use mcptp.Oob.{Payload, start_ok, server_exited, ServerExited}
use mcptp.Server.Close.{CloseError}
use mcptp.Server.Proxy.{
  First, receiver_first, stdout_first, Waited, no_error, exit_error, wait_error, receiver_stdin,
  sender_stdout, sender_stderr, start_process, send, spawn, cancel, await, wait_process,
  cancel_process, Ending, returns, panics, Trace, drain, report, closing, proxy,
}
use mcptp.Server.Proxy.Traces.{world}

-- To find an action in a trace.
ruleset members = (Memᴰ.head, Memᴰ.tail)

-- The payloads that a trace sends, in order.
abbrev pub sent : Trace → List Payload
sent [] = []
sent (send p ∷ actions) = p ∷ sent actions
sent (_ ∷ actions) = sent actions

-- How a process ended, as the client is told: by its exit code, by a signal, or by another error.
abbrev pub Tells : Waited → ServerExited → Type 0
Tells no_error m = (m.exit_code ≡ some (pos 0)) × (m.killed ≡ false) × (m.error ≡ [])
Tells (exit_error true code e) m = (m.exit_code ≡ some code) × (m.killed ≡ false) × (m.error ≡ e)
Tells (exit_error false code e) m = (m.exit_code ≡ none) × (m.killed ≡ true) × (m.error ≡ e)
Tells (wait_error e) m = (m.exit_code ≡ none) × (m.killed ≡ false) × (m.error ≡ e)

report-Tells :
    (drains : Trace) (w : Waited) (d : Option CloseError)
    → (m : ServerExited) × ((report drains w d).0
        ≡ wait_process ∷ (drains ++ send (server_exited m) ∷ []))
      × Tells w m
unfolding report
report-Tells drains no_error d = (_, refl, (refl, refl, refl))
report-Tells drains (exit_error true code e) d = (_, refl, (refl, refl, refl))
report-Tells drains (exit_error false code e) d = (_, refl, (refl, refl, refl))
report-Tells drains (wait_error e) d = (_, refl, (refl, refl, refl))

sent-closing : (e : Ending) → sent (closing e ++ cancel_process ∷ []) ≡ []
unfolding closing
sent-closing (returns (some c)) = refl
sent-closing (returns none) = refl
sent-closing panics = refl

-- A run that started its process, sent the start message and does not panic: it tells the client
-- how the process ended, in one message after the start message. Before that message it has waited
-- for the process and for the workers that send its stdout and stderr.
pub proxy-Tells :
    (pid : ℤ) (first : First) (w : Waited)
    → first ≢ receiver_first none
    → (m : ServerExited) × (before : Trace) × (after : Trace) × ((proxy (world pid first w)).0
        ≡ before ++ send (server_exited m) ∷ after)
      × Tells w m
      × (sent before ≡ start_ok pid ∷ [])
      × (sent after ≡ [])
      × Memᴰ wait_process before
      × Memᴰ (await sender_stdout) before
      × Memᴰ (await sender_stderr) before
unfolding proxy
proxy-Tells pid (receiver_first none) w h = absurd (h refl)
proxy-Tells pid (receiver_first (some c)) w h =
    let (m, e, t) = report-Tells (drain sender_stdout ++ drain sender_stderr) w (some c) in
    (
      m,
      start_process
          ∷ send (start_ok pid)
          ∷ spawn receiver_stdin
          ∷ spawn sender_stdout
          ∷ spawn sender_stderr
          ∷ await receiver_stdin
          ∷ wait_process
          ∷ (drain sender_stdout ++ drain sender_stderr),
      cancel sender_stderr
          ∷ cancel sender_stdout
          ∷ cancel receiver_stdin
          ∷ (closing (report (drain sender_stdout ++ drain sender_stderr) w (some c)).1
              ++ cancel_process ∷ []),
      rw e,
      t,
      refl,
      sent-closing _,
      search members depth 12,
      search members depth 12,
      search members depth 12,
    )
proxy-Tells pid (stdout_first d) w h =
    let (m, e, t) = report-Tells [] w d in
    (
      m,
      start_process
          ∷ send (start_ok pid)
          ∷ spawn receiver_stdin
          ∷ spawn sender_stdout
          ∷ spawn sender_stderr
          ∷ await sender_stdout
          ∷ (drain receiver_stdin ++ (drain sender_stderr ++ wait_process ∷ [])),
      cancel sender_stderr
          ∷ cancel sender_stdout
          ∷ cancel receiver_stdin
          ∷ (closing (report [] w d).1 ++ cancel_process ∷ []),
      rw e,
      t,
      refl,
      sent-closing _,
      search members depth 12,
      search members depth 12,
      search members depth 12,
    )
