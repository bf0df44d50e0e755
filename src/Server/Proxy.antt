-- ===== src/Server/Proxy.antt =====
-- server/proxy.go, `proxy` and its two helpers: the life of one connection. The environment's
-- answers are inputs, and the effects are a list of actions in the order in which they happen.
pub mod Traces
pub mod Reports
pub mod Waits
use mcptp.Base.{
  Bool, true, false, Option, none, some, List, [], ◌∷◌, ◌++◌, Bytes, ℤ, pos, eqb_ℤ, if◌then◌else◌,
}
use mcptp.Oob.{Payload, start_ok, start_err, server_exited, ServerExited}
use mcptp.Server.Close.{CloseError, start_failed, start_unsent, ungraceful}
use mcptp.Websocket.{status_normal_closure, status_internal_error}

-- What `subProcess.Start` gives: a PID, or the text of an error.
pub data Started : Type 0 where
  started : ℤ → Started
  not_started : Bytes → Started

-- Which worker sends to its channel first, and what.
pub data First : Type 0 where
  receiver_first : Option CloseError → First
  stdout_first : Option CloseError → First

-- What `subProcess.Wait` gives: nil, an `*exec.ExitError` with `Exited`, `ExitCode` and its text, or
-- another error with its text.
pub data Waited : Type 0 where
  no_error : Waited
  exit_error : Bool → ℤ → Bytes → Waited
  wait_error : Bytes → Waited

-- `sent_start` tells whether the start message could be sent; a failure to send the other
-- messages is only logged.
pub record World : Type 0 where
  pub begins : Started
  pub sent_start : Bool
  pub first : First
  pub waited : Waited

pub data Worker : Type 0 where
  receiver_stdin sender_stdout sender_stderr : Worker

pub data Action : Type 0 where
  start_process : Action
  send : Payload → Action
  spawn : Worker → Action
  cancel : Worker → Action
  await : Worker → Action  -- a receive from the worker's channel
  wait_process : Action
  close : CloseError → Action
  cancel_process : Action

-- How the body of the function ends: by a return with the variable `desiredClose`, or by a panic.
pub data Ending : Type 0 where
  returns : Option CloseError → Ending
  panics : Ending

-- The actions of a part of the function, in order.
abbrev pub Trace : Type 0
Trace = List Action

-- `handleProcessWaitError`: the message that it sends and the close error that it leaves.
-- `no_error` is never passed.
exit_message : Waited → ServerExited
exit_message no_error = record { exit_code = none; killed = false; error = [] }
exit_message (exit_error true code e) = record { exit_code = some code; killed = false; error = e }
exit_message (exit_error false code e) = record { exit_code = none; killed = true; error = e }
exit_message (wait_error e) = record { exit_code = none; killed = false; error = e }

adapt_close : Option CloseError → Option CloseError
adapt_close none = none
adapt_close (some c) =
    if eqb_ℤ c.code status_normal_closure
    then some (record { code = status_internal_error; reason = ungraceful })
    else some c

handle_wait_error : Waited → Option CloseError → Trace × Option CloseError
unfolding exit_message adapt_close
handle_wait_error w desired = (send (server_exited (exit_message w)) ∷ [], adapt_close desired)

-- `sendNormalExitMessage`
normal_exit : Trace
normal_exit =
    send (server_exited (record { exit_code = some (pos 0); killed = false; error = [] })) ∷ []

-- The end of both branches of the select: the wait, and what is reported. `drains` is what the
-- branch does between a wait and the report.
report : Trace → Waited → Option CloseError → Trace × Ending
unfolding handle_wait_error normal_exit
report drains no_error desired = (wait_process ∷ (drains ++ normal_exit), returns desired)
report drains w desired =
    let (sends, desired') = handle_wait_error w desired in
    (wait_process ∷ (drains ++ sends), returns desired')

abbrev drain : Worker → Trace
drain w = cancel w ∷ await w ∷ []

-- The `select`. In the first branch the debug log reads `desiredClose.Code` before anything else.
select : First → Waited → Trace × Ending
unfolding report
select (receiver_first none) w = (await receiver_stdin ∷ [], panics)
select (receiver_first (some c)) w =
    let (rest, ending) = report (drain sender_stdout ++ drain sender_stderr) w (some c) in
    (await receiver_stdin ∷ rest, ending)
select (stdout_first desired) w =
    let (rest, ending) = report [] w desired in
    (await sender_stdout ∷ (drain receiver_stdin ++ (drain sender_stderr ++ rest)), ending)

-- After a start: the start message, the workers, the `select`, and the deferred cancellations.
run_started : ℤ → Bool → First → Waited → Trace × Ending
unfolding select
run_started pid false first w = (
  send (start_ok pid) ∷ [],
  returns (some (record { code = status_internal_error; reason = start_unsent })),
)
run_started pid true first w =
    let (rest, ending) = select first w in
    let spawned = spawn receiver_stdin ∷ spawn sender_stdout ∷ spawn sender_stderr ∷ [] in
    let deferred = cancel sender_stderr ∷ cancel sender_stdout ∷ cancel receiver_stdin ∷ [] in
    (send (start_ok pid) ∷ (spawned ++ (rest ++ deferred)), ending)

-- The body, from `subProcess.Start` on.
body : World → Trace × Ending
unfolding run_started
body world = elim world.begins [
  | not_started e ↦ (
    send (start_err e) ∷ [],
    returns (some (record { code = status_internal_error; reason = start_failed })),
  )
  | started pid ↦ run_started pid world.sent_start world.first world.waited
]

-- The deferred function that closes the websocket. A panic leaves `desiredClose` nil.
closing : Ending → Trace
closing (returns (some c)) = close c ∷ []
closing (returns none) = []
closing panics = []

-- `proxy`: all actions, and how it ends.
unfoldable pub proxy : World → Trace × Ending
unfolding body closing
proxy world =
    let (rest, ending) = body world in
    (start_process ∷ (rest ++ (closing ending ++ cancel_process ∷ [])), ending)
