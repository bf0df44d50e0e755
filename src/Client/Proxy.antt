-- ===== src/Client/Proxy.antt =====
-- client/proxy.go, `proxy`, and the end of the client's command: the life of one connection, and the
-- status with which the client exits.
pub mod Exits
use mcptp.Base.{Bool, true, false, List, [], ◌∷◌, ◌++◌, String, Bytes, ℤ, pos}
use mcptp.Json.{Grammar}
use mcptp.Oob.{
  Payload, start_ok, start_err, shutdown, server_exited, process_stderr, ReadResult, received,
  unreadable, read_message,
}
use mcptp.Client.Exit.{
  Reason, ExitError, first_read_failed, not_text, bad_start, start_refused, unexpected_oob,
  dial_failed, in_proxy,
}
use mcptp.Websocket.{MessageType, text_type, binary_type, other_type}

-- What the first `conn.Read` returns.
pub data FirstRead : Type 0 where
  message : MessageType → Bytes → FirstRead
  failed : String → FirstRead

-- Which worker sends to its channel first, and what. A sender that is first waits for the receiver
-- for 100 ms: `in_time` tells whether it ends by then.
pub data First : Type 0 where
  receiver_first : ExitError → First
  sender_first : ExitError → (in_time : Bool) → First

pub data Action : Type 0 where
  announce : ℤ → Action  -- "remote server started (PID …)"
  spawn_receiver spawn_sender cancel_receiver cancel_sender : Action
  await_receiver await_sender give_up : Action

-- The error that `proxy` returns: a plain one, or that of a worker.
pub data Failure : Type 0 where
  plain : Reason → Failure
  of_worker : ExitError → Failure

abbrev pub Trace : Type 0
Trace = List Action

-- The `select` behind the workers' start, with the deferred cancellations.
select : First → Trace × Failure
select (receiver_first e) = (
  await_receiver ∷ cancel_sender ∷ await_sender ∷ cancel_sender ∷ cancel_receiver ∷ [],
  of_worker e,
)
select (sender_first e true) = (
  await_sender ∷ cancel_receiver ∷ await_receiver ∷ cancel_sender ∷ cancel_receiver ∷ [],
  of_worker e,
)
select (sender_first e false) =
    (await_sender ∷ cancel_receiver ∷ give_up ∷ cancel_sender ∷ cancel_receiver ∷ [], of_worker e)

-- The switch on the first out-of-band message.
on_start : ReadResult → First → Trace × Failure
unfolding select
on_start (unreadable e) first = ([], plain (bad_start e))
on_start (received (start_ok pid)) first =
    let (rest, e) = select first in (announce pid ∷ spawn_receiver ∷ spawn_sender ∷ rest, e)
on_start (received (start_err e)) first = ([], plain (start_refused e))
on_start (received p) first = ([], plain (unexpected_oob p))

-- `proxy`
unfoldable pub proxy : Grammar → FirstRead → First → Trace × Failure
unfolding on_start
proxy G (failed e) first = ([], plain (first_read_failed e))
proxy G (message text_type msg) first = on_start (read_message G msg) first
proxy G (message _ msg) first = ([], plain not_text)

reason_of : Failure → Reason
reason_of (plain why) = why
reason_of (of_worker e) = e.reason

-- What `websocket.Dial` returns.
pub data Dialled : Type 0 where
  connected : FirstRead → First → Dialled
  not_connected : String → Dialled

-- `Command.Action`: the value of `cli.Exit` that the command returns.
unfoldable pub action : Grammar → Dialled → ExitError
unfolding proxy reason_of
action G (not_connected e) = record { reason = dial_failed e; code = pos 2 }
action G (connected read first) = record {
  reason = in_proxy (reason_of (proxy G read first).1);
  code = pos 3;
}
