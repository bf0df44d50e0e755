-- ===== src/Server/Receiver/Prefixes.antt =====
-- What the process is given on its stdin, whatever fails.
use mcptp.Base.{
  list_laws, prefix-append, ◌≡◌, refl, subst, inl, inr, Bool-cases, eqb_ℤ, negsuc, List, [], ◌∷◌,
  ◌++◌, append-nil, Bytes, concat, take, IsPrefix, IsPrefix-refl, IsPrefix-append, append-IsPrefix,
  take-IsPrefix,
}
use mcptp.Jsonrpc.Accumulator.{accumulate_request}
use mcptp.Json.{Grammar}
use mcptp.Oob.{
  ReadResult, received, unreadable, shutdown, start_ok, start_err, server_exited, process_stderr,
  read_message,
}
use mcptp.Server.Receiver.{
  Incoming, message, failed, Written, all_written, write_failed, Turn, Receiver, Progress, running,
  finished, on_binary, on_oob, stop, step, resume, receive,
}
use mcptp.Server.Receiver.Relay.{log_request-view}
use mcptp.Websocket.{text_type, binary_type, other_type}

-- The binary messages that some rounds bring, and the stdin of the process.
abbrev pub carried : Incoming → List Bytes
carried (message binary_type msg) = msg ∷ []
carried _ = []

abbrev pub binaries : List Turn → List Bytes
binaries [] = []
binaries (t ∷ turns) = carried t.incoming ++ binaries turns

abbrev pub stdin_of : Progress → Bytes
stdin_of (running r) = r.stdin
stdin_of (finished c r) = r.stdin

-- The process has been given all that, or the worker has ended and it has been given a beginning.
Kept : Bytes → Progress → Type 0
Kept all (running r) = r.stdin ≡ all
Kept all (finished c r) = IsPrefix r.stdin all

on_oob-Kept : (m : ReadResult) (r : Receiver) → Kept r.stdin (on_oob m r)
unfolding on_oob stop Kept
on_oob-Kept (unreadable e) r = IsPrefix-refl r.stdin
on_oob-Kept (received shutdown) r = IsPrefix-refl r.stdin
on_oob-Kept (received (start_ok pid)) r = refl
on_oob-Kept (received (start_err e)) r = refl
on_oob-Kept (received (server_exited m)) r = refl
on_oob-Kept (received (process_stderr l)) r = refl

on_binary-Kept :
    (G : Grammar) (msg : Bytes) (w : Written) (r : Receiver)
    → Kept (r.stdin ++ msg) (on_binary G msg w r)
unfolding on_binary stop Kept
on_binary-Kept G msg all_written r =
    (log_request-view (accumulate_request G r.accumulator msg).0 _).0
on_binary-Kept G msg (write_failed n e) r =
    append-IsPrefix r.stdin (take n msg) msg (take-IsPrefix n msg)

step-Kept :
    (G : Grammar) (r : Receiver) (i : Incoming) (w : Written)
    → Kept (r.stdin ++ concat (carried i)) (step G r i w)
unfolding step stop Kept
step-Kept G r (failed status e) w = elim (Bool-cases (eqb_ℤ status (negsuc 0))) [
  | inl h ↦ rw h (prefix-append r.stdin [])
  | inr h ↦ rw h (prefix-append r.stdin [])
]
step-Kept G r (message binary_type msg) w = rw (append-nil msg) (on_binary-Kept G msg w r)
step-Kept G r (message text_type msg) w =
    rw (append-nil r.stdin) (on_oob-Kept (read_message G msg) r)
step-Kept G r (message other_type msg) w = prefix-append r.stdin []

resume-IsPrefix :
    (G : Grammar) (turns : List Turn) (p : Progress) (all : Bytes)
    → ((r : Receiver)
        → IsPrefix (stdin_of (receive G r turns)) (r.stdin ++ concat (binaries turns)))
    → Kept all p
    → IsPrefix (stdin_of (resume (λ r. receive G r turns) p)) (all ++ concat (binaries turns))
unfolding resume Kept
resume-IsPrefix G turns (running r) all ih k = rw (← k) (ih r)
resume-IsPrefix G turns (finished c r) all ih k =
    IsPrefix-append r.stdin all (concat (binaries turns)) k

-- What the process is given is a beginning of what the binary messages bring, whatever the rounds are.
pub receive-IsPrefix :
    (G : Grammar) (r : Receiver) (turns : List Turn)
    → IsPrefix (stdin_of (receive G r turns)) (r.stdin ++ concat (binaries turns))
unfolding receive
receive-IsPrefix G r [] = prefix-append r.stdin []
receive-IsPrefix G r (t ∷ turns) =
    let p = step G r t.incoming t.written in
    subst (IsPrefix (stdin_of (resume (λ s. receive G s turns) p))) (simp list_laws) (
      resume-IsPrefix G turns p _ (λ s. receive-IsPrefix G s turns)
        (step-Kept G r t.incoming t.written))
