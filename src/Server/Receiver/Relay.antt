-- ===== src/Server/Receiver/Relay.antt =====
-- What the receiver does to the stdin of the process, over any rounds.
use mcptp.Base.{
  Bool, false, ◌≡◌, refl, sym, ap, ◌∙◌, Option, none, some, List, [], ◌∷◌, ◌++◌, map, append_assoc,
  append-nil, arith, Bytes, concat, take,
}
use mcptp.Json.{Grammar, IsGrammar}
use mcptp.Jsonrpc.Accumulator.{
  Accumulator, Accumulated, incomplete, complete, rejected, accumulate_request,
}
use mcptp.Jsonrpc.Request.{Request}
use mcptp.Oob.{ReadResult, shutdown, read_message, frame}
use mcptp.Oob.RoundTrip.{read_message-frame}
use mcptp.Server.Close.{CloseError, shutdown_acknowledged}
use mcptp.Server.Receiver.{
  Incoming, message, failed, Written, all_written, write_failed, Turn, Receiver, Progress, running,
  finished, LogEntry, on_binary, on_oob, log_request, step, resume, receive,
}
use mcptp.Websocket.{text_type, binary_type, other_type, status_normal_closure}

-- What the rest of the program can see of a worker: its result, and the stdin of the process.
pub record View : Type 0 where
  pub result : Option (Option CloseError)
  pub stdin : Bytes
  pub stdin_open : Bool

abbrev pub view : Progress → View
view (running r) = record { result = none; stdin = r.stdin; stdin_open = r.stdin_open }
view (finished c r) = record { result = some c; stdin = r.stdin; stdin_open = r.stdin_open }

-- Two workers that differ in the accumulator and the log at most.
abbrev pub Alike : Receiver → Receiver → Type 0
Alike r s = (r.stdin ≡ s.stdin) × (r.stdin_open ≡ s.stdin_open)

abbrev AlikeProgress : Progress → Progress → Type 0
AlikeProgress (running r) (running s) = Alike r s
AlikeProgress (finished c r) (finished d s) = (c ≡ d) × Alike r s
AlikeProgress _ _ = ⊥

pub log_request-view :
    (a : Accumulated Request) (r : Receiver)
    → ((log_request a r).stdin ≡ r.stdin) × ((log_request a r).stdin_open ≡ r.stdin_open)
unfolding log_request
log_request-view incomplete r = (refl, refl)
log_request-view (complete q) r = (refl, refl)
log_request-view (rejected e) r = (refl, refl)

on_oob-Alike :
    (m : ReadResult) (r s : Receiver) → Alike r s → AlikeProgress (on_oob m r) (on_oob m s)
unfolding on_oob
on_oob-Alike m r s h = ground arith

on_binary-Alike :
    (G : Grammar) (msg : Bytes) (w : Written) (r s : Receiver)
    → Alike r s
    → AlikeProgress (on_binary G msg w r) (on_binary G msg w s)
unfolding on_binary
on_binary-Alike G msg (write_failed n e) r s h = (refl, (ap (λ x. x ++ take n msg) h.0, h.1))
on_binary-Alike G msg all_written r s h =
    let a = log_request-view (accumulate_request G r.accumulator msg).0 (record r {
      stdin = r.stdin ++ msg;
      accumulator = (accumulate_request G r.accumulator msg).1;
    }) in
    let b = log_request-view (accumulate_request G s.accumulator msg).0 (record s {
      stdin = s.stdin ++ msg;
      accumulator = (accumulate_request G s.accumulator msg).1;
    }) in
    (a.0 ∙ ap (λ x. x ++ msg) h.0 ∙ sym b.0, a.1 ∙ h.1 ∙ sym b.1)

step-Alike :
    (G : Grammar) (i : Incoming) (w : Written) (r s : Receiver)
    → Alike r s
    → AlikeProgress (step G r i w) (step G s i w)
unfolding step
step-Alike G (failed status e) w r s h = ground arith
step-Alike G (message binary_type msg) w r s h = on_binary-Alike G msg w r s h
step-Alike G (message text_type msg) w r s h = on_oob-Alike (read_message G msg) r s h
step-Alike G (message other_type msg) w r s h = ground arith

resume-view :
    (next : Receiver → Progress) (p q : Progress)
    → AlikeProgress p q
    → ((r s : Receiver) → Alike r s → view (next r) ≡ view (next s))
    → view (resume next p) ≡ view (resume next q)
unfolding resume
resume-view next (running r) (running s) h k = k r s h
resume-view next (finished c r) (finished d s) h k = ground arith
resume-view next (running r) (finished d s) h k = absurd h
resume-view next (finished c r) (running s) h k = absurd h

receive-view :
    (G : Grammar) (ts : List Turn) (r s : Receiver)
    → Alike r s
    → view (receive G r ts) ≡ view (receive G s ts)
unfolding receive
receive-view G [] r s h = ground arith
receive-view G (t ∷ ts) r s h =
    resume-view (λ r'. receive G r' ts) _ _ (step-Alike G t.incoming t.written r s h)
      (λ r' s' k. receive-view G ts r' s' k)

-- The accumulator and the log do not reach what the process is given or how the worker ends,
-- whatever the messages are.
pub view-receive :
    (G : Grammar) (r : Receiver) (other : Accumulator) (entries : List LogEntry) (ts : List Turn)
    → view (receive G (record r { accumulator = other; log = entries }) ts) ≡ view (receive G r ts)
view-receive G r other entries ts = receive-view G ts _ r (refl, refl)

-- A binary message that the process took.
abbrev pub relayed : Bytes → Turn
relayed msg = record { incoming = message binary_type msg; written = all_written }

receive-relayed :
    (G : Grammar) (msg : Bytes) (r : Receiver) (rest : List Turn)
    → view (receive G r (relayed msg ∷ rest))
      ≡ view (receive G (record r { stdin = r.stdin ++ msg }) rest)
unfolding receive
receive-relayed G msg r rest =
    let next = record r {
      stdin = r.stdin ++ msg;
      accumulator = (accumulate_request G r.accumulator msg).1;
    } in
    receive-view G rest _ _ (log_request-view (accumulate_request G r.accumulator msg).0 next)

-- Binary messages reach the process whole, once and in order, whatever their bytes mean as JSON.
pub receive-relay :
    (G : Grammar) (r : Receiver) (msgs : List Bytes) (rest : List Turn)
    → view (receive G r (map relayed msgs ++ rest))
      ≡ view (receive G (record r { stdin = r.stdin ++ concat msgs }) rest)
receive-relay G r [] rest = rw append-nil
receive-relay G r (msg ∷ msgs) rest =
    receive-relayed G msg r (map relayed msgs ++ rest)
    ∙ receive-relay G (record r { stdin = r.stdin ++ msg }) msgs rest
    ∙ rw append_assoc

-- After any binary messages that are relayed, a shutdown message ends the worker with a normal
-- closure: the stdin of the process has got the messages whole, once and in order, and is closed,
-- whatever would follow.
pub receive-shutdown :
    (G : Grammar)
    → IsGrammar G
    → (r : Receiver) (msgs : List Bytes) (w : Written) (rest : List Turn)
    → let quit : Turn = record { incoming = message text_type (frame G shutdown); written = w } in
      view (receive G r (map relayed msgs ++ quit ∷ rest)) ≡ record {
        result =
            some (some (record { code = status_normal_closure; reason = shutdown_acknowledged }));
        stdin = r.stdin ++ concat msgs;
        stdin_open = false;
      }
unfolding receive
receive-shutdown G g r msgs w rest =
    receive-relay G r msgs _ ∙ rw (read_message-frame G g shutdown tt, on_oob)
