-- ===== src/Server/Stdout/Stops.antt =====
-- What ends the sender although the process and the websocket are well.
use mathlib.Core.List.{append-ne-nil_of_right_ne-nil}
use mcptp.Base.{◌≡◌, ◌≢◌, refl, ap, ◌∙◌, false, none, some, List, [], ◌∷◌, ◌++◌, Bytes}
use mcptp.Json.{Grammar, object, Fields, Lacks}
use mcptp.Jsonrpc.Accumulator.{AccumulateError, rejected, accumulate_response}
use mcptp.Jsonrpc.Accumulator.Lines.{has_newline, last_part}
use mcptp.Jsonrpc.Accumulator.Streams.{accumulate_response-line}
use mcptp.Jsonrpc.Validity.{check_message-Lacks}
use mcptp.Server.Close.{stdout_bad_message}
use mcptp.Server.Stdout.{
  Turn, sent_ok, Sender, finished, after_send, step, resume, forward, response_failed,
}
use mcptp.Server.Stdout.Frames.{passed}
use mcptp.Websocket.{status_internal_error}

step_rejected :
    (G : Grammar) (s : Sender) (chunk : Bytes) {e : AccumulateError} {left : Bytes}
    → chunk ≢ []
    → accumulate_response G s.accumulator chunk ≡ (rejected e, left)
    → (s' : Sender) × (step G chunk none sent_ok s
        ≡ finished
            (some (record { code = status_internal_error; reason = stdout_bad_message e }))
            s')
      × (s'.frames ≡ s.frames ++ chunk ∷ [])
unfolding step
step_rejected G s [] n h = absurd (n refl)
step_rejected G s (b ∷ bs) {e} {left} n h =
    let base = record s { frames = s.frames ++ (b ∷ bs) ∷ []; accumulator = left } in
    (record base { log = base.log ++ response_failed e ∷ [] }, rw (h, after_send), refl)

-- When the first line that a chunk completes, after what the accumulator holds, is an object with
-- neither a result nor an error (a request or a notification of the process), the worker sends the
-- chunk, ends, and asks for the websocket to be closed with an internal error, whatever would follow.
pub forward_stops :
    (G : Grammar) (s : Sender) (line more : Bytes) (fields : Fields) (rest : List Turn)
    → has_newline (s.accumulator ++ line) ≡ false
    → G.parse ((s.accumulator ++ line) ++ b'\n' ∷ []) ≡ some (object fields)
    → Lacks "result" fields
    → Lacks "error" fields
    → (e : AccumulateError) × (s' : Sender) × (forward G s (passed (line ++ b'\n' ∷ more) ∷ rest)
        ≡ finished
            (some (record { code = status_internal_error; reason = stdout_bad_message e }))
            s')
      × (s'.frames ≡ s.frames ++ (line ++ b'\n' ∷ more) ∷ [])
unfolding forward
forward_stops G s line more fields rest n p a b =
    let (e, bad) = check_message-Lacks G _ fields p a b in
    let rejects =
      accumulate_response-line G s.accumulator line more n ∙ ap (λ r. (r, last_part more)) bad in
    let (s', ends, sends) =
      step_rejected G s (line ++ b'\n' ∷ more) (append-ne-nil_of_right_ne-nil line (λ e. cc))
        rejects in
    (e, s', rw (ends, resume), sends)
