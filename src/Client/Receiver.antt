-- ===== src/Client/Receiver.antt =====
-- client/proxy.go, `receiverStdin`: from the local stdin to the websocket.
pub mod Upload
pub mod Prefixes
use mcptp.Base.{Option, none, some, List, [], ◌∷◌, ◌++◌, String, Bytes, ℤ, pos}
use mcptp.Json.{Grammar}
use mcptp.Oob.{shutdown, frame}
use mcptp.Client.Exit.{Reason, ExitError, stdin_write_failed, shutdown_unsent, stdin_read_failed}

pub data ReadEnd : Type 0 where
  eof : ReadEnd
  other : String → ReadEnd

-- What a write to the websocket returns: nil, or an error with its text.
pub data Sent : Type 0 where
  sent_ok : Sent
  send_failed : String → Sent

-- One round of the loop: the bytes `buf[:n]`, the error of the read (`none` is nil), and the
-- answers to the write of the bytes and to that of the shutdown message.
pub record Turn : Type 0 where
  pub chunk : Bytes
  pub read_error : Option ReadEnd
  pub sent : Sent
  pub sent_shutdown : Sent

pub data Frame : Type 0 where
  binary_frame : Bytes → Frame
  text_frame : Bytes → Frame

-- `awaiting` is the wait for the end of the context after a shutdown message was sent.
pub data Progress : Type 0 where
  running : List Frame → Progress
  awaiting : List Frame → Progress
  finished : ExitError → List Frame → Progress

abbrev exit : Reason → ExitError
exit why = record { reason = why; code = pos 1 }

-- The end of standard input.
on_eof : Grammar → Sent → List Frame → Progress
on_eof G sent_ok frames = awaiting (frames ++ text_frame (frame G shutdown) ∷ [])
on_eof G (send_failed e) frames = finished (exit (shutdown_unsent e)) frames

-- `if err != nil { … }`
check_error : Grammar → Option ReadEnd → Sent → List Frame → Progress
unfolding on_eof
check_error G none quit frames = running frames
check_error G (some eof) quit frames = on_eof G quit frames
check_error G (some (other e)) quit frames = finished (exit (stdin_read_failed e)) frames

-- `if n > 0 { … }`, and the rest of the round.
step : Grammar → Bytes → Option ReadEnd → Sent → Sent → List Frame → Progress
unfolding check_error
step G [] e sent quit frames = check_error G e quit frames
step G (b ∷ bs) e (send_failed t) quit frames = finished (exit (stdin_write_failed t)) frames
step G (b ∷ bs) e sent_ok quit frames = check_error G e quit (frames ++ binary_frame (b ∷ bs) ∷ [])

resume : (List Frame → Progress) → Progress → Progress
resume next (running frames) = next frames
resume next (awaiting frames) = awaiting frames
resume next (finished e frames) = finished e frames

-- `receiverStdin` from the top of its loop, with the frames sent, over the rounds that the
-- environment answers.
unfoldable pub receive : Grammar → List Frame → List Turn → Progress
unfolding step resume
receive G frames [] = running frames
receive G frames (t ∷ ts) =
    resume (λ frames'. receive G frames' ts)
      (step G t.chunk t.read_error t.sent t.sent_shutdown frames)
