-- ===== src/Oob/Send/Delivery.antt =====
-- What a sent payload is to the one who reads it.
use mcptp.Base.{◌≡◌, refl, ap, ◌∙◌, Option, none, some, [], ◌∷◌, String, Bytes, ok}
use mcptp.Json.{Json, Grammar, IsGrammar}
use mcptp.Oob.{
  Payload, start_ok, start_err, shutdown, server_exited, process_stderr, frame, received,
  read_message, type_of, marshal_payload, marshal_message,
}
use mcptp.Oob.RoundTrip.{IsIntPayload, as_texts, read_message-frame}
use mcptp.Oob.Send.{Channel, SendError, send_failed, envelope, to_outcome, send}
use mcptp.Websocket.{text_type}

-- The channel's `json.Marshal` prints as the grammar does, and does not fail.
abbrev pub Prints : Grammar → Channel → Type 0
Prints G c = ((v : Json) → c.marshal v ≡ ok (G.print v)) × (c.decode_utf8 ≡ G.decode_utf8)

-- The error of the write, as the caller gets it.
abbrev pub as_send_error : Option String → Option SendError
as_send_error none = none
as_send_error (some e) = some (send_failed e)

envelope-frame :
    (G : Grammar) (c : Channel) (p : Payload)
    → Prints G c
    → envelope c (type_of p) (marshal_payload c.decode_utf8 p) ≡ ok (frame G p)
unfolding envelope frame
envelope-frame G c p (h, u) = rw u (
    simp (
      h (marshal_payload G.decode_utf8 p),
      h (
          marshal_message
            (record { kind = type_of p; payload = some (marshal_payload G.decode_utf8 p) })),
    ))

to_outcome-ok :
    (c : Channel) (msg : Bytes) (o : Option String)
    → c.write text_type msg ≡ o
    → to_outcome c (ok msg) ≡ ((text_type, msg) ∷ [], as_send_error o)
unfolding to_outcome
to_outcome-ok c msg none e = rw (e, to_outcome)
to_outcome-ok c msg (some x) e = rw (e, to_outcome)

send_outcome :
    (c : Channel) (p : Payload)
    → send c p ≡ to_outcome c (envelope c (type_of p) (marshal_payload c.decode_utf8 p))
unfolding send to_outcome envelope
send_outcome c (start_ok pid) = refl
send_outcome c (start_err e) = refl
send_outcome c shutdown = refl
send_outcome c (server_exited m) = refl
send_outcome c (process_stderr line) = refl

-- Each of the five methods gives the websocket one text message and returns the error of the write,
-- nil or wrapped; and the one who reads the message gets the payload back, with U+FFFD for each byte of
-- its strings that is no UTF-8. It holds for numbers that are Go ints and any grammar that reads what
-- it prints.
pub send-received :
    (G : Grammar) (c : Channel) (p : Payload)
    → IsGrammar G
    → Prints G c
    → IsIntPayload p
    → (msg : Bytes) × (send c p ≡ ((text_type, msg) ∷ [], as_send_error (c.write text_type msg)))
      × (read_message G msg ≡ received (as_texts G p))
send-received G c p g h i = (
  frame G p,
  send_outcome c p
      ∙ ap (to_outcome c) (envelope-frame G c p h)
      ∙ to_outcome-ok c (frame G p) _ refl,
  read_message-frame G g p i,
)
